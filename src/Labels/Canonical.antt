-- ===== src/Labels/Canonical.antt =====
-- A label-set key depends on the set of labels alone.
use warmrunners.Base.{
  String, ◌≡◌, refl, sym, ap, ◌∙◌, subst, inl, inr, true, false, ◌||◌, List, [], ◌∷◌, ◌++◌, arith,
  ◌==◌, eq_iff, eq_refl, contains, contains-append, str_lt, str_lt_irrefl, str_lt_trans,
  str_lt_total, Bool-cases,
}
use warmrunners.Base.Sort.{sort, insort, IsBefore, IsAscending}
use warmrunners.Labels.{uniq_from, join_comma, label_set_key}

abbrev IsDistinct : List String → Type 0
IsDistinct [] = Unit
IsDistinct (x ∷ xs) = (contains xs x ≡ false) × IsDistinct xs

-- Two lists hold the same labels.
abbrev pub SameLabels : List String → List String → Type 0
SameLabels xs ys = (l : String) → contains xs l ≡ contains ys l

IsDistinct-snoc :
    (xs : List String) (l : String)
    → IsDistinct xs
    → contains xs l ≡ false
    → IsDistinct (xs ++ l ∷ [])
unfolding contains
IsDistinct-snoc [] l h k = (refl, tt)
IsDistinct-snoc (x ∷ xs) l h k =
    ground (arith, contains-append xs (l ∷ []) x, eq_iff l x, eq_iff x l, IsDistinct-snoc xs l h.1)

SameLabels-snoc :
    (seen uniq : List String) (l : String)
    → SameLabels seen uniq
    → SameLabels (l ∷ seen) (uniq ++ l ∷ [])
unfolding contains
SameLabels-snoc seen uniq l h x = ground (arith, contains-append uniq (l ∷ []) x, h x)

uniq_from-IsDistinct :
    (labels seen uniq : List String)
    → SameLabels seen uniq
    → IsDistinct uniq
    → IsDistinct (uniq_from seen uniq labels)
unfolding uniq_from
uniq_from-IsDistinct [] seen uniq same d = d
uniq_from-IsDistinct (l ∷ labels) seen uniq same d = elim (Bool-cases (contains seen l)) [
  | inl old ↦ rw (old, uniq_from) (uniq_from-IsDistinct labels seen uniq same d)
  | inr new ↦
      rw (new, uniq_from)
        (uniq_from-IsDistinct labels (l ∷ seen) (uniq ++ l ∷ []) (SameLabels-snoc seen uniq l same)
          (IsDistinct-snoc uniq l d (sym (same l) ∙ new)))
]

pub contains-uniq_from :
    (labels seen uniq : List String)
    → SameLabels seen uniq
    → (x : String)
    → contains (uniq_from seen uniq labels) x ≡ (contains uniq x || contains labels x)
unfolding uniq_from contains
contains-uniq_from [] seen uniq same x = ground arith
contains-uniq_from (l ∷ labels) seen uniq same x = elim (Bool-cases (contains seen l)) [
  | inl old ↦
      rw (old, uniq_from)
        (ground (arith, contains-uniq_from labels seen uniq same x, same x, eq_iff l x))
  | inr new ↦
      rw (new, uniq_from)
        (ground (
          arith,
          contains-uniq_from labels (l ∷ seen) (uniq ++ l ∷ []) (SameLabels-snoc seen uniq l same)
              x,
          contains-append uniq (l ∷ []) x,
        ))
]

pub contains-insort :
    (x : String) (ys : List String) (l : String)
    → contains (insort str_lt x ys) l ≡ (x == l || contains ys l)
unfolding contains insort
contains-insort x [] l = refl
contains-insort x (y ∷ ys) l = ground (arith, contains-insort x ys l)

pub contains-sort : (xs : List String) (l : String) → contains (sort str_lt xs) l ≡ contains xs l
unfolding contains sort
contains-sort [] l = refl
contains-sort (x ∷ xs) l = ground (arith, contains-insort x (sort str_lt xs) l, contains-sort xs l)

IsBefore-weaken :
    (x y : String) (zs : List String)
    → str_lt x y ≡ true
    → IsBefore str_lt y zs
    → IsBefore str_lt x zs
IsBefore-weaken x y [] h k = tt
IsBefore-weaken x y (z ∷ zs) h k = (str_lt_trans x y z h k.0, IsBefore-weaken x y zs h k.1)

IsBefore-insort :
    (x y : String) (zs : List String)
    → str_lt x y ≡ true
    → IsBefore str_lt x zs
    → IsBefore str_lt x (insort str_lt y zs)
unfolding insort
IsBefore-insort x y [] h k = (h, tt)
IsBefore-insort x y (z ∷ zs) h k = ground (arith, IsBefore-insort x y zs)

insort-IsAscending :
    (x : String) (ys : List String)
    → contains ys x ≡ false
    → IsAscending str_lt ys
    → IsAscending str_lt (insort str_lt x ys)
unfolding insort contains
insort-IsAscending x [] h k = (tt, tt)
insort-IsAscending x (y ∷ ys) h k = ground (
  arith,
  insort-IsAscending x ys,
  IsBefore-insort y x ys,
  IsBefore-weaken x y ys,
  str_lt_total x y,
  eq_iff y x,
)

sort-IsAscending : (xs : List String) → IsDistinct xs → IsAscending str_lt (sort str_lt xs)
unfolding sort
sort-IsAscending [] h = tt
sort-IsAscending (x ∷ xs) h =
    insort-IsAscending x (sort str_lt xs) (contains-sort xs x ∙ h.0) (sort-IsAscending xs h.1)

not_in_later :
    (x l : String) (xs : List String)
    → IsBefore str_lt x xs
    → contains xs l ≡ true
    → str_lt x l ≡ true
unfolding contains
not_in_later x l [] h k = cc
not_in_later x l (y ∷ ys) h k = ground (arith, eq_iff y l, not_in_later x l ys)

-- The first element of an ascending list is the only one of its value.
head_once : (x : String) (xs : List String) → IsBefore str_lt x xs → contains xs x ≡ false
head_once x xs h = elim (Bool-cases (contains xs x)) [
  | inl here ↦ absurd (ground (arith, not_in_later x x xs h here, str_lt_irrefl x))
  | inr absent ↦ absent
]

same_head :
    (x y : String) (xs ys : List String)
    → IsBefore str_lt x xs
    → IsBefore str_lt y ys
    → SameLabels (x ∷ xs) (y ∷ ys)
    → x ≡ y
unfolding contains
same_head x y xs ys hx hy same = ground (
  arith,
  same x,
  same y,
  eq_iff x y,
  eq_iff y x,
  eq_refl x,
  eq_refl y,
  not_in_later x y xs hx,
  not_in_later y x ys hy,
  str_lt_trans x y x,
  str_lt_irrefl x,
)

same_tail :
    (x : String) (xs ys : List String)
    → IsBefore str_lt x xs
    → IsBefore str_lt x ys
    → SameLabels (x ∷ xs) (x ∷ ys)
    → SameLabels xs ys
unfolding contains
same_tail x xs ys hx hy same l =
    ground (arith, same l, eq_iff x l, head_once x xs hx, head_once x ys hy)

-- An ascending list is determined by what it holds.
ascending_unique :
    (xs ys : List String)
    → IsAscending str_lt xs
    → IsAscending str_lt ys
    → SameLabels xs ys
    → xs ≡ ys
unfolding contains
ascending_unique [] [] hx hy same = refl
ascending_unique [] (y ∷ ys) hx hy same = absurd (ground (arith, same y, eq_refl y))
ascending_unique (x ∷ xs) [] hx hy same = absurd (ground (arith, same x, eq_refl x))
ascending_unique (x ∷ xs) (y ∷ ys) hx hy same =
    let e = same_head x y xs ys hx.0 hy.0 same in
    let below_x : IsBefore str_lt x ys = subst (λ z. IsBefore str_lt z ys) (sym e) hy.0 in
    let same_x : SameLabels (x ∷ xs) (x ∷ ys) =
      subst (λ z. SameLabels (x ∷ xs) (z ∷ ys)) (sym e) same in
    cc (e, ascending_unique xs ys hx.1 hy.1 (same_tail x xs ys hx.0 below_x same_x))

-- The labels of a key, in order.
pub sorted_labels : List String → List String
sorted_labels labels = sort str_lt (uniq_from [] [] labels)

pub contains-sorted_labels :
    (labels : List String) (l : String) → contains (sorted_labels labels) l ≡ contains labels l
unfolding sorted_labels contains
contains-sorted_labels labels l =
    contains-sort (uniq_from [] [] labels) l ∙ contains-uniq_from labels [] [] (λ x. refl) l

pub sorted_labels-IsAscending : (labels : List String) → IsAscending str_lt (sorted_labels labels)
unfolding sorted_labels
sorted_labels-IsAscending labels =
    sort-IsAscending (uniq_from [] [] labels) (uniq_from-IsDistinct labels [] [] (λ x. refl) tt)

pub label_set_key-eq-join :
    (labels : List String) → label_set_key labels ≡ join_comma (sorted_labels labels)
unfolding label_set_key sorted_labels uniq_from sort join_comma
label_set_key-eq-join [] = refl
label_set_key-eq-join (l ∷ labels) = refl

-- Two label lists that hold the same labels, in whatever order and however often, have one key.
pub label_set_key-SameLabels :
    (xs ys : List String) → SameLabels xs ys → label_set_key xs ≡ label_set_key ys
label_set_key-SameLabels xs ys same =
    label_set_key-eq-join xs
    ∙ ap join_comma (
        ascending_unique (sorted_labels xs) (sorted_labels ys) (sorted_labels-IsAscending xs)
          (sorted_labels-IsAscending ys)
          (λ l. contains-sorted_labels xs l ∙ same l ∙ sym (contains-sorted_labels ys l)))
    ∙ sym (label_set_key-eq-join ys)
