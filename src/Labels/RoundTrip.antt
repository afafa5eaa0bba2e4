-- ===== src/Labels/RoundTrip.antt =====
-- Splitting a label-set key gives the labels back, where no label is empty or holds a comma.
use Prim.Native.String.{◌++◌ as str_append}
use text.Mathlib.TextLemmas.{nil-append, cons-append}
use warmrunners.Base.{
  String, ◌≡◌, refl, sym, ap, ◌∙◌, ◌↔◌, Bool, true, false, ◌||◌, List, [], ◌∷◌, arith, eq_refl,
  contains, subst, str_lt,
}
use warmrunners.Base.Sort.{IsAscending}
use warmrunners.Labels.{is_comma, split_comma, join_comma, label_set_key, split_label_set_key}
use warmrunners.Labels.Canonical.{
  SameLabels, sorted_labels, sorted_labels-IsAscending, contains-sorted_labels,
  label_set_key-eq-join, label_set_key-SameLabels,
}

abbrev pub has_comma : String → Bool
has_comma String.[] = false
has_comma (String.◌∷◌ c s) = is_comma c || has_comma s

-- No label holds the separator, and none is empty: what GitHub accepts as a label.
pub record AreProper (labels : List String) : Type 0 where
  pub comma_free : (l : String) → contains labels l ≡ true → has_comma l ≡ false
  pub nonempty : contains labels "" ≡ false

split_comma_part : (l : String) → has_comma l ≡ false → split_comma l ≡ l ∷ []
unfolding split_comma
split_comma_part String.[] h = refl
split_comma_part (String.◌∷◌ c s) h = ground (arith, split_comma_part s)

split_comma_comma : (rest : String) → split_comma (str_append "," rest) ≡ "" ∷ split_comma rest
unfolding split_comma
split_comma_comma rest = rw (cons-append, nil-append)

split_comma-append :
    (l rest : String)
    → has_comma l ≡ false
    → split_comma (str_append l (str_append "," rest)) ≡ l ∷ split_comma rest
unfolding split_comma
split_comma-append String.[] rest h = rw nil-append (split_comma_comma rest)
split_comma-append (String.◌∷◌ c s) rest h =
    rw cons-append (ground (arith, split_comma-append s rest))

-- Every label of the list is free of commas.
abbrev AllFree : List String → Type 0
AllFree [] = Unit
AllFree (x ∷ xs) = (has_comma x ≡ false) × AllFree xs

AllFree-intro :
    (xs : List String) → ((l : String) → contains xs l ≡ true → has_comma l ≡ false) → AllFree xs
unfolding contains
AllFree-intro [] h = tt
AllFree-intro (x ∷ xs) h =
    (h x (ground (arith, eq_refl x)), AllFree-intro xs (λ l k. h l (ground arith)))

split_comma-join_comma :
    (x : String) (xs : List String) → AllFree (x ∷ xs) → split_comma (join_comma (x ∷ xs)) ≡ x ∷ xs
unfolding join_comma
split_comma-join_comma x [] h = split_comma_part x h.0
split_comma-join_comma x (y ∷ ys) h =
    split_comma-append x (join_comma (y ∷ ys)) h.0 ∙ ap (◌∷◌ x) (split_comma-join_comma y ys h.1)

-- A joined text is not empty if its first part is not.
split-join :
    (xs : List String)
    → AllFree xs
    → contains xs "" ≡ false
    → split_label_set_key (join_comma xs) ≡ xs
unfolding split_label_set_key join_comma contains
split-join [] h k = refl
split-join (String.[] ∷ xs) h k = absurd (ground (arith, eq_refl ""))
split-join (String.◌∷◌ c s ∷ []) h k = split_comma-join_comma (String.◌∷◌ c s) [] h
split-join (String.◌∷◌ c s ∷ y ∷ ys) h k =
    rw cons-append (rw (← cons-append) (split_comma-join_comma (String.◌∷◌ c s) (y ∷ ys) h))

split-sorted_labels :
    (labels : List String)
    → AreProper labels
    → split_label_set_key (label_set_key labels) ≡ sorted_labels labels
split-sorted_labels labels p =
    ap split_label_set_key (label_set_key-eq-join labels)
    ∙ split-join (sorted_labels labels)
        (AllFree-intro (sorted_labels labels)
          (λ l h. p.comma_free l (sym (contains-sorted_labels labels l) ∙ h)))
        (contains-sorted_labels labels "" ∙ p.nonempty)

-- Splitting the key of proper labels gives back exactly the set of labels.
pub contains-split_label_set_key :
    (labels : List String) (l : String)
    → AreProper labels
    → contains (split_label_set_key (label_set_key labels)) l ≡ contains labels l
contains-split_label_set_key labels l p =
    ap (λ xs. contains xs l) (split-sorted_labels labels p) ∙ contains-sorted_labels labels l

-- Splitting the key of proper labels gives back the labels: exactly those of the list, in strictly
-- ascending order, so that each stands there once.
pub split_label_set_key-label_set_key :
    (labels : List String)
    → AreProper labels
    → IsAscending str_lt (split_label_set_key (label_set_key labels))
      × SameLabels (split_label_set_key (label_set_key labels)) labels
split_label_set_key-label_set_key labels p = (
  subst (IsAscending str_lt) (sym (split-sorted_labels labels p))
      (sorted_labels-IsAscending labels),
  λ l. contains-split_label_set_key labels l p,
)

-- Two lists of proper labels have one key exactly when they hold the same labels.
pub label_set_key_iff :
    (xs ys : List String)
    → AreProper xs
    → AreProper ys
    → (label_set_key xs ≡ label_set_key ys) ↔ SameLabels xs ys
label_set_key_iff xs ys px py = (
  λ e l.
      sym (contains-split_label_set_key xs l px)
      ∙ ap (λ k. contains (split_label_set_key k) l) e
      ∙ contains-split_label_set_key ys l py,
  label_set_key-SameLabels xs ys,
)
