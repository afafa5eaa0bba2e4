-- ===== src/Controller/Attribution.antt =====
-- What a leg contributes to the floor, and what it shows in the status.
use warmrunners.Base.{
  ℕ, ◌+◌, ◌<◌, ◌≤◌, String, ◌≡◌, ◌∙◌, inl, inr, true, List, [], ◌∷◌, arith, ℤ, pos, +ℤ-pos, to_i32,
  to_i32_pos, to_i32_idem, InI32, GoMap, All, All-append, length, length-take-le, take, zero, suc,
  if◌then◌else◌, Bool-cases, str_lt_asym, str_lt_trans, str_lt_cotrans,
}
use warmrunners.Base.Sort.{sort, insort, IsOrder, IsSorted, HasNoneBefore, sort-IsSorted}
use warmrunners.Policy.{PredictedLabelSet}
use warmrunners.Labels.{label_set_key, split_label_set_key, labels_superset}
use warmrunners.Controller.Signals.{
  match_from, label_set_less, top_label_sets, contribution_of, predictor_top_n,
}

-- The counts of a map, as Go ints.
unfoldable pub as_ints : GoMap ℕ → GoMap ℤ
as_ints [] = []
as_ints ((k, n) ∷ m) = (k, pos n) ∷ as_ints m

-- How many jobs of the map a policy with these labels can serve.
unfoldable pub matching_total : List String → GoMap ℕ → ℕ
matching_total want [] = 0
matching_total want ((k, n) ∷ m) =
    (if labels_superset (split_label_set_key k) want then n else 0) + matching_total want m

match_from-total :
    (want : List String) (m : GoMap ℕ) (done : ℕ) (matched : List PredictedLabelSet)
    → done + matching_total want m < 2147483648
    → (match_from want (pos done) matched (as_ints m)).0 ≡ pos (done + matching_total want m)
unfolding match_from as_ints matching_total
match_from-total want [] done matched h = ground arith
match_from-total want ((k, n) ∷ m) done matched h =
    elim (Bool-cases (labels_superset (split_label_set_key k) want)) [
      | inl hit ↦
          rw
            (
              hit,
              match_from,
              to_i32_pos n (ground arith),
              +ℤ-pos done n,
              to_i32_pos (done + n) (ground arith),
            )
            (match_from-total want m (done + n) _ (ground arith) ∙ ground arith)
      | inr miss ↦
          rw (miss, match_from) (match_from-total want m done matched (ground arith) ∙ ground arith)
    ]

-- Where the jobs that a policy can serve are fewer than 2^31, their number is its contribution.
pub contribution_of-total :
    (want : List String) (m : GoMap ℕ)
    → matching_total want m < 2147483648
    → (contribution_of want (as_ints m)).contrib ≡ pos (matching_total want m)
unfolding contribution_of
contribution_of-total want m h = match_from-total want m 0 [] (ground arith) ∙ ground arith

match_from-InI32 :
    (want : List String) (m : GoMap ℤ) (contrib : ℤ) (matched : List PredictedLabelSet)
    → InI32 contrib
    → InI32 (match_from want contrib matched m).0
unfolding match_from
match_from-InI32 want [] contrib matched h = h
match_from-InI32 want ((k, n) ∷ m) contrib matched h =
    elim (Bool-cases (labels_superset (split_label_set_key k) want)) [
      | inl hit ↦ rw (hit, match_from) (match_from-InI32 want m _ _ (to_i32_idem _))
      | inr miss ↦ rw (miss, match_from) (match_from-InI32 want m contrib matched h)
    ]

pub contribution_of-InI32 :
    (want : List String) (m : GoMap ℤ) → InI32 (contribution_of want m).contrib
unfolding contribution_of
contribution_of-InI32 want m = match_from-InI32 want m (pos 0) [] (to_i32_pos 0 (ground arith))

-- The label set can be served by the policy.
abbrev pub IsServed : List String → PredictedLabelSet → Type 0
IsServed want s = labels_superset s.labels want ≡ true

match_from-IsServed :
    (want : List String) (m : GoMap ℤ) (contrib : ℤ) (matched : List PredictedLabelSet)
    → All (IsServed want) matched
    → All (IsServed want) (match_from want contrib matched m).1
unfolding match_from
match_from-IsServed want [] contrib matched h = h
match_from-IsServed want ((k, n) ∷ m) contrib matched h =
    elim (Bool-cases (labels_superset (split_label_set_key k) want)) [
      | inl hit ↦
          rw (hit, match_from)
            (match_from-IsServed want m _ _ (
              All-append (IsServed want) matched
                (record { labels = split_label_set_key k; count = to_i32 n } ∷ []) h (hit, tt)))
      | inr miss ↦ rw (miss, match_from) (match_from-IsServed want m contrib matched h)
    ]

label_set_less-IsOrder : IsOrder label_set_less
unfolding label_set_less
label_set_less-IsOrder = record {
  asym = λ a b. ground (arith, str_lt_asym (label_set_key a.labels) (label_set_key b.labels));
  trans = λ a b c. ground (
    arith,
    str_lt_trans (label_set_key a.labels) (label_set_key b.labels) (label_set_key c.labels),
  );
  cotrans = λ a b c. ground (
    arith,
    str_lt_cotrans (label_set_key a.labels) (label_set_key b.labels) (label_set_key c.labels),
  );
}

All-insort :
    (P : PredictedLabelSet → Type 0) (x : PredictedLabelSet) (ys : List PredictedLabelSet)
    → P x
    → All P ys
    → All P (insort label_set_less x ys)
unfolding insort
All-insort P x [] h k = (h, tt)
All-insort P x (y ∷ ys) h k = elim (Bool-cases (label_set_less y x)) [
  | inl later ↦ rw (later, insort) (k.0, All-insort P x ys h k.1)
  | inr first ↦ rw (first, insort) (h, k)
]

All-sort :
    (P : PredictedLabelSet → Type 0) (xs : List PredictedLabelSet)
    → All P xs
    → All P (sort label_set_less xs)
unfolding sort
All-sort P [] h = tt
All-sort P (x ∷ xs) h = All-insort P x (sort label_set_less xs) h.0 (All-sort P xs h.1)

All-take :
    (P : PredictedLabelSet → Type 0) (n : ℕ) (xs : List PredictedLabelSet)
    → All P xs
    → All P (take n xs)
All-take P zero xs h = tt
All-take P (suc n) [] h = tt
All-take P (suc n) (x ∷ xs) h = (h.0, All-take P n xs h.1)

HasNoneBefore-take :
    (n : ℕ) (x : PredictedLabelSet) (xs : List PredictedLabelSet)
    → HasNoneBefore label_set_less x xs
    → HasNoneBefore label_set_less x (take n xs)
HasNoneBefore-take zero x xs h = tt
HasNoneBefore-take (suc n) x [] h = tt
HasNoneBefore-take (suc n) x (y ∷ ys) h = (h.0, HasNoneBefore-take n x ys h.1)

IsSorted-take :
    (n : ℕ) (xs : List PredictedLabelSet)
    → IsSorted label_set_less xs
    → IsSorted label_set_less (take n xs)
IsSorted-take zero xs h = tt
IsSorted-take (suc n) [] h = tt
IsSorted-take (suc n) (x ∷ xs) h = (HasNoneBefore-take n x xs h.0, IsSorted-take n xs h.1)

-- The label sets for the status are eight at most, in the order of the comparison, and each can be
-- served by the policy.
pub contribution_of-matched :
    (want : List String) (m : GoMap ℤ)
    → let shown = (contribution_of want m).matched in
      (length shown ≤ 8) × IsSorted label_set_less shown × All (IsServed want) shown
unfolding contribution_of top_label_sets
contribution_of-matched want m =
    let matched = (match_from want (pos 0) [] m).1 in
    (
      length-take-le predictor_top_n (sort label_set_less matched),
      IsSorted-take predictor_top_n (sort label_set_less matched)
          (sort-IsSorted label_set_less label_set_less-IsOrder matched),
      All-take (IsServed want) predictor_top_n (sort label_set_less matched)
          (All-sort (IsServed want) matched (match_from-IsServed want m (pos 0) [] tt)),
    )
