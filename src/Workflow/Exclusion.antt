-- ===== src/Workflow/Exclusion.antt =====
-- `exclude` of a matrix: the combinations that an entry describes are left out, and no others.
use mathlib.Core.List.{Memᴰ}
use mathlib.Core.List.Memᴰ
use warmrunners.Base.{
  ap, ◌∙◌, String, ◌≡◌, refl, ◌↔◌, ◌⊎◌, inl, inr, Bool, true, false, List, [], ◌∷◌, Option, none,
  some, arith, GoMap, lookup, eq_iff, if◌then◌else◌, Bool-cases, Option-cases,
}
use warmrunners.Workflow.{RawYaml, MatrixCombination, MatrixCombinations}
use warmrunners.Workflow.Combos.{
  Combo, as_raw, has_value, matches_combination, matches_any_combination, apply_exclude,
}

-- The combination has every value that the entry assigns.
abbrev pub Describes : GoMap (Option RawYaml) → Combo → Type 0
Describes [] c = Unit
Describes ((k, none) ∷ assigns) c = Describes assigns c
Describes ((k, some a) ∷ assigns) c = (lookup k c ≡ some (as_raw a)) × Describes assigns c

pub has_value_iff :
    (c : Combo) (k want : String) → (has_value c k want ≡ true) ↔ (lookup k c ≡ some want)
unfolding has_value
has_value_iff c k want = elim (Option-cases (lookup k c)) [
  | inl missing ↦ (λ h. ground (arith, missing), λ h. ground (arith, missing))
  | inr (got, found) ↦
      (λ h. ground (arith, found, eq_iff got want), λ h. ground (arith, found, eq_iff got want))
]

matches_combination-Describes :
    (assigns : GoMap (Option RawYaml)) (c : Combo)
    → matches_combination c assigns ≡ true
    → Describes assigns c
unfolding matches_combination
matches_combination-Describes [] c h = tt
matches_combination-Describes ((k, none) ∷ assigns) c h = matches_combination-Describes assigns c h
matches_combination-Describes ((k, some a) ∷ assigns) c h = (
  ground (arith, has_value_iff c k (as_raw a)),
  matches_combination-Describes assigns c (ground arith),
)

Describes-matches_combination :
    (assigns : GoMap (Option RawYaml)) (c : Combo)
    → Describes assigns c
    → matches_combination c assigns ≡ true
unfolding matches_combination
Describes-matches_combination [] c h = refl
Describes-matches_combination ((k, none) ∷ assigns) c h = Describes-matches_combination assigns c h
Describes-matches_combination ((k, some a) ∷ assigns) c h =
    rw ((has_value_iff c k (as_raw a)).1 h.0) (Describes-matches_combination assigns c h.1)

-- One of the entries, which is no expression, describes the combination.
abbrev pub IsExcluded : List (Option MatrixCombination) → Combo → Type 0
IsExcluded [] c = ⊥
IsExcluded (none ∷ combs) c = IsExcluded combs c
IsExcluded (some comb ∷ combs) c =
    ((comb.expression ≡ none) × Describes comb.assigns c) ⊎ IsExcluded combs c

matches_any-IsExcluded :
    (combs : List (Option MatrixCombination)) (c : Combo)
    → matches_any_combination c combs ≡ true
    → IsExcluded combs c
unfolding matches_any_combination
matches_any-IsExcluded [] c h = ground arith
matches_any-IsExcluded (none ∷ combs) c h = matches_any-IsExcluded combs c h
matches_any-IsExcluded (some comb ∷ combs) c h = elim (Option-cases comb.expression) [
  | inr (e, dynamic) ↦ inr (matches_any-IsExcluded combs c (ground (arith, dynamic)))
  | inl literal ↦ elim (Bool-cases (matches_combination c comb.assigns)) [
    | inl hit ↦ inl (literal, matches_combination-Describes comb.assigns c hit)
    | inr miss ↦ inr (matches_any-IsExcluded combs c (ground (arith, literal, miss)))
  ]
]

IsExcluded-matches_any :
    (combs : List (Option MatrixCombination)) (c : Combo)
    → IsExcluded combs c
    → matches_any_combination c combs ≡ true
unfolding matches_any_combination
IsExcluded-matches_any [] c h = elim h [ ]
IsExcluded-matches_any (none ∷ combs) c h = IsExcluded-matches_any combs c h
IsExcluded-matches_any (some comb ∷ combs) c (inl (literal, h)) =
    ground (arith, Describes-matches_combination comb.assigns c h)
IsExcluded-matches_any (some comb ∷ combs) c (inr h) =
    ground (arith, IsExcluded-matches_any combs c h)

module _ (ex : MatrixCombinations) where
  abbrev is_matched : Combo → Bool
  is_matched c = matches_any_combination c ex.combinations

  -- One step of the loop, for a combination that stays in the rest.
  kept_step :
      {c d : Combo} {rest combos : List Combo} (out : Bool)
      → is_matched d ≡ out
      → (Memᴰ c rest → Memᴰ c combos × (is_matched c ≡ false))
      → Memᴰ c (if out then rest else d ∷ rest)
      → Memᴰ c (d ∷ combos) × (is_matched c ≡ false)
  kept_step true e below m = let r = below m in (Memᴰ.tail r.0, r.1)
  kept_step false e below (Memᴰ.head same) = (Memᴰ.head same, ap is_matched same ∙ e)
  kept_step false e below (Memᴰ.tail m) = let r = below m in (Memᴰ.tail r.0, r.1)

  apply_exclude-kept :
      (combos : List Combo) (c : Combo)
      → Memᴰ c (apply_exclude combos ex)
      → Memᴰ c combos × (is_matched c ≡ false)
  unfolding apply_exclude
  apply_exclude-kept [] c m = absurd (Memᴰ.not-nil m)
  apply_exclude-kept (d ∷ combos) c m =
      kept_step (is_matched d) refl (apply_exclude-kept combos c) m

  left_step :
      {c d : Combo} {rest combos : List Combo} (out : Bool)
      → is_matched d ≡ out
      → is_matched c ≡ false
      → (Memᴰ c combos → Memᴰ c rest)
      → Memᴰ c (d ∷ combos)
      → Memᴰ c (if out then rest else d ∷ rest)
  left_step true e h below (Memᴰ.head same) = absurd (ground (arith, ap is_matched same))
  left_step true e h below (Memᴰ.tail m) = below m
  left_step false e h below (Memᴰ.head same) = Memᴰ.head same
  left_step false e h below (Memᴰ.tail m) = Memᴰ.tail (below m)

  apply_exclude-left :
      (combos : List Combo) (c : Combo)
      → is_matched c ≡ false
      → Memᴰ c combos
      → Memᴰ c (apply_exclude combos ex)
  unfolding apply_exclude
  apply_exclude-left [] c h m = m
  apply_exclude-left (d ∷ combos) c h m =
      left_step (is_matched d) refl h (apply_exclude-left combos c h) m

  matched_false : (c : Combo) → ¬ IsExcluded ex.combinations c → is_matched c ≡ false
  matched_false c h = elim (Bool-cases (is_matched c)) [
    | inl hit ↦ absurd (h (matches_any-IsExcluded ex.combinations c hit))
    | inr miss ↦ miss
  ]

-- A combination is left by `exclude` exactly when it was there and no entry of the list that is
-- not an expression describes it: an entry describes a combination that has all of its values.
pub apply_exclude_iff :
    (combos : List Combo) (ex : MatrixCombinations) (c : Combo)
    → Memᴰ c (apply_exclude combos ex) ↔ (Memᴰ c combos × (¬ IsExcluded ex.combinations c))
apply_exclude_iff combos ex c = (
  λ m.
      let r = apply_exclude-kept ex combos c m in
      (r.0, λ out. ground (arith, IsExcluded-matches_any ex.combinations c out, r.1)),
  λ h. apply_exclude-left ex combos c (matched_false ex c h.1) h.0,
)
