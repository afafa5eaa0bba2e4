-- ===== src/Workflow/Inclusion.antt =====
-- `include` of a matrix: no combination is lost and no value of a row changes; and a matrix of
-- `include` entries alone has one combination.
use warmrunners.Base.{
  ◌+◌, ◌≤◌, String, ◌≡◌, refl, ◌∙◌, true, false, List, [], ◌∷◌, ◌++◌, Option, none, some, arith,
  GoMap, lookup, insert, lookup-insert, eq_iff, Bool-cases, inl, inr, is_some, contains, length,
  length-append, map,
}
use warmrunners.Workflow.{RawYaml, MatrixCombination, MatrixCombinations, Matrix, Actionlint}
use warmrunners.Workflow.Combos.{
  Combo, MatrixAxis, as_raw, copy_map, assign_all, combination_matches_on_axes, merge_into,
  include_one, include_all, apply_include, map_matrix, literal_combos, combos_of, excluded,
  included, axes_of, expand_rows,
}
use warmrunners.Base.Sort.{sort}
use warmrunners.Workflow.Exclusion.{has_value_iff}

pub lookup-copy_map : (k : String) (c : Combo) → lookup k (copy_map c) ≡ lookup k c
unfolding copy_map lookup
lookup-copy_map k [] = refl
lookup-copy_map k ((j, v) ∷ c) =
    ground (arith, lookup-insert j k v (copy_map c), lookup-copy_map k c)

-- Both maps have the same value for each name of a row.
abbrev pub Agrees : List String → Combo → Combo → Type 0
Agrees row_keys c d = (k : String) → contains row_keys k ≡ true → lookup k d ≡ lookup k c

-- Each of the combinations is still there, in its place, with its values for the rows; others
-- stand behind them.
abbrev pub KeepsRows : List String → List Combo → List Combo → Type 0
KeepsRows row_keys [] after = Unit
KeepsRows row_keys (c ∷ before) [] = ⊥
KeepsRows row_keys (c ∷ before) (d ∷ after) = Agrees row_keys c d × KeepsRows row_keys before after

assign_all-Agrees :
    (row_keys : List String) (c : Combo) (assigns : GoMap (Option RawYaml)) (d : Combo)
    → combination_matches_on_axes c assigns row_keys ≡ true
    → Agrees row_keys c d
    → Agrees row_keys c (assign_all d assigns)
unfolding combination_matches_on_axes assign_all
assign_all-Agrees row_keys c [] d h agrees = agrees
assign_all-Agrees row_keys c ((k, none) ∷ assigns) d h agrees =
    assign_all-Agrees row_keys c assigns d h agrees
assign_all-Agrees row_keys c ((k, some a) ∷ assigns) d h agrees =
    assign_all-Agrees row_keys c assigns (insert k (as_raw a) d) (ground arith) λ j axis. ground (
      arith,
      agrees j axis,
      lookup-insert k j (as_raw a) d,
      has_value_iff c k (as_raw a),
      eq_iff k j,
    )

merge_into-KeepsRows :
    (row_keys : List String) (assigns : GoMap (Option RawYaml)) (combos : List Combo)
    → KeepsRows row_keys combos (merge_into row_keys assigns combos).0
unfolding merge_into
merge_into-KeepsRows row_keys assigns [] = tt
merge_into-KeepsRows row_keys assigns (c ∷ combos) =
    elim (Bool-cases (combination_matches_on_axes c assigns row_keys)) [
      | inl hit ↦ rw hit (
        assign_all-Agrees row_keys c assigns (copy_map c) hit (λ k axis. lookup-copy_map k c),
        merge_into-KeepsRows row_keys assigns combos,
      )
      | inr miss ↦ rw miss ((λ k axis. refl), merge_into-KeepsRows row_keys assigns combos)
    ]

KeepsRows-append :
    (row_keys : List String) (before after more : List Combo)
    → KeepsRows row_keys before after
    → KeepsRows row_keys before (after ++ more)
KeepsRows-append row_keys [] after more h = tt
KeepsRows-append row_keys (c ∷ before) [] more h = elim h [ ]
KeepsRows-append row_keys (c ∷ before) (d ∷ after) more h =
    (h.0, KeepsRows-append row_keys before after more h.1)

KeepsRows-trans :
    (row_keys : List String) (xs ys zs : List Combo)
    → KeepsRows row_keys xs ys
    → KeepsRows row_keys ys zs
    → KeepsRows row_keys xs zs
KeepsRows-trans row_keys [] ys zs h g = tt
KeepsRows-trans row_keys (x ∷ xs) [] zs h g = elim h [ ]
KeepsRows-trans row_keys (x ∷ xs) (y ∷ ys) [] h g = elim g [ ]
KeepsRows-trans row_keys (x ∷ xs) (y ∷ ys) (z ∷ zs) h g =
    ((λ k axis. g.0 k axis ∙ h.0 k axis), KeepsRows-trans row_keys xs ys zs h.1 g.1)

KeepsRows-refl : (row_keys : List String) (xs : List Combo) → KeepsRows row_keys xs xs
KeepsRows-refl row_keys [] = tt
KeepsRows-refl row_keys (x ∷ xs) = ((λ k axis. refl), KeepsRows-refl row_keys xs)

include_one-KeepsRows :
    (row_keys : List String) (assigns : GoMap (Option RawYaml)) (combos : List Combo)
    → KeepsRows row_keys combos (include_one row_keys assigns combos)
unfolding include_one
include_one-KeepsRows row_keys assigns combos =
    elim (Bool-cases (merge_into row_keys assigns combos).1) [
      | inl merged ↦ rw merged (merge_into-KeepsRows row_keys assigns combos)
      | inr alone ↦ rw alone (
          KeepsRows-append row_keys combos (merge_into row_keys assigns combos).0 _
            (merge_into-KeepsRows row_keys assigns combos))
    ]

length-merge_into :
    (row_keys : List String) (assigns : GoMap (Option RawYaml)) (combos : List Combo)
    → length (merge_into row_keys assigns combos).0 ≡ length combos
unfolding merge_into
length-merge_into row_keys assigns [] = refl
length-merge_into row_keys assigns (c ∷ combos) =
    ground (arith, length-merge_into row_keys assigns combos)

length-include_one :
    (row_keys : List String) (assigns : GoMap (Option RawYaml)) (combos : List Combo)
    → length (include_one row_keys assigns combos) ≤ length combos + 1
unfolding include_one
length-include_one row_keys assigns combos =
    let merged = merge_into row_keys assigns combos in
    ground (
      arith,
      length-merge_into row_keys assigns combos,
      length-append merged.0 (assign_all [] assigns ∷ []),
    )

include_all-KeepsRows :
    (row_keys : List String) (combs : List (Option MatrixCombination)) (combos : List Combo)
    → KeepsRows row_keys combos (include_all row_keys combs combos)
unfolding include_all
include_all-KeepsRows row_keys [] combos = KeepsRows-refl row_keys combos
include_all-KeepsRows row_keys (none ∷ combs) combos = include_all-KeepsRows row_keys combs combos
include_all-KeepsRows row_keys (some comb ∷ combs) combos =
    elim (Bool-cases (is_some comb.expression)) [
      | inl dynamic ↦ rw dynamic (include_all-KeepsRows row_keys combs combos)
      | inr literal ↦ rw literal (
          KeepsRows-trans row_keys combos (include_one row_keys comb.assigns combos) _
            (include_one-KeepsRows row_keys comb.assigns combos)
            (include_all-KeepsRows row_keys combs (include_one row_keys comb.assigns combos)))
    ]

length-include_all :
    (row_keys : List String) (combs : List (Option MatrixCombination)) (combos : List Combo)
    → length (include_all row_keys combs combos) ≤ length combos + length combs
unfolding include_all
length-include_all row_keys [] combos = omega arith
length-include_all row_keys (none ∷ combs) combos =
    omega (arith, length-include_all row_keys combs combos)
length-include_all row_keys (some comb ∷ combs) combos =
    elim (Bool-cases (is_some comb.expression)) [
      | inl dynamic ↦ rw dynamic (omega (arith, length-include_all row_keys combs combos))
      | inr literal ↦ rw literal (
          omega (
            arith,
            length-include_all row_keys combs (include_one row_keys comb.assigns combos),
            length-include_one row_keys comb.assigns combos,
          ))
    ]

-- `include` keeps every combination in its place with its values for the rows of the matrix, and
-- adds at most one combination for each of its entries.
pub apply_include-KeepsRows :
    (combos : List Combo) (rows : List MatrixAxis) (inc : MatrixCombinations)
    → KeepsRows (map (λ r. r.name) rows) combos (apply_include combos rows inc)
      × (length (apply_include combos rows inc) ≤ length combos + length inc.combinations)
unfolding apply_include
apply_include-KeepsRows combos rows inc = (
  include_all-KeepsRows (map (λ r. r.name) rows) inc.combinations combos,
  length-include_all (map (λ r. r.name) rows) inc.combinations combos,
)

-- Without rows every entry matches.
matches-no_axes :
    (c : Combo) (assigns : GoMap (Option RawYaml)) → combination_matches_on_axes c assigns [] ≡ true
unfolding combination_matches_on_axes contains
matches-no_axes c [] = refl
matches-no_axes c ((k, none) ∷ assigns) = matches-no_axes c assigns
matches-no_axes c ((k, some a) ∷ assigns) = matches-no_axes c assigns

include_all-no_axes :
    (combs : List (Option MatrixCombination)) (c : Combo)
    → length (include_all [] combs (c ∷ [])) ≡ 1
unfolding include_all include_one merge_into
include_all-no_axes [] c = refl
include_all-no_axes (none ∷ combs) c = include_all-no_axes combs c
include_all-no_axes (some comb ∷ combs) c = elim (Bool-cases (is_some comb.expression)) [
  | inl dynamic ↦ rw dynamic (include_all-no_axes combs c)
  | inr literal ↦
      rw (literal, matches-no_axes c comb.assigns)
        (include_all-no_axes combs (assign_all (copy_map c) comb.assigns))
]

-- A matrix that has no rows, but a literal list of `include` entries and no `exclude`, has one
-- combination, however many entries the list has: each entry is merged into the same one.
pub map_matrix-include_only :
    (lint : Actionlint) (m : Matrix) (inc : MatrixCombinations)
    → m.rows ≡ []
    → m.expression ≡ none
    → m.exclude ≡ none
    → m.include ≡ some inc
    → lint.combinations_contain_expression inc ≡ false
    → ((map_matrix lint m).dynamic ≡ false) × (length (map_matrix lint m).combos ≡ 1)
unfolding map_matrix literal_combos combos_of excluded included axes_of sort expand_rows
    apply_include
map_matrix-include_only lint m inc no_rows plain no_exclude entries literal =
    ground (arith, no_rows, include_all-no_axes inc.combinations [])
