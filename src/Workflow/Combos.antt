-- ===== src/Workflow/Combos.antt =====
-- `mapMatrix` of internal/predictor/workflow/parse.go and its helpers: the combinations of a
-- literal matrix.
use warmrunners.Base.{
  String, Bool, true, false, List, [], ◌∷◌, ◌++◌, map, Option, none, some, GoMap, lookup, insert,
  if◌then◌else◌, ◌==◌, str_lt, contains, is_some,
}
use warmrunners.Base.Sort.{sort}
use warmrunners.Workflow.{
  RawYaml, MatrixRow, MatrixCombination, MatrixCombinations, Matrix, MatrixSpec, Actionlint,
}

-- `rawValue`, as its text, and `map[string]string`
abbrev pub RawValue : Type 0
RawValue = String

abbrev pub Combo : Type 0
Combo = GoMap String

pub record MatrixAxis : Type 0 where
  pub name : String
  pub values : List RawValue

unfoldable pub as_raw : RawYaml → RawValue
as_raw RawYaml.absent = ""
as_raw (RawYaml.text value) = value
as_raw (RawYaml.composite shown) = shown

-- The loop over the rows: `none` at a row that is an expression.
unfoldable pub axes_of : GoMap (Option MatrixRow) → Option (List MatrixAxis)
axes_of [] = some []
axes_of ((name, none) ∷ rows) = axes_of rows
axes_of ((name, some r) ∷ rows) =
    let rest = axes_of rows in
    if is_some r.expression then none else elim rest [
      | none ↦ none
      | some axes ↦ some (record { name = name; values = map as_raw r.values } ∷ axes)
    ]

unfoldable pub axis_less : MatrixAxis → MatrixAxis → Bool
axis_less a b = str_lt a.name b.name

-- The cross product, one row at a time.
unfoldable pub with_values : String → List RawValue → Combo → List Combo
with_values name values base = map (λ v. insert name v base) values

unfoldable pub expand_row : MatrixAxis → List Combo → List Combo
unfolding with_values
expand_row r [] = []
expand_row r (base ∷ combos) = with_values r.name r.values base ++ expand_row r combos

unfoldable pub expand_rows : List MatrixAxis → List Combo → List Combo
expand_rows [] combos = combos
expand_rows (r ∷ rows) combos = expand_rows rows (expand_row r combos)

-- `got, ok := c[k]` and the test of its value
unfoldable pub has_value : Combo → String → RawValue → Bool
has_value c k want = elim (lookup k c) [ none ↦ false | some got ↦ got == want ]

unfoldable pub matches_combination : Combo → GoMap (Option RawYaml) → Bool
matches_combination c [] = true
matches_combination c ((k, none) ∷ assigns) = matches_combination c assigns
matches_combination c ((k, some a) ∷ assigns) =
    if has_value c k (as_raw a) then matches_combination c assigns else false

unfoldable pub matches_any_combination : Combo → List (Option MatrixCombination) → Bool
matches_any_combination c [] = false
matches_any_combination c (none ∷ combs) = matches_any_combination c combs
matches_any_combination c (some comb ∷ combs) =
    if is_some comb.expression
    then matches_any_combination c combs
    else if matches_combination c comb.assigns
    then true
    else matches_any_combination c combs

unfoldable pub apply_exclude : List Combo → MatrixCombinations → List Combo
apply_exclude [] ex = []
apply_exclude (c ∷ combos) ex =
    let rest = apply_exclude combos ex in
    if matches_any_combination c ex.combinations then rest else c ∷ rest

-- `copyMap`, which meets the entries in an order of its own, and the loops that store the assignments into a combination.
unfoldable pub copy_map : Combo → Combo
copy_map [] = []
copy_map ((k, v) ∷ m) = insert k v (copy_map m)

unfoldable pub assign_all : Combo → GoMap (Option RawYaml) → Combo
assign_all c [] = c
assign_all c ((k, none) ∷ assigns) = assign_all c assigns
assign_all c ((k, some a) ∷ assigns) = assign_all (insert k (as_raw a) c) assigns

unfoldable pub combination_matches_on_axes : Combo → GoMap (Option RawYaml) → List String → Bool
combination_matches_on_axes c [] row_keys = true
combination_matches_on_axes c ((k, none) ∷ assigns) row_keys =
    combination_matches_on_axes c assigns row_keys
combination_matches_on_axes c ((k, some a) ∷ assigns) row_keys =
    if contains row_keys k
    then (if has_value c k (as_raw a)
        then combination_matches_on_axes c assigns row_keys
        else false)
    else combination_matches_on_axes c assigns row_keys

-- The inner loop of `applyInclude`: the combinations, and `merged`.
unfoldable pub merge_into : List String → GoMap (Option RawYaml) → List Combo → List Combo × Bool
merge_into row_keys assigns [] = ([], false)
merge_into row_keys assigns (c ∷ combos) =
    let rest = merge_into row_keys assigns combos in
    if combination_matches_on_axes c assigns row_keys
    then (assign_all (copy_map c) assigns ∷ rest.0, true)
    else (c ∷ rest.0, rest.1)

unfoldable pub include_one : List String → GoMap (Option RawYaml) → List Combo → List Combo
include_one row_keys assigns combos =
    let (merged_combos, merged) = merge_into row_keys assigns combos in
    if merged then merged_combos else merged_combos ++ assign_all [] assigns ∷ []

unfoldable pub include_all : List String → List (Option MatrixCombination) → List Combo → List Combo
include_all row_keys [] combos = combos
include_all row_keys (none ∷ combs) combos = include_all row_keys combs combos
include_all row_keys (some comb ∷ combs) combos =
    include_all row_keys combs
      (if is_some comb.expression then combos else include_one row_keys comb.assigns combos)

unfoldable pub apply_include : List Combo → List MatrixAxis → MatrixCombinations → List Combo
apply_include combos rows inc = include_all (map (λ r. r.name) rows) inc.combinations combos

module _ (lint : Actionlint) where
  -- A list of entries with an expression makes the matrix dynamic.
  unfoldable pub excluded : Option MatrixCombinations → List Combo → Option (List Combo)
  excluded none combos = some combos
  excluded (some ex) combos =
      if lint.combinations_contain_expression ex then none else some (apply_exclude combos ex)

  unfoldable pub included :
      Option MatrixCombinations → List MatrixAxis → List Combo → Option (List Combo)
  included none rows combos = some combos
  included (some inc) rows combos =
      if lint.combinations_contain_expression inc
      then none
      else some (apply_include combos rows inc)

  -- From the sorted rows to the combinations, or `none` for a dynamic matrix.
  unfoldable pub combos_of : Matrix → List MatrixAxis → Option (List Combo)
  combos_of m rows = elim (excluded m.exclude (expand_rows rows ([] ∷ []))) [
    | none ↦ none
    | some combos ↦ included m.include rows combos
  ]

  unfoldable pub literal_combos : Matrix → Option (List Combo)
  literal_combos m =
      if is_some m.expression
      then none
      else elim (axes_of m.rows) [ none ↦ none | some rows ↦ combos_of m (sort axis_less rows) ]

  unfoldable pub map_matrix : Matrix → MatrixSpec
  map_matrix m = elim (literal_combos m) [
    | none ↦ record { combos = []; dynamic = true }
    | some combos ↦ record { combos = combos; dynamic = false }
  ]
