-- ===== src/Workflow/Crossing.antt =====
-- The combinations of a literal matrix with neither `include` nor `exclude`.
use warmrunners.Base.{
  ℕ, ◌*◌, String, ◌≡◌, refl, ap, ◌∙◌, List, [], ◌∷◌, some, none, true, false, Option, arith, GoMap,
  lookup, HasDistinctKeys, length, eq_iff, if◌then◌else◌, ◌==◌, Bool-cases, inl, inr, is_some,
  subst, Bool, map,
}
use warmrunners.Base.Sort.{sort, insort}
use warmrunners.Workflow.{MatrixRow, Matrix, MatrixSpec, Actionlint}
use warmrunners.Workflow.Combos.{
  as_raw, MatrixAxis, axes_of, axis_less, map_matrix, literal_combos, combos_of, excluded, included,
}
use warmrunners.Workflow.Product.{
  choices, sizes_product, length-choices, HasName, HasDistinctNames, expand_rows-choices,
}

-- The names of the rows of a map are distinct, in the sorted order too.
insort-HasName :
    (name : String) (r : MatrixAxis) (rows : List MatrixAxis)
    → (r.name == name) ≡ false
    → HasName name rows
    → HasName name (insort axis_less r rows)
unfolding insort
insort-HasName name r [] other rest = (other, tt)
insort-HasName name r (a ∷ rows) other rest = elim (Bool-cases (axis_less a r)) [
  | inl before ↦ rw before (rest.0, insort-HasName name r rows other rest.1)
  | inr after ↦ rw after (other, rest)
]

insort-HasDistinctNames :
    (r : MatrixAxis) (rows : List MatrixAxis)
    → HasName r.name rows
    → HasDistinctNames rows
    → HasDistinctNames (insort axis_less r rows)
unfolding insort
insort-HasDistinctNames r [] other distinct = (tt, tt)
insort-HasDistinctNames r (a ∷ rows) other distinct = elim (Bool-cases (axis_less a r)) [
  | inl before ↦ rw before (
    insort-HasName a.name r rows
        (ground (arith, other.0, eq_iff a.name r.name, eq_iff r.name a.name)) distinct.0,
    insort-HasDistinctNames r rows other.1 distinct.1,
  )
  | inr after ↦ rw after (other, distinct)
]

sort-HasName :
    (name : String) (rows : List MatrixAxis)
    → HasName name rows
    → HasName name (sort axis_less rows)
unfolding sort
sort-HasName name [] h = tt
sort-HasName name (r ∷ rows) h = insort-HasName name r _ h.0 (sort-HasName name rows h.1)

sort-HasDistinctNames :
    (rows : List MatrixAxis) → HasDistinctNames rows → HasDistinctNames (sort axis_less rows)
unfolding sort
sort-HasDistinctNames [] h = tt
sort-HasDistinctNames (r ∷ rows) h =
    insort-HasDistinctNames r _ (sort-HasName r.name rows h.0) (sort-HasDistinctNames rows h.1)

abbrev HasNameIn : String → Option (List MatrixAxis) → Type 0
HasNameIn name none = Unit
HasNameIn name (some axes) = HasName name axes

axes_of-HasName :
    (name : String) (rows : GoMap (Option MatrixRow))
    → lookup name rows ≡ none
    → HasNameIn name (axes_of rows)
unfolding lookup axes_of
axes_of-HasName name [] absent = tt
axes_of-HasName name ((k, none) ∷ rows) absent = axes_of-HasName name rows (ground arith)
axes_of-HasName name ((k, some r) ∷ rows) absent =
    first_row (is_some r.expression) (axes_of rows) (axes_of-HasName name rows (ground arith))
  where
    first_row :
        (dynamic : Bool) (rest : Option (List MatrixAxis))
        → HasNameIn name rest
        → HasNameIn name (
            if dynamic then none else elim rest [
              | none ↦ none
              | some axes ↦ some (record { name = k; values = map as_raw r.values } ∷ axes)
            ])
    first_row true rest h = tt
    first_row false none h = tt
    first_row false (some axes) h = (ground arith, h)

abbrev HasDistinctNamesIn : Option (List MatrixAxis) → Type 0
HasDistinctNamesIn none = Unit
HasDistinctNamesIn (some axes) = HasDistinctNames axes

axes_of-HasDistinctNames :
    (rows : GoMap (Option MatrixRow)) → HasDistinctKeys rows → HasDistinctNamesIn (axes_of rows)
unfolding axes_of
axes_of-HasDistinctNames [] h = tt
axes_of-HasDistinctNames ((name, none) ∷ rows) h = axes_of-HasDistinctNames rows h.1
axes_of-HasDistinctNames ((name, some r) ∷ rows) h =
    first_row (is_some r.expression) (axes_of rows) (axes_of-HasName name rows h.0)
      (axes_of-HasDistinctNames rows h.1)
  where
    first_row :
        (dynamic : Bool) (rest : Option (List MatrixAxis))
        → HasNameIn name rest
        → HasDistinctNamesIn rest
        → HasDistinctNamesIn (
            if dynamic then none else elim rest [
              | none ↦ none
              | some axes ↦ some (record { name = name; values = map as_raw r.values } ∷ axes)
            ])
    first_row true rest fresh distinct = tt
    first_row false none fresh distinct = tt
    first_row false (some axes) fresh distinct = (fresh, distinct)

sizes_product-insort :
    (r : MatrixAxis) (rows : List MatrixAxis)
    → sizes_product (insort axis_less r rows) ≡ length r.values * sizes_product rows
unfolding insort sizes_product
sizes_product-insort r [] = refl
sizes_product-insort r (a ∷ rows) = elim (Bool-cases (axis_less a r)) [
  | inl before ↦ rw before (grind (arith, sizes_product-insort r rows))
  | inr after ↦ rw after
]

sizes_product-sort :
    (rows : List MatrixAxis) → sizes_product (sort axis_less rows) ≡ sizes_product rows
unfolding sort sizes_product
sizes_product-sort [] = refl
sizes_product-sort (r ∷ rows) =
    sizes_product-insort r (sort axis_less rows)
    ∙ ap (λ (n : ℕ). length r.values * n) (sizes_product-sort rows)

-- A matrix of literal rows, whose names are distinct, with neither `include` nor `exclude`: its
-- combinations are all the choices of one value for each row, the rows in the order of their
-- names, and they are as many as the product of the sizes of the rows.
pub map_matrix-choices :
    (lint : Actionlint) (m : Matrix) (axes : List MatrixAxis)
    → HasDistinctKeys m.rows
    → m.expression ≡ none
    → axes_of m.rows ≡ some axes
    → m.exclude ≡ none
    → m.include ≡ none
    → (map_matrix lint m ≡ record { combos = choices (sort axis_less axes); dynamic = false })
      × (length (map_matrix lint m).combos ≡ sizes_product axes)
unfolding map_matrix literal_combos combos_of excluded included
map_matrix-choices lint m axes distinct plain rows no_exclude no_include = (
  literal,
  ap (λ (spec : MatrixSpec). length spec.combos) literal
      ∙ length-choices (sort axis_less axes)
      ∙ sizes_product-sort axes,
)
  where
    names : HasDistinctNames axes
    names = subst HasDistinctNamesIn rows (axes_of-HasDistinctNames m.rows distinct)

    literal : map_matrix lint m ≡ record { combos = choices (sort axis_less axes); dynamic = false }
    literal = ground (
      arith,
      expand_rows-choices (sort axis_less axes) (sort-HasDistinctNames axes names),
      plain,
      rows,
    )
