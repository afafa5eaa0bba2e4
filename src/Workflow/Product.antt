-- ===== src/Workflow/Product.antt =====
-- The cross product of a matrix against the list of the choices of one value for each row.
use warmrunners.Base.{
  lookup-insert, ℕ, ◌*◌, String, ◌≡◌, refl, sym, ap, ◌∙◌, List, [], ◌∷◌, ◌++◌, map, append_assoc,
  append-nil, none, false, arith, lookup, insert, All, length, length-append, eq_iff, ◌==◌,
}
use mathlib.Core.List.{map-append}
use warmrunners.Workflow.Combos.{Combo, RawValue, MatrixAxis, with_values, expand_row, expand_rows}

-- One value of the first row before every choice for the other rows.
unfoldable pub choose : String → List RawValue → List Combo → List Combo
choose name [] rest = []
choose name (v ∷ values) rest = map (λ c. (name, v) ∷ c) rest ++ choose name values rest

-- Every choice of one value for each row, the first row slowest.
unfoldable pub choices : List MatrixAxis → List Combo
choices [] = [] ∷ []
choices (r ∷ rows) = choose r.name r.values (choices rows)

unfoldable pub sizes_product : List MatrixAxis → ℕ
sizes_product [] = 1
sizes_product (r ∷ rows) = length r.values * sizes_product rows

length-map {ℓ κ} :
    {A : Type ℓ} {B : Type κ} (f : A → B) (xs : List A) → length (map f xs) ≡ length xs
length-map f [] = refl
length-map f (x ∷ xs) = omega (arith, length-map f xs)

length-choose :
    (name : String) (values : List RawValue) (rest : List Combo)
    → length (choose name values rest) ≡ length values * length rest
unfolding choose
length-choose name [] rest = grind arith
length-choose name (v ∷ values) rest = grind (
  arith,
  length-append (map (λ (c : Combo). (name, v) ∷ c) rest) (choose name values rest),
  length-map (λ (c : Combo). (name, v) ∷ c) rest,
  length-choose name values rest,
)

pub length-choices : (rows : List MatrixAxis) → length (choices rows) ≡ sizes_product rows
unfolding choices sizes_product
length-choices [] = omega arith
length-choices (r ∷ rows) =
    length-choose r.name r.values (choices rows)
    ∙ ap (λ (n : ℕ). length r.values * n) (length-choices rows)

-- A choice stored into a map, entry by entry.
extend : Combo → Combo → Combo
extend base [] = base
extend base ((k, v) ∷ c) = extend (insert k v base) c

extend_each : List MatrixAxis → List Combo → List Combo
extend_each rows [] = []
extend_each rows (base ∷ combos) = map (extend base) (choices rows) ++ extend_each rows combos

extend_each-append :
    (rows : List MatrixAxis) (xs ys : List Combo)
    → extend_each rows (xs ++ ys) ≡ extend_each rows xs ++ extend_each rows ys
unfolding extend_each
extend_each-append rows [] ys = refl
extend_each-append rows (x ∷ xs) ys = simp (extend_each-append rows xs ys, append_assoc)

extend-first :
    (name : String) (v : RawValue) (base : Combo) (rest : List Combo)
    → map (extend base) (map (λ (c : Combo). (name, v) ∷ c) rest)
      ≡ map (extend (insert name v base)) rest
unfolding extend
extend-first name v base [] = refl
extend-first name v base (c ∷ rest) =
    ap (λ (cs : List Combo). extend (insert name v base) c ∷ cs) (extend-first name v base rest)

extend_each-with_values :
    (rows : List MatrixAxis) (name : String) (values : List RawValue) (base : Combo)
    → extend_each rows (with_values name values base)
      ≡ map (extend base) (choose name values (choices rows))
unfolding extend_each with_values choose
extend_each-with_values rows name [] base = refl
extend_each-with_values rows name (v ∷ values) base = simp (
  map-append,
  extend-first name v base (choices rows),
  ← extend_each-with_values rows name values base,
  with_values,
)

extend_each-expand_row :
    (r : MatrixAxis) (rows : List MatrixAxis) (combos : List Combo)
    → extend_each rows (expand_row r combos) ≡ extend_each (r ∷ rows) combos
unfolding extend_each expand_row choices
extend_each-expand_row r rows [] = refl
extend_each-expand_row r rows (base ∷ combos) =
    extend_each-append rows (with_values r.name r.values base) (expand_row r combos)
    ∙ ap (λ (cs : List Combo). cs ++ extend_each rows (expand_row r combos))
        (extend_each-with_values rows r.name r.values base)
    ∙ ap (λ (cs : List Combo). map (extend base) (choose r.name r.values (choices rows)) ++ cs)
        (extend_each-expand_row r rows combos)

extend_each-no_rows : (combos : List Combo) → extend_each [] combos ≡ combos
unfolding extend_each choices extend
extend_each-no_rows [] = refl
extend_each-no_rows (c ∷ combos) = ap (λ (cs : List Combo). c ∷ cs) (extend_each-no_rows combos)

expand_rows-extend_each :
    (rows : List MatrixAxis) (combos : List Combo)
    → expand_rows rows combos ≡ extend_each rows combos
unfolding expand_rows
expand_rows-extend_each [] combos = sym (extend_each-no_rows combos)
expand_rows-extend_each (r ∷ rows) combos =
    expand_rows-extend_each rows (expand_row r combos) ∙ extend_each-expand_row r rows combos

-- The rows have different names.
abbrev pub HasName : String → List MatrixAxis → Type 0
HasName name = All (λ r. (r.name == name) ≡ false)

abbrev pub HasDistinctNames : List MatrixAxis → Type 0
HasDistinctNames [] = Unit
HasDistinctNames (r ∷ rows) = HasName r.name rows × HasDistinctNames rows

insert-absent :
    (k : String) (v : RawValue) (base : Combo)
    → lookup k base ≡ none
    → insert k v base ≡ base ++ (k, v) ∷ []
unfolding insert lookup
insert-absent k v [] h = refl
insert-absent k v ((j, w) ∷ base) h = ground (arith, insert-absent k v base, eq_iff j k)

-- None of the names is a key.
abbrev IsFresh : List MatrixAxis → Combo → Type 0
IsFresh rows base = All (λ r. lookup r.name base ≡ none) rows

insert-IsFresh :
    (name : String) (v : RawValue) (rows : List MatrixAxis) (base : Combo)
    → HasName name rows
    → IsFresh rows base
    → IsFresh rows (insert name v base)
insert-IsFresh name v [] base other fresh = tt
insert-IsFresh name v (r ∷ rows) base other fresh = (
  ground (arith, lookup-insert name r.name v base, eq_iff name r.name, eq_iff r.name name),
  insert-IsFresh name v rows base other.1 fresh.1,
)

append-first :
    (name : String) (v : RawValue) (base : Combo) (rest : List Combo)
    → map (λ c. (base ++ (name, v) ∷ []) ++ c) rest
      ≡ map (λ c. base ++ c) (map (λ (c : Combo). (name, v) ∷ c) rest)
append-first name v base [] = refl
append-first name v base (c ∷ rest) =
    λ i. append_assoc base ((name, v) ∷ []) c i ∷ append-first name v base rest i

extend-choose :
    (name : String) (values : List RawValue) (rest : List Combo) (base : Combo)
    → lookup name base ≡ none
    → ((v : RawValue)
        → map (extend (insert name v base)) rest ≡ map (λ c. insert name v base ++ c) rest)
    → map (extend base) (choose name values rest) ≡ map (λ c. base ++ c) (choose name values rest)
unfolding choose
extend-choose name [] rest base absent later = refl
extend-choose name (v ∷ values) rest base absent later = rw (
  map-append (extend base) (map (λ (c : Combo). (name, v) ∷ c) rest),
  map-append (λ (c : Combo). base ++ c) (map (λ (c : Combo). (name, v) ∷ c) rest),
  extend-first name v base rest,
  later v,
  insert-absent name v base absent,
  append-first name v base rest,
  extend-choose name values rest base absent later,
)

-- Choices of rows with new names are put behind the base.
extend-choices :
    (rows : List MatrixAxis) (base : Combo)
    → HasDistinctNames rows
    → IsFresh rows base
    → map (extend base) (choices rows) ≡ map (λ c. base ++ c) (choices rows)
unfolding extend choices
extend-choices [] base distinct fresh = ap (λ (c : Combo). c ∷ []) (sym (append-nil base))
extend-choices (r ∷ rows) base distinct fresh =
    extend-choose r.name r.values (choices rows) base fresh.0 λ v.
      extend-choices rows (insert r.name v base) distinct.1
        (insert-IsFresh r.name v rows base distinct.0 fresh.1)

none-IsFresh : (rows : List MatrixAxis) → IsFresh rows []
unfolding lookup
none-IsFresh [] = tt
none-IsFresh (r ∷ rows) = (refl, none-IsFresh rows)

map-nil : (cs : List Combo) → map (λ (c : Combo). [] ++ c) cs ++ [] ≡ cs
map-nil [] = refl
map-nil (c ∷ cs) = ap (λ (rest : List Combo). c ∷ rest) (map-nil cs)

-- The nested loops make the choices, in their order.
pub expand_rows-choices :
    (rows : List MatrixAxis) → HasDistinctNames rows → expand_rows rows ([] ∷ []) ≡ choices rows
unfolding extend_each
expand_rows-choices rows distinct =
    expand_rows-extend_each rows ([] ∷ [])
    ∙ ap (λ (cs : List Combo). cs ++ []) (extend-choices rows [] distinct (none-IsFresh rows))
    ∙ map-nil (choices rows)
