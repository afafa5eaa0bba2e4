-- ===== src/Base/Maps.antt =====
-- Go maps with text keys, as association lists: the order of the list is the order of iteration.
use Prim.Native.String.{String}
use mathlib.Core.Path.{◌≡◌, refl}
use mathlib.Core.Option.{Option, none, some}
use mathlib.Core.List.{List, [], ◌∷◌, map}
use native.Mathlib.Omega.{arith}
use text.Mathlib.TextEquality.{eq_iff}
use warmrunners.Base.Tests.{if◌then◌else◌}
use warmrunners.Base.Texts.{◌==◌}

abbrev pub GoMap {ℓ} : Type ℓ → Type ℓ
GoMap V = List (String × V)

module _ {ℓ} {V : Type ℓ} where
  -- `v, ok := m[k]`
  unfoldable pub lookup : String → GoMap V → Option V
  lookup k [] = none
  lookup k ((j, v) ∷ m) = if j == k then some v else lookup k m

  -- `m[k] = v`
  unfoldable pub insert : String → V → GoMap V → GoMap V
  insert k v [] = (k, v) ∷ []
  insert k v (entry ∷ m) = if entry.0 == k then (k, v) ∷ m else entry ∷ insert k v m

  -- `delete(m, k)`
  unfoldable pub delete : String → GoMap V → GoMap V
  delete k [] = []
  delete k ((j, w) ∷ m) = let rest = delete k m in if j == k then rest else (j, w) ∷ rest

  -- Each step of an iteration meets a key once.
  abbrev pub keys : GoMap V → List String
  keys = map (λ e. e.0)

  abbrev pub HasDistinctKeys : GoMap V → Type ℓ
  HasDistinctKeys [] = Unit
  HasDistinctKeys ((k, v) ∷ m) = (lookup k m ≡ none) × HasDistinctKeys m

  pub lookup-insert :
      (k j : String) (v : V) (m : GoMap V)
      → lookup j (insert k v m) ≡ (if k == j then some v else lookup j m)
  unfolding lookup insert
  lookup-insert k j v (entry ∷ m) =
      ground (arith, lookup-insert k j v m, eq_iff entry.0 k, eq_iff entry.0 j, eq_iff k j)
  lookup-insert k j v [] = refl

  pub lookup-delete :
      (k j : String) (m : GoMap V) → lookup j (delete k m) ≡ (if k == j then none else lookup j m)
  unfolding lookup delete
  lookup-delete k j [] = ground arith
  lookup-delete k j ((i, w) ∷ m) =
      ground (arith, eq_iff k j, eq_iff i k, eq_iff i j, lookup-delete k j m)

  pub insert-HasDistinctKeys :
      (k : String) (v : V) (m : GoMap V) → HasDistinctKeys m → HasDistinctKeys (insert k v m)
  unfolding insert lookup
  insert-HasDistinctKeys k v [] h = ground arith
  insert-HasDistinctKeys k v ((i, w) ∷ m) h =
      ground (arith, eq_iff i k, eq_iff k i, lookup-insert k i v m, insert-HasDistinctKeys k v m)

  pub delete-HasDistinctKeys :
      (k : String) (m : GoMap V) → HasDistinctKeys m → HasDistinctKeys (delete k m)
  unfolding delete lookup
  delete-HasDistinctKeys k [] h = tt
  delete-HasDistinctKeys k ((i, w) ∷ m) h =
      ground (arith, eq_iff i k, eq_iff k i, lookup-delete k i m, delete-HasDistinctKeys k m)
