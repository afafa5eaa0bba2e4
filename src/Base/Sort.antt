-- ===== src/Base/Sort.antt =====
-- `sort.Slice` and `sort.Strings`: the ascending rearrangement by a strict order.
use warmrunners.Base.{
  ◌≡◌, refl, Bool, true, false, List, [], ◌∷◌, arith, if◌then◌else◌, length, suc,
}

module _ {ℓ} {A : Type ℓ} (less : A → A → Bool) where
  unfoldable pub insort : A → List A → List A
  insort x [] = x ∷ []
  insort x (y ∷ ys) = if less y x then y ∷ insort x ys else x ∷ y ∷ ys

  unfoldable pub sort : List A → List A
  sort [] = []
  sort (x ∷ xs) = insort x (sort xs)

  -- `x` is strictly before every element.
  abbrev pub IsBefore : A → List A → Type 0
  IsBefore x [] = Unit
  IsBefore x (y ∷ ys) = (less x y ≡ true) × IsBefore x ys

  abbrev pub IsAscending : List A → Type 0
  IsAscending [] = Unit
  IsAscending (x ∷ xs) = IsBefore x xs × IsAscending xs

  -- No element is before `x`.
  abbrev pub HasNoneBefore : A → List A → Type 0
  HasNoneBefore x [] = Unit
  HasNoneBefore x (y ∷ ys) = (less y x ≡ false) × HasNoneBefore x ys

  abbrev pub IsSorted : List A → Type 0
  IsSorted [] = Unit
  IsSorted (x ∷ xs) = HasNoneBefore x xs × IsSorted xs

  pub length-insort : (x : A) (xs : List A) → length (insort x xs) ≡ suc (length xs)
  unfolding insort
  length-insort x [] = refl
  length-insort x (y ∷ ys) = ground (arith, length-insort x ys)

  pub length-sort : (xs : List A) → length (sort xs) ≡ length xs
  unfolding sort
  length-sort [] = refl
  length-sort (x ∷ xs) = ground (arith, length-insort x (sort xs), length-sort xs)

-- The two laws of a strict weak order that sorting needs.
pub record IsOrder {ℓ} {A : Type ℓ} (less : A → A → Bool) : Type ℓ where
  pub asym : (x y : A) → less x y ≡ true → less y x ≡ false
  pub trans : (x y z : A) → less x y ≡ true → less y z ≡ true → less x z ≡ true
  pub cotrans : (x y z : A) → less x y ≡ false → less y z ≡ false → less x z ≡ false

module _ {ℓ} {A : Type ℓ} (less : A → A → Bool) (order : IsOrder less) where
  HasNoneBefore-insort :
      (x y : A) (ys : List A)
      → less y x ≡ false
      → HasNoneBefore less x ys
      → HasNoneBefore less x (insort less y ys)
  unfolding insort
  HasNoneBefore-insort x y [] h k = (h, tt)
  HasNoneBefore-insort x y (z ∷ zs) h k = ground (arith, HasNoneBefore-insort x y zs)

  HasNoneBefore-weaken :
      (x y : A) (ys : List A) → less y x ≡ false → HasNoneBefore less y ys → HasNoneBefore less x ys
  HasNoneBefore-weaken x y [] h k = tt
  HasNoneBefore-weaken x y (z ∷ zs) h k =
      (order.cotrans z y x k.0 h, HasNoneBefore-weaken x y zs h k.1)

  insort-IsSorted : (x : A) (xs : List A) → IsSorted less xs → IsSorted less (insort less x xs)
  unfolding insort
  insort-IsSorted x [] h = (tt, tt)
  insort-IsSorted x (y ∷ ys) h = ground (
    arith,
    insort-IsSorted x ys,
    order.asym y x,
    HasNoneBefore-insort y x ys,
    HasNoneBefore-weaken x y ys,
  )

  pub sort-IsSorted : (xs : List A) → IsSorted less (sort less xs)
  unfolding sort
  sort-IsSorted [] = tt
  sort-IsSorted (x ∷ xs) = insort-IsSorted x (sort less xs) (sort-IsSorted xs)
