-- ===== src/Base/Results.antt =====
-- A Go result with an error: the value, or the text of the error.
use Prim.Native.String.{String}
use mathlib.Core.Path.{◌≡◌, refl}
use mathlib.Core.Logic.{◌⊎◌, inl, inr}
use mathlib.Core.Option.{Option, none, some}

pub data Result {ℓ} (A : Type ℓ) : Type ℓ where
  ok : A → Result A
  err : String → Result A

infixl 5 ◌>>=◌
abbrev pub ◌>>=◌ {ℓ κ} : {A : Type ℓ} {B : Type κ} → Result A → (A → Result B) → Result B
err text >>= next = err text
ok value >>= next = next value

-- A chain without an error had none in its first step.
pub first_ok {ℓ κ} :
    {A : Type ℓ} {B : Type κ} {result : B} (first : Result A) (next : A → Result B)
    → (first >>= next) ≡ ok result
    → (value : A) × (first ≡ ok value) × (next value ≡ ok result)
first_ok (err text) next done = cc
first_ok (ok value) next done = (value, refl, done)

-- A call returns a value or an error.
pub Result-cases {ℓ} :
    {A : Type ℓ} (r : Result A)
    → ((value : A) × (r ≡ ok value)) ⊎ ((text : String) × (r ≡ err text))
Result-cases (err text) = inr (text, refl)
Result-cases (ok value) = inl (value, refl)

-- The error that a Go call returns beside its value: nil, or a text.
abbrev pub error_of {ℓ} : {A : Type ℓ} → Result A → Option String
error_of (ok a) = none
error_of (err e) = some e
