-- ===== src/Base/Ints.antt =====
-- Signed integers over the native numbers, and Go's int32 and int64 with their wrap-around.
use Prim.Native.Nat.{ℕ, suc, ◌+◌, ◌-◌, ◌*◌, ◌%◌, ◌≤◌, ◌<◌}
use mathlib.Core.Path.{◌≡◌, refl}
use mathlib.Core.Bool.{Bool, true}
use mathlib.Core.Logic.{◌↔◌}
use native.Mathlib.Omega.{arith}
use warmrunners.Base.Tests.{ltb, leb, nat_eq, if◌then◌else◌}

-- `negsuc n` is -(n + 1).
pub data ℤ : Type 0 where
  pos : ℕ → ℤ
  negsuc : ℕ → ℤ

abbrev pub pos_part : ℤ → ℕ
pos_part (pos n) = n
pos_part (negsuc n) = 0

abbrev pub neg_part : ℤ → ℕ
neg_part (pos n) = 0
neg_part (negsuc n) = suc n

abbrev pub sub_ℕ : ℕ → ℕ → ℤ
sub_ℕ a b = if leb b a then pos (a - b) else negsuc (b - a - 1)

infixl 65 ◌+ℤ◌
infix 50 ◌≤ℤ◌ ◌<ℤ◌
unfoldable pub ◌+ℤ◌ : ℤ → ℤ → ℤ
a +ℤ b = sub_ℕ (pos_part a + pos_part b) (neg_part a + neg_part b)

infixl 70 ◌*ℤ◌
unfoldable pub ◌*ℤ◌ : ℤ → ℤ → ℤ
a *ℤ b =
    sub_ℕ (pos_part a * pos_part b + neg_part a * neg_part b)
      (pos_part a * neg_part b + neg_part a * pos_part b)

abbrev pub ◌≤ℤ◌ : ℤ → ℤ → Type 0
a ≤ℤ b = pos_part a + neg_part b ≤ pos_part b + neg_part a

abbrev pub ◌<ℤ◌ : ℤ → ℤ → Type 0
a <ℤ b = pos_part a + neg_part b < pos_part b + neg_part a

abbrev pub ltb_ℤ : ℤ → ℤ → Bool
ltb_ℤ a b = ltb (pos_part a + neg_part b) (pos_part b + neg_part a)

abbrev pub leb_ℤ : ℤ → ℤ → Bool
leb_ℤ a b = leb (pos_part a + neg_part b) (pos_part b + neg_part a)

abbrev pub eqb_ℤ : ℤ → ℤ → Bool
eqb_ℤ a b = nat_eq (pos_part a + neg_part b) (pos_part b + neg_part a)

pub eqb_ℤ_iff : (a b : ℤ) → (eqb_ℤ a b ≡ true) ↔ (a ≡ b)
eqb_ℤ_iff a b = ground arith

pub +ℤ_parts :
    (a b : ℤ)
    → pos_part (a +ℤ b) + neg_part a + neg_part b ≡ neg_part (a +ℤ b) + pos_part a + pos_part b
unfolding ◌+ℤ◌
+ℤ_parts a b = ground arith

pub +ℤ-pos : (m n : ℕ) → pos m +ℤ pos n ≡ pos (m + n)
unfolding ◌+ℤ◌
+ℤ-pos m n = ground arith

pub eq_of_parts : (a b : ℤ) → pos_part a + neg_part b ≡ pos_part b + neg_part a → a ≡ b
eq_of_parts a b h = ground arith

-- The value modulo `m`, in 0 .. m - 1.
abbrev residue : ℕ → ℤ → ℕ
residue m (pos n) = n % m
residue m (negsuc n) = m - 1 - n % m

-- Two's complement over -half .. half - 1.
abbrev wrap : ℕ → ℤ → ℤ
wrap half z = let r = residue (half + half) z in if ltb r half then pos r else sub_ℕ r (half + half)

unfoldable pub to_i32 : ℤ → ℤ
to_i32 z = wrap 2147483648 z

unfoldable pub to_i64 : ℤ → ℤ
to_i64 z = wrap 9223372036854775808 z

-- A value in range is unchanged.
pub to_i32_pos : (n : ℕ) → n < 2147483648 → to_i32 (pos n) ≡ pos n
unfolding to_i32
to_i32_pos n h = ground arith

pub to_i64_pos : (n : ℕ) → n < 9223372036854775808 → to_i64 (pos n) ≡ pos n
unfolding to_i64
to_i64_pos n h = ground arith

-- The values of int32: those that the conversion leaves alone.
abbrev pub InI32 : ℤ → Type 0
InI32 z = to_i32 z ≡ z

pub to_i32_idem : (z : ℤ) → InI32 (to_i32 z)
unfolding to_i32
to_i32_idem z = ground arith

-- A wrapped value is in range.
pub to_i32_range : (z : ℤ) → (pos_part (to_i32 z) < 2147483648) × (neg_part (to_i32 z) ≤ 2147483648)
unfolding to_i32
to_i32_range z = ground arith

to_i32_wraps : to_i32 (pos 2147483648) ≡ negsuc 2147483647
unfolding to_i32
to_i32_wraps = refl
