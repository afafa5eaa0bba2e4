-- ===== src/Demand/Delays.antt =====
-- How long a call waits.
use warmrunners.Base.{
  ℕ, ◌+◌, ◌^◌, ◌≤◌, ◌<◌, ◌≡◌, inl, inr, arith, ℤ, pos, negsuc, ◌*ℤ◌, ◌≤ℤ◌, ◌<ℤ◌, to_i64, to_i64_pos,
  +ℤ-pos, ltb_ℤ, leb_ℤ, Bool-cases,
}
use warmrunners.Demand.Retry.{max_backoff, cap_delay, backoff_delay}

cap_delay-pos : (d : ℤ) → (n : ℕ) × (0 < n) × (n ≤ 60000000000) × (cap_delay d ≡ pos n)
unfolding cap_delay
cap_delay-pos (negsuc n) = (60000000000, ground arith, ground arith, ground arith)
cap_delay-pos (pos n) = elim (Bool-cases (leb_ℤ (pos n) (pos 0))) [
  | inl zero_delay ↦ (60000000000, ground arith, ground arith, ground (arith, zero_delay))
  | inr more ↦ elim (Bool-cases (ltb_ℤ max_backoff (pos n))) [
    | inl long ↦ (60000000000, ground arith, ground arith, ground (arith, long))
    | inr short ↦ (n, ground (arith, more), ground (arith, short), ground (arith, more, short))
  ]
]

-- A backoff lasts longer than nothing and a minute at most, at every attempt, also where the shift
-- overflows; the jitter is from 0 on and below the base delay.
pub backoff_delay-bounds :
    (base jitter attempt : ℕ)
    → 0 < base
    → jitter < base
    → base < 9000000000000000000
    → (pos 0 <ℤ backoff_delay (pos base) (pos jitter) attempt)
      × (backoff_delay (pos base) (pos jitter) attempt ≤ℤ max_backoff)
unfolding backoff_delay
backoff_delay-bounds base jitter attempt positive small below =
    let (n, more, less, e) = cap_delay-pos (to_i64 (pos base *ℤ pos (2 ^ attempt))) in
    ground (arith, e, more, less, +ℤ-pos n jitter, to_i64_pos (n + jitter))
