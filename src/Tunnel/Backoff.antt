-- ===== src/Tunnel/Backoff.antt =====
-- The loop of `Start` in internal/webhook/tunnel.go: when it returns, and how long it waits.
use warmrunners.Base.{
  ℕ, zero, suc, ◌+◌, ◌≤◌, ◌<◌, String, true, false, Option, GoMap, Result, ◌≡◌, refl, subst, arith,
  All, if◌then◌else◌, nat_eq, is_some, pos, ◌*ℤ◌, to_i64, leb_ℤ, ◌≤ℤ◌, ◌<ℤ◌, Bool-cases, inl, inr,
}
use warmrunners.Clock.{Duration}
use warmrunners.Webhook.{Bytes}
use warmrunners.Tunnel.{Frame}
use warmrunners.Tunnel.Loop.{
  initial_backoff, cap_of, min_duration, full_jitter, Round, Tunnel, Started, set_connected, settle,
  give_up, waited, stream_once, start_from, start,
}

-- `rand.Int64N`: from 0 on, and below a positive argument.
abbrev pub IsRandom : (Duration → Duration) → Type 0
IsRandom int64_n = (d : Duration) → pos 0 <ℤ d → (pos 0 ≤ℤ int64_n d) × (int64_n d <ℤ d)

abbrev pub IsBounded : Duration → Duration → Type 0
IsBounded bound wait = (pos 0 ≤ℤ wait) × (wait ≤ℤ bound)

cap_of-pos : (m : Duration) → pos 0 <ℤ cap_of m
unfolding cap_of
cap_of-pos m = ground arith

full_jitter-IsBounded :
    (int64_n : Duration → Duration) (d bound : Duration)
    → IsRandom int64_n
    → pos 0 ≤ℤ bound
    → d ≤ℤ bound
    → IsBounded bound (full_jitter int64_n d)
unfolding full_jitter
full_jitter-IsBounded int64_n d bound random positive below = elim (Bool-cases (leb_ℤ d (pos 0))) [
  | inl small ↦ rw small ground (arith, positive)
  | inr more ↦
      rw more
        (let (low, high) = random d (ground (arith, more)) in ground (arith, low, high, below))
]

min_duration-le : (a b : Duration) → min_duration a b ≤ℤ b
unfolding min_duration
min_duration-le a b = ground arith

-- A call that has returned has cleared the flag.
abbrev pub IsOver : {S : Type 0} → Started S → Type 0
IsOver done = (done.returned ≡ true) × (done.tunnel.connected ≡ false)

settle-stops :
    {S : Type 0} (r : Round) (error : Option String) (wait : Duration) (t after : Tunnel S)
    (rest : Started S)
    → r.stopped_before ≡ true
    → IsOver (settle r error wait t after rest)
unfolding settle give_up set_connected
settle-stops r error wait t after rest stopped = rw (stopped, settle) (refl, refl)

settle-IsOver :
    {S : Type 0} (r : Round) (error : Option String) (wait : Duration) (t after : Tunnel S)
    (rest : Started S)
    → IsOver rest
    → IsOver (settle r error wait t after rest)
unfolding settle give_up set_connected waited
settle-IsOver r error wait t after rest over = ground (arith, over)

settle-waits :
    {S : Type 0} (bound : Duration) (r : Round) (error : Option String) (wait : Duration)
    (t after : Tunnel S) (rest : Started S)
    → IsBounded bound wait
    → All (IsBounded bound) rest.waits
    → All (IsBounded bound) (settle r error wait t after rest).waits
unfolding settle give_up set_connected waited
settle-waits bound r error wait t after rest h hs = elim (Bool-cases r.stopped_before) [
  | inl a ↦ rw (a, settle) tt
  | inr a ↦ elim (Bool-cases (is_some error)) [
    | inr b ↦ rw (a, settle, b) hs
    | inl b ↦ elim (Bool-cases r.stopped_after) [
      | inl c ↦ rw (a, settle, b, c) tt
      | inr c ↦ elim (Bool-cases r.stopped_waiting) [
        | inl d ↦ rw (a, settle, b, c, d) (h, tt)
        | inr d ↦ rw (a, settle, b, c, d) (h, hs)
      ]
    ]
  ]
]

module _ {S : Type 0} (decode : String → Result Frame) (handle : GoMap String → Bytes → S → S)
    (max_backoff : Duration) (round : ℕ → Round) where
  abbrev from : ℕ → ℕ → Duration → Tunnel S → Started S
  from fuel i backoff t = start_from decode handle max_backoff round fuel i backoff t

  abbrev streamed : ℕ → Tunnel S → Option String × Tunnel S
  streamed i t = stream_once decode handle (round i).answer t

  abbrev wait_at : ℕ → Duration → Duration
  wait_at i backoff = full_jitter (round i).int64_n (min_duration backoff (cap_of max_backoff))

  abbrev longer : Duration → Duration
  longer backoff = min_duration (to_i64 (backoff *ℤ pos 2)) (cap_of max_backoff)

  abbrev rest_of : ℕ → ℕ → Duration → Tunnel S → Started S
  rest_of fuel i backoff t =
      from fuel (suc i) (if is_some (streamed i t).0 then longer backoff else initial_backoff)
        (streamed i t).1

  start_from-returns :
      (fuel i n : ℕ) (backoff : Duration) (t : Tunnel S)
      → i ≤ n
      → n < i + fuel
      → (round n).stopped_before ≡ true
      → IsOver (from fuel i backoff t)
  unfolding start_from
  start_from-returns zero i n backoff t low high stopped = absurd (omega (arith, low, high))
  start_from-returns (suc fuel) i n backoff t low high stopped = elim (Bool-cases (nat_eq i n)) [
    | inl here ↦
        settle-stops (round i) (streamed i t).0 (wait_at i backoff) t (streamed i t).1
          (rest_of fuel i backoff t)
          (subst (λ k. (round k).stopped_before ≡ true) {x = n} {y = i} (ground (arith, here))
            stopped)
    | inr there ↦
        settle-IsOver (round i) (streamed i t).0 (wait_at i backoff) t (streamed i t).1
          (rest_of fuel i backoff t)
          (start_from-returns fuel (suc i) n
            (if is_some (streamed i t).0 then longer backoff else initial_backoff) (streamed i t).1
            (ground (arith, there, low)) (omega (arith, high)) stopped)
  ]

  start_from-waits :
      (fuel i : ℕ) (backoff : Duration) (t : Tunnel S)
      → ((k : ℕ) → IsRandom (round k).int64_n)
      → All (IsBounded (cap_of max_backoff)) (from fuel i backoff t).waits
  unfolding start_from
  start_from-waits zero i backoff t random = tt
  start_from-waits (suc fuel) i backoff t random =
      settle-waits (cap_of max_backoff) (round i) (streamed i t).0 (wait_at i backoff) t
        (streamed i t).1 (rest_of fuel i backoff t)
        (full_jitter-IsBounded (round i).int64_n (min_duration backoff (cap_of max_backoff))
          (cap_of max_backoff) (random i) (ground (arith, cap_of-pos max_backoff))
          (min_duration-le backoff (cap_of max_backoff)))
        (start_from-waits fuel (suc i)
          (if is_some (streamed i t).0 then longer backoff else initial_backoff) (streamed i t).1
          random)

  -- `Start` returns once its context is cancelled, whatever the relay does: where the context is found
  -- cancelled at the head of a round, the call has returned by then, and its client is not connected. Where
  -- the random numbers are in their range, no wait is negative or longer than the cap.
  pub start-returns :
      (n rounds : ℕ) (t : Tunnel S)
      → (round n).stopped_before ≡ true
      → n < rounds
      → ((k : ℕ) → IsRandom (round k).int64_n)
      → let done = start decode handle max_backoff round rounds t in
        (done.returned ≡ true)
        × (done.tunnel.connected ≡ false)
        × All (IsBounded (cap_of max_backoff)) done.waits
  unfolding start
  start-returns n rounds t stopped enough random =
      let (returned, closed) =
        start_from-returns rounds 0 n initial_backoff t (omega arith) (omega (arith, enough))
          stopped in
      (returned, closed, start_from-waits rounds 0 initial_backoff t random)
