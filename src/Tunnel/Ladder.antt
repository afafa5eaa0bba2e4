-- ===== src/Tunnel/Ladder.antt =====
-- Rounds in a row in `Start` of internal/webhook/tunnel.go: refused ones, and streams that end at once.
use warmrunners.Base.{
  ℕ, zero, suc, ◌+◌, ◌*◌, ◌^◌, ◌≤◌, ◌<◌, String, true, false, List, [], ◌∷◌, Option, none, GoMap,
  Result, ◌≡◌, refl, sym, ap, ◌⊎◌, subst, arith, if◌then◌else◌, nat_eq, is_some, pos, negsuc, ◌<ℤ◌,
  ◌*ℤ◌, to_i64, to_i64_pos, ltb, Bool-cases, inl, inr,
}
use warmrunners.Clock.{Duration}
use warmrunners.Webhook.{Bytes}
use warmrunners.Tunnel.{Frame, Body, Scanned}
use warmrunners.Tunnel.Stream.{Pending, nothing_pending, read_line, read_from, read_sse}
use warmrunners.Tunnel.Loop.{
  initial_backoff, cap_of, min_duration, full_jitter, Answer, Round, Tunnel, Started, settle,
  waited, success, read_connected, stream_once, start_from, start,
}

-- No stream is opened.
abbrev pub IsRefused : Answer → Type 0
IsRefused (Answer.bad_request e) = Unit
IsRefused (Answer.dial_failed e) = Unit
IsRefused (Answer.answered status body) = nat_eq status 200 ≡ false

-- A round that fails while the context lives.
pub record IsFailing (r : Round) : Type 0 where
  pub before : r.stopped_before ≡ false
  pub refused : IsRefused r.answer
  pub after : r.stopped_after ≡ false
  pub waiting : r.stopped_waiting ≡ false

-- A stream that the relay closes, while the context lives at the head of the round.
pub record IsClosed (r : Round) : Type 0 where
  pub before : r.stopped_before ≡ false
  pub body : Body
  pub opened : r.answer ≡ Answer.answered 200 body
  pub clean : body.scan_err ≡ none

-- A backoff of `b` ns against the power `p` of two and the cap `c`: both count the same, below the cap.
abbrev Rung : ℕ → ℕ → ℕ → Type 0
Rung c p b =
    ((b ≡ 500000000 * p) × (b ≤ c + 500000000))
    ⊎ ((c ≤ b) × (c ≤ 500000000 * p) × (b ≤ c + 500000000))

double : (b : ℕ) → pos b *ℤ pos 2 ≡ pos (b * 2)
unfolding ◌*ℤ◌
double b = ground arith

min_pos : (a c : ℕ) → min_duration (pos a) (pos c) ≡ pos (if ltb a c then a else c)
unfolding min_duration
min_pos a c = ground arith

Rung-double : (c p b : ℕ) → 0 < c → Rung c p b → Rung c (p * 2) (if ltb (b * 2) c then b * 2 else c)
Rung-double c p b positive h = ground (arith, positive, h)

Rung-min :
    (c p b : ℕ)
    → Rung c p b
    → min_duration (pos b) (pos c) ≡ min_duration (pos (500000000 * p)) (pos c)
unfolding min_duration
Rung-min c p b h = ground (arith, h)

longer_rung :
    (c b : ℕ)
    → c < 4000000000000000000
    → b ≤ c + 500000000
    → min_duration (to_i64 (pos b *ℤ pos 2)) (pos c) ≡ pos (if ltb (b * 2) c then b * 2 else c)
longer_rung c b small low =
    rw (double b, to_i64_pos (b * 2) (omega (arith, small, low))) (min_pos (b * 2) c)

settle-failing :
    {S : Type 0} (r : Round) (error : Option String) (wait : Duration) (t after : Tunnel S)
    (rest : Started S)
    → IsFailing r
    → is_some error ≡ true
    → settle r error wait t after rest ≡ waited wait rest
unfolding settle
settle-failing r error wait t after rest h failed =
    rw (h.before, settle, failed, h.after, h.waiting) refl

settle-clean :
    {S : Type 0} (r : Round) (error : Option String) (wait : Duration) (t after : Tunnel S)
    (rest : Started S)
    → r.stopped_before ≡ false
    → error ≡ none
    → settle r error wait t after rest ≡ rest
unfolding settle
settle-clean r error wait t after rest live fine = rw (live, settle, fine) refl

cap_cases :
    (m : Duration)
    → m <ℤ pos 4000000000000000000
    → (c : ℕ) × (0 < c) × (c < 4000000000000000000) × (cap_of m ≡ pos c)
unfolding cap_of
cap_cases (pos n) small = elim (Bool-cases (ltb 0 n)) [
  | inl set ↦ (n, ground (arith, set), ground (arith, small), ground (arith, set))
  | inr unset ↦ (30000000000, ground arith, ground arith, ground (arith, unset))
]
cap_cases (negsuc n) small = (30000000000, ground arith, ground arith, ground arith)

module _ {S : Type 0} (decode : String → Result Frame) (handle : GoMap String → Bytes → S → S) where
  refused-error :
      (a : Answer) (t : Tunnel S) → IsRefused a → is_some (stream_once decode handle a t).0 ≡ true
  unfolding stream_once
  refused-error (Answer.bad_request e) t h = refl
  refused-error (Answer.dial_failed e) t h = refl
  refused-error (Answer.answered status body) t h = rw (h, stream_once) refl

  read_from-clean :
      (lines : List Scanned) (p : Pending) (s : S)
      → (read_from decode handle lines none p s).0 ≡ none
  unfolding read_from
  read_from-clean [] p s = refl
  read_from-clean (l ∷ lines) p s = elim (Bool-cases l.cancelled) [
    | inl c ↦ rw c refl
    | inr c ↦ rw c (
        read_from-clean lines (read_line decode handle l.text p s).0
          (read_line decode handle l.text p s).1)
  ]

  closed-none :
      (body : Body) (t : Tunnel S)
      → body.scan_err ≡ none
      → (stream_once decode handle (Answer.answered 200 body) t).0 ≡ none
  unfolding stream_once read_connected read_sse
  closed-none body t clean =
      subst (λ e. (read_from decode handle body.lines e nothing_pending t.handled).0 ≡ none)
        (sym clean) (read_from-clean body.lines nothing_pending t.handled)

  closed-success :
      (body : Body) (t : Tunnel S)
      → (stream_once decode handle (Answer.answered 200 body) t).1.successes ≡ suc t.successes
  unfolding stream_once read_connected success
  closed-success body t = refl

  module _ (max_backoff : Duration) (round : ℕ → Round) where
    abbrev from : ℕ → ℕ → Duration → Tunnel S → Started S
    from fuel i backoff t = start_from decode handle max_backoff round fuel i backoff t

    abbrev streamed : ℕ → Tunnel S → Option String × Tunnel S
    streamed i t = stream_once decode handle (round i).answer t

    abbrev longer : Duration → Duration
    longer backoff = min_duration (to_i64 (backoff *ℤ pos 2)) (cap_of max_backoff)

    -- The waits from round `i` on: round `k` draws below 500 ms doubled `k` times, or below the cap.
    unfoldable pub ladder_waits : ℕ → ℕ → List Duration
    ladder_waits zero i = []
    ladder_waits (suc fuel) i =
        full_jitter (round i).int64_n (min_duration (pos (500000000 * 2 ^ i)) (cap_of max_backoff))
        ∷ ladder_waits fuel (suc i)

    module _ (c : ℕ) (positive : 0 < c) (small : c < 4000000000000000000)
        (cap : cap_of max_backoff ≡ pos c) (failing : (k : ℕ) → IsFailing (round k)) where
      next-Rung :
          (i b : ℕ) → Rung c (2 ^ i) b → Rung c (2 ^ suc i) (if ltb (b * 2) c then b * 2 else c)
      next-Rung i b rung =
          subst (λ p. Rung c p (if ltb (b * 2) c then b * 2 else c)) {x = 2 ^ i * 2} (omega arith)
            (Rung-double c (2 ^ i) b positive rung)

      longer_eq :
          (i b : ℕ) → Rung c (2 ^ i) b → longer (pos b) ≡ pos (if ltb (b * 2) c then b * 2 else c)
      longer_eq i b rung = rw cap (longer_rung c b small (ground (arith, rung)))

      wait_eq :
          (i b : ℕ)
          → Rung c (2 ^ i) b
          → full_jitter (round i).int64_n (min_duration (pos b) (cap_of max_backoff))
            ≡ full_jitter
                (round i).int64_n
                (min_duration (pos (500000000 * 2 ^ i)) (cap_of max_backoff))
      wait_eq i b rung = rw cap (ap (full_jitter (round i).int64_n) (Rung-min c (2 ^ i) b rung))

      ladder_from :
          (fuel i b : ℕ) (t : Tunnel S)
          → Rung c (2 ^ i) b
          → (from fuel i (pos b) t).waits ≡ ladder_waits fuel i
      unfolding start_from ladder_waits
      ladder_from zero i b t rung = refl
      ladder_from (suc fuel) i b t rung =
          let failed : is_some (streamed i t).0 ≡ true =
            refused-error (round i).answer t (failing i).refused in
          rw
            (
              settle-failing (round i) (streamed i t).0
                  (full_jitter (round i).int64_n (min_duration (pos b) (cap_of max_backoff))) t
                  (streamed i t).1
                  (from fuel (suc i)
                    (if is_some (streamed i t).0 then longer (pos b) else initial_backoff)
                    (streamed i t).1)
                  (failing i) failed,
              waited,
              failed,
              longer_eq i b rung,
              wait_eq i b rung,
            )
            (ap
              (λ rest.
                full_jitter (round i).int64_n
                  (min_duration (pos (500000000 * 2 ^ i)) (cap_of max_backoff))
                ∷ rest)
              (ladder_from fuel (suc i) (if ltb (b * 2) c then b * 2 else c) (streamed i t).1
                (next-Rung i b rung)))

    clean_from :
        (fuel i : ℕ) (backoff : Duration) (t : Tunnel S)
        → ((k : ℕ) → IsClosed (round k))
        → ((from fuel i backoff t).waits ≡ [])
          × ((from fuel i backoff t).tunnel.successes ≡ fuel + t.successes)
    unfolding start_from
    clean_from zero i backoff t closed = (refl, omega arith)
    clean_from (suc fuel) i backoff t closed =
        let r = closed i in
        let error : (streamed i t).0 ≡ none =
          subst (λ a. (stream_once decode handle a t).0 ≡ none) (sym r.opened)
            (closed-none r.body t r.clean) in
        let opened : (streamed i t).1.successes ≡ suc t.successes =
          subst (λ a. (stream_once decode handle a t).1.successes ≡ suc t.successes) (sym r.opened)
            (closed-success r.body t) in
        let next = if is_some (streamed i t).0 then longer backoff else initial_backoff in
        let (waits, successes) = clean_from fuel (suc i) next (streamed i t).1 closed in
        rw
          (settle-clean (round i) (streamed i t).0
            (full_jitter (round i).int64_n (min_duration backoff (cap_of max_backoff))) t
            (streamed i t).1 (from fuel (suc i) next (streamed i t).1) r.before error)
          (waits, omega (arith, successes, opened))

    -- Behind `k` refused requests in a row the wait is drawn below 500 ms doubled `k` times, or below the cap
    -- where that is less, for every `k` and without an overflow of the doubling, while the context lives and
    -- the configured cap is below 4 * 10^18 ns.
    pub start-ladder :
        (rounds : ℕ) (t : Tunnel S)
        → ((k : ℕ) → IsFailing (round k))
        → max_backoff <ℤ pos 4000000000000000000
        → (start decode handle max_backoff round rounds t).waits ≡ ladder_waits rounds 0
    unfolding start
    start-ladder rounds t failing small =
        let (c, positive, below, cap) = cap_cases max_backoff small in
        ladder_from c positive below cap failing rounds 0 500000000 t (ground arith)

    -- Where every request is accepted and every stream ends without an error, the relay is asked again
    -- each time without any wait: the backoff does not count such a round.
    pub start-closed :
        (rounds : ℕ) (t : Tunnel S)
        → ((k : ℕ) → IsClosed (round k))
        → let done = start decode handle max_backoff round rounds t in
          (done.waits ≡ []) × (done.tunnel.successes ≡ rounds + t.successes)
    unfolding start
    start-closed rounds t closed = clean_from rounds 0 initial_backoff t closed
