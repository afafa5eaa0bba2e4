-- ===== src/Tunnel/Loop.antt =====
-- `Start` and `streamOnce` of internal/webhook/tunnel.go. What each round of the loop meets is a parameter:
-- the context, the relay's answer and the random number of the wait.
use Prim.Native.String.{◌++◌ as str_append}
use warmrunners.Base.{
  ℕ, zero, suc, String, Bool, true, false, List, [], ◌∷◌, Option, some, GoMap, Result,
  if◌then◌else◌, nat_eq, is_some, pos, ◌*ℤ◌, to_i64, ltb_ℤ, leb_ℤ,
}
use warmrunners.Clock.{Duration}
use warmrunners.Webhook.{Bytes}
use warmrunners.Tunnel.{Frame, Body}
use warmrunners.Tunnel.Stream.{read_sse}

abbrev pub initial_backoff : Duration
initial_backoff = pos 500000000

abbrev pub max_backoff_cap : Duration
max_backoff_cap = pos 30000000000

-- `cap`, of the field `maxBackoff`
unfoldable pub cap_of : Duration → Duration
cap_of max_backoff = if ltb_ℤ (pos 0) max_backoff then max_backoff else max_backoff_cap

unfoldable pub min_duration : Duration → Duration → Duration
min_duration a b = if ltb_ℤ a b then a else b

-- The parameter is `rand.Int64N`.
unfoldable pub full_jitter : (Duration → Duration) → Duration → Duration
full_jitter int64_n d = if leb_ℤ d (pos 0) then pos 0 else int64_n d

-- How the relay answers a request.
pub data Answer : Type 0 where
  bad_request dial_failed : String → Answer
  answered : ℕ → Body → Answer

-- What one round of the loop meets; the three tests of the context are at its head, behind a failed stream
-- and during the wait.
pub record Round : Type 0 where
  pub stopped_before : Bool
  pub answer : Answer
  pub stopped_after : Bool
  pub int64_n : Duration → Duration
  pub stopped_waiting : Bool

-- The client's flag, the counter of reconnects by result, and the state of the handler.
pub record Tunnel (S : Type 0) : Type 0 where
  pub connected : Bool
  pub failures : ℕ
  pub successes : ℕ
  pub handled : S

-- What `Start` has done: whether it has returned, its waits, and the tunnel it leaves.
pub record Started (S : Type 0) : Type 0 where
  pub returned : Bool
  pub waits : List Duration
  pub tunnel : Tunnel S

unfoldable pub set_connected : {S : Type 0} → Bool → Tunnel S → Tunnel S
set_connected v t = record t { connected = v }

unfoldable pub failure : {S : Type 0} → Tunnel S → Tunnel S
failure t = record t { failures = suc t.failures }

unfoldable pub success : {S : Type 0} → Tunnel S → Tunnel S
success t = record t { successes = suc t.successes }

unfoldable pub give_up : {S : Type 0} → Tunnel S → Started S
unfolding set_connected
give_up t = record { returned = true; waits = []; tunnel = set_connected false t }

unfoldable pub waited : {S : Type 0} → Duration → Started S → Started S
waited d done = record done { waits = d ∷ done.waits }

-- The tests of one round: the tunnel before the stream and behind it, and the rounds that follow.
unfoldable pub settle :
    {S : Type 0} → Round → Option String → Duration → Tunnel S → Tunnel S → Started S → Started S
unfolding give_up waited
settle r error wait t after rest =
    if r.stopped_before
    then give_up t
    else if is_some error
    then (if r.stopped_after
        then give_up after
        else if r.stopped_waiting
        then waited wait (give_up after)
        else waited wait rest)
    else rest

module _ {S : Type 0} (decode : String → Result Frame) (handle : GoMap String → Bytes → S → S) where
  -- The flag is set while the stream is read, and cleared behind it.
  unfoldable pub read_connected : Body → Tunnel S → Option String × Tunnel S
  unfolding set_connected
  read_connected body t =
      let open_tunnel = set_connected true t in
      let (error, handled) = read_sse decode handle body open_tunnel.handled in
      (error, set_connected false (record open_tunnel { handled = handled }))

  unfoldable pub stream_once : Answer → Tunnel S → Option String × Tunnel S
  unfolding failure success read_connected
  stream_once (Answer.bad_request e) t = (some (str_append "build request: " e), failure t)
  stream_once (Answer.dial_failed e) t = (some (str_append "http dial: " e), failure t)
  stream_once (Answer.answered status body) t =
      if nat_eq status 200
      then read_connected body (success t)
      else (some "unexpected status", failure t)

  module _ (max_backoff : Duration) (round : ℕ → Round) where
    -- The rounds from the `i`th on; the last argument of the two is how many there may be.
    unfoldable pub start_from : ℕ → ℕ → Duration → Tunnel S → Started S
    unfolding settle stream_once full_jitter min_duration cap_of
    start_from zero i backoff t = record { returned = false; waits = []; tunnel = t }
    start_from (suc fuel) i backoff t =
        let r = round i in
        let (error, after) = stream_once r.answer t in
        let wait = full_jitter r.int64_n (min_duration backoff (cap_of max_backoff)) in
        let longer = min_duration (to_i64 (backoff *ℤ pos 2)) (cap_of max_backoff) in
        let rest =
          start_from fuel (suc i) (if is_some error then longer else initial_backoff) after in
        settle r error wait t after rest

    unfoldable pub start : ℕ → Tunnel S → Started S
    start rounds t = start_from rounds 0 initial_backoff t
