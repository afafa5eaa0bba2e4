-- ===== src/Demand/Retry.antt =====
-- Retries and waits: `doWithRetry`, `backoff`, `sleepCtx` and `rateLimitDelay` of
-- internal/demand/github_poller.go.
use Prim.Native.Char.{code}
use warmrunners.Base.{
  ℕ, zero, suc, ◌++◌, ◌*◌, ◌^◌, String, ◌&&◌, ◌||◌, Option, none, some, List, [], ◌∷◌, ℤ, pos, ◌+ℤ◌,
  ◌*ℤ◌, to_i64, ltb_ℤ, leb_ℤ, leb, nat_eq, Result, ok, err, if◌then◌else◌, ◌==◌,
}
use warmrunners.Clock.{Time, Duration, second, time_sub, time_add}
use warmrunners.Scheduler.Sscanf.{is_space, parse_int}

-- `http.Response`: its status code, the headers that are read, and what `io.ReadAll` makes of its body.
pub record Response : Type 0 where
  pub status : ℕ
  pub retry_after : String
  pub remaining : String
  pub reset : String
  pub etag : String
  pub body : Result String

-- One attempt: the error of `NewRequestWithContext`, or of `p.client.Do`, or a response.
pub data Reply : Type 0 where
  unbuilt : String → Reply
  failed : String → Reply
  response : Response → Reply

-- `maxBackoff` and `maxRetries`
abbrev pub max_backoff : Duration
max_backoff = pos (60 * second)

abbrev pub max_retries : ℕ
max_retries = 3

-- `strings.TrimSpace`
unfoldable pub trim_left : String → String
trim_left String.[] = String.[]
trim_left (String.◌∷◌ c s) =
    let rest = trim_left s in if is_space (code c) then rest else String.◌∷◌ c s

unfoldable pub trim_right : String → String
trim_right String.[] = String.[]
trim_right (String.◌∷◌ c s) =
    let rest = trim_right s in
    if is_space (code c) && rest == "" then String.[] else String.◌∷◌ c rest

unfoldable pub trim_space : String → String
trim_space s = trim_right (trim_left s)

-- The seconds of a Retry-After header, where it can be read and is not negative.
unfoldable pub retry_after_secs : String → Option ℤ
retry_after_secs ra = if ra == "" then none else elim (parse_int (trim_space ra)) [
  | none ↦ none
  | some secs ↦ if leb_ℤ (pos 0) secs then some secs else none
]

-- `time.Unix(epoch, 0)`
unfoldable pub time_unix : ℤ → Time
time_unix epoch = time_add (62135596800 * second) (epoch *ℤ pos second)

-- The wait for X-RateLimit-Reset, 0 where it is past.
unfoldable pub wait_until : Time → Time → Duration
wait_until reset now = let wait = time_sub reset now in if ltb_ℤ wait (pos 0) then pos 0 else wait

unfoldable pub reset_wait : Response → Time → Option Duration
reset_wait r now =
    if r.remaining == "0"
    then (if r.reset == "" then none else elim (parse_int (trim_space r.reset)) [
      | none ↦ none
      | some epoch ↦ some (wait_until (time_unix epoch) now)
    ])
    else none

-- `rateLimitDelay`; `none` is not retryable.
unfoldable pub rate_limit_delay : Response → Time → Option Duration
rate_limit_delay r now = elim (retry_after_secs r.retry_after) [
  | some secs ↦ some (to_i64 (secs *ℤ pos second))
  | none ↦ reset_wait r now
]

-- The first cap of `backoff`, which an overflow of the shift meets too.
unfoldable pub cap_delay : Duration → Duration
cap_delay d = if ltb_ℤ max_backoff d || leb_ℤ d (pos 0) then max_backoff else d

-- The delay of `backoff`, with the jitter that was drawn; the shift is on int64.
unfoldable pub backoff_delay : Duration → Duration → ℕ → Duration
backoff_delay base jitter attempt =
    let capped = cap_delay (to_i64 (base *ℤ pos (2 ^ attempt))) in
    let jittered = if ltb_ℤ (pos 0) base then to_i64 (capped +ℤ jitter) else capped in
    if ltb_ℤ max_backoff jittered then max_backoff else jittered

-- What a reply leads to: the end, or a further attempt with the last error, behind a wait or, at a
-- `break` out of the switch, at once.
pub data Next : Type 0 where
  done : Result (Response × String) → Next
  retry_after_wait : String → Duration → Next
  retry_now : String → Next

unfoldable pub body_of : Response → Result (Response × String)
body_of r = elim r.body [ err e ↦ err e | ok body ↦ ok (r, body) ]

-- What one call of `doWithRetry` did: its requests, one that could not be built included, its waits and its result.
pub record Attempted : Type 0 where
  pub requests : ℕ
  pub waits : List Duration
  pub result : Result (Response × String)

-- `base_delay` of the poller, and by attempt: the reply, the clock, the jitter, and the error of a context
-- that is cancelled during a wait.
module _ (base_delay : Duration) (reply : ℕ → Reply) (now : ℕ → Time) (jitter : ℕ → Duration)
    (cancelled : ℕ → Option String) where
  unfoldable pub next : Reply → ℕ → Next
  next (unbuilt e) attempt = done (err e)
  next (failed e) attempt = retry_after_wait e (backoff_delay base_delay (jitter attempt) attempt)
  next (response r) attempt =
      let delay = backoff_delay base_delay (jitter attempt) attempt in
      if nat_eq r.status 200 || nat_eq r.status 304
      then done (body_of r)
      else if leb 500 r.status
      then retry_after_wait "github api: status" delay
      else if nat_eq r.status 429 || nat_eq r.status 403
      then elim (rate_limit_delay r (now attempt)) [
        | none ↦ retry_now "github api: status"
        | some wait ↦
            retry_after_wait "github api: status" (if ltb_ℤ (pos 0) wait then wait else delay)
      ]
      else done (err "github api: status")

  -- `sleepCtx`: its waits and its error.
  unfoldable pub sleep : ℕ → Duration → List Duration × Option String
  sleep attempt d = if leb_ℤ d (pos 0) then ([], none) else (d ∷ [], cancelled attempt)

  unfoldable pub with_wait : List Duration → Attempted → Attempted
  with_wait waits rest = record {
    requests = suc rest.requests;
    waits = waits ++ rest.waits;
    result = rest.result;
  }

  abbrev ended : List Duration → Result (Response × String) → Attempted
  ended waits result = record { requests = 1; waits = waits; result = result }

  -- The loop of `doWithRetry` from an attempt on, with this many retries left.
  unfoldable pub retry_from : ℕ → ℕ → Attempted
  retry_from zero attempt = elim (next (reply attempt) attempt) [
    | done result ↦ ended [] result
    | retry_after_wait e wait ↦ ended [] (err e)
    | retry_now e ↦ ended [] (err e)
  ]
  retry_from (suc left) attempt = elim (next (reply attempt) attempt) [
    | done result ↦ ended [] result
    | retry_now e ↦ with_wait [] (retry_from left (suc attempt))
    | retry_after_wait e wait ↦ elim (sleep attempt wait).1 [
      | some e' ↦ ended (sleep attempt wait).0 (err e')
      | none ↦ with_wait (sleep attempt wait).0 (retry_from left (suc attempt))
    ]
  ]

  unfoldable pub do_with_retry : Attempted
  do_with_retry = retry_from max_retries 0
