-- ===== src/Demand/Attempts.antt =====
-- How many requests a call makes, and when it succeeds.
use warmrunners.Base.{
  ℕ, zero, suc, ◌+◌, ◌≤◌, ◌<◌, String, ◌≡◌, refl, ap, subst, ◌⊎◌, inl, inr, ◌||◌, Option, none,
  List, [], arith, Result, ok, err, nat_eq, length, length-append, Bool-cases, Option-cases,
  Result-cases,
}
use warmrunners.Clock.{Time, Duration}
use warmrunners.Demand.Retry.{
  Response, Reply, unbuilt, failed, response, Next, done, retry_after_wait, retry_now, Attempted,
  next, sleep, with_wait, retry_from, do_with_retry, rate_limit_delay, body_of, backoff_delay,
}

-- A network error, or an error of the server.
abbrev pub IsTransient : Reply → Type 0
IsTransient (unbuilt e) = ⊥
IsTransient (failed e) = Unit
IsTransient (response r) = 500 ≤ r.status

Next-cases :
    (n : Next)
    → ((r : Result (Response × String)) × (n ≡ done r))
      ⊎ (((e : String) × (n ≡ retry_now e))
          ⊎ ((e : String) × (w : Duration) × (n ≡ retry_after_wait e w)))
Next-cases (done r) = inl (r, refl)
Next-cases (retry_now e) = inr (inl (e, refl))
Next-cases (retry_after_wait e w) = inr (inr (e, w, refl))

module _ (base_delay : Duration) (reply : ℕ → Reply) (now : ℕ → Time) (jitter : ℕ → Duration)
    (cancelled : ℕ → Option String) where
  abbrev from : ℕ → ℕ → Attempted
  from left attempt = retry_from base_delay reply now jitter cancelled left attempt

  abbrev next_of : ℕ → Next
  next_of attempt = next base_delay reply now jitter cancelled (reply attempt) attempt

  abbrev slept : ℕ → Duration → List Duration × Option String
  slept attempt w = sleep base_delay reply now jitter cancelled attempt w

  IsTransient-next :
      (x : Reply) (attempt : ℕ)
      → IsTransient x
      → (e : String) × (w : Duration) × (next base_delay reply now jitter cancelled x attempt
          ≡ retry_after_wait e w)
  unfolding next
  IsTransient-next (unbuilt e) attempt h = absurd h
  IsTransient-next (failed e) attempt h =
      (e, backoff_delay base_delay (jitter attempt) attempt, refl)
  IsTransient-next (response r) attempt h =
      ("github api: status", backoff_delay base_delay (jitter attempt) attempt, ground arith)

  sleep-none : (attempt : ℕ) (w : Duration) → cancelled attempt ≡ none → (slept attempt w).1 ≡ none
  unfolding sleep
  sleep-none attempt w h = ground (arith, h)

  length-sleep-le : (attempt : ℕ) (w : Duration) → length (slept attempt w).0 ≤ 1
  unfolding sleep
  length-sleep-le attempt w = ground arith

  retry_from-bound :
      (left attempt : ℕ)
      → ((from left attempt).requests ≤ suc left) × (length (from left attempt).waits ≤ left)
  unfolding retry_from with_wait
  retry_from-bound zero attempt = elim (Next-cases (next_of attempt)) [
    | inl (r, h) ↦ rw (h, retry_from) (ground arith)
    | inr (inl (e, h)) ↦ rw (h, retry_from) (ground arith)
    | inr (inr (e, w, h)) ↦ rw (h, retry_from) (ground arith)
  ]
  retry_from-bound (suc left) attempt = elim (Next-cases (next_of attempt)) [
    | inl (r, h) ↦ rw (h, retry_from) (ground arith)
    | inr (inl (e, h)) ↦ rw (h, retry_from) (ground (arith, retry_from-bound left (suc attempt)))
    | inr (inr (e, w, h)) ↦ elim (Option-cases (slept attempt w).1) [
      | inr (e', stopped) ↦ rw (h, stopped, retry_from) (ground (arith, length-sleep-le attempt w))
      | inl slept_out ↦
          rw (h, slept_out, retry_from)
            (ground (
              arith,
              retry_from-bound left (suc attempt),
              length-sleep-le attempt w,
              length-append (slept attempt w).0 (from left (suc attempt)).waits,
            ))
    ]
  ]

  -- A call makes four requests at most, and waits three times at most.
  pub do_with_retry-bound :
      let call = do_with_retry base_delay reply now jitter cancelled in
      (call.requests ≤ 4) × (length call.waits ≤ 3)
  unfolding do_with_retry
  do_with_retry-bound = retry_from-bound 3 0

  retry_from-recovers :
      (j left attempt : ℕ) (r : Response) (body : String)
      → j ≤ left
      → ((i : ℕ) → i < attempt + j → IsTransient (reply i))
      → ((i : ℕ) → cancelled i ≡ none)
      → next_of (attempt + j) ≡ done (ok (r, body))
      → ((from left attempt).result ≡ ok (r, body)) × ((from left attempt).requests ≡ suc j)
  unfolding retry_from with_wait
  retry_from-recovers zero zero attempt r body few transient live good =
      let here : next_of attempt ≡ done (ok (r, body)) =
        subst (λ n. next_of n ≡ done (ok (r, body))) {x = attempt + 0} (omega arith) good in
      rw (here, retry_from) (refl, refl)
  retry_from-recovers zero (suc left) attempt r body few transient live good =
      let here : next_of attempt ≡ done (ok (r, body)) =
        subst (λ n. next_of n ≡ done (ok (r, body))) {x = attempt + 0} (omega arith) good in
      rw (here, retry_from) (refl, refl)
  retry_from-recovers (suc j) zero attempt r body few transient live good =
      absurd (omega (arith, few))
  retry_from-recovers (suc j) (suc left) attempt r body few transient live good =
      let (e, w, h) = IsTransient-next (reply attempt) attempt (transient attempt (omega arith)) in
      let (result, requests) =
        retry_from-recovers j left (suc attempt) r body (omega (arith, few))
          (λ i below. transient i (omega (arith, below))) live
          (subst (λ n. next_of n ≡ done (ok (r, body))) {x = attempt + suc j} (omega arith) good) in
      rw (h, sleep-none attempt w (live attempt), retry_from) (result, ap suc requests)

  done_of :
      (r : Response) (body : String) (attempt : ℕ)
      → (r.status ≡ 200) ⊎ (r.status ≡ 304)
      → r.body ≡ ok body
      → reply attempt ≡ response r
      → next_of attempt ≡ done (ok (r, body))
  unfolding next body_of
  done_of r body attempt fine read arrived = rw arrived (ground (arith, fine, read))

  -- A call rides out up to three transient failures: if these come first and a 200 or 304 whose body can be
  -- read comes next, the call returns that response and body, and no request follows it, unless the
  -- context is cancelled.
  pub do_with_retry-recovers :
      (failures : ℕ) (r : Response) (body : String)
      → failures ≤ 3
      → ((i : ℕ) → i < failures → IsTransient (reply i))
      → ((i : ℕ) → cancelled i ≡ none)
      → reply failures ≡ response r
      → (r.status ≡ 200) ⊎ (r.status ≡ 304)
      → r.body ≡ ok body
      → let call = do_with_retry base_delay reply now jitter cancelled in
        (call.result ≡ ok (r, body)) × (call.requests ≡ suc failures)
  unfolding do_with_retry
  do_with_retry-recovers failures r body few transient live arrived fine read =
      retry_from-recovers failures 3 0 r body few (λ i below. transient i (omega (arith, below)))
        live
        (subst (λ n. next_of n ≡ done (ok (r, body))) {x = failures} (omega arith)
          (done_of r body failures fine read arrived))

  retry_from-ok :
      (left attempt : ℕ) (r : Response) (body : String)
      → (from left attempt).result ≡ ok (r, body)
      → (i : ℕ) × (i ≤ attempt + left) × (next_of i ≡ done (ok (r, body)))
  unfolding retry_from with_wait
  retry_from-ok zero attempt r body h = elim (Next-cases (next_of attempt)) [
    | inl (x, n) ↦ (attempt, omega arith, ground (arith, n, h))
    | inr (inl (e, n)) ↦ absurd (ground (arith, n, h))
    | inr (inr (e, w, n)) ↦ absurd (ground (arith, n, h))
  ]
  retry_from-ok (suc left) attempt r body h = elim (Next-cases (next_of attempt)) [
    | inl (x, n) ↦ (attempt, omega arith, ground (arith, n, h))
    | inr (inl (e, n)) ↦
        let (i, below, found) = retry_from-ok left (suc attempt) r body (ground (arith, n, h)) in
        (i, omega (arith, below), found)
    | inr (inr (e, w, n)) ↦ elim (Option-cases (slept attempt w).1) [
      | inr (e', stopped) ↦ absurd (ground (arith, n, stopped, h))
      | inl rested ↦
          let (i, below, found) =
            retry_from-ok left (suc attempt) r body (ground (arith, n, rested, h)) in
          (i, omega (arith, below), found)
    ]
  ]

  done-ok :
      (x : Reply) (attempt : ℕ) (r : Response) (body : String)
      → next base_delay reply now jitter cancelled x attempt ≡ done (ok (r, body))
      → (x ≡ response r) × ((r.status ≡ 200) ⊎ (r.status ≡ 304)) × (r.body ≡ ok body)
  unfolding next body_of
  done-ok (unbuilt e) attempt r body h = absurd cc
  done-ok (failed e) attempt r body h = absurd cc
  done-ok (response x) attempt r body h =
      elim (Bool-cases (nat_eq x.status 200 || nat_eq x.status 304)) [
        | inr other ↦ elim (Option-cases (rate_limit_delay x (now attempt))) [
          | inl silent ↦ absurd (ground (arith, other, silent, h))
          | inr (wait, given) ↦ absurd (ground (arith, other, given, h))
        ]
        | inl fine ↦ elim (Result-cases x.body) [
          | inr (e, broken) ↦ absurd (ground (arith, fine, broken, h))
          | inl (b, read) ↦
              let same : (x ≡ r) × (b ≡ body) = ground (arith, fine, read, h) in
              (
                ap response same.0,
                subst (λ y. (y.status ≡ 200) ⊎ (y.status ≡ 304)) same.0 (ground (arith, fine)),
                subst (λ y. y.body ≡ ok body) same.0 (subst (λ c. x.body ≡ ok c) same.1 read),
              )
        ]
      ]

  -- A call succeeds only with a 200 or 304 that answered one of its requests, and with the whole body of this
  -- response.
  pub do_with_retry-ok :
      (r : Response) (body : String)
      → (do_with_retry base_delay reply now jitter cancelled).result ≡ ok (r, body)
      → (i : ℕ) × (i ≤ 3)
        × (reply i ≡ response r)
        × ((r.status ≡ 200) ⊎ (r.status ≡ 304))
        × (r.body ≡ ok body)
  unfolding do_with_retry
  do_with_retry-ok r body h =
      let (i, below, found) = retry_from-ok 3 0 r body h in
      let (arrived, fine, read) = done-ok (reply i) i r body found in
      (i, omega (arith, below), arrived, fine, read)

  module _ (r : Response) (always : (i : ℕ) → reply i ≡ response r) (forbidden : r.status ≡ 403)
      (silent : (i : ℕ) → rate_limit_delay r (now i) ≡ none) where
    forbidden-next : (i : ℕ) → next_of i ≡ retry_now "github api: status"
    unfolding next
    forbidden-next i = rw (always i) (ground (arith, forbidden, silent i))

    forbidden-from :
        (left attempt : ℕ)
        → ((from left attempt).requests ≡ suc left)
          × ((from left attempt).waits ≡ [])
          × ((from left attempt).result ≡ err "github api: status")
    unfolding retry_from with_wait
    forbidden-from zero attempt = rw (forbidden-next attempt, retry_from) (refl, refl, refl)
    forbidden-from (suc left) attempt =
        let (requests, waits, result) = forbidden-from left (suc attempt) in
        rw (forbidden-next attempt, retry_from) (ap suc requests, waits, result)

  -- The 403 of an account without access is not waited for, yet it is asked for four times: the `break` of
  -- its case leaves the switch and not the loop.
  pub do_with_retry_forbidden :
      (r : Response)
      → ((i : ℕ) → reply i ≡ response r)
      → r.status ≡ 403
      → ((i : ℕ) → rate_limit_delay r (now i) ≡ none)
      → let call = do_with_retry base_delay reply now jitter cancelled in
        (call.requests ≡ 4) × (call.waits ≡ []) × (call.result ≡ err "github api: status")
  unfolding do_with_retry
  do_with_retry_forbidden r always forbidden silent = forbidden-from r always forbidden silent 3 0
