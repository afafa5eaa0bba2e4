-- ===== src/Fetcher/Fetches.antt =====
-- How often `Fetch` asks, and what it makes of failures.
use warmrunners.Base.{
  ℕ, zero, suc, ◌≤◌, String, ◌≡◌, refl, ap, ◌⊎◌, inl, inr, none, [], arith, Result, length,
  length-append, Option-cases,
}
use warmrunners.Clock.{Duration}
use warmrunners.Demand.Retry.{retry_after_secs}
use warmrunners.Fetcher.{FileCache, WorkflowFetcher}
use warmrunners.Fetcher.Fetch.{
  FileReply, failed, response, FetchStep, finished, wait_and_retry, retry_at_once, Fetched,
  FetchOutside, Wanted, contents_url, file_request, take_file_response, fetch_step, sleep_ctx,
  after_wait, fetch_from, fetch, retry_after_delay, status_error,
}

pub FetchStep-cases :
    (step : FetchStep)
    → ((r : Result String) × (files : FileCache) × (step ≡ finished r files))
      ⊎ (((e : String) × (step ≡ retry_at_once e))
          ⊎ ((e : String) × (d : Duration) × (step ≡ wait_and_retry e d)))
FetchStep-cases (finished r files) = inl (r, files, refl)
FetchStep-cases (retry_at_once e) = inr (inl (e, refl))
FetchStep-cases (wait_and_retry e d) = inr (inr (e, d, refl))

module _ (out : FetchOutside) (f : WorkflowFetcher) (w : Wanted) where
  abbrev from : ℕ → ℕ → Fetched
  from left attempt = fetch_from out f w left attempt

  abbrev step_of : ℕ → FetchStep
  step_of attempt = fetch_step out f w attempt

  length-sleep_ctx : (attempt : ℕ) (d : Duration) → length (sleep_ctx out f w attempt d).0 ≤ 1
  unfolding sleep_ctx
  length-sleep_ctx attempt d = ground arith

  fetch_from-bound :
      (left attempt : ℕ)
      → ((from left attempt).requests ≤ suc left) × (length (from left attempt).waits ≤ left)
  unfolding fetch_from after_wait
  fetch_from-bound zero attempt = elim (FetchStep-cases (step_of attempt)) [
    | inl (r, files, h) ↦ rw (h, fetch_from) (ground arith)
    | inr (inl (e, h)) ↦ rw (h, fetch_from) (ground arith)
    | inr (inr (e, d, h)) ↦ rw (h, fetch_from) (ground arith)
  ]
  fetch_from-bound (suc left) attempt = elim (FetchStep-cases (step_of attempt)) [
    | inl (r, files, h) ↦ rw (h, fetch_from) (ground arith)
    | inr (inl (e, h)) ↦ rw (h, fetch_from) (ground (arith, fetch_from-bound left (suc attempt)))
    | inr (inr (e, d, h)) ↦ elim (Option-cases (sleep_ctx out f w attempt d).1) [
      | inr (e', stopped) ↦ rw (h, stopped, fetch_from) (ground (arith, length-sleep_ctx attempt d))
      | inl rested ↦
          rw (h, rested, fetch_from)
            (ground (
              arith,
              fetch_from-bound left (suc attempt),
              length-sleep_ctx attempt d,
              length-append (sleep_ctx out f w attempt d).0 (from left (suc attempt)).waits,
            ))
    ]
  ]

  -- A fetch asks four times at most, and waits three times at most.
  pub fetch-bound : ((fetch out f w).requests ≤ 4) × (length (fetch out f w).waits ≤ 3)
  unfolding fetch
  fetch-bound = elim (Option-cases (out.new_request (contents_url out f w))) [
    | inr (e, bad) ↦ rw (bad, fetch) (ground arith)
    | inl made ↦ rw (made, fetch) (fetch_from-bound 3 0)
  ]

  -- The reply to every request is a 403 that says nothing of a rate limit.
  abbrev pub IsForbidden : FileReply → Type 0
  IsForbidden (failed e) = ⊥
  IsForbidden (response r) = (r.code ≡ 403) × (retry_after_secs r.retry_after ≡ none)

  forbidden_step :
      (attempt : ℕ)
      → IsForbidden (out.reply attempt (file_request out f w))
      → (e : String) × (step_of attempt ≡ retry_at_once e)
  unfolding fetch_step take_file_response retry_after_delay
  forbidden_step attempt h = from_reply (out.reply attempt (file_request out f w)) refl h
    where
      from_reply :
          (reply : FileReply)
          → out.reply attempt (file_request out f w) ≡ reply
          → IsForbidden reply
          → (e : String) × (step_of attempt ≡ retry_at_once e)
      from_reply (failed e) same g = absurd g
      from_reply (response r) same g = (status_error r, ground (arith, same, g.0, g.1))

  fetch_from-forbidden :
      (left attempt : ℕ)
      → ((i : ℕ) → IsForbidden (out.reply i (file_request out f w)))
      → ((from left attempt).requests ≡ suc left) × ((from left attempt).waits ≡ [])
  unfolding fetch_from after_wait
  fetch_from-forbidden zero attempt h =
      let (e, step) = forbidden_step attempt (h attempt) in rw (step, fetch_from) (refl, refl)
  fetch_from-forbidden (suc left) attempt h =
      let (e, step) = forbidden_step attempt (h attempt) in
      let (asked, waited) = fetch_from-forbidden left (suc attempt) h in
      rw (step, fetch_from) (ap suc asked, waited)

  -- Where every reply is a 403 without a Retry-After that can be read, the fetch asks four times and
  -- waits between none of them.
  pub fetch_forbidden :
      out.new_request (contents_url out f w) ≡ none
      → ((i : ℕ) → IsForbidden (out.reply i (file_request out f w)))
      → ((fetch out f w).requests ≡ 4) × ((fetch out f w).waits ≡ [])
  unfolding fetch
  fetch_forbidden made h = rw (made, fetch) (fetch_from-forbidden 3 0 h)
