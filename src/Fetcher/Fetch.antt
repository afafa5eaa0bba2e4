-- ===== src/Fetcher/Fetch.antt =====
-- `Fetch`, `backoff`, `sleepCtx` and `retryAfterDelay` of internal/predictor/cache.go.
use Prim.Native.String.{◌++◌ as str_append}
use warmrunners.Base.{
  ℕ, zero, suc, ◌*◌, ◌^◌, ◌++◌, String, ◌||◌, List, [], ◌∷◌, Option, none, some, Result, ok, err,
  pos, ◌+ℤ◌, ◌*ℤ◌, to_i64, ltb_ℤ, leb_ℤ, if◌then◌else◌, nat_eq, leb,
}
use warmrunners.Clock.{Duration, second}
use warmrunners.Demand.Retry.{trim_space, retry_after_secs}
use warmrunners.Predictor.Listing.{concat_texts, trim_slashes, header_of}
use warmrunners.Fetcher.{FileCache, WorkflowFetcher}
use warmrunners.Fetcher.Eviction.{cached_etag, touch_and_get, store}

-- The response with the headers that are read.
pub record FileResponse : Type 0 where
  pub code : ℕ
  pub status : String
  pub etag : String
  pub retry_after : String
  pub body : Result String

pub data FileReply : Type 0 where
  failed : String → FileReply
  response : FileResponse → FileReply

pub record FileRequest : Type 0 where
  pub url : String
  pub user_agent : String
  pub authorization : Option String
  pub if_none_match : Option String

-- What `Fetch` is asked for.
pub record Wanted : Type 0 where
  pub owner : String
  pub repo : String
  pub path : String
  pub ref : String
  pub token : String

abbrev pub fetcher_max_backoff : Duration
fetcher_max_backoff = pos (60 * second)

abbrev pub max_fetch_retries : ℕ
max_fetch_retries = 3

-- The separator is the character 0.
unfoldable pub cache_key : Wanted → String
unfolding concat_texts
cache_key w = concat_texts (w.owner ∷ "\0" ∷ w.repo ∷ "\0" ∷ w.path ∷ "\0" ∷ w.ref ∷ [])

unfoldable pub cap_backoff : Duration → Duration
cap_backoff d = if ltb_ℤ fetcher_max_backoff d || leb_ℤ d (pos 0) then fetcher_max_backoff else d

-- The delay of `backoff`, with the jitter that was drawn; the shift is on int64.
unfoldable pub backoff_of : Duration → Duration → ℕ → Duration
unfolding cap_backoff
backoff_of base jitter attempt =
    let d = cap_backoff (to_i64 (base *ℤ pos (2 ^ attempt))) in
    let jittered = if ltb_ℤ (pos 0) base then to_i64 (d +ℤ jitter) else d in
    if ltb_ℤ fetcher_max_backoff jittered then fetcher_max_backoff else jittered

-- `none` is not retryable.
unfoldable pub retry_after_delay : FileResponse → Option Duration
retry_after_delay r = elim (retry_after_secs r.retry_after) [
  | some secs ↦ some (to_i64 (secs *ℤ pos second))
  | none ↦ if nat_eq r.code 429 then some (pos 0) else none
]

unfoldable pub status_error : FileResponse → String
status_error r = str_append "workflow fetcher: " r.status

abbrev pub nothing_cached : Wanted → String
nothing_cached w =
    concat_texts ("workflow fetcher: 304 for " ∷ cache_key w ∷ " but nothing cached" ∷ [])

-- What a reply leads to: the end with the cache, or a further attempt with the last error, behind a
-- wait or, at a `break` out of the switch, at once.
pub data FetchStep : Type 0 where
  finished : Result String → FileCache → FetchStep
  wait_and_retry : String → Duration → FetchStep
  retry_at_once : String → FetchStep

-- The requests and the waits of one call, its result and the cache after it.
pub record Fetched : Type 0 where
  pub requests : ℕ
  pub waits : List Duration
  pub result : Result String
  pub files : FileCache

-- Outside this file: `url.PathEscape` and `url.QueryEscape`, the error of `NewRequestWithContext`,
-- and by attempt the reply, the jitter and the error of a context that is cancelled in a wait.
pub record FetchOutside : Type 0 where
  pub path_escape : String → String
  pub query_escape : String → String
  pub new_request : String → Option String
  pub reply : ℕ → FileRequest → FileReply
  pub jitter : ℕ → Duration
  pub cancelled : ℕ → Option String

module _ (out : FetchOutside) (f : WorkflowFetcher) (w : Wanted) where
  unfoldable pub contents_url : String
  contents_url = concat_texts (
      trim_slashes f.base_url
      ∷ "/repos/"
      ∷ out.path_escape w.owner
      ∷ "/"
      ∷ out.path_escape w.repo
      ∷ "/contents/"
      ∷ out.path_escape w.path
      ∷ "?ref="
      ∷ out.query_escape w.ref
      ∷ [])

  unfoldable pub file_request : FileRequest
  unfolding header_of
  file_request = record {
    url = contents_url;
    user_agent = f.user_agent;
    authorization = header_of "Bearer " (trim_space w.token);
    if_none_match = header_of "" (cached_etag f.files (cache_key w));
  }

  unfoldable pub backoff_at : ℕ → Duration
  backoff_at attempt = backoff_of f.base_delay (out.jitter attempt) attempt

  -- The switch on the status.
  unfoldable pub take_file_response : FileResponse → ℕ → FetchStep
  take_file_response r attempt =
      if nat_eq r.code 200
      then elim r.body [
        | err e ↦ finished (err e) f.files
        | ok body ↦ finished (ok body) (store (cache_key w) r.etag body f.files)
      ]
      else if nat_eq r.code 304
      then elim (touch_and_get (cache_key w) f.files).0 [
        | none ↦ finished (err (nothing_cached w)) f.files
        | some body ↦ finished (ok body) (touch_and_get (cache_key w) f.files).1
      ]
      else if nat_eq r.code 404
      then finished
          (err (
            concat_texts
              ("workflow not found: " ∷ w.owner ∷ "/" ∷ w.repo ∷ " " ∷ w.path ∷ "@" ∷ w.ref ∷ [])))
          f.files
      else if nat_eq r.code 429 || nat_eq r.code 403
      then elim (retry_after_delay r) [
        | none ↦ retry_at_once (status_error r)
        | some wait ↦
            wait_and_retry (status_error r)
              (if ltb_ℤ (pos 0) wait then wait else backoff_at attempt)
      ]
      else if leb 500 r.code
      then wait_and_retry (status_error r) (backoff_at attempt)
      else finished (err (status_error r)) f.files

  unfoldable pub fetch_step : ℕ → FetchStep
  unfolding take_file_response
  fetch_step attempt = elim (out.reply attempt file_request) [
    | failed e ↦ wait_and_retry e (backoff_at attempt)
    | response r ↦ take_file_response r attempt
  ]

  -- `sleepCtx`: its waits and its error.
  unfoldable pub sleep_ctx : ℕ → Duration → List Duration × Option String
  sleep_ctx attempt d = if leb_ℤ d (pos 0) then ([], none) else (d ∷ [], out.cancelled attempt)

  abbrev pub fetched_with : List Duration → Result String → FileCache → Fetched
  fetched_with waits result files = record {
    requests = 1;
    waits = waits;
    result = result;
    files = files;
  }

  unfoldable pub after_wait : List Duration → Fetched → Fetched
  after_wait waits rest = record rest { requests = suc rest.requests; waits = waits ++ rest.waits }

  -- The loop of `Fetch` from an attempt on, with this many retries left.
  unfoldable pub fetch_from : ℕ → ℕ → Fetched
  unfolding after_wait
  fetch_from zero attempt = elim (fetch_step attempt) [
    | finished result files ↦ fetched_with [] result files
    | wait_and_retry e d ↦ fetched_with [] (err e) f.files
    | retry_at_once e ↦ fetched_with [] (err e) f.files
  ]
  fetch_from (suc left) attempt = elim (fetch_step attempt) [
    | finished result files ↦ fetched_with [] result files
    | retry_at_once e ↦ after_wait [] (fetch_from left (suc attempt))
    | wait_and_retry e d ↦ elim (sleep_ctx attempt d).1 [
      | some e' ↦ fetched_with (sleep_ctx attempt d).0 (err e') f.files
      | none ↦ after_wait (sleep_ctx attempt d).0 (fetch_from left (suc attempt))
    ]
  ]

  -- `Fetch`: the request fails to be made at the first attempt or at none.
  unfoldable pub fetch : Fetched
  unfolding contents_url
  fetch = elim (out.new_request contents_url) [
    | some e ↦ record { requests = 0; waits = []; result = err e; files = f.files }
    | none ↦ fetch_from max_fetch_retries 0
  ]
