-- ===== src/Tests/Polling.antt =====
-- The theorems on the poller: its retries, its counts and its conditional requests.
use warmrunners.Base.{
  List, ◌∷◌, ◌+◌, ◌-◌, ap, some, ℤ, ◌==◌, if◌then◌else◌, ℕ, zero, suc, ◌≡◌, inl, refl, String,
  Result, ◌>>=◌, lookup, Bool-cases, inr, ap, subst, Option, none, [], ◌≤◌, ◌<◌, arith, pos, ok,
  err, length,
}
use warmrunners.Clock.{Time, Duration, second}
use warmrunners.Demand.Retry.{
  Response, Reply, failed, response, do_with_retry, max_backoff, backoff_delay, rate_limit_delay,
}
use warmrunners.Demand.Attempts.{IsTransient, do_with_retry-recovers, do_with_retry_forbidden}
use warmrunners.Demand.Counting.{Job, Server, current_demand}
use warmrunners.Demand.Poller.{
  Parsed, OutType, type_of, ParsedEntry, GitHubRestPoller, PollRequest, poll_request, attempts,
  get_parsed,
}
use warmrunners.Demand.Conditional.{IsConforming, IsParsed, get_parsed-current}
use warmrunners.Demand.Paging.{page_of}
use warmrunners.Demand.Totals.{
  Holds, matching, matching_runs, all_matching, current_demand-matching,
}
use warmrunners.Tests.Fixtures.{noon}

abbrev response_of : ℕ → Response
response_of status = record {
  status = status;
  retry_after = "";
  remaining = "";
  reset = "";
  etag = "";
  body = ok "{}";
}

-- A network error, an error of the server, and then success.
abbrev shaky : ℕ → Reply
shaky zero = failed "connection reset"
shaky (suc zero) = response (response_of 502)
shaky (suc (suc n)) = response (response_of 200)

abbrev at_noon : ℕ → Time
at_noon attempt = noon

abbrev no_jitter : ℕ → Duration
no_jitter attempt = pos 0

abbrev running : ℕ → Option String
running attempt = none

fails_twice : (i : ℕ) → i < 2 → IsTransient (shaky i)
fails_twice zero h = tt
fails_twice (suc zero) h = ground arith
fails_twice (suc (suc i)) h = absurd (omega (arith, h))

do_with_retry-recovers_example :
    let call = do_with_retry (pos second) shaky at_noon no_jitter running in
    (call.result ≡ ok (response_of 200, "{}")) × (call.requests ≡ 3)
do_with_retry-recovers_example =
    do_with_retry-recovers (pos second) shaky at_noon no_jitter running 2 (response_of 200) "{}"
      (omega arith) fails_twice (λ i. refl) refl (inl refl) refl

shaky_result :
    (do_with_retry (pos second) shaky at_noon no_jitter running).result ≡ ok (response_of 200, "{}")
shaky_result =
    (do_with_retry-recovers (pos second) shaky at_noon no_jitter running 2 (response_of 200) "{}"
      (omega arith) fails_twice (λ i. refl) refl (inl refl) refl).0

silent : (i : ℕ) → rate_limit_delay (response_of 403) (at_noon i) ≡ none
unfolding rate_limit_delay warmrunners.Demand.Retry.retry_after_secs
    warmrunners.Demand.Retry.reset_wait
silent i = refl

do_with_retry_forbidden_example :
    let call =
      do_with_retry (pos second) (λ i. response (response_of 403)) at_noon no_jitter running in
    (call.requests ≡ 4) × (call.waits ≡ []) × (call.result ≡ err "github api: status")
do_with_retry_forbidden_example =
    do_with_retry_forbidden (pos second) (λ i. response (response_of 403)) at_noon no_jitter running
      (response_of 403) (λ i. refl) refl silent

-- One queued run with three jobs, and no run in progress.
abbrev runs : String → List ℤ
runs status = if status == "queued" then pos 17 ∷ [] else []

abbrev jobs_of_run : ℤ → List Job
jobs_of_run id =
    record { status = "queued"; labels = "linux" ∷ [] }
    ∷ record { status = "in_progress"; labels = "linux" ∷ "x64" ∷ [] }
    ∷ record { status = "queued"; labels = "windows" ∷ [] }
    ∷ []

abbrev server : Server
server = record {
  runs = λ status page. ok (page_of (page - 1) (runs status));
  jobs = λ id page. ok (page_of (page - 1) (jobs_of_run id));
}

-- A page's index is its number less one.
page_index : (i : ℕ) → 1 + i - 1 ≡ i
page_index i = omega arith

server-Holds : Holds server runs jobs_of_run
server-Holds = record {
  runs_paged = λ status i. ap (λ n. ok (page_of n (runs status))) (page_index i);
  jobs_paged = λ id i. ap (λ n. ok (page_of n (jobs_of_run id))) (page_index i);
}

matching-le-length :
    (status : String) (jobs : List Job) → matching ("linux" ∷ []) status jobs ≤ length jobs
unfolding matching
matching-le-length status [] = omega arith
matching-le-length status (j ∷ jobs) = ground (arith, matching-le-length status jobs)

few_jobs :
    (status : String)
    → matching_runs ("linux" ∷ []) jobs_of_run status (runs "queued")
        + matching_runs ("linux" ∷ []) jobs_of_run status (runs "in_progress")
      < 2147483648
unfolding matching_runs
few_jobs status = ground (arith, matching-le-length status (jobs_of_run (pos 17)))

current_demand-matching_example :
    current_demand 1 server ("linux" ∷ [])
    ≡ some (
        ok (record {
          queued = pos (all_matching ("linux" ∷ []) jobs_of_run runs "queued");
          running = pos (all_matching ("linux" ∷ []) jobs_of_run runs "in_progress");
        }))
current_demand-matching_example =
    current_demand-matching ("linux" ∷ []) jobs_of_run server runs server-Holds 1 (omega arith)
      (omega arith) (omega arith, tt) tt (few_jobs "queued") (few_jobs "in_progress")

-- A server with one version of the runs, which a request that names it confirms.
abbrev poll_url : String
poll_url = "https://api.github.com/repos/o/r/actions/runs"

abbrev decode_run : OutType → String → Result Parsed
decode_run OutType.runs_type body = ok (Parsed.runs_resp (pos 7 ∷ []))
decode_run OutType.jobs_type body = ok (Parsed.jobs_resp [])

abbrev version_text : String → String → String
version_text u etag = "{}"

abbrev read_as_runs : String → OutType
read_as_runs u = OutType.runs_type

abbrev cached_poller : GitHubRestPoller
cached_poller = record {
  base_url = "https://api.github.com";
  token = "";
  timeout = pos second;
  base_delay = pos second;
  cache = (poll_url, record { etag = "v1"; parsed = Parsed.runs_resp (pos 7 ∷ []) }) ∷ [];
}

abbrev unchanged : PollRequest → ℕ → Reply
unchanged req attempt = response (record (response_of 304) { etag = "v1" })

decode_run-typed :
    (out : OutType) (b : String) (v : Parsed) → decode_run out b ≡ ok v → type_of v ≡ out
decode_run-typed OutType.runs_type b v h = ground (arith, h)
decode_run-typed OutType.jobs_type b v h = ground (arith, h)

abbrev parsed_or : Option ParsedEntry → Parsed
parsed_or none = Parsed.runs_resp []
parsed_or (some e) = e.parsed

cached_poller-IsParsed : IsParsed decode_run version_text read_as_runs cached_poller.cache
unfolding lookup
cached_poller-IsParsed u e found = elim (Bool-cases (poll_url == u)) [
  | inr other ↦ absurd (ground (arith, other, found))
  | inl same ↦
      let stored : some (record { etag = "v1"; parsed = Parsed.runs_resp (pos 7 ∷ []) }) ≡ some e =
        ground (arith, same, found) in
      subst
        (λ o.
          (ok (Parsed.runs_resp (pos 7 ∷ [])) ≡ ok (parsed_or o))
          × (type_of (parsed_or o) ≡ OutType.runs_type))
        stored (refl, refl)
]

names_v1 : (poll_request "v0" cached_poller poll_url).if_none_match ≡ some "v1"
unfolding poll_request lookup
names_v1 = refl

unchanged-IsConforming :
    (i : ℕ) (r : Response)
    → unchanged (poll_request "v0" cached_poller poll_url) i ≡ response r
    → IsConforming version_text "v1" (poll_request "v0" cached_poller poll_url) r
unchanged-IsConforming i r arrived = record {
  sent = λ fine body read. absurd (ground (arith, arrived, fine));
  confirmed = λ same. names_v1;
}

get_parsed-current_example :
    let got =
      get_parsed decode_run "v0" unchanged at_noon no_jitter running OutType.runs_type poll_url
        cached_poller in
    (got.0 ≡ (
      attempts decode_run "v0" unchanged at_noon no_jitter running cached_poller poll_url
      >>= (λ _. decode_run OutType.runs_type (version_text poll_url "v1"))))
    × IsParsed decode_run version_text read_as_runs got.1.cache
get_parsed-current_example =
    get_parsed-current decode_run version_text read_as_runs "v0" unchanged at_noon no_jitter running
      poll_url "v1" cached_poller decode_run-typed unchanged-IsConforming cached_poller-IsParsed
