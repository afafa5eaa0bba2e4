-- ===== src/Demand/Poller.antt =====
-- The poller of internal/demand/github_poller.go: its construction, and `get` with its cache of parsed
-- values. The client is a function of the request and the attempt; the decoding of JSON is a parameter.
use Prim.Native.String.{◌++◌ as str_append}
use warmrunners.Base.{
  ℕ, String, Bool, true, false, Option, none, some, List, [], ◌∷◌, GoMap, lookup, insert, ℤ, pos,
  ltb_ℤ, Result, ok, err, if◌then◌else◌, ◌==◌, nat_eq, not, ◌*◌,
}
use warmrunners.Clock.{Time, Duration, second}
use warmrunners.Demand.Retry.{Response, Reply, trim_space, do_with_retry}
use warmrunners.Demand.Counting.{Job}

-- What is decoded: `runsResp`, of which the IDs are read, or `jobsResp`.
pub data Parsed : Type 0 where
  runs_resp : List ℤ → Parsed
  jobs_resp : List Job → Parsed

-- The type of a decoded value, that is, of the pointer `out`.
pub data OutType : Type 0 where
  runs_type jobs_type : OutType

abbrev pub type_of : Parsed → OutType
type_of (runs_resp ids) = OutType.runs_type
type_of (jobs_resp jobs) = OutType.jobs_type

abbrev pub same_type : OutType → OutType → Bool
same_type OutType.runs_type OutType.runs_type = true
same_type OutType.runs_type OutType.jobs_type = false
same_type OutType.jobs_type OutType.runs_type = false
same_type OutType.jobs_type OutType.jobs_type = true

-- `cacheEntry`
pub record ParsedEntry : Type 0 where
  pub etag : String
  pub parsed : Parsed

-- `GitHubRESTPoller` without its timer and its clock.
pub record GitHubRestPoller : Type 0 where
  pub base_url : String
  pub token : String
  pub timeout : Duration
  pub base_delay : Duration
  pub cache : GoMap ParsedEntry

-- `Option`
pub data PollerOption : Type 0 where
  with_http_timeout with_base_delay : Duration → PollerOption

unfoldable pub apply_poller_option : PollerOption → GitHubRestPoller → GitHubRestPoller
apply_poller_option (PollerOption.with_http_timeout d) p =
    if ltb_ℤ (pos 0) d then record p { timeout = d } else p
apply_poller_option (PollerOption.with_base_delay d) p =
    if ltb_ℤ (pos 0) d then record p { base_delay = d } else p

unfoldable pub apply_poller_options : List PollerOption → GitHubRestPoller → GitHubRestPoller
unfolding apply_poller_option
apply_poller_options [] p = p
apply_poller_options (o ∷ opts) p = apply_poller_options opts (apply_poller_option o p)

abbrev pub default_http_timeout : Duration
default_http_timeout = pos (10 * second)

abbrev pub default_base_delay : Duration
default_base_delay = pos second

-- The token without the white space around it.
unfoldable pub new_github_rest_poller : String → String → List PollerOption → GitHubRestPoller
unfolding apply_poller_options
new_github_rest_poller base_url token opts = apply_poller_options opts (record {
  base_url = base_url;
  token = trim_space token;
  timeout = default_http_timeout;
  base_delay = default_base_delay;
  cache = [];
})

-- The request of an attempt: its URL and the headers that are set.
pub record PollRequest : Type 0 where
  pub url : String
  pub authorization : Option String
  pub accept : String
  pub user_agent : String
  pub if_none_match : Option String

unfoldable pub cached_etag : GoMap ParsedEntry → String → String
cached_etag cache u = elim (lookup u cache) [ none ↦ "" | some entry ↦ entry.etag ]

-- A header that is set where its value is not empty.
unfoldable pub optional_header : String → String → Option String
optional_header prefix value = if value == "" then none else some (str_append prefix value)

unfoldable pub poll_request : String → GitHubRestPoller → String → PollRequest
unfolding cached_etag optional_header
poll_request version p u = record {
  url = u;
  authorization = optional_header "Bearer " p.token;
  accept = "application/vnd.github+json";
  user_agent = str_append "warmrunners/" version;
  if_none_match = optional_header "" (cached_etag p.cache u);
}

-- A value is cached under the ETag that came with it, if one did.
unfoldable pub remember : String → String → Parsed → GoMap ParsedEntry → GoMap ParsedEntry
remember u etag parsed cache =
    if etag == "" then cache else insert u (record { etag = etag; parsed = parsed }) cache

module _ (decode : OutType → String → Result Parsed) where
  -- A 304 copies what is cached, if it has the type that is wanted.
  unfoldable pub reuse : OutType → Option ParsedEntry → Result Parsed
  reuse out none = err "github api: 304 but nothing cached"
  reuse out (some entry) =
      if same_type (type_of entry.parsed) out
      then ok entry.parsed
      else err "github api: 304 cache type mismatch"

  unfoldable pub take_body :
      OutType → String → String → String → GoMap ParsedEntry → Result Parsed × GoMap ParsedEntry
  unfolding remember
  take_body out u etag body cache = elim (decode out body) [
    | err e ↦ (err e, cache)
    | ok parsed ↦ (ok parsed, remember u etag parsed cache)
  ]

  unfoldable pub take_attempted :
      OutType
      → String
      → Result (Response × String)
      → GoMap ParsedEntry
      → Result Parsed × GoMap ParsedEntry
  unfolding reuse take_body
  take_attempted out u (err e) cache = (err e, cache)
  take_attempted out u (ok (r, body)) cache =
      if nat_eq r.status 304
      then (reuse out (lookup u cache), cache)
      else if not (nat_eq r.status 200)
      then (err "github api: status", cache)
      else take_body out u r.etag body cache

  -- The value, and the poller with its cache.
  module _ (version : String) (client : PollRequest → ℕ → Reply) (now : ℕ → Time)
      (jitter : ℕ → Duration) (cancelled : ℕ → Option String) where
    unfoldable pub attempts : GitHubRestPoller → String → Result (Response × String)
    unfolding poll_request
    attempts p u =
        (do_with_retry p.base_delay (client (poll_request version p u)) now jitter cancelled).result

    unfoldable pub get_parsed :
        OutType → String → GitHubRestPoller → Result Parsed × GitHubRestPoller
    unfolding attempts take_attempted
    get_parsed out u p =
        let (value, cache) = take_attempted out u (attempts p u) p.cache in
        (value, record p { cache = cache })
