-- ===== src/Fetcher.antt =====
-- internal/predictor/cache.go: the cache of workflow files. The list holds the keys of the entries,
-- from the most recent, and an entry is found under its key: its `lruElem` is the place of the key.
pub mod Eviction
pub mod Fetch
pub mod Recency
pub mod Overflow
pub mod Refinement
pub mod Fetches
pub mod Versions
use warmrunners.Base.{
  ℕ, zero, suc, String, Bool, true, false, List, [], ◌∷◌, Option, none, some, GoMap, lookup, insert,
  delete, ℤ, pos, negsuc, ltb_ℤ, if◌then◌else◌, ◌==◌, ltb, length, contains,
}
use warmrunners.Clock.{Duration, second}
use Prim.Native.String.{◌++◌ as str_append}

-- What is stored under a key; the key is the map's.
pub record CacheEntry : Type 0 where
  pub etag : String
  pub body : String

-- `cache` and `lru`, with the capacity that bounds them.
pub record FileCache : Type 0 where
  pub capacity : ℕ
  pub lru : List String
  pub cache : GoMap CacheEntry

-- `workflowFetcher` without its client, its timer and its clock.
pub record WorkflowFetcher : Type 0 where
  pub user_agent : String
  pub base_url : String
  pub base_delay : Duration
  pub files : FileCache

-- `Option`: what the exported constructors set, where the value is allowed.
pub data FetchOption : Type 0 where
  with_capacity : ℤ → FetchOption
  with_base_delay : Duration → FetchOption
  with_base_url : String → FetchOption

unfoldable pub capacity_or : ℕ → ℤ → ℕ
capacity_or old (pos zero) = old
capacity_or old (pos (suc n)) = suc n
capacity_or old (negsuc n) = old

unfoldable pub apply_option : FetchOption → WorkflowFetcher → WorkflowFetcher
unfolding capacity_or
apply_option (with_capacity n) f = record f {
  files = record f.files { capacity = capacity_or f.files.capacity n };
}
apply_option (with_base_delay d) f = if ltb_ℤ (pos 0) d then record f { base_delay = d } else f
apply_option (with_base_url u) f = record f { base_url = u }

unfoldable pub apply_options : List FetchOption → WorkflowFetcher → WorkflowFetcher
unfolding apply_option
apply_options [] f = f
apply_options (o ∷ opts) f = apply_options opts (apply_option o f)

abbrev pub fetcher_default_capacity : ℕ
fetcher_default_capacity = 256

abbrev pub fetcher_default_base_delay : Duration
fetcher_default_base_delay = pos second

abbrev pub default_github_api : String
default_github_api = "https://api.github.com"

unfoldable pub new_workflow_fetcher : String → List FetchOption → WorkflowFetcher
unfolding apply_options
new_workflow_fetcher version opts = apply_options opts (record {
  user_agent = str_append "warmrunners/" version;
  base_url = default_github_api;
  base_delay = fetcher_default_base_delay;
  files = record { capacity = fetcher_default_capacity; lru = []; cache = [] };
})
