-- ===== src/Tests/Fetching.antt =====
-- The theorems on the cache of workflow files and on the sampler.
use warmrunners.Base.{
  ℕ, zero, suc, ◌+◌, ◌≤◌, String, Bool, true, false, List, [], ◌∷◌, Option, none, some, GoMap,
  lookup, Result, ok, err, ◌≡◌, refl, arith, length, take, ℤ, pos, is_some, contains,
}
use warmrunners.Clock.{second}
use warmrunners.Fetcher.{
  CacheEntry, FileCache, WorkflowFetcher, new_workflow_fetcher, with_capacity,
}
use warmrunners.Fetcher.Eviction.{store, touch_and_get}
use warmrunners.Fetcher.Recency.{contents, IsLru}
use warmrunners.Fetcher.Overflow.{stored}
use warmrunners.Fetcher.Refinement.{store-refines}
use warmrunners.Fetcher.Fetch.{
  FileResponse, FileReply, failed, response, FetchOutside, Wanted, fetch,
}
use warmrunners.Fetcher.Fetches.{fetch_forbidden}
use warmrunners.Fetcher.Versions.{IsVersioned, HasVersion, IsCurrent, fetch-IsCurrent}
use warmrunners.Sampler.{
  WorkflowRun, SimpleUser, WorkflowRunsSampler, Outside, SampleState, Asked, ListReply, sample,
  fetch_runs_list,
}
use warmrunners.Sampler.Counts.{runs_demand, sample-counts}
use warmrunners.Predictor.Walk.{count_of}
use warmrunners.Predictor.Additions.{int_bound}
use warmrunners.Base.{◌<◌, subst, sym, ap}
use warmrunners.Tests.Workflows.{ci_tree, always}

abbrev entry : String → CacheEntry
entry body = record { etag = "v1"; body = body }

abbrev two_files : FileCache
two_files = record {
  capacity = 2;
  lru = "b" ∷ "a" ∷ [];
  cache = ("a", entry "A") ∷ ("b", entry "B") ∷ [];
}

two_linked : (k : String) → is_some (lookup k two_files.cache) ≡ contains two_files.lru k
unfolding lookup contains
two_linked k = ground arith

two_files-IsLru : IsLru two_files
unfolding contains
two_files-IsLru = record {
  distinct = (refl, (refl, tt));
  linked = two_linked;
  within = omega arith;
}

store-refines_example :
    (contents (store "c" "v2" "C" two_files)
      ≡ stored 2 "c" (record { etag = "v2"; body = "C" }) (contents two_files))
    × IsLru (store "c" "v2" "C" two_files)
store-refines_example = store-refines two_files "c" "v2" "C" two_files-IsLru

-- The entry that was used last survives.
survivor :
    contents (store "c" "v2" "C" (touch_and_get "a" two_files).1)
    ≡ ("c", record { etag = "v2"; body = "C" }) ∷ ("a", entry "A") ∷ []
unfolding contents store lookup touch_and_get contains warmrunners.Fetcher.Eviction.last_key
    warmrunners.Fetcher.Eviction.without_last warmrunners.Base.delete warmrunners.Base.insert
survivor = refl

abbrev fetcher : WorkflowFetcher
fetcher = record {
  user_agent = "warmrunners/1";
  base_url = "https://api.github.com";
  base_delay = pos second;
  files = record { capacity = 2; lru = []; cache = [] };
}

abbrev wanted : Wanted
wanted = record { owner = "o"; repo = "r"; path = "ci.yml"; ref = "c0ffee"; token = "" }

abbrev answer_of : ℕ → FileResponse
answer_of code = record {
  code = code;
  status = "status";
  etag = "v1";
  retry_after = "";
  body = ok "jobs:";
}

abbrev outside_with : (ℕ → FileReply) → FetchOutside
outside_with replies = record {
  path_escape = λ s. s;
  query_escape = λ s. s;
  new_request = λ url. none;
  reply = λ attempt req. replies attempt;
  jitter = λ attempt. pos 0;
  cancelled = λ attempt. none;
}

abbrev shaky : ℕ → FileReply
shaky zero = failed "connection reset"
shaky (suc n) = response (answer_of 200)

abbrev jobs_text : String → String → String
jobs_text key etag = "jobs:"

shaky-HasVersion :
    (i : ℕ) (r : FileResponse)
    → shaky i ≡ response r
    → HasVersion (outside_with shaky) fetcher wanted jobs_text "v1" r
shaky-HasVersion zero r same = cc
shaky-HasVersion (suc n) r same = record {
  names = λ fine. cc;
  sends = λ body fine read. cc;
  confirms = λ unchanged. absurd (ground arith);
}

none-IsVersioned : IsVersioned jobs_text []
unfolding lookup
none-IsVersioned key e found = cc

fetch-IsCurrent_example :
    IsCurrent
      (outside_with shaky)
      fetcher
      wanted
      jobs_text
      "v1"
      (fetch (outside_with shaky) fetcher wanted).result
      (fetch (outside_with shaky) fetcher wanted).files
fetch-IsCurrent_example =
    fetch-IsCurrent (outside_with shaky) fetcher wanted jobs_text "v1" none-IsVersioned
      shaky-HasVersion

abbrev forbidding : ℕ → FileReply
forbidding n = response (answer_of 403)

fetch_forbidden_example :
    ((fetch (outside_with forbidding) fetcher wanted).requests ≡ 4)
    × ((fetch (outside_with forbidding) fetcher wanted).waits ≡ [])
unfolding warmrunners.Demand.Retry.retry_after_secs
fetch_forbidden_example =
    fetch_forbidden (outside_with forbidding) fetcher wanted refl (λ i. (refl, refl))

abbrev user : String → SimpleUser
user login = record { login = login; kind = "User" }

abbrev run_by : String → String → WorkflowRun
run_by login event = record {
  id = pos 1;
  event = event;
  path = "ci.yml";
  head_sha = "c0ffee";
  created_at = 0;
  actor = user login;
  triggering_actor = user login;
}

abbrev asked : Asked
asked = record { owner = "o"; repo = "r"; token = ""; window = pos second; denylist = [] }

abbrev sampler : WorkflowRunsSampler
sampler = record { runs_cap = 2; user_agent = "warmrunners/1"; base_url = "https://api.github.com" }

abbrev three_runs : List WorkflowRun
three_runs = run_by "ann" "push" ∷ run_by "x[bot]" "push" ∷ run_by "bob" "schedule" ∷ []

abbrev hub : Outside ℕ
hub = record {
  created_since = λ window. "created=x";
  path_escape = λ s. s;
  new_request = λ url. none;
  http_do = λ req w. (ListReply.response 200 "200 OK" (ok "runs"), w);
  decode_runs = λ body. ok three_runs;
  fetch = λ owner repo path ref token w. (ok "jobs:", suc w);
  lint = always ci_tree;
}

abbrev start : SampleState ℕ
start = record { outside = 0; calls = []; totals = [] }

abbrev one_file : String → String → Result String
one_file path ref = ok "jobs:"

five_runners : runs_demand hub asked "linux" one_file (take 2 three_runs) ≡ 5
unfolding runs_demand warmrunners.Activity.on_denylist warmrunners.Activity.bot_reason
    warmrunners.Sampler.Counts.run_demand warmrunners.Sampler.Counts.file_demand
    warmrunners.Sampler.Counts.jobs_demand warmrunners.Sampler.Counts.job_demand
    warmrunners.Sampler.Counts.is_static warmrunners.Sampler.allowed_events
    warmrunners.Workflow.Jobs.parse warmrunners.Workflow.Documents.reject_multi_doc
    warmrunners.Workflow.Documents.count_docs warmrunners.Workflow.Documents.split_lines
    warmrunners.Workflow.Documents.is_separator warmrunners.Workflow.Documents.trim_line
    warmrunners.Workflow.Documents.is_blank warmrunners.Workflow.Documents.flush
    warmrunners.Workflow.Documents.has_content warmrunners.Workflow.Documents.starts_comment
    warmrunners.Workflow.Jobs.map_jobs warmrunners.Base.contains warmrunners.Workflow.Jobs.map_job
    warmrunners.Workflow.Jobs.uses_of warmrunners.Workflow.Jobs.finish_job
    warmrunners.Workflow.Jobs.present warmrunners.Workflow.Jobs.resolve_runs_on
    warmrunners.Workflow.Jobs.matrix_of warmrunners.Workflow.Combos.map_matrix
    warmrunners.Workflow.Combos.literal_combos warmrunners.Workflow.Combos.axes_of
    warmrunners.Workflow.Combos.combos_of warmrunners.Workflow.Combos.excluded
    warmrunners.Workflow.Combos.included warmrunners.Base.insert warmrunners.Base.lookup
    warmrunners.Base.Sort.insort warmrunners.Base.Sort.sort warmrunners.Base.str_lt
    warmrunners.Labels.join_comma warmrunners.Labels.label_set_key warmrunners.Labels.uniq_from
    warmrunners.Workflow.Combos.as_raw warmrunners.Workflow.Combos.assign_all
    warmrunners.Workflow.Combos.axis_less warmrunners.Workflow.Combos.copy_map
    warmrunners.Workflow.Combos.expand_row warmrunners.Workflow.Combos.expand_rows
    warmrunners.Workflow.Combos.with_values warmrunners.Workflow.Jobs.map_labels
    warmrunners.Workflow.Jobs.map_runs_on warmrunners.Workflow.References.resolve_matrix_runs_on
    warmrunners.Workflow.References.single_matrix_ref warmrunners.Workflow.References.contains_any
    warmrunners.Workflow.References.cut_prefix warmrunners.Workflow.References.drop_two
    warmrunners.Workflow.References.has_char warmrunners.Workflow.References.matrix_key
    warmrunners.Demand.Retry.trim_left warmrunners.Demand.Retry.trim_right
    warmrunners.Demand.Retry.trim_space warmrunners.Scheduler.Sscanf.is_space
    warmrunners.Activity.has_suffix warmrunners.Workflow.Runners.labels_of
    warmrunners.Workflow.Runners.runners_of
five_runners = refl

abbrev runs_or : Result (List WorkflowRun) → List WorkflowRun
runs_or (ok runs) = runs
runs_or (err e) = []

listed_runs :
    (runs : List WorkflowRun)
    → (fetch_runs_list hub sampler asked start).0 ≡ ok runs
    → three_runs ≡ runs
unfolding fetch_runs_list warmrunners.Sampler.decode_list
listed_runs runs read = ap runs_or read

few_jobs :
    (runs : List WorkflowRun)
    → (fetch_runs_list hub sampler asked start).0 ≡ ok runs
    → runs_demand hub asked "linux" one_file (take 2 runs) < int_bound
few_jobs runs read =
    subst (λ rs. runs_demand hub asked "linux" one_file (take 2 rs) < int_bound)
      (listed_runs runs read) (subst (λ n. n < int_bound) {x = 5} (sym five_runners) (omega arith))

sample-counts_example :
    ((e : String)
      → (fetch_runs_list hub sampler asked start).0 ≡ err e
      → (sample hub sampler asked start).0 ≡ err e)
    × ((runs : List WorkflowRun)
        → (fetch_runs_list hub sampler asked start).0 ≡ ok runs
        → (totals : GoMap ℤ) × ((sample hub sampler asked start).0 ≡ ok totals)
          × (count_of "linux" totals ≡ pos (runs_demand hub asked "linux" one_file (take 2 runs))))
sample-counts_example =
    sample-counts hub sampler asked "linux" one_file start (λ path ref w. refl) few_jobs
