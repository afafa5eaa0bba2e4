-- ===== src/Tests/Predicting.antt =====
-- The theorems on the predictor, its fetcher and the sampler, at a server that knows one version of
-- everything and a workflow that calls itself.
use warmrunners.Base.{
  ℕ, suc, ◌+◌, String, [], ◌∷◌, none, some, lookup, ok, error_of, ◌≡◌, refl, arith, pos, All,
}
use warmrunners.Workflow.{JobNode, WorkflowNode, Workflow, Runner, Actionlint}
use warmrunners.Workflow.Jobs.{parse, map_jobs}
use warmrunners.Predictor
use warmrunners.Predictor.{RunRef, Outside, PredictState, Call}
use warmrunners.Predictor.Listing.{cached_get, list_active_runs, list_jobs, active_statuses}
use warmrunners.Predictor.Walk.{fetch_yaml, count_of}
use warmrunners.Predictor.Additions.{int_bound}
use warmrunners.Base.{◌<◌}
use warmrunners.Predictor.Predict.{contribute_run}
use warmrunners.Predictor.Coherence.{reply_for, IsConditional, IsCoherent, cached_get-current}
use warmrunners.Predictor.Runs.{IsScanned, listed_runs, list_active_runs-IsScanned}
use warmrunners.Predictor.Outcomes.{predict-outcome}
use warmrunners.Predictor.Keeping.{IsReported}
use warmrunners.Predictor.Reports.{predict-IsReported}
use warmrunners.Predictor.Totals.{HasNoCalls, demand_for, contribute_run-total}
use warmrunners.Tests.Workflows.{ci_tree, always}

abbrev calls_itself : JobNode
calls_itself = record {
  needs = [];
  runs_on = none;
  strategy = none;
  workflow_call = some (record { uses = some "./.github/workflows/ci.yml" });
}

abbrev loop_tree : WorkflowNode
loop_tree = record { jobs = ("again", calls_itself) ∷ [] }

abbrev run_of : ℕ → RunRef
run_of n = record { id = pos n; path = ".github/workflows/ci.yml"; head_sha = "c0ffee" }

-- A server with one version of each listing, a fetcher with one file, and a parser with one tree.
abbrev text_at : String → String → String
text_at url etag = url

abbrev etag_at : ℕ → String → String
etag_at w url = "v1"

abbrev world : WorkflowNode → Outside ℕ
world tree = record {
  new_request = λ url. none;
  http_do = λ req w. (reply_for text_at req "v1", w);
  path_escape = λ s. s;
  decode_runs = λ body. ok (run_of 7 ∷ run_of 8 ∷ run_of 7 ∷ run_of 9 ∷ []);
  decode_jobs = λ body. ok ("build" ∷ []);
  fetch = λ owner repo path ref token w. (ok "jobs:", suc w);
  lint = always tree;
}

abbrev call : Call
call = record {
  owner = "o";
  repo = "r";
  token = "t\n";
  base_url = "https://api.github.com/";
  runs_cap = 3;
}

abbrev fresh : PredictState ℕ
fresh = record { outside = 0; list_cache = []; events = []; totals = [] }

world-IsConditional : IsConditional (world ci_tree) etag_at text_at
world-IsConditional = record { makes = λ url. refl; answers = λ req w. refl }

empty-IsCoherent : IsCoherent text_at []
unfolding lookup
empty-IsCoherent url e found = cc

cached_get-current_example :
    ((cached_get (world ci_tree) call "u" fresh).0 ≡ ok (text_at "u" "v1"))
    × IsCoherent text_at (cached_get (world ci_tree) call "u" fresh).1.list_cache
cached_get-current_example =
    cached_get-current (world ci_tree) call etag_at text_at "u" fresh world-IsConditional
      empty-IsCoherent

scanned : (list_active_runs (world ci_tree) call fresh).0 ≡ ok (run_of 7 ∷ run_of 8 ∷ run_of 9 ∷ [])
unfolding list_active_runs warmrunners.Predictor.Listing.list_from
    warmrunners.Predictor.Listing.get_runs cached_get reply_for lookup
    warmrunners.Predictor.Listing.union_runs
scanned = refl

list_active_runs-IsScanned_example :
    IsScanned
      (world ci_tree)
      call
      (run_of 7 ∷ run_of 8 ∷ run_of 9 ∷ [])
      (listed_runs (world ci_tree) call active_statuses fresh)
list_active_runs-IsScanned_example =
    list_active_runs-IsScanned (world ci_tree) call fresh (run_of 7 ∷ run_of 8 ∷ run_of 9 ∷ [])
      (omega arith) scanned

abbrev outcome : PredictState ℕ
outcome = (predict-outcome (world loop_tree) call 11 fresh (omega arith)).0

predict-IsReported_example : All IsReported outcome.events
predict-IsReported_example =
    predict-IsReported (world loop_tree) call 11 fresh outcome
      (error_of (list_active_runs (world loop_tree) call fresh).0) tt
      (predict-outcome (world loop_tree) call 11 fresh (omega arith)).1

abbrev ci : Workflow
ci = record { jobs = map_jobs (always ci_tree) ci_tree.jobs }

listed : (list_jobs (world ci_tree) call (pos 7) fresh).0 ≡ ok ("build" ∷ [])
unfolding list_jobs cached_get reply_for lookup
listed = refl

fetched :
    (fetch_yaml
      (world ci_tree)
      call
      "c0ffee"
      ".github/workflows/ci.yml"
      (list_jobs (world ci_tree) call (pos 7) fresh).1).0
    ≡ ok "jobs:"
unfolding fetch_yaml
fetched = refl

parsed : parse (always ci_tree) "jobs:" ≡ ok ci
unfolding parse warmrunners.Workflow.Documents.reject_multi_doc
    warmrunners.Workflow.Documents.count_docs warmrunners.Workflow.Documents.split_lines
    warmrunners.Workflow.Documents.is_separator warmrunners.Workflow.Documents.trim_line
    warmrunners.Workflow.Documents.is_blank warmrunners.Workflow.Documents.flush
    warmrunners.Workflow.Documents.has_content warmrunners.Demand.Retry.trim_space
    warmrunners.Demand.Retry.trim_right warmrunners.Demand.Retry.trim_left
    warmrunners.Scheduler.Sscanf.is_space warmrunners.Workflow.Documents.starts_comment
parsed = refl

no_calls : HasNoCalls ci.jobs
unfolding map_jobs warmrunners.Workflow.Jobs.map_job warmrunners.Workflow.Jobs.uses_of
    warmrunners.Workflow.Jobs.finish_job
no_calls = (refl, (refl, tt))

no_count : count_of "linux" fresh.totals ≡ pos 0
unfolding count_of lookup
no_count = refl

four_runners : demand_for "linux" ("build" ∷ []) ci.jobs ≡ 4
unfolding demand_for warmrunners.Predictor.Totals.job_demand
    warmrunners.Predictor.Totals.is_predicted warmrunners.Workflow.Jobs.map_jobs
    warmrunners.Base.contains warmrunners.Workflow.Jobs.map_job warmrunners.Workflow.Jobs.uses_of
    warmrunners.Workflow.Jobs.finish_job warmrunners.Workflow.Jobs.present
    warmrunners.Workflow.Jobs.resolve_runs_on warmrunners.Workflow.Jobs.matrix_of
    warmrunners.Workflow.Combos.map_matrix warmrunners.Workflow.Combos.literal_combos
    warmrunners.Workflow.Combos.axes_of warmrunners.Workflow.Combos.combos_of
    warmrunners.Workflow.Combos.excluded warmrunners.Workflow.Combos.included
    warmrunners.Base.insert warmrunners.Base.lookup warmrunners.Base.Sort.insort
    warmrunners.Base.Sort.sort warmrunners.Base.str_lt warmrunners.Labels.join_comma
    warmrunners.Labels.label_set_key warmrunners.Labels.uniq_from warmrunners.Workflow.Combos.as_raw
    warmrunners.Workflow.Combos.assign_all warmrunners.Workflow.Combos.axis_less
    warmrunners.Workflow.Combos.copy_map warmrunners.Workflow.Combos.expand_row
    warmrunners.Workflow.Combos.expand_rows warmrunners.Workflow.Combos.with_values
    warmrunners.Workflow.Jobs.map_labels warmrunners.Workflow.Jobs.map_runs_on
    warmrunners.Workflow.References.resolve_matrix_runs_on
    warmrunners.Workflow.References.single_matrix_ref warmrunners.Workflow.References.contains_any
    warmrunners.Workflow.References.cut_prefix warmrunners.Workflow.References.drop_two
    warmrunners.Workflow.References.has_char warmrunners.Workflow.References.matrix_key
    warmrunners.Demand.Retry.trim_left warmrunners.Demand.Retry.trim_right
    warmrunners.Demand.Retry.trim_space warmrunners.Scheduler.Sscanf.is_space
    warmrunners.Activity.has_suffix warmrunners.Workflow.Runners.labels_of
    warmrunners.Workflow.Runners.runners_of
four_runners = refl

few : 0 + demand_for "linux" ("build" ∷ []) ci.jobs < int_bound
few = rw four_runners (omega arith)

contribute_run-total_example :
    (t : PredictState ℕ) × (contribute_run (world ci_tree) call 1 (run_of 7) fresh ≡ some t)
    × (count_of "linux" t.totals ≡ pos (0 + demand_for "linux" ("build" ∷ []) ci.jobs))
contribute_run-total_example =
    contribute_run-total (world ci_tree) call 0 (run_of 7) fresh ("build" ∷ []) "jobs:" ci "linux" 0
      listed fetched parsed no_calls no_count few
