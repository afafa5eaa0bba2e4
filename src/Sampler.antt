-- ===== src/Sampler.antt =====
-- internal/activity/workflow_runs_sampler.go. `W` is the state of what it calls: the HTTP client and
-- the fetcher of workflow files.
pub mod Counts
pub mod Hooks
use Prim.Native.String.{◌++◌ as str_append}
use warmrunners.Base.{
  ℕ, zero, suc, ◌+◌, String, Bool, true, false, not, List, [], ◌∷◌, ◌++◌, Option, none, some, GoMap,
  Result, ok, err, ℤ, pos, negsuc, if◌then◌else◌, ◌==◌, nat_eq, leb, length, contains,
}
use warmrunners.Clock.{Time, Duration}
use warmrunners.Labels.{label_set_key}
use warmrunners.Demand.Retry.{trim_space}
use warmrunners.Activity.{bot_reason}
use warmrunners.Workflow.{Actionlint, RunsOnSpec, Job}
use warmrunners.Workflow.Jobs.{parse}
use warmrunners.Predictor.Listing.{concat_texts, trim_slashes, header_of}
use warmrunners.Predictor.Walk.{add_count}

unfoldable pub allowed_events : List String
allowed_events =
    "push" ∷ "pull_request" ∷ "pull_request_target" ∷ "pull_request_review_comment"
    ∷ "workflow_dispatch" ∷ "repository_dispatch" ∷ []

-- `simpleUser` and `workflowRun`
pub record SimpleUser : Type 0 where
  pub login : String
  pub kind : String

pub record WorkflowRun : Type 0 where
  pub id : ℤ
  pub event : String
  pub path : String
  pub head_sha : String
  pub created_at : Time
  pub actor : SimpleUser
  pub triggering_actor : SimpleUser

-- `WorkflowRunsSampler` without its client, its fetcher and its hooks, whose calls are recorded.
pub record WorkflowRunsSampler : Type 0 where
  pub runs_cap : ℕ
  pub user_agent : String
  pub base_url : String

abbrev pub default_runs_cap : ℕ
default_runs_cap = 50

unfoldable pub runs_cap_of : ℤ → ℕ
runs_cap_of (pos zero) = default_runs_cap
runs_cap_of (pos (suc n)) = suc n
runs_cap_of (negsuc n) = default_runs_cap

unfoldable pub new_workflow_runs_sampler : String → ℤ → WorkflowRunsSampler
unfolding runs_cap_of
new_workflow_runs_sampler version runs_cap = record {
  runs_cap = runs_cap_of runs_cap;
  user_agent = str_append "warmrunners/" version;
  base_url = "https://api.github.com";
}

pub data HookCall : Type 0 where
  bot_filtered : String → HookCall
  event_filtered : String → HookCall
  yaml_fetch : String → HookCall
  dynamic_skipped : String → HookCall

pub record ListRequest : Type 0 where
  pub url : String
  pub user_agent : String
  pub authorization : Option String

pub data ListReply : Type 0 where
  failed : String → ListReply
  response : (code : ℕ) (status : String) (body : Result String) → ListReply

-- The code outside this file. `created_since window` is the query for the runs of the window, as the
-- clock, the format RFC 3339 and `url.Values` make it.
pub record Outside (W : Type 0) : Type 0 where
  pub created_since : Duration → String
  pub path_escape : String → String
  pub new_request : String → Option String
  pub http_do : ListRequest → W → ListReply × W
  pub decode_runs : String → Result (List WorkflowRun)
  pub fetch : (owner repo path ref token : String) → W → Result String × W
  pub lint : Actionlint

pub record SampleState (W : Type 0) : Type 0 where
  pub outside : W
  pub calls : List HookCall
  pub totals : GoMap ℤ

-- The arguments of `Sample`.
pub record Asked : Type 0 where
  pub owner : String
  pub repo : String
  pub token : String
  pub window : Duration
  pub denylist : List String

unfoldable pub resolve_labels : RunsOnSpec → List String
resolve_labels r = if r.group == "" then r.labels else str_append "group:" r.group ∷ r.labels

-- One for each combination of the matrix, or one where there is no matrix.
unfoldable pub job_count : Job → ℤ
job_count job = elim job.matrix.combos [ [] ↦ pos 1 | c ∷ combos ↦ pos (length (c ∷ combos)) ]

module _ {W : Type 0} where
  unfoldable pub call_hook : HookCall → SampleState W → SampleState W
  call_hook c s = record s { calls = s.calls ++ c ∷ [] }

  -- The body of the loop over the jobs.
  unfoldable pub sample_job : Job → SampleState W → SampleState W
  unfolding call_hook resolve_labels job_count add_count
  sample_job job s =
      if job.uses_remote
      then call_hook (dynamic_skipped "remote_uses") s
      else if not (job.uses_local == "")
      then call_hook (dynamic_skipped "remote_uses") s
      else if job.runs_on.dynamic
      then call_hook (dynamic_skipped "runs_on_expr") s
      else if job.matrix.dynamic
      then call_hook (dynamic_skipped "matrix_expr") s
      else record s {
        totals = add_count (label_set_key (resolve_labels job.runs_on)) (job_count job) s.totals;
      }

  unfoldable pub sample_jobs : GoMap Job → SampleState W → SampleState W
  sample_jobs [] s = s
  sample_jobs (entry ∷ jobs) s = sample_jobs jobs (sample_job entry.1 s)

module _ {W : Type 0} (out : Outside W) (sampler : WorkflowRunsSampler) (asked : Asked) where
  -- What is done with the result of `Fetch`.
  unfoldable pub take_file : Result String → SampleState W → SampleState W
  take_file (err e) s = call_hook (yaml_fetch "error") s
  take_file (ok body) s = elim (parse out.lint body) [
    | err e ↦ call_hook (yaml_fetch "fetched") s
    | ok wf ↦ sample_jobs wf.jobs (call_hook (yaml_fetch "fetched") s)
  ]

  unfoldable pub contribute_run : WorkflowRun → SampleState W → SampleState W
  contribute_run run s =
      let (result, outside) =
        out.fetch asked.owner asked.repo run.path run.head_sha asked.token s.outside in
      take_file result (record s { outside = outside })

  -- The body of the loop of `Sample`.
  unfoldable pub sample_run : WorkflowRun → SampleState W → SampleState W
  sample_run run s =
      elim (bot_reason run.actor.kind run.triggering_actor.kind run.actor.login asked.denylist) [
        | some reason ↦ call_hook (bot_filtered reason) s
        | none ↦
            if contains allowed_events run.event
            then contribute_run run s
            else call_hook (event_filtered run.event) s
      ]

  -- The loop, from a count of scanned runs on.
  unfoldable pub scan_runs : ℕ → List WorkflowRun → SampleState W → SampleState W
  scan_runs scanned [] s = s
  scan_runs scanned (run ∷ runs) s = elim (leb sampler.runs_cap scanned) [
    | true ↦ s
    | false ↦ scan_runs (scanned + 1) runs (sample_run run s)
  ]

  unfoldable pub runs_list_url : String
  runs_list_url = concat_texts (
      trim_slashes sampler.base_url
      ∷ "/repos/"
      ∷ out.path_escape asked.owner
      ∷ "/"
      ∷ out.path_escape asked.repo
      ∷ "/actions/runs?"
      ∷ out.created_since asked.window
      ∷ [])

  unfoldable pub decode_list : ListReply → Result (List WorkflowRun)
  decode_list (failed e) = err e
  decode_list (response code status body) =
      if nat_eq code 200
      then elim body [
        | err e ↦ err e
        | ok text ↦ elim (out.decode_runs text) [
          | err e ↦ err (str_append "activity sampler: decode runs: " e)
          | ok runs ↦ ok runs
        ]
      ]
      else err (concat_texts ("activity sampler: GET " ∷ runs_list_url ∷ ": " ∷ status ∷ []))

  unfoldable pub fetch_runs_list : SampleState W → Result (List WorkflowRun) × SampleState W
  unfolding header_of
  fetch_runs_list s = elim (out.new_request runs_list_url) [
    | some e ↦ (err e, s)
    | none ↦
        let (reply, outside) =
          out.http_do
            (record {
              url = runs_list_url;
              user_agent = sampler.user_agent;
              authorization = header_of "Bearer " (trim_space asked.token);
            })
            s.outside in
        (decode_list reply, record s { outside = outside })
  ]

  -- The error or the `PerLabelSet` of the sample, and the state.
  unfoldable pub sample : SampleState W → Result (GoMap ℤ) × SampleState W
  sample s =
      let start = record s { totals = [] } in
      elim (fetch_runs_list start).0 [
        | err e ↦ (err e, (fetch_runs_list start).1)
        | ok runs ↦ let done = scan_runs 0 runs (fetch_runs_list start).1 in (ok done.totals, done)
      ]
