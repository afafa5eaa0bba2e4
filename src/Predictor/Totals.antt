-- ===== src/Predictor/Totals.antt =====
-- The counts of one workflow against a sum over its jobs.
use warmrunners.Base.{
  ℕ, ◌+◌, String, Bool, true, not, ◌&&◌, List, [], ◌∷◌, Option, some, GoMap, ◌≡◌, refl, arith, All,
  ◌==◌, eq_iff, if◌then◌else◌, Bool-cases, inl, inr, contains, ◌∙◌, suc, ℤ, ap, Option-cases, ok,
  err, ◌<◌, pos, false,
}
use warmrunners.Labels.{label_set_key}
use warmrunners.Workflow.{Job, Workflow}
use warmrunners.Workflow.Flags.{IsFlagged, AllFlagged, parse-AllFlagged}
use warmrunners.Predictor.{RunRef, Outside, PredictState, Call, dynamic_skipped}
use warmrunners.Workflow.Jobs.{parse}
use warmrunners.Predictor.Listing.{cached_get, list_jobs}
use warmrunners.Predictor.Predict.{contribute_run}
use warmrunners.Predictor.Walk.{
  fetch_yaml, load_and_walk, walk_workflow, recurse_local, all_materialized, emit, contribute,
  walk_own, walk_jobs, walk_job, count_of, expansions,
}
use warmrunners.Predictor.Steps.{load_and_walk-parsed}
use warmrunners.Workflow.Runners.{runners_of, labels_of}
use warmrunners.Predictor.Additions.{
  int_bound, count_of-added, count_of-other, expansions-runners_of, resolve_labels-labels_of,
}

-- Every job that is needed is there.
abbrev pub every_need : List String → List String → Bool
every_need [] materialized = true
every_need (n ∷ needs) materialized = contains materialized n && every_need needs materialized

-- A job that will run next, on labels that are known, and is no call of another workflow.
unfoldable pub is_predicted : List String → Job → Bool
is_predicted materialized job =
    not (contains materialized job.id)
    && every_need job.needs materialized
    && not job.uses_remote
    && job.uses_local == ""
    && not job.dynamic

-- How many runners a job, and the jobs of a workflow, will ask for under a key.
unfoldable pub job_demand : String → List String → Job → ℕ
job_demand key materialized job =
    if is_predicted materialized job && label_set_key (labels_of job.runs_on) == key
    then runners_of job.matrix.combos
    else 0

unfoldable pub demand_for : String → List String → GoMap Job → ℕ
demand_for key materialized [] = 0
demand_for key materialized ((id, job) ∷ jobs) =
    job_demand key materialized job + demand_for key materialized jobs

all_materialized-every_need :
    (needs materialized : List String)
    → all_materialized needs materialized ≡ every_need needs materialized
unfolding all_materialized
all_materialized-every_need [] materialized = refl
all_materialized-every_need (n ∷ needs) materialized =
    ground (arith, all_materialized-every_need needs materialized)

-- No job of the workflow calls a local workflow.
abbrev pub HasNoCalls : GoMap Job → Type 0
HasNoCalls = All (λ e. (e.1.uses_local == "") ≡ true)

module _ {W : Type 0} (materialized : List String) (key : String) (job : Job) (s : PredictState W)
    (n : ℕ) (counted : count_of key s.totals ≡ pos n)
    (small : n + job_demand key materialized job < int_bound) where
  -- The job counts for nothing, and nothing was added.
  not_predicted :
      is_predicted materialized job ≡ false
      → count_of key s.totals ≡ pos (n + job_demand key materialized job)
  unfolding job_demand
  not_predicted idle = counted ∙ ground (arith, idle)

  contribute-total :
      is_predicted materialized job ≡ true
      → count_of key (contribute job s).totals ≡ pos (n + job_demand key materialized job)
  unfolding contribute job_demand
  contribute-total next =
      let labels = resolve_labels-labels_of job.runs_on in
      elim (Bool-cases (label_set_key (labels_of job.runs_on) == key)) [
        | inr other ↦
            rw (labels, next, other)
              (count_of-other (label_set_key (labels_of job.runs_on)) key (expansions job) s.totals
                  other
                ∙ counted
                ∙ ground arith)
        | inl same ↦
            let k = runners_of job.matrix.combos in
            let enough : n + k < int_bound = ground (arith, small, next, same) in
            rw
              (
                labels,
                next,
                same,
                (eq_iff (label_set_key (labels_of job.runs_on)) key).0 same,
                expansions-runners_of job,
              )
              (count_of-added key n k s.totals counted enough)
      ]

module _ {W : Type 0} (recurse : String → PredictState W → Option (PredictState W))
    (materialized : List String) (key : String) where
  walk_job-total :
      (job : Job) (s : PredictState W) (n : ℕ)
      → IsFlagged job
      → (job.uses_local == "") ≡ true
      → count_of key s.totals ≡ pos n
      → n + job_demand key materialized job < int_bound
      → (t : PredictState W) × (walk_job recurse materialized job s ≡ some t)
        × (count_of key t.totals ≡ pos (n + job_demand key materialized job))
  unfolding walk_job walk_own is_predicted emit
  walk_job-total job s n flagged none_called counted small =
      let needs = all_materialized-every_need job.needs materialized in
      elim (Bool-cases (contains materialized job.id)) [
        | inl there ↦ (
          s,
          ground (arith, there),
          not_predicted materialized key job s n counted small (ground (arith, there)),
        )
        | inr absent ↦ elim (Bool-cases (all_materialized job.needs materialized)) [
          | inr blocked ↦ (
            s,
            ground (arith, absent, blocked),
            not_predicted materialized key job s n counted small (ground (arith, blocked, needs)),
          )
          | inl met ↦ elim (Bool-cases job.uses_remote) [
            | inl far ↦ (
              emit (dynamic_skipped "remote_uses") s,
              ground (arith, absent, met, far),
              not_predicted materialized key job s n counted small (ground (arith, far)),
            )
            | inr near ↦ elim (Bool-cases job.runs_on.dynamic) [
              | inl dynamic ↦ (
                emit (dynamic_skipped "runs_on_expr") s,
                ground (arith, absent, met, near, dynamic, none_called),
                not_predicted materialized key job s n counted small
                    (ground (arith, dynamic, flagged.labels_unknown)),
              )
              | inr literal ↦ (
                contribute job s,
                ground (
                  arith, absent, met, near, literal, none_called, flagged.labels_unknown,
                  flagged.matrix_counts,
                ),
                contribute-total materialized key job s n counted small (
                    ground (
                      arith, absent, met, needs, near, literal, none_called, flagged.labels_unknown,
                    )),
              )
            ]
          ]
        ]
      ]

  walk_jobs-total :
      (jobs : GoMap Job) (s : PredictState W) (n : ℕ)
      → AllFlagged jobs
      → HasNoCalls jobs
      → count_of key s.totals ≡ pos n
      → n + demand_for key materialized jobs < int_bound
      → (t : PredictState W) × (walk_jobs recurse materialized jobs s ≡ some t)
        × (count_of key t.totals ≡ pos (n + demand_for key materialized jobs))
  unfolding walk_jobs demand_for
  walk_jobs-total [] s n flagged no_calls counted small = (s, refl, counted ∙ ap pos (omega arith))
  walk_jobs-total ((id, job) ∷ jobs) s n flagged no_calls counted small =
      let here = job_demand key materialized job in
      let (u, first, one) =
        walk_job-total job s n flagged.0 no_calls.0 counted (omega (arith, small)) in
      let (t, rest, total) =
        walk_jobs-total jobs u (n + here) flagged.1 no_calls.1 one (omega (arith, small)) in
      (t, rw (first, walk_jobs) rest, total ∙ ap pos (omega arith))

module _ {W : Type 0} (out : Outside W) (call : Call) where
  pub cached_get-totals :
      (url : String) (s : PredictState W) → (cached_get out call url s).1.totals ≡ s.totals
  unfolding cached_get
  cached_get-totals url s = elim (Option-cases (out.new_request url)) [
    | inr (e, bad) ↦ rw (bad, cached_get) refl
    | inl made ↦ rw (made, cached_get) refl
  ]

  pub list_jobs-totals :
      (id : ℤ) (s : PredictState W) → (list_jobs out call id s).1.totals ≡ s.totals
  unfolding list_jobs
  list_jobs-totals id s = cached_get-totals _ s

  fetch_yaml-totals :
      (head_sha path : String) (s : PredictState W)
      → (fetch_yaml out call head_sha path s).1.totals ≡ s.totals
  unfolding fetch_yaml emit
  fetch_yaml-totals head_sha path s = refl

  -- A run whose jobs are listed and whose file is fetched and parsed, where no job of the file calls
  -- a local workflow, adds under every key the sum over its jobs that run next on known labels: one
  -- for each combination of the matrix, or one; provided that the count before is not negative, and that
  -- with this sum it stays below 2^63. Any positive fuel is enough for it.
  pub contribute_run-total :
      (fuel : ℕ) (run : RunRef) (s : PredictState W) (materialized : List String) (body : String)
      (wf : Workflow) (key : String) (n : ℕ)
      → (list_jobs out call run.id s).0 ≡ ok materialized
      → (fetch_yaml out call run.head_sha run.path (list_jobs out call run.id s).1).0 ≡ ok body
      → parse out.lint body ≡ ok wf
      → HasNoCalls wf.jobs
      → count_of key s.totals ≡ pos n
      → n + demand_for key materialized wf.jobs < int_bound
      → (t : PredictState W) × (contribute_run out call (suc fuel) run s ≡ some t)
        × (count_of key t.totals ≡ pos (n + demand_for key materialized wf.jobs))
  unfolding contribute_run walk_workflow
  contribute_run-total fuel run s materialized body wf key n listed fetched parsed no_calls counted
        small =
      let s' = (list_jobs out call run.id s).1 in
      let loaded = (fetch_yaml out call run.head_sha run.path s').1 in
      let (t, walked, total) =
        walk_jobs-total
          (recurse_local out call run.head_sha
            (walk_workflow out call run.head_sha fuel (0 + 1) materialized) 0 [])
          materialized key wf.jobs loaded n (parse-AllFlagged out.lint body wf parsed) no_calls
          (ap (λ (m : GoMap ℤ). count_of key m)
              (fetch_yaml-totals run.head_sha run.path s' ∙ list_jobs-totals run.id s)
            ∙ counted)
          small in
      (
        t,
        (λ i. elim (listed i) [
          | err e ↦ some s'
          | ok names ↦
              load_and_walk out call run.head_sha
                (walk_workflow out call run.head_sha (suc fuel) 0 names []) run.path s'
        ])
            ∙ load_and_walk-parsed out call run.head_sha
                (walk_workflow out call run.head_sha (suc fuel) 0 materialized []) run.path s' body
                wf fetched parsed
            ∙ walked,
        total,
      )
