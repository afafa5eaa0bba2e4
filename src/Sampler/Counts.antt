-- ===== src/Sampler/Counts.antt =====
-- The counts of a sample against a sum over the first runs.
use warmrunners.Base.{
  ℕ, zero, suc, ◌+◌, ◌-◌, String, Bool, not, ◌&&◌, List, [], ◌∷◌, GoMap, lookup, Result, ok, err,
  if◌then◌else◌, ◌==◌, leb, take, contains, is_some, ◌≡◌, refl, ap, ◌∙◌, inl, inr, arith,
  Bool-cases, Option-cases, Result-cases, eq_iff, ℤ, pos, true, false, ◌<◌, subst,
}
use warmrunners.Labels.{label_set_key}
use warmrunners.Activity.{bot_reason}
use warmrunners.Workflow.{Job, Workflow}
use warmrunners.Workflow.Jobs.{parse}
use warmrunners.Predictor.Walk.{count_of, add_count}
use warmrunners.Workflow.Runners.{runners_of, labels_of}
use warmrunners.Predictor.Additions.{
  int_bound, count_of-added, count_of-other, job_count-runners_of, sampler_labels-labels_of,
}
use warmrunners.Sampler.{
  WorkflowRun, WorkflowRunsSampler, Outside, SampleState, Asked, allowed_events, resolve_labels,
  job_count, call_hook, yaml_fetch, sample_job, sample_jobs, take_file, contribute_run, sample_run,
  scan_runs, fetch_runs_list, sample, runs_list_url,
}

-- A job that runs on known labels and is no call.
unfoldable pub is_static : Job → Bool
is_static job =
    not job.uses_remote && job.uses_local == "" && not job.runs_on.dynamic && not job.matrix.dynamic

unfoldable pub job_demand : String → Job → ℕ
job_demand key job =
    if is_static job && label_set_key (labels_of job.runs_on) == key
    then runners_of job.matrix.combos
    else 0

unfoldable pub jobs_demand : String → GoMap Job → ℕ
jobs_demand key [] = 0
jobs_demand key ((id, job) ∷ jobs) = job_demand key job + jobs_demand key jobs

-- What a run asks for under a key, where `file` is what the fetcher has for it.
module _ {W : Type 0} (out : Outside W) (asked : Asked) (key : String) where
  unfoldable pub file_demand : Result String → ℕ
  file_demand (err e) = 0
  file_demand (ok body) = elim (parse out.lint body) [ err e ↦ 0 | ok wf ↦ jobs_demand key wf.jobs ]

  -- Only runs of people, for an event that counts.
  unfoldable pub run_demand : (String → String → Result String) → WorkflowRun → ℕ
  unfolding file_demand
  run_demand file run =
      if is_some
        (bot_reason run.actor.kind run.triggering_actor.kind run.actor.login asked.denylist)
      then 0
      else if contains allowed_events run.event
      then file_demand (file run.path run.head_sha)
      else 0

  unfoldable pub runs_demand : (String → String → Result String) → List WorkflowRun → ℕ
  runs_demand file [] = 0
  runs_demand file (run ∷ runs) = run_demand file run + runs_demand file runs

-- The count under a key, as a natural number.
abbrev Counts : {W : Type 0} → String → SampleState W → ℕ → Type 0
Counts key s n = count_of key s.totals ≡ pos n

module _ {W : Type 0} (key : String) where
  static-Counts :
      (job : Job) (s : SampleState W) (n : ℕ)
      → Counts key s n
      → n + job_demand key job < int_bound
      → is_static job ≡ true
      → count_of key
          (add_count (label_set_key (resolve_labels job.runs_on)) (job_count job) s.totals)
        ≡ pos (n + job_demand key job)
  unfolding job_demand
  static-Counts job s n counted small static =
      let labels = sampler_labels-labels_of job.runs_on in
      elim (Bool-cases (label_set_key (labels_of job.runs_on) == key)) [
        | inr other ↦
            rw (labels, static, other)
              (count_of-other (label_set_key (labels_of job.runs_on)) key (job_count job) s.totals
                  other
                ∙ counted
                ∙ ground arith)
        | inl same ↦
            let k = runners_of job.matrix.combos in
            let enough : n + k < int_bound = ground (arith, small, static, same) in
            rw
              (
                labels,
                static,
                same,
                (eq_iff (label_set_key (labels_of job.runs_on)) key).0 same,
                job_count-runners_of job,
              )
              (count_of-added key n k s.totals counted enough)
      ]

  sample_job-static :
      (job : Job) (s : SampleState W)
      → is_static job ≡ true
      → (sample_job job s).totals
        ≡ add_count (label_set_key (resolve_labels job.runs_on)) (job_count job) s.totals
  unfolding sample_job is_static
  sample_job-static job s static = ground (arith, static)

  sample_job-other :
      (job : Job) (s : SampleState W) → is_static job ≡ false → (sample_job job s).totals ≡ s.totals
  unfolding sample_job is_static call_hook
  sample_job-other job s other = ground (arith, other)

  sample_job-count :
      (job : Job) (s : SampleState W) (n : ℕ)
      → Counts key s n
      → n + job_demand key job < int_bound
      → Counts key (sample_job job s) (n + job_demand key job)
  unfolding job_demand
  sample_job-count job s n counted small = elim (Bool-cases (is_static job)) [
    | inl static ↦
        ap (count_of key) (sample_job-static job s static)
        ∙ static-Counts job s n counted small static
    | inr other ↦ ap (count_of key) (sample_job-other job s other) ∙ counted ∙ ground (arith, other)
  ]

  sample_jobs-count :
      (jobs : GoMap Job) (s : SampleState W) (n : ℕ)
      → Counts key s n
      → n + jobs_demand key jobs < int_bound
      → Counts key (sample_jobs jobs s) (n + jobs_demand key jobs)
  unfolding sample_jobs jobs_demand
  sample_jobs-count [] s n counted small = counted ∙ ap pos (omega arith)
  sample_jobs-count ((id, job) ∷ jobs) s n counted small =
      sample_jobs-count jobs (sample_job job s) (n + job_demand key job)
        (sample_job-count job s n counted (omega (arith, small))) (omega (arith, small))
      ∙ ap pos (omega arith)

module _ {W : Type 0} (out : Outside W) (sampler : WorkflowRunsSampler) (asked : Asked)
    (key : String) (file : String → String → Result String) where
  -- The fetcher has one text for a file of a commit, or fails for it, whenever it is asked.
  abbrev pub IsFixed : Type 0
  IsFixed =
      (path ref : String) (w : W)
      → (out.fetch asked.owner asked.repo path ref asked.token w).0 ≡ file path ref

  take_file-count :
      (result : Result String) (s : SampleState W) (n : ℕ)
      → Counts key s n
      → n + file_demand out asked key result < int_bound
      → Counts key (take_file out sampler asked result s) (n + file_demand out asked key result)
  unfolding take_file file_demand call_hook
  take_file-count (err e) s n counted small = counted ∙ ap pos (omega arith)
  take_file-count (ok body) s n counted small = elim (Result-cases (parse out.lint body)) [
    | inr (e, bad) ↦ rw (bad, take_file, file_demand) (counted ∙ ap pos (omega arith))
    | inl (wf, parsed) ↦
        let few : n + jobs_demand key wf.jobs < int_bound =
          subst
            (λ (w : Result Workflow).
              n + elim w [ err e ↦ 0 | ok x ↦ jobs_demand key x.jobs ] < int_bound)
            parsed small in
        rw (parsed, take_file, file_demand)
          (sample_jobs-count key wf.jobs (call_hook (yaml_fetch "fetched") s) n counted few)
  ]

  contribute_run-count :
      (run : WorkflowRun) (s : SampleState W) (n : ℕ)
      → IsFixed
      → Counts key s n
      → n + file_demand out asked key (file run.path run.head_sha) < int_bound
      → Counts key
          (contribute_run out sampler asked run s)
          (n + file_demand out asked key (file run.path run.head_sha))
  unfolding contribute_run
  contribute_run-count run s n fixed counted small =
      let same = fixed run.path run.head_sha s.outside in
      let fetched = out.fetch asked.owner asked.repo run.path run.head_sha asked.token s.outside in
      rw (same) (
        take_file-count (file run.path run.head_sha) (record s { outside = fetched.1 }) n counted
          small)

  sample_run-count :
      (run : WorkflowRun) (s : SampleState W) (n : ℕ)
      → IsFixed
      → Counts key s n
      → n + run_demand out asked key file run < int_bound
      → Counts key (sample_run out sampler asked run s) (n + run_demand out asked key file run)
  unfolding sample_run run_demand call_hook
  sample_run-count run s n fixed counted small =
      elim (Option-cases
        (bot_reason run.actor.kind run.triggering_actor.kind run.actor.login asked.denylist)) [
          | inr (reason, bot) ↦ rw (bot, sample_run, run_demand) (counted ∙ ap pos (omega arith))
          | inl person ↦ elim (Bool-cases (contains allowed_events run.event)) [
            | inl allowed ↦
                rw (person, allowed, sample_run, run_demand)
                  (contribute_run-count run s n fixed counted
                    (ground (arith, small, person, allowed)))
            | inr other ↦
                rw (person, other, sample_run, run_demand) (counted ∙ ap pos (omega arith))
          ]
        ]

  runs_demand-none : (n : ℕ) → runs_demand out asked key file (take n []) ≡ 0
  unfolding runs_demand
  runs_demand-none zero = refl
  runs_demand-none (suc n) = refl

  scan_runs-count :
      (runs : List WorkflowRun) (scanned : ℕ) (s : SampleState W) (n : ℕ)
      → IsFixed
      → Counts key s n
      → n + runs_demand out asked key file (take (sampler.runs_cap - scanned) runs) < int_bound
      → Counts key
          (scan_runs out sampler asked scanned runs s)
          (n + runs_demand out asked key file (take (sampler.runs_cap - scanned) runs))
  unfolding scan_runs runs_demand
  scan_runs-count [] scanned s n fixed counted small =
      counted ∙ ap pos (omega (arith, runs_demand-none (sampler.runs_cap - scanned)))
  scan_runs-count (run ∷ runs) scanned s n fixed counted small =
      elim (Bool-cases (leb sampler.runs_cap scanned)) [
        | inl ended ↦
            let none_left : sampler.runs_cap - scanned ≡ 0 = ground (arith, ended) in
            rw (ended, scan_runs, none_left) (counted ∙ ap pos (omega arith))
        | inr more ↦
            let left : sampler.runs_cap - scanned ≡ suc (sampler.runs_cap - (scanned + 1)) =
              ground (arith, more) in
            let later = take (sampler.runs_cap - (scanned + 1)) runs in
            let few : n + (run_demand out asked key file run + runs_demand out asked key file later)
                < int_bound =
              subst (λ k. n + runs_demand out asked key file (take k (run ∷ runs)) < int_bound) left
                small in
            rw (more, scan_runs, left)
              (scan_runs-count runs (scanned + 1) (sample_run out sampler asked run s)
                  (n + run_demand out asked key file run) fixed
                  (sample_run-count run s n fixed counted (omega (arith, few))) (omega (arith, few))
                ∙ ap pos (omega arith))
      ]

  count_of-empty : count_of key [] ≡ pos 0
  unfolding count_of lookup
  count_of-empty = refl

  fetch_runs_list-totals :
      (s : SampleState W) → (fetch_runs_list out sampler asked s).1.totals ≡ s.totals
  unfolding fetch_runs_list
  fetch_runs_list-totals s =
      elim (Option-cases (out.new_request (runs_list_url out sampler asked))) [
        | inr (e, bad) ↦ rw (bad, fetch_runs_list) refl
        | inl made ↦ rw (made, fetch_runs_list) refl
      ]

  -- A sample fails exactly as its listing does. Otherwise, where the fetcher has one text for each
  -- file, its count under every key is the sum over the first `runsCap` runs of the listing, as long as this
  -- is below 2^63: a run of a bot or for another event counts nothing, nor does one whose file is not fetched
  -- or not parsed, and each other job that is no call and has known labels counts once for each combination
  -- of its matrix, or once.
  pub sample-counts :
      (s : SampleState W)
      → IsFixed
      → ((runs : List WorkflowRun)
          → (fetch_runs_list out sampler asked (record s { totals = [] })).0 ≡ ok runs
          → runs_demand out asked key file (take sampler.runs_cap runs) < int_bound)
      → ((e : String)
          → (fetch_runs_list out sampler asked (record s { totals = [] })).0 ≡ err e
          → (sample out sampler asked s).0 ≡ err e)
        × ((runs : List WorkflowRun)
            → (fetch_runs_list out sampler asked (record s { totals = [] })).0 ≡ ok runs
            → (totals : GoMap ℤ) × ((sample out sampler asked s).0 ≡ ok totals)
              × (count_of key totals
                  ≡ pos (runs_demand out asked key file (take sampler.runs_cap runs))))
  unfolding sample
  sample-counts s fixed small =
      let start = record s { totals = [] } in
      let listed = (fetch_runs_list out sampler asked start).1 in
      let whole : sampler.runs_cap - 0 ≡ sampler.runs_cap = omega arith in
      (
        λ e failed. ground (arith, failed),
        λ runs read. (
          (scan_runs out sampler asked 0 runs listed).totals,
          ground (arith, read),
          scan_runs-count runs 0 listed 0 fixed
                (ap (λ (m : GoMap ℤ). count_of key m) (fetch_runs_list-totals start)
                  ∙ count_of-empty)
                (rw whole (omega (arith, small runs read)))
              ∙ ap pos (rw whole (omega arith)),
        ),
      )
