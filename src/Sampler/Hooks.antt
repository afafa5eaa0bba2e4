-- ===== src/Sampler/Hooks.antt =====
-- The calls of the hooks of a sample: one for each scanned run, besides those for its jobs.
use warmrunners.Base.{
  ℕ, zero, suc, ◌+◌, ◌-◌, String, List, [], ◌∷◌, ◌++◌, GoMap, Result, ok, err, leb, take, length,
  contains, ◌≡◌, refl, ◌∙◌, inl, inr, arith, Bool-cases, Option-cases, Result-cases,
}
use warmrunners.Activity.{bot_reason}
use warmrunners.Workflow.{Job}
use warmrunners.Workflow.Jobs.{parse}
use warmrunners.Sampler.{
  WorkflowRun, WorkflowRunsSampler, Outside, SampleState, Asked, allowed_events, HookCall,
  bot_filtered, event_filtered, yaml_fetch, dynamic_skipped, call_hook, sample_job, sample_jobs,
  take_file, contribute_run, sample_run, scan_runs,
}

-- The calls that are for a run: it was filtered, or its file was asked for.
unfoldable pub run_calls : List HookCall → ℕ
run_calls [] = 0
run_calls (bot_filtered reason ∷ calls) = suc (run_calls calls)
run_calls (event_filtered event ∷ calls) = suc (run_calls calls)
run_calls (yaml_fetch result ∷ calls) = suc (run_calls calls)
run_calls (dynamic_skipped reason ∷ calls) = run_calls calls

run_calls-append : (xs ys : List HookCall) → run_calls (xs ++ ys) ≡ run_calls xs + run_calls ys
unfolding run_calls
run_calls-append [] ys = omega arith
run_calls-append (bot_filtered reason ∷ xs) ys = omega (arith, run_calls-append xs ys)
run_calls-append (event_filtered event ∷ xs) ys = omega (arith, run_calls-append xs ys)
run_calls-append (yaml_fetch result ∷ xs) ys = omega (arith, run_calls-append xs ys)
run_calls-append (dynamic_skipped reason ∷ xs) ys = run_calls-append xs ys

module _ {W : Type 0} where
  sample_job-calls :
      (job : Job) (s : SampleState W) → run_calls (sample_job job s).calls ≡ run_calls s.calls
  unfolding sample_job call_hook run_calls
  sample_job-calls job s = ground (
    arith,
    run_calls-append s.calls (dynamic_skipped "remote_uses" ∷ []),
    run_calls-append s.calls (dynamic_skipped "runs_on_expr" ∷ []),
    run_calls-append s.calls (dynamic_skipped "matrix_expr" ∷ []),
  )

  sample_jobs-calls :
      (jobs : GoMap Job) (s : SampleState W)
      → run_calls (sample_jobs jobs s).calls ≡ run_calls s.calls
  unfolding sample_jobs
  sample_jobs-calls [] s = refl
  sample_jobs-calls (entry ∷ jobs) s =
      sample_jobs-calls jobs (sample_job entry.1 s) ∙ sample_job-calls entry.1 s

module _ {W : Type 0} (out : Outside W) (sampler : WorkflowRunsSampler) (asked : Asked) where
  take_file-calls :
      (result : Result String) (s : SampleState W)
      → run_calls (take_file out sampler asked result s).calls ≡ suc (run_calls s.calls)
  unfolding take_file call_hook run_calls
  take_file-calls (err e) s = omega (arith, run_calls-append s.calls (yaml_fetch "error" ∷ []))
  take_file-calls (ok body) s =
      let fetched : run_calls (s.calls ++ yaml_fetch "fetched" ∷ []) ≡ suc (run_calls s.calls) =
        omega (arith, run_calls-append s.calls (yaml_fetch "fetched" ∷ [])) in
      elim (Result-cases (parse out.lint body)) [
        | inr (e, bad) ↦ rw (bad, take_file) fetched
        | inl (wf, parsed) ↦
            rw (parsed, take_file)
              (sample_jobs-calls wf.jobs (call_hook (yaml_fetch "fetched") s) ∙ fetched)
      ]

  sample_run-calls :
      (run : WorkflowRun) (s : SampleState W)
      → run_calls (sample_run out sampler asked run s).calls ≡ suc (run_calls s.calls)
  unfolding sample_run contribute_run call_hook run_calls
  sample_run-calls run s =
      elim (Option-cases
        (bot_reason run.actor.kind run.triggering_actor.kind run.actor.login asked.denylist)) [
          | inr (reason, bot) ↦
              rw (bot, sample_run)
                (omega (arith, run_calls-append s.calls (bot_filtered reason ∷ [])))
          | inl person ↦ elim (Bool-cases (contains allowed_events run.event)) [
            | inl allowed ↦ rw (person, allowed, sample_run) (take_file-calls _ _)
            | inr other ↦
                rw (person, other, sample_run)
                  (omega (arith, run_calls-append s.calls (event_filtered run.event ∷ [])))
          ]
        ]

  -- The loop of `Sample` from a count on makes one call for each of the runs up to the cap, and none
  -- for the rest: a run is filtered once, or its file is asked for once.
  pub scan_runs-calls :
      (runs : List WorkflowRun) (scanned : ℕ) (s : SampleState W)
      → run_calls (scan_runs out sampler asked scanned runs s).calls
        ≡ run_calls s.calls + length (take (sampler.runs_cap - scanned) runs)
  unfolding scan_runs
  scan_runs-calls [] scanned s = none_left (sampler.runs_cap - scanned)
    where
      none_left :
          (n : ℕ) → run_calls s.calls ≡ run_calls s.calls + length (take {A = WorkflowRun} n [])
      none_left zero = omega arith
      none_left (suc n) = omega arith
  scan_runs-calls (run ∷ runs) scanned s = elim (Bool-cases (leb sampler.runs_cap scanned)) [
    | inl ended ↦
        let none_left : sampler.runs_cap - scanned ≡ 0 = ground (arith, ended) in
        rw (ended, scan_runs, none_left) (omega arith)
    | inr more ↦
        let left : sampler.runs_cap - scanned ≡ suc (sampler.runs_cap - (scanned + 1)) =
          ground (arith, more) in
        rw (more, scan_runs, left)
          (omega (
            arith,
            scan_runs-calls runs (scanned + 1) (sample_run out sampler asked run s),
            sample_run-calls run s,
          ))
  ]
