-- ===== src/Predictor/Depth.antt =====
-- The walk through local reusable workflows ends, whatever they call.
use warmrunners.Base.{
  ℕ, zero, suc, ◌+◌, ◌≤◌, String, List, [], ◌∷◌, Option, some, GoMap, ◌≡◌, refl, inl, inr, arith,
  Result-cases, ◌∙◌,
}
use warmrunners.Workflow.{Job, Workflow}
use warmrunners.Predictor.{RunRef, Outside, PredictState, Call}
use warmrunners.Predictor.Listing.{list_jobs}
use warmrunners.Predictor.Walk.{
  trim_prefix, walk_job, walk_jobs, visit_key, fetch_yaml, load_and_walk, recurse_local,
  walk_workflow,
}
use warmrunners.Predictor.Steps.{
  JobCase, passed, remote, called, own, job_case, load_case, CallCase, too_deep, cyclic, loaded,
  call_case,
}
use warmrunners.Predictor.Predict.{contribute_run, contribute_runs}

-- A step that is not out of fuel.
abbrev pub Ends {ℓ} : {A : Type ℓ} → Option A → Type ℓ
Ends {A = A} o = (a : A) × (o ≡ some a)

module _ {W : Type 0} where
  walk_jobs-Ends :
      (recurse : String → PredictState W → Option (PredictState W)) (materialized : List String)
      (jobs : GoMap Job) (s : PredictState W)
      → ((uses : String) (t : PredictState W) → Ends (recurse uses t))
      → Ends (walk_jobs recurse materialized jobs s)
  unfolding walk_jobs
  walk_jobs-Ends recurse materialized [] s ends = (s, refl)
  walk_jobs-Ends recurse materialized ((key, job) ∷ jobs) s ends =
      let (t, walked) = job_ends (job_case recurse materialized job s) in
      let (u, rest) = walk_jobs-Ends recurse materialized jobs t ends in
      (u, rw (walked, walk_jobs) rest)
    where
      job_ends : JobCase recurse materialized job s → Ends (walk_job recurse materialized job s)
      job_ends (passed e) = (_, e)
      job_ends (remote e) = (_, e)
      job_ends (own imminent self e) = (_, e)
      job_ends (called imminent call e) = let (t, ended) = ends job.uses_local s in (t, e ∙ ended)

module _ {W : Type 0} (out : Outside W) (call : Call) (head_sha : String) where
  load_and_walk-Ends :
      (walk : Workflow → PredictState W → Option (PredictState W)) (path : String)
      (s : PredictState W)
      → ((wf : Workflow) (t : PredictState W) → Ends (walk wf t))
      → Ends (load_and_walk out call head_sha walk path s)
  load_and_walk-Ends walk path s ends = elim (load_case out call head_sha walk path s) [
    | inl stopped ↦ (_, stopped)
    | inr (body, wf, parsed, walked) ↦
        let (t, ended) = ends wf (fetch_yaml out call head_sha path s).1 in (t, walked ∙ ended)
  ]

  recurse_local-Ends :
      (walk : List String → Workflow → PredictState W → Option (PredictState W)) (depth : ℕ)
      (visited : List String) (uses : String) (s : PredictState W)
      → (depth + 1 ≤ 10
          → (keys : List String) (wf : Workflow) (t : PredictState W) → Ends (walk keys wf t))
      → Ends (recurse_local out call head_sha walk depth visited uses s)
  recurse_local-Ends walk depth visited uses s ends =
      call_ends (call_case out call head_sha walk depth visited uses s)
    where
      call_ends :
          CallCase out call head_sha walk depth visited uses s
          → Ends (recurse_local out call head_sha walk depth visited uses s)
      call_ends (too_deep deep e) = (_, e)
      call_ends (cyclic again e) = (_, e)
      call_ends (loaded shallow e) =
          let (t, ended) =
            load_and_walk-Ends
              (walk (visit_key out call head_sha (trim_prefix "./" uses) ∷ visited))
              (trim_prefix "./" uses) s (ends (ground (arith, shallow)) _) in
          (t, e ∙ ended)

  walk_workflow-Ends :
      (fuel depth : ℕ) (materialized visited : List String) (wf : Workflow) (s : PredictState W)
      → depth ≤ 10
      → 11 ≤ fuel + depth
      → Ends (walk_workflow out call head_sha fuel depth materialized visited wf s)
  unfolding walk_workflow
  walk_workflow-Ends zero depth materialized visited wf s bound enough = absurd (omega arith)
  walk_workflow-Ends (suc fuel) depth materialized visited wf s bound enough =
      walk_jobs-Ends _ materialized wf.jobs s λ uses t.
        recurse_local-Ends _ depth visited uses t λ deeper keys next u.
          walk_workflow-Ends fuel (depth + 1) materialized keys next u deeper (omega arith)

module _ {W : Type 0} (out : Outside W) (call : Call) (fuel : ℕ) (enough : 11 ≤ fuel) where
  contribute_run-Ends :
      (run : RunRef) (s : PredictState W) → Ends (contribute_run out call fuel run s)
  unfolding contribute_run
  contribute_run-Ends run s = elim (Result-cases (list_jobs out call run.id s).0) [
    | inr (e, failed) ↦ ((list_jobs out call run.id s).1, ground (arith, failed))
    | inl (materialized, listed) ↦
        let (t, ended) =
          load_and_walk-Ends out call run.head_sha
            (walk_workflow out call run.head_sha fuel 0 materialized []) run.path
            (list_jobs out call run.id s).1
            (λ wf u.
              walk_workflow-Ends out call run.head_sha fuel 0 materialized [] wf u (omega arith)
                (omega arith)) in
        (t, ground (arith, listed, ended))
  ]

  pub contribute_runs-Ends :
      (runs : List RunRef) (s : PredictState W) → Ends (contribute_runs out call fuel runs s)
  unfolding contribute_runs
  contribute_runs-Ends [] s = (s, refl)
  contribute_runs-Ends (run ∷ runs) s =
      let (t, walked) = contribute_run-Ends run s in
      let (u, rest) = contribute_runs-Ends runs t in (u, rw (walked, contribute_runs) rest)
