-- ===== src/Predictor/Keeping.antt =====
-- A rule for what a whole prediction keeps: it is enough that the elementary steps keep it.
use warmrunners.Base.{
  ℕ, zero, suc, ◌+◌, String, false, List, [], ◌∷◌, Option, some, GoMap, ◌≡◌, ◌≢◌, refl, sym, inl,
  inr, arith, ◌==◌, Bool-cases, Result-cases, Option-cases, eq_iff, ◌∙◌, subst,
}
use warmrunners.Workflow.{Job, Workflow}
use warmrunners.Workflow.Flags.{IsFlagged, AllFlagged, parse-AllFlagged}
use warmrunners.Predictor.{
  ListCacheEntry, RunRef, Outside, PredictState, Call, Report, dynamic_skipped,
}
use warmrunners.Predictor.Listing.{
  cached_get, list_active_runs, list_jobs, get_runs, list_from, union_runs, active_statuses,
}
use warmrunners.Predictor.Walk.{
  trim_prefix, emit, contribute, walk_own, walk_job, walk_jobs, visit_key, fetch_yaml,
  load_and_walk, recurse_local, walk_workflow,
}
use warmrunners.Predictor.Steps.{
  JobCase, passed, remote, called, own, job_case, load_case, CallCase, too_deep, cyclic, loaded,
  call_case,
}
use warmrunners.Predictor.Predict.{contribute_run, contribute_runs, predict}

-- A call of a hook that a walk of parsed workflows makes.
abbrev pub IsReported : Report → Type 0
IsReported e = e ≢ dynamic_skipped "matrix_expr"

reported :
    (reason : String) → (reason == "matrix_expr") ≡ false → IsReported (dynamic_skipped reason)
reported reason h e =
    let same : reason ≡ "matrix_expr" = cc in ground (arith, (eq_iff reason "matrix_expr").1 same)

-- A property of the state that each elementary step keeps.
pub record IsKept {W : Type 0} (P : PredictState W → Type 0) : Type 0 where
  pub emits : (e : Report) (s : PredictState W) → IsReported e → P s → P (emit e s)
  pub contributes : (job : Job) (s : PredictState W) → P s → P (contribute job s)
  pub calls :
      (w : W) (cache : GoMap ListCacheEntry) (s : PredictState W)
      → P s
      → P (record s { outside = w; list_cache = cache })

module _ {W : Type 0} {P : PredictState W → Type 0} (kept : IsKept P) where
  walk_own-Keeps : (job : Job) (s : PredictState W) → IsFlagged job → P s → P (walk_own job s)
  unfolding walk_own
  walk_own-Keeps job s flagged h = elim (Bool-cases job.runs_on.dynamic) [
    | inl dynamic ↦
        rw dynamic (kept.emits (dynamic_skipped "runs_on_expr") s (reported "runs_on_expr" refl) h)
    | inr literal ↦ elim (Bool-cases job.matrix.dynamic) [
      | inl matrix ↦ absurd (ground (arith, flagged.labels_unknown, flagged.matrix_counts matrix))
      | inr plain ↦ rw (literal, plain) (kept.contributes job s h)
    ]
  ]

  -- A function of the walk keeps the property where it returns.
  abbrev pub Keeps : (PredictState W → Option (PredictState W)) → Type 0
  Keeps walk = (s t : PredictState W) → P s → walk s ≡ some t → P t

  walk_job-Keeps :
      (recurse : String → PredictState W → Option (PredictState W)) (materialized : List String)
      (job : Job)
      → IsFlagged job
      → ((uses : String) → Keeps (recurse uses))
      → Keeps (walk_job recurse materialized job)
  walk_job-Keeps recurse materialized job flagged keeps s t h walked =
      from_case (job_case recurse materialized job s)
    where
      from_case : JobCase recurse materialized job s → P t
      from_case (passed e) = let same : s ≡ t = cc in subst P same h
      from_case (remote e) =
          let same : emit (dynamic_skipped "remote_uses") s ≡ t = cc in
          subst P same
            (kept.emits (dynamic_skipped "remote_uses") s (reported "remote_uses" refl) h)
      from_case (called imminent call e) = keeps job.uses_local s t h (sym e ∙ walked)
      from_case (own imminent self e) =
          let same : walk_own job s ≡ t = cc in subst P same (walk_own-Keeps job s flagged h)

  walk_jobs-Keeps :
      (recurse : String → PredictState W → Option (PredictState W)) (materialized : List String)
      (jobs : GoMap Job)
      → AllFlagged jobs
      → ((uses : String) → Keeps (recurse uses))
      → Keeps (walk_jobs recurse materialized jobs)
  unfolding walk_jobs
  walk_jobs-Keeps recurse materialized [] flagged keeps s t h walked =
      let same : s ≡ t = cc in subst P same h
  walk_jobs-Keeps recurse materialized ((key, job) ∷ jobs) flagged keeps s t h walked =
      elim (Option-cases (walk_job recurse materialized job s)) [
        | inl spent ↦ absurd (ground (arith, spent))
        | inr (u, first) ↦
            walk_jobs-Keeps recurse materialized jobs flagged.1 keeps u t
              (walk_job-Keeps recurse materialized job flagged.0 keeps s u h first)
              (ground (arith, first))
      ]

module _ {W : Type 0} {P : PredictState W → Type 0} (kept : IsKept P) (out : Outside W)
    (call : Call) (head_sha : String) where
  fetch_yaml-Keeps :
      (path : String) (s : PredictState W) → P s → P (fetch_yaml out call head_sha path s).1
  unfolding fetch_yaml
  fetch_yaml-Keeps path s h =
      kept.emits _ _ (λ e. cc)
        (kept.calls (out.fetch call.owner call.repo path head_sha call.token s.outside).1
          s.list_cache s h)

  load_and_walk-Keeps :
      (walk : Workflow → PredictState W → Option (PredictState W)) (path : String)
      → ((wf : Workflow) → AllFlagged wf.jobs → Keeps kept (walk wf))
      → Keeps kept (load_and_walk out call head_sha walk path)
  load_and_walk-Keeps walk path keeps s t h walked =
      let loaded_state : P (fetch_yaml out call head_sha path s).1 = fetch_yaml-Keeps path s h in
      elim (load_case out call head_sha walk path s) [
        | inl stopped ↦
            let same : (fetch_yaml out call head_sha path s).1 ≡ t = cc in subst P same loaded_state
        | inr (body, wf, parsed, e) ↦
            keeps wf (parse-AllFlagged out.lint body wf parsed)
              (fetch_yaml out call head_sha path s).1 t loaded_state (sym e ∙ walked)
      ]

  recurse_local-Keeps :
      (walk : List String → Workflow → PredictState W → Option (PredictState W)) (depth : ℕ)
      (visited : List String) (uses : String)
      → ((keys : List String) (wf : Workflow) → AllFlagged wf.jobs → Keeps kept (walk keys wf))
      → Keeps kept (recurse_local out call head_sha walk depth visited uses)
  recurse_local-Keeps walk depth visited uses keeps s t h walked =
      from_case (call_case out call head_sha walk depth visited uses s)
    where
      from_case : CallCase out call head_sha walk depth visited uses s → P t
      from_case (too_deep deep e) =
          let same : emit (dynamic_skipped "depth_exceeded") s ≡ t = cc in
          subst P same
            (kept.emits (dynamic_skipped "depth_exceeded") s (reported "depth_exceeded" refl) h)
      from_case (cyclic again e) =
          let same : emit (dynamic_skipped "cycle") s ≡ t = cc in
          subst P same (kept.emits (dynamic_skipped "cycle") s (reported "cycle" refl) h)
      from_case (loaded shallow e) =
          load_and_walk-Keeps (walk (visit_key out call head_sha (trim_prefix "./" uses) ∷ visited))
            (trim_prefix "./" uses) (keeps _) s t h (sym e ∙ walked)

  walk_workflow-Keeps :
      (fuel depth : ℕ) (materialized visited : List String) (wf : Workflow)
      → AllFlagged wf.jobs
      → Keeps kept (walk_workflow out call head_sha fuel depth materialized visited wf)
  unfolding walk_workflow
  walk_workflow-Keeps zero depth materialized visited wf flagged s t h walked = cc
  walk_workflow-Keeps (suc fuel) depth materialized visited wf flagged s t h walked =
      walk_jobs-Keeps kept _ materialized wf.jobs flagged
        (λ uses.
          recurse_local-Keeps _ depth visited uses
            λ keys next more. walk_workflow-Keeps fuel (depth + 1) materialized keys next more)
        s t h walked

module _ {W : Type 0} {P : PredictState W → Type 0} (kept : IsKept P) (out : Outside W)
    (call : Call) where
  cached_get-Keeps : (url : String) (s : PredictState W) → P s → P (cached_get out call url s).1
  unfolding cached_get
  cached_get-Keeps url s h = elim (Option-cases (out.new_request url)) [
    | inr (e, bad) ↦ rw (bad, cached_get) h
    | inl made ↦ rw (made, cached_get) (kept.calls _ _ s h)
  ]

  get_runs-Keeps : (status : String) (s : PredictState W) → P s → P (get_runs out call status s).1
  unfolding get_runs
  get_runs-Keeps status s h = cached_get-Keeps _ s h

  list_from-Keeps :
      (statuses : List String) (runs : List RunRef) (s : PredictState W)
      → P s
      → P (list_from out call statuses runs s).1
  unfolding list_from
  list_from-Keeps [] runs s h = h
  list_from-Keeps (status ∷ statuses) runs s h =
      elim (Result-cases (get_runs out call status s).0) [
        | inr (e, failed) ↦ rw (failed, list_from) (get_runs-Keeps status s h)
        | inl (listed, read) ↦ elim (Bool-cases (union_runs call runs listed).1) [
          | inl ended ↦ rw (read, ended, list_from) (get_runs-Keeps status s h)
          | inr more ↦
              rw (read, more, list_from) (list_from-Keeps statuses _ _ (get_runs-Keeps status s h))
        ]
      ]

  pub list_active_runs-Keeps : (s : PredictState W) → P s → P (list_active_runs out call s).1
  unfolding list_active_runs
  list_active_runs-Keeps s h = list_from-Keeps active_statuses [] s h

  contribute_run-Keeps : (fuel : ℕ) (run : RunRef) → Keeps kept (contribute_run out call fuel run)
  unfolding contribute_run
  contribute_run-Keeps fuel run s t h walked =
      let next : P (list_jobs out call run.id s).1 = unfold list_jobs in cached_get-Keeps _ s h in
      elim (Result-cases (list_jobs out call run.id s).0) [
        | inr (e, failed) ↦
            let same : (list_jobs out call run.id s).1 ≡ t = ground (arith, failed) in
            subst P same next
        | inl (materialized, listed) ↦
            load_and_walk-Keeps kept out call run.head_sha
              (walk_workflow out call run.head_sha fuel 0 materialized []) run.path
              (λ wf flagged.
                walk_workflow-Keeps kept out call run.head_sha fuel 0 materialized [] wf flagged)
              (list_jobs out call run.id s).1 t next (ground (arith, listed))
      ]

  contribute_runs-Keeps :
      (fuel : ℕ) (runs : List RunRef) → Keeps kept (contribute_runs out call fuel runs)
  unfolding contribute_runs
  contribute_runs-Keeps fuel [] s t h walked = let same : s ≡ t = cc in subst P same h
  contribute_runs-Keeps fuel (run ∷ runs) s t h walked =
      elim (Option-cases (contribute_run out call fuel run s)) [
        | inl spent ↦ absurd (ground (arith, spent))
        | inr (u, first) ↦
            contribute_runs-Keeps fuel runs u t (contribute_run-Keeps fuel run s u h first)
              (ground (arith, first))
      ]

  -- A prediction starts without counts.
  pub predict-Keeps :
      (fuel : ℕ) (s t : PredictState W) (e : Option String)
      → P (record s { totals = [] })
      → predict out call fuel s ≡ some (e, t)
      → P t
  unfolding predict
  predict-Keeps fuel s t e h predicted =
      let start = record s { totals = [] } in
      let listed : P (list_active_runs out call start).1 = list_active_runs-Keeps start h in
      elim (Result-cases (list_active_runs out call start).0) [
        | inr (text, failed) ↦
            let same : (list_active_runs out call start).1 ≡ t = ground (arith, failed) in
            subst P same listed
        | inl (runs, read) ↦
            elim (Option-cases
              (contribute_runs out call fuel runs (list_active_runs out call start).1)) [
                | inl spent ↦ absurd (ground (arith, read, spent))
                | inr (u, done) ↦
                    contribute_runs-Keeps fuel runs (list_active_runs out call start).1 t listed
                      (ground (arith, read, done))
              ]
      ]
