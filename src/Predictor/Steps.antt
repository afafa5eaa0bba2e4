-- ===== src/Predictor/Steps.antt =====
-- How a step of the walk goes on: the cases of `walkWorkflow`'s loop body and of `recurseLocal`.
use warmrunners.Base.{
  ℕ, ◌+◌, String, true, false, List, ◌∷◌, Option, some, ok, ◌≡◌, ◌⊎◌, refl, inl, inr, arith, ◌==◌,
  ltb, contains, Bool-cases, Result-cases,
}
use warmrunners.Workflow.{Job, Workflow}
use warmrunners.Workflow.Jobs.{parse}
use warmrunners.Predictor.{Outside, PredictState, Call, dynamic_skipped}
use warmrunners.Predictor.Walk.{
  all_materialized, trim_prefix, emit, walk_own, walk_job, visit_key, fetch_yaml, load_and_walk,
  recurse_local,
}

-- The job is not materialized, its needs are, and it is no remote call.
pub record IsImminent (materialized : List String) (job : Job) : Type 0 where
  pub absent : contains materialized job.id ≡ false
  pub needs_met : all_materialized job.needs materialized ≡ true
  pub not_remote : job.uses_remote ≡ false

module _ {W : Type 0} (recurse : String → PredictState W → Option (PredictState W)) where
  -- What a job does.
  pub data JobCase (materialized : List String) (job : Job) (s : PredictState W) : Type 0 where
    passed : walk_job recurse materialized job s ≡ some s → JobCase materialized job s
    remote :
        walk_job recurse materialized job s ≡ some (emit (dynamic_skipped "remote_uses") s)
        → JobCase materialized job s
    called :
        IsImminent materialized job
        → (job.uses_local == "") ≡ false
        → walk_job recurse materialized job s ≡ recurse job.uses_local s
        → JobCase materialized job s
    own :
        IsImminent materialized job
        → (job.uses_local == "") ≡ true
        → walk_job recurse materialized job s ≡ some (walk_own job s)
        → JobCase materialized job s

  pub job_case :
      (materialized : List String) (job : Job) (s : PredictState W) → JobCase materialized job s
  unfolding walk_job
  job_case materialized job s = elim (Bool-cases (contains materialized job.id)) [
    | inl there ↦ passed (ground (arith, there))
    | inr absent ↦ elim (Bool-cases (all_materialized job.needs materialized)) [
      | inr blocked ↦ passed (ground (arith, absent, blocked))
      | inl met ↦ elim (Bool-cases job.uses_remote) [
        | inl far ↦ remote (ground (arith, absent, met, far))
        | inr near ↦ elim (Bool-cases (job.uses_local == "")) [
          | inr call ↦
              called (record { absent = absent; needs_met = met; not_remote = near }) call
                (ground (arith, absent, met, near, call))
          | inl self ↦
              own (record { absent = absent; needs_met = met; not_remote = near }) self
                (ground (arith, absent, met, near, self))
        ]
      ]
    ]
  ]

module _ {W : Type 0} (out : Outside W) (call : Call) (head_sha : String) where
  -- A file that cannot be loaded ends there; another is walked.
  pub load_case :
      (walk : Workflow → PredictState W → Option (PredictState W)) (path : String)
      (s : PredictState W)
      → (load_and_walk out call head_sha walk path s ≡ some (fetch_yaml out call head_sha path s).1)
        ⊎ ((body : String) × (wf : Workflow) × (parse out.lint body ≡ ok wf)
            × (load_and_walk out call head_sha walk path s
                ≡ walk wf (fetch_yaml out call head_sha path s).1))
  unfolding load_and_walk fetch_yaml
  load_case walk path s =
      elim (Result-cases (out.fetch call.owner call.repo path head_sha call.token s.outside).0) [
        | inr (e, failed) ↦ inl (ground (arith, failed))
        | inl (body, fetched) ↦ elim (Result-cases (parse out.lint body)) [
          | inr (e, bad) ↦ inl (ground (arith, fetched, bad))
          | inl (wf, parsed) ↦ inr (body, wf, parsed, ground (arith, fetched, parsed))
        ]
      ]

  pub load_and_walk-parsed :
      (walk : Workflow → PredictState W → Option (PredictState W)) (path : String)
      (s : PredictState W) (body : String) (wf : Workflow)
      → (fetch_yaml out call head_sha path s).0 ≡ ok body
      → parse out.lint body ≡ ok wf
      → load_and_walk out call head_sha walk path s
        ≡ walk wf (fetch_yaml out call head_sha path s).1
  unfolding load_and_walk fetch_yaml
  load_and_walk-parsed walk path s body wf fetched parsed = ground (arith, fetched, parsed)

  -- A call is skipped for its depth or for a cycle, or its file is loaded.
  pub data CallCase (walk : List String → Workflow → PredictState W → Option (PredictState W))
      (depth : ℕ) (visited : List String) (uses : String) (s : PredictState W) : Type 0 where
    too_deep :
        ltb 10 (depth + 1) ≡ true
        → recurse_local out call head_sha walk depth visited uses s
          ≡ some (emit (dynamic_skipped "depth_exceeded") s)
        → CallCase walk depth visited uses s
    cyclic :
        contains visited (visit_key out call head_sha (trim_prefix "./" uses)) ≡ true
        → recurse_local out call head_sha walk depth visited uses s
          ≡ some (emit (dynamic_skipped "cycle") s)
        → CallCase walk depth visited uses s
    loaded :
        ltb 10 (depth + 1) ≡ false
        → recurse_local out call head_sha walk depth visited uses s
          ≡ load_and_walk out call head_sha
              (walk (visit_key out call head_sha (trim_prefix "./" uses) ∷ visited))
              (trim_prefix "./" uses)
              s
        → CallCase walk depth visited uses s

  pub call_case :
      (walk : List String → Workflow → PredictState W → Option (PredictState W)) (depth : ℕ)
      (visited : List String) (uses : String) (s : PredictState W)
      → CallCase walk depth visited uses s
  unfolding recurse_local
  call_case walk depth visited uses s =
      let key = visit_key out call head_sha (trim_prefix "./" uses) in
      elim (Bool-cases (ltb 10 (depth + 1))) [
        | inl deep ↦ too_deep deep (rw deep refl)
        | inr shallow ↦ elim (Bool-cases (contains visited key)) [
          | inl again ↦ cyclic again (rw (shallow, again) refl)
          | inr new ↦ loaded shallow (rw (shallow, new) refl)
        ]
      ]
