-- ===== src/Predictor/Walk.antt =====
-- The walk of internal/predictor/workflow_needs_graph.go: `walkWorkflow`, `recurseLocal` and the
-- functions they call. A workflow that calls others is walked on fuel; `none` says that it is spent.
use Prim.Native.String.{◌++◌ as str_append}
use warmrunners.Base.{
  ℕ, zero, suc, ◌+◌, String, Bool, true, false, not, List, [], ◌∷◌, ◌++◌, Option, none, some, GoMap,
  lookup, insert, Result, ok, err, if◌then◌else◌, ◌==◌, ltb, length, contains, ℤ, pos, ◌+ℤ◌, to_i64,
}
use warmrunners.Labels.{label_set_key}
use warmrunners.Workflow.{RunsOnSpec, Job, Workflow}
use warmrunners.Workflow.References.{cut_prefix}
use warmrunners.Workflow.Jobs.{parse}
use warmrunners.Predictor.{Outside, Report, dynamic_skipped, yaml_fetch, PredictState, Call}
use warmrunners.Predictor.Listing.{concat_texts}

abbrev pub max_reusable_depth : ℕ
max_reusable_depth = 10

unfoldable pub all_materialized : List String → List String → Bool
all_materialized [] materialized = true
all_materialized (n ∷ needs) materialized =
    if contains materialized n then all_materialized needs materialized else false

unfoldable pub resolve_labels : RunsOnSpec → List String
resolve_labels r = if r.group == "" then r.labels else str_append "group:" r.group ∷ r.labels

-- `m[key]`, 0 where the key is missing, and `m[key] += n` on Go's int.
unfoldable pub count_of : String → GoMap ℤ → ℤ
count_of key m = elim (lookup key m) [ none ↦ pos 0 | some n ↦ n ]

unfoldable pub add_count : String → ℤ → GoMap ℤ → GoMap ℤ
unfolding count_of
add_count key n m = insert key (to_i64 (count_of key m +ℤ n)) m

-- `strings.TrimPrefix(s, prefix)`
unfoldable pub trim_prefix : String → String → String
unfolding cut_prefix
trim_prefix prefix s = elim (cut_prefix prefix s) [ none ↦ s | some rest ↦ rest ]

-- One for each combination of the matrix, or one where there is no matrix.
unfoldable pub expansions : Job → ℤ
expansions job = elim job.matrix.combos [ [] ↦ pos 1 | c ∷ combos ↦ pos (length (c ∷ combos)) ]

module _ {W : Type 0} where
  unfoldable pub emit : Report → PredictState W → PredictState W
  emit e s = record s { events = s.events ++ e ∷ [] }

  unfoldable pub contribute : Job → PredictState W → PredictState W
  unfolding add_count expansions resolve_labels
  contribute job s = record s {
    totals = add_count (label_set_key (resolve_labels job.runs_on)) (expansions job) s.totals;
  }

  -- A job that is neither a call nor materialized, and whose needs are.
  unfoldable pub walk_own : Job → PredictState W → PredictState W
  unfolding emit contribute
  walk_own job s =
      if job.runs_on.dynamic
      then emit (dynamic_skipped "runs_on_expr") s
      else if job.matrix.dynamic
      then emit (dynamic_skipped "matrix_expr") s
      else contribute job s

  -- The body of the loop of `walkWorkflow`.
  unfoldable pub walk_job :
      (String → PredictState W → Option (PredictState W))
      → List String
      → Job
      → PredictState W
      → Option (PredictState W)
  unfolding walk_own emit
  walk_job recurse materialized job s =
      if contains materialized job.id
      then some s
      else if not (all_materialized job.needs materialized)
      then some s
      else if job.uses_remote
      then some (emit (dynamic_skipped "remote_uses") s)
      else if not (job.uses_local == "")
      then recurse job.uses_local s
      else some (walk_own job s)

  unfoldable pub walk_jobs :
      (String → PredictState W → Option (PredictState W))
      → List String
      → GoMap Job
      → PredictState W
      → Option (PredictState W)
  walk_jobs recurse materialized [] s = some s
  walk_jobs recurse materialized (entry ∷ jobs) s = elim (walk_job recurse materialized entry.1 s) [
    | none ↦ none
    | some s' ↦ walk_jobs recurse materialized jobs s'
  ]

module _ {W : Type 0} (out : Outside W) (call : Call) (head_sha : String) where
  unfoldable pub visit_key : String → String
  unfolding concat_texts
  visit_key path = concat_texts (call.owner ∷ "/" ∷ call.repo ∷ "/" ∷ path ∷ "@" ∷ head_sha ∷ [])

  -- `Fetch` with its hook.
  unfoldable pub fetch_yaml : String → PredictState W → Result String × PredictState W
  unfolding emit
  fetch_yaml path s =
      let (result, outside) = out.fetch call.owner call.repo path head_sha call.token s.outside in
      (
        result,
        emit (yaml_fetch (elim result [ err e ↦ "error" | ok body ↦ "fetched" ]))
            (record s { outside = outside }),
      )

  unfoldable pub load_and_walk :
      (Workflow → PredictState W → Option (PredictState W))
      → String
      → PredictState W
      → Option (PredictState W)
  unfolding fetch_yaml
  load_and_walk walk path s =
      let (result, s') = fetch_yaml path s in
      elim result [
        | err e ↦ some s'
        | ok body ↦ elim (parse out.lint body) [ err e ↦ some s' | ok wf ↦ walk wf s' ]
      ]

  -- `visited` is the set while the call lasts, so its deferred `delete` is the end of a scope.
  unfoldable pub recurse_local :
      (List String → Workflow → PredictState W → Option (PredictState W))
      → ℕ
      → List String
      → String
      → PredictState W
      → Option (PredictState W)
  unfolding load_and_walk visit_key
  recurse_local walk depth visited uses_path s =
      let path = trim_prefix "./" uses_path in
      if ltb max_reusable_depth (depth + 1)
      then some (emit (dynamic_skipped "depth_exceeded") s)
      else if contains visited (visit_key path)
      then some (emit (dynamic_skipped "cycle") s)
      else load_and_walk (walk (visit_key path ∷ visited)) path s

  unfoldable pub walk_workflow :
      ℕ → ℕ → List String → List String → Workflow → PredictState W → Option (PredictState W)
  walk_workflow zero depth materialized visited wf s = none
  walk_workflow (suc fuel) depth materialized visited wf s =
      walk_jobs (recurse_local (walk_workflow fuel (depth + 1) materialized) depth visited)
        materialized wf.jobs s
