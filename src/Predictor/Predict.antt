-- ===== src/Predictor/Predict.antt =====
-- `contributeRun` and `Predict` of internal/predictor/workflow_needs_graph.go.
use warmrunners.Base.{ℕ, String, List, [], ◌∷◌, Option, none, some, ok, err}
use warmrunners.Predictor.{RunRef, Outside, PredictState, Call}
use warmrunners.Predictor.Listing.{list_active_runs, list_jobs}
use warmrunners.Predictor.Walk.{load_and_walk, walk_workflow}

module _ {W : Type 0} (out : Outside W) (call : Call) where
  -- The file of the run is loaded as a called one is; the error of any step drops the run.
  unfoldable pub contribute_run : ℕ → RunRef → PredictState W → Option (PredictState W)
  contribute_run fuel run s = elim (list_jobs out call run.id s).0 [
    | err e ↦ some (list_jobs out call run.id s).1
    | ok materialized ↦
        load_and_walk out call run.head_sha
          (walk_workflow out call run.head_sha fuel 0 materialized []) run.path
          (list_jobs out call run.id s).1
  ]

  unfoldable pub contribute_runs : ℕ → List RunRef → PredictState W → Option (PredictState W)
  contribute_runs fuel [] s = some s
  contribute_runs fuel (run ∷ runs) s = elim (contribute_run fuel run s) [
    | none ↦ none
    | some s' ↦ contribute_runs fuel runs s'
  ]

  -- The error, and the state with the prediction's `PerLabelSet`.
  unfoldable pub predict : ℕ → PredictState W → Option (Option String × PredictState W)
  predict fuel s = elim (list_active_runs out call (record s { totals = [] })).0 [
    | err e ↦ some (some e, (list_active_runs out call (record s { totals = [] })).1)
    | ok runs ↦
        elim (contribute_runs fuel runs (list_active_runs out call (record s { totals = [] })).1) [
          | none ↦ none
          | some s' ↦ some (none, s')
        ]
  ]
