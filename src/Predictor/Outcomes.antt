-- ===== src/Predictor/Outcomes.antt =====
-- A prediction returns, and its error is that of the scan of the active runs.
use warmrunners.Base.{
  ℕ, ◌≤◌, String, List, [], ◌∷◌, some, err, error_of, ◌≡◌, refl, arith, inl, inr, Result-cases,
  Bool-cases, ◌∙◌,
}
use warmrunners.Predictor.{RunRef, Outside, PredictState, Call}
use warmrunners.Predictor.Listing.{
  list_active_runs, list_from, get_runs, union_runs, active_statuses,
}
use warmrunners.Predictor.Predict.{predict}
use warmrunners.Predictor.Depth.{contribute_runs-Ends}
use warmrunners.Predictor.Totals.{cached_get-totals}

module _ {W : Type 0} (out : Outside W) (call : Call) where
  get_runs-totals :
      (status : String) (s : PredictState W) → (get_runs out call status s).1.totals ≡ s.totals
  unfolding get_runs
  get_runs-totals status s = cached_get-totals out call _ s

  list_from-totals :
      (statuses : List String) (runs : List RunRef) (s : PredictState W)
      → (list_from out call statuses runs s).1.totals ≡ s.totals
  unfolding list_from
  list_from-totals [] runs s = refl
  list_from-totals (status ∷ statuses) runs s = elim (Result-cases (get_runs out call status s).0) [
    | inr (e, failed) ↦ rw (failed, list_from) (get_runs-totals status s)
    | inl (listed, read) ↦ elim (Bool-cases (union_runs call runs listed).1) [
      | inl ended ↦ rw (read, ended, list_from) (get_runs-totals status s)
      | inr more ↦
          rw (read, more, list_from) (list_from-totals statuses _ _ ∙ get_runs-totals status s)
    ]
  ]

  pub predict-outcome :
      (fuel : ℕ) (s : PredictState W)
      → 11 ≤ fuel
      → (t : PredictState W) × (predict out call fuel s
          ≡ some (error_of (list_active_runs out call (record s { totals = [] })).0, t))
        × ((e : String)
            → (list_active_runs out call (record s { totals = [] })).0 ≡ err e
            → t.totals ≡ [])
  unfolding predict
  predict-outcome fuel s enough =
      let start = record s { totals = [] } in
      let listed = (list_active_runs out call start).1 in
      elim (Result-cases (list_active_runs out call start).0) [
        | inr (e, failed) ↦ (
          listed,
          ground (arith, failed),
          λ text h. unfold list_active_runs in list_from-totals active_statuses [] start,
        )
        | inl (runs, read) ↦
            let (t, done) = contribute_runs-Ends out call fuel enough runs listed in
            (t, ground (arith, read, done), λ text h. absurd (ground (arith, read)))
      ]
