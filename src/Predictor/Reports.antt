-- ===== src/Predictor/Reports.antt =====
-- What a prediction reports through its hooks.
use warmrunners.Base.{ℕ, String, [], ◌∷◌, Option, some, ◌≡◌, All, All-append}
use warmrunners.Predictor.{Outside, PredictState, Call}
use warmrunners.Predictor.Walk.{emit, contribute}
use warmrunners.Predictor.Predict.{predict}
use warmrunners.Predictor.Keeping.{IsReported, IsKept, predict-Keeps}

AllReported-IsKept : {W : Type 0} → IsKept {W = W} (λ s. All IsReported s.events)
unfolding emit contribute
AllReported-IsKept = record {
  emits = λ e s new h. All-append IsReported s.events (e ∷ []) h (new, tt);
  contributes = λ job s h. h;
  calls = λ w cache s h. h;
}

-- No prediction reports that it skipped a job for `matrix_expr`, whatever the server, the files and
-- the parser's tree are: the parser makes the labels of such a job dynamic too, which is tested
-- first.
pub predict-IsReported :
    {W : Type 0} (out : Outside W) (call : Call) (fuel : ℕ) (s t : PredictState W)
    (e : Option String)
    → All IsReported s.events
    → predict out call fuel s ≡ some (e, t)
    → All IsReported t.events
predict-IsReported out call fuel s t e h predicted =
    predict-Keeps AllReported-IsKept out call fuel s t e h predicted
