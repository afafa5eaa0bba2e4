-- ===== src/Controller/Expiries.antt =====
-- Of all the metrics of a reconcile, the active window alone counts an expiry.
use warmrunners.Base.{
  ◌+◌, String, ◌≡◌, refl, ◌∙◌, Bool, true, false, Option, none, some, List, [], ◌∷◌, ◌++◌, GoMap, ℤ,
  arith, contains, inl, inr, Bool-cases, ltb_ℤ,
}
use warmrunners.Controller.{World, Reconciler, Memory, Metric, set_gauge, delete_gauge, count}
use warmrunners.Controller.Metrics.{
  set_jobs, prune_jobs, labels_before, emit_jobs_metrics, emit_predicted_jobs_metrics,
  emit_activity_jobs_metrics,
}
use warmrunners.Controller.Reconcile.{count_error, count_change}
use warmrunners.Controller.Window.{expiries}

pub expiries-append : (xs ys : List Metric) → expiries (xs ++ ys) ≡ expiries xs + expiries ys
unfolding expiries
expiries-append [] ys = omega arith
expiries-append (set_gauge name labels v ∷ xs) ys = expiries-append xs ys
expiries-append (delete_gauge name labels ∷ xs) ys = expiries-append xs ys
expiries-append (count name labels ∷ xs) ys = omega (arith, expiries-append xs ys)

-- Metrics without an expiry change no count of them.
pub expiries-skip : (xs ys : List Metric) → expiries xs ≡ 0 → expiries (xs ++ ys) ≡ expiries ys
expiries-skip xs ys h = expiries-append xs ys ∙ omega (arith, h)

expiries-set_jobs : (gauge policy : String) (m : GoMap ℤ) → expiries (set_jobs gauge policy m) ≡ 0
unfolding expiries set_jobs
expiries-set_jobs gauge policy [] = refl
expiries-set_jobs gauge policy ((key, n) ∷ m) = expiries-set_jobs gauge policy m

expiries-prune_jobs :
    (gauge policy : String) (curr prev : List String)
    → expiries (prune_jobs gauge policy curr prev) ≡ 0
unfolding expiries prune_jobs
expiries-prune_jobs gauge policy curr [] = refl
expiries-prune_jobs gauge policy curr (key ∷ prev) = elim (Bool-cases (contains curr key)) [
  | inl kept ↦ rw kept (expiries-prune_jobs gauge policy curr prev)
  | inr gone ↦ rw gone (expiries-prune_jobs gauge policy curr prev)
]

expiries-emit_jobs_metrics :
    (gauge policy : String) (m : GoMap ℤ) (prev : GoMap (List String))
    → expiries (emit_jobs_metrics gauge policy m prev).0 ≡ 0
unfolding emit_jobs_metrics
expiries-emit_jobs_metrics gauge policy m prev =
    expiries-skip (set_jobs gauge policy m) _ (expiries-set_jobs gauge policy m)
    ∙ expiries-prune_jobs gauge policy _ (labels_before policy prev)

pub expiries-emit_predicted_jobs_metrics :
    (policy : String) (m : GoMap ℤ) (mem : Memory)
    → expiries (emit_predicted_jobs_metrics policy m mem).0 ≡ 0
unfolding emit_predicted_jobs_metrics
expiries-emit_predicted_jobs_metrics policy m mem =
    expiries-emit_jobs_metrics "predicted_jobs" policy m mem.prev_predicted_labels

pub expiries-emit_activity_jobs_metrics :
    (policy : String) (m : GoMap ℤ) (mem : Memory)
    → expiries (emit_activity_jobs_metrics policy m mem).0 ≡ 0
unfolding emit_activity_jobs_metrics
expiries-emit_activity_jobs_metrics policy m mem =
    expiries-emit_jobs_metrics "activity_jobs" policy m mem.prev_activity_labels

pub expiries-count_error :
    (policy kind : String) (e : Option String) → expiries (count_error policy kind e) ≡ 0
unfolding expiries count_error
expiries-count_error policy kind none = refl
expiries-count_error policy kind (some e) = refl

pub expiries-count_change :
    {Cluster : Type 0} (world : World Cluster) (r : Reconciler Cluster) (policy : String)
    (good : Bool) (desired current : ℤ)
    → expiries (count_change world r policy good desired current) ≡ 0
unfolding expiries count_change
expiries-count_change world r policy false desired current = refl
expiries-count_change world r policy true desired current =
    elim (Bool-cases (ltb_ℤ current desired)) [
      | inl up ↦ rw up refl
      | inr still ↦ elim (Bool-cases (ltb_ℤ desired current)) [
        | inl down ↦ rw (still, down) refl
        | inr same ↦ rw (still, same) refl
      ]
    ]
