-- ===== src/Controller/Metrics.antt =====
-- The metrics that outlive a reconcile: `emitPredictedJobsMetrics`, `emitActivityJobsMetrics` and
-- `emitActiveWindowMetrics`.
use warmrunners.Base.{
  String, Option, none, some, List, [], ◌∷◌, ◌++◌, ℤ, pos, GoMap, lookup, insert, keys, contains,
  ltb, if◌then◌else◌,
}
use warmrunners.Clock.{Time, time_sub}
use warmrunners.Policy.{Policy}
use warmrunners.Controller.{World, Memory, Metric, set_gauge, delete_gauge, count}
use warmrunners.Controller.Signals.{full_name}

-- One sample for each label set.
unfoldable pub set_jobs : String → String → GoMap ℤ → List Metric
set_jobs gauge policy [] = []
set_jobs gauge policy ((key, n) ∷ m) =
    set_gauge gauge (policy ∷ key ∷ []) n ∷ set_jobs gauge policy m

-- The label sets of the last reconcile that are gone now.
unfoldable pub prune_jobs : String → String → List String → List String → List Metric
prune_jobs gauge policy curr [] = []
prune_jobs gauge policy curr (key ∷ prev) =
    let rest = prune_jobs gauge policy curr prev in
    if contains curr key then rest else delete_gauge gauge (policy ∷ key ∷ []) ∷ rest

-- The labels that a policy had on the last reconcile: none where it had no reconcile yet.
abbrev pub labels_before : String → GoMap (List String) → List String
labels_before policy prev = elim (lookup policy prev) [ none ↦ [] | some labels ↦ labels ]

-- The body that the two functions share: the changes, and the labels to remember.
unfoldable pub emit_jobs_metrics :
    String → String → GoMap ℤ → GoMap (List String) → List Metric × GoMap (List String)
emit_jobs_metrics gauge policy per_label_set prev =
    let curr = keys per_label_set in
    (
      set_jobs gauge policy per_label_set
          ++ prune_jobs gauge policy curr (labels_before policy prev),
      insert policy curr prev,
    )

unfoldable pub emit_predicted_jobs_metrics : String → GoMap ℤ → Memory → List Metric × Memory
emit_predicted_jobs_metrics policy per_label_set mem =
    let (metrics, prev) =
      emit_jobs_metrics "predicted_jobs" policy per_label_set mem.prev_predicted_labels in
    (metrics, record mem { prev_predicted_labels = prev })

unfoldable pub emit_activity_jobs_metrics : String → GoMap ℤ → Memory → List Metric × Memory
emit_activity_jobs_metrics policy per_label_set mem =
    let (metrics, prev) =
      emit_jobs_metrics "activity_jobs" policy per_label_set mem.prev_activity_labels in
    (metrics, record mem { prev_activity_labels = prev })

-- A missing entry reads as nil.
unfoldable pub until_before : String → GoMap (Option Time) → Option Time
until_before policy prev = elim (lookup policy prev) [ none ↦ none | some t ↦ t ]

-- The branch for a window that is not open: an expiry counts where one was open before.
unfoldable pub close_window : String → Option Time → List Metric
close_window repo none = []
close_window repo (some _) =
    count "active_window_expiries" (repo ∷ [])
    ∷ set_gauge "active_window_remaining" (repo ∷ []) (pos 0)
    ∷ []

module _ {Cluster : Type 0} (world : World Cluster) where
  unfoldable pub emit_active_window_metrics : Policy → Memory → List Metric × Memory
  emit_active_window_metrics pol mem =
      let closed : List Metric × Memory = (
        close_window (full_name pol) (until_before pol.name mem.prev_active_until),
        record mem { prev_active_until = insert pol.name none mem.prev_active_until },
      ) in
      elim pol.status.active_until [
        | none ↦ closed
        | some cur ↦
            if ltb world.window_now cur
            then (
              set_gauge "active_window_remaining" (full_name pol ∷ [])
                    (time_sub cur world.until_now)
                  ∷ [],
              record mem { prev_active_until = insert pol.name (some cur) mem.prev_active_until },
            )
            else closed
      ]
