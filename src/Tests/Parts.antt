-- ===== src/Tests/Parts.antt =====
-- The theorems on the parts of the program.
use warmrunners.Base.{
  ℕ, keys, eq_iff, inl, inr, subst, ◌≡◌, ◌⊎◌, refl, some, none, true, false, List, [], ◌∷◌, Option,
  ℤ, pos, ok, ◌<◌, ◌+◌, ◌*◌, arith, ◌<ℤ◌, String, GoMap, ◌==◌, contains, lookup,
}
use warmrunners.Clock.{Time, second, time_sub}
use warmrunners.Labels.{label_set_key, split_label_set_key, labels_superset, labels_match}
use warmrunners.Base.Sort.{IsAscending}
use warmrunners.Base.{str_lt}
use warmrunners.Labels.Canonical.{SameLabels}
use warmrunners.Labels.RoundTrip.{has_comma, AreProper, split_label_set_key-label_set_key}
use warmrunners.Labels.Filter.{attribution_agrees}
use warmrunners.Scheduler.{decide, schedule_base, within_hhmm, monday}
use warmrunners.Adapter.{arc_set_floor, garm_set_floor}
use warmrunners.Adapter.Memory.{Fields, memory_client}
use warmrunners.Activity.{has_suffix, bot_reason}
use warmrunners.Activity.Feed.{snapshot, count_at}
use warmrunners.Activity.Feed.History.{
  push, job, Event, replay, jobs_of, last_activity, snapshot-replay,
}
use warmrunners.Controller.Metrics.{emit_jobs_metrics, labels_before}
use warmrunners.Controller.Floor.{fold_floor}
use warmrunners.Controller.Folding.{fold_floor-settles}
use warmrunners.Controller.Attribution.{matching_total}
use warmrunners.Controller.Gauges.{samples_after, emit_jobs_metrics-samples}
use warmrunners.Tests.Fixtures.{utc, noon, spec, runner_set, cluster_at}

still_held :
    time_sub (noon + 100 * second) noon <ℤ pos (300 * second)
    → time_sub (noon + 130 * second) noon <ℤ pos (300 * second)
unfolding time_sub
still_held h = ground arith

fold_floor-settles_example :
    let chosen =
      fold_floor
        (decide utc spec
          (noon + 100 * second)
          (record { queued = pos 0; running = pos 0 })
          (pos 4)
          noon).desired_floor
        (pos 2)
        (pos 0)
        (pos 5)
        (ok (some (pos 20))) in
    fold_floor
      (decide utc spec
        (noon + 130 * second)
        (record { queued = pos 1; running = pos 2 })
        chosen
        noon).desired_floor
      (pos 2)
      (pos 0)
      (pos 5)
      (ok (some (pos 20)))
    ≡ chosen
unfolding schedule_base warmrunners.Scheduler.base_from warmrunners.Scheduler.is_active
fold_floor-settles_example =
    fold_floor-settles utc spec (record { queued = pos 0; running = pos 0 })
      (record { queued = pos 1; running = pos 2 }) (pos 2) (pos 0) (pos 4) (ok (some (pos 20)))
      (noon + 100 * second) (noon + 130 * second) noon noon refl still_held

-- Two labels, in two orders, one of them twice.
abbrev labels : List String
labels = "x64" ∷ "linux" ∷ "x64" ∷ []

abbrev labels_sorted : List String
labels_sorted = "linux" ∷ "x64" ∷ []

labels-SameLabels : SameLabels labels labels_sorted
unfolding contains
labels-SameLabels l = ground arith

comma_free : (l : String) → (("x64" == l) ≡ true) ⊎ (("linux" == l) ≡ true) → has_comma l ≡ false
comma_free l (inl x64) = subst (λ s. has_comma s ≡ false) ((eq_iff "x64" l).0 x64) refl
comma_free l (inr linux) = subst (λ s. has_comma s ≡ false) ((eq_iff "linux" l).0 linux) refl

labels-AreProper : AreProper labels
unfolding contains
labels-AreProper = record { comma_free = λ l h. comma_free l (ground arith); nonempty = refl }

labels_sorted-AreProper : AreProper labels_sorted
unfolding contains
labels_sorted-AreProper = record {
  comma_free = λ l h. comma_free l (ground arith);
  nonempty = refl;
}

split_label_set_key-label_set_key_example :
    IsAscending str_lt (split_label_set_key (label_set_key labels))
    × SameLabels (split_label_set_key (label_set_key labels)) labels
split_label_set_key-label_set_key_example =
    split_label_set_key-label_set_key labels labels-AreProper

attribution_agrees_example :
    labels_superset (split_label_set_key (label_set_key labels)) ("linux" ∷ [])
    ≡ labels_match labels ("linux" ∷ [])
attribution_agrees_example = attribution_agrees labels ("linux" ∷ []) labels-AreProper

-- Three jobs on linux, two on windows.
abbrev jobs : GoMap ℕ
jobs = ("linux,x64", 3) ∷ ("windows", 2) ∷ []

jobs_small : matching_total ("linux" ∷ []) jobs < 2147483648
unfolding matching_total warmrunners.Labels.split_label_set_key warmrunners.Labels.split_comma
    labels_superset warmrunners.Labels.has_all contains
jobs_small = ground arith

-- The last reconcile had jobs on windows.
abbrev labels_then : GoMap (List String)
labels_then = ("api-runners", "windows" ∷ []) ∷ []

abbrev jobs_now : GoMap ℤ
jobs_now = ("linux,x64", pos 3) ∷ []

known_then :
    contains (labels_before "api-runners" labels_then) "windows" ≡ false
    → ◌≡◌ {A = Option ℤ} (some (pos 2)) none
unfolding contains lookup
known_then h = ground arith

emit_jobs_metrics-samples_example :
    (samples_after "predicted_jobs" "api-runners" "windows"
        (emit_jobs_metrics "predicted_jobs" "api-runners" jobs_now labels_then).0
        (some (pos 2))
      ≡ lookup "windows" jobs_now)
    × (labels_before "api-runners"
          (emit_jobs_metrics "predicted_jobs" "api-runners" jobs_now labels_then).1
        ≡ keys jobs_now)
unfolding lookup
emit_jobs_metrics-samples_example =
    emit_jobs_metrics-samples "predicted_jobs" "api-runners" "windows" jobs_now labels_then
      (some (pos 2)) (refl, tt) known_then

held : bot_reason "User" "User" "ci-user" ("ci-user" ∷ []) ≡ some "denylist"
unfolding bot_reason has_suffix warmrunners.Activity.on_denylist
held = refl

-- A push and two jobs, the latest first.
abbrev events : List (Time × Event)
events =
    (noon + 20, job "acme/api" (some ("linux" ∷ [])))
    ∷ (noon + 10, job "acme/web" (some ("linux" ∷ [])))
    ∷ (noon, push "acme/api" "f00d")
    ∷ []

snapshot-replay_example :
    (count_at "linux" (snapshot (replay events) "acme/api").0
      ≡ pos (jobs_of "acme/api" "linux" events))
    × ((snapshot (replay events) "acme/api").1 ≡ last_activity "acme/api" events)
snapshot-replay_example = snapshot-replay "acme/api" "linux" events (omega arith)

-- What the in-memory client holds after a floor of 3 was set.
abbrev lowered : String → Fields
lowered field = ("spec" ∷ field ∷ [], pos 3) ∷ cluster_at (pos 4)

arc_set :
    arc_set_floor memory_client (cluster_at (pos 4)) runner_set (pos 3) ≡ ok (lowered "minRunners")
unfolding arc_set_floor
arc_set = refl

garm_set :
    garm_set_floor memory_client (cluster_at (pos 4)) runner_set (pos 3)
    ≡ ok (lowered "minIdleRunners")
unfolding garm_set_floor
garm_set = refl
