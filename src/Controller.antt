-- ===== src/Controller.antt =====
-- The state and the surroundings of the policy reconciler:
-- internal/controller/warmrunnerpolicy_controller.go.
pub mod Auth
pub mod Signals
pub mod Metrics
pub mod Floor
pub mod Reconcile
pub mod Folding
pub mod Patches
pub mod Cooldown
pub mod Applying
pub mod Attribution
pub mod Gauges
pub mod Window
pub mod Expiries
pub mod Observed
pub mod Freshness
use warmrunners.Base.{
  ◌*◌, String, Bool, true, false, Option, none, some, List, ℤ, pos, Result, GoMap, ltb_ℤ,
  if◌then◌else◌, is_some,
}
use warmrunners.Clock.{Time, Duration, second}
use warmrunners.Policy.{Ref, Target, Spec, Condition, Policy}
use warmrunners.Scheduler.{Demand, Decision}
use warmrunners.Adapter.{Adapter}

-- `demand.Snapshot`
pub record Snapshot : Type 0 where
  pub queued : ℤ
  pub running : ℤ

-- `demand.Source`: owner, repository, labels
abbrev pub Source : Type 0
Source = String → String → List String → Result Snapshot

-- `predictor.Predictor`: owner, repository, token; the answer is `PerLabelSet`
abbrev pub Predictor : Type 0
Predictor = String → String → String → Result (GoMap ℤ)

-- `activity.Activity`: owner, repository, token, window, denylist
abbrev pub Activity : Type 0
Activity = String → String → String → Duration → List String → Result (GoMap ℤ)

-- `activity.EventFeed.Snapshot`: the counts of a repository and the time of its last event
abbrev pub EventFeed : Type 0
EventFeed = String → GoMap ℤ × Time

-- `WarmRunnerPolicyReconciler`, the fields that are set once; nil is `none`.
pub record Reconciler (Cluster : Type 0) : Type 0 where
  pub scheduler : Spec → Time → Demand → ℤ → Time → Decision
  pub demand : Option Source
  pub adapter_func : Option (Target → Option (Adapter Cluster × Ref))
  pub predictor : Option Predictor
  pub activity : Option Activity
  pub event_feed : Option EventFeed

-- `prevPredictedLabels`, `prevActivityLabels` and `prevActiveUntil`: what one reconcile leaves for
-- the next, by policy name.
pub record Memory : Type 0 where
  pub prev_predicted_labels : GoMap (List String)
  pub prev_activity_labels : GoMap (List String)
  pub prev_active_until : GoMap (Option Time)

-- What the code calls outside this repository, as it answers during one reconcile.
pub record World (Cluster : Type 0) : Type 0 where
  -- the backends' cluster, which nothing but the reconcile changes while it runs
  pub cluster : Cluster
  pub arc : Adapter Cluster
  pub garm : Adapter Cluster
  -- `r.Get` of a Secret: namespace, name; its `Data`
  pub get_secret : String → String → Result (GoMap String)
  -- `demand.NewGitHubRESTPoller` with a token
  pub new_poller : String → Source
  -- `r.Status().Update`
  pub update_status : Policy → Option String
  -- `meta.SetStatusCondition`
  pub set_status_condition : List Condition → Condition → List Condition
  -- the readings of the clock, each at its place in the code
  pub decide_now : Time
  pub feed_now : Time
  pub poll_now : Time
  pub window_now : Time
  pub until_now : Time
  pub status_now : Time

-- A change to a Prometheus metric: its name, its labels, its value.
pub data Metric : Type 0 where
  set_gauge : String → List String → ℤ → Metric
  delete_gauge : String → List String → Metric
  count : String → List String → Metric

-- `defaultActiveWindow`
abbrev pub default_active_window : Duration
default_active_window = pos (600 * second)

-- `defaultPollIntervalWithApp`
abbrev pub default_poll_interval_with_app : Duration
default_poll_interval_with_app = pos (300 * second)

-- `activityWindowDefault`
abbrev pub activity_window_default : Duration
activity_window_default = pos (900 * second)

unfoldable pub effective_poll_interval : Policy → Duration
effective_poll_interval pol =
    if ltb_ℤ (pos 0) pol.spec.queue_rule.poll_interval
    then pol.spec.queue_rule.poll_interval
    else if is_some pol.spec.github_app_ref
    then default_poll_interval_with_app
    else pos 0
