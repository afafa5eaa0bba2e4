-- ===== src/Policy.antt =====
-- The custom resource: api/v1alpha1/warmrunnerpolicy_types.go.
use warmrunners.Base.{String, Bool, List, Option, none, some, ℤ}
use warmrunners.Clock.{Time, Duration}

-- `corev1.SecretKeySelector`, the fields that are read
pub record SecretRef : Type 0 where
  pub name : String
  pub key : String

pub record GitHubConfig : Type 0 where
  pub owner : String
  pub repository : String
  pub labels : List String
  pub auth : SecretRef

-- `RefNS`, and `adapter.Ref`
pub record Ref : Type 0 where
  pub name : String
  pub namespace : String

-- `Arc.RunnerSet` and `Garm.Pool`, each behind a pointer
pub record Target : Type 0 where
  pub arc : Option Ref
  pub garm : Option Ref

pub record FloorRange : Type 0 where
  pub min : ℤ
  pub max : ℤ

pub record ScheduleWindow : Type 0 where
  pub days : List String
  pub from : String
  pub to : String
  pub tz : String
  pub base : ℤ

pub record QueueRule : Type 0 where
  pub poll_interval : Duration
  pub cooldown : Duration

pub record PredictorConfig : Type 0 where
  pub enabled : Bool
  pub workflow_refresh_interval : Duration
  pub max_runs_per_poll : ℤ

pub record PredictedLabelSet : Type 0 where
  pub labels : List String
  pub count : ℤ

pub record ActivityConfig : Type 0 where
  pub enabled : Bool
  pub window_seconds : ℤ
  pub bot_login_denylist : List String

pub record Spec : Type 0 where
  pub github : GitHubConfig
  pub target : Target
  pub floor : FloorRange
  pub schedule : List ScheduleWindow
  pub queue_rule : QueueRule
  pub predictor : Option PredictorConfig
  pub activity : Option ActivityConfig
  pub dry_run : Bool
  pub github_app_ref : Option String
  pub active_window_seconds : Option ℤ

-- `metav1.Condition`, less the transition time, which apimachinery stamps
pub record Condition : Type 0 where
  pub kind : String
  pub status : Bool
  pub reason : String
  pub message : String
  pub observed_generation : ℤ

pub record Status : Type 0 where
  pub desired_floor : ℤ
  pub applied_floor : ℤ
  pub last_queue_depth : ℤ
  pub last_reconcile_time : Option Time
  pub last_decrease_time : Option Time
  pub predicted_floor : ℤ
  pub predicted_label_sets : List PredictedLabelSet
  pub activity_floor : ℤ
  pub activity_label_sets : List PredictedLabelSet
  pub dry_run : Bool
  pub active_until : Option Time
  pub last_event_source : String
  pub conditions : List Condition

-- `WarmRunnerPolicy`, with the metadata that is read
pub record Policy : Type 0 where
  pub name : String
  pub namespace : String
  pub generation : ℤ
  pub spec : Spec
  pub status : Status

kind_of : Option Ref → Option Ref → String
kind_of (some _) none = "arc"
kind_of none (some _) = "garm"
kind_of none none = ""
kind_of (some _) (some _) = ""

-- `Target.Kind`
unfoldable pub kind : Target → String
unfolding kind_of
kind t = kind_of t.arc t.garm
