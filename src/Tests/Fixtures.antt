-- ===== src/Tests/Fixtures.antt =====
-- A policy, a cluster and a reconciler, as the controller's tests set them up.
use warmrunners.Base.{false, [], ◌∷◌, none, some, ℤ, pos, ok, err, ◌*◌, ◌+◌, ◌==◌, if◌then◌else◌}
use warmrunners.Clock.{Time, second}
use warmrunners.Policy.{Ref, ScheduleWindow, Spec, Status, Policy}
use warmrunners.Scheduler.{Zones, monday, decide}
use warmrunners.Adapter.{Adapter, arc_adapter, garm_adapter}
use warmrunners.Adapter.Memory.{memory_client, Fields}
use warmrunners.Controller.{Source, Reconciler, Memory, World}

-- A zone whose clock shows Monday, 09:30, at every instant.
abbrev pub utc : Zones
utc name =
    if name == "UTC" then some (λ t. record { weekday = monday; hour = 9; minute = 30 }) else none

abbrev pub office_hours : ScheduleWindow
office_hours = record {
  days = "Mon" ∷ "Tue" ∷ [];
  from = "09:00";
  to = "17:30";
  tz = "UTC";
  base = pos 3;
}

abbrev pub runner_set : Ref
runner_set = record { name = "runners"; namespace = "ci" }

abbrev pub noon : Time
noon = 1000000 * second

abbrev pub spec : Spec
spec = record {
  github = record {
    owner = "acme";
    repository = "api";
    labels = "linux" ∷ [];
    auth = record { name = "github"; key = "token" };
  };
  target = record { arc = some runner_set; garm = none };
  floor = record { min = pos 1; max = pos 5 };
  schedule = office_hours ∷ [];
  queue_rule = record { poll_interval = pos 0; cooldown = pos (300 * second) };
  predictor = none;
  activity = none;
  dry_run = false;
  github_app_ref = none;
  active_window_seconds = none;
}

abbrev pub status : Status
status = record {
  desired_floor = pos 4;
  applied_floor = pos 4;
  last_queue_depth = pos 0;
  last_reconcile_time = none;
  last_decrease_time = some (noon + 60 * second);
  predicted_floor = pos 0;
  predicted_label_sets = [];
  activity_floor = pos 0;
  activity_label_sets = [];
  dry_run = false;
  active_until = none;
  last_event_source = "";
  conditions = [];
}

abbrev pub policy : Policy
policy = record {
  name = "api-runners";
  namespace = "ci";
  generation = pos 1;
  spec = spec;
  status = status;
}

abbrev pub memory : Memory
memory = record { prev_predicted_labels = []; prev_activity_labels = []; prev_active_until = [] }

abbrev pub idle_source : Source
idle_source owner repository labels = ok (record { queued = pos 0; running = pos 0 })

abbrev pub broken_source : Source
broken_source owner repository labels = err "connection refused"

abbrev pub reconciler : Source → Reconciler Fields
reconciler source = record {
  scheduler = decide utc;
  demand = some source;
  adapter_func = none;
  predictor = none;
  activity = none;
  event_feed = none;
}

abbrev pub arc : Adapter Fields
arc = arc_adapter memory_client

-- A cluster whose runner set has this floor and a cap of 20.
abbrev pub cluster_at : ℤ → Fields
cluster_at floor = ("spec" ∷ "minRunners" ∷ [], floor) ∷ ("spec" ∷ "maxRunners" ∷ [], pos 20) ∷ []

-- The cluster with this floor, while the clock shows `now`.
abbrev pub world_at : ℤ → Time → World Fields
world_at floor now = record {
  cluster = cluster_at floor;
  arc = arc;
  garm = garm_adapter memory_client;
  get_secret = λ namespace name. err "not found";
  new_poller = λ token. idle_source;
  update_status = λ pol. none;
  set_status_condition = λ conditions c. c ∷ conditions;
  decide_now = now;
  feed_now = now;
  poll_now = now;
  window_now = now;
  until_now = now;
  status_now = now;
}
