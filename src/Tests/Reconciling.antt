-- ===== src/Tests/Reconciling.antt =====
-- The theorems on a reconcile, at a policy that its schedule holds at 3.
use warmrunners.Base.{
  ◌≡◌, refl, inr, some, none, List, [], ◌∷◌, ℤ, pos, ok, ltb_ℤ, false, All, length, ◌≤◌, ◌+◌, ◌*◌,
  arith, ◌≤ℤ◌, ◌<ℤ◌, InI32, to_i32_pos, subst, sym,
}
use warmrunners.Clock.{second, time_sub, Time, time_add, max_duration}
use warmrunners.Scheduler.{decide, schedule_base}
use warmrunners.Adapter.{arc_adapter}
use warmrunners.Adapter.Laws.{arc_adapter-IsFaithful}
use warmrunners.Adapter.Memory.{memory_client, memory_client-IsLawful, Fields}
use warmrunners.Controller.{World}
use warmrunners.Controller.Auth.{demand_source}
use warmrunners.Controller.Window.{was_open}
use warmrunners.Controller.Observed.{counted, reconciles, closings, reconciles-closings}
use warmrunners.Policy.{Policy}
use warmrunners.Controller.Floor.{current_of, last_decrease}
use warmrunners.Controller.Folding.{WithinCap}
use warmrunners.Controller.Reconcile.{adapter_for, found, reconcile, decided_floor}
use warmrunners.Controller.Patches.{IsAllowed, reconcile-IsAllowed}
use warmrunners.Controller.Applying.{IsTruthful, reconcile-IsTruthful}
use warmrunners.Controller.Cooldown.{
  KeepsFloor, KeepsStamp, IsBlind, reconcile_cooldown, reconcile_blind,
}
use warmrunners.Controller.{EventFeed}
use warmrunners.Controller.Signals.{active_window, contribution_of, compute_activity_from_feed}
use warmrunners.Tests.Fixtures.{
  utc, runner_set, noon, policy, memory, idle_source, broken_source, reconciler, arc, world_at,
}

-- The cooldown is over.
abbrev late : World Fields
late = world_at (pos 4) (noon + 500 * second)

-- The cooldown runs.
abbrev early : World Fields
early = world_at (pos 4) (noon + 100 * second)

target_late : adapter_for late (reconciler idle_source) policy.spec.target ≡ some (arc, runner_set)
unfolding adapter_for warmrunners.Policy.kind
target_late = refl

target_early :
    adapter_for early (reconciler idle_source) policy.spec.target ≡ some (arc, runner_set)
unfolding adapter_for warmrunners.Policy.kind
target_early = refl

reconcile-IsAllowed_example :
    let calls = (reconcile late (reconciler idle_source) (found policy) memory).patches in
    All (IsAllowed late arc runner_set policy) calls × (length calls ≤ 1)
reconcile-IsAllowed_example =
    reconcile-IsAllowed late (reconciler idle_source) policy memory arc runner_set target_late

source_late : demand_source late (reconciler idle_source) policy ≡ ok idle_source
unfolding demand_source
source_late = refl

floor_late : arc.get_floor late.cluster runner_set ≡ ok (pos 4)
unfolding arc_adapter warmrunners.Adapter.arc_get_floor warmrunners.Adapter.wrap_error
    warmrunners.Adapter.floor_of warmrunners.Base.to_i32
floor_late = refl

base_late : schedule_base utc policy.spec.schedule late.decide_now ≡ pos 3
unfolding schedule_base warmrunners.Scheduler.base_from warmrunners.Scheduler.is_active
    warmrunners.Scheduler.contains_day warmrunners.Scheduler.weekday_short
    warmrunners.Scheduler.within_hhmm warmrunners.Scheduler.minutes warmrunners.Scheduler.parse_hm
    warmrunners.Scheduler.Sscanf.scan_int warmrunners.Scheduler.Sscanf.skip_space
    warmrunners.Scheduler.Sscanf.is_space warmrunners.Scheduler.Sscanf.scan_signed
    warmrunners.Scheduler.Sscanf.scan_unsigned warmrunners.Scheduler.Sscanf.expect_colon
    warmrunners.Scheduler.Sscanf.scan_digits warmrunners.Base.to_i64 warmrunners.Base.◌+ℤ◌
    warmrunners.Base.◌*ℤ◌
base_late = refl

cooled_late :
    ltb_ℤ
      (time_sub late.decide_now (last_decrease policy.status.last_decrease_time))
      policy.spec.queue_rule.cooldown
    ≡ false
unfolding time_sub last_decrease
cooled_late = refl

decided_late : decided_floor late (reconciler idle_source) arc runner_set idle_source policy ≡ pos 3
unfolding decided_floor decide warmrunners.Scheduler.clamp current_of arc_adapter
    warmrunners.Adapter.arc_get_floor warmrunners.Adapter.wrap_error warmrunners.Adapter.floor_of
    warmrunners.Base.to_i32
decided_late = rw (base_late, cooled_late, decided_floor, decide) refl

reconcile-IsTruthful_example :
    let out = reconcile late (reconciler idle_source) (found policy) memory in
    All (IsTruthful arc runner_set out.cluster) out.status_updates
reconcile-IsTruthful_example =
    reconcile-IsTruthful late (reconciler idle_source) policy memory arc runner_set idle_source
      (pos 4) target_late source_late (arc_adapter-IsFaithful memory_client memory_client-IsLawful)
      floor_late (subst InI32 (sym decided_late) (to_i32_pos 3 (omega arith)))
      (to_i32_pos 5 (omega arith))

running_early :
    time_sub early.decide_now (last_decrease policy.status.last_decrease_time)
    <ℤ policy.spec.queue_rule.cooldown
unfolding time_sub last_decrease
running_early = ground arith

floor_early : arc.get_floor early.cluster runner_set ≡ ok (pos 4)
unfolding arc_adapter warmrunners.Adapter.arc_get_floor warmrunners.Adapter.wrap_error
    warmrunners.Adapter.floor_of warmrunners.Base.to_i32
floor_early = refl

below_early : pos 4 ≤ℤ policy.spec.floor.max
below_early = ground arith

within_early : WithinCap (arc.get_max early.cluster runner_set) (pos 4)
unfolding arc_adapter warmrunners.Adapter.arc_get_max warmrunners.Adapter.wrap_error
    warmrunners.Adapter.max_of warmrunners.Base.to_i32
within_early = ground arith

reconcile_cooldown_example :
    let out = reconcile early (reconciler idle_source) (found policy) memory in
    All (KeepsFloor (pos 4)) out.patches × All (KeepsStamp policy) out.status_updates
reconcile_cooldown_example =
    reconcile_cooldown early (reconciler idle_source) utc policy memory arc runner_set (pos 4) refl
      target_early running_early floor_early below_early within_early

late-IsBlind : IsBlind late (reconciler broken_source) policy
unfolding demand_source
late-IsBlind = inr (broken_source, "connection refused", refl, refl)

reconcile_blind_example :
    let out = reconcile late (reconciler broken_source) (found policy) memory in
    (out.patches ≡ []) × (out.cluster ≡ late.cluster) × All (KeepsStamp policy) out.status_updates
reconcile_blind_example = reconcile_blind late (reconciler broken_source) policy memory late-IsBlind

-- Two jobs on linux, the last event at noon.
abbrev feed : EventFeed
feed repo = (("linux", pos 2) ∷ [], noon)

abbrev heard_until : Time
heard_until = time_add noon (active_window late (reconciler idle_source) policy.spec)

heard :
    compute_activity_from_feed late (reconciler idle_source) feed policy
    ≡ some (contribution_of ("linux" ∷ []) (("linux", pos 2) ∷ []), heard_until)
unfolding compute_activity_from_feed active_window time_sub
heard = refl

window_small : active_window late (reconciler idle_source) policy.spec <ℤ pos max_duration
unfolding active_window
window_small = ground arith

-- The window is open at noon for a minute, and closed two minutes later.
abbrev active_policy : Policy
active_policy = record policy {
  status = record (policy.status) { active_until = some (noon + 60 * second) };
}

abbrev expiring : List (World Fields × Policy)
expiring =
    (world_at (pos 4) noon, active_policy)
    ∷ (world_at (pos 4) (noon + 120 * second), active_policy)
    ∷ (world_at (pos 4) (noon + 180 * second), active_policy)
    ∷ []

reconciles-closings_example :
    counted (reconciles (reconciler idle_source) expiring memory)
    ≡ closings (was_open "api-runners" memory) (reconciles (reconciler idle_source) expiring memory)
reconciles-closings_example =
    reconciles-closings (reconciler idle_source) "api-runners" expiring memory
      (refl, (refl, (refl, tt)))

one_expiry : counted (reconciles (reconciler idle_source) expiring memory) ≡ 1
unfolding counted reconciles warmrunners.Controller.Window.expiries reconcile adapter_for
    warmrunners.Policy.kind demand_source warmrunners.Controller.Reconcile.count_error
    warmrunners.Controller.Metrics.emit_active_window_metrics
    warmrunners.Controller.Signals.compute_activity warmrunners.Controller.Signals.feed_of
    warmrunners.Controller.Signals.compute_predicted warmrunners.Controller.Signals.poll_activity
    warmrunners.Controller.Floor.apply_floor warmrunners.Controller.Floor.fold_floor arc_adapter
    warmrunners.Adapter.arc_get_max warmrunners.Adapter.wrap_error warmrunners.Adapter.max_of
    warmrunners.Controller.Floor.cut_to warmrunners.Base.to_i32
    warmrunners.Controller.Floor.raise_to decide warmrunners.Scheduler.clamp schedule_base
    warmrunners.Scheduler.base_from warmrunners.Scheduler.is_active
    warmrunners.Scheduler.contains_day warmrunners.Scheduler.weekday_short
    warmrunners.Scheduler.within_hhmm warmrunners.Scheduler.minutes warmrunners.Base.to_i64
    warmrunners.Base.◌+ℤ◌ warmrunners.Base.◌*ℤ◌ warmrunners.Scheduler.parse_hm
    warmrunners.Scheduler.Sscanf.scan_int warmrunners.Scheduler.Sscanf.skip_space
    warmrunners.Scheduler.Sscanf.is_space warmrunners.Scheduler.Sscanf.scan_signed
    warmrunners.Scheduler.Sscanf.scan_unsigned warmrunners.Scheduler.Sscanf.scan_digits
    warmrunners.Scheduler.Sscanf.expect_colon current_of warmrunners.Adapter.arc_get_floor
    warmrunners.Adapter.floor_of time_sub last_decrease
    warmrunners.Controller.Floor.contribution_or_none
    warmrunners.Controller.Metrics.emit_predicted_jobs_metrics
    warmrunners.Controller.Metrics.emit_jobs_metrics warmrunners.Controller.Metrics.set_jobs
    warmrunners.Activity.builtin_denylist warmrunners.Adapter.arc_gvk
    warmrunners.Adapter.arc_set_floor warmrunners.Base.insert warmrunners.Base.lookup
    warmrunners.Base.Sort.insort warmrunners.Base.Sort.sort warmrunners.Base.contains
    warmrunners.Base.str_lt time_add warmrunners.Controller.Auth.predictor_token
    warmrunners.Controller.Auth.resolve_auth_token warmrunners.Controller.Auth.token_of
    warmrunners.Controller.Floor.applied_floor warmrunners.Controller.Floor.cut_to_backend
    warmrunners.Controller.Floor.snapshot_of warmrunners.Controller.Floor.stamp_decrease
    warmrunners.Controller.Metrics.close_window
    warmrunners.Controller.Metrics.emit_activity_jobs_metrics
    warmrunners.Controller.Metrics.prune_jobs warmrunners.Controller.Metrics.until_before
    warmrunners.Controller.Observed.has_source warmrunners.Controller.Reconcile.count_change
    decided_floor warmrunners.Controller.Reconcile.err_msg
    warmrunners.Controller.Reconcile.err_reason warmrunners.Controller.Reconcile.finish
    warmrunners.Controller.Reconcile.no_source warmrunners.Controller.Reconcile.with_condition
    warmrunners.Controller.Reconcile.with_error warmrunners.Controller.Reconcile.with_leg
    warmrunners.Controller.Reconcile.with_source active_window
    warmrunners.Controller.Signals.activity_enabled compute_activity_from_feed contribution_of
    warmrunners.Controller.Signals.full_denylist warmrunners.Controller.Signals.full_name
    warmrunners.Controller.Signals.label_set_less warmrunners.Controller.Signals.mark_polled
    warmrunners.Controller.Signals.match_from warmrunners.Controller.Signals.poll_window
    warmrunners.Controller.Signals.predictor_enabled warmrunners.Controller.Signals.top_label_sets
    warmrunners.Controller.effective_poll_interval warmrunners.Labels.has_all
    warmrunners.Labels.join_comma warmrunners.Labels.label_set_key
    warmrunners.Labels.labels_superset warmrunners.Labels.split_comma
    warmrunners.Labels.split_label_set_key warmrunners.Labels.uniq_from
one_expiry = refl
