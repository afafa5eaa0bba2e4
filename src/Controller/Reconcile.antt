-- ===== src/Controller/Reconcile.antt =====
-- `Reconcile` of the policy controller.
use mathlib.Core.Option
use warmrunners.Base.{
  ◌==◌, String, Bool, true, false, not, ◌&&◌, Option, none, some, List, [], ◌∷◌, ◌++◌, ℤ, pos,
  Result, ok, err, error_of, ltb_ℤ, if◌then◌else◌, is_some,
}
use warmrunners.Clock.{Duration}
use warmrunners.Policy.{Ref, Target, Policy, kind}
use warmrunners.Adapter.{Adapter}
use warmrunners.Controller.{
  Source, Reconciler, World, Memory, Metric, set_gauge, count, effective_poll_interval,
}
use warmrunners.Controller.Auth.{demand_source}
use warmrunners.Controller.Floor.{
  snapshot_of, current_of, contribution_or_none, last_decrease, fold_floor, apply_floor,
  applied_floor,
}
use warmrunners.Controller.Signals.{
  Contribution, compute_predicted, compute_activity, predictor_enabled, activity_enabled,
}
use warmrunners.Controller.Metrics.{
  emit_active_window_metrics, emit_predicted_jobs_metrics, emit_activity_jobs_metrics,
}

-- `r.Get` of the policy.
pub data Got : Type 0 where
  found : Policy → Got
  not_found : Got
  failed : String → Got

-- What a reconcile did: the calls of `SetFloor` and of `Status().Update` in their order, the cluster
-- and the memory that it left, the metrics, and its result, a requeue interval or an error.
pub record Outcome (Cluster : Type 0) : Type 0 where
  pub patches : List (Ref × ℤ)
  pub cluster : Cluster
  pub status_updates : List Policy
  pub memory : Memory
  pub metrics : List Metric
  pub result : Result Duration

unfoldable pub err_reason : Option String → String
err_reason none = "OK"
err_reason (some _) = "Error"

unfoldable pub err_msg : Option String → String
err_msg none = ""
err_msg (some e) = e

-- One metric where the error is not nil.
unfoldable pub count_error : String → String → Option String → List Metric
count_error policy kind none = []
count_error policy kind (some _) = count "reconcile_errors" (policy ∷ kind ∷ []) ∷ []

module _ {Cluster : Type 0} (world : World Cluster) (r : Reconciler Cluster) where
  -- `setCondition`
  unfoldable pub with_condition : String → Bool → String → String → Policy → Policy
  with_condition ctype good reason msg pol = record pol {
    status = record (pol.status) {
      conditions = world.set_status_condition pol.status.conditions (record {
        kind = ctype;
        status = good;
        reason = reason;
        message = msg;
        observed_generation = pol.generation;
      });
    };
  }

  -- The condition of an error: True where it is nil.
  unfoldable pub with_error : String → Option String → Policy → Policy
  unfolding with_condition
  with_error ctype e pol = with_condition ctype (not (is_some e)) (err_reason e) (err_msg e) pol

  -- The condition of the predictor or the activity leg: untouched where the leg is off.
  unfoldable pub with_leg : String → String → Bool → Result Contribution → Policy → Policy
  unfolding with_condition
  with_leg ctype failure on (err e) pol = with_condition ctype false failure e pol
  with_leg ctype failure on (ok c) pol =
      if on then with_condition ctype true "Available" "" pol else pol

  -- `adapterFor`
  unfoldable pub adapter_for : Target → Option (Adapter Cluster × Ref)
  adapter_for t = elim r.adapter_func [
    | some choose ↦ choose t
    | none ↦
        if kind t == "arc"
        then Option.map (λ ref. (world.arc, ref)) t.arc
        else if kind t == "garm"
        then Option.map (λ ref. (world.garm, ref)) t.garm
        else none
  ]

  -- The end of a reconcile: the status update, and the requeue or its error.
  unfoldable pub finish : Policy → List (Ref × ℤ) → Cluster → Memory → List Metric → Outcome Cluster
  finish pol patches after mem metrics =
      let e = world.update_status pol in
      record {
        patches = patches;
        cluster = after;
        status_updates = pol ∷ [];
        memory = mem;
        metrics = metrics ++ count_error pol.name "status_update" e;
        result = elim e [ none ↦ ok (effective_poll_interval pol) | some msg ↦ err msg ];
      }

  -- The branch for a demand source that could not be built.
  unfoldable pub no_source : Policy → String → Memory → Outcome Cluster
  unfolding with_error finish
  no_source pol e mem =
      let pol' = with_error "DemandSourceAvailable" (some e) pol in
      finish
        (record pol' {
          status = record (pol'.status) { last_reconcile_time = some world.status_now };
        })
        [] world.cluster mem (count_error pol.name "demand_source" (some e))

  -- `floorChanges`
  unfoldable pub count_change : String → Bool → ℤ → ℤ → List Metric
  count_change policy good desired current =
      if good
      then (if ltb_ℤ current desired
          then count "floor_changes" (policy ∷ "up" ∷ []) ∷ []
          else if ltb_ℤ desired current
          then count "floor_changes" (policy ∷ "down" ∷ []) ∷ []
          else [])
      else []

  -- `r.Scheduler.Decide` on what was observed.
  unfoldable pub decided_floor : Adapter Cluster → Ref → Source → Policy → ℤ
  decided_floor ad ref source pol =
      let load =
        snapshot_of
          (source pol.spec.github.owner pol.spec.github.repository pol.spec.github.labels) in
      (r.scheduler pol.spec world.decide_now
        (record { queued = load.queued; running = load.running })
        (current_of (ad.get_floor world.cluster ref))
        (last_decrease pol.status.last_decrease_time)).desired_floor

  -- The rest of `Reconcile`, behind the demand source.
  unfoldable pub with_source : Adapter Cluster → Ref → Source → Policy → Memory → Outcome Cluster
  unfolding with_error with_leg finish decided_floor
  with_source ad ref source pol mem =
      let snap = source pol.spec.github.owner pol.spec.github.repository pol.spec.github.labels in
      let demand_err = error_of snap in
      let demand_ok = not (is_some demand_err) in
      let pol1 = with_error "DemandSourceAvailable" demand_err pol in
      let current = current_of (ad.get_floor world.cluster ref) in
      let load = snapshot_of snap in
      let predicted = compute_predicted world r pol1 in
      let pol2 =
        with_leg "PredictorAvailable" "PredictError"
          (is_some r.predictor && predictor_enabled pol.spec) predicted pol1 in
      let (status3, active) = compute_activity world r pol2 in
      let (window_metrics, mem1) =
        emit_active_window_metrics world (record pol2 { status = status3 }) mem in
      let pol3 =
        with_leg "ActivityAvailable" "SampleError" (is_some r.activity && activity_enabled pol.spec)
          active (record pol2 { status = status3 }) in
      let p = contribution_or_none predicted in
      let a = contribution_or_none active in
      let desired =
        fold_floor (decided_floor ad ref source pol) p.contrib a.contrib pol.spec.floor.max
          (ad.get_max world.cluster ref) in
      let done = apply_floor world ad ref pol demand_ok desired current in
      let pol4 =
        with_condition "DryRun" pol.spec.dry_run (if pol.spec.dry_run then "Active" else "Inactive")
          "" (with_error "AdapterAvailable" done.set_err pol3) in
      let applied = applied_floor demand_ok done desired current in
      let pol5 = record pol4 {
        status = record (pol4.status) {
          desired_floor = desired;
          applied_floor = applied;
          dry_run = pol.spec.dry_run;
          last_queue_depth = load.queued;
          last_reconcile_time = some world.status_now;
          last_decrease_time = done.decreased_at;
          predicted_floor = p.contrib;
          predicted_label_sets = p.matched;
          activity_floor = a.contrib;
          activity_label_sets = a.matched;
        };
      } in
      let (predicted_metrics, mem2) = emit_predicted_jobs_metrics pol.name p.per_label_set mem1 in
      let (activity_metrics, mem3) = emit_activity_jobs_metrics pol.name a.per_label_set mem2 in
      let names = pol.name ∷ kind pol.spec.target ∷ [] in
      finish pol5 done.calls done.after mem3 (
        count_error pol.name "demand_source" demand_err
        ++ window_metrics
        ++ (if done.skipped then count "dry_run_skipped_patches" (pol.name ∷ []) ∷ [] else [])
        ++ count_error pol.name "adapter" done.set_err
        ++ (set_gauge "desired_floor" names desired
            ∷ set_gauge "applied_floor" names applied
            ∷ set_gauge "queue_depth" (pol.name ∷ []) load.queued
            ∷ set_gauge "predicted_floor" (pol.name ∷ []) p.contrib
            ∷ [])
        ++ predicted_metrics
        ++ (set_gauge "activity_floor" (pol.name ∷ []) a.contrib ∷ [])
        ++ activity_metrics
        ++ count_change pol.name (demand_ok && not (is_some done.set_err)) desired current)

  -- A reconcile that does nothing.
  abbrev idle : Memory → Result Duration → Outcome Cluster
  idle mem result = record {
    patches = [];
    cluster = world.cluster;
    status_updates = [];
    memory = mem;
    metrics = [];
    result = result;
  }

  unfoldable pub reconcile : Got → Memory → Outcome Cluster
  unfolding no_source with_source
  reconcile not_found mem = idle mem (ok (pos 0))
  reconcile (failed e) mem = idle mem (err e)
  reconcile (found pol) mem = elim (adapter_for pol.spec.target) [
    | none ↦ idle mem (ok (pos 0))
    | some (ad, ref) ↦ elim (demand_source world r pol) [
      | err e ↦ no_source pol e mem
      | ok source ↦ with_source ad ref source pol mem
    ]
  ]
