-- ===== src/Controller/Cooldown.antt =====
-- What holds the floor back: the cooldown after a decrease, and a demand source that fails.
use warmrunners.Base.{
  String, ◌≡◌, refl, sym, ap, subst, ◌⊎◌, inl, inr, Bool, false, some, [], arith, ℤ, ◌≤ℤ◌, ◌<ℤ◌, ok,
  err, All, Result-cases, Option-cases,
}
use warmrunners.Clock.{time_sub}
use warmrunners.Policy.{Ref, Policy}
use warmrunners.Scheduler.{Zones, decide}
use warmrunners.Scheduler.Floor.{decide_cooldown}
use warmrunners.Adapter.{Adapter}
use warmrunners.Controller.{Source, Reconciler, World, Memory}
use warmrunners.Controller.Auth.{demand_source}
use warmrunners.Controller.Floor.{current_of, last_decrease, stamp_decrease, apply_floor}
use warmrunners.Controller.Folding.{WithinCap, fold_floor-ge}
use warmrunners.Controller.Reconcile.{
  found, adapter_for, with_condition, finish, no_source, with_source, reconcile,
}

-- The call does not lower the floor.
abbrev pub KeepsFloor : ℤ → Ref × ℤ → Type 0
KeepsFloor current call = current ≤ℤ call.1

-- The status has the time of the last decrease that the policy had.
abbrev pub KeepsStamp : Policy → Policy → Type 0
KeepsStamp pol pol' = pol'.status.last_decrease_time ≡ pol.status.last_decrease_time

-- `with_condition` and its kin change the conditions alone.
module _ {Cluster : Type 0} (world : World Cluster) (ad : Adapter Cluster) (ref : Ref)
    (pol : Policy) where
  apply_floor_raising :
      (demand_ok : Bool) (desired current : ℤ)
      → current ≤ℤ desired
      → let a = apply_floor world ad ref pol demand_ok desired current in
        All (KeepsFloor current) a.calls × (a.decreased_at ≡ pol.status.last_decrease_time)
  unfolding apply_floor stamp_decrease
  apply_floor_raising demand_ok desired current h = ground arith

  apply_floor_blind :
      (desired current : ℤ)
      → let a = apply_floor world ad ref pol false desired current in
        (a.calls ≡ [])
        × (a.after ≡ world.cluster)
        × (a.decreased_at ≡ pol.status.last_decrease_time)
  unfolding apply_floor
  apply_floor_blind desired current = (refl, refl, refl)

stamped : {P Q : Type 0} → P × Q → P × (Q × Unit {0})
stamped (p, q) = (p, (q, tt))

module _ {Cluster : Type 0} (world : World Cluster) (r : Reconciler Cluster) (zones : Zones) where
  reconcile_cooling :
      (pol : Policy) (mem : Memory) (ad : Adapter Cluster) (ref : Ref)
      → r.scheduler ≡ decide zones
      → adapter_for world r pol.spec.target ≡ some (ad, ref)
      → time_sub world.decide_now (last_decrease pol.status.last_decrease_time)
        <ℤ pol.spec.queue_rule.cooldown
      → current_of (ad.get_floor world.cluster ref) ≤ℤ pol.spec.floor.max
      → WithinCap (ad.get_max world.cluster ref) (current_of (ad.get_floor world.cluster ref))
      → let current = current_of (ad.get_floor world.cluster ref) in
        let out = reconcile world r (found pol) mem in
        All (KeepsFloor current) out.patches × All (KeepsStamp pol) out.status_updates
  unfolding reconcile no_source with_source finish with_condition
  reconcile_cooling pol mem ad ref heuristic target running below within =
      elim (Result-cases (demand_source world r pol)) [
        | inl (source, built) ↦
            rw (target, built, reconcile, heuristic)
              (stamped (
                apply_floor_raising world ad ref pol _ _ _ (
                  fold_floor-ge _ _ _ pol.spec.floor.max (ad.get_max world.cluster ref) _
                    (decide_cooldown zones pol.spec world.decide_now _ _ _ running) below within)))
        | inr (e, refused) ↦ rw (target, refused, reconcile) (tt, (refl, tt))
      ]

  -- Under the heuristic scheduler, while the cooldown of the last decrease runs, a reconcile of a policy that
  -- has a backend, and that could read the backend's floor, does not lower this floor where it is at or below
  -- the caps, and records no new decrease.
  pub reconcile_cooldown :
      (pol : Policy) (mem : Memory) (ad : Adapter Cluster) (ref : Ref) (current : ℤ)
      → r.scheduler ≡ decide zones
      → adapter_for world r pol.spec.target ≡ some (ad, ref)
      → time_sub world.decide_now (last_decrease pol.status.last_decrease_time)
        <ℤ pol.spec.queue_rule.cooldown
      → ad.get_floor world.cluster ref ≡ ok current
      → current ≤ℤ pol.spec.floor.max
      → WithinCap (ad.get_max world.cluster ref) current
      → let out = reconcile world r (found pol) mem in
        All (KeepsFloor current) out.patches × All (KeepsStamp pol) out.status_updates
  unfolding current_of
  reconcile_cooldown pol mem ad ref current heuristic target running read below within =
      let same : current ≡ current_of (ad.get_floor world.cluster ref) = ap current_of (sym read) in
      subst
        (λ c.
          All (KeepsFloor c) (reconcile world r (found pol) mem).patches
          × All (KeepsStamp pol) (reconcile world r (found pol) mem).status_updates)
        (sym same)
        (reconcile_cooling pol mem ad ref heuristic target running
          (subst (λ c. c ≤ℤ pol.spec.floor.max) same below)
          (subst (WithinCap (ad.get_max world.cluster ref)) same within))

-- The demand cannot be read: no source can be built, or the source returns an error.
abbrev pub IsBlind : {Cluster : Type 0} → World Cluster → Reconciler Cluster → Policy → Type 0
IsBlind {Cluster} world r pol =
    ((e : String) × (demand_source world r pol ≡ err e))
    ⊎ ((source : Source) × (e : String) × (demand_source world r pol ≡ ok source)
        × (source pol.spec.github.owner pol.spec.github.repository pol.spec.github.labels ≡ err e))

module _ {Cluster : Type 0} (world : World Cluster) (r : Reconciler Cluster) where
  with_source_blind :
      (ad : Adapter Cluster) (ref : Ref) (source : Source) (pol : Policy) (mem : Memory)
      (e : String)
      → source pol.spec.github.owner pol.spec.github.repository pol.spec.github.labels ≡ err e
      → let out = with_source world r ad ref source pol mem in
        (out.patches ≡ []) × (out.cluster ≡ world.cluster) × All (KeepsStamp pol) out.status_updates
  unfolding with_source with_condition
  with_source_blind ad ref source pol mem e failing =
      let (calls, after, stamp) = apply_floor_blind world ad ref pol _ _ in
      rw (failing, with_source) (calls, after, (stamp, tt))

  -- Where the demand cannot be read, the controller calls no `SetFloor`, leaves the backends as they are
  -- and records no decrease.
  pub reconcile_blind :
      (pol : Policy) (mem : Memory)
      → IsBlind world r pol
      → let out = reconcile world r (found pol) mem in
        (out.patches ≡ []) × (out.cluster ≡ world.cluster) × All (KeepsStamp pol) out.status_updates
  unfolding reconcile no_source with_condition
  reconcile_blind pol mem blind = elim (Option-cases (adapter_for world r pol.spec.target)) [
    | inl no_backend ↦ rw (no_backend, reconcile) (refl, refl, tt)
    | inr ((ad, ref), target) ↦ blind_on ad ref target blind
  ]
    where
      blind_on :
          (ad : Adapter Cluster) (ref : Ref)
          → adapter_for world r pol.spec.target ≡ some (ad, ref)
          → IsBlind world r pol
          → let out = reconcile world r (found pol) mem in
            (out.patches ≡ [])
            × (out.cluster ≡ world.cluster)
            × All (KeepsStamp pol) out.status_updates
      blind_on ad ref target (inl (e, refused)) =
          rw (target, refused, reconcile) (refl, refl, (refl, tt))
      blind_on ad ref target (inr (source, e, built, failing)) =
          rw (target, built, reconcile) (with_source_blind ad ref source pol mem e failing)
