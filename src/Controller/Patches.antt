-- ===== src/Controller/Patches.antt =====
-- When the controller patches a backend, and with what.
use warmrunners.Base.{
  ◌≡◌, ◌≢◌, refl, ok, subst, ◌⊎◌, inl, inr, ◌≤◌, Bool, true, false, some, List, [], ◌∷◌, arith, ℤ,
  ◌≤ℤ◌, eqb_ℤ, eqb_ℤ_iff, All, length, Result-cases,
}
use warmrunners.Policy.{Ref, Policy}
use warmrunners.Adapter.{Adapter}
use warmrunners.Controller.{Source, Reconciler, World, Memory}
use warmrunners.Controller.Auth.{demand_source}
use warmrunners.Controller.Floor.{current_of, apply_floor}
use warmrunners.Controller.Folding.{WithinCap, fold_floor-WithinCap, fold_floor-le-max}
use warmrunners.Controller.Reconcile.{found, adapter_for, no_source, with_source, reconcile}

-- A call of `SetFloor` that is allowed: on the policy's backend, within both caps, where that of the
-- backend was read, never in a dry run, and never with the floor that was read.
pub record IsAllowed {Cluster : Type 0} (world : World Cluster) (ad : Adapter Cluster) (ref : Ref)
    (pol : Policy) (call : Ref × ℤ) : Type 0 where
  pub on_target : call.0 ≡ ref
  pub below_max : call.1 ≤ℤ pol.spec.floor.max
  pub below_cap : (cap : ℤ) → ad.get_max world.cluster ref ≡ ok (some cap) → call.1 ≤ℤ cap
  pub live : pol.spec.dry_run ≡ false
  pub changes : (floor : ℤ) → ad.get_floor world.cluster ref ≡ ok floor → call.1 ≢ floor

module _ {Cluster : Type 0} (world : World Cluster) (ad : Adapter Cluster) (ref : Ref)
    (pol : Policy) where
  -- The one call, or none.
  apply_floor-calls :
      (demand_ok : Bool) (desired current : ℤ)
      → let calls = (apply_floor world ad ref pol demand_ok desired current).calls in
        (calls ≡ [])
        ⊎ ((calls ≡ (ref, desired) ∷ [])
            × (demand_ok ≡ true)
            × (pol.spec.dry_run ≡ false)
            × (eqb_ℤ desired current ≡ false))
  unfolding apply_floor
  apply_floor-calls demand_ok desired current = ground arith

  changed :
      {desired : ℤ} (floor : ℤ)
      → ad.get_floor world.cluster ref ≡ ok floor
      → eqb_ℤ desired (current_of (ad.get_floor world.cluster ref)) ≡ false
      → desired ≢ floor
  unfolding current_of
  changed {desired} floor read changes same = cc (
    subst (λ f. eqb_ℤ desired (current_of f) ≡ false) read changes,
    (eqb_ℤ_iff desired floor).1 same,
  )

  allowed :
      (calls : List (Ref × ℤ)) (demand_ok : Bool) (desired : ℤ)
      → desired ≤ℤ pol.spec.floor.max
      → WithinCap (ad.get_max world.cluster ref) desired
      → (calls ≡ [])
        ⊎ ((calls ≡ (ref, desired) ∷ [])
            × (demand_ok ≡ true)
            × (pol.spec.dry_run ≡ false)
            × (eqb_ℤ desired (current_of (ad.get_floor world.cluster ref)) ≡ false))
      → All (IsAllowed world ad ref pol) calls × (length calls ≤ 1)
  allowed calls demand_ok desired below within (inl e) = rw e (tt, omega arith)
  allowed calls demand_ok desired below within (inr (e, good, live, changes)) = rw e (
    (
      record {
        on_target = refl;
        below_max = below;
        below_cap = λ cap read. subst (λ m. WithinCap m desired) read within;
        live = live;
        changes = λ floor read same. changed floor read changes same;
      },
      tt,
    ),
    omega arith,
  )

module _ {Cluster : Type 0} (world : World Cluster) (r : Reconciler Cluster) where
  with_source-IsAllowed :
      (ad : Adapter Cluster) (ref : Ref) (source : Source) (pol : Policy) (mem : Memory)
      → let calls = (with_source world r ad ref source pol mem).patches in
        All (IsAllowed world ad ref pol) calls × (length calls ≤ 1)
  unfolding with_source
  with_source-IsAllowed ad ref source pol mem =
      allowed world ad ref pol _ _ _
        (fold_floor-le-max _ _ _ pol.spec.floor.max (ad.get_max world.cluster ref))
        (fold_floor-WithinCap _ _ _ pol.spec.floor.max (ad.get_max world.cluster ref))
        (apply_floor-calls world ad ref pol _ _ _)

  -- For a policy that has a backend, a reconcile calls `SetFloor` at most once, and only as it is allowed
  -- to: on this backend, outside a dry run, at or below floor.max, at or below the backend's cap where
  -- this could be read and is set, and, where the backend's floor could be read, with another floor.
  pub reconcile-IsAllowed :
      (pol : Policy) (mem : Memory) (ad : Adapter Cluster) (ref : Ref)
      → adapter_for world r pol.spec.target ≡ some (ad, ref)
      → let calls = (reconcile world r (found pol) mem).patches in
        All (IsAllowed world ad ref pol) calls × (length calls ≤ 1)
  unfolding reconcile no_source
  reconcile-IsAllowed pol mem ad ref target = elim (Result-cases (demand_source world r pol)) [
    | inl (source, built) ↦
        rw (target, built, reconcile) (with_source-IsAllowed ad ref source pol mem)
    | inr (e, refused) ↦ rw (target, refused, reconcile) (tt, omega arith)
  ]
