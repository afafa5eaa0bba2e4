-- ===== src/Controller/Applying.antt =====
-- The status says what is on the backend.
use warmrunners.Base.{
  ◌≡◌, refl, sym, ap, ◌∙◌, inl, inr, Bool, true, false, Option, none, some, arith, ℤ, pos,
  to_i32_pos, InI32, Result, ok, err, eqb_ℤ, eqb_ℤ_iff, All, Bool-cases, Result-cases, ltb_ℤ,
}
use warmrunners.Policy.{Ref, Policy}
use warmrunners.Adapter.{Adapter}
use warmrunners.Adapter.Laws.{IsFaithful}
use warmrunners.Controller.{Source, Reconciler, World, Memory}
use warmrunners.Controller.Auth.{demand_source}
use warmrunners.Controller.Signals.{
  Contribution, compute_predicted, compute_activity, poll_activity, compute_activity_from_feed,
}
use warmrunners.Controller.Attribution.{contribution_of-InI32}
use warmrunners.Controller.Floor.{
  current_of, contribution_or_none, fold_floor, raise_to, cut_to, apply_floor, applied_floor,
}
use warmrunners.Controller.Reconcile.{
  found, adapter_for, with_condition, decided_floor, with_source, reconcile,
}

pos_zero-InI32 : InI32 (pos 0)
pos_zero-InI32 = to_i32_pos 0 (ground arith)

abbrev IsInt32 : Result Contribution → Type 0
IsInt32 result = InI32 (contribution_or_none result).contrib

module _ {Cluster : Type 0} (world : World Cluster) (r : Reconciler Cluster) (pol : Policy) where
  compute_predicted-IsInt32 : IsInt32 (compute_predicted world r pol)
  unfolding compute_predicted contribution_or_none
  compute_predicted-IsInt32 = grind (arith, contribution_of-InI32, pos_zero-InI32)

  poll_activity-IsInt32 : IsInt32 (poll_activity world r pol).1
  unfolding poll_activity contribution_or_none
  poll_activity-IsInt32 = grind (arith, contribution_of-InI32, pos_zero-InI32)

  compute_activity-IsInt32 : IsInt32 (compute_activity world r pol).1
  unfolding compute_activity compute_activity_from_feed contribution_or_none
  compute_activity-IsInt32 = grind (arith, poll_activity-IsInt32, contribution_of-InI32)

raise_to-InI32 : (c v : ℤ) → InI32 c → InI32 v → InI32 (raise_to c v)
unfolding raise_to
raise_to-InI32 c v h k = elim (Bool-cases (ltb_ℤ v c)) [ inl e ↦ rw e h | inr e ↦ rw e k ]

cut_to-InI32 : (c v : ℤ) → InI32 c → InI32 v → InI32 (cut_to c v)
unfolding cut_to
cut_to-InI32 c v h k = elim (Bool-cases (ltb_ℤ c v)) [ inl e ↦ rw e h | inr e ↦ rw e k ]

fold_floor-InI32 :
    (decided predicted active floor_max : ℤ) (m : Result (Option ℤ))
    → InI32 decided
    → InI32 predicted
    → InI32 active
    → InI32 floor_max
    → ((cap : ℤ) → m ≡ ok (some cap) → InI32 cap)
    → InI32 (fold_floor decided predicted active floor_max m)
unfolding fold_floor
fold_floor-InI32 d p a f (ok (some c)) hd hp ha hf hm =
    cut_to-InI32 c _ (hm c refl)
      (cut_to-InI32 f _ hf (raise_to-InI32 a _ ha (raise_to-InI32 p d hp hd)))
fold_floor-InI32 d p a f (ok none) hd hp ha hf hm =
    cut_to-InI32 f _ hf (raise_to-InI32 a _ ha (raise_to-InI32 p d hp hd))
fold_floor-InI32 d p a f (err e) hd hp ha hf hm =
    cut_to-InI32 f _ hf (raise_to-InI32 a _ ha (raise_to-InI32 p d hp hd))

module _ {Cluster : Type 0} (world : World Cluster) (ad : Adapter Cluster) (ref : Ref)
    (pol : Policy) where
  -- The applied floor that is computed is on the backend afterwards.
  apply_floor-applied :
      (demand_ok : Bool) (desired current : ℤ)
      → IsFaithful ad
      → InI32 desired
      → ad.get_floor world.cluster ref ≡ ok current
      → let a = apply_floor world ad ref pol demand_ok desired current in
        ad.get_floor a.after ref ≡ ok (applied_floor demand_ok a desired current)
  unfolding apply_floor applied_floor
  apply_floor-applied false desired current faithful small there = there
  apply_floor-applied true desired current faithful small there =
      elim (Bool-cases (eqb_ℤ desired current)) [
        | inl same ↦ rw same (there ∙ ap ok (sym ((eqb_ℤ_iff desired current).0 same)))
        | inr other ↦ rw other (elim (Bool-cases pol.spec.dry_run) [
          | inl dry ↦ rw dry there
          | inr live ↦ rw live (elim (Result-cases (ad.set_floor world.cluster ref desired)) [
            | inl (after, e) ↦ rw e (faithful.get-set world.cluster after ref desired small e)
            | inr (m, e) ↦ rw e there
          ])
        ])
      ]

-- The status of a policy says what the backend holds.
abbrev pub IsTruthful : {Cluster : Type 0} → Adapter Cluster → Ref → Cluster → Policy → Type 0
IsTruthful ad ref after pol = ad.get_floor after ref ≡ ok pol.status.applied_floor

module _ {Cluster : Type 0} (world : World Cluster) (r : Reconciler Cluster) where
  -- Where a demand source could be built, the backend is faithful and its floor could be read, and the
  -- scheduler's floor and floor.max are int32, the status that the reconcile writes names as the applied
  -- floor the floor that the backend then holds: after a patch, after a failed patch, in a dry run and
  -- on a demand error alike.
  pub reconcile-IsTruthful :
      (pol : Policy) (mem : Memory) (ad : Adapter Cluster) (ref : Ref) (source : Source)
      (current : ℤ)
      → adapter_for world r pol.spec.target ≡ some (ad, ref)
      → demand_source world r pol ≡ ok source
      → IsFaithful ad
      → ad.get_floor world.cluster ref ≡ ok current
      → InI32 (decided_floor world r ad ref source pol)
      → InI32 pol.spec.floor.max
      → let out = reconcile world r (found pol) mem in
        All (IsTruthful ad ref out.cluster) out.status_updates
  unfolding reconcile with_source with_condition current_of
  reconcile-IsTruthful pol mem ad ref source current target built faithful there small small_max =
      rw (target, built, reconcile)
        (rw (there, with_source)
          ((
            apply_floor-applied world ad ref pol _ _ current faithful
                (fold_floor-InI32 _ _ _ pol.spec.floor.max (ad.get_max world.cluster ref) small
                  (compute_predicted-IsInt32 world r _) (compute_activity-IsInt32 world r _)
                  small_max (λ cap e. faithful.max_range world.cluster ref cap e))
                there,
            tt,
          )))
