-- ===== src/Controller/Floor.antt =====
-- The floor of a reconcile: folded from the signals, and set on the backend.
use warmrunners.Base.{
  Bool, true, false, not, ◌&&◌, Option, none, some, List, [], ◌∷◌, ℤ, pos, Result, ok, err, ltb_ℤ,
  eqb_ℤ, if◌then◌else◌, ◌||◌, is_some, String,
}
use warmrunners.Clock.{Time, zero_time}
use warmrunners.Policy.{Ref, Policy}
use warmrunners.Adapter.{Adapter}
use warmrunners.Controller.{Snapshot, World}
use warmrunners.Controller.Signals.{Contribution, no_contribution}

-- The values beside an error: the sources and the adapters return zero values there.
unfoldable pub snapshot_of : Result Snapshot → Snapshot
snapshot_of (ok s) = s
snapshot_of (err _) = record { queued = pos 0; running = pos 0 }

unfoldable pub current_of : Result ℤ → ℤ
current_of (ok v) = v
current_of (err _) = pos 0

unfoldable pub contribution_or_none : Result Contribution → Contribution
contribution_or_none (ok c) = c
contribution_or_none (err _) = no_contribution

unfoldable pub last_decrease : Option Time → Time
last_decrease none = zero_time
last_decrease (some t) = t

-- `if contrib > dec.DesiredFloor { dec.DesiredFloor = contrib }`
unfoldable pub raise_to : ℤ → ℤ → ℤ
raise_to contrib desired = if ltb_ℤ desired contrib then contrib else desired

-- `if dec.DesiredFloor > cap { dec.DesiredFloor = cap }`
unfoldable pub cut_to : ℤ → ℤ → ℤ
cut_to cap desired = if ltb_ℤ cap desired then cap else desired

-- The clamp to the backend's own cap, where it can be read and is set.
unfoldable pub cut_to_backend : Result (Option ℤ) → ℤ → ℤ
cut_to_backend (ok (some cap)) desired = cut_to cap desired
cut_to_backend (ok none) desired = desired
cut_to_backend (err _) desired = desired

-- The floor from the three signals, in the order of the code.
unfoldable pub fold_floor : ℤ → ℤ → ℤ → ℤ → Result (Option ℤ) → ℤ
unfolding cut_to_backend
fold_floor decided predicted active floor_max backend_max =
    cut_to_backend backend_max (cut_to floor_max (raise_to active (raise_to predicted decided)))

-- `now`, where a decrease has landed.
unfoldable pub stamp_decrease : Bool → Time → Option Time → Option Time
stamp_decrease true now last = some now
stamp_decrease false now last = last

-- What became of the decision: the block that calls `SetFloor`.
pub record Applied (Cluster : Type 0) : Type 0 where
  pub after : Cluster
  pub calls : List (Ref × ℤ)
  pub set_err : Option String
  pub skipped : Bool
  pub decreased_at : Option Time

unfoldable pub apply_floor :
    {Cluster : Type 0}
    → World Cluster
    → Adapter Cluster
    → Ref
    → Policy
    → Bool
    → ℤ
    → ℤ
    → Applied Cluster
apply_floor {Cluster} world ad ref pol demand_ok desired current =
    let last = pol.status.last_decrease_time in
    let kept : Applied Cluster = record {
      after = world.cluster;
      calls = [];
      set_err = none;
      skipped = false;
      decreased_at = last;
    } in
    if demand_ok && not (eqb_ℤ desired current)
    then (if pol.spec.dry_run
        then record kept { skipped = true }
        else elim (ad.set_floor world.cluster ref desired) [
          | ok after ↦ record {
            after = after;
            calls = (ref, desired) ∷ [];
            set_err = none;
            skipped = false;
            decreased_at = stamp_decrease (ltb_ℤ desired current) world.status_now last;
          }
          | err e ↦ record kept { calls = (ref, desired) ∷ []; set_err = some e }
        ])
    else kept

-- `applied`: what is on the backend after the reconcile.
unfoldable pub applied_floor : {Cluster : Type 0} → Bool → Applied Cluster → ℤ → ℤ → ℤ
applied_floor demand_ok a desired current =
    if not demand_ok || is_some a.set_err || a.skipped then current else desired
