-- ===== src/Scheduler/Floor.antt =====
-- The floor that the scheduler decides: its range, and the cooldown.
use warmrunners.Base.{◌≡◌, ◌⊎◌, arith, ℤ, ◌≤ℤ◌, ◌<ℤ◌}
use warmrunners.Clock.{Time, time_sub}
use warmrunners.Policy.{Spec}
use warmrunners.Scheduler.{Zones, Demand, schedule_base, clamp, decide}

module _ (zones : Zones) (spec : Spec) (now : Time) (d : Demand) (current : ℤ) (last : Time) where
  abbrev target : ℤ
  target = clamp spec.floor.min spec.floor.max (schedule_base zones spec.schedule now)

  abbrev decided : ℤ
  decided = (decide zones spec now d current last).desired_floor

  -- The decision lies within floor.min and floor.max, unless it is the current floor, held above
  -- floor.max by the cooldown; here floor.min is at most floor.max.
  pub decide_range :
      spec.floor.min ≤ℤ spec.floor.max
      → (spec.floor.min ≤ℤ decided) × ((decided ≤ℤ spec.floor.max) ⊎ (decided ≡ current))
  unfolding decide clamp
  decide_range h = ground arith

  -- Within the cooldown of the last decrease the floor is not lowered.
  pub decide_cooldown : time_sub now last <ℤ spec.queue_rule.cooldown → current ≤ℤ decided
  unfolding decide
  decide_cooldown h = ground arith
