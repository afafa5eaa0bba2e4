-- ===== src/Scheduler/Windows.antt =====
-- What the schedule contributes to the floor.
use warmrunners.Base.{
  ◌≡◌, refl, ◌⊎◌, inl, true, List, [], ◌∷◌, arith, if◌then◌else◌, ℤ, pos, ◌≤ℤ◌, ltb_ℤ,
}
use warmrunners.Clock.{Time}
use warmrunners.Policy.{ScheduleWindow}
use warmrunners.Scheduler.{Zones, is_active, base_from, schedule_base}

module _ (zones : Zones) (now : Time) where
  -- No active window asks for more than `v`.
  abbrev pub BoundsActive : ℤ → List ScheduleWindow → Type 0
  BoundsActive v [] = Unit
  BoundsActive v (w ∷ windows) =
      (is_active zones now w ≡ true → w.base ≤ℤ v) × BoundsActive v windows

  -- Some active window asks for `v`.
  abbrev pub SomeActive : ℤ → List ScheduleWindow → Type 0
  SomeActive v [] = ⊥
  SomeActive v (w ∷ windows) =
      ((is_active zones now w ≡ true) × (w.base ≡ v)) ⊎ SomeActive v windows

  -- Where the loop goes on from after a window.
  abbrev next : ℤ → ScheduleWindow → ℤ
  next best w = if is_active zones now w then (if ltb_ℤ best w.base then w.base else best) else best

  base_from-ge :
      (best : ℤ) (windows : List ScheduleWindow) → best ≤ℤ base_from zones now best windows
  unfolding base_from
  base_from-ge best [] = ground arith
  base_from-ge best (w ∷ windows) = ground (arith, base_from-ge (next best w) windows)

  base_from-BoundsActive :
      (best : ℤ) (windows : List ScheduleWindow)
      → BoundsActive (base_from zones now best windows) windows
  unfolding base_from
  base_from-BoundsActive best [] = tt
  base_from-BoundsActive best (w ∷ windows) = (
    λ h. ground (arith, base_from-ge (next best w) windows),
    base_from-BoundsActive (next best w) windows,
  )

  base_from-attained :
      (best : ℤ) (windows : List ScheduleWindow)
      → (base_from zones now best windows ≡ best)
        ⊎ SomeActive (base_from zones now best windows) windows
  unfolding base_from
  base_from-attained best [] = inl refl
  base_from-attained best (w ∷ windows) = ground (arith, base_from-attained (next best w) windows)

  -- The schedule asks for the largest base of the windows that are active now, and for 0 where none is
  -- or none asks for more.
  pub schedule_base-max :
      (windows : List ScheduleWindow)
      → BoundsActive (schedule_base zones windows now) windows
        × (pos 0 ≤ℤ schedule_base zones windows now)
        × ((schedule_base zones windows now ≡ pos 0)
            ⊎ SomeActive (schedule_base zones windows now) windows)
  unfolding schedule_base
  schedule_base-max windows = (
    base_from-BoundsActive (pos 0) windows,
    base_from-ge (pos 0) windows,
    base_from-attained (pos 0) windows,
  )
