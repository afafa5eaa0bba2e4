-- ===== src/Controller/Folding.antt =====
-- The floor that is folded from the schedule, the predictor and the activity.
use warmrunners.Base.{◌≡◌, ◌⊎◌, Option, none, some, arith, ℤ, ◌≤ℤ◌, ◌<ℤ◌, Result, ok, err}
use warmrunners.Clock.{Time, time_sub}
use warmrunners.Policy.{Spec}
use warmrunners.Scheduler.{Zones, Demand, schedule_base, clamp, decide}
use warmrunners.Controller.Floor.{raise_to, cut_to, fold_floor}

-- A floor that the backend accepts, where its cap can be read and is set.
abbrev pub WithinCap : Result (Option ℤ) → ℤ → Type 0
WithinCap (ok (some cap)) v = v ≤ℤ cap
WithinCap (ok none) v = Unit
WithinCap (err _) v = Unit

-- The floor is one of the caps.
abbrev pub IsCap : ℤ → Result (Option ℤ) → ℤ → Type 0
IsCap floor_max (ok (some cap)) v = (v ≡ floor_max) ⊎ (v ≡ cap)
IsCap floor_max (ok none) v = v ≡ floor_max
IsCap floor_max (err _) v = v ≡ floor_max

module _ (decided predicted active floor_max : ℤ) where
  pub fold_floor-WithinCap :
      (m : Result (Option ℤ)) → WithinCap m (fold_floor decided predicted active floor_max m)
  unfolding fold_floor raise_to cut_to
  fold_floor-WithinCap (ok (some cap)) = ground arith
  fold_floor-WithinCap (ok none) = tt
  fold_floor-WithinCap (err e) = tt

  pub fold_floor-le-max :
      (m : Result (Option ℤ)) → fold_floor decided predicted active floor_max m ≤ℤ floor_max
  unfolding fold_floor raise_to cut_to
  fold_floor-le-max (ok (some cap)) = ground arith
  fold_floor-le-max (ok none) = ground arith
  fold_floor-le-max (err e) = ground arith

  -- The folded floor stays below floor.max and the backend's cap, and is the largest of the three
  -- signals, unless it is one of these caps and some signal is above it.
  pub fold_floor-max :
      (m : Result (Option ℤ))
      → let v = fold_floor decided predicted active floor_max m in
        (v ≤ℤ floor_max)
        × WithinCap m v
        × (((decided ≤ℤ v)
              × (predicted ≤ℤ v)
              × (active ≤ℤ v)
              × ((v ≡ decided) ⊎ (v ≡ predicted) ⊎ (v ≡ active)))
            ⊎ (IsCap floor_max m v × ((v <ℤ decided) ⊎ (v <ℤ predicted) ⊎ (v <ℤ active))))
  unfolding fold_floor raise_to cut_to
  fold_floor-max (ok (some cap)) = ground arith
  fold_floor-max (ok none) = ground arith
  fold_floor-max (err e) = ground arith

  pub fold_floor-ge :
      (m : Result (Option ℤ)) (low : ℤ)
      → low ≤ℤ decided
      → low ≤ℤ floor_max
      → WithinCap m low
      → low ≤ℤ fold_floor decided predicted active floor_max m
  unfolding fold_floor raise_to cut_to
  fold_floor-ge (ok (some cap)) low h k l = ground arith
  fold_floor-ge (ok none) low h k l = ground arith
  fold_floor-ge (err e) low h k l = ground arith

raise_to-mono : (c t x : ℤ) → t ≤ℤ x → raise_to c t ≤ℤ raise_to c x
unfolding raise_to
raise_to-mono c t x h = ground arith

raise_to-ge : (c t : ℤ) → t ≤ℤ raise_to c t
unfolding raise_to
raise_to-ge c t = ground arith

cut_to-mono : (c z y : ℤ) → z ≤ℤ y → cut_to c z ≤ℤ cut_to c y
unfolding cut_to
cut_to-mono c z y h = ground arith

cut_to-le : (c y : ℤ) → cut_to c y ≤ℤ c
unfolding cut_to
cut_to-le c y = ground arith

-- A bound on a value bounds the value once it is cut.
cut_to-le-cap : (c v y : ℤ) → y ≤ℤ v → cut_to c y ≤ℤ v
unfolding cut_to
cut_to-le-cap c v y h = ground arith

cut_to-glb : (c v z : ℤ) → v ≤ℤ z → v ≤ℤ c → v ≤ℤ cut_to c z
unfolding cut_to
cut_to-glb c v z h k = ground arith

cut_to-between : (c y z : ℤ) → cut_to c y ≤ℤ z → z ≤ℤ y → cut_to c z ≡ cut_to c y
unfolding cut_to
cut_to-between c y z h k = ground arith

module _ (predicted active floor_max : ℤ) where
  abbrev raised : ℤ → ℤ
  raised x = raise_to active (raise_to predicted x)

  raised-mono : (t x : ℤ) → t ≤ℤ x → raised t ≤ℤ raised x
  raised-mono t x h = raise_to-mono active _ _ (raise_to-mono predicted t x h)

  raised-ge : (t v : ℤ) → v ≤ℤ t → v ≤ℤ raised t
  raised-ge t v h =
      omega (arith, raise_to-ge predicted t, raise_to-ge active (raise_to predicted t))

  fold_floor-again :
      (m : Result (Option ℤ)) (x : ℤ)
      → let v = fold_floor x predicted active floor_max m in
        fold_floor v predicted active floor_max m ≡ v
  unfolding fold_floor raise_to cut_to
  fold_floor-again (ok (some n)) x = ground arith
  fold_floor-again (ok none) x = ground arith
  fold_floor-again (err e) x = ground arith

  -- A floor between the chosen one and the one it was chosen from leads to the same choice.
  fold_floor-between :
      (m : Result (Option ℤ)) (x t : ℤ)
      → fold_floor x predicted active floor_max m ≤ℤ t
      → t ≤ℤ x
      → fold_floor t predicted active floor_max m ≡ fold_floor x predicted active floor_max m
  unfolding fold_floor
  fold_floor-between (ok (some n)) x t h k =
      cut_to-between n _ _
        (cut_to-glb floor_max _ _ (raised-ge t _ h)
          (cut_to-le-cap n _ (cut_to floor_max (raised x)) (cut_to-le floor_max _)))
        (cut_to-mono floor_max _ _ (raised-mono t x k))
  fold_floor-between (ok none) x t h k =
      cut_to-between floor_max _ _ (raised-ge t _ h) (raised-mono t x k)
  fold_floor-between (err e) x t h k =
      cut_to-between floor_max _ _ (raised-ge t _ h) (raised-mono t x k)

module _ (zones : Zones) (spec : Spec) (d d' : Demand) (predicted active current : ℤ) where
  -- One reconcile settles the floor: from the floor that it chose, and while the schedule and the
  -- other signals stay, the next one chooses the same floor again, provided that a cooldown that held
  -- the floor then holds it still.
  pub fold_floor-settles :
      (m : Result (Option ℤ)) (now now' last last' : Time)
      → schedule_base zones spec.schedule now ≡ schedule_base zones spec.schedule now'
      → (time_sub now last <ℤ spec.queue_rule.cooldown
          → time_sub now' last' <ℤ spec.queue_rule.cooldown)
      → let floor_max = spec.floor.max in
        let chosen =
          fold_floor
            (decide zones spec now d current last).desired_floor
            predicted
            active
            floor_max
            m in
        fold_floor
          (decide zones spec now' d' chosen last').desired_floor
          predicted
          active
          floor_max
          m
        ≡ chosen
  unfolding decide
  fold_floor-settles m now now' last last' same held =
      let t = clamp spec.floor.min spec.floor.max (schedule_base zones spec.schedule now) in
      ground (
        arith,
        same,
        fold_floor-again predicted active spec.floor.max m t,
        fold_floor-again predicted active spec.floor.max m current,
        fold_floor-between predicted active spec.floor.max m current t,
      )
