-- ===== src/Scheduler.antt =====
-- The heuristic scheduler: internal/scheduler/heuristic.go and scheduler.go.
pub mod Sscanf
pub mod Hours
pub mod Windows
pub mod Floor
use warmrunners.Base.{
  ◌*◌, String, Bool, true, false, ◌&&◌, List, [], ◌∷◌, Option, none, some, if◌then◌else◌, ◌==◌,
  contains, ℤ, pos, ◌+ℤ◌, ◌*ℤ◌, ltb_ℤ, leb_ℤ, to_i64, ℕ,
}
use warmrunners.Clock.{Time, Duration, time_sub}
use warmrunners.Policy.{ScheduleWindow, Spec}
use Sscanf.{scan_int, expect_colon}

pub data Weekday : Type 0 where
  sunday monday tuesday wednesday thursday friday saturday : Weekday

-- `weekdayShort`
unfoldable pub weekday_short : Weekday → String
weekday_short sunday = "Sun"
weekday_short monday = "Mon"
weekday_short tuesday = "Tue"
weekday_short wednesday = "Wed"
weekday_short thursday = "Thu"
weekday_short friday = "Fri"
weekday_short saturday = "Sat"

-- What is read of a `time.Time` in a location.
pub record LocalTime : Type 0 where
  pub weekday : Weekday
  pub hour : ℕ
  pub minute : ℕ

-- The time-zone database: `time.LoadLocation`, and `now.In(loc)` of a location that it knows.
abbrev pub Zones : Type 0
Zones = String → Option (Time → LocalTime)

-- The loop of `containsDay`.
unfoldable pub contains_day : List String → String → Bool
contains_day [] today = false
contains_day (d ∷ days) today = if d == today then true else contains_day days today

-- `parseHM`: what `fmt.Sscanf(s, "%d:%d", &h, &m)` leaves in `h` and `m`; its error is dropped.
unfoldable pub parse_hm : String → ℤ × ℤ
parse_hm s = elim (scan_int s) [
  | none ↦ (pos 0, pos 0)
  | some (h, rest) ↦ elim (expect_colon rest) [
    | none ↦ (h, pos 0)
    | some rest' ↦ elim (scan_int rest') [ none ↦ (h, pos 0) | some (m, _) ↦ (h, m) ]
  ]
]

-- `h*60 + m` on Go's int
unfoldable pub minutes : ℤ × ℤ → ℤ
minutes (h, m) = to_i64 (to_i64 (h *ℤ pos 60) +ℤ m)

unfoldable pub within_hhmm : LocalTime → String → String → Bool
within_hhmm t from to =
    let now_min = minutes (pos t.hour, pos t.minute) in
    let from_min = minutes (parse_hm from) in
    let to_min = minutes (parse_hm to) in leb_ℤ from_min now_min && ltb_ℤ now_min to_min

-- The tests of one round of `scheduleBase`: an unknown zone skips the window.
unfoldable pub is_active : Zones → Time → ScheduleWindow → Bool
is_active zones now w = elim (zones w.tz) [
  | none ↦ false
  | some loc ↦
      let local = loc now in
      if contains_day w.days (weekday_short local.weekday)
      then within_hhmm local w.from w.to
      else false
]

-- The loop of `scheduleBase`.
unfoldable pub base_from : Zones → Time → ℤ → List ScheduleWindow → ℤ
base_from zones now best [] = best
base_from zones now best (w ∷ windows) =
    base_from zones now
      (if is_active zones now w then (if ltb_ℤ best w.base then w.base else best) else best) windows

unfoldable pub schedule_base : Zones → List ScheduleWindow → Time → ℤ
schedule_base zones windows now = base_from zones now (pos 0) windows

pub record Demand : Type 0 where
  pub queued : ℤ
  pub running : ℤ

pub record Decision : Type 0 where
  pub desired_floor : ℤ

-- The two clamps of `Decide`, in its order.
unfoldable pub clamp : ℤ → ℤ → ℤ → ℤ
clamp low high desired =
    let raised = if ltb_ℤ desired low then low else desired in
    if ltb_ℤ high raised then high else raised

unfoldable pub decide : Zones → Spec → Time → Demand → ℤ → Time → Decision
decide zones spec now d current_applied last_decrease_at =
    let desired = clamp spec.floor.min spec.floor.max (schedule_base zones spec.schedule now) in
    record {
      desired_floor =
          if ltb_ℤ desired current_applied
          then (if ltb_ℤ (time_sub now last_decrease_at) spec.queue_rule.cooldown
              then current_applied
              else desired)
          else desired;
    }
