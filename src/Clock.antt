-- ===== src/Clock.antt =====
-- `time.Time` and `time.Duration`, as the program uses them: an instant is its nanoseconds since the
-- zero `time.Time` (January 1 of year 1), a duration an int64 count of nanoseconds.
use warmrunners.Base.{
  ℕ, ◌+◌, ◌-◌, ◌≤◌, ◌<◌, Bool, arith, if◌then◌else◌, leb, nat_eq, ℤ, pos, negsuc, pos_part,
  neg_part, sub_ℕ, ◌<ℤ◌,
}

abbrev pub Time : Type 0
Time = ℕ

abbrev pub Duration : Type 0
Duration = ℤ

-- the zero `time.Time`
abbrev pub zero_time : Time
zero_time = 0

abbrev pub is_zero : Time → Bool
is_zero t = nat_eq t 0

abbrev pub second : ℕ
second = 1000000000

abbrev pub max_duration : ℕ
max_duration = 9223372036854775807

-- `t.Sub(u)`: the result saturates at the ends of int64.
unfoldable pub time_sub : Time → Time → Duration
time_sub t u =
    if leb u t
    then (if leb (t - u) max_duration then pos (t - u) else pos max_duration)
    else if leb (u - t) max_duration
    then sub_ℕ t u
    else negsuc max_duration

-- `t.Add(d)`, for results that are not before year 1
unfoldable pub time_add : Time → Duration → Time
time_add t d = t + pos_part d - neg_part d

-- Within the reach of int64, `t.Sub(u) < d` says that `t` is before `u + d`.
pub time_sub-lt : (t u d : ℕ) → d ≤ max_duration → time_sub t u <ℤ pos d → t < u + d
unfolding time_sub
time_sub-lt t u d h k = ground arith
