-- ===== src/Clock.antt =====
-- Package time, as the code uses it. A time is its count of nanoseconds since the zero time of Go,
-- January 1 of year 1 in UTC; a duration is a signed 64-bit count of nanoseconds.
pub mod Laws
use certplane.Base.{
  ℕ, suc, ◌+◌, ◌-◌, ◌*◌, ◌/◌, ◌^◌, Bool, if◌then◌else◌, leb, ltb, ◌==◌, ◌≡◌, arith,
}
use certplane.Base.Int.{ℤ, pos, negsuc, sub_ℕ, leb_ℤ, ltb_ℤ}

abbrev pub Time : Type 0
Time = ℕ

abbrev pub Duration : Type 0
Duration = ℤ

abbrev pub second : ℕ
second = 1_000_000_000

abbrev pub hour : ℕ
hour = 3_600_000_000_000

-- The largest duration, about 292 years.
abbrev pub max_duration : ℕ
max_duration = 9_223_372_036_854_775_807

-- `t.Sub(u)`, which stops at the ends of int64.
unfoldable pub sub : Time → Time → Duration
sub t u =
    if leb u t
    then pos (if ltb max_duration (t - u) then max_duration else t - u)
    else negsuc (if ltb max_duration (u - t - 1) then max_duration else u - t - 1)

-- `time.Until(t)` at the time `now`.
unfoldable pub until : Time → Time → Duration
unfolding sub
until now t = sub t now

-- `t.IsZero()`
abbrev pub is_zero_time : Time → Bool
is_zero_time t = t == 0

-- `t.Add(-1 * time.Hour)`, which may lie before the zero time.
abbrev pub hour_before : Time → ℤ
hour_before t = sub_ℕ t hour

-- The whole seconds of a time: what RFC 3339 without fractions keeps.
unfoldable pub truncate : Time → Time
truncate t = t / second * second
