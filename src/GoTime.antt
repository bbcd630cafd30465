-- ===== src/GoTime.antt =====
-- Go's package time, as far as the program uses it: instants in nanoseconds, fixed zones, the
-- Gregorian calendar, `Sub`, `After`, `Date`, `AddDate` and `Weekday`.
--
-- Years and instants are counted from 1 January of the year -400, 00:00 UTC, a whole number of
-- 400-year cycles before the year 0, so that both are natural numbers; package time counts its
-- absolute years in the same way. A zone is a fixed offset, which the program's only zones, UTC and
-- UTC-4, are.
pub mod Year
pub mod Months
pub mod Calendar
pub mod Instant
pub mod DateOnly
use ve_xchange_api.Prelude.{
  ℕ, ◌+◌, ◌-◌, ◌*◌, ◌/◌, ◌%◌, ◌^◌, Bool, not, ◌&&◌, ◌||◌, ltb, leb, ◌==◌, if◌then◌else◌,
}
use ve_xchange_api.Prelude.Int.{ℤ, pos, negsuc, sub_ℕ, ltb_ℤ}

-- `time.Second`, `time.Minute`, `time.Hour` and a day of 24 hours, in nanoseconds.
abbrev pub second : ℕ
second = 1_000_000_000

abbrev pub minute : ℕ
minute = 60_000_000_000

abbrev pub hour : ℕ
hour = 3_600_000_000_000

abbrev pub day_length : ℕ
day_length = 86_400_000_000_000

-- The year that Go writes `y`, counted from -400.
abbrev pub absolute_year : ℕ → ℕ
absolute_year y = y + 400

unfoldable pub is_leap : ℕ → Bool
is_leap y = (y % 4 == 0) && (not (y % 100 == 0) || (y % 400 == 0))

-- The days before 1 January of year `y`.
unfoldable pub days_before_year : ℕ → ℕ
days_before_year y = 365 * y + (y + 3) / 4 + (y + 399) / 400 - (y + 99) / 100

pub days_in_year : ℕ → ℕ
days_in_year y = if is_leap y then 366 else 365

-- Months of 31 and of 30 days take turns, but for February, and July and August are both of 31.
unfoldable pub days_in_month : ℕ → ℕ → ℕ
days_in_month y m = if m == 2 then (if is_leap y then 29 else 28) else 30 + (m + m / 8) % 2

-- The days of year `y` before its month `m`, for m from 1 to 12.
unfoldable pub days_before_month : ℕ → ℕ → ℕ
days_before_month y m =
    if leb m 2 then 31 * (m - 1) else (if is_leap y then 60 else 59) + (153 * (m - 3) + 2) / 5

pub record CivilDate : Type 0 where
  pub year : ℕ
  pub month : ℕ
  pub day : ℕ

abbrev pub civil : ℕ → ℕ → ℕ → CivilDate
civil y m d = record { year = y; month = m; day = d }

-- The number of the day that `time.Date` reaches from a year, a month from 1 to 12 and any day: a
-- day past the month's end runs on into the next month, and day 0 is the last of the month before.
unfoldable pub day_number : CivilDate → ℕ
day_number t = days_before_year t.year + days_before_month t.year t.month + t.day - 1

-- The year that holds day `n`: an estimate from the mean year, mended by at most one.
unfoldable pub year_of_day : ℕ → ℕ
year_of_day n =
    let y = n * 400 / 146097 in
    if ltb n (days_before_year y)
    then y - 1
    else if leb (days_before_year (y + 1)) n
    then y + 1
    else y

-- The month and day on the day `z` of year `y`, from 0.
unfoldable pub month_of_day : ℕ → ℕ → CivilDate
month_of_day y z =
    let winter = if is_leap y then 60 else 59 in
    if ltb z winter
    then civil y (z / 31 + 1) (z % 31 + 1)
    else let m = (5 * (z - winter) + 2) / 153 in
      civil y (m + 3) (z - winter - (153 * m + 2) / 5 + 1)

-- `Year`, `Month` and `Day` of a day number.
unfoldable pub civil_of_day : ℕ → CivilDate
civil_of_day n = month_of_day (year_of_day n) (n - days_before_year (year_of_day n))

-- Days of the week from `time.Sunday`; day 0 is a Saturday, as 1 January 2000 is.
abbrev pub sunday : ℕ
sunday = 0

abbrev pub saturday : ℕ
saturday = 6

unfoldable pub weekday_of_day : ℕ → ℕ
weekday_of_day n = (n + 6) % 7

-- A zone is some seconds east of UTC, or west.
pub record Location : Type 0 where
  pub east : ℕ
  pub west : ℕ

abbrev pub utc : Location
utc = record { east = 0; west = 0 }

-- A `time.Time`: an instant, in nanoseconds, and the zone that it is shown in.
pub record Time : Type 0 where
  pub ns : ℕ
  pub loc : Location

-- `t.In(loc)`
abbrev pub in_loc : Location → Time → Time
in_loc l t = record t { loc = l }

-- The reading of the wall clock at `t` in its zone. An instant of the first day of the count may lie
-- before the zone's count begins, and `IsCounted` excludes it.
unfoldable pub wall : Time → ℕ
wall t = t.ns + t.loc.east * second - t.loc.west * second

abbrev pub at_wall : Location → ℕ → Time
at_wall l w = record { ns = w + l.west * second - l.east * second; loc = l }

unfoldable pub date_of : Time → CivilDate
date_of t = civil_of_day (wall t / day_length)

unfoldable pub weekday : Time → ℕ
unfolding weekday_of_day
weekday t = weekday_of_day (wall t / day_length)

-- `time.Date(year, month, day, hour, min, 0, 0, loc)`
unfoldable pub date : CivilDate → ℕ → ℕ → Location → Time
date c h m l = at_wall l (day_number c * day_length + h * hour + m * minute)

-- `t.AddDate(0, 0, n)` and `t.AddDate(0, 0, -n)`: the same reading on another day, so 24 hours a day
-- in a zone with a fixed offset.
unfoldable pub add_days : ℕ → Time → Time
add_days n t = record t { ns = t.ns + n * day_length }

unfoldable pub sub_days : ℕ → Time → Time
sub_days n t = record t { ns = t.ns - n * day_length }

unfoldable pub after : Time → Time → Bool
after a b = ltb b.ns a.ns

unfoldable pub before : Time → Time → Bool
before a b = ltb a.ns b.ns

-- A `time.Duration` is an `int64` of nanoseconds, and `Sub` stops at its ends.
abbrev pub max_duration : ℤ
max_duration = pos (2 ^ 63 - 1)

abbrev pub min_duration : ℤ
min_duration = negsuc (2 ^ 63 - 1)

unfoldable pub saturate : ℤ → ℤ
saturate d =
    if ltb_ℤ max_duration d then max_duration else if ltb_ℤ d min_duration then min_duration else d

unfoldable pub sub : Time → Time → ℤ
unfolding saturate
sub a b = saturate (sub_ℕ a.ns b.ns)
