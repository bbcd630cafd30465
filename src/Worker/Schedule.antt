-- ===== src/Worker/Schedule.antt =====
-- The schedules of internal/worker/worker.go: `TimeOfDay`, `BusinessWindow`, `nextDaily`,
-- `nextBusinessWindowStart`, `isWeekday`, `businessWindowEnd` and `nextBusinessWindowRetry`. Hours,
-- minutes and `RetryEvery` are taken as not negative.
pub mod Daily
pub mod Window
use mathlib.Core.Option
use ve_xchange_api.Prelude.{
  ℕ, zero, suc, ◌+◌, Bool, not, ◌&&◌, ◌||◌, Option, none, some, ◌==◌, if◌then◌else◌,
}
use ve_xchange_api.Prelude.Int.{ℤ}
use ve_xchange_api.GoTime.{
  Location, Time, utc, in_loc, date_of, date, weekday, add_days, after, before, sub, sunday,
  saturday,
}

pub record TimeOfDay : Type 0 where
  pub hour : ℕ
  pub minute : ℕ
  pub location : Option Location

pub record BusinessWindow : Type 0 where
  pub start : TimeOfDay
  pub end : TimeOfDay
  pub retry_every : ℕ
  pub weekdays_only : Bool

-- A location that is nil means UTC.
abbrev pub zone : Option Location → Location
zone none = utc
zone (some l) = l

-- `tod` on the day of `now`, in the zone `l`.
abbrev pub on_day_of : Time → TimeOfDay → Location → Time
on_day_of now tod l = date (date_of (in_loc l now)) tod.hour tod.minute l

pub next_daily : TimeOfDay → Time → ℤ
next_daily tod now =
    let l = zone tod.location in
    let candidate = on_day_of now tod l in
    sub (if not (after candidate (in_loc l now)) then add_days 1 candidate else candidate) now

pub is_weekday : Time → Bool
is_weekday t = not (weekday t == saturday) && not (weekday t == sunday)

-- The `for` loop of `nextBusinessWindowStart`; `none` means that the fuel ran out.
pub find_start : ℕ → BusinessWindow → Time → Time → Option Time
find_start zero window now candidate = none
find_start (suc fuel) window now candidate =
    let later = find_start fuel window now (add_days 1 candidate) in
    if not (after candidate now) || (window.weekdays_only && not (is_weekday candidate))
    then later
    else some candidate

-- Four rounds are enough: one for a time of day that is past, two for a weekend.
pub next_business_window_start : BusinessWindow → Time → Option ℤ
next_business_window_start window now =
    let l = zone window.start.location in
    Option.map (λ candidate. sub candidate now)
      (find_start 4 window (in_loc l now) (on_day_of now window.start l))

-- The zone is that of `Start`, for `End` too.
unfoldable pub business_window_end : BusinessWindow → Time → Time
business_window_end window now = on_day_of now window.end (zone window.start.location)

unfoldable pub next_business_window_retry : Time → Time → ℕ → Time × Bool
next_business_window_retry now deadline retry_every =
    let next_retry : Time = record now { ns = now.ns + retry_every } in
    (next_retry, before next_retry deadline)
