-- ===== src/Worker/Schedule/Daily.antt =====
-- When a daily job runs next.
use ve_xchange_api.Prelude.{not, ℕ, ◌+◌, ◌-◌, ◌*◌, ◌%◌, ◌≤◌, ◌<◌, ◌≡◌, arith, ltb, if◌then◌else◌}
use ve_xchange_api.Prelude.Int.{pos}
use ve_xchange_api.GoTime.{
  Location, Time, day_length, hour, minute, date, in_loc, wall, add_days, after,
}
use ve_xchange_api.GoTime.Instant.{IsCounted, date-date_of, sub-pos}
use ve_xchange_api.Worker.Schedule.{TimeOfDay, zone, on_day_of, next_daily}

pub record IsTimeOfDay (tod : TimeOfDay) : Type 0 where
  pub hour_lt : tod.hour < 24
  pub minute_lt : tod.minute < 60

abbrev pub offset : TimeOfDay → ℕ
offset tod = tod.hour * hour + tod.minute * minute

-- `d` nanoseconds after `now`, in the zone of `tod`.
abbrev pub at_after : TimeOfDay → Time → ℕ → Time
at_after tod now d = in_loc (zone tod.location) (record now { ns = now.ns + d })

-- `d` nanoseconds after `now`, and not at `now`, the clock in the zone of `tod` reads `tod`.
pub record Strikes (tod : TimeOfDay) (now : Time) (d : ℕ) : Type 0 where
  pub later : 0 < d
  pub reads : wall (at_after tod now d) % day_length ≡ offset tod

-- The clock's reading at `now`, and the wait until it next reads `tod`.
pub reading : TimeOfDay → Time → ℕ
reading tod now = wall (in_loc (zone tod.location) now) % day_length

pub wait : TimeOfDay → Time → ℕ
wait tod now =
    let r = reading tod now in
    if ltb r (offset tod) then offset tod - r else day_length + offset tod - r

pub on_day_of-ns :
    (tod : TimeOfDay) (now : Time) (l : Location)
    → IsCounted (in_loc l now)
    → (on_day_of now tod l).ns + wall (in_loc l now) % day_length ≡ now.ns + offset tod
unfolding wall
on_day_of-ns tod now l c = rw (date-date_of (in_loc l now) tod.hour tod.minute) (omega arith)

pub offset-lt : (tod : TimeOfDay) → IsTimeOfDay tod → offset tod < day_length
offset-lt tod v = omega (arith, v.hour_lt, v.minute_lt)

pub wait-Strikes :
    (tod : TimeOfDay) (now : Time)
    → IsTimeOfDay tod
    → IsCounted (in_loc (zone tod.location) now)
    → Strikes tod now (wait tod now)
unfolding wait reading wall
wait-Strikes tod now v c = ground (arith, offset-lt tod v)

pub wait-le :
    (tod : TimeOfDay) (now : Time) (e : ℕ)
    → IsTimeOfDay tod
    → IsCounted (in_loc (zone tod.location) now)
    → Strikes tod now e
    → wait tod now ≤ e
unfolding wait reading wall
wait-le tod now e v c s = ground (arith, offset-lt tod v, s.later, s.reads)

pub wait-le-day_length :
    (tod : TimeOfDay) (now : Time) → IsTimeOfDay tod → wait tod now ≤ day_length
unfolding wait reading wall
wait-le-day_length tod now v = ground (arith, offset-lt tod v)

-- Today at `tod`, or tomorrow if that is past: the candidate of every schedule.
abbrev pub upcoming : TimeOfDay → Time → Location → Time
upcoming tod now l =
    let c = on_day_of now tod l in if not (after c (in_loc l now)) then add_days 1 c else c

pub upcoming-ns :
    (tod : TimeOfDay) (now : Time)
    → IsTimeOfDay tod
    → IsCounted (in_loc (zone tod.location) now)
    → (upcoming tod now (zone tod.location)).ns ≡ now.ns + wait tod now
unfolding wait reading after add_days
upcoming-ns tod now v c =
    ground (arith, on_day_of-ns tod now (zone tod.location) c, offset-lt tod v)

pub upcoming-at_after :
    (tod : TimeOfDay) (now : Time)
    → IsTimeOfDay tod
    → IsCounted (in_loc (zone tod.location) now)
    → upcoming tod now (zone tod.location) ≡ at_after tod now (wait tod now)
unfolding date add_days
upcoming-at_after tod now v c = ground (arith, upcoming-ns tod now v c)

next_daily-wait :
    (tod : TimeOfDay) (now : Time)
    → IsTimeOfDay tod
    → IsCounted (in_loc (zone tod.location) now)
    → next_daily tod now ≡ pos (wait tod now)
unfolding next_daily
next_daily-wait tod now v c =
    sub-pos _ now (wait tod now) (upcoming-ns tod now v c)
      (omega (arith, wait-le-day_length tod now v))

-- For a valid hour and minute, and a time that is counted in their zone, the wait is positive and
-- of at most a day; after it the clock reads that hour and minute, and after no shorter wait does
-- it.
pub next_daily_lem :
    (tod : TimeOfDay) (now : Time)
    → IsTimeOfDay tod
    → IsCounted (in_loc (zone tod.location) now)
    → (d : ℕ) × (next_daily tod now ≡ pos d)
      × Strikes tod now d
      × (d ≤ day_length)
      × ((e : ℕ) → Strikes tod now e → d ≤ e)
next_daily_lem tod now v c = (
  wait tod now,
  next_daily-wait tod now v c,
  wait-Strikes tod now v c,
  wait-le-day_length tod now v,
  λ e. wait-le tod now e v c,
)
