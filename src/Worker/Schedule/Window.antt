-- ===== src/Worker/Schedule/Window.antt =====
-- When a business window opens next.
use ve_xchange_api.Prelude.{
  ℕ, suc, ◌+◌, ◌*◌, ◌≤◌, ◌<◌, ◌≡◌, ◌∙◌, ap, refl, true, not, ◌&&◌, some, arith, ◌==◌, if◌then◌else◌,
}
use ve_xchange_api.Prelude.Int.{pos}
use ve_xchange_api.GoTime.{
  Time, day_length, second, in_loc, wall, weekday, add_days, after, saturday, sunday, date,
}
use ve_xchange_api.GoTime.Instant.{IsCounted, sub-pos}
use ve_xchange_api.Worker.Schedule.{
  BusinessWindow, zone, on_day_of, is_weekday, find_start, next_business_window_start,
}
use ve_xchange_api.Worker.Schedule.Daily.{
  IsTimeOfDay, Strikes, wait, wait-Strikes, wait-le, wait-le-day_length, at_after,
  upcoming-at_after,
}

-- `d` nanoseconds after `now` the window opens: the clock strikes its start, on a weekday if the
-- window keeps to those.
pub record Opens (window : BusinessWindow) (now : Time) (d : ℕ) : Type 0 where
  pub strikes : Strikes window.start now d
  pub on_weekday : window.weekdays_only ≡ true → is_weekday (at_after window.start now d) ≡ true

-- The days that a start on the day of `c` is put off.
skip : BusinessWindow → Time → ℕ
skip window c =
    if window.weekdays_only && (weekday c == saturday)
    then 2
    else if window.weekdays_only && (weekday c == sunday)
    then 1
    else 0

mended : Time → Time → Time
mended now c = if not (after c now) then add_days 1 c else c

find_start-mended :
    (f : ℕ) (window : BusinessWindow) (now c : Time)
    → now.ns < (mended now c).ns
    → c.loc.west * second ≤ (mended now c).ns
    → find_start (suc (suc (suc (suc f)))) window now c
      ≡ some (add_days (skip window (mended now c)) (mended now c))
unfolding mended find_start skip after is_weekday weekday wall add_days
find_start-mended f window now c h k = ground arith

-- The time when the window opens next.
opening : BusinessWindow → Time → ℕ
opening window now =
    let d = wait window.start now in d + skip window (at_after window.start now d) * day_length

find_start-opening :
    (window : BusinessWindow) (now : Time)
    → IsTimeOfDay window.start
    → IsCounted (in_loc (zone window.start.location) now)
    → let l = zone window.start.location in
      find_start 4 window (in_loc l now) (on_day_of now window.start l)
      ≡ some (at_after window.start now (opening window now))
unfolding opening mended add_days date
find_start-opening window now v c =
    let l = zone window.start.location in
    let d = wait window.start now in
    let u = upcoming-at_after window.start now v c in
    let e : mended (in_loc l now) (on_day_of now window.start l) ≡ at_after window.start now d =
      u in
    let s = (wait-Strikes window.start now v c).later in
    find_start-mended 0 window (in_loc l now) (on_day_of now window.start l) (rw e (omega arith))
      (rw e (omega arith))
    ∙ rw e (ground arith)

opening-le :
    (window : BusinessWindow) (now : Time)
    → IsTimeOfDay window.start
    → opening window now ≤ 3 * day_length
unfolding opening skip
opening-le window now v = ground (arith, wait-le-day_length window.start now v)

opening-Opens :
    (window : BusinessWindow) (now : Time)
    → IsTimeOfDay window.start
    → IsCounted (in_loc (zone window.start.location) now)
    → Opens window now (opening window now)
unfolding opening skip is_weekday weekday wall
opening-Opens window now v c =
    let s = wait-Strikes window.start now v c in ground (arith, s.later, s.reads)

opening-least :
    (window : BusinessWindow) (now : Time) (e : ℕ)
    → IsTimeOfDay window.start
    → IsCounted (in_loc (zone window.start.location) now)
    → Opens window now e
    → opening window now ≤ e
unfolding opening skip is_weekday weekday wall
opening-least window now e v c o =
    let s = wait-Strikes window.start now v c in
    ground (
      arith,
      s.later,
      s.reads,
      wait-le window.start now e v c o.strikes,
      o.strikes.reads,
      o.on_weekday,
    )

-- For a start with a valid hour and minute, and a time that is counted in its zone, the search
-- ends, and the wait that it returns is positive and of at most three days; after it the clock
-- reads the start, on a weekday if the window keeps to those, and after no shorter wait does it.
pub next_business_window_start_lem :
    (window : BusinessWindow) (now : Time)
    → IsTimeOfDay window.start
    → IsCounted (in_loc (zone window.start.location) now)
    → (d : ℕ) × (next_business_window_start window now ≡ some (pos d))
      × Opens window now d
      × (d ≤ 3 * day_length)
      × ((e : ℕ) → Opens window now e → d ≤ e)
unfolding next_business_window_start
next_business_window_start_lem window now v c = (
  opening window now,
  rw (find_start-opening window now v c)
      (ap some (sub-pos _ now (opening window now) refl (omega (arith, opening-le window now v)))),
  opening-Opens window now v c,
  opening-le window now v,
  λ e. opening-least window now e v c,
)
