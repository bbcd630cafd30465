-- ===== src/Examples/Loops.antt =====
-- An afternoon on which BCV's page does not answer.
use ve_xchange_api.Prelude.{ℕ, ◌+◌, ◌*◌, ◌≤◌, ◌<◌, ◌≡◌, refl, Bool, true, false, none, arith}
use ve_xchange_api.Prelude.Int.{pos}
use ve_xchange_api.GoTime.{
  Time, minute, hour, before, sub, saturate, date, day_number, days_before_year, days_before_month,
  is_leap, date_of, civil_of_day, month_of_day, year_of_day, wall,
}
use ve_xchange_api.Worker.Schedule.{business_window_end, next_business_window_retry}
use ve_xchange_api.Worker.Loop.{Retry, waiting, retrying, fired, await_retry, step}
use ve_xchange_api.Worker.Loop.Retries.{Clock, none_yet, again, retries_lem}
use ve_xchange_api.Server.{utc_minus_4, bcv_window}

-- A world that is its clock; 17:00 in UTC-4 is 21:00 in UTC.
abbrev at : ℕ → Time
at w = record { ns = w; loc = utc_minus_4 }

abbrev five : ℕ
five = 1_000_000 * 24 * hour + 21 * hour

abbrev read : ℕ → Time × ℕ
read w = (at w, w)

abbrev fail : Bool → ℕ → Bool × ℕ
fail b w = (false, w)

abbrev clock_of_world : Clock read fail
clock_of_world = record {
  clock = λ w. w;
  reads = λ w. refl;
  now_le = λ w. omega arith;
  fetch_le = λ b w. omega arith;
}

abbrev retry_at : ℕ → Retry
retry_at w = record {
  deadline = business_window_end bcv_window (at five);
  next_retry = at (w + 30 * minute);
  timer = pos (30 * minute);
}

first_step : step read fail bcv_window fired (waiting none) five ≡ (retrying (retry_at five), five)
unfolding step await_retry next_business_window_retry before sub saturate business_window_end date
    day_number days_before_year days_before_month is_leap date_of civil_of_day month_of_day
    year_of_day wall
first_step = refl

second_step :
    step read fail bcv_window fired (retrying (retry_at five)) (five + 30 * minute)
    ≡ (retrying (retry_at (five + 30 * minute)), five + 30 * minute)
unfolding step await_retry next_business_window_retry before sub saturate business_window_end date
    day_number days_before_year days_before_month is_leap date_of civil_of_day month_of_day
    year_of_day wall
second_step = refl

retries_example :
    ((retry_at (five + 30 * minute)).deadline
      ≡ business_window_end bcv_window (read (fail true five).1).0)
    × ((retry_at (five + 30 * minute)).next_retry.ns < (retry_at (five + 30 * minute)).deadline.ns)
    × (five + (1 + 1) * bcv_window.retry_every ≤ (retry_at (five + 30 * minute)).next_retry.ns)
retries_example =
    retries_lem read fail bcv_window clock_of_world none 1 (retry_at five)
      (retry_at (five + 30 * minute)) five five first_step
      (again (five + 30 * minute) (five + 30 * minute) none_yet (omega arith) second_step)
