-- ===== src/Examples/Schedules.antt =====
-- Schedules of the server, in July 2026.
use ve_xchange_api.Prelude.{ℕ, ◌+◌, ◌*◌, ◌≤◌, ◌<◌, ◌≡◌, ◌≢◌, true, none, some, ◌↔◌, arith}
use ve_xchange_api.Prelude.Int.{pos}
use ve_xchange_api.GoTime.{day_length, day_number, date}
use ve_xchange_api.GoTime.Instant.{IsCounted}
use ve_xchange_api.Worker.Schedule.{BusinessWindow, next_daily, next_business_window_start}
use ve_xchange_api.Worker.Schedule.Daily.{Strikes, next_daily_lem}
use ve_xchange_api.Worker.Schedule.Window.{Opens, next_business_window_start_lem}
use ve_xchange_api.Provider.Publication.{validate_bcv_publication, stuck}
use ve_xchange_api.Provider.Publication.Accept.{IsCurrent, validate_bcv_publication_iff}
use ve_xchange_api.Server.{utc_minus_4, time_of_day, bcv_window, consolidation_window}
use ve_xchange_api.Server.Consolidation.{caracas_day, consolidation_window_lem}
use ve_xchange_api.Examples.Toys.{july, friday_evening, monday_prices}

-- The window of BCV, kept to weekdays.
abbrev weekday_window : BusinessWindow
weekday_window = record bcv_window { weekdays_only = true }

friday_evening-IsCounted : IsCounted friday_evening
unfolding date day_number
friday_evening-IsCounted = ground arith

next_business_window_start_example :
    (d : ℕ) × (next_business_window_start weekday_window friday_evening ≡ some (pos d))
    × Opens weekday_window friday_evening d
    × (d ≤ 3 * day_length)
    × ((e : ℕ) → Opens weekday_window friday_evening e → d ≤ e)
unfolding date
next_business_window_start_example =
    next_business_window_start_lem weekday_window friday_evening
      (record { hour_lt = omega arith; minute_lt = omega arith }) friday_evening-IsCounted

next_daily_example :
    (d : ℕ) × (next_daily (time_of_day 17 0) friday_evening ≡ pos d)
    × Strikes (time_of_day 17 0) friday_evening d
    × (d ≤ day_length)
    × ((e : ℕ) → Strikes (time_of_day 17 0) friday_evening e → d ≤ e)
unfolding date
next_daily_example =
    next_daily_lem (time_of_day 17 0) friday_evening
      (record { hour_lt = omega arith; minute_lt = omega arith }) friday_evening-IsCounted

validate_bcv_publication_example :
    ((validate_bcv_publication monday_prices friday_evening utc_minus_4 ≡ none)
      ↔ IsCurrent monday_prices friday_evening utc_minus_4)
    × (validate_bcv_publication monday_prices friday_evening utc_minus_4 ≢ some stuck)
unfolding date
validate_bcv_publication_example =
    validate_bcv_publication_iff monday_prices friday_evening utc_minus_4 friday_evening-IsCounted

thursday_evening-IsCounted : IsCounted (july 9 21 utc_minus_4)
unfolding date day_number
thursday_evening-IsCounted = ground arith

consolidation_window_example :
    let (from, to) = consolidation_window friday_evening in
    ((from.ns ≤ (july 9 21 utc_minus_4).ns) × ((july 9 21 utc_minus_4).ns < to.ns))
    ↔ (caracas_day (july 9 21 utc_minus_4) + 1 ≡ caracas_day friday_evening)
unfolding date
consolidation_window_example =
    consolidation_window_lem friday_evening (july 9 21 utc_minus_4) friday_evening-IsCounted
      thursday_evening-IsCounted
