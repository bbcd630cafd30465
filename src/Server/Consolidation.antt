-- ===== src/Server/Consolidation.antt =====
-- The window of the nightly consolidation.
use ve_xchange_api.Prelude.{ℕ, ◌+◌, ◌/◌, ◌≤◌, ◌<◌, ◌≡◌, ◌↔◌, arith}
use ve_xchange_api.GoTime.{
  Time, in_loc, wall, date, date_of, day_length, day_number, add_days, sub_days,
}
use ve_xchange_api.GoTime.Instant.{IsCounted}
use ve_xchange_api.GoTime.Calendar.{day_number-civil_of_day}
use ve_xchange_api.Server.{utc_minus_4, consolidation_window}

-- The number of the day of `t` in UTC-4.
abbrev pub caracas_day : Time → ℕ
caracas_day t = day_number (date_of (in_loc utc_minus_4 t))

-- Run at `now`, the task consolidates the rows of the day before that of `now`, both as days of
-- UTC-4: a time lies in the window, from its start to before its end, exactly then. Both times are
-- counted in UTC-4.
pub consolidation_window_lem :
    (now t : Time)
    → IsCounted (in_loc utc_minus_4 now)
    → IsCounted (in_loc utc_minus_4 t)
    → let (from, to) = consolidation_window now in
      ((from.ns ≤ t.ns) × (t.ns < to.ns)) ↔ (caracas_day t + 1 ≡ caracas_day now)
unfolding consolidation_window date date_of wall add_days sub_days
consolidation_window_lem now t c d =
    rw
      (
        day_number-civil_of_day (wall (sub_days 1 (in_loc utc_minus_4 now)) / day_length),
        day_number-civil_of_day (wall (in_loc utc_minus_4 now) / day_length),
        day_number-civil_of_day (wall (in_loc utc_minus_4 t) / day_length),
      )
      (λ h. ground arith, λ h. ground arith)
