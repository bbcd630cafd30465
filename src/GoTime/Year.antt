-- ===== src/GoTime/Year.antt =====
-- The year of a day number.
use ve_xchange_api.Prelude.{ℕ, ◌+◌, ◌≤◌, ◌<◌, ◌≡◌, arith}
use ve_xchange_api.GoTime.{is_leap, days_before_year, days_in_year, year_of_day}

pub days_before_year-suc : (y : ℕ) → days_before_year (y + 1) ≡ days_before_year y + days_in_year y
unfolding days_before_year days_in_year is_leap
days_before_year-suc y = ground arith

-- Day `n` lies in `year_of_day n`.
pub year_of_day_bounds :
    (n : ℕ) → (days_before_year (year_of_day n) ≤ n) × (n < days_before_year (year_of_day n + 1))
unfolding year_of_day days_before_year
year_of_day_bounds n = ground arith

-- A day that lies in a year has that year.
pub year_of_day-eq :
    (y n : ℕ) → days_before_year y ≤ n → n < days_before_year (y + 1) → year_of_day n ≡ y
unfolding year_of_day days_before_year
year_of_day-eq y n lo hi = ground arith
