-- ===== src/GoTime/Calendar.antt =====
-- Day numbers and dates are inverse to one another.
use ve_xchange_api.Prelude.{ℕ, ◌+◌, ◌-◌, ◌≡◌, arith}
use ve_xchange_api.GoTime.{
  CivilDate, days_before_year, days_before_month, year_of_day, day_number, civil_of_day,
}
use ve_xchange_api.GoTime.Year.{days_before_year-suc, year_of_day_bounds, year_of_day-eq}
use ve_xchange_api.GoTime.Months.{
  IsValid, month_of_day-year, month_of_day-IsValid, month_of_day-offset, offset-le-days_in_year,
  month_of_day-days_before_month,
}

pub civil_of_day-IsValid : (n : ℕ) → IsValid (civil_of_day n)
unfolding civil_of_day
civil_of_day-IsValid n =
    let y = year_of_day n in
    month_of_day-IsValid y (n - days_before_year y)
      (omega (arith, year_of_day_bounds n, days_before_year-suc y))

-- The date of a day number has that number.
pub day_number-civil_of_day : (n : ℕ) → day_number (civil_of_day n) ≡ n
unfolding day_number civil_of_day
day_number-civil_of_day n = ground (
  arith,
  year_of_day_bounds n,
  days_before_year-suc (year_of_day n),
  month_of_day-year (year_of_day n) (n - days_before_year (year_of_day n)),
  month_of_day-offset (year_of_day n) (n - days_before_year (year_of_day n)),
)

pub year_of_day-day_number : (t : CivilDate) → IsValid t → year_of_day (day_number t) ≡ t.year
unfolding day_number
year_of_day-day_number t v =
    year_of_day-eq t.year (day_number t) (omega (arith, v.day_ge))
      (omega (arith, v.day_ge, days_before_year-suc t.year, offset-le-days_in_year t v))

-- The day number of a valid date leads back to the date.
pub civil_of_day-day_number : (t : CivilDate) → IsValid t → civil_of_day (day_number t) ≡ t
unfolding civil_of_day
civil_of_day-day_number t v =
    rw (year_of_day-day_number t v, offset) (month_of_day-days_before_month t v)
  where
    offset : day_number t - days_before_year t.year ≡ days_before_month t.year t.month + t.day - 1
    offset = unfold day_number in omega (arith, v.day_ge)
