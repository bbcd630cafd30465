-- ===== src/GoTime/Months.antt =====
-- The month and the day within a year.
use ve_xchange_api.Prelude.{ℕ, ◌+◌, ◌-◌, ◌≤◌, ◌<◌, ◌≡◌, arith}
use ve_xchange_api.GoTime.{CivilDate, days_in_year, days_in_month, days_before_month, month_of_day}

pub record IsValid (t : CivilDate) : Type 0 where
  pub month_ge : 1 ≤ t.month
  pub month_le : t.month ≤ 12
  pub day_ge : 1 ≤ t.day
  pub day_le : t.day ≤ days_in_month t.year t.month

pub month_of_day-year : (y z : ℕ) → (month_of_day y z).year ≡ y
unfolding month_of_day
month_of_day-year y z = ground arith

pub month_of_day-IsValid : (y z : ℕ) → z < days_in_year y → IsValid (month_of_day y z)
unfolding month_of_day days_in_year days_in_month
month_of_day-IsValid y z h = ground arith

pub month_of_day-offset :
    (y z : ℕ)
    → z < days_in_year y
    → days_before_month y (month_of_day y z).month + (month_of_day y z).day ≡ z + 1
unfolding month_of_day days_in_year days_before_month
month_of_day-offset y z h = ground arith

-- A valid date lies within its year.
pub offset-le-days_in_year :
    (t : CivilDate) → IsValid t → days_before_month t.year t.month + t.day ≤ days_in_year t.year
unfolding days_before_month days_in_month days_in_year
offset-le-days_in_year t v = ground arith

pub month_of_day-days_before_month :
    (t : CivilDate)
    → IsValid t
    → month_of_day t.year (days_before_month t.year t.month + t.day - 1) ≡ t
unfolding month_of_day days_before_month days_in_month
month_of_day-days_before_month t v = ground arith
