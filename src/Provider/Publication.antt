-- ===== src/Provider/Publication.antt =====
-- internal/provider/bcv.go: the check of the date that a BCV page is valid for.
pub mod Accept
use ve_xchange_api.Prelude.{ℕ, zero, suc, Bool, not, ◌||◌, Option, none, some, ◌==◌, if◌then◌else◌}
use ve_xchange_api.Prelude.Dict.{option_map}
use ve_xchange_api.GoTime.{
  Location, Time, CivilDate, utc, in_loc, date_of, date, weekday, add_days, saturday, sunday,
}
use ve_xchange_api.Rates.{PriceResponse}

-- The errors of `ValidateBCVPublication`; `stuck` is a loop of the model that ran out of fuel.
pub data PublicationError : Type 0 where
  missing_effective_date : PublicationError
  mismatch : Time → Time → PublicationError
  stuck : PublicationError

-- The `for` loop of `nextBusinessDate`.
unfoldable pub skip_weekend : ℕ → Time → Option Time
skip_weekend zero t = none
skip_weekend (suc fuel) t =
    let later = skip_weekend fuel (add_days 1 t) in
    if (weekday t == saturday) || (weekday t == sunday) then later else some t

abbrev pub midnight_utc : Time → Time
midnight_utc t = date (date_of t) 0 0 utc

-- Three rounds are enough: a weekend has two days.
unfoldable pub next_business_date : Time → Location → Option Time
next_business_date now loc = option_map midnight_utc (skip_weekend 3 (add_days 1 (in_loc loc now)))

abbrev pub differs : CivilDate → CivilDate → Bool
differs a b = not (a.year == b.year) || not (a.month == b.month) || not (a.day == b.day)

abbrev pub check_date : Time → Option Time → Option PublicationError
check_date effective none = some stuck
check_date effective (some expected) =
    if differs (date_of effective) (date_of expected)
    then some (mismatch effective expected)
    else none

-- `none` is a nil error.
unfoldable pub validate_bcv_publication {ℓ} :
    {F : Type ℓ} → PriceResponse F → Time → Location → Option PublicationError
validate_bcv_publication response now loc = elim response.effective_date [
  | none ↦ some missing_effective_date
  | some effective ↦ check_date effective (next_business_date now loc)
]
