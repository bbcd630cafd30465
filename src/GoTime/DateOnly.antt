-- ===== src/GoTime/DateOnly.antt =====
-- `time.Parse(time.DateOnly, s)`, that is the layout "2006-01-02", on the codes of the text's
-- characters, and the text that the layout prints.
use ve_xchange_api.Prelude.{
  ℕ, ◌+◌, ◌-◌, ◌*◌, ◌/◌, ◌%◌, ◌≤◌, ◌<◌, ◌≡◌, Bool, true, ◌&&◌, Option, none, some, List, [], ◌∷◌,
  arith, leb, ◌==◌, if◌then◌else◌,
}
use ve_xchange_api.GoTime.{CivilDate, civil, absolute_year, days_in_month}
use ve_xchange_api.GoTime.Months.{IsValid}

unfoldable pub is_digit : ℕ → Bool
is_digit c = leb b'0' c && leb c b'9'

abbrev pub digit_value : ℕ → ℕ
digit_value c = c - b'0'

pub two : ℕ → ℕ → ℕ
two a b = 10 * digit_value a + digit_value b

-- The last test of `time.Parse`: a month from 1 to 12, and a day of that month.
abbrev pub checked : CivilDate → Option CivilDate
checked t =
    if leb 1 t.month && leb t.month 12 && leb 1 t.day && leb t.day (days_in_month t.year t.month)
    then some t
    else none

-- `none` is the error.
pub parse_date_only : List ℕ → Option CivilDate
parse_date_only (a ∷ b ∷ c ∷ d ∷ s ∷ e ∷ f ∷ t ∷ g ∷ h ∷ []) =
    if is_digit a
      && is_digit b
      && is_digit c
      && is_digit d
      && (s == b'-')
      && is_digit e
      && is_digit f
      && (t == b'-')
      && is_digit g
      && is_digit h
    then checked (civil (absolute_year (100 * two a b + two c d)) (two e f) (two g h))
    else none
parse_date_only _ = none

unfoldable pub digit : ℕ → ℕ
digit n = n % 10 + b'0'

-- `t.Format(time.DateOnly)` for a year from 0 to 9999.
pub format_date_only : CivilDate → List ℕ
format_date_only t =
    let y = t.year - 400 in
    digit (y / 1000)
    ∷ digit (y / 100)
    ∷ digit (y / 10)
    ∷ digit y
    ∷ b'-'
    ∷ digit (t.month / 10)
    ∷ digit t.month
    ∷ b'-'
    ∷ digit (t.day / 10)
    ∷ digit t.day
    ∷ []

-- A year that has four digits.
abbrev pub IsFourDigit : ℕ → Type 0
IsFourDigit y = (400 ≤ y) × (y < 10400)

pub days_in_month-le : (y m : ℕ) → days_in_month y m ≤ 31
unfolding days_in_month
days_in_month-le y m = ground arith

pub is_digit-digit : (n : ℕ) → is_digit (digit n) ≡ true
unfolding is_digit digit
is_digit-digit n = ground arith

two-digit : (n : ℕ) → n < 100 → two (digit (n / 10)) (digit n) ≡ n
unfolding two digit
two-digit n h = omega arith

two-digit_year :
    (y : ℕ)
    → y < 10000
    → 100 * two (digit (y / 1000)) (digit (y / 100)) + two (digit (y / 10)) (digit y) ≡ y
unfolding two digit
two-digit_year y h = omega arith

-- Parsing what was printed gives the date.
pub parse_date_only-format_date_only :
    (t : CivilDate) → IsValid t → IsFourDigit t.year → parse_date_only (format_date_only t) ≡ some t
unfolding parse_date_only format_date_only
parse_date_only-format_date_only t v h = simp is_digit-digit (
    ground (
      arith,
      days_in_month-le t.year t.month,
      two-digit t.month,
      two-digit t.day,
      two-digit_year (t.year - 400),
    ))
