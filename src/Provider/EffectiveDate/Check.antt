-- ===== src/Provider/EffectiveDate/Check.antt =====
-- The last test of `parseEffectiveDate`.
use ve_xchange_api.Prelude.{ℕ, ◌≡◌, sym, ap, ◌∙◌, inl, inr, Option-cases, some, List, arith}
use mathlib.Core.Path.{subst}
use ve_xchange_api.Prelude.Result.{ok, ok-injective}
use ve_xchange_api.GoTime.{
  Time, CivilDate, civil, absolute_year, utc, date, date_of, day_number, civil_of_day,
}
use ve_xchange_api.GoTime.Months.{IsValid}
use ve_xchange_api.GoTime.Calendar.{civil_of_day-IsValid, civil_of_day-day_number}
use ve_xchange_api.Provider.Publication.Accept.{differs_iff, day_of-date}
use ve_xchange_api.Provider.EffectiveDate.{
  Groups, check_civil, read_groups, find_match, to_lower, atoi, month_in, spanish_months,
  parse_effective_date,
}

date_of-date : (c : CivilDate) → date_of (date c 0 0 utc) ≡ civil_of_day (day_number c)
unfolding date_of
date_of-date c = ap civil_of_day (day_of-date c)

-- A date is accepted only if its month has its day.
pub check_civil-IsValid : (c : CivilDate) {t : Time} → check_civil c ≡ ok t → IsValid c
check_civil-IsValid c e =
    subst IsValid (sym (date_of-date c) ∙ (differs_iff _ c).0 (ground arith))
      (civil_of_day-IsValid (day_number c))

pub check_civil-ok : (c : CivilDate) → IsValid c → check_civil c ≡ ok (date c 0 0 utc)
check_civil-ok c v =
    rw ((differs_iff (date_of (date c 0 0 utc)) c).1 (date_of-date c ∙ civil_of_day-day_number c v))

-- How a text yields an effective date: the leftmost match gives a day, a month's name and a year of a
-- date that exists, and the result is its midnight in UTC.
pub record Yields (unicode_lower : ℕ → ℕ) (raw : List ℕ) (t : Time) : Type 0 where
  pub groups : Groups
  pub matches : find_match (to_lower unicode_lower raw) ≡ some groups
  pub day : ℕ
  pub reads_day : atoi groups.day ≡ some day
  pub month : ℕ
  pub reads_month : month_in spanish_months groups.month ≡ some month
  pub year : ℕ
  pub reads_year : atoi groups.year ≡ some year
  pub exists : IsValid (civil (absolute_year year) month day)
  pub is_midnight : t ≡ date (civil (absolute_year year) month day) 0 0 utc

read_groups-ok :
    (g : Groups) (t : Time)
    → read_groups (some g) ≡ ok t
    → (d m y : ℕ) × (atoi g.day ≡ some d)
      × (month_in spanish_months g.month ≡ some m)
      × (atoi g.year ≡ some y)
      × (check_civil (civil (absolute_year y) m d) ≡ ok t)
read_groups-ok g t e = ground arith

-- A date is returned only so: the leftmost match, in lower case, reads as a day, a Spanish month
-- and a year of a date that exists, and the result is its midnight in UTC. Impossible dates, such
-- as the 32nd of July, are refused.
pub parse_effective_date-Yields :
    (unicode_lower : ℕ → ℕ) (raw : List ℕ) (t : Time)
    → parse_effective_date unicode_lower raw ≡ ok t
    → Yields unicode_lower raw t
unfolding parse_effective_date
parse_effective_date-Yields u raw t e = elim (Option-cases (find_match (to_lower u raw))) [
  | inl n ↦ absurd (ground arith)
  | inr (g, found) ↦
      let (d, m, y, qd, qm, qy, q) = read_groups-ok g t (ground arith) in
      let v = check_civil-IsValid _ q in
      record {
        groups = g;
        matches = found;
        day = d;
        reads_day = qd;
        month = m;
        reads_month = qm;
        year = y;
        reads_year = qy;
        exists = v;
        is_midnight = ok-injective (sym q ∙ check_civil-ok _ v);
      }
]
