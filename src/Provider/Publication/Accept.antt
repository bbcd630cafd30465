-- ===== src/Provider/Publication/Accept.antt =====
-- Which pages are accepted.
use mathlib.Core.Option.{some-injective}
use ve_xchange_api.Prelude.{
  ℕ, ◌+◌, ◌-◌, ◌/◌, ◌<◌, false, ◌≡◌, ◌≢◌, refl, ap, sym, ◌∙◌, ◌↔◌, ◌⊎◌, inl, inr, Option-cases,
  none, some, arith, ◌==◌, if◌then◌else◌,
}
use ve_xchange_api.Prelude.Dict.{option_map}
use ve_xchange_api.GoTime.{
  Location, Time, CivilDate, utc, in_loc, wall, date_of, date, day_length, weekday, weekday_of_day,
  add_days, saturday, sunday, civil_of_day, day_number,
}
use ve_xchange_api.GoTime.Instant.{IsCounted}
use ve_xchange_api.GoTime.Calendar.{day_number-civil_of_day}
use ve_xchange_api.Rates.{PriceResponse}
use ve_xchange_api.Provider.Publication.{
  stuck, skip_weekend, next_business_date, differs, check_date, validate_bcv_publication,
  midnight_utc,
}

abbrev pub IsWeekend : ℕ → Type 0
IsWeekend n = (weekday_of_day n ≡ saturday) ⊎ (weekday_of_day n ≡ sunday)

-- Day `n` is the first after `today` that is not of a weekend.
pub record IsNextBusinessDay (today n : ℕ) : Type 0 where
  pub later : today < n
  pub open_day : ¬ IsWeekend n
  pub first : (j : ℕ) → today < j → j < n → IsWeekend j

next_day : ℕ → ℕ
next_day today =
    if weekday_of_day today == 5
    then today + 3
    else if weekday_of_day today == 6
    then today + 2
    else today + 1

next_day-IsNextBusinessDay : (today : ℕ) → IsNextBusinessDay today (next_day today)
unfolding next_day weekday_of_day
next_day-IsNextBusinessDay today = record {
  later = ground arith;
  open_day = λ w. ground arith;
  first = λ j lo hi. ground arith;
}

IsNextBusinessDay-unique :
    (today n m : ℕ) → IsNextBusinessDay today n → IsNextBusinessDay today m → n ≡ m
IsNextBusinessDay-unique today n m a b =
    ground (arith, a.first m b.later, b.first n a.later, a.open_day, b.open_day)

skip_weekend-next_day :
    (now : Time)
    → IsCounted now
    → skip_weekend 3 (add_days 1 now)
      ≡ some (add_days (next_day (wall now / day_length) - wall now / day_length) now)
unfolding next_day skip_weekend weekday wall add_days
skip_weekend-next_day now c = ground arith

-- The date that is expected at `now`, in a zone's days.
expected_day : Time → Location → ℕ
expected_day now loc = next_day (wall (in_loc loc now) / day_length)

pub day_of-date : (c : CivilDate) → wall (date c 0 0 utc) / day_length ≡ day_number c
unfolding wall date
day_of-date c = omega arith

next_business_date-eq :
    (now : Time) (loc : Location)
    → IsCounted (in_loc loc now)
    → next_business_date now loc ≡ some (date (civil_of_day (expected_day now loc)) 0 0 utc)
unfolding next_business_date expected_day date_of
next_business_date-eq now loc c =
    ap (option_map midnight_utc) (skip_weekend-next_day (in_loc loc now) c)
    ∙ ap (λ n. some (date (civil_of_day n) 0 0 utc)) (day_of-add_days (in_loc loc now) c)
  where
    day_of-add_days :
        (t : Time)
        → IsCounted t
        → wall (add_days (next_day (wall t / day_length) - wall t / day_length) t) / day_length
          ≡ next_day (wall t / day_length)
    day_of-add_days t c =
        unfold wall add_days in
        omega (arith, (next_day-IsNextBusinessDay (wall t / day_length)).later)

pub differs_iff : (a b : CivilDate) → (differs a b ≡ false) ↔ (a ≡ b)
differs_iff a b = (λ e. ground arith, λ e. ground arith)

date_of-eq_iff :
    (t u : Time) → (date_of t ≡ date_of u) ↔ (wall t / day_length ≡ wall u / day_length)
unfolding date_of
date_of-eq_iff t u = (
  λ e.
      sym (day_number-civil_of_day (wall t / day_length))
      ∙ ap day_number e
      ∙ day_number-civil_of_day (wall u / day_length),
  λ e. ap civil_of_day e,
)

date_of-date_iff :
    (t : Time) (n : ℕ)
    → (date_of t ≡ date_of (date (civil_of_day n) 0 0 utc)) ↔ (wall t / day_length ≡ n)
date_of-date_iff t n =
    let i = date_of-eq_iff t (date (civil_of_day n) 0 0 utc) in
    let day = day_of-date (civil_of_day n) ∙ day_number-civil_of_day n in
    (λ e. i.0 e ∙ day, λ e. i.1 (e ∙ sym day))

-- The page's effective date is the first business day after the day of `now` in the zone.
abbrev pub IsCurrent {ℓ} : {F : Type ℓ} → PriceResponse F → Time → Location → Type 0
IsCurrent response now loc =
    (t : Time) × (response.effective_date ≡ some t)
    × IsNextBusinessDay (wall (in_loc loc now) / day_length) (wall t / day_length)

check_date_iff :
    (t : Time) (n : ℕ)
    → (check_date t (some (date (civil_of_day n) 0 0 utc)) ≡ none) ↔ (wall t / day_length ≡ n)
check_date_iff t n =
    let i = date_of-date_iff t n in
    let d = differs_iff (date_of t) (date_of (date (civil_of_day n) 0 0 utc)) in
    (λ e. i.0 (d.0 (ground arith)), λ e. rw (d.1 (i.1 e)))

-- At a time that is counted in the zone, a response is accepted exactly when it has an effective
-- date and that is the first day after today, in the zone, that is neither a Saturday nor a
-- Sunday; and the loop that finds the expected date ends.
pub validate_bcv_publication_iff {ℓ} :
    {F : Type ℓ} (response : PriceResponse F) (now : Time) (loc : Location)
    → IsCounted (in_loc loc now)
    → ((validate_bcv_publication response now loc ≡ none) ↔ IsCurrent response now loc)
      × (validate_bcv_publication response now loc ≢ some stuck)
unfolding validate_bcv_publication expected_day
validate_bcv_publication_iff response now loc c =
    let n = expected_day now loc in
    let next = next_day-IsNextBusinessDay (wall (in_loc loc now) / day_length) in
    elim (Option-cases response.effective_date) [
      | inl missing ↦ rw missing ((λ e. absurd (cc), λ (t, e, _). absurd (cc)), λ e. cc)
      | inr (t, given) ↦
          rw (given, next_business_date-eq now loc c)
            (
              (
                λ e. (t, refl, rw ((check_date_iff t n).0 e) next),
                λ (u, e, b). (check_date_iff t n).1 (
                    ap (λ v. wall v / day_length) (some-injective t u e)
                    ∙ IsNextBusinessDay-unique _ _ n b next),
              ),
              λ e. ground arith,
            )
    ]
