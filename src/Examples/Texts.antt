-- ===== src/Examples/Texts.antt =====
-- Retries, averages, and the numbers and dates of a page.
use ve_xchange_api.Prelude.{ℕ, zero, suc, ◌<◌, ◌≡◌, refl, Option, some, List, [], ◌∷◌, arith}
use ve_xchange_api.Prelude.Result.{Result, ok, err}
use ve_xchange_api.GoTime.{civil, absolute_year, date, utc, days_in_month}
use ve_xchange_api.GoTime.Months.{IsValid}
use ve_xchange_api.GoTime.DateOnly.{is_digit, digit}
use ve_xchange_api.Provider.Retry.{with_retry}
use ve_xchange_api.Provider.Retry.Script.{
  rest, call, fresh, at_call, delays, with_retry_ok, with_retry_err,
}
use ve_xchange_api.Provider.Average.{average_valid}
use ve_xchange_api.Provider.Average.Mean.{mean, Picks, average_valid-mean}
use ve_xchange_api.Provider.Localized.{remove_all}
use ve_xchange_api.Provider.EffectiveDate.{codes, atoi, parse_effective_date, to_lower}
use ve_xchange_api.Provider.EffectiveDate.Search.{parse_effective_date-date_text}
use ve_xchange_api.Examples.Toys.{nat_float}
use Prim.Native.String.{String}

-- A function that fails twice and then answers 7.
abbrev third_time : ℕ → Result String ℕ
third_time zero = err "refused"
third_time (suc zero) = err "timeout"
third_time (suc (suc n)) = ok 7

with_retry_ok_example :
    with_retry rest call 3 500 (fresh third_time) ≡ (ok 7, at_call third_time 3 (delays 2 500))
with_retry_ok_example =
    with_retry_ok third_time 3 500 2 7 (omega arith) (omega arith) (omega arith) fails refl
  where
    fails : (j : ℕ) → j < 2 → (e : String) × (third_time j ≡ err e)
    fails zero h = ("refused", refl)
    fails (suc zero) h = ("timeout", refl)
    fails (suc (suc j)) h = absurd (omega arith)

abbrev never : ℕ → Result String ℕ
never n = err "timeout"

with_retry_err_example :
    (e : String) × (never 2 ≡ err e)
    × (with_retry rest call 3 500 (fresh never)
        ≡ (err (record { attempts = 3; last = some e }), at_call never 3 (delays 2 500)))
with_retry_err_example =
    with_retry_err never 2 500 (omega arith) (omega arith) (λ j h. ("timeout", refl))

average_valid_example :
    (ys : List ℕ) × Picks (40 ∷ 0 ∷ 44 ∷ []) ys
    × (average_valid {F = ℕ} (40 ∷ 0 ∷ 44 ∷ []) ≡ mean ys)
average_valid_example = average_valid-mean (40 ∷ 0 ∷ 44 ∷ [])

-- In place of `ParseFloat`: the number of hundredths.
abbrev hundredths : List ℕ → Option ℕ
hundredths s = atoi (remove_all b'.' s)

monday-IsValid : IsValid (civil (absolute_year 2026) 7 13)
unfolding days_in_month
monday-IsValid = record {
  month_ge = omega arith;
  month_le = omega arith;
  day_ge = omega arith;
  day_le = omega arith;
}

date_text_example :
    parse_effective_date (λ c. c) (codes "Fecha Valor: Lunes, 13 Julio 2026")
    ≡ ok (date (civil (absolute_year 2026) 7 13) 0 0 utc)
unfolding to_lower is_digit digit
date_text_example =
    parse_effective_date-date_text 13 7 2026 [] monday-IsValid (omega arith) (λ c. c)
      (codes "Fecha Valor: Lunes, 13 Julio 2026") (codes "fecha valor: lunes, ") refl (ground arith)
