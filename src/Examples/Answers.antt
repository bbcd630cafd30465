-- ===== src/Examples/Answers.antt =====
-- Answers of the HTTP interface.
use ve_xchange_api.Prelude.{ℕ, ◌≤◌, ◌<◌, ◌≡◌, ◌↔◌, refl, true, [], ◌∷◌, arith}
use ve_xchange_api.GoTime.{
  Time, CivilDate, civil, absolute_year, utc, date_of, day_number, days_in_month,
}
use ve_xchange_api.GoTime.Months.{IsValid}
use ve_xchange_api.State.Effects.{Rate, usdt}
use ve_xchange_api.Api.Currency
use ve_xchange_api.Api.Types.{AllRates}
use ve_xchange_api.Handler.{
  status_ok, all_rates, write_json, get_health, get_rates_handler, get_rates_currency,
  get_rates_currency_history,
}
use ve_xchange_api.Handler.Staleness.{IsStale, get_health-status_iff}
use ve_xchange_api.Handler.Agreement.{
  entry_at, narrow, get_rates_currency-get_rates, IsStaleEntry, get_rates-is_stale_iff,
}
use ve_xchange_api.Handler.Query.{params_of, answer, get_rates_currency_history-window}
use ve_xchange_api.Examples.Toys.{
  nat_float, toy_store, toy_server, no_rates, friday_evening, july, row,
}

status_example :
    ((get_health toy_server friday_evening).status ≡ status_ok)
    ↔ ((r : Rate) → ¬ IsStale no_rates friday_evening r)
status_example = get_health-status_iff toy_server friday_evening

get_rates_currency_example :
    let all = get_rates_handler toy_server friday_evening in
    get_rates_currency toy_server friday_evening "usdt" ≡ record all { body = narrow usdt all.body }
get_rates_currency_example = get_rates_currency-get_rates toy_server friday_evening usdt

get_rates_example :
    (a : AllRates ℕ) × (get_rates_handler toy_server friday_evening
      ≡ write_json status_ok (all_rates a))
    × ((r : Rate)
        → ((entry_at r a).is_stale ≡ true)
          ↔ IsStaleEntry
              (("usd_bcv", row 36 (july 9 18 utc)) ∷ ("usdt", row 50 (july 10 21 utc)) ∷ [])
              no_rates
              friday_evening
              r)
get_rates_example =
    get_rates-is_stale_iff toy_server friday_evening toy_store
      (("usd_bcv", row 36 (july 9 18 utc)) ∷ ("usdt", row 50 (july 10 21 utc)) ∷ []) refl refl

abbrev first_of_july : CivilDate
first_of_july = civil (absolute_year 2026) 7 1

abbrev last_of_july : CivilDate
last_of_july = civil (absolute_year 2026) 7 31

july-IsValid : IsValid first_of_july × IsValid last_of_july
unfolding days_in_month
july-IsValid = (
  record {
    month_ge = omega arith;
    month_le = omega arith;
    day_ge = omega arith;
    day_le = omega arith;
  },
  record {
    month_ge = omega arith;
    month_le = omega arith;
    day_ge = omega arith;
    day_le = omega arith;
  },
)

history_example :
    (from to : Time) × (get_rates_currency_history toy_server "usdt"
        (params_of first_of_july last_of_july)
      ≡ answer "usdt" (toy_store.get_history "usdt" from to))
    × ((t : Time)
        → t.loc ≡ utc
        → ((from.ns ≤ t.ns) × (t.ns < to.ns)) ↔ (
            (day_number first_of_july ≤ day_number (date_of t))
            × (day_number (date_of t) ≤ day_number last_of_july)))
unfolding Currency.valid
history_example =
    get_rates_currency_history-window toy_server toy_store "usdt" first_of_july last_of_july refl
      refl july-IsValid.0 (omega arith, omega arith) july-IsValid.1 (omega arith, omega arith)
