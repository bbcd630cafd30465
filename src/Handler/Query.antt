-- ===== src/Handler/Query.antt =====
-- /rates/{currency}/history: what is asked of the store, and when the answer is 200.
use ve_xchange_api.Prelude.{◌/◌, ◌≤◌, ◌<◌, true, ◌≡◌, ◌↔◌, Option, none, some, List, arith}
use ve_xchange_api.GoTime.{
  Time, CivilDate, utc, day_length, wall, date, date_of, day_number, add_days,
}
use ve_xchange_api.GoTime.Calendar.{day_number-civil_of_day}
use ve_xchange_api.GoTime.Months.{IsValid}
use ve_xchange_api.GoTime.DateOnly.{
  IsFourDigit, parse_date_only, format_date_only, parse_date_only-format_date_only,
}
use ve_xchange_api.Db as Db
use ve_xchange_api.Api.Currency
use ve_xchange_api.Api.Currency.{Currency}
use ve_xchange_api.Api.Types.{GetRatesCurrencyHistoryParams}
use ve_xchange_api.Handler.{
  status_ok, status_internal_server_error, Response, Server, rate_history, write_json, write_error,
  to_api_entries, midnight, get_rates_currency_history,
}

-- An instant lies from the midnight that begins the day `a` to before the midnight that ends the day
-- `b` exactly when its date in UTC is one of the days from `a` to `b`.
window_iff :
    (a b : CivilDate) (t : Time)
    → t.loc ≡ utc
    → (((midnight a).ns ≤ t.ns) × (t.ns < (add_days 1 (midnight b)).ns))
      ↔ ((day_number a ≤ day_number (date_of t)) × (day_number (date_of t) ≤ day_number b))
unfolding date add_days date_of wall
window_iff a b t e =
    rw (day_number-civil_of_day (wall t / day_length)) (λ h. ground arith, λ h. ground arith)

-- The parameters for the days from `a` to `b`.
abbrev pub params_of : CivilDate → CivilDate → GetRatesCurrencyHistoryParams
params_of a b = record { from_date = format_date_only a; to_date = format_date_only b }

module _ {ℓ} {F : Type ℓ} where
  -- The answer to what the store returns.
  abbrev pub answer : Currency → Option (List (Db.HistoryEntry F)) → Response F
  answer c none = write_error status_internal_server_error "failed to query history"
  answer c (some entries) =
      write_json status_ok
        (rate_history (record { currency = c; entries = to_api_entries entries }))

  -- With a store, asked for the days from `a` to `b` of a valid currency, two dates that exist in
  -- the years 0 to 9999, the handler returns what the store has of the currency from one instant
  -- to before another, or 500; and an instant lies between those exactly when its UTC date is one
  -- of the days from `a` to `b`, the last day included.
  pub get_rates_currency_history-window :
      (h : Server F) (store : Db.Store F) (c : Currency) (a b : CivilDate)
      → h.store ≡ some store
      → Currency.valid c ≡ true
      → IsValid a
      → IsFourDigit a.year
      → IsValid b
      → IsFourDigit b.year
      → (from to : Time) × (get_rates_currency_history h c (params_of a b)
          ≡ answer c (store.get_history c from to))
        × ((t : Time)
            → t.loc ≡ utc
            → ((from.ns ≤ t.ns) × (t.ns < to.ns))
              ↔ ((day_number a ≤ day_number (date_of t)) × (day_number (date_of t) ≤ day_number b)))
  unfolding get_rates_currency_history
  get_rates_currency_history-window h store c a b e v va fa vb fb = (
    midnight a,
    add_days 1 (midnight b),
    rw (v, e, parse_date_only-format_date_only a va fa, parse_date_only-format_date_only b vb fb)
        (ground arith),
    window_iff a b,
  )

  -- Why an answer is 200: the currency is valid, there is a store, both dates parse, and the store
  -- answered the query for them with the entries that the body holds.
  pub record Succeeds (h : Server F) (c : Currency) (params : GetRatesCurrencyHistoryParams)
      (r : Response F) : Type ℓ where
    pub valid : Currency.valid c ≡ true
    pub store : Db.Store F
    pub has_store : h.store ≡ some store
    pub from : CivilDate
    pub from_parses : parse_date_only params.from_date ≡ some from
    pub to : CivilDate
    pub to_parses : parse_date_only params.to_date ≡ some to
    pub entries : List (Db.HistoryEntry F)
    pub found : store.get_history c (midnight from) (add_days 1 (midnight to)) ≡ some entries
    pub is_answer : r ≡ answer c (some entries)

  -- The handler answers 200 only if the currency is valid, there is a store, both dates parse, and
  -- the store answered the query for them, with the entries that the body holds.
  get_rates_currency_history-Succeeds :
      (h : Server F) (c : Currency) (params : GetRatesCurrencyHistoryParams)
      → (get_rates_currency_history h c params).status ≡ status_ok
      → Succeeds h c params (get_rates_currency_history h c params)
  unfolding get_rates_currency_history
  get_rates_currency_history-Succeeds h c params e = ground arith
