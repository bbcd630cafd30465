-- ===== src/Handler.antt =====
-- internal/handler/handlers.go: the answers of the HTTP interface. A handler is a function from the
-- server, whose parts it only reads, to the response; `h.now()` is the argument `now`.
pub mod Staleness
pub mod Agreement
pub mod Query
use Prim.Native.String.{String}
use text.Mathlib.Text.{◌==◌}
use ve_xchange_api.Prelude.{
  ℕ, ◌*◌, ◌/◌, ◌%◌, Bool, true, false, not, ◌||◌, Option, none, some, List, [], ◌∷◌, ◌++◌,
  if◌then◌else◌,
}
use ve_xchange_api.Prelude.Int.{ℤ, pos, pos_part, ltb_ℤ, max_ℤ}
use ve_xchange_api.Prelude.Dict.{Dict, lookup}
use ve_xchange_api.Prelude.Float.{Float64}
use ve_xchange_api.GoTime.{Time, CivilDate, utc, hour, minute, second, sub, date, add_days}
use ve_xchange_api.GoTime.DateOnly.{parse_date_only}
use ve_xchange_api.State.{State, RateData, get_rates}
use ve_xchange_api.Db as Db
use ve_xchange_api.Api.Currency
use ve_xchange_api.Api.Currency.{Currency}
use ve_xchange_api.Api.Types.{
  RateEntry, AllRates, HealthStatus, degraded, ok, Health, HistoryEntry, RateHistory,
  GetRatesCurrencyHistoryParams, ErrorBody,
}

abbrev pub staleness_bcv : ℕ
staleness_bcv = 26 * hour

abbrev pub staleness_binance : ℕ
staleness_binance = 15 * minute

abbrev pub status_ok : ℕ
status_ok = 200

abbrev pub status_bad_request : ℕ
status_bad_request = 400

abbrev pub status_not_found : ℕ
status_not_found = 404

abbrev pub status_internal_server_error : ℕ
status_internal_server_error = 500

abbrev pub status_service_unavailable : ℕ
status_service_unavailable = 503

-- The value that `writeJSON` encodes.
pub data Body {ℓ} (F : Type ℓ) : Type ℓ where
  all_rates : AllRates F → Body F
  rate_entry : RateEntry F → Body F
  health : Health → Body F
  rate_history : RateHistory F → Body F
  error : ErrorBody → Body F

pub record Response {ℓ} (F : Type ℓ) : Type ℓ where
  pub status : ℕ
  pub content_type : String
  pub body : Body F

pub record Server {ℓ} (F : Type ℓ) : Type ℓ where
  pub app_state : State F
  pub store : Option (Db.Store F)

module _ {ℓ} {F : Type ℓ} where
  abbrev pub new_server : State F → Server F
  new_server s = record { app_state = s; store = none }

  abbrev pub new_server_with_store : State F → Db.Store F → Server F
  new_server_with_store s store = record { app_state = s; store = some store }

  abbrev pub write_json : ℕ → Body F → Response F
  write_json status body = record {
    status = status;
    content_type = "application/json";
    body = body;
  }

  abbrev pub write_error : ℕ → String → Response F
  write_error status text = write_json status (error (record { error = text }))

  pub is_stale : RateData F → ℕ → Time → Bool
  is_stale d threshold now =
      if d.provider_failing
      then true
      else elim d.last_updated [ none ↦ true | some t ↦ ltb_ℤ (pos threshold) (sub now t) ]

  -- `if isStale(d, threshold, now) { stale = append(stale, c) }`
  abbrev pub append_stale : Time → RateData F → ℕ → Currency → List Currency → List Currency
  append_stale now d threshold c stale =
      if is_stale d threshold now then stale ++ (c ∷ []) else stale

  pub get_health : Server F → Time → Response F
  get_health h now =
      let snapshot = get_rates h.app_state in
      let s1 = append_stale now snapshot.usd_bcv staleness_bcv Currency.usd_bcv [] in
      let s2 = append_stale now snapshot.eur_bcv staleness_bcv Currency.eur_bcv s1 in
      let s3 = append_stale now snapshot.usdt staleness_binance Currency.usdt s2 in
      let s4 = append_stale now snapshot.usdt_compra staleness_binance Currency.usdt_compra s3 in
      let stale = append_stale now snapshot.usdt_venta staleness_binance Currency.usdt_venta s4 in
      elim stale [
        | [] ↦ write_json status_ok (health (record { stale = none; status = ok }))
        | c ∷ cs ↦
            write_json status_service_unavailable
              (health (record { stale = some (c ∷ cs); status = degraded }))
      ]

module _ {ℓ κ} {F : Type ℓ} {A : Type κ} where
  -- What follows `h.store.GetLatestRates`; `fail` gets the answer of an early return.
  abbrev pub if_latest :
      Option (Dict (Db.HistoryEntry F))
      → (fail : Response F → A) → (Dict (Db.HistoryEntry F) → A)
      → A
  if_latest none fail found =
      fail (write_error status_service_unavailable "failed to query latest rates")
  if_latest (some latest) fail found = found latest

  -- The beginning of `GetRates` and, for a valid currency, of `GetRatesCurrency`.
  abbrev pub with_latest :
      Option (Db.Store F) → (fail : Response F → A) → (Dict (Db.HistoryEntry F) → A) → A
  with_latest none fail found =
      fail (write_error status_service_unavailable "database not configured")
  with_latest (some store) fail found = if_latest store.get_latest_rates fail found

-- int(d.Seconds()) for a duration that is not negative: float64(sec) + float64(nsec) / 1e9
unfoldable pub whole_seconds {ℓ} : {F : Type ℓ} → Float64 F → ℕ → ℕ
whole_seconds f d =
    f.trunc (f.add (f.of_count (d / second)) (f.div (f.of_count (d % second)) (f.of_count second)))

-- 00:00 UTC of a date.
abbrev pub midnight : CivilDate → Time
midnight d = date d 0 0 utc

module _ {ℓ} {F : Type ℓ} ⦃f : Float64 F⦄ where
  unfoldable pub to_stored_rate_entry : Option (Db.HistoryEntry F) → Bool → ℕ → Time → RateEntry F
  to_stored_rate_entry none provider_failing threshold now = record {
    value = f.nought;
    last_updated = none;
    data_age_seconds = 0;
    is_stale = true;
  }
  to_stored_rate_entry (some entry) provider_failing threshold now =
      let age = max_ℤ (sub now entry.recorded_at) (pos 0) in
      record {
        value = entry.value;
        last_updated = some entry.recorded_at;
        data_age_seconds = whole_seconds f (pos_part age);
        is_stale = provider_failing || ltb_ℤ (pos threshold) age;
      }

  -- The entry of one rate: what the store has under its name, and the flag that the state keeps.
  abbrev pub entry_of : Dict (Db.HistoryEntry F) → Time → Currency → RateData F → ℕ → RateEntry F
  entry_of latest now c d threshold =
      to_stored_rate_entry (lookup c latest) d.provider_failing threshold now

  -- The body of `GetRates`.
  abbrev pub all_entries : Dict (Db.HistoryEntry F) → Time → State F → AllRates F
  all_entries latest now snapshot = record {
    eur_bcv = entry_of latest now Currency.eur_bcv snapshot.eur_bcv staleness_bcv;
    usd_bcv = entry_of latest now Currency.usd_bcv snapshot.usd_bcv staleness_bcv;
    usdt = entry_of latest now Currency.usdt snapshot.usdt staleness_binance;
    usdt_compra = entry_of latest now Currency.usdt_compra snapshot.usdt_compra staleness_binance;
    usdt_venta = entry_of latest now Currency.usdt_venta snapshot.usdt_venta staleness_binance;
  }

  -- `GetRates`, once the store has answered.
  abbrev pub rates_response : Server F → Time → Dict (Db.HistoryEntry F) → Response F
  rates_response h now latest =
      write_json status_ok (all_rates (all_entries latest now (get_rates h.app_state)))

  -- `GetRates`
  unfoldable pub get_rates_handler : Server F → Time → Response F
  get_rates_handler h now = with_latest h.store (λ resp. resp) (rates_response h now)

  -- `api.RateEntry{}`
  abbrev pub no_entry : RateEntry F
  no_entry = record {
    value = f.nought;
    last_updated = none;
    data_age_seconds = 0;
    is_stale = false;
  }

  -- The `switch` of `GetRatesCurrency`; without a case the entry stays the zero value.
  unfoldable pub switch_entry : Dict (Db.HistoryEntry F) → Time → State F → Currency → RateEntry F
  switch_entry latest now snapshot currency =
      if currency == Currency.usd_bcv
      then entry_of latest now Currency.usd_bcv snapshot.usd_bcv staleness_bcv
      else if currency == Currency.eur_bcv
      then entry_of latest now Currency.eur_bcv snapshot.eur_bcv staleness_bcv
      else if currency == Currency.usdt
      then entry_of latest now Currency.usdt snapshot.usdt staleness_binance
      else if currency == Currency.usdt_compra
      then entry_of latest now Currency.usdt_compra snapshot.usdt_compra staleness_binance
      else if currency == Currency.usdt_venta
      then entry_of latest now Currency.usdt_venta snapshot.usdt_venta staleness_binance
      else no_entry

  -- `GetRatesCurrency`, once the store has answered.
  abbrev pub rate_response : Server F → Time → Currency → Dict (Db.HistoryEntry F) → Response F
  rate_response h now currency latest =
      write_json status_ok (rate_entry (switch_entry latest now (get_rates h.app_state) currency))

  abbrev pub unknown_currency : Response F
  unknown_currency = write_error status_not_found "unknown currency"

  unfoldable pub get_rates_currency : Server F → Time → Currency → Response F
  get_rates_currency h now currency =
      if not (Currency.valid currency)
      then unknown_currency
      else with_latest h.store (λ resp. resp) (rate_response h now currency)

module _ {ℓ} {F : Type ℓ} where
  -- The loop that copies the store's entries.
  unfoldable pub to_api_entries : List (Db.HistoryEntry F) → List (HistoryEntry F)
  to_api_entries [] = []
  to_api_entries (e ∷ es) =
      record { value = e.value; recorded_at = e.recorded_at; is_average = e.is_average }
      ∷ to_api_entries es

  pub get_rates_currency_history : Server F → Currency → GetRatesCurrencyHistoryParams → Response F
  get_rates_currency_history h currency params =
      if not (Currency.valid currency)
      then write_error status_not_found "unknown currency"
      else elim h.store [
        | none ↦ write_error status_service_unavailable "database not configured"
        | some store ↦ elim (parse_date_only params.from_date) [
          | none ↦ write_error status_bad_request "invalid fromDate: expected YYYY-MM-DD"
          | some from ↦ elim (parse_date_only params.to_date) [
            | none ↦ write_error status_bad_request "invalid toDate: expected YYYY-MM-DD"
            | some to ↦
                elim (store.get_history currency (midnight from) (add_days 1 (midnight to))) [
                  | none ↦ write_error status_internal_server_error "failed to query history"
                  | some entries ↦ write_json status_ok (
                      rate_history
                        (record { currency = currency; entries = to_api_entries entries }))
                ]
          ]
        ]
      ]
