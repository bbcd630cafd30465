-- ===== src/Server.antt =====
-- cmd/server/main.go: the jobs that `main` sets up, on a world that holds the state in memory, the
-- metrics, and everything outside the program.
pub mod Alarm
pub mod Flags
pub mod WarmUp
pub mod Consolidation
pub mod Nightly
pub mod Startup
pub mod Shutdown
pub mod Http
pub mod Backend
use Prim.Native.String.{String}
use text.Mathlib.Text.{◌==◌}
use ve_xchange_api.Prelude.{
  ℕ, ◌+◌, ◌*◌, Bool, true, false, ◌&&◌, not, Option, none, some, List, [], ◌∷◌, if◌then◌else◌,
}
use ve_xchange_api.Prelude.Dict.{Dict, lookup, insert, map_values}
use ve_xchange_api.Prelude.Float.{Float64}
use ve_xchange_api.Prelude.Result.{Result}
use ve_xchange_api.GoTime.{
  Time, Location, CivilDate, in_loc, date_of, date, add_days, sub_days, minute, utc,
}
use ve_xchange_api.Rates.{PriceResponse}
use ve_xchange_api.State.{
  State, WarmEntry, key_usd_bcv, key_eur_bcv, key_usdt_binance, key_usdt_binance_buy,
  key_usdt_binance_sell, update_bcv_price, update_binance_price, mark_bcv_failing,
  clear_bcv_failing, mark_binance_failing, clear_binance_failing, warm_up,
}
use ve_xchange_api.Db as Db
use ve_xchange_api.Api.Currency
use ve_xchange_api.Worker.Schedule.{TimeOfDay, BusinessWindow}
use ve_xchange_api.Worker.Job.{ProviderJob}
use ve_xchange_api.Provider.Publication.{PublicationError, validate_bcv_publication}

-- What is outside of the program: the clock, the database, the pages of the providers. `insert_rate`
-- answers whether the row was written, and the providers' `GetPrices` are arguments here.
pub record Outside {ℓ} (F X E : Type ℓ) : Type ℓ where
  pub now : X → Time × X
  pub insert_rate : String → F → Time → X → Bool × X
  pub bcv_prices : X → Result E (PriceResponse F) × X
  pub binance_prices : X → Result E (PriceResponse F) × X
  -- an error of the publication check, as a Go error
  pub rejected : PublicationError → E

-- internal/metrics/metrics.go: the counter of fetches by provider and status, and the gauges.
pub record Metrics {ℓ} (F : Type ℓ) : Type ℓ where
  pub fetch_total : String → String → ℕ
  pub consecutive_failures : Dict ℕ
  pub rate_value : Dict F

pub record World {ℓ} (F X : Type ℓ) : Type ℓ where
  pub app_state : State F
  pub metrics : Metrics F
  -- whether `dbStore` is not nil
  pub has_store : Bool
  pub outside : X

-- time.FixedZone("UTC-4", -4*60*60)
abbrev pub utc_minus_4 : Location
utc_minus_4 = record { east = 0; west = 4 * 60 * 60 }

abbrev pub time_of_day : ℕ → ℕ → TimeOfDay
time_of_day h m = record { hour = h; minute = m; location = some utc_minus_4 }

abbrev pub bcv_window : BusinessWindow
bcv_window = record {
  start = time_of_day 17 0;
  end = time_of_day 19 0;
  retry_every = 30 * minute;
  weekdays_only = false;
}

module _ {ℓ} {F X E : Type ℓ} (o : Outside F X E) where
  -- `time.Now()` in the program's world.
  abbrev pub world_now : World F X → Time × World F X
  world_now w = let (t, x) = o.now w.outside in (t, record w { outside = x })

  -- A provider's `GetPrices` in the program's world.
  abbrev pub ask :
      (X → Result E (PriceResponse F) × X) → World F X → Result E (PriceResponse F) × World F X
  ask get w = let (answer, x) = get w.outside in (answer, record w { outside = x })

  -- `if v, ok := pr.Values[key]; ok { metrics.RateValue.WithLabelValues(name).Set(v) }`
  abbrev pub set_gauge : Option F → String → Dict F → Dict F
  set_gauge none name gauge = gauge
  set_gauge (some v) name gauge = insert name v gauge

  -- `if v, ok := pr.Values[key]; ok { dbStore.InsertRate(ctx, name, v, now) }`; an error is only logged.
  abbrev pub persist : Option F → String → Time → X → X
  persist none name t x = x
  persist (some v) name t x = (o.insert_rate name v t x).1

  -- `AfterFetch`
  abbrev pub count_fetch : String → ℕ → Bool → World F X → World F X
  count_fetch provider fails success w =
      let status = if success then "success" else "failure" in
      record w {
        metrics = record (w.metrics) {
          fetch_total = λ p s.
              if (p == provider) && (s == status)
              then w.metrics.fetch_total p s + 1
              else w.metrics.fetch_total p s;
          consecutive_failures = insert provider fails w.metrics.consecutive_failures;
        };
      }

  pub apply_bcv : PriceResponse F → World F X → World F X
  apply_bcv pr w =
      let (t, x) = o.now w.outside in
      let usd = lookup key_usd_bcv pr.values in
      let eur = lookup key_eur_bcv pr.values in
      let gauge =
        set_gauge eur Currency.eur_bcv (set_gauge usd Currency.usd_bcv w.metrics.rate_value) in
      let (t', x') = o.now x in
      let written = persist eur Currency.eur_bcv t' (persist usd Currency.usd_bcv t' x') in
      record w {
        app_state = update_bcv_price t w.app_state pr;
        metrics = record (w.metrics) { rate_value = gauge };
        outside = if w.has_store then written else x;
      }

  pub apply_binance : PriceResponse F → World F X → World F X
  apply_binance pr w =
      let (t, x) = o.now w.outside in
      let usdt = lookup key_usdt_binance pr.values in
      let buy = lookup key_usdt_binance_buy pr.values in
      let sell = lookup key_usdt_binance_sell pr.values in
      let gauge =
        set_gauge sell Currency.usdt_venta (
          set_gauge buy Currency.usdt_compra (set_gauge usdt Currency.usdt w.metrics.rate_value)) in
      let (t', x') = o.now x in
      let written =
        persist sell Currency.usdt_venta t'
          (persist buy Currency.usdt_compra t' (persist usdt Currency.usdt t' x')) in
      record w {
        app_state = update_binance_price t w.app_state pr;
        metrics = record (w.metrics) { rate_value = gauge };
        outside = if w.has_store then written else x;
      }

  abbrev pub on_state : (State F → State F) → World F X → World F X
  on_state f w = record w { app_state = f w.app_state }

  abbrev pub reject : Option PublicationError → Option E
  reject none = none
  reject (some e) = some (o.rejected e)

  abbrev pub bcv_job : ProviderJob (World F X) (PriceResponse F) E
  bcv_job = record {
    get_prices = ask o.bcv_prices;
    every = 0;
    daily_at = none;
    business_window = some bcv_window;
    apply = apply_bcv;
    validate_scheduled = some (λ pr now. reject (validate_bcv_publication pr now utc_minus_4));
    on_fail = some (λ c. on_state mark_bcv_failing);
    on_recover = some (on_state clear_bcv_failing);
    after_fetch = some (count_fetch "BCV");
  }

  abbrev pub binance_job : ProviderJob (World F X) (PriceResponse F) E
  binance_job = record {
    get_prices = ask o.binance_prices;
    every = 5 * minute;
    daily_at = none;
    business_window = none;
    apply = apply_binance;
    validate_scheduled = none;
    on_fail = some (λ c. on_state mark_binance_failing);
    on_recover = some (on_state clear_binance_failing);
    after_fetch = some (count_fetch "USDT");
  }

module _ {ℓ} {F : Type ℓ} where
  abbrev pub to_warm : Db.HistoryEntry F → WarmEntry F
  to_warm entry = record { value = entry.value; recorded_at = entry.recorded_at }

  -- The warm-up of `main` from the store's latest rates; `none` is a failed query.
  pub warm_start : State F → Option (Dict (Db.HistoryEntry F)) → State F
  warm_start s none = s
  warm_start s (some []) = s
  warm_start s (some (e ∷ es)) = warm_up s (map_values to_warm (e ∷ es))

-- The days that `Run` of the task "binance-consolidation" passes to `ConsolidateDay`: from, to.
unfoldable pub consolidation_window : Time → Time × Time
consolidation_window now =
    let yesterday = sub_days 1 (in_loc utc_minus_4 now) in
    let from = date (date_of yesterday) 0 0 utc_minus_4 in (from, add_days 1 from)
