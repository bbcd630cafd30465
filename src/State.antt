-- ===== src/State.antt =====
-- internal/state/state.go: the rates that are kept in memory. Each operation holds the mutex from
-- its first line to its last, so it is one step on the rates; `time.Now()` is the argument `now`.
pub mod Effects
pub mod Interleave
use Prim.Native.String.{String}
use ve_xchange_api.Prelude.{Bool, true, false, Option, none, some}
use ve_xchange_api.Prelude.Dict.{Dict, lookup}
use ve_xchange_api.Prelude.Float.{Float64}
use ve_xchange_api.GoTime.{Time}
use ve_xchange_api.Rates.{PriceResponse}

abbrev pub key_usd_bcv : String
key_usd_bcv = "USD_BCV"

abbrev pub key_eur_bcv : String
key_eur_bcv = "EUR_BCV"

abbrev pub key_usdt_binance : String
key_usdt_binance = "USDT"

abbrev pub key_usdt_binance_buy : String
key_usdt_binance_buy = "USDT_BINANCE_SELL"

abbrev pub key_usdt_binance_sell : String
key_usdt_binance_sell = "USDT_BINANCE_BUY"

pub record RateData {ℓ} (F : Type ℓ) : Type ℓ where
  pub value : F
  pub last_updated : Option Time
  pub provider_failing : Bool

-- `StateRates`, which is all of `State` but its mutex.
pub record State {ℓ} (F : Type ℓ) : Type ℓ where
  pub usd_bcv : RateData F
  pub eur_bcv : RateData F
  pub usdt : RateData F
  pub usdt_compra : RateData F
  pub usdt_venta : RateData F

pub record WarmEntry {ℓ} (F : Type ℓ) : Type ℓ where
  pub value : F
  pub recorded_at : Time

module _ {ℓ} {F : Type ℓ} where
  -- `RateData{}` and `State{}`: Go's zero values.
  abbrev pub no_rate : ⦃f : Float64 F⦄ → RateData F
  no_rate ⦃f⦄ = record { value = f.nought; last_updated = none; provider_failing = false }

  unfoldable pub new_state : ⦃f : Float64 F⦄ → State F
  new_state = record {
    usd_bcv = no_rate;
    eur_bcv = no_rate;
    usdt = no_rate;
    usdt_compra = no_rate;
    usdt_venta = no_rate;
  }

  unfoldable pub update_rates : State F → State F → State F
  update_rates s new_rates = new_rates

  unfoldable pub get_rates : State F → State F
  get_rates s = s

  abbrev pub set_failing : Bool → RateData F → RateData F
  set_failing b d = record d { provider_failing = b }

  unfoldable pub mark_bcv_failing : State F → State F
  mark_bcv_failing s = record s {
    usd_bcv = set_failing true s.usd_bcv;
    eur_bcv = set_failing true s.eur_bcv;
  }

  unfoldable pub clear_bcv_failing : State F → State F
  clear_bcv_failing s = record s {
    usd_bcv = set_failing false s.usd_bcv;
    eur_bcv = set_failing false s.eur_bcv;
  }

  unfoldable pub mark_binance_failing : State F → State F
  mark_binance_failing s = record s {
    usdt = set_failing true s.usdt;
    usdt_compra = set_failing true s.usdt_compra;
    usdt_venta = set_failing true s.usdt_venta;
  }

  unfoldable pub clear_binance_failing : State F → State F
  clear_binance_failing s = record s {
    usdt = set_failing false s.usdt;
    usdt_compra = set_failing false s.usdt_compra;
    usdt_venta = set_failing false s.usdt_venta;
  }

  -- `if v, ok := m[k]; ok { d.Value = v; d.LastUpdated = &t }`
  abbrev pub store : Option F → Time → RateData F → RateData F
  store none t d = d
  store (some v) t d = record d { value = v; last_updated = some t }

  abbrev pub store_warm : Option (WarmEntry F) → RateData F → RateData F
  store_warm none d = d
  store_warm (some e) d = store (some e.value) e.recorded_at d

  pub warm_up : State F → Dict (WarmEntry F) → State F
  warm_up s entries = record {
    usd_bcv = store_warm (lookup key_usd_bcv entries) s.usd_bcv;
    eur_bcv = store_warm (lookup key_eur_bcv entries) s.eur_bcv;
    usdt = store_warm (lookup key_usdt_binance entries) s.usdt;
    usdt_compra = store_warm (lookup key_usdt_binance_buy entries) s.usdt_compra;
    usdt_venta = store_warm (lookup key_usdt_binance_sell entries) s.usdt_venta;
  }

  unfoldable pub update_bcv_price : Time → State F → PriceResponse F → State F
  update_bcv_price now s resp = record s {
    usd_bcv = store (lookup key_usd_bcv resp.values) now s.usd_bcv;
    eur_bcv = store (lookup key_eur_bcv resp.values) now s.eur_bcv;
  }

  unfoldable pub update_binance_price : Time → State F → PriceResponse F → State F
  update_binance_price now s resp = record s {
    usdt = store (lookup key_usdt_binance resp.values) now s.usdt;
    usdt_compra = store (lookup key_usdt_binance_buy resp.values) now s.usdt_compra;
    usdt_venta = store (lookup key_usdt_binance_sell resp.values) now s.usdt_venta;
  }
