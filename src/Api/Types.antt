-- ===== src/Api/Types.antt =====
-- The bodies of internal/api/server.gen.go.
use Prim.Native.String.{String}
use ve_xchange_api.Prelude.{ℕ, Bool, Option, List}
use ve_xchange_api.GoTime.{Time}
use ve_xchange_api.Api.Currency.{Currency}

pub record RateEntry {ℓ} (F : Type ℓ) : Type ℓ where
  pub value : F
  pub last_updated : Option Time
  pub data_age_seconds : ℕ
  pub is_stale : Bool

pub record AllRates {ℓ} (F : Type ℓ) : Type ℓ where
  pub eur_bcv : RateEntry F
  pub usd_bcv : RateEntry F
  pub usdt : RateEntry F
  pub usdt_compra : RateEntry F
  pub usdt_venta : RateEntry F

pub data HealthStatus : Type 0 where
  degraded ok : HealthStatus

pub record Health : Type 0 where
  pub stale : Option (List Currency)
  pub status : HealthStatus

pub record HistoryEntry {ℓ} (F : Type ℓ) : Type ℓ where
  pub value : F
  pub recorded_at : Time
  pub is_average : Bool

pub record RateHistory {ℓ} (F : Type ℓ) : Type ℓ where
  pub currency : Currency
  pub entries : List (HistoryEntry F)

-- The parameters as the codes of their characters.
pub record GetRatesCurrencyHistoryParams : Type 0 where
  pub from_date : List ℕ
  pub to_date : List ℕ

-- `api.Error`
pub record ErrorBody : Type 0 where
  pub error : String
