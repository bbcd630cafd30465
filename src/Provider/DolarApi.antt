-- ===== src/Provider/DolarApi.antt =====
-- internal/provider/dolarApiProvider.go. The decoder of the answer is an argument.
pub mod Items
use Prim.Native.String.{String}
use text.Mathlib.Text.{◌==◌ as str_eq}
use ve_xchange_api.Prelude.{
  ℕ, Bool, not, ◌||◌, Option, none, some, List, [], ◌∷◌, ◌==◌, length, if◌then◌else◌,
}
use ve_xchange_api.Prelude.Dict.{Dict, lookup, insert}
use ve_xchange_api.Prelude.Result.{Result, ok, err}
use ve_xchange_api.Prelude.Action.{Action, ◌>>=◌, lift, wrap}
use ve_xchange_api.Prelude.Float.{Float64}
use ve_xchange_api.Rates.{PriceResponse}
use ve_xchange_api.Provider.Retry.{RetryError, with_retry}
use ve_xchange_api.Provider.Http.{Http, FetchError, make_request, fetch_json}

pub record DolarApiProvider : Type 0 where
  pub base_url : String
  pub retry_base_delay : ℕ

abbrev pub new_dolar_api_provider : DolarApiProvider
new_dolar_api_provider = record {
  base_url = "https://ve.dolarapi.com/v1/cotizaciones";
  retry_base_delay = 1_000_000_000;
}

pub record DolarApiCurrencyItem {ℓ} (F : Type ℓ) : Type ℓ where
  pub moneda : String
  pub fuente : String
  pub nombre : String
  pub promedio : F
  pub fecha_actualizacion : String

pub data DolarApiError {ℓ} (F B E : Type ℓ) : Type ℓ where
  unanswered : RetryError (FetchError B E) → DolarApiError F B E
  invalid_rates non_finite_rates : F → F → DolarApiError F B E

module _ {ℓ} {F : Type ℓ} where
  -- The `switch` of the loop.
  abbrev pub store_item : DolarApiCurrencyItem F → Dict F → Dict F
  store_item rate values =
      if str_eq rate.moneda "USD"
      then insert "USD_BCV" rate.promedio values
      else if str_eq rate.moneda "EUR"
      then insert "EUR_BCV" rate.promedio values
      else values

  -- The loop.
  unfoldable pub store_items : List (DolarApiCurrencyItem F) → Dict F → Dict F
  store_items [] values = values
  store_items (rate ∷ rates) values = store_items rates (store_item rate values)

-- `resp.Values[key]`: a missing key reads as zero.
abbrev pub or_zero {ℓ} : {F : Type ℓ} ⦃f : Float64 F⦄ → Option F → F
or_zero ⦃f⦄ none = f.nought
or_zero (some v) = v

module _ {ℓ} {F B E : Type ℓ} ⦃f : Float64 F⦄ where
  -- The tests after the loop.
  abbrev pub check_values : Dict F → Result (DolarApiError F B E) (PriceResponse F)
  check_values values =
      let usd = or_zero (lookup "USD_BCV" values) in
      let eur = or_zero (lookup "EUR_BCV" values) in
      if not (length values == 2)
      then err (invalid_rates usd eur)
      else if f.le usd f.nought || f.le eur f.nought
      then err (invalid_rates usd eur)
      else if f.is_nan usd || f.is_nan eur || f.is_inf usd || f.is_inf eur
      then err (non_finite_rates usd eur)
      else ok (record { values = values; effective_date = none })

  unfoldable pub read_items :
      List (DolarApiCurrencyItem F) → Result (DolarApiError F B E) (PriceResponse F)
  read_items items = check_values (store_items items [])

module _ {ℓ} {F W B E : Type ℓ} ⦃f : Float64 F⦄ (h : Http W B E)
    (decode : B → Result E (List (DolarApiCurrencyItem F))) (p : DolarApiProvider) where
  -- The closure that `withRetry` calls.
  abbrev pub ask_items : Action W (FetchError B E) (List (DolarApiCurrencyItem F))
  ask_items = do req ← make_request h "GET" p.base_url none; fetch_json h decode req

  unfoldable pub get_prices : Action W (DolarApiError F B E) (PriceResponse F)
  get_prices = do
    items ← wrap unanswered (with_retry h.sleep ask_items 3 p.retry_base_delay)
    lift (read_items items)
