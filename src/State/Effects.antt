-- ===== src/State/Effects.antt =====
-- What each operation does to each rate.
use ve_xchange_api.Prelude.{Bool, true, false, ◌≡◌, arith, if◌then◌else◌}
use ve_xchange_api.Prelude.Dict.{Dict, lookup}
use ve_xchange_api.GoTime.{Time}
use ve_xchange_api.Rates.{PriceResponse}
use ve_xchange_api.State.{
  State, RateData, WarmEntry, key_usd_bcv, key_eur_bcv, key_usdt_binance, key_usdt_binance_buy,
  key_usdt_binance_sell, set_failing, store, store_warm, mark_bcv_failing, clear_bcv_failing,
  mark_binance_failing, clear_binance_failing, warm_up, update_bcv_price, update_binance_price,
}
use Prim.Native.String.{String}

-- The five rates of the state.
pub data Rate : Type 0 where
  usd_bcv eur_bcv usdt usdt_compra usdt_venta : Rate

pub data Provider : Type 0 where
  bcv binance : Provider

-- Which provider publishes a rate, and under which key.
abbrev pub comes_from : Rate → Provider → Bool
comes_from usd_bcv bcv = true
comes_from eur_bcv bcv = true
comes_from usdt binance = true
comes_from usdt_compra binance = true
comes_from usdt_venta binance = true
comes_from _ _ = false

abbrev pub key_of : Rate → String
key_of usd_bcv = key_usd_bcv
key_of eur_bcv = key_eur_bcv
key_of usdt = key_usdt_binance
key_of usdt_compra = key_usdt_binance_buy
key_of usdt_venta = key_usdt_binance_sell

module _ {ℓ} {F : Type ℓ} where
  abbrev pub rate_of : Rate → State F → RateData F
  rate_of usd_bcv s = s.usd_bcv
  rate_of eur_bcv s = s.eur_bcv
  rate_of usdt s = s.usdt
  rate_of usdt_compra s = s.usdt_compra
  rate_of usdt_venta s = s.usdt_venta

  -- The operations by provider.
  abbrev pub mark_failing : Provider → State F → State F
  mark_failing bcv = mark_bcv_failing
  mark_failing binance = mark_binance_failing

  abbrev pub clear_failing : Provider → State F → State F
  clear_failing bcv = clear_bcv_failing
  clear_failing binance = clear_binance_failing

  abbrev pub update_price : Provider → Time → State F → PriceResponse F → State F
  update_price bcv = update_bcv_price
  update_price binance = update_binance_price

  -- An update stores what the response has under the rate's key if the provider is the rate's own,
  -- and changes no other rate; a missing key keeps the old value and time, and no flag changes.
  rate_of-update_price :
      (p : Provider) (r : Rate) (now : Time) (s : State F) (resp : PriceResponse F)
      → rate_of r (update_price p now s resp) ≡ (
          if comes_from r p
          then store (lookup (key_of r) resp.values) now (rate_of r s)
          else rate_of r s)
  unfolding update_bcv_price update_binance_price
  rate_of-update_price p r now s resp = ground arith

  -- Marking and clearing set the flag of the provider's own rates, and change nothing else.
  rate_of-mark_failing :
      (p : Provider) (r : Rate) (s : State F)
      → (rate_of r (mark_failing p s)
          ≡ (if comes_from r p then set_failing true (rate_of r s) else rate_of r s))
        × (rate_of r (clear_failing p s)
            ≡ (if comes_from r p then set_failing false (rate_of r s) else rate_of r s))
  unfolding mark_bcv_failing clear_bcv_failing mark_binance_failing clear_binance_failing
  rate_of-mark_failing p r s = (ground arith, ground arith)

  pub rate_of-warm_up :
      (r : Rate) (s : State F) (entries : Dict (WarmEntry F))
      → rate_of r (warm_up s entries) ≡ store_warm (lookup (key_of r) entries) (rate_of r s)
  unfolding warm_up
  rate_of-warm_up r s entries = ground arith

  -- A state is its five rates.
  pub rate_of_ext : (s t : State F) → ((r : Rate) → rate_of r s ≡ rate_of r t) → s ≡ t
  rate_of_ext s t h = ground (arith, h usd_bcv, h eur_bcv, h usdt, h usdt_compra, h usdt_venta)
