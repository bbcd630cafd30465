-- ===== src/Provider/Binance/Quotes.antt =====
-- What a response of Binance says, and what it leaves in the state.
use ve_xchange_api.Prelude.{◌≡◌, List, ◌++◌, arith, inl, inr, some}
use ve_xchange_api.Prelude.Result.{ok, Result-cases}
use ve_xchange_api.Prelude.Dict.{lookup}
use ve_xchange_api.Prelude.Float.{Float64}
use ve_xchange_api.GoTime.{Time}
use ve_xchange_api.Rates.{PriceResponse}
use ve_xchange_api.State.{State, update_binance_price}
use ve_xchange_api.Provider.Average.{average_valid}
use ve_xchange_api.Provider.Average.Mean.{mean, valid_prices, average_valid-valid_prices}
use ve_xchange_api.Provider.Http.{Http}
use ve_xchange_api.Provider.Binance.{
  BinanceProvider, type_buy, type_sell, Codec, response_of, get_all_orders, get_prices,
}

module _ {ℓ} {F W B E : Type ℓ} ⦃f : Float64 F⦄ (h : Http W B E) (codec : Codec F B E)
    (p : BinanceProvider) where
  -- Where a response comes from: the merchants' sell advertisements are asked for, then their buy
  -- advertisements, and the three rates are the means of the valid prices of either and of all.
  pub record Quotes (w w' : W) (resp : PriceResponse F) : Type ℓ where
    pub sells : List F
    pub buys : List F
    pub between : W
    pub sold : get_all_orders h codec p type_sell w ≡ (ok sells, between)
    pub bought : get_all_orders h codec p type_buy between ≡ (ok buys, w')
    pub sell : F
    pub sell_mean : mean (valid_prices sells) ≡ ok sell
    pub buy : F
    pub buy_mean : mean (valid_prices buys) ≡ ok buy
    pub overall : F
    pub overall_mean : mean (valid_prices (sells ++ buys)) ≡ ok overall
    pub is_response : resp ≡ response_of overall buy sell

  get_prices-Quotes :
      (w w' : W) (resp : PriceResponse F)
      → get_prices h codec p w ≡ (ok resp, w')
      → Quotes w w' resp
  unfolding get_prices
  get_prices-Quotes w w' resp e =
      let (sold, w1) = get_all_orders h codec p type_sell w in
      let (bought, w2) = get_all_orders h codec p type_buy w1 in
      elim (Result-cases sold) [
        | inr (x, q) ↦ absurd (ground arith)
        | inl (sells, q1) ↦ elim (Result-cases bought) [
          | inr (x, q) ↦ absurd (ground arith)
          | inl (buys, q2) ↦ elim (Result-cases (average_valid sells)) [
            | inr (x, q) ↦ absurd (ground arith)
            | inl (sell, q3) ↦ elim (Result-cases (average_valid buys)) [
              | inr (x, q) ↦ absurd (ground arith)
              | inl (buy, q4) ↦ elim (Result-cases (average_valid (sells ++ buys))) [
                | inr (x, q) ↦ absurd (ground arith)
                | inl (overall, q5) ↦ record {
                  sells = sells;
                  buys = buys;
                  between = w1;
                  sold = ground arith;
                  bought = ground arith;
                  sell = sell;
                  sell_mean = rw (← average_valid-valid_prices) q3;
                  buy = buy;
                  buy_mean = rw (← average_valid-valid_prices) q4;
                  overall = overall;
                  overall_mean = rw (← average_valid-valid_prices) q5;
                  is_response = ground arith;
                }
              ]
            ]
          ]
        ]
      ]

  -- A response of Binance comes from what `getAllOrders` collected, first of the sell advertisements and
  -- then of the buy ones, and fills all three rates of the state: usdt with the mean of all their valid
  -- prices, usdt_compra with that of the buy advertisements, usdt_venta with that of the sell ones. No
  -- flag and no other rate changes.
  pub update_binance_price-get_prices :
      (w w' : W) (resp : PriceResponse F) (now : Time) (s : State F)
      → get_prices h codec p w ≡ (ok resp, w')
      → (q : Quotes w w' resp) × (update_binance_price now s resp ≡ record s {
        usdt = record (s.usdt) { value = q.overall; last_updated = some now };
        usdt_compra = record (s.usdt_compra) { value = q.buy; last_updated = some now };
        usdt_venta = record (s.usdt_venta) { value = q.sell; last_updated = some now };
      })
  unfolding update_binance_price lookup
  update_binance_price-get_prices w w' resp now s e =
      let q = get_prices-Quotes w w' resp e in (q, rw q.is_response)
