-- ===== src/Provider/Binance/Requests.antt =====
-- How many requests `GetPrices` sends.
use ve_xchange_api.Prelude.{ℕ, zero, suc, ◌+◌, ◌*◌, ◌≤◌, List, [], ◌++◌, arith}
use ve_xchange_api.Prelude.Action.{Costs, >>=-Costs}
use ve_xchange_api.Prelude.Float.{Float64}
use ve_xchange_api.Provider.Retry.Attempts.{with_retry-Costs}
use ve_xchange_api.Provider.Http.{HttpRequest, HttpResponse, Http, fetch_json, read_json}
use ve_xchange_api.Provider.Binance.{
  BinanceProvider, TradeType, Codec, post, request_page, get_orders, collect, get_all_orders,
  get_prices,
}

-- A count that a request raises by at most one, and a pause not at all.
pub record Counted {ℓ} {W B E : Type ℓ} (h : Http W B E) (requests : W → ℕ) : Type ℓ where
  pub send_le : (req : HttpRequest B) → Costs requests 1 (h.send req)
  pub sleep_le : (d : ℕ) (w : W) → requests (h.sleep d w) ≤ requests w

module _ {ℓ} {F W B E : Type ℓ} ⦃f : Float64 F⦄ (h : Http W B E) (codec : Codec F B E)
    (p : BinanceProvider) (requests : W → ℕ) (counted : Counted h requests) where
  answer-Costs : (resp : HttpResponse B) → Costs requests 0 (read_json {W = W} codec.decode resp)
  answer-Costs resp w = ground arith

  post-Costs : (b : B) → Costs requests 1 (post h codec p b)
  unfolding fetch_json
  post-Costs b w = grind (arith, counted.send_le)

  request_page-Costs : (b : B) → Costs requests 3 (request_page h codec p b)
  unfolding request_page
  request_page-Costs b =
      with_retry-Costs requests h.sleep (post h codec p b) counted.sleep_le (post-Costs b) 3
        p.retry_base_delay

  get_orders-Costs : (t : TradeType) (page : ℕ) → Costs requests 3 (get_orders h codec p t page)
  unfolding get_orders
  get_orders-Costs t page w = grind (arith, request_page-Costs)

  collect-Costs :
      (left page : ℕ) (t : TradeType) (acc : List F)
      → Costs requests (left * 3) (collect h codec p left page t acc)
  unfolding collect
  collect-Costs zero page t acc w = omega arith
  collect-Costs (suc left) page t acc w = omega (
    arith,
    >>=-Costs requests 3 (left * 3) (get_orders h codec p t page)
        (λ prices. collect h codec p left (page + 1) t (acc ++ prices)) (get_orders-Costs t page)
        (λ prices. collect-Costs left (page + 1) t (acc ++ prices)) w,
  )

  get_all_orders-Costs : (t : TradeType) → Costs requests 6 (get_all_orders h codec p t)
  unfolding get_all_orders
  get_all_orders-Costs t = collect-Costs 2 1 t []

  -- One run sends at most twelve requests, whatever is answered: two pages of two trade types, each in
  -- at most three attempts.
  pub get_prices-Costs : Costs requests 12 (get_prices h codec p)
  unfolding get_prices
  get_prices-Costs w = grind (arith, get_all_orders-Costs)
