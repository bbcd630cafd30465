-- ===== src/Provider/Binance.antt =====
-- `BinanceProvider` of internal/provider/binanceProvider.go, but for `averageValid`. `json.Marshal` of
-- the request's body, the decoder of the answer and `strconv.ParseFloat` are arguments.
pub mod Quotes
pub mod Requests
use Prim.Native.String.{String}
use text.Mathlib.Text.{◌==◌}
use ve_xchange_api.Prelude.{
  ℕ, zero, suc, ◌+◌, Bool, not, ◌||◌, Option, none, some, List, [], ◌∷◌, ◌++◌, if◌then◌else◌,
}
use ve_xchange_api.Prelude.Dict.{insert}
use ve_xchange_api.Prelude.Result.{Result, ok, err}
use ve_xchange_api.Prelude.Action.{Action, ◌>>=◌, pure, raise, lift, wrap, wrap_err}
use ve_xchange_api.Prelude.Float.{Float64}
use ve_xchange_api.Rates.{PriceResponse}
use ve_xchange_api.Provider.Retry.{RetryError, with_retry}
use ve_xchange_api.Provider.Average.{AverageError, average_valid}
use ve_xchange_api.Provider.Http.{HttpRequest, Http, FetchError, make_request, fetch_json}

-- The client is an argument of the methods.
pub record BinanceProvider : Type 0 where
  pub base_url : String
  pub retry_base_delay : ℕ

abbrev pub new_binance_provider : BinanceProvider
new_binance_provider = record {
  base_url = "https://p2p.binance.com/bapi/c2c/v2/friendly/c2c/adv/search";
  retry_base_delay = 1_000_000_000;
}

abbrev pub TradeType : Type 0
TradeType = String

abbrev pub type_buy : TradeType
type_buy = "BUY"

abbrev pub type_sell : TradeType
type_sell = "SELL"

unfoldable pub is_valid : TradeType → Bool
is_valid t = if (t == type_buy) || (t == type_sell) then Bool.true else Bool.false

pub record BodyRequestP2P : Type 0 where
  pub asset : String
  pub fiat : String
  pub trade_type : TradeType
  pub publisher_type : String
  pub page : ℕ
  pub rows : ℕ
  -- `none` is a nil slice
  pub pay_types : Option (List String)

pub record DataAdv : Type 0 where
  pub trade_type : TradeType
  pub asset : String
  pub fiat_unit : String
  pub price : String

pub record DataP2P : Type 0 where
  pub adv : DataAdv

pub record JsonResponseP2P : Type 0 where
  pub total : ℕ
  pub success : Bool
  pub items : List DataP2P

pub data BinanceError {ℓ} (F B E : Type ℓ) : Type ℓ where
  invalid_trade_type : BinanceError F B E
  unencodable : E → BinanceError F B E
  unanswered : TradeType → RetryError (FetchError B E) → BinanceError F B E
  no_success : TradeType → JsonResponseP2P → BinanceError F B E
  no_prices : TradeType → BinanceError F B E
  no_sell_average no_buy_average no_average : AverageError F → BinanceError F B E

-- What the methods take from other packages.
pub record Codec {ℓ} (F B E : Type ℓ) : Type ℓ where
  pub marshal : BodyRequestP2P → Result E B
  pub decode : B → Result E JsonResponseP2P
  pub parse_float : String → Option F

module _ {ℓ} {F : Type ℓ} where
  -- `append` of a price that parses, or `continue`.
  abbrev pub append_price : Option F → List F → List F
  append_price none prices = prices
  append_price (some v) prices = v ∷ prices

  -- The loop over the advertisements.
  unfoldable pub parsed_prices : (String → Option F) → List DataP2P → List F
  parsed_prices parse_float [] = []
  parsed_prices parse_float (v ∷ vs) =
      append_price (parse_float v.adv.price) (parsed_prices parse_float vs)

  -- The prices that `GetPrices` returns.
  abbrev pub response_of : F → F → F → PriceResponse F
  response_of overall buy sell = record {
    values = ("USDT", overall) ∷ ("USDT_BINANCE_SELL", buy) ∷ ("USDT_BINANCE_BUY", sell) ∷ [];
    effective_date = none;
  }

module _ {ℓ} {F B E : Type ℓ} where
  unfoldable pub generate_body_p2p : TradeType → ℕ → Result (BinanceError F B E) BodyRequestP2P
  generate_body_p2p trade_type page =
      if not (is_valid trade_type)
      then err invalid_trade_type
      else ok (record {
        asset = "USDT";
        fiat = "VES";
        trade_type = trade_type;
        publisher_type = "merchant";
        page = page;
        rows = 20;
        pay_types = none;
      })

  abbrev pub non_empty : TradeType → List F → Result (BinanceError F B E) (List F)
  non_empty trade_type [] = err (no_prices trade_type)
  non_empty trade_type (v ∷ vs) = ok (v ∷ vs)

  -- What `getOrders` makes of an answer.
  unfoldable pub read_orders :
      (String → Option F) → TradeType → JsonResponseP2P → Result (BinanceError F B E) (List F)
  read_orders parse_float trade_type response =
      if not response.success
      then err (no_success trade_type response)
      else non_empty trade_type (parsed_prices parse_float response.items)

module _ {ℓ} {F W B E : Type ℓ} ⦃f : Float64 F⦄ (h : Http W B E) (codec : Codec F B E)
    (p : BinanceProvider) where
  -- The closure that `withRetry` calls.
  abbrev pub post : B → Action W (FetchError B E) JsonResponseP2P
  post json_body = do
    req ← make_request h "POST" p.base_url (some json_body)
    fetch_json h codec.decode
        (record req { headers = insert "Content-Type" "application/json" req.headers })

  unfoldable pub request_page : B → Action W (RetryError (FetchError B E)) JsonResponseP2P
  request_page json_body = with_retry h.sleep (post json_body) 3 p.retry_base_delay

  unfoldable pub get_orders : TradeType → ℕ → Action W (BinanceError F B E) (List F)
  get_orders trade_type page = do
    body_data ← lift (generate_body_p2p trade_type page)
    json_body ← lift (wrap_err unencodable (codec.marshal body_data))
    response ← wrap (unanswered trade_type) (request_page json_body)
    lift (read_orders codec.parse_float trade_type response)

  -- The loop of `getAllOrders`, with some pages to go.
  unfoldable pub collect : ℕ → ℕ → TradeType → List F → Action W (BinanceError F B E) (List F)
  collect zero page trade_type collected = pure collected
  collect (suc left) page trade_type collected = do
    prices ← get_orders trade_type page
    collect left (page + 1) trade_type (collected ++ prices)

  unfoldable pub get_all_orders : TradeType → Action W (BinanceError F B E) (List F)
  get_all_orders trade_type = collect 2 1 trade_type []

  unfoldable pub get_prices : Action W (BinanceError F B E) (PriceResponse F)
  get_prices = do
    sell_prices ← get_all_orders type_sell
    buy_prices ← get_all_orders type_buy
    sell_avg ← lift (wrap_err no_sell_average (average_valid sell_prices))
    buy_avg ← lift (wrap_err no_buy_average (average_valid buy_prices))
    overall_avg ← lift (wrap_err no_average (average_valid (sell_prices ++ buy_prices)))
    pure (response_of overall_avg buy_avg sell_avg)
