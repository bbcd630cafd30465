-- ===== src/Examples/Providers.antt =====
-- The providers in a world that counts the requests and answers each with its own body.
use Prim.Native.String.{String}
use text.Mathlib.Text.{◌==◌}
use ve_xchange_api.Prelude.{
  ℕ, ◌+◌, ◌≤◌, ◌≡◌, refl, true, none, some, List, [], ◌∷◌, arith, if◌then◌else◌,
}
use ve_xchange_api.Prelude.Dict.{lookup, insert}
use ve_xchange_api.Prelude.Result.{ok}
use ve_xchange_api.GoTime.{
  civil, absolute_year, date, utc, day_number, days_before_year, days_before_month, is_leap,
  date_of, civil_of_day, month_of_day, year_of_day, wall,
}
use ve_xchange_api.GoTime.DateOnly.{is_digit}
use ve_xchange_api.Rates.{PriceResponse}
use ve_xchange_api.State.{update_bcv_price, update_binance_price}
use ve_xchange_api.Provider.Http.{Http, fetch_json}
use ve_xchange_api.Provider.Retry.{attempt, with_retry}
use ve_xchange_api.Provider.Average.{average_loop, average_valid}
use ve_xchange_api.Provider.Binance.{
  JsonResponseP2P, Codec, new_binance_provider, is_valid, generate_body_p2p, parsed_prices,
  read_orders, request_page, get_orders, collect, get_all_orders, response_of,
}
use ve_xchange_api.Provider.Binance as Binance
use ve_xchange_api.Provider.Binance.Quotes.{Quotes, update_binance_price-get_prices}
use ve_xchange_api.Provider.Binance.Requests.{Counted, get_prices-Costs}
use ve_xchange_api.Provider.Localized.{
  contains, parse_localized_number, keep_numeric, normalize, remove_all, replace_all, is_numeric,
}
use ve_xchange_api.Provider.EffectiveDate.{
  codes, atoi, atoi_from, parse_effective_date, to_lower, is_space, is_alpha, span, match_here,
  find_match, month_in,
}
use ve_xchange_api.Provider.Bcv as Bcv
use ve_xchange_api.Provider.Bcv.{new_bcv_provider, ask_page}
use ve_xchange_api.Provider.Bcv.Page.{
  Goquery, bcv_response, drop_spaces, reversed, trim_space, rate_text, effective_date_text,
  parse_bcv_rates,
}
use ve_xchange_api.Provider.Bcv.Published.{Published, get_prices-Published}
use ve_xchange_api.Provider.DolarApi as DolarApi
use ve_xchange_api.Provider.DolarApi.{
  DolarApiCurrencyItem, new_dolar_api_provider, store_items, read_items, ask_items,
}
use ve_xchange_api.Provider.DolarApi.Items.{Accepted, last_price, get_prices-Accepted}
use ve_xchange_api.Examples.Toys.{nat_float, toy_world, friday_evening}

abbrev echo : Http ℕ String String
echo = record {
  new_request = λ m u b. ok (record { method = m; url = u; headers = []; body = b });
  send = λ req w.
      (ok (record { status_code = 200; body = elim req.body [ none ↦ "" | some b ↦ b ] }), w + 1);
  sleep = λ d w. w;
}

abbrev echo_counts : Counted echo (λ w. w)
echo_counts = record { send_le = λ req w. omega arith; sleep_le = λ d w. omega arith }

-- One advertisement a page, at 50 for a sale and 48 for a purchase.
abbrev one_item : String → JsonResponseP2P
one_item price = record {
  total = 1;
  success = true;
  items =
      record { adv = record { trade_type = ""; asset = "USDT"; fiat_unit = "VES"; price = price } }
      ∷ [];
}

abbrev pub toy_codec : Codec ℕ String String
toy_codec = record {
  marshal = λ b. ok b.trade_type;
  decode = λ b. ok (one_item (if b == "SELL" then "50" else "48"));
  parse_float = λ s. some (if s == "50" then 50 else 48);
}

costs_example : (Binance.get_prices echo toy_codec new_binance_provider 0).1 ≤ 0 + 12
costs_example = get_prices-Costs echo toy_codec new_binance_provider (λ w. w) echo_counts 0

binance_example :
    (q : Quotes echo toy_codec new_binance_provider 0 4 (response_of 49 48 50))
    × (update_binance_price friday_evening toy_world.app_state (response_of 49 48 50)
        ≡ record (toy_world.app_state) {
          usdt = record (toy_world.app_state.usdt) {
            value = q.overall;
            last_updated = some friday_evening;
          };
          usdt_compra = record (toy_world.app_state.usdt_compra) {
            value = q.buy;
            last_updated = some friday_evening;
          };
          usdt_venta = record (toy_world.app_state.usdt_venta) {
            value = q.sell;
            last_updated = some friday_evening;
          };
        })
unfolding Binance.get_prices get_all_orders collect get_orders request_page with_retry attempt
    fetch_json generate_body_p2p is_valid read_orders parsed_prices average_valid average_loop
    insert
binance_example =
    update_binance_price-get_prices echo toy_codec new_binance_provider 0 4 (response_of 49 48 50)
      friday_evening toy_world.app_state refl

-- A page in which every element is named by its selector.
abbrev pub toy_page : Goquery ℕ String String String String
toy_page = record {
  new_document = λ b. ok b;
  find = λ d s. s;
  find_in = λ s t. s;
  first = λ s. s;
  length = λ s. 1;
  text = λ s.
      if s == "#dolar"
      then codes " 36,50 "
      else if s == "#euro"
      then codes " 40,25 "
      else codes "Lunes, 13 Julio 2026";
  parse_float = λ s. atoi (remove_all b'.' s);
  unicode_lower = λ c. c;
}

abbrev monday_page : PriceResponse ℕ
monday_page = bcv_response 3650 4025 (date (civil (absolute_year 2026) 7 13) 0 0 utc)

bcv_example :
    (q : Published monday_page) × (update_bcv_price friday_evening toy_world.app_state monday_page
      ≡ record (toy_world.app_state) {
        usd_bcv = record (toy_world.app_state.usd_bcv) {
          value = q.usd;
          last_updated = some friday_evening;
        };
        eur_bcv = record (toy_world.app_state.eur_bcv) {
          value = q.eur;
          last_updated = some friday_evening;
        };
      })
unfolding Bcv.get_prices ask_page with_retry attempt insert parse_bcv_rates rate_text
    effective_date_text trim_space reversed drop_spaces parse_localized_number is_numeric
    keep_numeric normalize contains remove_all replace_all parse_effective_date to_lower is_space
    is_alpha span match_here find_match atoi_from month_in is_digit date_of civil_of_day
    month_of_day wall date day_number days_before_year days_before_month is_leap year_of_day
bcv_example =
    get_prices-Published echo toy_page new_bcv_provider 0 1 monday_page friday_evening
      toy_world.app_state refl

abbrev item : String → ℕ → DolarApiCurrencyItem ℕ
item name price = record {
  moneda = name;
  fuente = "oficial";
  nombre = name;
  promedio = price;
  fecha_actualizacion = "";
}

abbrev three_items : List (DolarApiCurrencyItem ℕ)
three_items = item "USD" 36 ∷ item "EUR" 40 ∷ item "USD" 37 ∷ []

items_example :
    (v : ℕ) × (items : List (DolarApiCurrencyItem ℕ)) × (ask_items echo
        (λ b. ok three_items)
        new_dolar_api_provider
        v
      ≡ (ok items, 1))
    × (a : Accepted {F = ℕ} (("USD_BCV", 37) ∷ ("EUR_BCV", 40) ∷ [])) × (last_price "USD" items none
        ≡ some a.usd)
    × (last_price "EUR" items none ≡ some a.eur)
unfolding DolarApi.get_prices with_retry attempt fetch_json read_items store_items insert lookup
items_example =
    get_prices-Accepted echo (λ b. ok three_items) new_dolar_api_provider 0 1
      (record { values = ("USD_BCV", 37) ∷ ("EUR_BCV", 40) ∷ []; effective_date = none }) refl
