-- ===== src/Examples/Toys.antt =====
-- The data of the examples: whole numbers for prices, a few instants, and a world outside of the
-- program that only counts the rows written.
use Prim.Native.String.{String}
use ve_xchange_api.Prelude.{ℕ, ◌+◌, ◌/◌, true, false, none, some, [], ◌∷◌, leb}
use ve_xchange_api.Prelude.Float.{Float64}
use ve_xchange_api.Prelude.Result.{ok, err}
use ve_xchange_api.GoTime.{Time, Location, civil, absolute_year, date, utc}
use ve_xchange_api.Rates.{PriceResponse}
use ve_xchange_api.State.{State, no_rate}
use ve_xchange_api.Db as Db
use ve_xchange_api.Handler.{Server, new_server_with_store}
use ve_xchange_api.Server.{Outside, World, utc_minus_4}

instance abbrev pub nat_float : Float64 ℕ
nat_float = record {
  nought = 0;
  add = λ a b. a + b;
  div = λ a b. a / b;
  of_count = λ n. n;
  trunc = λ n. n;
  le = leb;
  is_nan = λ n. false;
  is_inf = λ n. false;
}

-- A day of July 2026 and an hour; the 10th is a Friday.
abbrev pub july : ℕ → ℕ → Location → Time
july d h l = date (civil (absolute_year 2026) 7 d) h 0 l

abbrev pub friday_evening : Time
friday_evening = july 10 18 utc_minus_4

-- The prices for Monday the 13th.
abbrev pub monday_prices : PriceResponse ℕ
monday_prices = record {
  values = ("USD_BCV", 36) ∷ ("EUR_BCV", 40) ∷ [];
  effective_date = some (july 13 0 utc);
}

-- The clock of this world stands; BCV's page never answers, and Binance's always does.
abbrev pub toy : Outside ℕ ℕ String
toy = record {
  now = λ x. (friday_evening, x);
  insert_rate = λ name v t x. (true, x + 1);
  bcv_prices = λ x. (err "timeout", x);
  binance_prices = λ x. (ok (record { values = ("USDT", 50) ∷ []; effective_date = none }), x);
  rejected = λ e. "rejected";
}

-- The state that the program starts with.
abbrev pub no_rates : State ℕ
no_rates = record {
  usd_bcv = no_rate;
  eur_bcv = no_rate;
  usdt = no_rate;
  usdt_compra = no_rate;
  usdt_venta = no_rate;
}

abbrev pub toy_world : World ℕ ℕ
toy_world = record {
  app_state = no_rates;
  metrics = record { fetch_total = λ p s. 0; consecutive_failures = []; rate_value = [] };
  has_store = true;
  outside = 0;
}

abbrev pub row : ℕ → Time → Db.HistoryEntry ℕ
row v t = record { value = v; recorded_at = t; is_average = false }

-- A database with a row of two rates.
abbrev pub toy_store : Db.Store ℕ
toy_store = record {
  get_history = λ c from to. some (row 36 from ∷ []);
  get_latest_rates =
      some (("usd_bcv", row 36 (july 9 18 utc)) ∷ ("usdt", row 50 (july 10 21 utc)) ∷ []);
}

abbrev pub toy_server : Server ℕ
toy_server = new_server_with_store no_rates toy_store
