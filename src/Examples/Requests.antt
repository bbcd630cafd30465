-- ===== src/Examples/Requests.antt =====
-- A request for a day's history, through the router.
use Prim.Native.String.{String}
use text.Mathlib.Text.{◌==◌}
use ve_xchange_api.Prelude.{ℕ, ◌≡◌, refl, Bool, true, not, ◌&&◌, List, [], ◌∷◌, if◌then◌else◌}
use ve_xchange_api.Prelude.Result.{ok, err}
use ve_xchange_api.Api.ParamError.{error}
use ve_xchange_api.Api.Routes.{ServerInterface, Runtime, Mux, handler_from_mux}
use ve_xchange_api.Api.Routes.Answers.{
  Dispatch, Route, health, rates, rate, history, is_same, pattern_of, handler_from_mux-answer,
}

-- A request is the pattern that it matches, and a response a text.
abbrev Handlers : Type 0
Handlers = List (String × (String → String))

abbrev serve : Handlers → String → String
serve [] r = "404 page not found"
serve ((p, h) ∷ rest) r = if p == r then h r else serve rest r

abbrev unmatched : Handlers → String → Bool
unmatched [] r = true
unmatched ((p, h) ∷ rest) r = unmatched rest r && not (p == r)

abbrev toy_mux : Mux Handlers String String
toy_mux = record {
  new_serve_mux = [];
  handle_func = λ p h m. (p, h) ∷ m;
  serve_http = serve;
  http_error = λ text status. text;
}

abbrev toy_dispatch : Dispatch toy_mux
toy_dispatch = record {
  matches = λ p r. p == r;
  is_free = unmatched;
  free_handle = λ p h m r. refl;
  serve_first = λ p h m r free own. rw own refl;
  serve_earlier = λ p h m r free other. rw other refl;
}

-- Each parameter is bound but for the last day, which is missing.
abbrev toy_runtime : Runtime String String
toy_runtime = record {
  path_value = λ r name. "usd_bcv";
  bind_styled = λ name value. ok value;
  bind_query = λ name r. if name == "toDate" then err "missing" else ok [];
  is_required_error = λ e. true;
}

abbrev toy_interface : ServerInterface String String
toy_interface = record {
  get_health = λ r. "healthy";
  get_rates = λ r. "rates";
  get_rates_currency = λ r c. c;
  get_rates_currency_history = λ r c params. "history";
}

abbrev decimal : ℕ → String
decimal n = "many"

one_route :
    (other : Route) → (pattern_of other == "GET /rates/{currency}/history") ≡ is_same other history
one_route health = refl
one_route rates = refl
one_route rate = refl
one_route history = refl

route_example :
    serve
      (handler_from_mux toy_runtime toy_mux (λ e. e) decimal toy_interface [])
      "GET /rates/{currency}/history"
    ≡ "Query argument toDate is required, but not found"
unfolding error
route_example =
    handler_from_mux-answer toy_runtime toy_mux (λ e. e) decimal toy_dispatch toy_interface []
      history "GET /rates/{currency}/history" refl one_route
