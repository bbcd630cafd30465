-- ===== src/Examples/Serving.antt =====
-- A request through the server's handler: that for a currency, whose parameter does not bind.
use Prim.Native.String.{String}
use text.Mathlib.Text.{◌==◌}
use ve_xchange_api.Prelude.{ℕ, ◌≡◌, refl, Bool, true, not, ◌&&◌, List, [], ◌∷◌, if◌then◌else◌}
use ve_xchange_api.Prelude.Int.{ℤ}
use ve_xchange_api.Prelude.Result.{ok, err}
use ve_xchange_api.Api.ParamError.{error}
use ve_xchange_api.Api.Routes.{Runtime, Mux}
use ve_xchange_api.Api.Routes.Answers.{
  Dispatch, Route, health, rates, rate, history, is_same, pattern_of,
}
use ve_xchange_api.Metrics.{Request, write_header, write}
use ve_xchange_api.Metrics.Observed.{headed, more, empty}
use ve_xchange_api.Server.Http.{Answer, StaticPages, server_handler}
use ve_xchange_api.Server.Http.Answered.{server_handler-api_answer}
use ve_xchange_api.Examples.Toys.{nat_float, toy_server, friday_evening}

abbrev Handlers : Type 0
Handlers = List (String × (Request String → Answer String ℕ))

abbrev page : String → Request String → Answer String ℕ
page text r w = (write text ∷ [], w)

abbrev serve : Handlers → Request String → Answer String ℕ
serve [] r = page "404 page not found" r
serve ((p, h) ∷ rest) r = if p == r.path then h r else serve rest r

abbrev unmatched : Handlers → Request String → Bool
unmatched [] r = true
unmatched ((p, h) ∷ rest) r = unmatched rest r && not (p == r.path)

abbrev path_mux : Mux Handlers (Request String) (Answer String ℕ)
path_mux = record {
  new_serve_mux = [];
  handle_func = λ p h m. (p, h) ∷ m;
  serve_http = serve;
  http_error = λ text status w. (write_header status ∷ write text ∷ [], w);
}

abbrev path_dispatch : Dispatch path_mux
path_dispatch = record {
  matches = λ p r. p == r.path;
  is_free = unmatched;
  free_handle = λ p h m r. refl;
  serve_first = λ p h m r free own. rw own refl;
  serve_earlier = λ p h m r free other. rw other refl;
}

abbrev unbound : Runtime (Request String) String
unbound = record {
  path_value = λ r name. "";
  bind_styled = λ name value. err "empty";
  bind_query = λ name r. ok [];
  is_required_error = λ e. true;
}

abbrev pages : StaticPages String ℕ
pages = record { open_api = page "openapi"; docs = page "docs"; metrics = page "metrics" }

abbrev keep_status : (method path : String) → ℕ → ℤ → ℕ → ℕ
keep_status method path status d w = status

abbrev rate_request : Request String
rate_request = record { method = "GET"; path = "GET /rates/{currency}"; body = "" }

rate_only : (other : Route) → (pattern_of other == "GET /rates/{currency}") ≡ is_same other rate
rate_only health = refl
rate_only rates = refl
rate_only rate = refl
rate_only history = refl

serving_example :
    server_handler
      (λ b. "json")
      (λ w. (friday_evening, w))
      (λ w. toy_server)
      unbound
      path_mux
      (λ e. e)
      (λ n. "many")
      pages
      keep_status
      rate_request
      0
    ≡ (write_header 400 ∷ write "Invalid format for parameter currency: empty" ∷ [], 400)
unfolding error
serving_example =
    server_handler-api_answer (λ b. "json") (λ w. (friday_evening, w)) (λ w. toy_server) unbound
      path_mux (λ e. e) (λ n. "many") pages keep_status path_dispatch rate rate_request 0 refl
      rate_only refl refl refl (λ s n w. headed n (more s empty))
