-- ===== src/Server/Http.antt =====
-- The HTTP server's handler in cmd/server/main.go: the handlers of internal/handler as the interface of
-- internal/api, `HandlerFromMux`, the static routes, and the middleware of internal/metrics. A handler
-- gives the calls that it makes of its ResponseWriter, and reads the clock where it comes to that. The handlers of the static
-- routes, the router and `Encode` of encoding/json are arguments.
pub mod Answered
use Prim.Native.String.{String}
use ve_xchange_api.Prelude.{ℕ, not, if◌then◌else◌, List, [], ◌∷◌}
use ve_xchange_api.Prelude.Int.{ℤ}
use ve_xchange_api.Prelude.Float.{Float64}
use ve_xchange_api.GoTime.{Time}
use ve_xchange_api.Api.Currency
use ve_xchange_api.Api.Currency.{Currency}
use ve_xchange_api.Handler.{
  Body, Response, Server, get_health, with_latest, rates_response, rate_response, unknown_currency,
  get_rates_currency_history,
}
use ve_xchange_api.Api.Routes.{ServerInterface, Runtime, Mux, handler_from_mux}
use ve_xchange_api.Metrics.{Request, Call, write_header, write, middleware}

abbrev pub Answer {ℓ} : (B W : Type ℓ) → Type ℓ
Answer B W = W → List (Call B) × W

-- http.ServeFile of api/openapi.yaml, v3.NewHandler, and promhttp's handler.
pub record StaticPages {ℓ} (B W : Type ℓ) : Type ℓ where
  pub open_api : Request B → Answer B W
  pub docs : Request B → Answer B W
  pub metrics : Request B → Answer B W

module _ {ℓ} {F B W : Type ℓ} ⦃f : Float64 F⦄ (encode : Body F → B) (now : W → Time × W)
    (server : W → Server F) where
  -- What `writeJSON` calls, but for the header's map.
  abbrev pub calls_of : Response F → List (Call B)
  calls_of resp = write_header resp.status ∷ write (encode resp.body) ∷ []

  abbrev pub at_once : Response F → Answer B W
  at_once resp w = (calls_of resp, w)

  -- The answer of a handler that comes to `h.now()`.
  abbrev pub at_now : (Time → Response F) → Answer B W
  at_now respond w = let (t, w') = now w in (calls_of (respond t), w')

  -- `GetRates` and `GetRatesCurrency`, which read the clock only if the store has answered.
  abbrev pub serve_rates : Server F → Answer B W
  serve_rates h = with_latest h.store at_once (λ latest. at_now (λ t. rates_response h t latest))

  abbrev pub serve_rate : Server F → Currency → Answer B W
  serve_rate h c =
      if not (Currency.valid c)
      then at_once unknown_currency
      else with_latest h.store at_once (λ latest. at_now (λ t. rate_response h t c latest))

  -- The methods of handler.Server.
  abbrev pub server_interface : ServerInterface (Request B) (Answer B W)
  server_interface = record {
    get_health = λ r w. at_now (get_health (server w)) w;
    get_rates = λ r w. serve_rates (server w) w;
    get_rates_currency = λ r c w. serve_rate (server w) c w;
    get_rates_currency_history =
        λ r c params w. at_once (get_rates_currency_history (server w) c params) w;
  }

  module _ {M E : Type ℓ} (rt : Runtime (Request B) E) (mux : Mux M (Request B) (Answer B W))
      (text : E → String) (decimal : ℕ → String) (pages : StaticPages B W)
      (observe : (method path : String) → ℕ → ℤ → W → W) where
    pub main_mux : M
    main_mux =
        let m = handler_from_mux rt mux text decimal server_interface mux.new_serve_mux in
        let m1 = mux.handle_func "GET /openapi.yaml" pages.open_api m in
        let m2 = mux.handle_func "/docs/" pages.docs m1 in
        mux.handle_func "GET /metrics" pages.metrics m2

    pub server_handler : Request B → Answer B W
    server_handler = middleware now observe (mux.serve_http main_mux)
