-- ===== src/Server/Http/Answered.antt =====
-- Which answer a request gets of the server, and what is observed of it.
use Prim.Native.String.{String}
use ve_xchange_api.Prelude.{
  ℕ, ◌≡◌, refl, ◌∙◌, sym, true, false, Option, none, some, Bool-cases, Option-cases, inl, inr,
  arith,
}
use ve_xchange_api.Prelude.Int.{ℤ}
use ve_xchange_api.Prelude.Result.{Result, ok, err, ok-injective, >>=-ok}
use ve_xchange_api.Prelude.Float.{Float64}
use ve_xchange_api.GoTime.{Time, sub}
use ve_xchange_api.Api.Currency
use ve_xchange_api.Api.Currency.{Currency}
use ve_xchange_api.Prelude.Dict.{Dict}
use ve_xchange_api.Db as Db
use ve_xchange_api.Handler.{
  Body, Response, Server, if_latest, with_latest, rates_response, rate_response, get_rates_handler,
  get_rates_currency,
}
use ve_xchange_api.Api.ParamError.{ParamError}
use ve_xchange_api.Api.Routes.{Runtime, Mux, bind_currency, bind_date, handler_from_mux}
use ve_xchange_api.Api.Routes.Answers.{
  Dispatch, Route, health, rates, rate, history, pattern_of, is_same, respond, or_error, answer,
  handler_from_mux-answer, is_free-handler_from_mux,
}
use ve_xchange_api.Metrics.{Request}
use ve_xchange_api.Metrics.Observed.{IsOrderly, headed, more, empty, sent_status, middleware_lem}
use ve_xchange_api.Server.Http.{
  Answer, StaticPages, calls_of, at_once, at_now, serve_rates, serve_rate, server_interface,
  main_mux, server_handler,
}

module _ {ℓ} {F B W : Type ℓ} ⦃f : Float64 F⦄ (encode : Body F → B) (now : W → Time × W)
    (server : W → Server F) {M E : Type ℓ} (rt : Runtime (Request B) E)
    (mux : Mux M (Request B) (Answer B W)) (text : E → String) (decimal : ℕ → String)
    (pages : StaticPages B W) (observe : (method path : String) → ℕ → ℤ → W → W) where
  abbrev pub api_answer : Route → Request B → Answer B W
  api_answer = answer rt mux text decimal (server_interface encode now server)

  -- With the clock or without, the answers are those of the handlers at the time that the clock gives.
  serve_rates-get_rates_handler :
      (h : Server F) (w : W)
      → (serve_rates encode now server h w).0
        ≡ calls_of encode now server (get_rates_handler h (now w).0)
  unfolding get_rates_handler
  serve_rates-get_rates_handler h w = elim (Option-cases h.store) [
    | inl unset ↦ ground arith
    | inr (store, there) ↦ elim (Option-cases store.get_latest_rates) [
      | inl failed ↦ ground arith
      | inr (latest, answered) ↦ ground arith
    ]
  ]

  serve_rate-get_rates_currency :
      (h : Server F) (c : Currency) (w : W)
      → (serve_rate encode now server h c w).0
        ≡ calls_of encode now server (get_rates_currency h (now w).0 c)
  unfolding get_rates_currency
  serve_rate-get_rates_currency h c w = elim (Bool-cases (Currency.valid c)) [
    | inr unknown ↦ ground arith
    | inl known ↦ elim (Option-cases h.store) [
      | inl unset ↦ ground arith
      | inr (store, there) ↦ elim (Option-cases store.get_latest_rates) [
        | inl failed ↦ ground arith
        | inr (latest, answered) ↦ ground arith
      ]
    ]
  ]

  with_latest-IsOrderly :
      (store : Option (Db.Store F)) (respond : Time → Dict (Db.HistoryEntry F) → Response F) (w : W)
      → IsOrderly
          (with_latest store
            (at_once encode now server)
            (λ latest. at_now encode now server (λ t. respond t latest))
            w).0
  with_latest-IsOrderly none respond w = headed _ (more _ empty)
  with_latest-IsOrderly (some store) respond w = go store.get_latest_rates
    where
      go :
          (answered : Option (Dict (Db.HistoryEntry F)))
          → IsOrderly
              (if_latest answered
                (at_once encode now server)
                (λ latest. at_now encode now server (λ t. respond t latest))
                w).0
      go none = headed _ (more _ empty)
      go (some latest) = headed _ (more _ empty)

  serve_rate-IsOrderly :
      (h : Server F) (c : Currency) (w : W) → IsOrderly (serve_rate encode now server h c w).0
  serve_rate-IsOrderly h c w = elim (Bool-cases (Currency.valid c)) [
    | inl known ↦ rw known (with_latest-IsOrderly h.store (λ t. rate_response h t c) w)
    | inr unknown ↦ rw unknown (headed _ (more _ empty))
  ]

  -- What a route's handler calls.
  respond-IsOrderly :
      (route : Route) (r : Request B) (w : W) (a : Answer B W)
      → respond rt mux text decimal (server_interface encode now server) route r ≡ ok a
      → IsOrderly (a w).0
  respond-IsOrderly health r w a e = rw (sym (ok-injective e)) (headed _ (more _ empty))
  respond-IsOrderly rates r w a e =
      rw (sym (ok-injective e))
        (with_latest-IsOrderly (server w).store (rates_response (server w)) w)
  respond-IsOrderly rate r w a e =
      let (c, q, e1) = >>=-ok (bind_currency rt r) _ a e in
      rw (sym (ok-injective e1)) (serve_rate-IsOrderly (server w) c w)
  respond-IsOrderly history r w a e =
      let (c, q, e1) = >>=-ok (bind_currency rt r) _ a e in
      let (from, q1, e2) = >>=-ok (bind_date rt "fromDate" r) _ a e1 in
      let (to, q2, e3) = >>=-ok (bind_date rt "toDate" r) _ a e2 in
      rw (sym (ok-injective e3)) (headed _ (more _ empty))

  api_answer-IsOrderly :
      ((s : String) (n : ℕ) (w : W) → IsOrderly (mux.http_error s n w).0)
      → (route : Route) (r : Request B) (w : W) → IsOrderly (api_answer route r w).0
  api_answer-IsOrderly errors route r w =
      go (respond rt mux text decimal (server_interface encode now server) route r)
        (respond-IsOrderly route r w)
    where
      go :
          (res : Result (ParamError E) (Answer B W))
          → ((a : Answer B W) → res ≡ ok a → IsOrderly (a w).0)
          → IsOrderly (or_error rt mux text decimal r res w).0
      go (ok a) h = h a refl
      go (err e) h = errors _ 400 w

  serve_http-main_mux :
      (d : Dispatch mux) (route : Route) (r : Request B)
      → d.is_free mux.new_serve_mux r ≡ true
      → ((other : Route) → d.matches (pattern_of other) r ≡ is_same other route)
      → d.matches "GET /openapi.yaml" r ≡ false
      → d.matches "/docs/" r ≡ false
      → d.matches "GET /metrics" r ≡ false
      → mux.serve_http (main_mux encode now server rt mux text decimal pages observe) r
        ≡ api_answer route r
  unfolding main_mux
  serve_http-main_mux d route r free only no_api no_docs no_metrics =
      let si = server_interface encode now server in
      let m = handler_from_mux rt mux text decimal si mux.new_serve_mux in
      let m1 = mux.handle_func "GET /openapi.yaml" pages.open_api m in
      let m2 = mux.handle_func "/docs/" pages.docs m1 in
      let taken =
        is_free-handler_from_mux rt mux text decimal d si mux.new_serve_mux route r only in
      let taken1 : d.is_free m1 r ≡ false =
        ground (arith, d.free_handle "GET /openapi.yaml" pages.open_api m r) in
      let taken2 : d.is_free m2 r ≡ false =
        ground (arith, d.free_handle "/docs/" pages.docs m1 r) in
      d.serve_earlier "GET /metrics" pages.metrics m2 r taken2 no_metrics
      ∙ d.serve_earlier "/docs/" pages.docs m1 r taken1 no_docs
      ∙ d.serve_earlier "GET /openapi.yaml" pages.open_api m r taken no_api
      ∙ handler_from_mux-answer rt mux text decimal d si mux.new_serve_mux route r free only

  -- On a router that finds handlers as an `http.ServeMux` does, and whose `http.Error` writes a status at
  -- most once and first: a request that the pattern of one route of the interface alone matches, and none
  -- of a static page, gets through the middleware the answer of that route's handler, with its
  -- parameters bound, or status 400; and the histogram gets one observation, of the request's method
  -- and path, the status that was sent, and the time from before the handler to after it.
  pub server_handler-api_answer :
      (d : Dispatch mux) (route : Route) (r : Request B) (w : W)
      → d.is_free mux.new_serve_mux r ≡ true
      → ((other : Route) → d.matches (pattern_of other) r ≡ is_same other route)
      → d.matches "GET /openapi.yaml" r ≡ false
      → d.matches "/docs/" r ≡ false
      → d.matches "GET /metrics" r ≡ false
      → ((s : String) (n : ℕ) (v : W) → IsOrderly (mux.http_error s n v).0)
      → let (start, w1) = now w in
        let (calls, w2) = api_answer route r w1 in
        let (t, w3) = now w2 in
        server_handler encode now server rt mux text decimal pages observe r w
        ≡ (calls, observe r.method r.path (sent_status calls) (sub t start) w3)
  unfolding server_handler
  server_handler-api_answer d route r w free only no_api no_docs no_metrics errors =
      let served = serve_http-main_mux d route r free only no_api no_docs no_metrics in
      let next = mux.serve_http (main_mux encode now server rt mux text decimal pages observe) in
      middleware_lem now observe next r w
        (rw served (api_answer-IsOrderly errors route r (now w).1))
      ∙ rw served refl
