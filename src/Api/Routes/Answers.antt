-- ===== src/Api/Routes/Answers.antt =====
-- Which answer a request gets.
use Prim.Native.String.{String}
use ve_xchange_api.Prelude.{ℕ, Bool, true, false, not, ◌&&◌, ◌≡◌, refl, ◌∙◌, [], arith}
use ve_xchange_api.Prelude.Result.{Result, ok, err, ◌>>=◌}
use ve_xchange_api.Api.ParamError.{ParamError}
use ve_xchange_api.Api.Routes.{
  ServerInterface, Runtime, Mux, bind_currency, bind_date, default_error, handler_with_options,
  handler_from_mux, wrapped, ServerInterfaceWrapper, wrapper_get_health, wrapper_get_rates,
  wrapper_get_rates_currency, wrapper_get_rates_currency_history,
}

-- How an `http.ServeMux` finds a handler: a request that one of the registered patterns alone matches
-- goes to that pattern's handler. `is_free m r` says that no pattern of `m` matches `r`.
pub record Dispatch {ℓ} {M Req Res : Type ℓ} (mux : Mux M Req Res) : Type ℓ where
  pub matches : String → Req → Bool
  pub is_free : M → Req → Bool
  pub free_handle :
      (p : String) (h : Req → Res) (m : M) (r : Req)
      → is_free (mux.handle_func p h m) r ≡ (is_free m r && not (matches p r))
  pub serve_first :
      (p : String) (h : Req → Res) (m : M) (r : Req)
      → is_free m r ≡ true
      → matches p r ≡ true
      → mux.serve_http (mux.handle_func p h m) r ≡ h r
  pub serve_earlier :
      (p : String) (h : Req → Res) (m : M) (r : Req)
      → is_free m r ≡ false
      → matches p r ≡ false
      → mux.serve_http (mux.handle_func p h m) r ≡ mux.serve_http m r

pub data Route : Type 0 where
  health rates rate history : Route

abbrev pub is_same : Route → Route → Bool
is_same health health = true
is_same rates rates = true
is_same rate rate = true
is_same history history = true
is_same route route' = false

abbrev pub pattern_of : Route → String
pattern_of health = "GET /health"
pattern_of rates = "GET /rates"
pattern_of rate = "GET /rates/{currency}"
pattern_of history = "GET /rates/{currency}/history"

module _ {ℓ} {M Req Res : Type ℓ} (mux : Mux M Req Res) (d : Dispatch mux) where
  -- A router with a handler for each route.
  registered : (Route → Req → Res) → M → M
  registered h m = mux.handle_func (pattern_of history) (h history) (
      mux.handle_func (pattern_of rate) (h rate) (
        mux.handle_func (pattern_of rates) (h rates)
          (mux.handle_func (pattern_of health) (h health) m)))

  serve_http-registered :
      (h : Route → Req → Res) (m : M) (route : Route) (r : Req)
      → d.is_free m r ≡ true
      → ((other : Route) → d.matches (pattern_of other) r ≡ is_same other route)
      → mux.serve_http (registered h m) r ≡ h route r
  unfolding registered
  serve_http-registered h m health r free only = grind (
    arith,
    only health,
    only rates,
    only rate,
    only history,
    d.serve_first,
    d.serve_earlier,
    d.free_handle,
  )
  serve_http-registered h m rates r free only = grind (
    arith,
    only health,
    only rates,
    only rate,
    only history,
    d.serve_first,
    d.serve_earlier,
    d.free_handle,
  )
  serve_http-registered h m rate r free only = grind (
    arith,
    only health,
    only rates,
    only rate,
    only history,
    d.serve_first,
    d.serve_earlier,
    d.free_handle,
  )
  serve_http-registered h m history r free only = grind (
    arith,
    only health,
    only rates,
    only rate,
    only history,
    d.serve_first,
    d.serve_earlier,
    d.free_handle,
  )

module _ {ℓ} {M Req Res E : Type ℓ} (rt : Runtime Req E) (mux : Mux M Req Res) (text : E → String)
    (decimal : ℕ → String) where
  -- The answer of a route: what its handler makes of its parameters, or of the first that is wrong.
  abbrev pub respond : ServerInterface Req Res → Route → Req → Result (ParamError E) Res
  respond si health r = ok (si.get_health r)
  respond si rates r = ok (si.get_rates r)
  respond si rate r = do currency ← bind_currency rt r; ok (si.get_rates_currency r currency)
  respond si history r = do
    currency ← bind_currency rt r
    from_date ← bind_date rt "fromDate" r
    to_date ← bind_date rt "toDate" r
    ok (
        si.get_rates_currency_history r currency
          (record { from_date = from_date; to_date = to_date }))

  abbrev pub or_error : Req → Result (ParamError E) Res → Res
  or_error r (ok res) = res
  or_error r (err e) = default_error rt mux text decimal r e

  abbrev pub answer : ServerInterface Req Res → Route → Req → Res
  answer si route r = or_error r (respond si route r)

  -- The wrapper that `HandlerFromMux` sets up.
  abbrev plain : ServerInterface Req Res → ServerInterfaceWrapper Req Res E
  plain si = record {
    handler = si;
    handler_middlewares = [];
    error_handler_func = default_error rt mux text decimal;
  }

  -- What `HandlerFromMux` registers for a route.
  handler_of : ServerInterface Req Res → Route → Req → Res
  handler_of si health = wrapper_get_health rt (plain si)
  handler_of si rates = wrapper_get_rates rt (plain si)
  handler_of si rate = wrapper_get_rates_currency rt (plain si)
  handler_of si history = wrapper_get_rates_currency_history rt (plain si)

  handler_of-answer :
      (si : ServerInterface Req Res) (route : Route) (r : Req)
      → handler_of si route r ≡ answer si route r
  unfolding handler_of wrapped
  handler_of-answer si health r = refl
  handler_of-answer si rates r = refl
  handler_of-answer si rate r = ground arith
  handler_of-answer si history r = ground arith

  -- On a router without patterns for the request, which finds handlers as an `http.ServeMux` does: a
  -- request that the pattern of one route alone matches is answered by the route's handler, with the
  -- parameters that are bound, and with status 400 and the error of the first parameter that is not.
  pub handler_from_mux-answer :
      (d : Dispatch mux) (si : ServerInterface Req Res) (m : M) (route : Route) (r : Req)
      → d.is_free m r ≡ true
      → ((other : Route) → d.matches (pattern_of other) r ≡ is_same other route)
      → mux.serve_http (handler_from_mux rt mux text decimal si m) r ≡ answer si route r
  unfolding handler_from_mux handler_with_options registered handler_of
  handler_from_mux-answer d si m route r free only =
      serve_http-registered mux d (handler_of si) m route r free only ∙ handler_of-answer si route r

  -- That route's pattern is then not free.
  pub is_free-handler_from_mux :
      (d : Dispatch mux) (si : ServerInterface Req Res) (m : M) (route : Route) (r : Req)
      → ((other : Route) → d.matches (pattern_of other) r ≡ is_same other route)
      → d.is_free (handler_from_mux rt mux text decimal si m) r ≡ false
  unfolding handler_from_mux handler_with_options
  is_free-handler_from_mux d si m health r only = grind (arith, only health, d.free_handle)
  is_free-handler_from_mux d si m rates r only = grind (arith, only rates, d.free_handle)
  is_free-handler_from_mux d si m rate r only = grind (arith, only rate, d.free_handle)
  is_free-handler_from_mux d si m history r only = grind (arith, only history, d.free_handle)
