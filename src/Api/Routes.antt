-- ===== src/Api/Routes.antt =====
-- The routing of internal/api/server.gen.go: `ServerInterfaceWrapper` and `HandlerWithOptions`. A
-- handler is a function from the request to the response that it writes. What the file takes from
-- net/http and from the runtime library of oapi-codegen is an argument.
pub mod Answers
use Prim.Native.String.{String, ◌++◌}
use ve_xchange_api.Prelude.{ℕ, Bool, true, false, Option, none, some, List, [], ◌∷◌, if◌then◌else◌}
use ve_xchange_api.Prelude.Result.{Result, ok, err}
use ve_xchange_api.Api.Currency.{Currency}
use ve_xchange_api.Api.Types.{GetRatesCurrencyHistoryParams}
use ve_xchange_api.Api.ParamError.{ParamError, required_param, invalid_param_format, error}

pub record ServerInterface {ℓ} (Req Res : Type ℓ) : Type ℓ where
  pub get_health : Req → Res
  pub get_rates : Req → Res
  pub get_rates_currency : Req → Currency → Res
  pub get_rates_currency_history : Req → Currency → GetRatesCurrencyHistoryParams → Res

-- A parameter that the runtime library reads from its text, and from the query of a request. The
-- options are those that the file gives for every parameter, and are left out but for the names.
pub record Runtime {ℓ} (Req E : Type ℓ) : Type ℓ where
  -- `r.PathValue(name)`
  pub path_value : Req → String → String
  -- BindStyledParameterWithOptions("simple", name, value, …)
  pub bind_styled : (name value : String) → Result E Currency
  -- BindQueryParameterWithOptions("form", true, true, name, r.URL.Query(), …)
  pub bind_query : (name : String) → Req → Result E (List ℕ)
  -- whether `errors.As` finds a `RequiredParameterError`
  pub is_required_error : E → Bool

abbrev pub MiddlewareFunc {ℓ} : (Req Res : Type ℓ) → Type ℓ
MiddlewareFunc Req Res = (Req → Res) → Req → Res

pub record ServerInterfaceWrapper {ℓ} (Req Res E : Type ℓ) : Type ℓ where
  pub handler : ServerInterface Req Res
  pub handler_middlewares : List (MiddlewareFunc Req Res)
  pub error_handler_func : Req → ParamError E → Res

-- `for _, middleware := range siw.HandlerMiddlewares { handler = middleware(handler) }`
pub wrapped {ℓ} : {Req Res : Type ℓ} → List (MiddlewareFunc Req Res) → (Req → Res) → Req → Res
wrapped [] handler = handler
wrapped (m ∷ ms) handler = wrapped ms (m handler)

module _ {ℓ} {Req E : Type ℓ} (rt : Runtime Req E) where
  -- The path parameter `currency`.
  abbrev pub bind_currency : Req → Result (ParamError E) Currency
  bind_currency r = elim (rt.bind_styled "currency" (rt.path_value r "currency")) [
    | ok currency ↦ ok currency
    | err e ↦ err (invalid_param_format "currency" e)
  ]

  -- A required query parameter.
  abbrev pub bind_date : String → Req → Result (ParamError E) (List ℕ)
  bind_date name r = elim (rt.bind_query name r) [
    | ok date ↦ ok date
    | err e ↦
        if rt.is_required_error e
        then err (required_param name)
        else err (invalid_param_format name e)
  ]

  module _ {Res : Type ℓ} (siw : ServerInterfaceWrapper Req Res E) where
    abbrev pub wrapper_get_health : Req → Res
    wrapper_get_health r = wrapped siw.handler_middlewares (λ r. siw.handler.get_health r) r

    abbrev pub wrapper_get_rates : Req → Res
    wrapper_get_rates r = wrapped siw.handler_middlewares (λ r. siw.handler.get_rates r) r

    abbrev pub wrapper_get_rates_currency : Req → Res
    wrapper_get_rates_currency r = elim (bind_currency r) [
      | err e ↦ siw.error_handler_func r e
      | ok currency ↦
          wrapped siw.handler_middlewares (λ r. siw.handler.get_rates_currency r currency) r
    ]

    abbrev pub wrapper_get_rates_currency_history : Req → Res
    wrapper_get_rates_currency_history r = elim (bind_currency r) [
      | err e ↦ siw.error_handler_func r e
      | ok currency ↦ elim (bind_date "fromDate" r) [
        | err e ↦ siw.error_handler_func r e
        | ok from_date ↦ elim (bind_date "toDate" r) [
          | err e ↦ siw.error_handler_func r e
          | ok to_date ↦
              wrapped siw.handler_middlewares
                (λ r.
                  siw.handler.get_rates_currency_history r currency
                    (record { from_date = from_date; to_date = to_date }))
                r
        ]
      ]
    ]

-- The router, an `http.ServeMux` or another, and `http.Error`.
pub record Mux {ℓ} (M Req Res : Type ℓ) : Type ℓ where
  pub new_serve_mux : M
  pub handle_func : String → (Req → Res) → M → M
  pub serve_http : M → Req → Res
  pub http_error : String → ℕ → Res

pub record StdHttpServerOptions {ℓ} (M Req Res E : Type ℓ) : Type ℓ where
  pub base_url : String
  pub base_router : Option M
  pub middlewares : List (MiddlewareFunc Req Res)
  pub error_handler_func : Option (Req → ParamError E → Res)

module _ {ℓ} {M Req Res E : Type ℓ} (rt : Runtime Req E) (mux : Mux M Req Res) (text : E → String)
    (decimal : ℕ → String) where
  -- What stands in for an `ErrorHandlerFunc` that is nil.
  abbrev pub default_error : Req → ParamError E → Res
  default_error r e = mux.http_error (error text decimal e) 400

  pub handler_with_options : ServerInterface Req Res → StdHttpServerOptions M Req Res E → M
  handler_with_options si options =
      let m : M = elim options.base_router [ none ↦ mux.new_serve_mux | some m ↦ m ] in
      let on_error : Req → ParamError E → Res = elim options.error_handler_func [
        | none ↦ default_error
        | some f ↦ f
      ] in
      let wrapper : ServerInterfaceWrapper Req Res E = record {
        handler = si;
        handler_middlewares = options.middlewares;
        error_handler_func = on_error;
      } in
      let m1 =
        mux.handle_func ("GET" ++ " " ++ options.base_url ++ "/health")
          (wrapper_get_health rt wrapper) m in
      let m2 =
        mux.handle_func ("GET" ++ " " ++ options.base_url ++ "/rates")
          (wrapper_get_rates rt wrapper) m1 in
      let m3 =
        mux.handle_func ("GET" ++ " " ++ options.base_url ++ "/rates/{currency}")
          (wrapper_get_rates_currency rt wrapper) m2 in
      mux.handle_func ("GET" ++ " " ++ options.base_url ++ "/rates/{currency}/history")
        (wrapper_get_rates_currency_history rt wrapper) m3

  -- `HandlerFromMux`
  pub handler_from_mux : ServerInterface Req Res → M → M
  handler_from_mux si m =
      handler_with_options si (record {
        base_url = "";
        base_router = some m;
        middlewares = [];
        error_handler_func = none;
      })

  -- `HandlerFromMuxWithBaseURL`
  unfoldable handler_from_mux_with_base_url : ServerInterface Req Res → M → String → M
  handler_from_mux_with_base_url si m base_url = handler_with_options si (record {
    base_url = base_url;
    base_router = some m;
    middlewares = [];
    error_handler_func = none;
  })

  -- `Handler`
  unfoldable new_handler : ServerInterface Req Res → M
  new_handler si =
      handler_with_options si
        (record { base_url = ""; base_router = none; middlewares = []; error_handler_func = none })
