-- ===== src/Provider/Bcv.antt =====
-- `BCVProvider` of internal/provider/bcvProvider.go: the request, and its retries.
pub mod Page
pub mod Published
pub mod Transport
use Prim.Native.String.{String}
use ve_xchange_api.Prelude.{ℕ, none, ◌==◌, if◌then◌else◌}
use ve_xchange_api.Prelude.Dict.{insert}
use ve_xchange_api.Prelude.Result.{Result}
use ve_xchange_api.Prelude.Action.{Action, ◌>>=◌, raise, lift, wrap, wrap_err}
use ve_xchange_api.Prelude.Float.{Float64}
use ve_xchange_api.Rates.{PriceResponse}
use ve_xchange_api.Provider.Retry.{RetryError, with_retry}
use ve_xchange_api.Provider.Http.{HttpRequest, HttpResponse, Http}
use ve_xchange_api.Provider.Bcv.Page.{Goquery, PageError, parse_bcv_rates}

-- The client is an argument of the method; `NewBCVProvider` makes one that does not verify the
-- server's certificate.
pub record BcvProvider : Type 0 where
  pub base_url : String
  pub retry_base_delay : ℕ

abbrev pub new_bcv_provider : BcvProvider
new_bcv_provider = record { base_url = "https://bcv.org.ve"; retry_base_delay = 1_000_000_000 }

pub data BcvError {ℓ} (E : Type ℓ) : Type ℓ where
  bad_request transport unparsable_html : E → BcvError E
  bad_status : ℕ → BcvError E
  bad_page : PageError → BcvError E

module _ {ℓ} {F W B E D S : Type ℓ} ⦃f : Float64 F⦄ (h : Http W B E) (g : Goquery F B E D S)
    (p : BcvProvider) where
  abbrev pub with_headers : HttpRequest B → HttpRequest B
  with_headers req = record req {
    headers =
        insert "User-Agent" "ve-xchange-api/1.0"
          (insert "Accept" "text/html,application/xhtml+xml" req.headers);
  }

  -- What an answer says.
  abbrev pub read_page : HttpResponse B → Action W (BcvError E) (PriceResponse F)
  read_page resp =
      if resp.status_code == 200
      then (do
        doc ← lift (wrap_err BcvError.unparsable_html (g.new_document resp.body))
        lift (wrap_err BcvError.bad_page (parse_bcv_rates g doc)))
      else raise (BcvError.bad_status resp.status_code)

  -- The closure that `withRetry` calls.
  unfoldable pub ask_page : Action W (BcvError E) (PriceResponse F)
  ask_page = do
    req ← lift (wrap_err BcvError.bad_request (h.new_request "GET" p.base_url none))
    resp ← wrap BcvError.transport (h.send (with_headers req))
    read_page resp

  unfoldable pub get_prices : Action W (RetryError (BcvError E)) (PriceResponse F)
  get_prices = with_retry h.sleep ask_page 3 p.retry_base_delay
