-- ===== src/Provider/Http.antt =====
-- `HTTPDoer` and `fetchJson` of internal/provider/utils.go. The HTTP client, `http.NewRequest`,
-- `time.Sleep` and the decoder of JSON are arguments: they act on a world `W`, and `B` is the text of a
-- body.
use Prim.Native.String.{String}
use ve_xchange_api.Prelude.{ℕ, Option, ◌==◌, if◌then◌else◌}
use ve_xchange_api.Prelude.Result.{Result}
use ve_xchange_api.Prelude.Dict.{Dict}
use ve_xchange_api.Prelude.Action.{Action, ◌>>=◌, raise, lift, wrap, wrap_err}

pub record HttpRequest {ℓ} (B : Type ℓ) : Type ℓ where
  pub method : String
  pub url : String
  pub headers : Dict String
  pub body : Option B

pub record HttpResponse {ℓ} (B : Type ℓ) : Type ℓ where
  pub status_code : ℕ
  pub body : B

pub record Http {ℓ} (W B E : Type ℓ) : Type ℓ where
  -- http.NewRequest(method, url, body)
  pub new_request : String → String → Option B → Result E (HttpRequest B)
  -- `client.Do`
  pub send : HttpRequest B → Action W E (HttpResponse B)
  -- time.Sleep
  pub sleep : ℕ → W → W

pub data FetchError {ℓ} (B E : Type ℓ) : Type ℓ where
  bad_request : E → FetchError B E
  transport : E → FetchError B E
  bad_status : ℕ → B → FetchError B E
  undecodable : E → FetchError B E

-- `fetchJson` after `client.Do`.
abbrev pub read_json {ℓ ι} :
    {W B E : Type ℓ} {T : Type ι} → (B → Result E T) → HttpResponse B → Action W (FetchError B E) T
read_json decode resp =
    if resp.status_code == 200
    then lift (wrap_err FetchError.undecodable (decode resp.body))
    else raise (FetchError.bad_status resp.status_code resp.body)

module _ {ℓ} {W B E : Type ℓ} (h : Http W B E) where
  -- http.NewRequest, whose error the callers return.
  abbrev pub make_request : String → String → Option B → Action W (FetchError B E) (HttpRequest B)
  make_request method url body =
      lift (wrap_err FetchError.bad_request (h.new_request method url body))

  module _ {ι} {T : Type ι} (decode : B → Result E T) where
    unfoldable pub fetch_json : HttpRequest B → Action W (FetchError B E) T
    fetch_json req = do resp ← wrap FetchError.transport (h.send req); read_json decode resp
