-- ===== src/Metrics.antt =====
-- internal/metrics/metrics.go: `Middleware` and its `responseWriter`. A handler is taken as the calls
-- that it makes of its ResponseWriter, on a world `W`; the clock and the histogram
-- `HTTPRequestDuration` are arguments.
pub mod Observed
use Prim.Native.String.{String}
use ve_xchange_api.Prelude.{ℕ, List, [], ◌∷◌, ◌++◌}
use ve_xchange_api.Prelude.Int.{ℤ}
use ve_xchange_api.GoTime.{Time, sub}

pub record Request {ℓ} (B : Type ℓ) : Type ℓ where
  pub method : String
  pub path : String
  pub body : B

-- A call of an `http.ResponseWriter`.
pub data Call {ℓ} (B : Type ℓ) : Type ℓ where
  write_header : ℕ → Call B
  write : B → Call B

-- `responseWriter`: the calls that the writer inside has had, and the code.
pub record ResponseWriter {ℓ} (B : Type ℓ) : Type ℓ where
  pub passed : List (Call B)
  pub status_code : ℕ

module _ {ℓ} {B : Type ℓ} where
  -- Its own `WriteHeader`, and the `Write` that it has from the writer inside.
  abbrev pub on_call : Call B → ResponseWriter B → ResponseWriter B
  on_call (write_header code) rw' = record {
    passed = rw'.passed ++ (write_header code ∷ []);
    status_code = code;
  }
  on_call (write body) rw' = record {
    passed = rw'.passed ++ (write body ∷ []);
    status_code = rw'.status_code;
  }

  pub on_calls : List (Call B) → ResponseWriter B → ResponseWriter B
  on_calls [] rw' = rw'
  on_calls (c ∷ cs) rw' = on_calls cs (on_call c rw')

  module _ {W : Type ℓ} (now : W → Time × W)
      (observe : (method path : String) → ℕ → ℤ → W → W) where
    pub middleware : (Request B → W → List (Call B) × W) → Request B → W → List (Call B) × W
    middleware next r w =
        let (start, w1) = now w in
        let (calls, w2) = next r w1 in
        let rw' = on_calls calls (record { passed = []; status_code = 200 }) in
        let (t, w3) = now w2 in
        (rw'.passed, observe r.method r.path rw'.status_code (sub t start) w3)
