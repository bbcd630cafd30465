-- ===== src/Metrics/Observed.antt =====
-- The status that the histogram of requests gets.
use Prim.Native.String.{String}
use mathlib.Core.List.{append_assoc, append-nil}
use ve_xchange_api.Prelude.{ℕ, ◌≡◌, refl, sym, ◌∙◌, List, [], ◌∷◌, ◌++◌}
use ve_xchange_api.Prelude.Int.{ℤ}
use ve_xchange_api.GoTime.{Time, sub}
use ve_xchange_api.Metrics.{
  Request, Call, write_header, write, ResponseWriter, on_calls, middleware,
}

module _ {ℓ} {B : Type ℓ} where
  -- The status of the answer that these calls make: net/http sends the code of a `WriteHeader` that
  -- comes first, and 200 before a body that does.
  abbrev pub sent_status : List (Call B) → ℕ
  sent_status [] = 200
  sent_status (write_header code ∷ cs) = code
  sent_status (write body ∷ cs) = 200

  -- Calls that write nothing but a body.
  pub data IsBody : List (Call B) → Type ℓ where
    empty : IsBody []
    more : {cs : List (Call B)} (body : B) → IsBody cs → IsBody (write body ∷ cs)

  -- At most one `WriteHeader`, before any `Write`.
  pub data IsOrderly : List (Call B) → Type ℓ where
    bare : {cs : List (Call B)} → IsBody cs → IsOrderly cs
    headed : {cs : List (Call B)} (code : ℕ) → IsBody cs → IsOrderly (write_header code ∷ cs)

  passed-on_calls :
      (cs : List (Call B)) (rw' : ResponseWriter B) → (on_calls cs rw').passed ≡ rw'.passed ++ cs
  unfolding on_calls
  passed-on_calls [] rw' = sym (append-nil rw'.passed)
  passed-on_calls (write_header code ∷ cs) rw' = passed-on_calls cs _ ∙ append_assoc rw'.passed _ cs
  passed-on_calls (write body ∷ cs) rw' = passed-on_calls cs _ ∙ append_assoc rw'.passed _ cs

  status_code-on_calls :
      {cs : List (Call B)} (rw' : ResponseWriter B)
      → IsBody cs
      → (on_calls cs rw').status_code ≡ rw'.status_code
  unfolding on_calls
  status_code-on_calls rw' empty = refl
  status_code-on_calls rw' (more body b) = status_code-on_calls _ b

  observed :
      {cs : List (Call B)}
      → IsOrderly cs
      → (on_calls cs (record { passed = []; status_code = 200 })).status_code ≡ sent_status cs
  unfolding on_calls
  observed (bare empty) = refl
  observed (bare (more body b)) = status_code-on_calls _ b
  observed (headed code b) = status_code-on_calls _ b

  module _ {W : Type ℓ} (now : W → Time × W)
      (observe : (method path : String) → ℕ → ℤ → W → W) where
    -- A handler that calls `WriteHeader` at most once, and before it writes, answers through the
    -- middleware as it does without, and the histogram gets one observation: the request's method and
    -- path, the status of the answer, and the time between the clock's readings before and after.
    pub middleware_lem :
        (next : Request B → W → List (Call B) × W) (r : Request B) (w : W)
        → IsOrderly (next r (now w).1).0
        → let (start, w1) = now w in
          let (calls, w2) = next r w1 in
          let (t, w3) = now w2 in
          middleware now observe next r w
          ≡ (calls, observe r.method r.path (sent_status calls) (sub t start) w3)
    unfolding middleware
    middleware_lem next r w orderly =
        rw (observed orderly, passed-on_calls (next r (now w).1).0 _) refl
