-- ===== src/Provider/Retry/Source.antt =====
-- Where a result of `withRetry` comes from.
use ve_xchange_api.Prelude.{ℕ, zero, suc, ◌+◌, ◌≡◌, Option, arith, inl, inr}
use ve_xchange_api.Prelude.Result.{ok, Result-cases}
use ve_xchange_api.Prelude.Action.{Action}
use ve_xchange_api.Provider.Retry.{attempt, with_retry}

module _ {ℓ κ ι} {W : Type ℓ} {T : Type ι} {E : Type κ} (sleep : ℕ → W → W)
    (fn : Action W E T) where
  attempt-source :
      (m left i delay : ℕ) (last : Option E) (w w' : W) (t : T)
      → attempt sleep fn m left i delay last w ≡ (ok t, w')
      → (v : W) × (fn v ≡ (ok t, w'))
  unfolding attempt
  attempt-source m zero i delay last w w' t e = absurd (ground arith)
  attempt-source m (suc left) i delay last w w' t e = elim (Result-cases (fn w).0) [
    | inl (a, q) ↦ (w, ground arith)
    | inr (x, q) ↦ attempt-source m left (i + 1) _ _ _ w' t (rw (q, attempt) at e)
  ]

  -- It is what one of the calls returned, and nothing happens after that call.
  pub with_retry-source :
      (m delay : ℕ) (w w' : W) (t : T)
      → with_retry sleep fn m delay w ≡ (ok t, w')
      → (v : W) × (fn v ≡ (ok t, w'))
  unfolding with_retry
  with_retry-source m delay w w' t e = attempt-source m m 0 delay _ w w' t e
