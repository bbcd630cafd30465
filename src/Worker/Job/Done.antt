-- ===== src/Worker/Job/Done.antt =====
-- What a fetch that succeeds has done.
use ve_xchange_api.Prelude.{ℕ, ◌≡◌, refl, ◌&&◌, Bool, true, arith, inl, inr, if◌then◌else◌}
use ve_xchange_api.Prelude.Result.{Result, ok, err, Result-cases}
use ve_xchange_api.GoTime.{Time}
use ve_xchange_api.Worker.Job.{
  ProviderJob, is_streak, is_positive, call_on_recover, call_after_fetch, validate, fetch,
}

module _ {ℓ} {W P E : Type ℓ} (now : W → Time × W) (job : ProviderJob W P E) where
  -- `validate` lets an answer through as it is.
  validate-ok :
      (scheduled : Bool) (answer : Result E P) (w : W) (resp : P)
      → (validate now job scheduled answer w).0 ≡ ok resp
      → answer ≡ ok resp
  validate-ok scheduled (err x) w resp e = absurd (cc)
  validate-ok scheduled (ok resp') w resp e = ground arith

  -- The world in which a successful fetch calls `Apply`.
  abbrev pub recovered : ℕ → W → W
  recovered c w = if is_positive c && is_streak c then call_on_recover now job w else w

  -- A fetch that returns true applied what the provider answered, after the validation let it through,
  -- and then called `AfterFetch`.
  pub fetch-true :
      (scheduled : Bool) (c : ℕ) (w : W)
      → (fetch now job scheduled c w).0 ≡ true
      → (resp : P) × (c' : ℕ) × ((job.get_prices w).0 ≡ ok resp)
        × (let (answer, w1) = job.get_prices w in
            ((validate now job scheduled answer w1).0 ≡ ok resp)
            × ((fetch now job scheduled c w).2
                ≡ call_after_fetch now job c' true
                    (job.apply resp (recovered c (validate now job scheduled answer w1).1))))
  unfolding fetch
  fetch-true scheduled c w e =
      let (answer, w1) = job.get_prices w in
      elim (Result-cases (validate now job scheduled answer w1).0) [
        | inr (x, failed) ↦ absurd (ground arith)
        | inl (resp, passed) ↦ (
          resp,
          (if is_positive c then 0 else c),
          validate-ok scheduled answer w1 resp passed,
          (passed, rw passed refl),
        )
      ]
