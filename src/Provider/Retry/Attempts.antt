-- ===== src/Provider/Retry/Attempts.antt =====
-- How often `withRetry` calls its function.
use ve_xchange_api.Prelude.{
  ℕ, zero, suc, ◌+◌, ◌-◌, ◌≤◌, ◌&&◌, Option, some, arith, ltb, if◌then◌else◌, Bool, true, false,
}
use ve_xchange_api.Prelude.Result.{Result, ok, err}
use ve_xchange_api.Prelude.Action.{Action, Costs}
use ve_xchange_api.Provider.Retry.{RetryError, is_positive, double, attempt, with_retry}

module _ {ℓ κ ι} {W : Type ℓ} {T : Type ι} {E : Type κ} (count : W → ℕ) (sleep : ℕ → W → W)
    (fn : Action W E T) (pause : (d : ℕ) (w : W) → count (sleep d w) ≤ count w)
    (once : Costs count 1 fn) where
  rested : (b : Bool) (d : ℕ) (w : W) → count (if b then sleep d w else w) ≤ count w
  rested true d w = pause d w
  rested false d w = omega arith

  -- The loop after an answer.
  resumed : (E → W → Result (RetryError E) T × W) → Result E T × W → Result (RetryError E) T × W
  resumed next (answer, w) = elim answer [ ok t ↦ (ok t, w) | err e ↦ next e w ]

  resumed-le :
      (n : ℕ) (next : E → W → Result (RetryError E) T × W)
      → ((e : E) (w : W) → count (next e w).1 ≤ count w + n)
      → (r : Result E T × W) → count (resumed next r).1 ≤ count r.1 + n
  unfolding resumed
  resumed-le n next h (ok t, w) = omega arith
  resumed-le n next h (err e, w) = h e w

  attempt-le :
      (m left i delay : ℕ) (last : Option E) (w : W)
      → count (attempt sleep fn m left i delay last w).1 ≤ count w + left
  unfolding attempt resumed
  attempt-le m zero i delay last w = omega arith
  attempt-le m (suc left) i delay last w =
      let rests = ltb i (m - 1) && is_positive delay in
      let delay' = if rests then double delay else delay in
      omega (
        arith,
        once w,
        resumed-le left
            (λ e w'.
              attempt sleep fn m left (i + 1) delay' (some e)
                (if rests then sleep delay w' else w'))
            (λ e w'. omega (
              arith,
              attempt-le m left (i + 1) delay' (some e) (if rests then sleep delay w' else w'),
              rested rests delay w',
            ))
            (fn w),
      )

  -- At most as often as attempts are allowed, whatever it answers.
  pub with_retry-Costs : (m delay : ℕ) → Costs count m (with_retry sleep fn m delay)
  unfolding with_retry
  with_retry-Costs m delay w = attempt-le m m 0 delay _ w
