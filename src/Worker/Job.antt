-- ===== src/Worker/Job.antt =====
-- `ProviderJob` and the closure `fetch` of `StartPriceWorker`, in internal/worker/worker.go. All that
-- a job's functions read and change, the clock included, is a world of a type `W`, and `now` is `time.Now()`; the captured
-- variable `consecutiveFails` is passed along with it. Logging is left out.
pub mod Done
use ve_xchange_api.Prelude.{
  ℕ, ◌+◌, ◌%◌, ◌^◌, Bool, true, false, ◌&&◌, Option, none, some, ltb, leb, if◌then◌else◌,
}
use ve_xchange_api.Prelude.Result.{Result, ok, err}
use ve_xchange_api.GoTime.{Time}
use ve_xchange_api.Worker.Schedule.{TimeOfDay, BusinessWindow}

-- A job that fetches a `P`. An optional callback is `none` where the source has nil.
pub record ProviderJob {ℓ} (W P E : Type ℓ) : Type ℓ where
  pub get_prices : W → Result E P × W
  pub every : ℕ
  pub daily_at : Option TimeOfDay
  pub business_window : Option BusinessWindow
  pub apply : P → W → W
  -- `none` in the answer is a nil error.
  pub validate_scheduled : Option (P → Time → Option E)
  pub on_fail : Option (ℕ → W → W)
  pub on_recover : Option (W → W)
  pub after_fetch : Option (ℕ → Bool → W → W)

-- The bits of an `int64` counter, `c++`, and the tests `c >= 3` and `c > 0` of the signed number.
abbrev pub increment : ℕ → ℕ
increment c = (c + 1) % 2 ^ 64

abbrev pub is_streak : ℕ → Bool
is_streak c = leb 3 c && ltb c (2 ^ 63)

abbrev pub is_positive : ℕ → Bool
is_positive c = ltb 0 c && ltb c (2 ^ 63)

module _ {ℓ} {W P E : Type ℓ} (now : W → Time × W) (job : ProviderJob W P E) where
  abbrev pub call_on_fail : ℕ → W → W
  call_on_fail c w = elim job.on_fail [ none ↦ w | some f ↦ f c w ]

  abbrev pub call_on_recover : W → W
  call_on_recover w = elim job.on_recover [ none ↦ w | some f ↦ f w ]

  abbrev pub call_after_fetch : ℕ → Bool → W → W
  call_after_fetch c success w = elim job.after_fetch [ none ↦ w | some f ↦ f c success w ]

  -- What is left of the provider's answer after the validation of a scheduled fetch, which reads the
  -- clock if there is a check to run.
  abbrev pub validate : Bool → Result E P → W → Result E P × W
  validate scheduled (err e) w = (err e, w)
  validate scheduled (ok resp) w =
      if scheduled
      then elim job.validate_scheduled [
        | none ↦ (ok resp, w)
        | some check ↦
            let (t, w') = now w in
            elim (check resp t) [ none ↦ (ok resp, w') | some e ↦ (err e, w') ]
      ]
      else (ok resp, w)

  -- The rest of `fetch`: what it returns, the new counter and the new world.
  abbrev pub settle : Result E P → ℕ → W → Bool × ℕ × W
  settle (err e) c w =
      let c' = increment c in
      (false, c', call_after_fetch c' false (if is_streak c' then call_on_fail c' w else w))
  settle (ok resp) c w =
      let w' = if is_positive c && is_streak c then call_on_recover w else w in
      let c' = if is_positive c then 0 else c in
      (true, c', call_after_fetch c' true (job.apply resp w'))

  unfoldable pub fetch : Bool → ℕ → W → Bool × ℕ × W
  fetch scheduled c w =
      let (answer, w1) = job.get_prices w in
      let (checked, w2) = validate scheduled answer w1 in settle checked c w2
