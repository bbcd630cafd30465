-- ===== src/Provider/Retry.antt =====
-- `withRetry` of internal/provider/utils.go. What `fn` and `time.Sleep` read and change is a world of
-- a type `W`. The number of attempts is taken as not negative; a delay is the bits of an `int64`.
pub mod Attempts
pub mod Script
pub mod Source
use ve_xchange_api.Prelude.{
  ℕ, zero, suc, ◌+◌, ◌-◌, ◌*◌, ◌%◌, ◌^◌, Bool, ◌&&◌, Option, none, some, ltb, if◌then◌else◌,
}
use ve_xchange_api.Prelude.Result.{Result, ok, err}

-- `fmt.Errorf("after %d attempts: %w", maxAttempts, lastErr)`; without an attempt `lastErr` is nil.
pub record RetryError {ℓ} (E : Type ℓ) : Type ℓ where
  pub attempts : ℕ
  pub last : Option E

-- `delay > 0` and `delay *= 2`
abbrev pub is_positive : ℕ → Bool
is_positive delay = ltb 0 delay && ltb delay (2 ^ 63)

abbrev pub double : ℕ → ℕ
double delay = delay * 2 % 2 ^ 64

module _ {ℓ κ ι} {W : Type ℓ} {T : Type ι} {E : Type κ} (sleep : ℕ → W → W)
    (fn : W → Result E T × W) where
  -- The loop at attempt `i` of `max_attempts`, with `left` of them to go.
  unfoldable pub attempt :
      (max_attempts left i delay : ℕ) → Option E → W → Result (RetryError E) T × W
  attempt max_attempts zero i delay last w =
      (err (record { attempts = max_attempts; last = last }), w)
  attempt max_attempts (suc left) i delay last w =
      let (answer, w') = fn w in
      let rests = ltb i (max_attempts - 1) && is_positive delay in
      elim answer [
        | ok result ↦ (ok result, w')
        | err e ↦
            attempt max_attempts left (i + 1) (if rests then double delay else delay) (some e)
              (if rests then sleep delay w' else w')
      ]

  unfoldable pub with_retry : (max_attempts base_delay : ℕ) → W → Result (RetryError E) T × W
  unfolding attempt
  with_retry max_attempts base_delay w = attempt max_attempts max_attempts 0 base_delay none w
