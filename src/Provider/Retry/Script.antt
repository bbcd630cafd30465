-- ===== src/Provider/Retry/Script.antt =====
-- `withRetry` on a world that is a script: the answers of `fn`, one for each call, how many calls were
-- made, and the delays that were slept.
use ve_xchange_api.Prelude.{
  ℕ, zero, suc, ◌+◌, ◌-◌, ◌*◌, ◌^◌, ◌≤◌, ◌<◌, ◌≡◌, sym, ap, ◌∙◌, none, some, true, false, ◌&&◌, ltb,
  List, [], ◌∷◌, ◌++◌, arith, Option,
}
use ve_xchange_api.Prelude.Result.{Result, ok, err}
use mathlib.Core.Path.{ap₂}
use native.Mathlib.Nat.{pow-suc}
use mathlib.Core.List.{append_assoc, append-nil}
use ve_xchange_api.Provider.Retry.{RetryError, is_positive, double, attempt, with_retry}

pub record Script {ℓ} (T E : Type ℓ) : Type ℓ where
  pub answers : ℕ → Result E T
  pub calls : ℕ
  pub slept : List ℕ

-- `k` delays, each twice the one before.
abbrev pub delays : ℕ → ℕ → List ℕ
delays zero delay = []
delays (suc k) delay = delay ∷ delays k (delay * 2)

pow_pos : (k : ℕ) → 0 < 2 ^ k
pow_pos zero = omega arith
pow_pos (suc k) = rw pow-suc (omega (arith, pow_pos k))

le-mul : (d p : ℕ) → 0 < p → d ≤ d * p
le-mul d p h = grind arith

-- While the last delay fits into an `int64`, the earlier ones do.
rest_fits : (delay k : ℕ) → delay * 2 ^ suc k < 2 ^ 63 → delay * 2 * 2 ^ k < 2 ^ 63
rest_fits delay k h = omega (arith, ap (λ (p : ℕ). delay * p) (pow-suc 2 k))

half_fits : (delay k : ℕ) → delay * 2 ^ suc k < 2 ^ 63 → delay * 2 < 2 ^ 63
half_fits delay k h = omega (arith, rest_fits delay k h, le-mul (delay * 2) (2 ^ k) (pow_pos k))

module _ {ℓ} {T E : Type ℓ} where
  abbrev pub call : Script T E → Result E T × Script T E
  call s = (s.answers s.calls, record s { calls = s.calls + 1 })

  abbrev pub rest : ℕ → Script T E → Script T E
  rest delay s = record s { slept = s.slept ++ (delay ∷ []) }

  -- The script after `n` calls.
  abbrev pub at_call : (ℕ → Result E T) → ℕ → List ℕ → Script T E
  at_call answers n slept = record { answers = answers; calls = n; slept = slept }

  module _ (answers : ℕ → Result E T) (m : ℕ) where
    abbrev ended : Result (RetryError E) T → ℕ → List ℕ → Result (RetryError E) T × Script T E
    ended r n slept = (r, at_call answers n slept)

    attempt-ok :
        (left i delay n : ℕ) (last : Option E) (slept : List ℕ) (t : T)
        → answers n ≡ ok t
        → attempt rest call m (suc left) i delay last (at_call answers n slept)
          ≡ (ok t, at_call answers (n + 1) slept)
    unfolding attempt
    attempt-ok left i delay n last slept t e = rw e

    attempt-err :
        (left i delay n : ℕ) (last : Option E) (slept : List ℕ) (e : E)
        → answers n ≡ err e
        → i + 1 < m
        → 0 < delay
        → delay * 2 < 2 ^ 63
        → attempt rest call m (suc left) i delay last (at_call answers n slept)
          ≡ attempt rest call m left
              (i + 1)
              (delay * 2)
              (some e)
              (at_call answers (n + 1) (slept ++ (delay ∷ [])))
    unfolding attempt
    attempt-err left i delay n last slept e q h pos fits = rw (q, is_rest, doubled)
      where
        is_rest : (ltb i (m - 1) && is_positive delay) ≡ true
        is_rest = ground arith

        doubled : double delay ≡ delay * 2
        doubled = omega arith

    attempt-last :
        (i delay n : ℕ) (last : Option E) (slept : List ℕ) (e : E)
        → answers n ≡ err e
        → i + 1 ≡ m
        → attempt rest call m 1 i delay last (at_call answers n slept)
          ≡ (err (record { attempts = m; last = some e }), at_call answers (n + 1) slept)
    unfolding attempt
    attempt-last i delay n last slept e q h = rw (q, no_rest)
      where
        no_rest : ltb i (m - 1) ≡ false
        no_rest = ground arith

    attempt_first_ok :
        (k left i delay n : ℕ) (last : Option E) (slept : List ℕ) (t : T)
        → i + left ≡ m
        → k < left
        → 0 < delay
        → delay * 2 ^ k < 2 ^ 63
        → ((j : ℕ) → n ≤ j → j < n + k → (e : E) × (answers j ≡ err e))
        → answers (n + k) ≡ ok t
        → attempt rest call m left i delay last (at_call answers n slept)
          ≡ (ok t, at_call answers (n + k + 1) (slept ++ delays k delay))
    attempt_first_ok k zero i delay n last slept t e lt pos fits fails done = absurd (omega arith)
    attempt_first_ok zero (suc left) i delay n last slept t e lt pos fits fails done =
        attempt-ok left i delay n last slept t (ap answers (omega arith) ∙ done)
        ∙ ap₂ (ended (ok t)) (omega arith) (sym (append-nil slept))
    attempt_first_ok (suc k) (suc left) i delay n last slept t e lt pos fits fails done =
        let (x, failed) = fails n (omega arith) (omega arith) in
        attempt-err left i delay n last slept x failed (omega arith) pos (half_fits delay k fits)
        ∙ attempt_first_ok k left (i + 1) (delay * 2) (n + 1) (some x) (slept ++ (delay ∷ [])) t
            (omega arith) (omega arith) (omega arith) (rest_fits delay k fits)
            (λ j lo hi. fails j (omega arith) (omega arith)) (ap answers (omega arith) ∙ done)
        ∙ ap₂ (ended (ok t)) (omega arith) (append_assoc slept (delay ∷ []) (delays k (delay * 2)))

    attempt_all_err :
        (left i delay n : ℕ) (last : Option E) (slept : List ℕ)
        → i + suc left ≡ m
        → 0 < delay
        → delay * 2 ^ left < 2 ^ 63
        → ((j : ℕ) → n ≤ j → j < n + suc left → (e : E) × (answers j ≡ err e))
        → (e : E) × (answers (n + left) ≡ err e)
          × (attempt rest call m (suc left) i delay last (at_call answers n slept) ≡ (
            err (record { attempts = m; last = some e }),
            at_call answers (n + left + 1) (slept ++ delays left delay),
          ))
    attempt_all_err zero i delay n last slept e pos fits fails =
        let (x, failed) = fails n (omega arith) (omega arith) in
        (
          x,
          ap answers (omega arith) ∙ failed,
          attempt-last i delay n last slept x failed e
              ∙ ap₂ (ended (err (record { attempts = m; last = some x }))) (omega arith)
                  (sym (append-nil slept)),
        )
    attempt_all_err (suc left) i delay n last slept e pos fits fails =
        let (x, failed) = fails n (omega arith) (omega arith) in
        let (y, final, ends) =
          attempt_all_err left (i + 1) (delay * 2) (n + 1) (some x) (slept ++ (delay ∷ []))
            (omega arith) (omega arith) (rest_fits delay left fits)
            (λ j lo hi. fails j (omega arith) (omega arith)) in
        (
          y,
          ap answers (omega arith) ∙ final,
          attempt-err (suc left) i delay n last slept x failed (omega arith) pos
                (half_fits delay left fits)
              ∙ ends
              ∙ ap₂ (ended (err (record { attempts = m; last = some y }))) (omega arith)
                  (append_assoc slept (delay ∷ []) (delays left (delay * 2))),
        )

  -- The script before any call.
  abbrev pub fresh : (ℕ → Result E T) → Script T E
  fresh answers = at_call answers 0 []

  -- If one of the allowed attempts succeeds, after failures only, the first that does gives the
  -- result: `fn` is called so often and no more, and before each further call there was a pause,
  -- the first of the base delay and each other twice as long as the one before. The base delay is
  -- positive, and as often as it is doubled it fits into an `int64`.
  pub with_retry_ok :
      (answers : ℕ → Result E T) (max_attempts base_delay k : ℕ) (t : T)
      → k < max_attempts
      → 0 < base_delay
      → base_delay * 2 ^ k < 2 ^ 63
      → ((j : ℕ) → j < k → (e : E) × (answers j ≡ err e))
      → answers k ≡ ok t
      → with_retry rest call max_attempts base_delay (fresh answers)
        ≡ (ok t, at_call answers (k + 1) (delays k base_delay))
  unfolding with_retry
  with_retry_ok answers m base k t lt pos fits fails done =
      attempt_first_ok answers m k m 0 base 0 none [] t (omega arith) lt pos fits
        (λ j lo hi. fails j (omega arith)) (ap answers (omega arith) ∙ done)
      ∙ ap (λ (c : ℕ). ended answers m (ok t) c (delays k base)) (omega arith)

  -- If all attempts fail, of which one or more are allowed, all are made, with a doubled pause
  -- between each two and none after the last, and the error counts them and wraps the last
  -- attempt's. The base delay is positive, and as often as it is doubled it fits into an `int64`.
  pub with_retry_err :
      (answers : ℕ → Result E T) (left base_delay : ℕ)
      → 0 < base_delay
      → base_delay * 2 ^ left < 2 ^ 63
      → ((j : ℕ) → j < suc left → (e : E) × (answers j ≡ err e))
      → (e : E) × (answers left ≡ err e)
        × (with_retry rest call (suc left) base_delay (fresh answers) ≡ (
          err (record { attempts = suc left; last = some e }),
          at_call answers (suc left) (delays left base_delay),
        ))
  unfolding with_retry
  with_retry_err answers left base pos fits fails =
      let (e, final, ends) =
        attempt_all_err answers (suc left) left 0 base 0 none [] (omega arith) pos fits
          (λ j lo hi. fails j (omega arith)) in
      (
        e,
        ap answers (omega arith) ∙ final,
        ends
            ∙ ap
                (λ (c : ℕ).
                  ended answers (suc left) (err (record { attempts = suc left; last = some e })) c
                    (delays left base))
                (omega arith),
      )
