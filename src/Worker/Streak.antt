-- ===== src/Worker/Streak.antt =====
-- The flag that a job's callbacks keep, against the length of the streak of failures.
use ve_xchange_api.Prelude.{
  ℕ, ◌+◌, ◌-◌, ◌^◌, ◌≤◌, ◌<◌, ◌≡◌, refl, ap, ◌∙◌, length, Bool, true, false, List, [], ◌∷◌, some,
  arith, leb,
}
use ve_xchange_api.Prelude.Result.{Result, ok, err}
use ve_xchange_api.GoTime.{Time}
use ve_xchange_api.Worker.Job.{ProviderJob, settle, validate, fetch}

-- The flag is up exactly when the last three fetches, or more, have failed.
abbrev pub Agrees {ℓ} : {W : Type ℓ} → (W → Bool) → ℕ → W → Type 0
Agrees failing c w = failing w ≡ leb 3 c

-- The streak of failures after one more result, and after more of them.
abbrev pub next_streak : ℕ → Bool → ℕ
next_streak c true = 0
next_streak c false = c + 1

pub next_streak-le : (c : ℕ) (b : Bool) → next_streak c b ≤ c + 1
next_streak-le c true = omega arith
next_streak-le c false = omega arith

abbrev pub streak : ℕ → List Bool → ℕ
streak c [] = c
streak c (b ∷ bs) = streak (next_streak c b) bs

module _ {ℓ} {W P E : Type ℓ} where
  -- A flag of the world that `OnFail` raises, `OnRecover` lowers and nothing else of the job touches.
  pub record Flag (now : W → Time × W) (job : ProviderJob W P E) (failing : W → Bool) : Type ℓ where
    pub on_fail : ℕ → W → W
    pub has_on_fail : job.on_fail ≡ some on_fail
    pub raises : (c : ℕ) (w : W) → failing (on_fail c w) ≡ true
    pub on_recover : W → W
    pub has_on_recover : job.on_recover ≡ some on_recover
    pub lowers : (w : W) → failing (on_recover w) ≡ false
    pub after_fetch : ℕ → Bool → W → W
    pub has_after_fetch : job.after_fetch ≡ some after_fetch
    pub after_keeps : (c : ℕ) (b : Bool) (w : W) → failing (after_fetch c b w) ≡ failing w
    pub apply_keeps : (resp : P) (w : W) → failing (job.apply resp w) ≡ failing w
    pub now_keeps : (w : W) → failing (now w).1 ≡ failing w
    pub get_keeps : (w : W) → failing (job.get_prices w).1 ≡ failing w

  module _ (now : W → Time × W) (job : ProviderJob W P E) (failing : W → Bool)
      (flag : Flag now job failing) where
    open flag use {
      on_fail, has_on_fail, raises, on_recover, has_on_recover, lowers, after_fetch,
      has_after_fetch, after_keeps, apply_keeps, now_keeps, get_keeps,
    }

    settle-Agrees :
        (answer : Result E P) (c : ℕ) (w : W)
        → c < 2 ^ 63 - 1
        → Agrees failing c w
        → let (done, c', w') = settle now job answer c w in
          Agrees failing c' w' × (c' ≡ next_streak c done)
    settle-Agrees (err e) c w h a =
        rw (has_on_fail, has_after_fetch) (grind (arith, raises, after_keeps))
    settle-Agrees (ok resp) c w h a =
        rw (has_on_recover, has_after_fetch) (grind (arith, lowers, after_keeps, apply_keeps))

    failing-validate :
        (scheduled : Bool) (answer : Result E P) (w : W)
        → failing (validate now job scheduled answer w).1 ≡ failing w
    failing-validate scheduled (err e) w = refl
    failing-validate scheduled (ok resp) w = grind (arith, now_keeps)

    -- One fetch, scheduled or not, keeps the flag and the counter in agreement, and the counter is
    -- the length of the streak of failures.
    pub fetch-Agrees :
        (scheduled : Bool) (c : ℕ) (w : W)
        → c < 2 ^ 63 - 1
        → Agrees failing c w
        → let (done, c', w') = fetch now job scheduled c w in
          Agrees failing c' w' × (c' ≡ next_streak c done)
    unfolding fetch
    fetch-Agrees scheduled c w h a =
        let (answer, w1) = job.get_prices w in
        let (checked, w2) = validate now job scheduled answer w1 in
        settle-Agrees checked c w2 h (failing-validate scheduled answer w1 ∙ get_keeps w ∙ a)

  -- Fetches one after the other, each scheduled or not: what they return, the counter and the world.
  unfoldable pub fetches :
      (W → Time × W) → ProviderJob W P E → List Bool → ℕ → W → List Bool × ℕ × W
  fetches now job [] c w = ([], c, w)
  fetches now job (b ∷ bs) c w =
      let (done, c', w') = fetch now job b c w in
      let (results, c'', w'') = fetches now job bs c' w' in (done ∷ results, c'', w'')

  -- After any fetches of a job with such a flag, as many as an `int64` counts, the flag is up exactly
  -- when the streak of failures that the results end with is of three or more.
  pub fetches-Agrees :
      (now : W → Time × W) (job : ProviderJob W P E) (failing : W → Bool)
      (flag : Flag now job failing) (bs : List Bool) (c : ℕ) (w : W)
      → c + length bs < 2 ^ 63 - 1
      → failing w ≡ leb 3 c
      → let (results, c', w') = fetches now job bs c w in
        (failing w' ≡ leb 3 (streak c results)) × (c' ≡ streak c results)
  unfolding fetches
  fetches-Agrees now job failing flag [] c w h a = (a, refl)
  fetches-Agrees now job failing flag (b ∷ bs) c w h a =
      let (a', e) = fetch-Agrees now job failing flag b c w (omega arith) a in
      let (done, c', w') = fetch now job b c w in
      let rest =
        fetches-Agrees now job failing flag bs c' w' (omega (arith, e, next_streak-le c done)) a' in
      let results = (fetches now job bs c' w').0 in
      (
        rest.0 ∙ ap (λ (n : ℕ). leb 3 (streak n results)) e,
        rest.1 ∙ ap (λ (n : ℕ). streak n results) e,
      )
