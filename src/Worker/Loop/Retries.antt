-- ===== src/Worker/Loop/Retries.antt =====
-- When the loop retries, and how often.
use ve_xchange_api.Prelude.{
  ℕ, suc, ◌+◌, ◌*◌, ◌≤◌, ◌<◌, ◌≡◌, ◌≢◌, refl, ◌∙◌, Bool, Bool-cases, inl, inr, true, Option, arith,
}
use ve_xchange_api.Prelude.Int.{ℤ}
use ve_xchange_api.GoTime.{Time, before}
use ve_xchange_api.Worker.Schedule.{BusinessWindow, business_window_end, next_business_window_retry}
use ve_xchange_api.Worker.Loop.{Retry, waiting, retrying, fired, await_start, await_retry, step}

-- A clock that a world shows: reading it takes no step back, and neither does a fetch.
pub record Clock {ℓ} {W : Type ℓ} (now : W → Time × W) (fetch : Bool → W → Bool × W) : Type ℓ where
  pub clock : W → ℕ
  pub reads : (w : W) → (now w).0.ns ≡ clock w
  pub now_le : (w : W) → clock w ≤ clock (now w).1
  pub fetch_le : (b : Bool) (w : W) → clock w ≤ clock (fetch b w).1

module _ {ℓ} {W : Type ℓ} (now : W → Time × W) (fetch : Bool → W → Bool × W)
    (window : BusinessWindow) (c : Clock now fetch) where
  -- Some retries after one another in one window, the first from the phase `r`: each timer fires at or
  -- after the time that it was set for, in a world to which the world before has come, and the last
  -- leaves the phase `r'`.
  pub data Retries : ℕ → Retry → Retry → Type ℓ where
    none_yet : {r : Retry} → Retries 0 r r
    again :
        {n : ℕ} {r r' r'' : Retry} (w w' : W)
        → Retries n r r'
        → r'.next_retry.ns ≤ c.clock w
        → step now fetch window fired (retrying r') w ≡ (retrying r'', w')
        → Retries (suc n) r r''

  await_retry-le :
      (deadline : Time) (w w' : W) (r : Retry)
      → await_retry now fetch window deadline w ≡ (retrying r, w')
      → (r.deadline ≡ deadline)
        × (r.next_retry.ns < deadline.ns)
        × (c.clock w + window.retry_every ≤ r.next_retry.ns)
  unfolding await_retry await_start next_business_window_retry before
  await_retry-le deadline w w' r e = ground (arith, c.reads w)

  -- The loop that waits for the next opening sets no retry.
  await_start-waits : (w w' : W) (r : Retry) → await_start now fetch window w ≢ (retrying r, w')
  unfolding await_start
  await_start-waits w w' r e = ground arith

  step-retrying :
      (r r' : Retry) (w w' : W)
      → r.next_retry.ns ≤ c.clock w
      → step now fetch window fired (retrying r) w ≡ (retrying r', w')
      → (r'.deadline ≡ r.deadline)
        × (r'.next_retry.ns < r.deadline.ns)
        × (r.next_retry.ns + window.retry_every ≤ r'.next_retry.ns)
  unfolding step
  step-retrying r r' w w' h e = elim (Bool-cases (fetch true w).0) [
    | inl good ↦ absurd (await_start-waits (fetch true w).1 w' r' (ground arith))
    | inr bad ↦
        let (same, before, later) =
          await_retry-le r.deadline (fetch true w).1 w' r' (ground arith) in
        (same, before, omega (arith, c.fetch_le true w, later))
  ]

  -- A first retry is set only after a start that failed, and before the day's end of the window.
  step-waiting :
      (timer : Option ℤ) (r : Retry) (w w' : W)
      → step now fetch window fired (waiting timer) w ≡ (retrying r, w')
      → (r.deadline ≡ business_window_end window (now (fetch true w).1).0)
        × (r.next_retry.ns < r.deadline.ns)
        × (c.clock w + window.retry_every ≤ r.next_retry.ns)
  unfolding step
  step-waiting timer r w w' e = elim (Bool-cases (fetch true w).0) [
    | inl good ↦ absurd (await_start-waits (fetch true w).1 w' r (ground arith))
    | inr bad ↦
        let w1 = (fetch true w).1 in
        let (same, before, later) =
          await_retry-le (business_window_end window (now w1).0) (now w1).1 w' r (ground arith) in
        (same, rw same before, omega (arith, c.fetch_le true w, c.now_le w1, later))
  ]

  put_off :
      {n : ℕ} {r r' : Retry}
      → Retries n r r'
      → r.next_retry.ns < r.deadline.ns
      → (r'.deadline ≡ r.deadline)
        × (r'.next_retry.ns < r'.deadline.ns)
        × (r.next_retry.ns + n * window.retry_every ≤ r'.next_retry.ns)
  put_off none_yet first = (refl, first, omega arith)
  put_off (again w w' rs h e) first =
      let (same, within, later) = put_off rs first in
      let (same', before, later') = step-retrying _ _ w w' h e in
      (same' ∙ same, rw same' before, grind (arith, later, later'))

  -- The retries of a window: if a start fails and `n` retries follow it, each no sooner than its timer
  -- was set for, then the next retry is set for before the end of the window on the day that
  -- the clock showed after the failure, and at least `n + 1` times `RetryEvery` after the start; so only so many fit.
  pub retries_lem :
      (timer : Option ℤ) (n : ℕ) (r r' : Retry) (w w' : W)
      → step now fetch window fired (waiting timer) w ≡ (retrying r, w')
      → Retries n r r'
      → (r'.deadline ≡ business_window_end window (now (fetch true w).1).0)
        × (r'.next_retry.ns < r'.deadline.ns)
        × (c.clock w + (n + 1) * window.retry_every ≤ r'.next_retry.ns)
  retries_lem timer n r r' w w' e rs =
      let (ends, before, later) = step-waiting timer r w w' e in
      let (same, within, far) = put_off rs before in
      (same ∙ ends, within, grind (arith, later, far))
