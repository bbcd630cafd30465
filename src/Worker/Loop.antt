-- ===== src/Worker/Loop.antt =====
-- `runBusinessWindow` of internal/worker/worker.go: the loops around `fetch`, as a machine that rests
-- where the code waits in a `select`. What `time.Now()`, `fetch` and the timers read and change is a
-- world of a type `W`.
pub mod Retries
use ve_xchange_api.Prelude.{Bool, true, false, Option, List, [], ◌∷◌, if◌then◌else◌}
use ve_xchange_api.Prelude.Int.{ℤ}
use ve_xchange_api.GoTime.{Time, sub}
use ve_xchange_api.Worker.Schedule.{
  BusinessWindow, next_business_window_start, business_window_end, next_business_window_retry,
}

-- What the inner loop keeps while it waits for `retryTimer`.
pub record Retry : Type 0 where
  pub deadline : Time
  pub next_retry : Time
  pub timer : ℤ

-- Where the code waits, with the duration of the timer that it has set.
pub data Phase : Type 0 where
  waiting : Option ℤ → Phase
  retrying : Retry → Phase
  stopped : Phase

-- Which case of a `select` is taken.
pub data Event : Type 0 where
  fired cancelled : Event

module _ {ℓ} {W : Type ℓ} (now : W → Time × W) (fetch : Bool → W → Bool × W)
    (window : BusinessWindow) where
  -- The outer loop, from its beginning to its `select`.
  unfoldable pub await_start : W → Phase × W
  await_start w = let (t, w') = now w in (waiting (next_business_window_start window t), w')

  -- The inner loop, from its beginning to its `select`, or the outer one if it breaks.
  unfoldable pub await_retry : Time → W → Phase × W
  await_retry deadline w =
      let (t, w1) = now w in
      let (next_retry, should_retry) = next_business_window_retry t deadline window.retry_every in
      let (t', w2) = now w1 in
      if should_retry
      then (
        retrying
            (record { deadline = deadline; next_retry = next_retry; timer = sub next_retry t' }),
        w2,
      )
      else await_start w1

  -- From one `select` to the next.
  unfoldable pub step : Event → Phase → W → Phase × W
  step cancelled phase w = (stopped, w)
  step fired (waiting timer) w =
      let (done, w1) = fetch true w in
      let (t, w2) = now w1 in
      if done then await_start w1 else await_retry (business_window_end window t) w2
  step fired (retrying r) w =
      let (succeeded, w1) = fetch true w in
      if succeeded then await_start w1 else await_retry r.deadline w1
  step fired stopped w = (stopped, w)
