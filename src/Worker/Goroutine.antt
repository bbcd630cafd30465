-- ===== src/Worker/Goroutine.antt =====
-- The goroutine of a job that `StartPriceWorker` of internal/worker/worker.go launches, as a machine
-- that rests where the code waits in a `select`. A world here has the job's counter
-- `consecutiveFails` before what the job's functions read and change.
pub mod Flags
pub mod Days
use ve_xchange_api.Prelude.{
  ℕ, ◌+◌, ◌*◌, Bool, true, false, ◌&&◌, none, some, List, [], ◌∷◌, ltb, if◌then◌else◌,
}
use ve_xchange_api.Prelude.Int.{ℤ}
use ve_xchange_api.GoTime.{Time, minute}
use ve_xchange_api.Worker.Schedule.{TimeOfDay, BusinessWindow, next_daily}
use ve_xchange_api.Worker.Job.{ProviderJob, fetch, is_positive}
use ve_xchange_api.Worker.Loop.{Phase, stopped, Event, fired, cancelled, await_start, step}

-- The `select` that the goroutine waits in: one of `runBusinessWindow`, that for a time of day, that
-- between two retries of a daily fetch, with the retries done and the timer, or that of the ticker.
pub data Place : Type 0 where
  in_window : BusinessWindow → Phase → Place
  daily : TimeOfDay → ℤ → Place
  between : TimeOfDay → (retries timer : ℕ) → Place
  ticking : ℕ → Place
  finished : Place

-- A goroutine ends when `runBusinessWindow` returns.
abbrev pub place_of : BusinessWindow → Phase → Place
place_of window (Phase.waiting timer) = in_window window (Phase.waiting timer)
place_of window (Phase.retrying r) = in_window window (Phase.retrying r)
place_of window stopped = finished

module _ {ℓ} {W P E : Type ℓ} (now : W → Time × W) (job : ProviderJob W P E) where
  abbrev pub clock : ℕ × W → Time × (ℕ × W)
  clock (c, w) = let (t, w') = now w in (t, (c, w'))

  -- The closure `fetch`.
  abbrev pub counted_fetch : Bool → ℕ × W → Bool × (ℕ × W)
  counted_fetch scheduled (c, w) =
      let (done, c', w') = fetch now job scheduled c w in (done, (c', w'))

  -- The daily loop, from its beginning to its `select`.
  abbrev pub await_day : TimeOfDay → ℕ × W → Place × (ℕ × W)
  await_day tod s = let (t, s') = clock s in (daily tod (next_daily tod t), s')

  -- The loop of retries, from its test to its `select`, or the daily loop once it ends.
  abbrev pub await_daily_retry : TimeOfDay → ℕ → ℕ × W → Place × (ℕ × W)
  await_daily_retry tod retries s =
      if ltb retries 10 && is_positive s.0
      then (between tod retries (30 * minute), s)
      else await_day tod s

  -- From the first fetch to the first `select`.
  unfoldable pub launch : W → Place × (ℕ × W)
  launch w =
      let (done, s) = counted_fetch false (0, w) in
      elim job.business_window [
        | some window ↦
            let (phase, s') = await_start clock counted_fetch window s in
            (place_of window phase, s')
        | none ↦ elim job.daily_at [ some tod ↦ await_day tod s | none ↦ (ticking job.every, s) ]
      ]

  -- From one `select` to the next.
  unfoldable pub move : Event → Place → ℕ × W → Place × (ℕ × W)
  move e (in_window window phase) s =
      let (phase', s') = step clock counted_fetch window e phase s in (place_of window phase', s')
  move cancelled (daily tod timer) s = (finished, s)
  move cancelled (between tod retries timer) s = (finished, s)
  move cancelled (ticking every) s = (finished, s)
  move fired (daily tod timer) s = await_daily_retry tod 0 (counted_fetch false s).1
  move fired (between tod retries timer) s =
      await_daily_retry tod (retries + 1) (counted_fetch false s).1
  move fired (ticking every) s = (ticking every, (counted_fetch false s).1)
  move e finished s = (finished, s)

  -- What comes of events one after the other.
  pub run : List Event → Place → ℕ × W → Place × (ℕ × W)
  run [] p s = (p, s)
  run (e ∷ es) p s = let (p', s') = move e p s in run es p' s'
