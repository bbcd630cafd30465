-- ===== src/Worker/Goroutine/Flags.antt =====
-- The flag that a job's callbacks keep, over the whole life of its goroutine.
use ve_xchange_api.Prelude.{
  ℕ, suc, ◌+◌, ◌-◌, ◌^◌, ◌≤◌, ◌<◌, ◌≡◌, ◌∙◌, Bool, true, false, List, [], ◌∷◌, arith, length, leb,
  inl, inr, Option-cases, if◌then◌else◌,
}
use ve_xchange_api.GoTime.{Time}
use ve_xchange_api.Worker.Schedule.{TimeOfDay, BusinessWindow}
use ve_xchange_api.Worker.Job.{ProviderJob, fetch}
use ve_xchange_api.Worker.Loop.{
  Phase, Event, fired, cancelled, waiting, retrying, stopped, await_start, await_retry, step,
}
use ve_xchange_api.Worker.Streak.{Agrees, Flag, next_streak-le, fetch-Agrees}
use ve_xchange_api.Worker.Goroutine.{
  Place, in_window, daily, between, ticking, finished, clock, counted_fetch, await_daily_retry,
  launch, move, run,
}

-- What holds of both branches.
of_if {ℓ κ} :
    {A : Type ℓ} (Q : A → Type κ) (b : Bool) {x y : A} → Q x → Q y → Q (if b then x else y)
of_if Q true p q = p
of_if Q false p q = q

module _ {ℓ} {W P E : Type ℓ} (now : W → Time × W) (job : ProviderJob W P E) (failing : W → Bool)
    (flag : Flag now job failing) where
  -- The flag agrees with the counter, which is at most `n`.
  record Keeps (n : ℕ) (s : ℕ × W) : Type 0 where
    agrees : Agrees failing s.0 s.1
    small : s.0 ≤ n

  later : {n : ℕ} {s : ℕ × W} → Keeps n s → Keeps (suc n) s
  later k = record { agrees = k.agrees; small = omega (arith, k.small) }

  clock-Keeps : {n : ℕ} (s : ℕ × W) → Keeps n s → Keeps n (clock now job s).1
  clock-Keeps (c, w) k = record { agrees = flag.now_keeps w ∙ k.agrees; small = k.small }

  fetch-Keeps :
      {n : ℕ} (scheduled : Bool) (s : ℕ × W)
      → n < 2 ^ 63 - 1
      → Keeps n s
      → Keeps (suc n) (counted_fetch now job scheduled s).1
  fetch-Keeps scheduled (c, w) h k =
      let (a, e) =
        fetch-Agrees now job failing flag scheduled c w (omega (arith, k.small)) k.agrees in
      record {
        agrees = a;
        small = omega (arith, e, k.small, next_streak-le c (fetch now job scheduled c w).0);
      }

  await_start-Keeps :
      {n : ℕ} (window : BusinessWindow) (s : ℕ × W)
      → Keeps n s
      → Keeps n (await_start (clock now job) (counted_fetch now job) window s).1
  unfolding await_start
  await_start-Keeps window s k = clock-Keeps s k

  await_retry-Keeps :
      {n : ℕ} (window : BusinessWindow) (deadline : Time) (s : ℕ × W)
      → Keeps n s
      → Keeps n (await_retry (clock now job) (counted_fetch now job) window deadline s).1
  unfolding await_retry
  await_retry-Keeps {n = n} window deadline s k =
      let s1 = (clock now job s).1 in
      let k1 = clock-Keeps s k in
      of_if (λ (r : Phase × (ℕ × W)). Keeps n r.1) _ (clock-Keeps s1 k1)
        (await_start-Keeps window s1 k1)

  step-Keeps :
      {n : ℕ} (window : BusinessWindow) (e : Event) (phase : Phase) (s : ℕ × W)
      → n < 2 ^ 63 - 1
      → Keeps n s
      → Keeps (suc n) (step (clock now job) (counted_fetch now job) window e phase s).1
  unfolding step
  step-Keeps window cancelled phase s h k = later k
  step-Keeps {n = n} window fired (waiting timer) s h k =
      let s1 = (counted_fetch now job true s).1 in
      let k1 = fetch-Keeps true s h k in
      of_if (λ (r : Phase × (ℕ × W)). Keeps (suc n) r.1) _ (await_start-Keeps window s1 k1)
        (await_retry-Keeps window _ (clock now job s1).1 (clock-Keeps s1 k1))
  step-Keeps {n = n} window fired (retrying r) s h k =
      let s1 = (counted_fetch now job true s).1 in
      let k1 = fetch-Keeps true s h k in
      of_if (λ (r : Phase × (ℕ × W)). Keeps (suc n) r.1) _ (await_start-Keeps window s1 k1)
        (await_retry-Keeps window _ s1 k1)
  step-Keeps window fired stopped s h k = later k

  await_daily_retry-Keeps :
      {n : ℕ} (tod : TimeOfDay) (retries : ℕ) (s : ℕ × W)
      → Keeps n s
      → Keeps n (await_daily_retry now job tod retries s).1
  await_daily_retry-Keeps {n = n} tod retries s k =
      of_if (λ (r : Place × (ℕ × W)). Keeps n r.1) _ k (clock-Keeps s k)

  move-Keeps :
      {n : ℕ} (e : Event) (p : Place) (s : ℕ × W)
      → n < 2 ^ 63 - 1
      → Keeps n s
      → Keeps (suc n) (move now job e p s).1
  unfolding move
  move-Keeps e (in_window window phase) s h k = step-Keeps window e phase s h k
  move-Keeps cancelled (daily tod timer) s h k = later k
  move-Keeps cancelled (between tod retries timer) s h k = later k
  move-Keeps cancelled (ticking every) s h k = later k
  move-Keeps fired (daily tod timer) s h k =
      await_daily_retry-Keeps tod 0 _ (fetch-Keeps false s h k)
  move-Keeps fired (between tod retries timer) s h k =
      await_daily_retry-Keeps tod (retries + 1) _ (fetch-Keeps false s h k)
  move-Keeps fired (ticking every) s h k = fetch-Keeps false s h k
  move-Keeps cancelled finished s h k = later k
  move-Keeps fired finished s h k = later k

  run-Keeps :
      {n : ℕ} (es : List Event) (p : Place) (s : ℕ × W)
      → n + length es < 2 ^ 63
      → Keeps n s
      → Keeps (n + length es) (run now job es p s).1
  unfolding run
  run-Keeps [] p s h k = record { agrees = k.agrees; small = omega (arith, k.small) }
  run-Keeps (e ∷ es) p s h k =
      let (p', s') = move now job e p s in
      let r = run-Keeps es p' s' (omega arith) (move-Keeps e p s (omega arith) k) in
      record { agrees = r.agrees; small = omega (arith, r.small) }

  launch-Keeps : (w : W) → failing w ≡ false → Keeps 1 (launch now job w).1
  unfolding launch fetch
  launch-Keeps w down =
      let s = (counted_fetch now job false (0, w)).1 in
      let k =
        fetch-Keeps {n = 0} false (0, w) (omega arith)
          (record { agrees = down; small = omega arith }) in
      elim (Option-cases job.business_window) [
        | inr (window, windowed) ↦ rw windowed (await_start-Keeps window s k)
        | inl no_window ↦ elim (Option-cases job.daily_at) [
          | inr (tod, timed) ↦ rw (no_window, timed) (clock-Keeps s k)
          | inl no_time ↦ rw (no_window, no_time) k
        ]
      ]

  -- The whole life of a goroutine whose job has such a flag, on a world in which the flag is down: the
  -- first fetch, and then timers that fire and cancellations, fewer than an `int64` counts, whatever the
  -- job's schedule. At the end the flag is up exactly when the counter is three or more.
  pub run-Agrees :
      (es : List Event) (w : W)
      → suc (length es) < 2 ^ 63
      → failing w ≡ false
      → let (p, s) = launch now job w in
        let (p', (c', w')) = run now job es p s in failing w' ≡ leb 3 c'
  run-Agrees es w h down =
      let (p, s) = launch now job w in (run-Keeps es p s (omega arith) (launch-Keeps w down)).agrees
