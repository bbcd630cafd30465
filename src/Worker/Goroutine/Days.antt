-- ===== src/Worker/Goroutine/Days.antt =====
-- How many fetches a day of a daily job has.
use ve_xchange_api.Prelude.{
  ◌*◌, ℕ, zero, suc, ◌+◌, ◌≤◌, ◌<◌, ◌≡◌, refl, true, false, Bool-cases, inl, inr, List, [], ◌∷◌,
  arith, lt→ltb, ap, ◌⊎◌,
}
use ve_xchange_api.Prelude.Int.{ℤ}
use ve_xchange_api.GoTime.{Time, minute}
use ve_xchange_api.Worker.Schedule.{TimeOfDay}
use ve_xchange_api.Worker.Job.{ProviderJob, is_positive}
use ve_xchange_api.Worker.Loop.{Event, fired}
use ve_xchange_api.Worker.Goroutine.{
  daily, between, counted_fetch, await_day, await_daily_retry, move, run,
}

-- So many timers that fire.
abbrev pub firing : ℕ → List Event
firing zero = []
firing (suc n) = fired ∷ firing n

module _ {ℓ} {W P E : Type ℓ} (now : W → Time × W) (job : ProviderJob W P E) where
  -- The world after some unscheduled fetches.
  abbrev pub refetched : ℕ → ℕ × W → ℕ × W
  refetched zero s = s
  refetched (suc n) s = refetched n (counted_fetch now job false s).1

  -- The retries after a daily fetch that left `s`, at most `left`: each follows a failure, and the last
  -- succeeds unless no more are allowed.
  pub record Retried (left : ℕ) (s : ℕ × W) : Type ℓ where
    pub count : ℕ
    pub allowed : count ≤ left
    pub failed : (k : ℕ) → k < count → is_positive (refetched k s).0 ≡ true
    pub ends : (is_positive (refetched count s).0 ≡ false) ⊎ (count ≡ left)

  one_more :
      {left : ℕ} {s : ℕ × W}
      → is_positive s.0 ≡ true
      → Retried left (counted_fetch now job false s).1
      → Retried (suc left) s
  one_more {left = left} {s = s} bad r = record {
    count = suc r.count;
    allowed = omega (arith, r.allowed);
    failed = before;
    ends = elim r.ends [ inl q ↦ inl q | inr q ↦ inr (ap suc q) ];
  }
    where
      before : (k : ℕ) → k < suc r.count → is_positive (refetched k s).0 ≡ true
      before zero h = bad
      before (suc k) h = r.failed k (omega arith)

  waits_again :
      (tod : TimeOfDay) (retries : ℕ) (s : ℕ × W)
      → is_positive s.0 ≡ true
      → retries < 10
      → await_daily_retry now job tod retries s ≡ (between tod retries (30 * minute), s)
  waits_again tod retries s bad h = rw (bad, lt→ltb retries 10 h) refl

  -- From the test of the loop of retries to the daily loop.
  await_daily_retry-ends :
      (tod : TimeOfDay) (left retries : ℕ) (s : ℕ × W)
      → retries + left ≡ 10
      → (r : Retried left s) × let (p, s') = await_daily_retry now job tod retries s in
          run now job (firing r.count) p s' ≡ await_day now job tod (refetched r.count s)
  unfolding run move one_more
  await_daily_retry-ends tod zero retries s h = (
    record {
      count = 0;
      allowed = omega arith;
      failed = λ k q. absurd (omega arith);
      ends = inr refl;
    },
    ground arith,
  )
  await_daily_retry-ends tod (suc left) retries s h = elim (Bool-cases (is_positive s.0)) [
    | inl bad ↦
        let (r, there) =
          await_daily_retry-ends tod left (retries + 1) (counted_fetch now job false s).1
            (omega arith) in
        (one_more bad r, rw (waits_again tod retries s bad (omega arith)) there)
    | inr good ↦ (
      record {
        count = 0;
        allowed = omega arith;
        failed = λ k q. absurd (omega arith);
        ends = inl good;
      },
      rw good (ground arith),
    )
  ]

  -- A day of a job with a time of day, if the context is not cancelled: its timer fires, there is a
  -- fetch and then at most ten retries, each while the counter of failures is positive; fewer than ten
  -- only if the last fetch left the counter at no positive number. When the timers of all these have
  -- fired, the goroutine waits for the time of day again, in the world that so many fetches leave.
  pub run-Retried :
      (tod : TimeOfDay) (timer : ℤ) (s : ℕ × W)
      → (r : Retried 10 (counted_fetch now job false s).1) × (run now job
            (firing (suc r.count))
            (daily tod timer)
            s
          ≡ await_day now job tod (refetched (suc r.count) s))
  unfolding run move
  run-Retried tod timer s = await_daily_retry-ends tod 10 0 (counted_fetch now job false s).1 refl
