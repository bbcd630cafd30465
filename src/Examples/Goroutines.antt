-- ===== src/Examples/Goroutines.antt =====
-- The goroutines of jobs in a world where BCV's page never answers.
use Prim.Native.String.{String}
use ve_xchange_api.Prelude.{
  ℕ, zero, suc, ◌<◌, ◌≤◌, length, ◌+◌, ◌≡◌, refl, false, none, some, List, [], ◌∷◌, arith, leb,
  if◌then◌else◌,
}
use ve_xchange_api.Prelude.Int.{pos}
use ve_xchange_api.Prelude.Result.{Result, ok, err}
use ve_xchange_api.GoTime.{Time, hour}
use ve_xchange_api.Worker.Schedule.{TimeOfDay}
use ve_xchange_api.Worker.Job.{ProviderJob}
use ve_xchange_api.Worker.Loop.{Event, fired, cancelled}
use ve_xchange_api.Worker.Goroutine.{daily, counted_fetch, await_day, launch, run}
use ve_xchange_api.Worker.Goroutine.Days.{Retried, firing, refetched, run-Retried}
use ve_xchange_api.Worker.Group.{is_done, resume, start_price_worker, wait_count, run_turns}
use ve_xchange_api.Worker.Group.Turns.{cancellations}
use ve_xchange_api.Worker.Group.Drained.{wait_count-run_turns}
use ve_xchange_api.State.Effects.{usd_bcv, bcv}
use ve_xchange_api.Server.{world_now, utc_minus_4}
use ve_xchange_api.Server.Flags.{failing, job_of, failing-run}
use ve_xchange_api.Examples.Toys.{toy, toy_world, friday_evening}

-- A job for eight in the morning whose provider fails twice and then answers; the world counts.
abbrev pub eight : TimeOfDay
eight = record { hour = 8; minute = 0; location = some utc_minus_4 }

abbrev pub third_answer : ℕ → Result String ℕ × ℕ
third_answer w = (if leb 2 w then ok 36 else err "timeout", w + 1)

abbrev pub daily_job : ProviderJob ℕ ℕ String
daily_job = record {
  get_prices = third_answer;
  every = hour;
  daily_at = some eight;
  business_window = none;
  apply = λ resp w. w;
  validate_scheduled = none;
  on_fail = none;
  on_recover = none;
  after_fetch = none;
}

abbrev pub read : ℕ → Time × ℕ
read w = (friday_evening, w)

day_example :
    (r : Retried read daily_job 10 (counted_fetch read daily_job false (0, 0)).1) × (run read
        daily_job
        (firing (suc r.count))
        (daily eight (pos hour))
        (0, 0)
      ≡ await_day read daily_job eight (refetched read daily_job (suc r.count) (0, 0)))
day_example = run-Retried read daily_job eight (pos hour) (0, 0)

abbrev four_events : List Event
four_events = fired ∷ fired ∷ fired ∷ cancelled ∷ []

goroutine_example :
    let (place, s) = launch (world_now toy) (job_of toy bcv) toy_world in
    let (place', (c, w')) = run (world_now toy) (job_of toy bcv) four_events place s in
    failing toy usd_bcv w' ≡ leb 3 c
goroutine_example = failing-run toy bcv usd_bcv four_events toy_world refl (omega arith) refl

abbrev two_jobs : List (ProviderJob ℕ ℕ String)
two_jobs = daily_job ∷ record daily_job { daily_at = none } ∷ []

-- The first goroutine first runs when the context is done already.
abbrev six_turns : List (ℕ × Event)
six_turns =
    (1, fired) ∷ (1, fired) ∷ (0, cancelled) ∷ (1, cancelled) ∷ (0, cancelled) ∷ (1, cancelled) ∷ []

all_cancelled : (i : ℕ) → i < length two_jobs → 2 ≤ cancellations i six_turns
all_cancelled zero below = omega arith
all_cancelled (suc zero) below = omega arith
all_cancelled (suc (suc i)) below = absurd (omega arith)

drained_example :
    let (gs, w') = run_turns (resume read) six_turns (start_price_worker two_jobs) 0 in
    (wait_count is_done gs ≡ 0)
    × ((later : List (ℕ × Event)) → run_turns (resume read) later gs w' ≡ (gs, w'))
drained_example = wait_count-run_turns read two_jobs six_turns 0 all_cancelled
