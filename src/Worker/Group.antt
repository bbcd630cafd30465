-- ===== src/Worker/Group.antt =====
-- `StartPriceWorker` and `StartTaskWorker` of internal/worker/worker.go: the goroutines of several
-- jobs on one world `W`, in any order of their turns, and the counter of a `sync.WaitGroup`.
pub mod Turns
pub mod Drained
use ve_xchange_api.Prelude.{
  ℕ, zero, suc, ◌+◌, Bool, true, false, if◌then◌else◌, Option, none, some, List, [], ◌∷◌,
}
use ve_xchange_api.GoTime.{Time}
use ve_xchange_api.Worker.Job.{ProviderJob}
use ve_xchange_api.Worker.Loop.{Event}
use ve_xchange_api.Worker.Goroutine.{Place, finished, launch, move}
use ve_xchange_api.Worker.Task.{TaskJob, TaskPhase, returned, await_task, task_step}

-- A goroutine of `StartPriceWorker`, with its `currentJob` and its counter `consecutiveFails`; the
-- place is `none` until the goroutine first runs.
pub record Goroutine {ℓ} (W P E : Type ℓ) : Type ℓ where
  pub job : ProviderJob W P E
  pub place : Option Place
  pub consecutive_fails : ℕ

-- A goroutine of `StartTaskWorker`.
pub record TaskGoroutine {ℓ} (W : Type ℓ) : Type ℓ where
  pub task : TaskJob W
  pub phase : Option TaskPhase

-- Whether a goroutine has returned, and so called `wg.Done`.
abbrev pub has_returned : Option Place → Bool
has_returned (some finished) = true
has_returned _ = false

abbrev pub task_returned : Option TaskPhase → Bool
task_returned (some returned) = true
task_returned _ = false

abbrev pub is_done {ℓ} : {W P E : Type ℓ} → Goroutine W P E → Bool
is_done g = has_returned g.place

abbrev pub is_task_done {ℓ} : {W : Type ℓ} → TaskGoroutine W → Bool
is_task_done g = task_returned g.phase

-- The loops over the jobs: `wg.Add(1)` and `go`.
unfoldable pub start_price_worker {ℓ} :
    {W P E : Type ℓ} → List (ProviderJob W P E) → List (Goroutine W P E)
start_price_worker [] = []
start_price_worker (job ∷ jobs) =
    record { job = job; place = none; consecutive_fails = 0 } ∷ start_price_worker jobs

unfoldable pub start_task_worker {ℓ} : {W : Type ℓ} → List (TaskJob W) → List (TaskGoroutine W)
start_task_worker [] = []
start_task_worker (task ∷ tasks) = record { task = task; phase = none } ∷ start_task_worker tasks

-- What a goroutine does until it next waits in a `select`.
module _ {ℓ} {W P E : Type ℓ} (now : W → Time × W) where
  abbrev pub advance : Event → ProviderJob W P E → Option Place → ℕ × W → Place × (ℕ × W)
  advance e job none s = launch now job s.1
  advance e job (some p) s = move now job e p s

  abbrev pub resume : Event → Goroutine W P E → W → Goroutine W P E × W
  resume e g w =
      let (p, s) = advance e g.job g.place (g.consecutive_fails, w) in
      (record g { place = some p; consecutive_fails = s.0 }, s.1)

module _ {ℓ} {W : Type ℓ} (now : W → Time × W) where
  abbrev pub advance_task : Event → TaskJob W → Option TaskPhase → W → TaskPhase × W
  advance_task e task none w = await_task now task w
  advance_task e task (some p) w = task_step now task e p w

  abbrev pub resume_task : Event → TaskGoroutine W → W → TaskGoroutine W × W
  resume_task e g w =
      let (p, w') = advance_task e g.task g.phase w in (record g { phase = some p }, w')

-- The counter of a wait group of goroutines `S`.
module _ {ℓ} {S : Type ℓ} (is_over : S → Bool) where
  unfoldable pub wait_count : List S → ℕ
  wait_count [] = 0
  wait_count (g ∷ gs) = let others = wait_count gs in if is_over g then others else others + 1

module _ {ℓ} {S W : Type ℓ} (go_on : Event → S → W → S × W) where
  -- The turn of one goroutine.
  unfoldable pub turn : ℕ → Event → List S → W → List S × W
  turn i e [] w = ([], w)
  turn zero e (g ∷ gs) w = let (g', w') = go_on e g w in (g' ∷ gs, w')
  turn (suc i) e (g ∷ gs) w = let (gs', w') = turn i e gs w in (g ∷ gs', w')

  unfoldable pub run_turns : List (ℕ × Event) → List S → W → List S × W
  run_turns [] gs w = (gs, w)
  run_turns ((i, e) ∷ turns) gs w = let (gs', w') = turn i e gs w in run_turns turns gs' w'
