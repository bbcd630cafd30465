-- ===== src/Worker/Group/Drained.antt =====
-- How the workers of `StartPriceWorker` and `StartTaskWorker` end.
use ve_xchange_api.Prelude.{
  ℕ, zero, suc, ◌-◌, ◌≤◌, ◌<◌, ◌≡◌, refl, true, Option, none, some, List, [], ◌∷◌, arith, ap,
  length,
}
use ve_xchange_api.GoTime.{Time}
use ve_xchange_api.Worker.Job.{ProviderJob}
use ve_xchange_api.Worker.Loop.{Event, fired, cancelled, step}
use ve_xchange_api.Worker.Goroutine.{
  Place, in_window, daily, between, ticking, finished, launch, move,
}
use ve_xchange_api.Worker.Task.{TaskJob, TaskPhase, waiting, returned, task_step}
use ve_xchange_api.Worker.Group.{
  Goroutine, TaskGoroutine, has_returned, task_returned, is_done, is_task_done, start_price_worker,
  advance, resume, advance_task, resume_task, wait_count, run_turns,
}
use ve_xchange_api.Worker.Group.Turns.{Drains, cancellations, to_go_at, run_turns-drained}

abbrev to_go : Option Place → ℕ
to_go none = 2
to_go (some finished) = 0
to_go (some _) = 1

to_go-some : (p : Place) → to_go (some p) ≤ 1
to_go-some finished = omega arith
to_go-some (in_window window phase) = omega arith
to_go-some (daily tod timer) = omega arith
to_go-some (between tod retries timer) = omega arith
to_go-some (ticking every) = omega arith

to_go-zero : (place : Option Place) → to_go place ≤ 0 → place ≡ some finished
to_go-zero none h = absurd (omega arith)
to_go-zero (some finished) h = refl
to_go-zero (some (in_window window phase)) h = absurd (omega arith)
to_go-zero (some (daily tod timer)) h = absurd (omega arith)
to_go-zero (some (between tod retries timer)) h = absurd (omega arith)
to_go-zero (some (ticking every)) h = absurd (omega arith)

abbrev task_to_go : Option TaskPhase → ℕ
task_to_go none = 2
task_to_go (some returned) = 0
task_to_go (some (waiting timer)) = 1

has_returned-finished : (place : Option Place) → has_returned place ≡ true → place ≡ some finished
has_returned-finished none done = absurd (ground arith)
has_returned-finished (some finished) done = refl
has_returned-finished (some (in_window window phase)) done = absurd (ground arith)
has_returned-finished (some (daily tod timer)) done = absurd (ground arith)
has_returned-finished (some (between tod retries timer)) done = absurd (ground arith)
has_returned-finished (some (ticking every)) done = absurd (ground arith)

task_returned-returned :
    (phase : Option TaskPhase) → task_returned phase ≡ true → phase ≡ some returned
task_returned-returned none done = absurd (ground arith)
task_returned-returned (some returned) done = refl
task_returned-returned (some (waiting timer)) done = absurd (ground arith)

task_to_go-zero : (phase : Option TaskPhase) → task_to_go phase ≤ 0 → task_returned phase ≡ true
task_to_go-zero none h = absurd (omega arith)
task_to_go-zero (some returned) h = refl
task_to_go-zero (some (waiting timer)) h = absurd (omega arith)

to_go-le : (place : Option Place) → to_go place ≤ 2
to_go-le none = omega arith
to_go-le (some p) = omega (arith, to_go-some p)

task_to_go-some : (p : TaskPhase) → task_to_go (some p) ≤ 1
task_to_go-some (waiting timer) = omega arith
task_to_go-some returned = omega arith

task_to_go-le : (phase : Option TaskPhase) → task_to_go phase ≤ 2
task_to_go-le none = omega arith
task_to_go-le (some p) = omega (arith, task_to_go-some p)

module _ {ℓ} {W P E : Type ℓ} (now : W → Time × W) where
  move-cancelled :
      (job : ProviderJob W P E) (p : Place) (s : ℕ × W) → (move now job cancelled p s).0 ≡ finished
  unfolding move step
  move-cancelled job (in_window window phase) s = refl
  move-cancelled job (daily tod timer) s = refl
  move-cancelled job (between tod retries timer) s = refl
  move-cancelled job (ticking every) s = refl
  move-cancelled job finished s = refl

  to_go-move :
      (job : ProviderJob W P E) (p : Place) (s : ℕ × W)
      → to_go (some (move now job fired p s).0) ≤ to_go (some p)
  unfolding move
  to_go-move job (in_window window phase) s = to_go-some _
  to_go-move job (daily tod timer) s = to_go-some _
  to_go-move job (between tod retries timer) s = to_go-some _
  to_go-move job (ticking every) s = omega arith
  to_go-move job finished s = omega arith

  cancelled-advance :
      (job : ProviderJob W P E) (place : Option Place) (s : ℕ × W)
      → to_go (some (advance now cancelled job place s).0) ≤ to_go place - 1
  cancelled-advance job none s = to_go-some _
  cancelled-advance job (some p) s = rw (move-cancelled job p s) (omega arith)

  fired-advance :
      (job : ProviderJob W P E) (place : Option Place) (s : ℕ × W)
      → to_go (some (advance now fired job place s).0) ≤ to_go place
  fired-advance job none s = omega (arith, to_go-some (launch now job s.1).0)
  fired-advance job (some p) s = to_go-move job p s

  advance-finished :
      (e : Event) (job : ProviderJob W P E) (s : ℕ × W)
      → advance now e job (some finished) s ≡ (finished, s)
  unfolding move
  advance-finished fired job s = refl
  advance-finished cancelled job s = refl

  resume-done :
      (e : Event) (g : Goroutine W P E) (w : W) → is_done g ≡ true → resume now e g w ≡ (g, w)
  resume-done e g w done =
      let there = has_returned-finished g.place done in
      ground (arith, advance-finished e g.job (g.consecutive_fails, w))

  -- The goroutines of `StartPriceWorker` end.
  pub resume-Drains : Drains (resume now) (is_done {W = W} {P = P} {E = E})
  resume-Drains = record {
    to_go = λ g. to_go g.place;
    cancelled_le = λ g w. cancelled-advance g.job g.place (g.consecutive_fails, w);
    fired_le = λ g w. fired-advance g.job g.place (g.consecutive_fails, w);
    over = λ g h. rw (to_go-zero g.place h) refl;
    stays = resume-done;
  }

  pub resume-Drains-le : (g : Goroutine W P E) → resume-Drains.to_go g ≤ 2
  unfolding resume-Drains
  resume-Drains-le g = to_go-le g.place

  to_go_at-start_price_worker :
      (i : ℕ) (jobs : List (ProviderJob W P E))
      → to_go_at (resume now) is_done resume-Drains i (start_price_worker jobs) ≤ 2
  unfolding start_price_worker resume-Drains
  to_go_at-start_price_worker i [] = omega arith
  to_go_at-start_price_worker zero (job ∷ jobs) = omega arith
  to_go_at-start_price_worker (suc i) (job ∷ jobs) = to_go_at-start_price_worker i jobs

  length-start_price_worker :
      (jobs : List (ProviderJob W P E)) → length (start_price_worker jobs) ≡ length jobs
  unfolding start_price_worker
  length-start_price_worker [] = refl
  length-start_price_worker (job ∷ jobs) = ap suc (length-start_price_worker jobs)

  -- Jobs whose goroutines take their turns in any order: once each has had two turns that find the
  -- context done, of which it may spend one on its first fetch, the counter of the wait group is 0,
  -- whatever else has happened in between, so that `Wait` returns; and no later turn changes a goroutine
  -- or the world.
  pub wait_count-run_turns :
      (jobs : List (ProviderJob W P E)) (turns : List (ℕ × Event)) (w : W)
      → ((i : ℕ) → i < length jobs → 2 ≤ cancellations i turns)
      → let (gs, w') = run_turns (resume now) turns (start_price_worker jobs) w in
        (wait_count is_done gs ≡ 0)
        × ((later : List (ℕ × Event)) → run_turns (resume now) later gs w' ≡ (gs, w'))
  wait_count-run_turns jobs turns w enough =
      run_turns-drained (resume now) is_done resume-Drains turns (start_price_worker jobs) w
        (λ i below. omega (
          arith,
          to_go_at-start_price_worker i jobs,
          enough i (rw (length-start_price_worker jobs) at below),
        ))

module _ {ℓ} {W : Type ℓ} (now : W → Time × W) where
  cancelled-advance_task :
      (task : TaskJob W) (phase : Option TaskPhase) (w : W)
      → task_to_go (some (advance_task now cancelled task phase w).0) ≤ task_to_go phase - 1
  unfolding task_step
  cancelled-advance_task task none w = task_to_go-some (advance_task now cancelled task none w).0
  cancelled-advance_task task (some (waiting timer)) w = omega arith
  cancelled-advance_task task (some returned) w = omega arith

  fired-advance_task :
      (task : TaskJob W) (phase : Option TaskPhase) (w : W)
      → task_to_go (some (advance_task now fired task phase w).0) ≤ task_to_go phase
  unfolding task_step
  fired-advance_task task none w = omega arith
  fired-advance_task task (some (waiting timer)) w = omega arith
  fired-advance_task task (some returned) w = omega arith

  advance_task-returned :
      (e : Event) (task : TaskJob W) (w : W)
      → advance_task now e task (some returned) w ≡ (returned, w)
  unfolding task_step
  advance_task-returned fired task w = refl
  advance_task-returned cancelled task w = refl

  resume_task-done :
      (e : Event) (g : TaskGoroutine W) (w : W)
      → is_task_done g ≡ true
      → resume_task now e g w ≡ (g, w)
  resume_task-done e g w done =
      let there = task_returned-returned g.phase done in
      ground (arith, advance_task-returned e g.task w)

  -- The goroutines of `StartTaskWorker` end.
  pub resume_task-Drains : Drains (resume_task now) (is_task_done {W = W})
  resume_task-Drains = record {
    to_go = λ g. task_to_go g.phase;
    cancelled_le = λ g w. cancelled-advance_task g.task g.phase w;
    fired_le = λ g w. fired-advance_task g.task g.phase w;
    over = λ g h. task_to_go-zero g.phase h;
    stays = resume_task-done;
  }

  pub resume_task-Drains-le : (g : TaskGoroutine W) → resume_task-Drains.to_go g ≤ 2
  unfolding resume_task-Drains
  resume_task-Drains-le g = task_to_go-le g.phase
