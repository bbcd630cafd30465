-- ===== src/Examples/Shutdown.antt =====
-- A run of the program with one job and one task, to its end.
use Prim.Native.String.{String}
use ve_xchange_api.Prelude.{ℕ, ◌+◌, ◌≡◌, refl, true, false, [], ◌∷◌}
use ve_xchange_api.Worker.Loop.{Event, fired, cancelled}
use ve_xchange_api.Worker.Task.{TaskJob, task_step}
use ve_xchange_api.Worker.Goroutine.{launch, move}
use ve_xchange_api.Worker.Group.{start_price_worker, start_task_worker, wait_count, turn}
use ve_xchange_api.Server.Shutdown.{
  Stage, Running, start_workers, go_on_main, turn_of_worker, turn_of_task, Step, Reaches,
}
use ve_xchange_api.Server.Shutdown.Closed.{turn-closed}
use ve_xchange_api.Server.Shutdown.Ends.{Reaches-ended}
use ve_xchange_api.Examples.Goroutines.{daily_job, read, eight}

abbrev counting_task : TaskJob ℕ
counting_task = record { name = "counting"; daily_at = eight; run = λ w. w + 1 }

abbrev first_state : Running ℕ ℕ String
first_state = start_workers (daily_job ∷ []) (counting_task ∷ []) 0

-- The job's goroutine has fetched, the task's waits, and a signal comes.
abbrev stopping_state : Running ℕ ℕ String
stopping_state = record (turn_of_task read 0 fired (turn_of_worker read 0 fired first_state)) {
  ctx_done = true;
}

-- Both return, and `main` goes on three times.
abbrev last_state : Running ℕ ℕ String
last_state = go_on_main false (
    go_on_main false (
      go_on_main false
        (turn_of_task read 0 cancelled (turn_of_worker read 0 cancelled stopping_state))))

abbrev to_the_end : Reaches read first_state last_state
to_the_end =
    Reaches.then
      (Reaches.then
        (Reaches.then
          (Reaches.then
            (Reaches.then
              (Reaches.then
                (Reaches.then (Reaches.then Reaches.here (Step.worker_fired 0)) (Step.task_fired 0))
                Step.signalled)
              (Step.worker_cancelled 0 refl))
            (Step.task_cancelled 0 refl))
          (Step.main_goes_on false))
        (Step.main_goes_on false))
      (Step.main_goes_on false)

closed_example :
    (last_state.ctx_done ≡ true)
    × ((i : ℕ) (e : Event)
        → (turn_of_worker read i e last_state ≡ last_state)
          × (turn_of_task read i e last_state ≡ last_state))
unfolding start_price_worker start_task_worker wait_count turn launch move task_step
closed_example = turn-closed read (daily_job ∷ []) (counting_task ∷ []) 0 last_state to_the_end refl

ends_example : (t : Running ℕ ℕ String) × Reaches read stopping_state t × (t.stage ≡ Stage.ended)
ends_example = Reaches-ended read stopping_state refl
