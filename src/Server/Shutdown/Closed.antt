-- ===== src/Server/Shutdown/Closed.antt =====
-- The goroutines and the store at the end of `main`.
use ve_xchange_api.Prelude.{ℕ, ◌≡◌, refl, ◌∙◌, sym, Bool, true, false, not, List, arith}
use ve_xchange_api.GoTime.{Time}
use ve_xchange_api.Worker.Job.{ProviderJob}
use ve_xchange_api.Worker.Loop.{Event, fired, cancelled}
use ve_xchange_api.Worker.Task.{TaskJob}
use ve_xchange_api.Worker.Group.{is_done, is_task_done, resume, resume_task, wait_count}
use ve_xchange_api.Worker.Group.Turns.{turn-over}
use ve_xchange_api.Worker.Group.Drained.{resume-Drains, resume_task-Drains}
use ve_xchange_api.Server.Shutdown.{
  Stage, Running, start_workers, go_on_at, turn_of_worker, turn_of_task, Step, Reaches,
}

abbrev past_workers : Stage → Bool
past_workers Stage.waiting_for_tasks = true
past_workers Stage.ended = true
past_workers _ = false

abbrev past_tasks : Stage → Bool
past_tasks Stage.ended = true
past_tasks _ = false

abbrev past_serving : Stage → Bool
past_serving Stage.serving = false
past_serving _ = true

ended_of : (stage : Stage) → not (past_tasks stage) ≡ false → stage ≡ Stage.ended
ended_of Stage.ended h = refl
ended_of Stage.serving h = absurd (ground arith)
ended_of Stage.waiting_for_workers h = absurd (ground arith)
ended_of Stage.waiting_for_tasks h = absurd (ground arith)

module _ {ℓ} {W P E : Type ℓ} (now : W → Time × W) where
  record IsSound (r : Running W P E) : Type ℓ where
    stopping : past_serving r.stage ≡ true → r.ctx_done ≡ true
    workers_over : past_workers r.stage ≡ true → wait_count is_done r.workers ≡ 0
    tasks_over : past_tasks r.stage ≡ true → wait_count is_task_done r.tasks ≡ 0
    closing : r.store_open ≡ not (past_tasks r.stage)

  worker-IsSound :
      (i : ℕ) (e : Event) (r : Running W P E) → IsSound r → IsSound (turn_of_worker now i e r)
  worker-IsSound i e r s = record {
    stopping = s.stopping;
    workers_over = λ past.
        rw
          (turn-over (resume now) is_done (resume-Drains now) i e r.workers r.world
            (s.workers_over past))
          (s.workers_over past);
    tasks_over = s.tasks_over;
    closing = s.closing;
  }

  task-IsSound :
      (i : ℕ) (e : Event) (r : Running W P E) → IsSound r → IsSound (turn_of_task now i e r)
  task-IsSound i e r s = record {
    stopping = s.stopping;
    workers_over = s.workers_over;
    tasks_over = λ past.
        rw
          (turn-over (resume_task now) is_task_done (resume_task-Drains now) i e r.tasks r.world
            (s.tasks_over past))
          (s.tasks_over past);
    closing = s.closing;
  }

  go_on_at-IsSound :
      (stage : Stage) (server_failed : Bool) (r : Running W P E)
      → r.stage ≡ stage
      → IsSound r
      → IsSound (go_on_at stage server_failed r)
  go_on_at-IsSound Stage.serving server_failed r at_select s = record {
    stopping = ground arith;
    workers_over = ground arith;
    tasks_over = ground arith;
    closing = ground arith;
  }
  go_on_at-IsSound Stage.waiting_for_workers server_failed r waiting s = record {
    stopping = ground arith;
    workers_over = ground arith;
    tasks_over = ground arith;
    closing = ground arith;
  }
  go_on_at-IsSound Stage.waiting_for_tasks server_failed r waiting s = record {
    stopping = ground arith;
    workers_over = ground arith;
    tasks_over = ground arith;
    closing = ground arith;
  }
  go_on_at-IsSound Stage.ended server_failed r over s = s

  Step-IsSound : {r t : Running W P E} → IsSound r → Step now r t → IsSound t
  Step-IsSound s Step.signalled = record {
    stopping = λ past. refl;
    workers_over = s.workers_over;
    tasks_over = s.tasks_over;
    closing = s.closing;
  }
  Step-IsSound s (Step.main_goes_on server_failed) = go_on_at-IsSound _ server_failed _ refl s
  Step-IsSound s (Step.worker_fired i) = worker-IsSound i fired _ s
  Step-IsSound s (Step.worker_cancelled i d) = worker-IsSound i cancelled _ s
  Step-IsSound s (Step.task_fired i) = task-IsSound i fired _ s
  Step-IsSound s (Step.task_cancelled i d) = task-IsSound i cancelled _ s

  Reaches-IsSound : {r t : Running W P E} → IsSound r → Reaches now r t → IsSound t
  Reaches-IsSound s Reaches.here = s
  Reaches-IsSound s (Reaches.then before step) = Step-IsSound (Reaches-IsSound s before) step

  start-IsSound :
      (jobs : List (ProviderJob W P E)) (tasks : List (TaskJob W)) (w : W)
      → IsSound (start_workers jobs tasks w)
  start-IsSound jobs tasks w = record {
    stopping = λ past. absurd (ground arith);
    workers_over = λ past. absurd (ground arith);
    tasks_over = λ past. absurd (ground arith);
    closing = refl;
  }

  -- Whatever has happened since the workers were started, in any order: once `main` has closed the
  -- store, no turn of a goroutine changes a goroutine or the world, and `ctx` is done.
  pub turn-closed :
      (jobs : List (ProviderJob W P E)) (tasks : List (TaskJob W)) (w : W) (r : Running W P E)
      → Reaches now (start_workers jobs tasks w) r
      → r.store_open ≡ false
      → (r.ctx_done ≡ true)
        × ((i : ℕ) (e : Event) → (turn_of_worker now i e r ≡ r) × (turn_of_task now i e r ≡ r))
  turn-closed jobs tasks w r happened closed =
      let s = Reaches-IsSound (start-IsSound jobs tasks w) happened in
      let past : r.stage ≡ Stage.ended = ended_of r.stage (sym s.closing ∙ closed) in
      let none_left = s.workers_over (rw past refl) in
      let no_task_left = s.tasks_over (rw past refl) in
      (
        s.stopping (rw past refl),
        λ i e. (
          rw (turn-over (resume now) is_done (resume-Drains now) i e r.workers r.world none_left)
              refl,
          rw
              (turn-over (resume_task now) is_task_done (resume_task-Drains now) i e r.tasks r.world
                no_task_left)
              refl,
        ),
      )
