-- ===== src/Server/Shutdown/Ends.antt =====
-- That `main` can end.
use ve_xchange_api.Prelude.{ℕ, zero, suc, ◌≡◌, refl, true, false, List, length, arith}
use ve_xchange_api.GoTime.{Time}
use ve_xchange_api.Worker.Loop.{Event, cancelled}
use ve_xchange_api.Worker.Group.{is_done, is_task_done, resume, resume_task, wait_count, run_turns}
use ve_xchange_api.Worker.Group.Turns.{rounds, run_turns-rounds}
use ve_xchange_api.Worker.Group.Drained.{
  resume-Drains, resume-Drains-le, resume_task-Drains, resume_task-Drains-le,
}
use ve_xchange_api.Server.Shutdown.{
  Stage, Running, go_on_main, turn_of_worker, turn_of_task, Step, Reaches,
}

module _ {ℓ} {W P E : Type ℓ} (now : W → Time × W) where
  onward : {r s t : Running W P E} → Reaches now r s → Reaches now s t → Reaches now r t
  onward first Reaches.here = first
  onward first (Reaches.then later step) = Reaches.then (onward first later) step

  -- After turns of the workers, and after turns of the tasks.
  abbrev after_workers : List (ℕ × Event) → Running W P E → Running W P E
  after_workers turns r =
      let (gs, w) = run_turns (resume now) turns r.workers r.world in
      record r { workers = gs; world = w }

  abbrev after_tasks : List (ℕ × Event) → Running W P E → Running W P E
  after_tasks turns r =
      let (gs, w) = run_turns (resume_task now) turns r.tasks r.world in
      record r { tasks = gs; world = w }

  Reaches-after_workers :
      (n : ℕ) (r : Running W P E) → r.ctx_done ≡ true → Reaches now r (after_workers (rounds n) r)
  unfolding run_turns
  Reaches-after_workers zero r done = Reaches.here
  Reaches-after_workers (suc n) r done =
      let r1 = turn_of_worker now n cancelled r in
      let r2 = turn_of_worker now n cancelled r1 in
      onward
        (Reaches.then (Reaches.then Reaches.here (Step.worker_cancelled n done))
          (Step.worker_cancelled n done))
        (Reaches-after_workers n r2 done)

  Reaches-after_tasks :
      (n : ℕ) (r : Running W P E) → r.ctx_done ≡ true → Reaches now r (after_tasks (rounds n) r)
  unfolding run_turns
  Reaches-after_tasks zero r done = Reaches.here
  Reaches-after_tasks (suc n) r done =
      let r1 = turn_of_task now n cancelled r in
      let r2 = turn_of_task now n cancelled r1 in
      onward
        (Reaches.then (Reaches.then Reaches.here (Step.task_cancelled n done))
          (Step.task_cancelled n done))
        (Reaches-after_tasks n r2 done)

  -- Three times what `main` does.
  abbrev three_on : Running W P E → Running W P E
  three_on r = go_on_main false (go_on_main false (go_on_main false r))

  three_on-ended :
      (stage : Stage) (r : Running W P E)
      → r.stage ≡ stage
      → r.ctx_done ≡ true
      → wait_count is_done r.workers ≡ 0
      → wait_count is_task_done r.tasks ≡ 0
      → (three_on r).stage ≡ Stage.ended
  three_on-ended Stage.serving r at done workers tasks = ground arith
  three_on-ended Stage.waiting_for_workers r at done workers tasks = ground arith
  three_on-ended Stage.waiting_for_tasks r at done workers tasks = ground arith
  three_on-ended Stage.ended r at done workers tasks = ground arith

  -- Once `ctx` is done, `main` can come to its end from wherever the program is.
  pub Reaches-ended :
      (r : Running W P E)
      → r.ctx_done ≡ true
      → (t : Running W P E) × Reaches now r t × (t.stage ≡ Stage.ended)
  Reaches-ended r done =
      let r1 = after_workers (rounds (length r.workers)) r in
      let r2 = after_tasks (rounds (length r1.tasks)) r1 in
      (
        three_on r2,
        onward
            (onward (Reaches-after_workers (length r.workers) r done)
              (Reaches-after_tasks (length r1.tasks) r1 done))
            (Reaches.then
              (Reaches.then (Reaches.then Reaches.here (Step.main_goes_on false))
                (Step.main_goes_on false))
              (Step.main_goes_on false)),
        three_on-ended r.stage r2 refl done
            (run_turns-rounds (resume now) is_done (resume-Drains now) r.workers r.world
              (resume-Drains-le now))
            (run_turns-rounds (resume_task now) is_task_done (resume_task-Drains now) r1.tasks
              r1.world (resume_task-Drains-le now)),
      )
