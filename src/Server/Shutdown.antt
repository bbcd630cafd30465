-- ===== src/Server/Shutdown.antt =====
-- The end of `main` in cmd/server/main.go, beside the goroutines of its workers: from the `select` for a
-- signal or a failure of the HTTP server to the deferred calls. `server.Shutdown` returns in any case,
-- and what the HTTP server itself does is left out.
pub mod Closed
pub mod Ends
use ve_xchange_api.Prelude.{ℕ, Bool, true, false, ◌||◌, ◌==◌, ◌≡◌, List, if◌then◌else◌}
use ve_xchange_api.GoTime.{Time}
use ve_xchange_api.Worker.Job.{ProviderJob}
use ve_xchange_api.Worker.Loop.{Event, fired, cancelled}
use ve_xchange_api.Worker.Task.{TaskJob}
use ve_xchange_api.Worker.Group.{
  Goroutine, TaskGoroutine, is_done, is_task_done, start_price_worker, start_task_worker, resume,
  resume_task, wait_count, turn,
}

-- Where `main` is: in its `select`, in `workerWg.Wait()`, in `taskWg.Wait()`, or past its deferred calls.
pub data Stage : Type 0 where
  serving waiting_for_workers waiting_for_tasks ended : Stage

pub record Running {ℓ} (W P E : Type ℓ) : Type ℓ where
  pub stage : Stage
  -- whether `ctx` is done, by a signal or by `stop`
  pub ctx_done : Bool
  -- until `dbStore.Close()`
  pub store_open : Bool
  pub workers : List (Goroutine W P E)
  pub tasks : List (TaskGoroutine W)
  pub world : W

module _ {ℓ} {W P E : Type ℓ} where
  -- Both workers are started, and `main` comes to its `select`.
  abbrev pub start_workers : List (ProviderJob W P E) → List (TaskJob W) → W → Running W P E
  start_workers jobs tasks w = record {
    stage = Stage.serving;
    ctx_done = false;
    store_open = true;
    workers = start_price_worker jobs;
    tasks = start_task_worker tasks;
    world = w;
  }

  abbrev pub leave_select : Bool → Running W P E → Running W P E
  leave_select server_failed r =
      if server_failed
      then record r { stage = Stage.waiting_for_workers; ctx_done = true }
      else if r.ctx_done
      then record r { stage = Stage.waiting_for_workers }
      else r

  abbrev pub wait_for_workers : Running W P E → Running W P E
  wait_for_workers r =
      if wait_count is_done r.workers == 0 then record r { stage = Stage.waiting_for_tasks } else r

  -- `taskWg.Wait()`, and the deferred calls.
  abbrev pub wait_for_tasks : Running W P E → Running W P E
  wait_for_tasks r =
      if wait_count is_task_done r.tasks == 0
      then record r { stage = Stage.ended; store_open = false }
      else r

  -- What `main` does at a place, if it can, given whether `serverErrCh` has an error.
  abbrev pub go_on_at : Stage → Bool → Running W P E → Running W P E
  go_on_at Stage.serving server_failed r = leave_select server_failed r
  go_on_at Stage.waiting_for_workers server_failed r = wait_for_workers r
  go_on_at Stage.waiting_for_tasks server_failed r = wait_for_tasks r
  go_on_at Stage.ended server_failed r = r

  abbrev pub go_on_main : Bool → Running W P E → Running W P E
  go_on_main server_failed r = go_on_at r.stage server_failed r

  module _ (now : W → Time × W) where
    abbrev pub turn_of_worker : ℕ → Event → Running W P E → Running W P E
    turn_of_worker i e r =
        let (gs, w) = turn (resume now) i e r.workers r.world in
        record r { workers = gs; world = w }

    abbrev pub turn_of_task : ℕ → Event → Running W P E → Running W P E
    turn_of_task i e r =
        let (gs, w) = turn (resume_task now) i e r.tasks r.world in
        record r { tasks = gs; world = w }

    -- One thing that happens: SIGINT or SIGTERM, or `main` or a goroutine goes on, where a goroutine finds
    -- `ctx` done only if it is.
    pub data Step (r : Running W P E) : Running W P E → Type ℓ where
      signalled : Step r (record r { ctx_done = true })
      main_goes_on : (server_failed : Bool) → Step r (go_on_main server_failed r)
      worker_fired : (i : ℕ) → Step r (turn_of_worker i fired r)
      worker_cancelled : (i : ℕ) → r.ctx_done ≡ true → Step r (turn_of_worker i cancelled r)
      task_fired : (i : ℕ) → Step r (turn_of_task i fired r)
      task_cancelled : (i : ℕ) → r.ctx_done ≡ true → Step r (turn_of_task i cancelled r)

    pub data Reaches (r : Running W P E) : Running W P E → Type ℓ where
      here : Reaches r r
      then : {s t : Running W P E} → Reaches r s → Step s t → Reaches r t
