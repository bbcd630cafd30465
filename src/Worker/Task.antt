-- ===== src/Worker/Task.antt =====
-- `TaskJob` and the goroutine of `StartTaskWorker`, in internal/worker/worker.go, as a machine that
-- rests where the code waits in its `select`. What the job reads and changes is a world `W`.
use Prim.Native.String.{String}
use ve_xchange_api.Prelude.Int.{ℤ}
use ve_xchange_api.GoTime.{Time}
use ve_xchange_api.Worker.Schedule.{TimeOfDay, next_daily}
use ve_xchange_api.Worker.Loop.{Event, fired, cancelled}

pub record TaskJob {ℓ} (W : Type ℓ) : Type ℓ where
  pub name : String
  pub daily_at : TimeOfDay
  pub run : W → W

pub data TaskPhase : Type 0 where
  waiting : ℤ → TaskPhase
  returned : TaskPhase

module _ {ℓ} {W : Type ℓ} (now : W → Time × W) (job : TaskJob W) where
  -- The loop, from its beginning to its `select`.
  abbrev pub await_task : W → TaskPhase × W
  await_task w = let (t, w') = now w in (waiting (next_daily job.daily_at t), w')

  unfoldable pub task_step : Event → TaskPhase → W → TaskPhase × W
  task_step fired (waiting timer) w = await_task (job.run w)
  task_step cancelled (waiting timer) w = (returned, w)
  task_step e returned w = (returned, w)
