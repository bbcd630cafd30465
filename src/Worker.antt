-- ===== src/Worker.antt =====
-- internal/worker/worker.go: background jobs on a schedule.
pub mod Schedule
pub mod Job
pub mod Loop
pub mod Streak
pub mod Goroutine
pub mod Group
pub mod Task
