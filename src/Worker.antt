-- ===== src/Worker.antt =====
-- The worker process, worker/internal: the executor of tasks, the monitor that sends heartbeats, the
-- server that the master calls, and the goroutines that these start.
pub mod Executor
pub mod Monitor
pub mod Server
pub mod Goroutines
