-- ===== src/Server/Events.antt =====
-- The events that master/internal/server/master_server.go reacts to, each with the answers that it
-- gets from outside, and a run of the server over a history of them. Handlers hold the server's
-- lock, so a history takes them one after the other; `Assign.Race` looks at the one that gives the
-- lock up in between.
pub mod Handlers
pub mod Registered
use agentic_cloud_cluster.Base.{ℕ, String, List, [], ◌∷◌, ℤ}
use agentic_cloud_cluster.Float.{Float}
use agentic_cloud_cluster.Proto.{Resources, WorkerInfo, Heartbeat, Task, TaskResult}
use agentic_cloud_cluster.Server.State.{MasterServer, Scheduler, Answers}
use agentic_cloud_cluster.Server.Registry.{
  manual_register_worker, update_worker_resources_in_memory, unregister_worker, register_worker,
  send_heartbeat, check_and_mark_inactive_workers,
}
use agentic_cloud_cluster.Server.Reconcile.{reconcile_worker_resources}
use agentic_cloud_cluster.Server.Queue.{submit_task, process_queue, dispatch_task_to_worker}
use agentic_cloud_cluster.Server.Complete.{report_task_completion}
use agentic_cloud_cluster.Server.Cancel.{cancel_task}

pub data Event (N : Type 0) : Type 0 where
  -- by the administrator
  registers : Answers N → String → String → Event N
  configures : String → Resources N → Event N
  unregisters : Answers N → String → Event N
  dispatches : Answers N → Task N → String → Event N
  -- by a worker
  connects : Answers N → WorkerInfo N → ℤ → Event N
  beats : Heartbeat N → ℤ → Event N
  reports : Answers N → TaskResult → Event N
  -- by a user
  submits : Task N → ℤ → Event N
  cancels : Answers N → String → Event N
  -- by a clock
  ages : ℤ → Event N
  reconciles : Answers N → Event N
  schedules : (ℕ → Answers N) → Event N

module _ {N S : Type 0} ⦃f : Float N⦄ (sched : Scheduler N S) where
  unfoldable pub step : MasterServer N S → Event N → MasterServer N S
  step s (registers a id ip) = (manual_register_worker s a id ip).1
  step s (configures id total) = update_worker_resources_in_memory s id total
  step s (unregisters a id) = (unregister_worker s a id).1
  step s (dispatches a task id) = (dispatch_task_to_worker s a task id).1
  step s (connects a info now) = (register_worker s a info now).1
  step s (beats hb now) = (send_heartbeat s hb now).1
  step s (reports a result) = (report_task_completion s a result).1
  step s (submits task now) = (submit_task s task now).1
  step s (cancels a task_id) = (cancel_task s a task_id).1
  step s (ages now) = check_and_mark_inactive_workers s now
  step s (reconciles a) = (reconcile_worker_resources s a).1
  step s (schedules a) = (process_queue sched s a).0

  unfoldable pub run : MasterServer N S → List (Event N) → MasterServer N S
  unfolding step
  run s [] = s
  run s (e ∷ es) = run (step s e) es
