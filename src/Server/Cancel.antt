-- ===== src/Server/Cancel.antt =====
-- CancelTask of master/internal/server/master_server.go.
pub mod Order
use agentic_cloud_cluster.Base.{
  String, Bool, true, false, Option, none, some, List, [], ◌∷◌, ◌++◌, ◌==◌, ◌&&◌, not,
  if◌then◌else◌,
}
use agentic_cloud_cluster.Float.{Float}
use agentic_cloud_cluster.Dict.{Dict, lookup, delete, modify}
use agentic_cloud_cluster.Server.State.{
  MasterServer, Outcome, WorkerState, Answers, Ack, Message, Call, accepted, refused,
  worker_not_found, task_not_found, task_unassigned, database_failed, cancelled_unreachable,
  cancelled_unanswered, cancelled_done, update_task_status, rpc_cancel_task, when,
}

-- The worker that has the task, or the message that says why none is found.
pub data Target (N : Type 0) : Type 0 where
  missing : Message N → Target N
  found : String → WorkerState N → Target N

module _ {N : Type 0} where
  -- First check in-memory running tasks
  unfoldable pub find_running : String → Dict (WorkerState N) → Option (String × WorkerState N)
  find_running task_id [] = none
  find_running task_id ((id, worker) ∷ rest) = elim (lookup task_id worker.running_tasks) [
    | none ↦ find_running task_id rest
    | some running ↦ if running then some (id, worker) else find_running task_id rest
  ]

  -- If not found in memory, check database
  unfoldable pub find_assigned : {S : Type 0} → MasterServer N S → Answers N → String → Target N
  find_assigned s a task_id =
      if s.parts.assignment_db
      then elim (a.assignment task_id) [
        | none ↦ missing task_unassigned
        | some id ↦ elim (lookup id s.workers) [
          | none ↦ missing (worker_not_found id)
          | some worker ↦ if id == "" then missing task_not_found else found id worker
        ]
      ]
      else missing task_not_found

  unfoldable pub find_target : {S : Type 0} → MasterServer N S → Answers N → String → Target N
  unfolding find_running find_assigned
  find_target s a task_id = elim (find_running task_id s.workers) [
    | none ↦ find_assigned s a task_id
    | some (id, worker) ↦ if id == "" then find_assigned s a task_id else found id worker
  ]

  abbrev pub drop_task : String → WorkerState N → WorkerState N
  drop_task task_id worker = record worker { running_tasks = delete task_id worker.running_tasks }

  -- From the call to the worker on.
  unfoldable pub ask_worker :
      {S : Type 0} → MasterServer N S → Answers N → String → String → String → Outcome (Ack N) N S
  ask_worker s a task_id id ip =
      let asked = rpc_cancel_task ip task_id ∷ [] in
      if not a.dial_ok then (accepted cancelled_unreachable, s, []) else elim a.worker_ack [
        | none ↦ (accepted cancelled_unanswered, s, asked)
        | some ack ↦
            if ack.success
            then (
              accepted cancelled_done,
              record s { workers = modify id (drop_task task_id) s.workers },
              asked,
            )
            else (ack, s, asked)
      ]

  -- CancelTask: the status is written first, then the worker is asked.
  unfoldable pub cancel_task :
      {S : Type 0} → MasterServer N S → Answers N → String → Outcome (Ack N) N S
  cancel_task s a task_id = elim (find_target s a task_id) [
    | missing message ↦ (refused message, s, [])
    | found id worker ↦
        let update = when s.parts.task_db (update_task_status task_id "cancelled" ∷ []) in
        if s.parts.task_db && not a.update_status_ok
        then (refused database_failed, s, update)
        else let (ack, s', asked) = ask_worker s a task_id id worker.info.worker_ip in
          (ack, s', update ++ asked)
  ]
