-- ===== src/Server/Assign.antt =====
-- assignTaskToWorker of master/internal/server/master_server.go. The server's lock is held while the
-- worker is checked, given up for the call to the worker, and taken again for the entry in the
-- books: `check_assignment` and `commit_assignment` are the two stretches under the lock.
pub mod Guards
pub mod Race
use agentic_cloud_cluster.Base.{
  String, Bool, true, false, Option, none, some, List, [], ◌∷◌, ◌++◌, ◌==◌, not, if◌then◌else◌,
}
use agentic_cloud_cluster.Float.{Float, lt}
use agentic_cloud_cluster.Dict.{lookup, insert, modify}
use agentic_cloud_cluster.Proto.{Resources, Task}
use agentic_cloud_cluster.Server.State.{
  MasterServer, Outcome, WorkerState, Answers, Ack, Message, Call, refused, worker_not_found,
  worker_not_active, no_ip_address, insufficient_cpu, insufficient_memory, insufficient_storage,
  insufficient_gpu, connect_failed, assign_failed, allocate_resources, update_task_status,
  create_assignment, rpc_assign_task, when, add_resources, sub_resources,
}

-- `stopped` carries the message of an unsuccessful TaskAck, `cleared` the worker's address.
pub data Check (N : Type 0) : Type 0 where
  stopped : Message N → Check N
  cleared : String → Check N

module _ {N : Type 0} ⦃f : Float N⦄ where
  -- CHECK RESOURCE AVAILABILITY
  unfoldable pub check_worker : Task N → String → WorkerState N → Check N
  check_worker task id worker =
      let available = worker.available in
      let req = task.req in
      if not worker.is_active
      then stopped (worker_not_active id)
      else if worker.info.worker_ip == ""
      then stopped (no_ip_address id)
      else if lt available.cpu req.cpu
      then stopped (insufficient_cpu available.cpu req.cpu)
      else if lt available.memory req.memory
      then stopped (insufficient_memory available.memory req.memory)
      else if lt available.storage req.storage
      then stopped (insufficient_storage available.storage req.storage)
      else if lt available.gpu req.gpu
      then stopped (insufficient_gpu available.gpu req.gpu)
      else cleared worker.info.worker_ip

  unfoldable pub check_assignment : {S : Type 0} → MasterServer N S → Task N → String → Check N
  check_assignment s task id = elim (lookup id s.workers) [
    | none ↦ stopped (worker_not_found id)
    | some worker ↦ check_worker task id worker
  ]

  -- ALLOCATE RESOURCES
  abbrev pub allocate : Task N → WorkerState N → WorkerState N
  allocate task worker = record worker {
    running_tasks = insert task.task_id true worker.running_tasks;
    allocated = add_resources worker.allocated task.req;
    available = sub_resources worker.available task.req;
  }

  unfoldable pub commit_assignment :
      {S : Type 0} → MasterServer N S → Task N → String → MasterServer N S
  commit_assignment s task id = record s { workers = modify id (allocate task) s.workers }

  -- The calls that follow a successful assignment.
  abbrev pub assignment_calls : {S : Type 0} → MasterServer N S → Task N → String → List (Call N)
  assignment_calls s task id =
      when s.parts.worker_db (allocate_resources id task.req ∷ [])
      ++ when s.parts.task_db (update_task_status task.task_id "running" ∷ [])
      ++ when s.parts.assignment_db (create_assignment task.task_id id ∷ [])

  -- From the connection to the worker on: the answer decides what is entered.
  unfoldable pub send_task :
      {S : Type 0} → MasterServer N S → Answers N → Task N → String → String → Outcome (Ack N) N S
  unfolding commit_assignment
  send_task s a task id ip =
      let sent = rpc_assign_task ip task in
      if not a.dial_ok then (refused connect_failed, s, []) else elim a.worker_ack [
        | none ↦ (
          refused assign_failed,
          s,
          sent ∷ when s.parts.task_db (update_task_status task.task_id "failed" ∷ []),
        )
        | some ack ↦
            if ack.success
            then (ack, commit_assignment s task id, sent ∷ assignment_calls s task id)
            else (ack, s, sent ∷ [])
      ]

  -- assignTaskToWorker, with nobody else at the books between the two stretches. It never returns an
  -- error.
  unfoldable pub assign_task_to_worker :
      {S : Type 0} → MasterServer N S → Answers N → Task N → String → Outcome (Ack N) N S
  unfolding check_assignment
  assign_task_to_worker s a task id = elim (check_assignment s task id) [
    | stopped message ↦ (refused message, s, [])
    | cleared ip ↦ send_task s a task id ip
  ]
