-- ===== src/Server/Complete.antt =====
-- ReportTaskCompletion of master/internal/server/master_server.go.
pub mod Status
pub mod Accounts
use agentic_cloud_cluster.Base.{
  String, Bool, true, false, Option, none, some, List, [], ◌∷◌, ◌++◌, ◌==◌, ◌&&◌, not,
  if◌then◌else◌,
}
use agentic_cloud_cluster.Float.{Float}
use agentic_cloud_cluster.Dict.{lookup, delete, insert}
use agentic_cloud_cluster.Proto.{Resources, TaskResult}
use agentic_cloud_cluster.Server.State.{
  MasterServer, Outcome, WorkerState, TaskDoc, Answers, Ack, Message, Call, accepted, refused,
  result_processed, result_kept_cancelled, result_already_stored, status_not_updated,
  release_resources, update_task_status, create_result, when, add_resources, sub_resources,
  clamp_resources,
}

-- the status that a report gives its task
unfoldable pub final_status : String → String
final_status reported =
    if reported == "cancelled"
    then "cancelled"
    else if reported == "success"
    then "completed"
    else "failed"

module _ {N : Type 0} ⦃f : Float N⦄ where
  -- RELEASE RESOURCES: what is taken off the allocated amounts is held at zero, what is added to
  -- the available ones is not.
  abbrev pub release : Resources N → WorkerState N → WorkerState N
  release req worker = record worker {
    allocated = clamp_resources (sub_resources worker.allocated req);
    available = add_resources worker.available req;
  }

  abbrev pub forget_task : String → WorkerState N → WorkerState N
  forget_task task_id worker = record worker { running_tasks = delete task_id worker.running_tasks }

  -- what GetTask tells, if there is a database of tasks
  abbrev pub task_resources : {S : Type 0} → MasterServer N S → Answers N → Option (TaskDoc N)
  task_resources s a = if s.parts.task_db then a.task else none

  abbrev pub leave : Option (TaskDoc N) → String → WorkerState N → WorkerState N
  leave none task_id worker = forget_task task_id worker
  leave (some task) task_id worker = release task.req (forget_task task_id worker)

  abbrev release_calls : Bool → Option (TaskDoc N) → String → List (Call N)
  release_calls has_db none id = []
  release_calls has_db (some task) id = when has_db (release_resources id task.req ∷ [])

  -- The first half of the handler: the worker's books.
  unfoldable pub settle_worker :
      {S : Type 0} → MasterServer N S → Answers N → TaskResult → MasterServer N S × List (Call N)
  settle_worker s a result = elim (lookup result.worker_id s.workers) [
    | none ↦ (s, [])
    | some worker ↦
        let known = task_resources s a in
        (
          record s {
            workers = insert result.worker_id (leave known result.task_id worker) s.workers;
          },
          release_calls s.parts.worker_db known result.worker_id,
        )
  ]

  abbrev pub store_result : Bool → TaskResult → String → List (Call N)
  store_result has_db result status =
      when has_db (create_result result.task_id result.worker_id status result.logs ∷ [])

  -- The second half, for a task that the database knows as cancelled.
  unfoldable pub keep_cancelled :
      {S : Type 0} → MasterServer N S → Answers N → TaskResult → Ack N × List (Call N)
  keep_cancelled s a result =
      if s.parts.result_db && a.result_exists
      then (accepted result_already_stored, [])
      else (accepted result_kept_cancelled, store_result s.parts.result_db result "cancelled")

  -- The second half for every other task: the status first, then the result.
  unfoldable pub record_status :
      {S : Type 0} → MasterServer N S → Answers N → TaskResult → Ack N × List (Call N)
  unfolding final_status
  record_status s a result =
      let update = update_task_status result.task_id (final_status result.status) in
      if not a.update_status_ok && not (result.status == "cancelled")
      then (refused status_not_updated, update ∷ [])
      else (accepted result_processed, update ∷ store_result s.parts.result_db result result.status)

  abbrev pub is_cancelled : Option (TaskDoc N) → Bool
  is_cancelled none = false
  is_cancelled (some task) = task.status == "cancelled"

  unfoldable pub finish_report :
      {S : Type 0} → MasterServer N S → Answers N → TaskResult → Ack N × List (Call N)
  unfolding keep_cancelled record_status
  finish_report s a result =
      if s.parts.task_db
      then (if is_cancelled a.task_again
          then keep_cancelled s a result
          else record_status s a result)
      else (accepted result_processed, store_result s.parts.result_db result result.status)

  -- ReportTaskCompletion
  unfoldable pub report_task_completion :
      {S : Type 0} → MasterServer N S → Answers N → TaskResult → Outcome (Ack N) N S
  unfolding settle_worker finish_report
  report_task_completion s a result =
      let (s', released) = settle_worker s a result in
      let (ack, calls) = finish_report s a result in (ack, s', released ++ calls)
