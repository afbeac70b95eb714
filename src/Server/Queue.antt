-- ===== src/Server/Queue.antt =====
-- The task queue of master/internal/server/master_server.go: submission, the scheduling pass over
-- the queue, and dispatch past it.
pub mod Order
use Prim.Native.Nat.{◌+◌}
use agentic_cloud_cluster.Base.{
  ℕ, String, Bool, true, false, List, [], ◌∷◌, ◌++◌, ◌==◌, if◌then◌else◌, length, ℤ,
}
use agentic_cloud_cluster.Float.{Float}
use agentic_cloud_cluster.Dict.{Dict, map_values}
use agentic_cloud_cluster.Proto.{Task}
use agentic_cloud_cluster.Scheduler.{WorkerView}
use agentic_cloud_cluster.Server.State.{
  MasterServer, Outcome, WorkerState, QueuedTask, Scheduler, Answers, Ack, Message, Call, accepted,
  text, submitted, dispatched, create_task, when,
}
use agentic_cloud_cluster.Server.Assign.{assign_task_to_worker}

module _ {N : Type 0} where
  abbrev pub retry : QueuedTask N → Message N → QueuedTask N
  retry qt error = record qt { retries = qt.retries + 1; last_error = error }

  abbrev pub targeted : QueuedTask N → String → QueuedTask N
  targeted qt id = record qt { task = record qt.task { target_worker_id = id } }

  abbrev pub no_suitable_worker : Message N
  no_suitable_worker = text "No suitable worker available with sufficient resources"

module _ {N S : Type 0} where
  -- EnqueueTask
  unfoldable pub enqueue_task : MasterServer N S → Task N → Message N → ℤ → MasterServer N S
  enqueue_task s task reason now = record s {
    task_queue =
        s.task_queue
        ++ record { task = task; queued_at = now; retries = 0; last_error = reason } ∷ [];
  }

  -- SubmitTask, and AssignTask, which only calls it
  unfoldable pub submit_task : MasterServer N S → Task N → ℤ → Outcome (Ack N) N S
  unfolding enqueue_task
  submit_task s task now =
      let s' = enqueue_task s task (text "Task submitted to queue for scheduling") now in
      (
        accepted (submitted (length s'.task_queue)),
        s',
        when s.parts.task_db (create_task task ∷ []),
      )

  -- the map that selectWorkerForTask hands to the scheduler
  unfoldable pub worker_infos : MasterServer N S → Dict (WorkerView N)
  worker_infos s =
      map_values
        (λ id worker. record {
          worker_id = id;
          is_active = worker.is_active;
          worker_ip = worker.info.worker_ip;
          available = worker.available;
        })
        s.workers

module _ {N S : Type 0} ⦃f : Float N⦄ where
  -- DispatchTaskToWorker
  unfoldable pub dispatch_task_to_worker :
      MasterServer N S → Answers N → Task N → String → Outcome (Ack N) N S
  dispatch_task_to_worker s a task id =
      let (ack, s', calls) = assign_task_to_worker s a task id in
      (
        if ack.success then accepted (dispatched id) else ack,
        s',
        when s.parts.task_db (create_task task ∷ []) ++ calls,
      )

module _ {N S : Type 0} ⦃f : Float N⦄ (sched : Scheduler N S) where
  -- selectWorkerForTask
  unfoldable pub select_worker_for_task : MasterServer N S → Task N → String × MasterServer N S
  unfolding worker_infos
  select_worker_for_task s task =
      let (id, scheduler) = sched.select_worker task (worker_infos s) s.scheduler in
      (id, record s { scheduler = scheduler })

  -- The body of the loop for one queued task: the entry that stays in the queue, if any.
  unfoldable pub try_queued :
      MasterServer N S → Answers N → QueuedTask N → Outcome (List (QueuedTask N)) N S
  unfolding select_worker_for_task
  try_queued s a qt =
      let (id, s₁) = select_worker_for_task s qt.task in
      if id == ""
      then (retry qt no_suitable_worker ∷ [], s₁, [])
      else let qt' = targeted qt id in
        let (ack, s₂, calls) = assign_task_to_worker s₁ a qt'.task id in
        (if ack.success then [] else retry qt' ack.message ∷ [], s₂, calls)

  -- The loop over the queue. Each entry has its own answers from outside, by its number.
  unfoldable pub try_all :
      MasterServer N S
      → (ℕ → Answers N)
      → ℕ
      → List (QueuedTask N)
      → Outcome (List (QueuedTask N)) N S
  unfolding try_queued
  try_all s a i [] = ([], s, [])
  try_all s a i (qt ∷ rest) =
      let (kept, s₁, calls) = try_queued s (a i) qt in
      let (remaining, s₂, later) = try_all s₁ a (i + 1) rest in
      (kept ++ remaining, s₂, calls ++ later)

  -- One tick of processQueue. An empty queue is left alone.
  unfoldable pub process_queue :
      MasterServer N S → (ℕ → Answers N) → MasterServer N S × List (Call N)
  unfolding try_all
  process_queue s a =
      let (remaining, s', calls) = try_all s a 0 s.task_queue in
      (record s' { task_queue = remaining }, calls)
