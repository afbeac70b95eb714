-- ===== src/Server/State.antt =====
-- The data of master/internal/server/master_server.go. The databases, the workers at the other end
-- of a connection and the clock are outside: a handler is given their answers (`Answers`, and the
-- time), and hands back the calls it makes of them (`Call`), in order, beside its reply and the new
-- state. A map[string]bool of running tasks only ever holds `true`.
use agentic_cloud_cluster.Base.{ℕ, ℤ, String, Bool, true, false, Option, List, []}
use agentic_cloud_cluster.Float.{Float, ◌+◌, ◌-◌, zero, lt}
use agentic_cloud_cluster.Dict.{Dict}
use agentic_cloud_cluster.Proto.{Resources, WorkerInfo, Heartbeat, Task}
use agentic_cloud_cluster.Scheduler.{WorkerView}
use agentic_cloud_cluster.Base.{if◌then◌else◌}

-- The texts that the master and the workers put into an answer.
pub data Message (N : Type 0) : Type 0 where
  text : String → Message N
  worker_not_found worker_not_active no_ip_address : String → Message N
  insufficient_cpu insufficient_memory insufficient_storage insufficient_gpu : N → N → Message N
  connect_failed assign_failed database_failed task_unassigned : Message N
  dispatched : String → Message N
  submitted : ℕ → Message N
  cancelled_unreachable cancelled_unanswered cancelled_done task_not_found : Message N
  result_processed result_kept_cancelled result_already_stored status_not_updated : Message N

-- TaskAck and Ack
pub record Ack (N : Type 0) : Type 0 where
  pub success : Bool
  pub message : Message N

abbrev pub accepted : {N : Type 0} → Message N → Ack N
accepted message = record { success = true; message = message }

abbrev pub refused : {N : Type 0} → Message N → Ack N
refused message = record { success = false; message = message }

-- db.Task, as far as the server reads it
pub record TaskDoc (N : Type 0) : Type 0 where
  pub task_id : String
  pub req : Resources N
  pub status : String

pub record WorkerState (N : Type 0) : Type 0 where
  pub info : WorkerInfo N
  pub last_heartbeat : ℤ
  pub is_active : Bool
  pub running_tasks : Dict Bool
  pub latest_cpu : N
  pub latest_memory : N
  pub latest_gpu : N
  pub task_count : ℕ
  pub allocated : Resources N
  pub available : Resources N

pub record QueuedTask (N : Type 0) : Type 0 where
  pub task : Task N
  pub queued_at : ℤ
  pub retries : ℕ
  pub last_error : Message N

-- which of the optional parts are there, i.e. are not nil
pub record Parts : Type 0 where
  pub worker_db : Bool
  pub task_db : Bool
  pub assignment_db : Bool
  pub result_db : Bool
  pub telemetry_manager : Bool

-- MasterServer. `S` is the state of the scheduler.
pub record MasterServer (N S : Type 0) : Type 0 where
  pub workers : Dict (WorkerState N)
  pub parts : Parts
  pub master_id : String
  pub master_address : String
  pub task_queue : List (QueuedTask N)
  pub scheduler : S

-- scheduler.Scheduler: the interface of the two schedulers, as the server calls it
pub record Scheduler (N S : Type 0) : Type 0 where
  pub select_worker : Task N → Dict (WorkerView N) → S → String × S

-- The calls that change something outside the server.
pub data Call (N : Type 0) : Type 0 where
  register_worker_doc : String → String → Call N
  unregister_worker_doc : String → Call N
  update_worker_info : WorkerInfo N → Call N
  update_heartbeat : String → ℤ → Call N
  release_resources allocate_resources : String → Resources N → Call N
  set_worker_resources : String → Resources N → Resources N → Call N
  create_task : Task N → Call N
  update_task_status : String → String → Call N
  create_assignment : String → String → Call N
  create_result : String → String → String → String → Call N
  telemetry_register telemetry_unregister : String → Call N
  telemetry_heartbeat : Heartbeat N → Call N
  rpc_assign_task : String → Task N → Call N
  rpc_cancel_task : String → String → Call N

-- What the outside answers during one run of a handler. `none` is an error; the answers to calls
-- whose errors the code only logs are left out.
pub record Answers (N : Type 0) : Type 0 where
  pub worker_exists : Option Bool
  pub register_worker_ok : Bool
  pub unregister_worker_ok : Bool
  -- GetTasksByStatus(ctx, "running")
  pub running : Option (List (TaskDoc N))
  -- GetAssignmentByTaskID and GetWorkerForTask: the worker of a task
  pub assignment : String → Option String
  -- GetTask, for the two calls that ReportTaskCompletion makes of it
  pub task : Option (TaskDoc N)
  pub task_again : Option (TaskDoc N)
  pub result_exists : Bool
  pub update_status_ok : Bool
  pub dial_ok : Bool
  pub worker_ack : Option (Ack N)

-- What a handler comes to: its reply, the server after it, and its calls.
abbrev pub Outcome : Type 0 → Type 0 → Type 0 → Type 0
Outcome R N S = R × MasterServer N S × List (Call N)

-- `if ok { … }` around calls
abbrev pub when {ℓ} : {A : Type ℓ} → Bool → List A → List A
when b calls = if b then calls else []

module _ {N : Type 0} ⦃f : Float N⦄ where
  abbrev pub no_resources : Resources N
  no_resources = record { cpu = zero; memory = zero; storage = zero; gpu = zero }

  abbrev pub add_resources : Resources N → Resources N → Resources N
  add_resources a b = record {
    cpu = a.cpu + b.cpu;
    memory = a.memory + b.memory;
    storage = a.storage + b.storage;
    gpu = a.gpu + b.gpu;
  }

  abbrev pub sub_resources : Resources N → Resources N → Resources N
  sub_resources a b = record {
    cpu = a.cpu - b.cpu;
    memory = a.memory - b.memory;
    storage = a.storage - b.storage;
    gpu = a.gpu - b.gpu;
  }

  -- `if x < 0 { x = 0 }`
  abbrev pub at_least_zero : N → N
  at_least_zero x = if lt x zero then zero else x

  abbrev pub clamp_resources : Resources N → Resources N
  clamp_resources a = record {
    cpu = at_least_zero a.cpu;
    memory = at_least_zero a.memory;
    storage = at_least_zero a.storage;
    gpu = at_least_zero a.gpu;
  }
