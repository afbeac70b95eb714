-- ===== src/Worker/Server.antt =====
-- worker/internal/server/worker_server.go: the calls that a worker answers, and the goroutines that
-- they start. A goroutine is a value that says what is left for it to do; `advance` is its next
-- stretch. Connections, Docker, the machine and the files are outside, and answer in `Answers`.
pub mod Retries
use Prim.Native.Nat.{◌+◌, ◌-◌, ◌^◌}
use agentic_cloud_cluster.Base.{
  ℕ, zero, suc, String, Bool, true, false, Option, none, some, List, [], ◌∷◌, ◌==◌, if◌then◌else◌,
  eqb, map,
}
use agentic_cloud_cluster.Proto.{Resources, WorkerInfo, Task, TaskResult, FileChunk}
use agentic_cloud_cluster.Upload.{OutputFile, upload_output_files, chunk_size}
use agentic_cloud_cluster.Paths.{join_path}
use agentic_cloud_cluster.Worker.Executor.{
  TaskExecutor, new_task_executor, RunAnswers, TaskRun, DockerCall, CancelAnswers, CancelError,
  cancel_container, get_running_tasks,
}
use agentic_cloud_cluster.Worker.Monitor.{
  Monitor, new_monitor, set_master_address, monitor_task, unmonitor_task, Answer,
  report_task_result,
}

-- What a goroutine has still to do. `pulling` and `running` are ExecuteTask before and after the
-- container is entered, `reporting` the rest of executeTask.
pub data Goroutine (N : Type 0) : Type 0 where
  registering : Goroutine N
  pulling : Task N → Goroutine N
  running : Task N → String → Goroutine N
  reporting : Task N → TaskRun → Goroutine N
  confirming : String → Goroutine N

-- WorkerServer, with the goroutines that it has started. `output_base` is the value of
-- getBaseOutputDir.
pub record WorkerServer (N : Type 0) : Type 0 where
  pub worker_id : String
  pub executor : TaskExecutor
  pub monitor : Monitor N
  pub master_addr : String
  pub master_registered : Bool
  pub goroutines : List (Goroutine N)
  pub output_base : String

-- What the worker tries to send to the master, each message once for each attempt: reports by
-- executeTask and confirmations by reportCancellationWithRetry, with what the connection to the
-- master answers to the attempt, and the reports of a shutdown.
pub data Sent (N : Type 0) : Type 0 where
  registration : WorkerInfo N → Sent N
  uploaded : List FileChunk → Sent N
  report : TaskResult → Answer → Sent N
  confirmation : TaskResult → Answer → Sent N
  shutdown_report : TaskResult → Sent N

pub record Answers (N : Type 0) : Type 0 where
  pub dial_ok : Bool
  pub system_resources : Option (Resources N)
  pub run : RunAnswers
  pub read_file : String → Option (List ℕ)
  -- the answers to the attempts of a report, counted from 1
  pub attempt : ℕ → Answer

pub data AssignReply : Type 0 where
  task_accepted master_not_registered : AssignReply

-- What the loop of reportCancellationWithRetry comes to: whether an attempt succeeded, how many were
-- made, and the seconds slept between them.
pub record Retried : Type 0 where
  pub confirmed : Bool
  pub made : ℕ
  pub slept : List ℕ

-- The loop, from the attempt of the given number on, with so many left.
unfoldable pub retry_report : ℕ → ℕ → (ℕ → Answer) → Retried
unfolding report_task_result
retry_report attempt zero answers = record { confirmed = false; made = 0; slept = [] }
retry_report attempt (suc left) answers =
    let later = retry_report (attempt + 1) left answers in
    if report_task_result (answers attempt)
    then record { confirmed = true; made = 1; slept = [] }
    else record {
      confirmed = later.confirmed;
      made = later.made + 1;
      slept = if eqb left 0 then [] else 2 ^ (attempt - 1) ∷ later.slept;
    }

-- the retries that CancelTask asks for
abbrev pub max_retries : ℕ
max_retries = 3

module _ {N : Type 0} where
  unfoldable pub new_worker_server : String → String → WorkerServer N
  new_worker_server worker_id output_base = record {
    worker_id = worker_id;
    executor = new_task_executor;
    monitor = new_monitor worker_id;
    master_addr = "";
    master_registered = false;
    goroutines = [];
    output_base = output_base;
  }

  abbrev pub spawn : WorkerServer N → Goroutine N → WorkerServer N
  spawn w g = record w { goroutines = g ∷ w.goroutines }

  -- MasterRegister
  unfoldable pub master_register : WorkerServer N → String → WorkerServer N
  unfolding set_master_address
  master_register w addr =
      spawn
        (record w {
          master_addr = addr;
          master_registered = true;
          monitor = set_master_address w.monitor addr;
        })
        registering

  -- AssignTask
  unfoldable pub accept_task : WorkerServer N → Task N → AssignReply × WorkerServer N
  unfolding monitor_task
  accept_task w task =
      if w.master_registered
      then (
        task_accepted,
        spawn (record w { monitor = monitor_task w.monitor task }) (pulling task),
      )
      else (master_not_registered, w)

  -- CancelTask; `none` is a success.
  unfoldable pub cancel_running :
      WorkerServer N
      → String
      → CancelAnswers
      → Option CancelError × WorkerServer N × List DockerCall
  unfolding cancel_container unmonitor_task
  cancel_running w task_id a =
      let (error, executor, calls) = cancel_container w.executor task_id a in
      elim error [
        | some e ↦ (some e, record w { executor = executor }, calls)
        | none ↦ (
          none,
          spawn (record w { executor = executor; monitor = unmonitor_task w.monitor task_id })
              (confirming task_id),
          calls,
        )
      ]

  abbrev shutdown_result : WorkerServer N → String → TaskResult
  shutdown_result w task_id = record {
    task_id = task_id;
    worker_id = w.worker_id;
    status = "failed";
    logs = "Task failed: Worker was terminated while task was running";
    result_location = "";
    output_files = [];
  }

  -- Shutdown
  unfoldable pub shutdown : WorkerServer N → List (Sent N)
  unfolding get_running_tasks
  shutdown w =
      if w.master_addr == ""
      then []
      else map (λ id. shutdown_report (shutdown_result w id)) (get_running_tasks w.executor)

  -- The message of reportCancellationWithRetry, and its sending.
  abbrev pub cancelled_result : WorkerServer N → String → TaskResult
  cancelled_result w task_id = record {
    task_id = task_id;
    worker_id = w.worker_id;
    status = "cancelled";
    logs = "Task was cancelled by user request";
    result_location = "";
    output_files = [];
  }

  -- so many attempts to send a result, from the one of the given number on
  abbrev pub attempts_made : ℕ → ℕ → TaskResult → (ℕ → Answer) → List (Sent N)
  attempts_made zero attempt result answers = []
  attempts_made (suc n) attempt result answers =
      confirmation result (answers attempt) ∷ attempts_made n (attempt + 1) result answers

  unfoldable pub confirm : WorkerServer N → String → (ℕ → Answer) → List (Sent N)
  unfolding retry_report
  confirm w task_id answers =
      if w.master_addr == ""
      then []
      else attempts_made (retry_report 1 max_retries answers).made 1 (cancelled_result w task_id)
          answers

  -- The upload in executeTask, as far as no call to send a chunk fails.
  unfoldable pub send_outputs : WorkerServer N → Task N → TaskRun → Answers N → List (Sent N)
  unfolding upload_output_files
  send_outputs w task run a =
      let file : String → OutputFile = λ path. record {
        rel_path = path;
        contents = a.read_file (join_path run.result_location path);
      } in
      elim run.output_files [
        | [] ↦ []
        | first ∷ rest ↦
            if w.master_addr == ""
            then []
            else if a.dial_ok
            then uploaded (upload_output_files chunk_size task (map file (first ∷ rest))) ∷ []
            else []
      ]

  abbrev pub run_result : WorkerServer N → Task N → TaskRun → TaskResult
  run_result w task run = record {
    task_id = task.task_id;
    worker_id = w.worker_id;
    status = run.status;
    logs = run.logs;
    result_location = run.result_location;
    output_files = run.output_files;
  }
