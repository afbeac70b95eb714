-- ===== src/Worker/Monitor.antt =====
-- worker/internal/telemetry/telemetry.go: the running tasks that the worker knows of, its heartbeats,
-- and the call by which it reports a task to the master. The machine and the connection are outside:
-- their answers are arguments.
use agentic_cloud_cluster.Base.{
  String, Bool, true, false, Option, none, some, List, [], ◌∷◌, ◌==◌, if◌then◌else◌,
}
use agentic_cloud_cluster.Float.{Float, zero}
use agentic_cloud_cluster.Dict.{Dict, insert, delete}
use agentic_cloud_cluster.Proto.{RunningTask, Heartbeat, Task}

pub record Monitor (N : Type 0) : Type 0 where
  pub worker_id : String
  pub master_addr : String
  pub running_tasks : Dict (RunningTask N)

-- what the connection to the master answers: no connection, a failed call, or an acknowledgement
-- with its `Success`
pub data Answer : Type 0 where
  dial_failed call_failed : Answer
  acknowledged : Bool → Answer

-- what the machine tells of itself: the processors' use, the memory's, and the output of nvidia-smi
pub record Measured (N : Type 0) : Type 0 where
  pub cpu_percents : Option (List N)
  pub memory_percent : Option N
  pub gpu_output : Option String

-- ReportTaskResult: whether the error that it returns is nil. An acknowledgement that is not a
-- success ends in `return err` with the nil error of the call.
unfoldable pub report_task_result : Answer → Bool
report_task_result dial_failed = false
report_task_result call_failed = false
report_task_result (acknowledged success) = true

abbrev values : {V : Type 0} → Dict V → List V
values [] = []
values ((key, value) ∷ rest) = value ∷ values rest

module _ {N : Type 0} where
  abbrev pub new_monitor : String → Monitor N
  new_monitor worker_id = record { worker_id = worker_id; master_addr = ""; running_tasks = [] }

  -- SetMasterAddress
  unfoldable pub set_master_address : Monitor N → String → Monitor N
  set_master_address m addr = record m { master_addr = addr }

  abbrev pub running_task : Task N → RunningTask N
  running_task task = record {
    task_id = task.task_id;
    cpu_allocated = task.req.cpu;
    memory_allocated = task.req.memory;
    status = "running";
    gpu_allocated = task.req.gpu;
  }

  -- AddTask
  unfoldable pub monitor_task : Monitor N → Task N → Monitor N
  monitor_task m task = record m {
    running_tasks = insert task.task_id (running_task task) m.running_tasks;
  }

  -- RemoveTask
  unfoldable pub unmonitor_task : Monitor N → String → Monitor N
  unmonitor_task m task_id = record m { running_tasks = delete task_id m.running_tasks }

module _ {N : Type 0} ⦃f : Float N⦄ (parse_float : String → Option N) where
  -- getGPUUsage. `parse_float` is strconv.ParseFloat on the output without its outer spaces.
  unfoldable pub get_gpu_usage : Option String → N
  get_gpu_usage none = zero
  get_gpu_usage (some output) = elim (parse_float output) [ none ↦ zero | some usage ↦ usage ]

  abbrev or_zero : Option N → N
  or_zero none = zero
  or_zero (some usage) = usage

  abbrev first_or_zero : Option (List N) → N
  first_or_zero none = zero
  first_or_zero (some []) = zero
  first_or_zero (some (percent ∷ rest)) = percent

  -- sendHeartbeat: the message that is sent, if the master's address is known and a connection is
  -- had. getResourceUsage is the three lines that fill in the usage.
  unfoldable pub monitor_heartbeat : Monitor N → Bool → Measured N → Option (Heartbeat N)
  unfolding get_gpu_usage
  monitor_heartbeat m dial_ok measured =
      if m.master_addr == ""
      then none
      else if dial_ok
      then some (record {
        worker_id = m.worker_id;
        cpu_usage = first_or_zero measured.cpu_percents;
        memory_usage = or_zero measured.memory_percent;
        storage_usage = zero;
        running_tasks = values m.running_tasks;
        gpu_usage = get_gpu_usage measured.gpu_output;
      })
      else none
