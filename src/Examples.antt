-- ===== src/Examples.antt =====
-- Concrete inputs: two workers, a server that has them, and what the outside answers. The numbers
-- are thousandths.
pub mod Assignment
pub mod Completion
pub mod Histories
pub mod Schedulers
pub mod Training
pub mod TelemetryRuns
pub mod Uploads
pub mod Books
pub mod Workers
pub mod Restarts
pub mod Stored
pub mod Requests
use agentic_cloud_cluster.Base.{String, true, false, Option, none, some, List, [], ◌∷◌, ℤ, pos}
use agentic_cloud_cluster.Float.Fixed.{fixed}
use agentic_cloud_cluster.Proto.{Resources, WorkerInfo, Task, TaskResult, Heartbeat}
use agentic_cloud_cluster.Scheduler.RoundRobin.{
  RoundRobin, new_round_robin_scheduler, select_worker,
}
use agentic_cloud_cluster.Server.State.{
  Ack, Message, text, TaskDoc, WorkerState, QueuedTask, Parts, MasterServer, Scheduler, Answers,
}

abbrev pub amounts : ℤ → ℤ → Resources ℤ
amounts cpu memory = record { cpu = cpu; memory = memory; storage = pos 0; gpu = pos 0 }

abbrev pub worker_named : String → Resources ℤ → WorkerState ℤ
worker_named id available = record {
  info = record {
    worker_id = id;
    worker_ip = "10.0.0.1:50052";
    total = amounts (pos 8000) (pos 16000);
  };
  last_heartbeat = pos 100;
  is_active = true;
  running_tasks = [];
  latest_cpu = pos 0;
  latest_memory = pos 0;
  latest_gpu = pos 0;
  task_count = 0;
  allocated = amounts (pos 1000) (pos 1000);
  available = available;
}

abbrev pub small_worker : WorkerState ℤ
small_worker = worker_named "w1" (amounts (pos 1000) (pos 2000))

abbrev pub big_worker : WorkerState ℤ
big_worker = worker_named "w2" (amounts (pos 7000) (pos 15000))

abbrev pub task_named : String → Resources ℤ → Task ℤ
task_named id req = record {
  task_id = id;
  docker_image = "alpine";
  command = "true";
  req = req;
  target_worker_id = "";
  user_id = "u";
  sla_multiplier = pos 2000;
  task_type = "";
  task_name = "job";
  submitted_at = pos 90;
}

abbrev pub small_task : Task ℤ
small_task = task_named "t1" (amounts (pos 500) (pos 1000))

abbrev pub large_task : Task ℤ
large_task = task_named "t2" (amounts (pos 4000) (pos 4000))

abbrev pub doc_of : Task ℤ → String → TaskDoc ℤ
doc_of task status = record { task_id = task.task_id; req = task.req; status = status }

abbrev pub all_parts : Parts
all_parts = record {
  worker_db = true;
  task_db = true;
  assignment_db = true;
  result_db = true;
  telemetry_manager = true;
}

abbrev pub server : MasterServer ℤ RoundRobin
server = record {
  workers = ("w1", small_worker) ∷ ("w2", big_worker) ∷ [];
  parts = all_parts;
  master_id = "master";
  master_address = "10.0.0.9:50051";
  task_queue =
      record { task = large_task; queued_at = pos 95; retries = 0; last_error = text "queued" }
      ∷ record {
        task = task_named "t3" (amounts (pos 9000) (pos 1000));
        queued_at = pos 96;
        retries = 2;
        last_error = text "full";
      }
      ∷ [];
  scheduler = record { next = 0 };
}

abbrev pub answers : Answers ℤ
answers = record {
  worker_exists = some false;
  register_worker_ok = true;
  unregister_worker_ok = true;
  running = some (doc_of large_task "running" ∷ []);
  assignment = λ id. some "w2";
  task = some (doc_of small_task "running");
  task_again = some (doc_of small_task "running");
  result_exists = false;
  update_status_ok = true;
  dial_ok = true;
  worker_ack = some (record { success = true; message = text "Task accepted" });
}

abbrev pub report_of : String → String → TaskResult
report_of task_id status = record {
  task_id = task_id;
  worker_id = "w2";
  status = status;
  logs = "done";
  result_location = "";
  output_files = [];
}

abbrev pub round_robin : Scheduler ℤ RoundRobin
round_robin = record { select_worker = select_worker }

abbrev pub beat_of : String → Heartbeat ℤ
beat_of id = record {
  worker_id = id;
  cpu_usage = pos 100;
  memory_usage = pos 100;
  storage_usage = pos 0;
  running_tasks = [];
  gpu_usage = pos 0;
}
