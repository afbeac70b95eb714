-- ===== src/Proto.antt =====
-- The messages of proto/master_worker.proto that the two sides exchange, in the form of the Go
-- structs generated from it. The four amounts of a task, of a worker's capacity and of its
-- accounts always stand together, and are one record `Resources`.
use agentic_cloud_cluster.Base.{ℕ, String, Bool, List, ℤ}

pub record Resources (N : Type 0) : Type 0 where
  pub cpu : N
  pub memory : N
  pub storage : N
  pub gpu : N

pub record WorkerInfo (N : Type 0) : Type 0 where
  pub worker_id : String
  pub worker_ip : String
  pub total : Resources N

pub record RunningTask (N : Type 0) : Type 0 where
  pub task_id : String
  pub cpu_allocated : N
  pub memory_allocated : N
  pub status : String
  pub gpu_allocated : N

pub record Heartbeat (N : Type 0) : Type 0 where
  pub worker_id : String
  pub cpu_usage : N
  pub memory_usage : N
  pub storage_usage : N
  pub running_tasks : List (RunningTask N)
  pub gpu_usage : N

pub record Task (N : Type 0) : Type 0 where
  pub task_id : String
  pub docker_image : String
  pub command : String
  pub req : Resources N
  pub target_worker_id : String
  pub user_id : String
  pub sla_multiplier : N
  pub task_type : String
  pub task_name : String
  pub submitted_at : ℤ

pub record TaskResult : Type 0 where
  pub task_id : String
  pub worker_id : String
  pub status : String
  pub logs : String
  pub result_location : String
  pub output_files : List String

pub record FileChunk : Type 0 where
  pub task_id : String
  pub user_id : String
  pub task_name : String
  pub file_path : String
  pub content : List ℕ
  pub is_last_chunk : Bool
  pub is_last_file : Bool
  pub timestamp : ℤ
