-- ===== src/Aod.antt =====
-- master/internal/aod: the training of the parameters of the risk-aware scheduler from the history
-- of tasks and the statistics of the workers.
pub mod Affinity
pub mod Penalty
pub mod Theta
pub mod Training
use agentic_cloud_cluster.Base.{
  ℕ, String, Bool, true, false, List, [], ◌∷◌, ◌==◌, ◌&&◌, if◌then◌else◌, length, ltb,
}
use agentic_cloud_cluster.Float.{Float, ◌+◌, ◌/◌, zero, literal}

-- db.TaskHistory, as far as the training reads it
pub record TaskHistory (N : Type 0) : Type 0 where
  pub worker_id : String
  pub task_type : String
  pub actual_runtime : N
  pub tau : N
  pub sla_success : Bool
  pub cpu_used : N
  pub mem_used : N
  pub gpu_used : N
  pub load_at_start : N

-- db.WorkerStats
pub record WorkerStats (N : Type 0) : Type 0 where
  pub worker_id : String
  pub tasks_run : ℕ
  pub sla_violations : ℕ
  pub total_runtime : N
  pub cpu_used_total : N
  pub mem_used_total : N
  pub gpu_used_total : N
  pub overload_time : N
  pub total_time : N

module _ {N : Type 0} ⦃f : Float N⦄ where
  -- `float64(n)`
  abbrev pub float_of : ℕ → N
  float_of n = literal n 1
