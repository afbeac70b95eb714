-- ===== src/Scheduler.antt =====
-- master/internal/scheduler: what a scheduler is told of a worker, the two schedulers and the
-- parameters of the second.
pub mod Sort
pub mod RoundRobin
pub mod Params
pub mod Telemetry
pub mod Rts
use agentic_cloud_cluster.Base.{String, Bool, true, false, ◌==◌, if◌then◌else◌}
use agentic_cloud_cluster.Float.{Float, lt}
use agentic_cloud_cluster.Proto.{Resources, Task}

-- WorkerInfo of round_robin.go; its own `WorkerID` is the key under which it is stored.
pub record WorkerView (N : Type 0) : Type 0 where
  pub worker_id : String
  pub is_active : Bool
  pub worker_ip : String
  pub available : Resources N

module _ {N : Type 0} ⦃f : Float N⦄ where
  -- the four availability tests of isWorkerSuitable, in their order
  unfoldable pub fits : Resources N → Resources N → Bool
  fits req available =
      if lt available.cpu req.cpu
      then false
      else if lt available.memory req.memory
      then false
      else if lt available.storage req.storage
      then false
      else if lt available.gpu req.gpu
      then false
      else true

  unfoldable pub is_worker_suitable : WorkerView N → Task N → Bool
  unfolding fits
  is_worker_suitable worker task =
      if worker.is_active
      then (if worker.worker_ip == "" then false else fits task.req worker.available)
      else false
