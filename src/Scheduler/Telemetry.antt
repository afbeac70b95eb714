-- ===== src/Scheduler/Telemetry.antt =====
-- MasterTelemetrySource of master/internal/scheduler/telemetry_source.go: the views of the workers
-- that the risk-aware scheduler works with, from the database's capacities and the telemetry.
use agentic_cloud_cluster.Base.{String, Bool, Option, none, some, List, [], ◌∷◌, if◌then◌else◌}
use agentic_cloud_cluster.Float.{Float, ◌+◌, ◌-◌, ◌*◌, ◌/◌, lt, eq, literal, zero}
use agentic_cloud_cluster.Dict.{Dict, lookup}
use agentic_cloud_cluster.Proto.{Resources}

-- db.WorkerDocument, as far as it is read here
pub record WorkerDocument (N : Type 0) : Type 0 where
  pub worker_id : String
  pub is_active : Bool
  pub total : Resources N
  pub allocated : Resources N

-- telemetry.WorkerTelemetryData, as far as it is read here
pub record Usage (N : Type 0) : Type 0 where
  pub cpu_usage : N
  pub memory_usage : N
  pub gpu_usage : N
  pub is_active : Bool

-- WorkerView of rts_models.go
pub record LoadView (N : Type 0) : Type 0 where
  pub id : String
  pub avail : Resources N
  pub load : N

module _ {N : Type 0} ⦃f : Float N⦄ where
  -- `if x < 0 { x = 0 }`
  abbrev pub not_negative : N → N
  not_negative x = if lt x zero then zero else x

  unfoldable pub load_of_usage : Usage N → Resources N → N
  load_of_usage usage total =
      let w_cpu = total.cpu in
      let w_mem = total.memory / literal 10 1 in
      let w_gpu = total.gpu * literal 2 1 in
      let total_weight = w_cpu + w_mem + w_gpu in
      if eq total_weight zero
      then zero
      else not_negative (
          (w_cpu * usage.cpu_usage + w_mem * usage.memory_usage + w_gpu * usage.gpu_usage)
          / total_weight)

  -- computeNormalizedLoad
  unfoldable pub compute_normalized_load : String → Dict (Usage N) → WorkerDocument N → N
  unfolding load_of_usage
  compute_normalized_load worker_id telemetry worker = elim (lookup worker_id telemetry) [
    | none ↦ zero
    | some usage ↦ if usage.is_active then load_of_usage usage worker.total else zero
  ]

  abbrev pub load_view : Dict (Usage N) → WorkerDocument N → LoadView N
  load_view telemetry worker = record {
    id = worker.worker_id;
    avail = record {
      cpu = not_negative (worker.total.cpu - worker.allocated.cpu);
      memory = not_negative (worker.total.memory - worker.allocated.memory);
      storage = not_negative (worker.total.storage - worker.allocated.storage);
      gpu = not_negative (worker.total.gpu - worker.allocated.gpu);
    };
    load = compute_normalized_load worker.worker_id telemetry worker;
  }

  -- the loop of GetWorkerViews
  unfoldable pub active_views : Dict (Usage N) → List (WorkerDocument N) → List (LoadView N)
  unfolding compute_normalized_load
  active_views telemetry [] = []
  active_views telemetry (worker ∷ rest) =
      let views = active_views telemetry rest in
      if worker.is_active then load_view telemetry worker ∷ views else views

  -- GetWorkerViews; `none` where the database fails.
  unfoldable pub get_worker_views :
      Option (List (WorkerDocument N)) → Dict (Usage N) → Option (List (LoadView N))
  unfolding active_views
  get_worker_views none telemetry = none
  get_worker_views (some workers) telemetry = some (active_views telemetry workers)

  -- GetWorkerLoad, with the answer of GetWorker
  unfoldable pub get_worker_load :
      (String → Option (WorkerDocument N)) → Dict (Usage N) → String → N
  unfolding compute_normalized_load
  get_worker_load workers telemetry worker_id = elim (lookup worker_id telemetry) [
    | none ↦ zero
    | some usage ↦
        if usage.is_active
        then elim (workers worker_id) [
          | none ↦ zero
          | some worker ↦ compute_normalized_load worker_id telemetry worker
        ]
        else zero
  ]
