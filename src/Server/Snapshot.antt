-- ===== src/Server/Snapshot.antt =====
-- GetClusterSnapshot of master/internal/server/master_server.go: what the command line and the HTTP
-- interface show of the state. The time is in nanoseconds.
pub mod Counts
use Prim.Native.Nat.{◌/◌ as ◌/ℕ◌, ◌*◌ as ◌×ℕ◌, ◌+◌ as ◌+ℕ◌, ◌-◌ as ◌-ℕ◌}
use agentic_cloud_cluster.Base.{
  ℕ, suc, String, ◌≡◌, refl, ◌∙◌, Bool, true, false, List, [], ◌∷◌, ◌++◌, arith, if◌then◌else◌, ℤ,
  pos, negsuc, ◌-ℤ◌, ltb_ℤ, pos_part, length, append-nil, map,
}
use agentic_cloud_cluster.Float.{Float, ◌+◌, ◌*◌, ◌/◌, lt, zero, literal}
use agentic_cloud_cluster.Dict.{Dict, keys}
use agentic_cloud_cluster.Proto.{Resources}
use agentic_cloud_cluster.Server.State.{MasterServer, WorkerState}

-- `HeartbeatAgo`, before it is printed
pub data Ago : Type 0 where
  never : Ago
  seconds_ago minutes_ago hours_ago : ℤ → Ago

-- `int(...)` of a duration in some unit: towards zero.
unfoldable pub whole_units : ℕ → ℤ → ℤ
whole_units unit (pos n) = pos (◌/ℕ◌ n unit)
whole_units unit (negsuc n) = pos 0 -ℤ pos (◌/ℕ◌ (suc n) unit)

abbrev pub one_second : ℕ
one_second = 1000000000

abbrev pub one_minute : ℕ
one_minute = 60000000000

abbrev pub one_hour : ℕ
one_hour = 3600000000000

unfoldable pub ago : ℤ → ℤ → Ago
unfolding whole_units
ago now last_heartbeat =
    let duration = now -ℤ pos (◌×ℕ◌ (pos_part last_heartbeat) one_second) in
    if ltb_ℤ (pos 0) last_heartbeat
    then if ltb_ℤ duration (pos one_minute)
      then seconds_ago (whole_units one_second duration)
      else if ltb_ℤ duration (pos one_hour)
      then minutes_ago (whole_units one_minute duration)
      else hours_ago (whole_units one_hour duration)
    else never

pub record WorkerStateSnapshot (N : Type 0) : Type 0 where
  pub worker_id : String
  pub worker_ip : String
  pub status : String
  pub last_heartbeat : ℤ
  pub heartbeat_ago : Ago
  pub cpu_usage : N
  pub memory_usage : N
  pub gpu_usage : N
  pub total : Resources N
  pub allocated : Resources N
  pub available : Resources N
  pub running_tasks : List String
  pub task_count : ℕ

-- Sums over the workers, of the three resources that the cluster's part of the snapshot has.
pub record Totals (N : Type 0) : Type 0 where
  pub cpu : N
  pub memory : N
  pub gpu : N

pub record ClusterSnapshot (N : Type 0) : Type 0 where
  pub timestamp : ℤ
  pub workers : List (WorkerStateSnapshot N)
  pub total_workers : ℕ
  pub active_workers : ℕ
  pub inactive_workers : ℕ
  pub total_tasks : ℕ
  pub total : Totals N
  pub allocated : Totals N
  pub available : Totals N
  pub utilization : Totals N

module _ {N : Type 0} where
  abbrev pub worker_snapshot : ℤ → String → WorkerState N → WorkerStateSnapshot N
  worker_snapshot now id w = record {
    worker_id = id;
    worker_ip = w.info.worker_ip;
    status = if w.is_active then "active" else "inactive";
    last_heartbeat = w.last_heartbeat;
    heartbeat_ago = ago now w.last_heartbeat;
    cpu_usage = w.latest_cpu;
    memory_usage = w.latest_memory;
    gpu_usage = w.latest_gpu;
    total = w.info.total;
    allocated = w.allocated;
    available = w.available;
    running_tasks = keys w.running_tasks;
    task_count = length (keys w.running_tasks);
  }

module _ {N : Type 0} ⦃f : Float N⦄ where
  abbrev no_totals : Totals N
  no_totals = record { cpu = zero; memory = zero; gpu = zero }

  abbrev pub plus_amounts : Totals N → Resources N → Totals N
  plus_amounts t r = record {
    cpu = t.cpu + r.cpu;
    memory = t.memory + r.memory;
    gpu = t.gpu + r.gpu;
  }

  abbrev new_snapshot : ℤ → ClusterSnapshot N
  new_snapshot now = record {
    timestamp = now;
    workers = [];
    total_workers = 0;
    active_workers = 0;
    inactive_workers = 0;
    total_tasks = 0;
    total = no_totals;
    allocated = no_totals;
    available = no_totals;
    utilization = no_totals;
  }

module _ {N : Type 0} ⦃f : Float N⦄ where
  -- one turn of the loop over the workers
  unfoldable pub with_worker : ℤ → String → WorkerState N → ClusterSnapshot N → ClusterSnapshot N
  unfolding ago
  with_worker now id w snapshot = record snapshot {
    workers = snapshot.workers ++ worker_snapshot now id w ∷ [];
    total_workers = ◌+ℕ◌ snapshot.total_workers 1;
    active_workers =
        if w.is_active then ◌+ℕ◌ snapshot.active_workers 1 else snapshot.active_workers;
    total_tasks = ◌+ℕ◌ snapshot.total_tasks (length w.running_tasks);
    total = plus_amounts snapshot.total w.info.total;
    allocated = plus_amounts snapshot.allocated w.allocated;
    available = plus_amounts snapshot.available w.available;
  }

  unfoldable pub with_workers : ℤ → Dict (WorkerState N) → ClusterSnapshot N → ClusterSnapshot N
  unfolding with_worker
  with_workers now [] snapshot = snapshot
  with_workers now ((id, w) ∷ m) snapshot = with_workers now m (with_worker now id w snapshot)

  -- the percentage, where there is a total
  abbrev percentage : N → N → N
  percentage allocated total = if lt zero total then allocated / total * literal 100 1 else zero

module _ {N S : Type 0} ⦃f : Float N⦄ where
  unfoldable pub get_cluster_snapshot : MasterServer N S → ℤ → ClusterSnapshot N
  unfolding with_workers
  get_cluster_snapshot s now =
      let snapshot = with_workers now s.workers (new_snapshot now) in
      record snapshot {
        inactive_workers = ◌-ℕ◌ snapshot.total_workers snapshot.active_workers;
        utilization = record {
          cpu = percentage snapshot.allocated.cpu snapshot.total.cpu;
          memory = percentage snapshot.allocated.memory snapshot.total.memory;
          gpu = percentage snapshot.allocated.gpu snapshot.total.gpu;
        };
      }
