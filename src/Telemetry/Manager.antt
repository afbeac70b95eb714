-- ===== src/Telemetry/Manager.antt =====
-- TelemetryManager of master/internal/telemetry/telemetry_manager.go. Each worker has a buffered
-- channel and a goroutine that empties it. A closed channel is still emptied by its goroutine: the
-- heartbeats left in closed channels are `closing`, one list per goroutine. The lock makes each
-- operation and each delivery one step.
pub mod Closed
use Prim.Native.Nat.{◌+◌}
use agentic_cloud_cluster.Base.{
  ℕ, String, Bool, true, false, Option, none, some, List, [], ◌∷◌, ◌++◌, ◌==◌, ◌&&◌, if◌then◌else◌,
  length, ltb, ℤ, ◌-ℤ◌, ltb_ℤ,
}
use agentic_cloud_cluster.Float.{Float, zero}
use agentic_cloud_cluster.Dict.{Dict, lookup, insert, delete, map_values}
use agentic_cloud_cluster.Proto.{Heartbeat, RunningTask}

pub record WorkerTelemetryData (N : Type 0) : Type 0 where
  pub worker_id : String
  pub cpu_usage : N
  pub memory_usage : N
  pub gpu_usage : N
  pub running_tasks : List (RunningTask N)
  pub last_update : ℤ
  pub is_active : Bool

pub record TelemetryManager (N : Type 0) : Type 0 where
  pub worker_data : Dict (WorkerTelemetryData N)
  pub worker_channels : Dict (List (Heartbeat N))
  pub closing : List (List (Heartbeat N))
  -- in seconds
  pub inactivity_timeout : ℤ

-- the buffer of a channel
abbrev pub channel_capacity : ℕ
channel_capacity = 10

module _ {N : Type 0} where
  -- NewTelemetryManager
  unfoldable pub new_telemetry_manager : ℤ → TelemetryManager N
  new_telemetry_manager timeout = record {
    worker_data = [];
    worker_channels = [];
    closing = [];
    inactivity_timeout = timeout;
  }

  -- UnregisterWorker
  unfoldable pub unregister_telemetry : TelemetryManager N → String → TelemetryManager N
  unregister_telemetry tm worker_id = record tm {
    worker_data = delete worker_id tm.worker_data;
    worker_channels = delete worker_id tm.worker_channels;
    closing = elim (lookup worker_id tm.worker_channels) [
      | none ↦ tm.closing
      | some left ↦ left ∷ tm.closing
    ];
  }

  -- what a heartbeat leaves in the entry of its worker: every field is written
  abbrev pub fresh_data : Heartbeat N → ℤ → WorkerTelemetryData N
  fresh_data hb now = record {
    worker_id = hb.worker_id;
    cpu_usage = hb.cpu_usage;
    memory_usage = hb.memory_usage;
    gpu_usage = hb.gpu_usage;
    running_tasks = hb.running_tasks;
    last_update = now;
    is_active = true;
  }

  -- updateWorkerTelemetry
  unfoldable pub update_worker_telemetry : TelemetryManager N → Heartbeat N → ℤ → TelemetryManager N
  update_worker_telemetry tm hb now = record tm {
    worker_data = insert hb.worker_id (fresh_data hb now) tm.worker_data;
  }

  -- processWorkerTelemetry, one turn of the goroutine of an open channel
  unfoldable pub deliver : TelemetryManager N → String → ℤ → TelemetryManager N
  unfolding update_worker_telemetry
  deliver tm worker_id now = elim (lookup worker_id tm.worker_channels) [
    | none ↦ tm
    | some [] ↦ tm
    | some (hb ∷ rest) ↦
        update_worker_telemetry
          (record tm { worker_channels = insert worker_id rest tm.worker_channels }) hb now
  ]

  -- one turn of the goroutine of the channel that was closed last; an emptied one ends it
  unfoldable pub deliver_closed : TelemetryManager N → ℤ → TelemetryManager N
  unfolding update_worker_telemetry
  deliver_closed tm now = elim tm.closing [
    | [] ↦ tm
    | left ∷ others ↦ elim left [
      | [] ↦ record tm { closing = others }
      | hb ∷ rest ↦ update_worker_telemetry (record tm { closing = rest ∷ others }) hb now
    ]
  ]

  -- markInactiveWorkers
  unfoldable pub mark_inactive_workers : TelemetryManager N → ℤ → TelemetryManager N
  mark_inactive_workers tm now = record tm {
    worker_data =
        map_values
          (λ _ entry.
            if ltb_ℤ tm.inactivity_timeout (now -ℤ entry.last_update)
            then record entry { is_active = false }
            else entry)
          tm.worker_data;
  }

  -- GetWorkerTelemetry
  unfoldable pub get_worker_telemetry : TelemetryManager N → String → Option (WorkerTelemetryData N)
  get_worker_telemetry tm worker_id = lookup worker_id tm.worker_data

  -- GetActiveWorkerCount
  unfoldable pub count_active : Dict (WorkerTelemetryData N) → ℕ
  count_active [] = 0
  count_active ((id, entry) ∷ rest) =
      let count = count_active rest in if entry.is_active then count + 1 else count

module _ {N : Type 0} ⦃f : Float N⦄ where
  -- RegisterWorker
  unfoldable pub register_telemetry : TelemetryManager N → String → ℤ → TelemetryManager N
  register_telemetry tm worker_id now = elim (lookup worker_id tm.worker_channels) [
    | some _ ↦ tm
    | none ↦ record tm {
      worker_channels = insert worker_id [] tm.worker_channels;
      worker_data =
          insert worker_id
            (record {
              worker_id = worker_id;
              cpu_usage = zero;
              memory_usage = zero;
              gpu_usage = zero;
              running_tasks = [];
              last_update = now;
              is_active = false;
            })
            tm.worker_data;
    }
  ]

  -- ProcessHeartbeat: a full channel drops the heartbeat.
  unfoldable pub process_heartbeat : TelemetryManager N → Heartbeat N → ℤ → TelemetryManager N
  unfolding register_telemetry
  process_heartbeat tm hb now =
      let tm' = register_telemetry tm hb.worker_id now in
      elim (lookup hb.worker_id tm'.worker_channels) [
        | none ↦ tm'
        | some queued ↦
            if ltb (length queued) channel_capacity
            then record tm' {
              worker_channels = insert hb.worker_id (queued ++ hb ∷ []) tm'.worker_channels;
            }
            else tm'
      ]

pub data TelemetryEvent (N : Type 0) : Type 0 where
  registered : String → ℤ → TelemetryEvent N
  unregistered : String → TelemetryEvent N
  received : Heartbeat N → ℤ → TelemetryEvent N
  delivered : String → ℤ → TelemetryEvent N
  drained : ℤ → TelemetryEvent N
  ticked : ℤ → TelemetryEvent N

module _ {N : Type 0} ⦃f : Float N⦄ where
  unfoldable pub react : TelemetryManager N → TelemetryEvent N → TelemetryManager N
  unfolding process_heartbeat
  react tm (registered id now) = register_telemetry tm id now
  react tm (unregistered id) = unregister_telemetry tm id
  react tm (received hb now) = process_heartbeat tm hb now
  react tm (delivered id now) = deliver tm id now
  react tm (drained now) = deliver_closed tm now
  react tm (ticked now) = mark_inactive_workers tm now

  unfoldable pub react_all : TelemetryManager N → List (TelemetryEvent N) → TelemetryManager N
  unfolding react
  react_all tm [] = tm
  react_all tm (e ∷ es) = react_all (react tm e) es
