-- ===== src/Server/Reconnect.antt =====
-- The reconnection of workers, in master/internal/server/master_server.go: ManualRegisterAndNotify,
-- the monitor of StartWorkerReconnectionMonitor and the attempts that it starts.
pub mod Return
use agentic_cloud_cluster.Base.{
  String, Bool, ◌&&◌, not, Option, none, some, List, [], ◌∷◌, ◌==◌, if◌then◌else◌, map, ℤ,
}
use agentic_cloud_cluster.Float.{Float}
use agentic_cloud_cluster.Dict.{Dict}
use agentic_cloud_cluster.Server.State.{MasterServer, WorkerState, Answers, Call}
use agentic_cloud_cluster.Server.Registry.{
  RegistryError, manual_register_worker, check_and_mark_inactive_workers,
}

-- A call MasterRegister of a worker, with the MasterInfo that it carries.
pub record Contact : Type 0 where
  pub worker_id : String
  pub worker_ip : String
  pub master_id : String
  pub master_address : String

-- attemptSingleWorkerReconnection, and the goroutine of ManualRegisterAndNotify: the worker is called
-- if a connection comes about. Nothing depends on its answer.
unfoldable pub attempt_single_worker_reconnection : Contact → Bool → List Contact
attempt_single_worker_reconnection contact dial_ok = if dial_ok then contact ∷ [] else []

module _ {N : Type 0} where
  -- The workers that attemptWorkerReconnections collects, with their addresses.
  unfoldable pub collect_inactive_workers : Dict (WorkerState N) → Dict String
  collect_inactive_workers [] = []
  collect_inactive_workers ((id, worker) ∷ m) =
      let rest = collect_inactive_workers m in
      if not worker.is_active && not (worker.info.worker_ip == "")
      then (id, worker.info.worker_ip) ∷ rest
      else rest

module _ {N S : Type 0} where
  abbrev pub contact_of : MasterServer N S → String × String → Contact
  contact_of s (id, ip) = record {
    worker_id = id;
    worker_ip = ip;
    master_id = s.master_id;
    master_address = s.master_address;
  }

  -- attemptWorkerReconnections: the attempts that it starts
  unfoldable pub attempt_worker_reconnections : MasterServer N S → List Contact
  unfolding collect_inactive_workers
  attempt_worker_reconnections s = map (contact_of s) (collect_inactive_workers s.workers)

  -- SetMasterInfo
  abbrev pub set_master_info : MasterServer N S → String → String → MasterServer N S
  set_master_info s master_id master_address = record s {
    master_id = master_id;
    master_address = master_address;
  }

module _ {N S : Type 0} ⦃f : Float N⦄ where
  -- a tick of StartWorkerReconnectionMonitor
  unfoldable pub monitor_tick : MasterServer N S → ℤ → MasterServer N S × List Contact
  unfolding check_and_mark_inactive_workers attempt_worker_reconnections
  monitor_tick s now =
      let s' = check_and_mark_inactive_workers s now in (s', attempt_worker_reconnections s')

  -- ManualRegisterAndNotify, with the attempt that it starts
  unfoldable pub manual_register_and_notify :
      MasterServer N S
      → Answers N
      → String
      → String
      → String
      → String
      → Option RegistryError × MasterServer N S × List (Call N) × List Contact
  unfolding manual_register_worker
  manual_register_and_notify s a id ip master_id master_address =
      let (error, s', calls) = manual_register_worker s a id ip in
      elim error [
        | some e ↦ (some e, s', calls, [])
        | none ↦ (
          none,
          s',
          calls,
          record {
            worker_id = id;
            worker_ip = ip;
            master_id = master_id;
            master_address = master_address;
          }
              ∷ [],
        )
      ]
