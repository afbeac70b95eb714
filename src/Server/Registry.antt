-- ===== src/Server/Registry.antt =====
-- The registry of workers of master/internal/server/master_server.go: registration by the
-- administrator, the worker's own registration, heartbeats and inactivity.
use agentic_cloud_cluster.Base.{
  String, Bool, true, false, Option, none, some, List, [], ◌∷◌, ◌++◌, ◌==◌, ◌&&◌, ◌||◌, not,
  if◌then◌else◌, length, ℤ, pos, ◌-ℤ◌, ltb_ℤ,
}
use agentic_cloud_cluster.Float.{Float, eq, zero}
use agentic_cloud_cluster.Dict.{Dict, lookup, insert, delete, map_values}
use agentic_cloud_cluster.Proto.{Resources, WorkerInfo, Heartbeat}
use agentic_cloud_cluster.Server.State.{
  MasterServer, Outcome, WorkerState, Answers, Call, register_worker_doc, unregister_worker_doc,
  update_worker_info, update_heartbeat, telemetry_register, telemetry_unregister,
  telemetry_heartbeat, when, no_resources, sub_resources,
}
use agentic_cloud_cluster.Server.Reconcile.{reconcile_single_worker}

-- The errors of ManualRegisterWorker and UnregisterWorker.
pub data RegistryError : Type 0 where
  already_registered check_failed already_in_database insert_failed not_found delete_failed :
      RegistryError

-- `heartbeatTimeout`, and the 30 of GetWorkers
abbrev pub heartbeat_timeout : ℤ
heartbeat_timeout = pos 30

module _ {N : Type 0} ⦃f : Float N⦄ where
  abbrev pub minimal_worker : String → String → WorkerState N
  minimal_worker id ip = record {
    info = record { worker_id = id; worker_ip = ip; total = no_resources };
    last_heartbeat = pos 0;
    is_active = false;
    running_tasks = [];
    latest_cpu = zero;
    latest_memory = zero;
    latest_gpu = zero;
    task_count = 0;
    allocated = no_resources;
    available = no_resources;
  }

module _ {N : Type 0} where
  -- a worker that connects: its new description, with the address kept if it gives none
  abbrev pub connected : WorkerState N → WorkerInfo N → ℤ → WorkerState N
  connected worker info now = record worker {
    info = if info.worker_ip == "" then record info { worker_ip = worker.info.worker_ip } else info;
    is_active = true;
    last_heartbeat = now;
  }

  -- a worker that sends a heartbeat
  abbrev pub heard : WorkerState N → Heartbeat N → ℤ → WorkerState N
  heard worker hb now = record worker {
    last_heartbeat = now;
    is_active = true;
    latest_cpu = hb.cpu_usage;
    latest_memory = hb.memory_usage;
    latest_gpu = hb.gpu_usage;
    task_count = length hb.running_tasks;
  }

  abbrev pub is_silent : WorkerState N → ℤ → Bool
  is_silent worker now = ltb_ℤ heartbeat_timeout (now -ℤ worker.last_heartbeat)

  abbrev pub expire : ℤ → WorkerState N → WorkerState N
  expire now worker =
      if worker.is_active && ltb_ℤ (pos 0) worker.last_heartbeat
      then (if is_silent worker now then record worker { is_active = false } else worker)
      else worker

  -- GetWorkers: copies, each with its activity judged by the clock
  abbrev judged : ℤ → WorkerState N → WorkerState N
  judged now worker =
      if ltb_ℤ (pos 0) worker.last_heartbeat
      then (if is_silent worker now then record worker { is_active = false } else worker)
      else worker

module _ {N : Type 0} ⦃f : Float N⦄ {S : Type 0} where
  abbrev pub set_worker : MasterServer N S → String → WorkerState N → MasterServer N S
  set_worker s id worker = record s { workers = insert id worker s.workers }

  -- ManualRegisterWorker; the reply `none` is a nil error.
  unfoldable pub manual_register_worker :
      MasterServer N S → Answers N → String → String → Outcome (Option RegistryError) N S
  manual_register_worker s a id ip = elim (lookup id s.workers) [
    | some _ ↦ (some already_registered, s, [])
    | none ↦
        let done = set_worker s id (minimal_worker id ip) in
        let call = register_worker_doc id ip ∷ [] in
        if s.parts.worker_db
        then elim a.worker_exists [
          | none ↦ (some check_failed, s, [])
          | some exists ↦
              if exists
              then (some already_in_database, s, [])
              else if a.register_worker_ok
              then (none, done, call)
              else (some insert_failed, s, call)
        ]
        else (none, done, [])
  ]

  -- UpdateWorkerResourcesInMemory
  unfoldable pub update_worker_resources_in_memory :
      MasterServer N S → String → Resources N → MasterServer N S
  update_worker_resources_in_memory s id total = elim (lookup id s.workers) [
    | none ↦ s
    | some worker ↦ set_worker s id (record worker {
      info = record worker.info { total = total };
      available = sub_resources total worker.allocated;
      is_active = true;
    })
  ]

  -- UnregisterWorker
  unfoldable pub unregister_worker :
      MasterServer N S → Answers N → String → Outcome (Option RegistryError) N S
  unregister_worker s a id = elim (lookup id s.workers) [
    | none ↦ (some not_found, s, [])
    | some _ ↦
        let call = when s.parts.worker_db (unregister_worker_doc id ∷ []) in
        if s.parts.worker_db && not a.unregister_worker_ok then (some delete_failed, s, call) else (
          none,
          record s { workers = delete id s.workers },
          call ++ when s.parts.telemetry_manager (telemetry_unregister id ∷ []),
        )
  ]

  -- The accounts of a worker that connects: reconciled with the database if it was not active or
  -- never told its capacity, else kept.
  unfoldable pub connect :
      MasterServer N S
      → Answers N
      → WorkerState N
      → WorkerInfo N
      → ℤ
      → WorkerState N × List (Call N)
  connect s a existing info now =
      let is_new_connection = eq existing.info.total.cpu zero || not existing.is_active in
      let worker = connected existing info now in
      if is_new_connection
      then reconcile_single_worker s a info.worker_id
          (record worker { allocated = no_resources; available = info.total })
      else (record worker { available = sub_resources info.total worker.allocated }, [])

  -- RegisterWorker; the reply says whether the worker was accepted.
  unfoldable pub register_worker :
      MasterServer N S → Answers N → WorkerInfo N → ℤ → Outcome Bool N S
  unfolding connect
  register_worker s a info now = elim (lookup info.worker_id s.workers) [
    | none ↦ (false, s, [])
    | some existing ↦
        let worker = connected existing info now in
        let (done, calls) = connect s a existing info now in
        (
          true,
          set_worker s info.worker_id done,
          calls
              ++ when s.parts.worker_db (update_worker_info worker.info ∷ [])
              ++ when s.parts.telemetry_manager (telemetry_register info.worker_id ∷ []),
        )
  ]

  -- SendHeartbeat; the reply says whether the worker is known.
  unfoldable pub send_heartbeat : MasterServer N S → Heartbeat N → ℤ → Outcome Bool N S
  send_heartbeat s hb now = elim (lookup hb.worker_id s.workers) [
    | none ↦ (false, s, [])
    | some worker ↦ (
      true,
      set_worker s hb.worker_id (heard worker hb now),
      when s.parts.worker_db (update_heartbeat hb.worker_id now ∷ [])
          ++ when s.parts.telemetry_manager (telemetry_heartbeat hb ∷ []),
    )
  ]

  -- checkAndMarkInactiveWorkers
  unfoldable pub check_and_mark_inactive_workers : MasterServer N S → ℤ → MasterServer N S
  check_and_mark_inactive_workers s now = record s {
    workers = map_values (λ _ worker. expire now worker) s.workers;
  }

  unfoldable pub get_workers : MasterServer N S → ℤ → Dict (WorkerState N)
  get_workers s now = map_values (λ _ worker. judged now worker) s.workers
