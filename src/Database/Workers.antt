-- ===== src/Database/Workers.antt =====
-- master/internal/db/workers.go: the collection WORKER_REGISTRY. Each method is given whether its call
-- of the driver succeeds, and returns its error, if any, and the collection after it.
use agentic_cloud_cluster.Base.{
  String, Bool, true, false, Option, none, some, List, [], ◌∷◌, if◌then◌else◌, ℤ, pos,
}
use agentic_cloud_cluster.Float.{Float}
use agentic_cloud_cluster.Proto.{Resources, WorkerInfo}
use agentic_cloud_cluster.Database.Defs.{Collection}
use agentic_cloud_cluster.Server.State.{
  Call, register_worker_doc, unregister_worker_doc, update_worker_info, update_heartbeat,
  release_resources, allocate_resources, set_worker_resources, create_task, update_task_status,
  create_assignment, create_result, telemetry_register, telemetry_unregister, telemetry_heartbeat,
  rpc_assign_task, rpc_cancel_task, no_resources, add_resources, sub_resources,
}

-- WorkerDocument, without the two times that nothing reads
pub record WorkerRecord (N : Type 0) : Type 0 where
  pub worker_id : String
  pub worker_ip : String
  pub total : Resources N
  pub allocated : Resources N
  pub available : Resources N
  pub is_active : Bool
  pub last_heartbeat : ℤ

-- One field, or the four of one prefix, of an update: `$set` for the names in `set_`, `$inc` by the
-- amounts for `inc_`, and by the negated amounts for `dec_`.
pub data Change (N : Type 0) : Type 0 where
  set_ip : String → Change N
  set_total set_allocated set_available : Resources N → Change N
  set_active : Bool → Change N
  set_heartbeat : ℤ → Change N
  inc_allocated dec_allocated inc_available dec_available : Resources N → Change N

pub data DbError : Type 0 where
  driver_failed no_document already_there : DbError

module _ {N : Type 0} ⦃f : Float N⦄ where
  -- The documented effect of a change on a document.
  unfoldable pub applied_change : Change N → WorkerRecord N → WorkerRecord N
  applied_change (set_ip ip) d = record d { worker_ip = ip }
  applied_change (set_total r) d = record d { total = r }
  applied_change (set_allocated r) d = record d { allocated = r }
  applied_change (set_available r) d = record d { available = r }
  applied_change (set_active b) d = record d { is_active = b }
  applied_change (set_heartbeat t) d = record d { last_heartbeat = t }
  applied_change (inc_allocated r) d = record d { allocated = add_resources d.allocated r }
  applied_change (dec_allocated r) d = record d { allocated = sub_resources d.allocated r }
  applied_change (inc_available r) d = record d { available = add_resources d.available r }
  applied_change (dec_available r) d = record d { available = sub_resources d.available r }

  unfoldable pub applied : List (Change N) → WorkerRecord N → WorkerRecord N
  unfolding applied_change
  applied [] d = d
  applied (change ∷ rest) d = applied rest (applied_change change d)

  abbrev pub worker_id_of : WorkerRecord N → String
  worker_id_of d = d.worker_id

  abbrev fresh_record : String → String → WorkerRecord N
  fresh_record id ip = record {
    worker_id = id;
    worker_ip = ip;
    total = no_resources;
    allocated = no_resources;
    available = no_resources;
    is_active = false;
    last_heartbeat = pos 0;
  }

module _ {N : Type 0} ⦃f : Float N⦄ where
  -- The amounts that the worker has been given are kept, and what is available follows from them.
  abbrev pub info_changes : WorkerInfo N → WorkerRecord N → ℤ → List (Change N)
  info_changes info current now =
      set_ip info.worker_ip
      ∷ set_total info.total
      ∷ set_available (sub_resources info.total current.allocated)
      ∷ set_active true
      ∷ set_heartbeat now
      ∷ []

abbrev pub WorkerDb : (N C : Type 0) ⦃f : Float N⦄ → Type 0
WorkerDb N C = Collection C (WorkerRecord N) (List (Change N)) worker_id_of applied

module _ {N C : Type 0} ⦃f : Float N⦄ (db : WorkerDb N C) where
  -- the end of most methods: `result.MatchedCount == 0` is an error
  abbrev updated : C → Bool → String → List (Change N) → Option DbError × C
  updated c ok id changes =
      if ok
      then (
        elim (db.find_one c id) [ none ↦ some no_document | some _ ↦ none ],
        db.update_one c id changes,
      )
      else (some driver_failed, c)

  -- RegisterWorker
  unfoldable pub insert_worker : C → Bool → String → String → Option DbError × C
  insert_worker c ok id ip =
      if ok then (none, db.insert_one c (fresh_record id ip)) else (some driver_failed, c)

  -- UpdateWorkerInfo, at a time
  unfoldable pub set_worker_info : C → Bool → WorkerInfo N → ℤ → Option DbError × C
  set_worker_info c ok info now =
      if ok
      then elim (db.find_one c info.worker_id) [
        | none ↦ (some no_document, c)
        | some current ↦ updated c ok info.worker_id (info_changes info current now)
      ]
      else (some driver_failed, c)

  -- UpdateWorkerResources
  unfoldable pub update_worker_resources : C → Bool → String → Resources N → Option DbError × C
  update_worker_resources c ok id total =
      if ok
      then elim (db.find_one c id) [
        | none ↦ (some no_document, c)
        | some current ↦ updated c ok id (
            set_total total
            ∷ set_available (sub_resources total current.allocated)
            ∷ set_active true
            ∷ [])
      ]
      else (some driver_failed, c)

  -- UpdateHeartbeat: a worker that is not there is no error.
  unfoldable pub set_last_heartbeat : C → Bool → String → ℤ → Option DbError × C
  set_last_heartbeat c ok id now =
      if ok
      then (none, db.update_one c id (set_heartbeat now ∷ set_active true ∷ []))
      else (some driver_failed, c)

  -- UnregisterWorker
  unfoldable pub delete_worker : C → Bool → String → Option DbError × C
  delete_worker c ok id =
      if ok
      then (elim (db.find_one c id) [ none ↦ some no_document | some _ ↦ none ], db.delete_one c id)
      else (some driver_failed, c)

  -- GetWorker, and WorkerExists
  unfoldable pub get_worker : C → Bool → String → Option (Option (WorkerRecord N))
  get_worker c ok id = if ok then some (db.find_one c id) else none

  unfoldable pub worker_exists_in : C → Bool → String → Option Bool
  worker_exists_in c ok id =
      if ok then some (elim (db.find_one c id) [ none ↦ false | some _ ↦ true ]) else none

  -- AllocateResources and ReleaseResources
  unfoldable pub allocate_in_db : C → Bool → String → Resources N → Option DbError × C
  allocate_in_db c ok id r = updated c ok id (inc_allocated r ∷ dec_available r ∷ [])

  unfoldable pub release_in_db : C → Bool → String → Resources N → Option DbError × C
  release_in_db c ok id r = updated c ok id (dec_allocated r ∷ inc_available r ∷ [])

  -- SetWorkerResources
  unfoldable pub set_resources_in_db :
      C → Bool → String → Resources N → Resources N → Option DbError × C
  set_resources_in_db c ok id allocated available =
      updated c ok id (set_allocated allocated ∷ set_available available ∷ [])

  -- RegisterWorkerWithSpecs
  unfoldable pub insert_worker_with_specs : C → Bool → WorkerRecord N → Option DbError × C
  insert_worker_with_specs c ok worker =
      if ok
      then elim (db.find_one c worker.worker_id) [
        | some _ ↦ (some already_there, c)
        | none ↦ (none, db.insert_one c worker)
      ]
      else (some driver_failed, c)

  -- The collection after a call that the server makes, if the driver succeeds, at a time. The other
  -- calls go elsewhere.
  unfoldable pub perform : ℤ → C → Call N → C
  unfolding insert_worker delete_worker set_worker_info set_last_heartbeat release_in_db
      allocate_in_db set_resources_in_db
  perform now c (register_worker_doc id ip) = (insert_worker c true id ip).1
  perform now c (unregister_worker_doc id) = (delete_worker c true id).1
  perform now c (update_worker_info info) = (set_worker_info c true info now).1
  perform now c (update_heartbeat id t) = (set_last_heartbeat c true id t).1
  perform now c (release_resources id r) = (release_in_db c true id r).1
  perform now c (allocate_resources id r) = (allocate_in_db c true id r).1
  perform now c (set_worker_resources id allocated available) =
      (set_resources_in_db c true id allocated available).1
  perform now c (create_task task) = c
  perform now c (update_task_status task_id status) = c
  perform now c (create_assignment task_id id) = c
  perform now c (create_result task_id id status logs) = c
  perform now c (telemetry_register id) = c
  perform now c (telemetry_unregister id) = c
  perform now c (telemetry_heartbeat hb) = c
  perform now c (rpc_assign_task ip task) = c
  perform now c (rpc_cancel_task ip task_id) = c

  unfoldable pub perform_all : ℤ → C → List (Call N) → C
  unfolding perform
  perform_all now c [] = c
  perform_all now c (call ∷ rest) = perform_all now (perform now c call) rest
