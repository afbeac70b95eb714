-- ===== src/Database/Effects.antt =====
-- What the calls of master/internal/server/master_server.go do to the accounts in the collection of
-- workers, master/internal/db/workers.go.
use agentic_cloud_cluster.Base.{
  Bool, true, false, ◌||◌, String, ◌≡◌, refl, ap, ◌∙◌, true, Option, none, List, [], ◌∷◌, ◌++◌,
  ◌==◌, if◌then◌else◌, ℤ, arith, eq_iff, Option-cases, Bool-cases, inl, inr,
}
use mathlib.Core.Option
use agentic_cloud_cluster.Float.{Float}
use agentic_cloud_cluster.Proto.{Resources, WorkerInfo}
use agentic_cloud_cluster.Database.Workers.{
  info_changes, Change, set_allocated, set_available, set_active, set_heartbeat, inc_allocated,
  dec_allocated, inc_available, dec_available, WorkerRecord, WorkerDb, perform, perform_all,
  applied, applied_change, set_worker_info, set_last_heartbeat, release_in_db, allocate_in_db,
  set_resources_in_db, delete_worker,
}
use agentic_cloud_cluster.Server.State.{
  Call, register_worker_doc, unregister_worker_doc, update_worker_info, update_heartbeat,
  release_resources, allocate_resources, set_worker_resources, create_task, update_task_status,
  create_assignment, create_result, telemetry_register, telemetry_unregister, telemetry_heartbeat,
  rpc_assign_task, rpc_cancel_task, add_resources, sub_resources,
}
use agentic_cloud_cluster.Server.Cancel.Order.{Accounts}

module _ {N : Type 0} ⦃f : Float N⦄ where
  abbrev pub recorded : WorkerRecord N → Accounts N
  recorded d = (d.allocated, d.available)

  abbrev pub taken : Resources N → Accounts N → Accounts N
  taken r (allocated, available) = (add_resources allocated r, sub_resources available r)

  abbrev pub given_back : Resources N → Accounts N → Accounts N
  given_back r (allocated, available) = (sub_resources allocated r, add_resources available r)

  abbrev pub resized : Resources N → Accounts N → Accounts N
  resized total (allocated, available) = (allocated, sub_resources total allocated)

  -- What a call does to the recorded accounts of the worker `j`.
  abbrev pub effect : Call N → String → Option (Accounts N) → Option (Accounts N)
  effect (register_worker_doc id ip) j o = o
  effect (unregister_worker_doc id) j o = if id == j then none else o
  effect (update_worker_info info) j o =
      if info.worker_id == j then Option.map (resized info.total) o else o
  effect (update_heartbeat id t) j o = o
  effect (release_resources id r) j o = if id == j then Option.map (given_back r) o else o
  effect (allocate_resources id r) j o = if id == j then Option.map (taken r) o else o
  effect (set_worker_resources id allocated available) j o =
      if id == j then Option.map (λ _. (allocated, available)) o else o
  effect (create_task task) j o = o
  effect (update_task_status task_id status) j o = o
  effect (create_assignment task_id id) j o = o
  effect (create_result task_id id status logs) j o = o
  effect (telemetry_register id) j o = o
  effect (telemetry_unregister id) j o = o
  effect (telemetry_heartbeat hb) j o = o
  effect (rpc_assign_task ip task) j o = o
  effect (rpc_cancel_task ip task_id) j o = o

  abbrev pub effects : List (Call N) → String → Option (Accounts N) → Option (Accounts N)
  effects [] j o = o
  effects (call ∷ rest) j o = effects rest j (effect call j o)

  -- whether a call adds a document
  abbrev pub is_insertion : Call N → Bool
  is_insertion (register_worker_doc id ip) = true
  is_insertion call = false

  abbrev pub has_insertion : List (Call N) → Bool
  has_insertion [] = false
  has_insertion (call ∷ rest) = is_insertion call || has_insertion rest

module _ {N : Type 0} ⦃f : Float N⦄ where
  pub effects-append :
      (xs ys : List (Call N)) (j : String) (o : Option (Accounts N))
      → effects (xs ++ ys) j o ≡ effects ys j (effects xs j o)
  effects-append [] ys j o = refl
  effects-append (x ∷ xs) ys j o = effects-append xs ys j (effect x j o)

  pub insertion-append :
      (xs ys : List (Call N)) → has_insertion (xs ++ ys) ≡ (has_insertion xs || has_insertion ys)
  insertion-append [] ys = refl
  insertion-append (x ∷ xs) ys = ground (arith, insertion-append xs ys)

module _ {N C : Type 0} ⦃f : Float N⦄ (db : WorkerDb N C) where
  abbrev pub recorded_at : C → String → Option (Accounts N)
  recorded_at c j = Option.map recorded (db.find_one c j)

module _ {N C : Type 0} ⦃f : Float N⦄ (db : WorkerDb N C) (now : ℤ) where
  update-recorded :
      (c : C) (id j : String) (u : List (Change N)) (g : Accounts N → Accounts N)
      → ((d : WorkerRecord N) → recorded (applied u d) ≡ g (recorded d))
      → recorded_at db (db.update_one c id u) j
        ≡ (if id == j then Option.map g (recorded_at db c j) else recorded_at db c j)
  update-recorded c id j u g h = elim (Bool-cases (id == j)) [
    | inr other ↦ ground (arith, other, db.find-update c id j u)
    | inl same ↦ elim (Option-cases (db.find_one c j)) [
      | inl gone ↦ ground (arith, same, gone, db.find-update c id j u)
      | inr (d, there) ↦ ground (arith, same, there, h d, db.find-update c id j u)
    ]
  ]

  info-recorded :
      (c : C) (info : WorkerInfo N) (j : String)
      → recorded_at db (set_worker_info db c true info now).1 j ≡ (
          if info.worker_id == j
          then Option.map (resized info.total) (recorded_at db c j)
          else recorded_at db c j)
  unfolding set_worker_info applied applied_change
  info-recorded c info j = elim (Option-cases (db.find_one c info.worker_id)) [
    | inl gone ↦ ground (arith, gone, eq_iff info.worker_id j)
    | inr (d, there) ↦
        let law = db.find-update c info.worker_id j (info_changes info d now) in
        elim (Bool-cases (info.worker_id == j)) [
          | inr other ↦ ground (arith, there, other, law)
          | inl same ↦ ground (arith, there, same, law, eq_iff info.worker_id j)
        ]
  ]

  perform-effect :
      (c : C) (call : Call N) (j : String)
      → is_insertion call ≡ false
      → recorded_at db (perform db now c call) j ≡ effect call j (recorded_at db c j)
  unfolding perform applied applied_change set_worker_info set_last_heartbeat release_in_db
      allocate_in_db set_resources_in_db delete_worker
  perform-effect c (register_worker_doc id ip) j h = absurd (cc)
  perform-effect c (unregister_worker_doc id) j h = ground (arith, db.find-delete c id j)
  perform-effect c (update_worker_info info) j h = info-recorded c info j
  perform-effect c (update_heartbeat id t) j h = ground (
    arith,
    Option-cases (db.find_one c j),
    db.find-update c id j (set_heartbeat t ∷ set_active true ∷ []),
  )
  perform-effect c (release_resources id r) j h =
      update-recorded c id j (dec_allocated r ∷ inc_available r ∷ []) (given_back r) (λ d. refl)
  perform-effect c (allocate_resources id r) j h =
      update-recorded c id j (inc_allocated r ∷ dec_available r ∷ []) (taken r) (λ d. refl)
  perform-effect c (set_worker_resources id allocated available) j h =
      update-recorded c id j (set_allocated allocated ∷ set_available available ∷ [])
        (λ _. (allocated, available)) (λ d. refl)
  perform-effect c (create_task task) j h = refl
  perform-effect c (update_task_status task_id status) j h = refl
  perform-effect c (create_assignment task_id id) j h = refl
  perform-effect c (create_result task_id id status logs) j h = refl
  perform-effect c (telemetry_register id) j h = refl
  perform-effect c (telemetry_unregister id) j h = refl
  perform-effect c (telemetry_heartbeat hb) j h = refl
  perform-effect c (rpc_assign_task ip task) j h = refl
  perform-effect c (rpc_cancel_task ip task_id) j h = refl

  pub perform_all-effects :
      (c : C) (calls : List (Call N)) (j : String)
      → has_insertion calls ≡ false
      → recorded_at db (perform_all db now c calls) j ≡ effects calls j (recorded_at db c j)
  unfolding perform_all
  perform_all-effects c [] j h = refl
  perform_all-effects c (call ∷ rest) j h =
      let now_none : is_insertion call ≡ false = ground arith in
      let later_none : has_insertion rest ≡ false = ground arith in
      perform_all-effects (perform db now c call) rest j later_none
      ∙ ap (effects rest j) (perform-effect c call j now_none)
