-- ===== src/Database/Mirror/Connections.antt =====
-- The connection of a worker, RegisterWorker of master_server.go, against the collection of workers.
use agentic_cloud_cluster.Base.{
  String, ◌≡◌, refl, ap, ◌∙◌, true, false, Option, some, List, [], ◌∷◌, ◌++◌, ◌==◌, if◌then◌else◌,
  ℤ, arith, eq_iff, Option-cases, Bool-cases, inl, inr, not, ◌||◌,
}
use agentic_cloud_cluster.Float.{Float, eq, zero}
use agentic_cloud_cluster.Dict.{lookup, lookup-insert}
use agentic_cloud_cluster.Proto.{WorkerInfo}
use agentic_cloud_cluster.Database.Effects.{
  effects-append, insertion-append, effects, has_insertion,
}
use agentic_cloud_cluster.Server.State.{
  MasterServer, WorkerState, Answers, Call, TaskDoc, update_worker_info, telemetry_register, when,
}
use agentic_cloud_cluster.Server.Cancel.Order.{accounts, Accounts}
use agentic_cloud_cluster.Server.Reconcile.{reconcile_single_worker}
use agentic_cloud_cluster.Server.Registry.{
  register_worker, connect, connected, register_worker, connect, connected,
}
use agentic_cloud_cluster.Database.Mirror.{Follows, Follows-refl}

module _ {N : Type 0} where
  connected_total :
      (w : WorkerState N) (info : WorkerInfo N) (now : ℤ)
      → ((connected w info now).info.total ≡ info.total)
        × ((connected w info now).info.worker_id ≡ info.worker_id)
  connected_total w info now = (ground arith, ground arith)

module _ {N S : Type 0} ⦃f : Float N⦄ where
  -- The database can be asked for the running tasks and their workers.
  abbrev pub CanReconcile : MasterServer N S → Answers N → Type 0
  CanReconcile s a =
      (s.parts.task_db ≡ true)
      × (s.parts.assignment_db ≡ true)
      × ((tasks : List (TaskDoc N)) × (a.running ≡ some tasks))

  -- What the connection of a worker does to its own accounts, and to those of the others.
  connect_effect :
      (s : MasterServer N S) (a : Answers N) (w : WorkerState N) (info : WorkerInfo N) (now : ℤ)
      (j : String)
      → s.parts.worker_db ≡ true
      → CanReconcile s a
      → let (done, calls) = connect s a w info now in
        effects (calls ++ update_worker_info (connected w info now).info ∷ []) j (some (accounts w))
        ≡ (if info.worker_id == j then some (accounts done) else some (accounts w))
  unfolding connect reconcile_single_worker
  connect_effect s a w info now j has_db (tasks_there, assignments_there, (tasks, asked)) =
      let (size, name) = connected_total w info now in
      elim (Bool-cases (eq w.info.total.cpu zero || not w.is_active)) [
        | inl new ↦ ground (arith, new, has_db, tasks_there, assignments_there, asked, size, name)
        | inr known ↦ ground (arith, known, size, name)
      ]

  connect_others :
      (s : MasterServer N S) (a : Answers N) (w : WorkerState N) (info : WorkerInfo N) (now : ℤ)
      (j : String) (o : Option (Accounts N))
      → (info.worker_id == j) ≡ false
      → effects
          ((connect s a w info now).1 ++ update_worker_info (connected w info now).info ∷ [])
          j
          o
        ≡ o
  unfolding connect reconcile_single_worker
  connect_others s a w info now j o other = ground (arith, other, (connected_total w info now).1)

  -- the calls of RegisterWorker, behind those of the reconciliation
  abbrev tail_calls : MasterServer N S → List (Call N) → WorkerInfo N → String → List (Call N)
  tail_calls s calls info id =
      calls
      ++ when s.parts.worker_db (update_worker_info info ∷ [])
      ++ when s.parts.telemetry_manager (telemetry_register id ∷ [])

  tail_effect :
      (s : MasterServer N S) (calls : List (Call N)) (info : WorkerInfo N) (id j : String)
      (o : Option (Accounts N))
      → s.parts.worker_db ≡ true
      → effects (tail_calls s calls info id) j o
        ≡ effects (calls ++ update_worker_info info ∷ []) j o
  tail_effect s calls info id j o has_db =
      let update : List (Call N) = when s.parts.worker_db (update_worker_info info ∷ []) in
      let telling : List (Call N) = when s.parts.telemetry_manager (telemetry_register id ∷ []) in
      let o' = effects (calls ++ update) j o in
      let silent : effects telling j o' ≡ o' = ground arith in
      let here : update ≡ update_worker_info info ∷ [] = ground (arith, has_db) in
      effects-append (calls ++ update) telling j o
      ∙ silent
      ∙ ap (λ u. effects (calls ++ u) j o) here

  connect_quiet :
      (s : MasterServer N S) (a : Answers N) (w : WorkerState N) (info : WorkerInfo N) (now : ℤ)
      → has_insertion (connect s a w info now).1 ≡ false
  unfolding connect reconcile_single_worker
  connect_quiet s a w info now = ground arith

  tail_quiet :
      (s : MasterServer N S) (calls : List (Call N)) (info : WorkerInfo N) (id : String)
      → has_insertion calls ≡ false
      → has_insertion (tail_calls s calls info id) ≡ false
  tail_quiet s calls info id quiet =
      let update : List (Call N) = when s.parts.worker_db (update_worker_info info ∷ []) in
      let telling : List (Call N) = when s.parts.telemetry_manager (telemetry_register id ∷ []) in
      let none_told : has_insertion telling ≡ false = ground arith in
      let none_updated : has_insertion update ≡ false = ground arith in
      ground (
        arith,
        quiet,
        none_told,
        none_updated,
        insertion-append calls update,
        insertion-append (calls ++ update) telling,
      )

  pub connect-Follows :
      (s : MasterServer N S) (a : Answers N) (info : WorkerInfo N) (now : ℤ)
      → s.parts.worker_db ≡ true
      → CanReconcile s a
      → Follows s (register_worker s a info now).1 (register_worker s a info now).2
  unfolding register_worker
  connect-Follows s a info now has_db known =
      elim (Option-cases (lookup info.worker_id s.workers)) [
        | inl gone ↦ rw (gone, register_worker) (Follows-refl s)
        | inr (w, there) ↦
            let (done, calls) = connect s a w info now in
            let new = (connected w info now).info in
            rw (there, register_worker)
              (record {
                quiet = tail_quiet s calls new info.worker_id (connect_quiet s a w info now);
                parts = refl;
                followed = λ j w' h.
                    let law = lookup-insert info.worker_id j done s.workers in
                    let effect_at =
                      tail_effect s calls new info.worker_id j (some (accounts w)) has_db
                      ∙ connect_effect s a w info now j has_db known in
                    elim (Bool-cases (info.worker_id == j)) [
                      | inl same ↦ (
                        w,
                        ground (arith, same, there, eq_iff info.worker_id j),
                        ground (arith, same, effect_at, law, h),
                      )
                      | inr other ↦ (
                        w',
                        ground (arith, other, h, law),
                        tail_effect s calls new info.worker_id j (some (accounts w')) has_db
                            ∙ connect_others s a w info now j (some (accounts w')) other,
                      )
                    ];
              })
      ]
