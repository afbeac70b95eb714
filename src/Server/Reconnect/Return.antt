-- ===== src/Server/Reconnect/Return.antt =====
-- How a worker that has gone silent comes back: the monitor of the master (master_server.go), the
-- registration that the worker then starts (worker_server.go), and its reception at the master.
use agentic_cloud_cluster.Base.{
  String, ◌≡◌, ◌≢◌, ap, ◌∙◌, refl, sym, subst, Bool, not, ◌&&◌, true, false, some, List, [], ◌∷◌,
  ◌==◌, ℤ, arith, eq_iff, Bool-cases, Option-cases, inl, inr, if◌then◌else◌,
}
use mathlib.Core.Logic.Or
use mathlib.Core.List.{Mem, mem-cons, mem-map_of_mem}
use agentic_cloud_cluster.Float.{Float}
use agentic_cloud_cluster.Dict.{Dict, lookup, lookup-insert, lookup-map_values}
use agentic_cloud_cluster.Proto.{WorkerInfo}
use agentic_cloud_cluster.Server.State.{MasterServer, WorkerState}
use agentic_cloud_cluster.Server.State as State
use agentic_cloud_cluster.Server.Registry.{
  expire, register_worker, check_and_mark_inactive_workers, connect,
}
use agentic_cloud_cluster.Server.Reconcile.{reconcile_single_worker}
use agentic_cloud_cluster.Server.Reconnect.{
  contact_of, collect_inactive_workers, attempt_worker_reconnections, monitor_tick,
}
use agentic_cloud_cluster.Worker.Server.{
  Answers, WorkerServer, registering, registration, master_register,
}
use agentic_cloud_cluster.Worker.Goroutines.{advance, register_with_master, default_resources}

mem_kept :
    {A : Type 0} (b : Bool) (x : A) {y : A} {xs : List A}
    → Mem y xs
    → Mem y (if b then x ∷ xs else xs)
mem_kept true x h = mem-cons.1 (Or.inr h)
mem_kept false x h = h

module _ {N : Type 0} where
  inactive-Mem :
      (id : String) (w : WorkerState N) (m : Dict (WorkerState N))
      → lookup id m ≡ some w
      → w.is_active ≡ false
      → (w.info.worker_ip == "") ≡ false
      → Mem (id, w.info.worker_ip) (collect_inactive_workers m)
  unfolding lookup collect_inactive_workers
  inactive-Mem id w [] there off known = absurd (cc)
  inactive-Mem id w ((j, v) ∷ m) there off known = elim (Bool-cases (j == id)) [
    | inl same ↦
        let here : w ≡ v = ground (arith, same, there) in
        let name : id ≡ j = sym ((eq_iff j id).0 same) in
        rw (← here, ← name, off, known) (mem-cons.1 (Or.inl refl))
    | inr other ↦
        mem_kept (not v.is_active && not (v.info.worker_ip == "")) (j, v.info.worker_ip)
          (inactive-Mem id w m (ground (arith, other, there)) off known)
  ]

module _ {N S : Type 0} ⦃f : Float N⦄ where
  -- A worker that is registered is active after it has connected.
  register-IsActive :
      (s : MasterServer N S) (a : State.Answers N) (info : WorkerInfo N) (w : WorkerState N)
      (now : ℤ)
      → lookup info.worker_id s.workers ≡ some w
      → let (accepted, s', calls) = register_worker s a info now in
        (accepted ≡ true)
        × ((w' : WorkerState N) × (lookup info.worker_id s'.workers ≡ some w')
            × (w'.is_active ≡ true)
            × (w'.last_heartbeat ≡ now))
  unfolding register_worker connect reconcile_single_worker
  register-IsActive s a info w now there =
      let done = (connect s a w info now).0 in
      (
        ground (arith, there),
        (
          done,
          ground (
            arith,
            there,
            lookup-insert info.worker_id info.worker_id done s.workers,
            eq_iff info.worker_id info.worker_id,
          ),
          ground (arith, there),
          ground (arith, there),
        ),
      )

  tick-Mem :
      (s : MasterServer N S) (id : String) (w : WorkerState N) (now : ℤ)
      → lookup id s.workers ≡ some w
      → (expire now w).is_active ≡ false
      → w.info.worker_ip ≢ ""
      → Mem (contact_of s (id, w.info.worker_ip)) (monitor_tick s now).1
  unfolding monitor_tick check_and_mark_inactive_workers attempt_worker_reconnections
  tick-Mem s id w now there off known =
      let aged : Dict (WorkerState N) = (check_and_mark_inactive_workers s now).workers in
      let same_ip : (expire now w).info.worker_ip ≡ w.info.worker_ip = ground arith in
      let listed : Mem (id, (expire now w).info.worker_ip) (collect_inactive_workers aged) =
        inactive-Mem id (expire now w) aged
          (ground (arith, there, lookup-map_values (λ _ v. expire now v) id s.workers)) off
          (ground (arith, known, same_ip, eq_iff (expire now w).info.worker_ip "")) in
      subst (λ ip. Mem (contact_of s (id, ip)) (monitor_tick s now).1) same_ip
        (mem-map_of_mem (contact_of s) listed)

module _ {N : Type 0} ⦃f : Float N⦄ (to_int64 : N → ℤ) where
  -- The registration that a worker sends carries its name.
  registering-sends :
      (ws : WorkerServer N) (a : Answers N)
      → ws.master_addr ≢ ""
      → a.dial_ok ≡ true
      → (info : WorkerInfo N) × (info.worker_id ≡ ws.worker_id)
        × ((advance to_int64 ws registering a).2 ≡ registration info ∷ [])
  unfolding advance register_with_master
  registering-sends ws a address dials =
      let reachable = eq_iff ws.master_addr "" in
      elim (Option-cases a.system_resources) [
        | inl e ↦ (
          record { worker_id = ws.worker_id; worker_ip = ""; total = default_resources to_int64 },
          refl,
          ground (arith, e, reachable),
        )
        | inr (total, e) ↦ (
          record { worker_id = ws.worker_id; worker_ip = ""; total = total },
          refl,
          ground (arith, e, reachable),
        )
      ]

module _ {N S : Type 0} ⦃f : Float N⦄ (to_int64 : N → ℤ) where
  -- A registered worker that has gone silent or is not active comes back, if it can be reached: the
  -- next tick of the monitor calls it at its address; the call makes the worker server of that name
  -- start a registration, which sends the master a message of that name, whatever the worker has
  -- done before; and the master accepts it and has the worker active again, whatever it has done in
  -- between, as long as the worker is still registered.
  pub monitor_tick-returns :
      (s s₁ : MasterServer N S) (ws : WorkerServer N) (a : Answers N) (b : State.Answers N)
      (id : String) (w w₁ : WorkerState N) (now later : ℤ)
      → lookup id s.workers ≡ some w
      → (expire now w).is_active ≡ false
      → w.info.worker_ip ≢ ""
      → s.master_address ≢ ""
      → ws.worker_id ≡ id
      → a.dial_ok ≡ true
      → lookup id s₁.workers ≡ some w₁
      → let contact = contact_of s (id, w.info.worker_ip) in
        let called = master_register ws contact.master_address in
        let (left, ws', messages) = advance to_int64 called registering a in
        Mem contact (monitor_tick s now).1
        × Mem registering called.goroutines
        × ((info : WorkerInfo N) × (messages ≡ registration info ∷ [])
            × (let (accepted, s', calls) = register_worker s₁ b info later in
                (accepted ≡ true)
                × ((w' : WorkerState N) × (lookup id s'.workers ≡ some w')
                    × (w'.is_active ≡ true)
                    × (w'.last_heartbeat ≡ later))))
  unfolding master_register
  monitor_tick-returns s s₁ ws a b id w w₁ now later there off known address name dials there₁ =
      let called = master_register ws s.master_address in
      let (info, named, sent) = registering-sends to_int64 called a address dials in
      let asked : lookup info.worker_id s₁.workers ≡ some w₁ =
        ap (λ j. lookup j s₁.workers) (named ∙ name) ∙ there₁ in
      let (accepted, (w', there', active, at)) = register-IsActive s₁ b info w₁ later asked in
      (
        tick-Mem s id w now there off known,
        mem-cons.1 (Or.inl refl),
        (
          info,
          sent,
          (
            accepted,
            (
              w',
              ap (λ j. lookup j (register_worker s₁ b info later).1.workers) (sym (named ∙ name))
                  ∙ there',
              active,
              at,
            ),
          ),
        ),
      )
