-- ===== src/Server/Events/Registered.antt =====
-- Only the administrator brings a worker in: a theorem about every history of master_server.go.
use agentic_cloud_cluster.Base.{
  String, ◌≡◌, refl, ◌∙◌, ◌⊎◌, inl, inr, Bool, true, false, none, some, List, [], ◌∷◌, ◌==◌, arith,
  eq_iff, Bool-cases, Option-cases, All,
}
use agentic_cloud_cluster.Float.{Float}
use agentic_cloud_cluster.Dict.{Dict, lookup, insert, lookup-insert}
use agentic_cloud_cluster.Server.State.{MasterServer, WorkerState, Scheduler, Answers}
use agentic_cloud_cluster.Server.Evolution.{Evolves, Evolves-refl, worker_name, Entry}
use agentic_cloud_cluster.Server.Registry.{manual_register_worker, minimal_worker}
use agentic_cloud_cluster.Server.Events.{
  Event, registers, configures, unregisters, dispatches, connects, beats, reports, submits, cancels,
  ages, reconciles, schedules, step, run,
}
use agentic_cloud_cluster.Server.Events.Handlers.{
  configure-Evolves, unregister-Evolves, connect-Evolves, beat-Evolves, age-Evolves, report-Evolves,
  submit-Evolves, dispatch-Evolves, cancel-Evolves, reconcile-Evolves, process-Evolves,
}

module _ {N : Type 0} where
  -- whether an event is a registration of `id` by the administrator
  unfoldable pub brings : String → Event N → Bool
  brings id (registers a id' ip) = id' == id
  brings id e = false

  unfoldable pub IsNamed : {S : Type 0} → MasterServer N S → Type 0
  IsNamed s = (id : String) (w : WorkerState N) → lookup id s.workers ≡ some w → worker_name w ≡ id

  stays_absent :
      (m m' : Dict (WorkerState N)) (id : String)
      → Entry id m m'
      → lookup id m ≡ none
      → lookup id m' ≡ none
  stays_absent m m' id (inl e) absent = e
  stays_absent m m' id (inr (w, w', before, after, named)) absent = absurd (cc)

  keeps_name :
      (m m' : Dict (WorkerState N)) (id : String)
      → Entry id m m'
      → ((w : WorkerState N) → lookup id m ≡ some w → worker_name w ≡ id)
      → (w : WorkerState N) → lookup id m' ≡ some w
      → worker_name w ≡ id
  keeps_name m m' id (inl e) named w there = absurd (cc)
  keeps_name m m' id (inr (v, v', before, after, same)) named w there =
      ground (arith, named v before)

module _ {N S : Type 0} ⦃f : Float N⦄ where
  -- An event changes and drops entries, or is a registration that adds one.
  Step : MasterServer N S → MasterServer N S → Event N → Type 0
  Step s s' e =
      Evolves s.workers s'.workers
      ⊎ ((id : String) × (ip : String) × (brings id e ≡ true)
          × (s'.workers ≡ insert id (minimal_worker id ip) s.workers))

  register_new :
      (s : MasterServer N S) (a : Answers N) (id ip : String)
      → lookup id s.workers ≡ none
      → ((manual_register_worker s a id ip).1.workers ≡ s.workers)
        ⊎ ((manual_register_worker s a id ip).1.workers
            ≡ insert id (minimal_worker id ip) s.workers)
  unfolding manual_register_worker
  register_new s a id ip e = ground (arith, e)

  register-Step :
      (s : MasterServer N S) (a : Answers N) (id ip : String)
      → Step s (manual_register_worker s a id ip).1 (registers a id ip)
  unfolding manual_register_worker Step brings
  register-Step s a id ip = elim (Option-cases (lookup id s.workers)) [
    | inr (w, e) ↦ inl (rw (e, manual_register_worker) (Evolves-refl s.workers))
    | inl e ↦ elim (register_new s a id ip e) [
      | inl same ↦ inl (rw same (Evolves-refl s.workers))
      | inr grown ↦ inr (id, ip, (eq_iff id id).1 refl, grown)
    ]
  ]

module _ {N S : Type 0} ⦃f : Float N⦄ (sched : Scheduler N S) where
  step-Step : (s : MasterServer N S) (e : Event N) → Step s (step sched s e) e
  unfolding step Step
  step-Step s (registers a id ip) = register-Step s a id ip
  step-Step s (configures id total) = inl (configure-Evolves s id total)
  step-Step s (unregisters a id) = inl (unregister-Evolves s a id)
  step-Step s (dispatches a task id) = inl (dispatch-Evolves s a task id)
  step-Step s (connects a info now) = inl (connect-Evolves s a info now)
  step-Step s (beats hb now) = inl (beat-Evolves s hb now)
  step-Step s (reports a result) = inl (report-Evolves s a result)
  step-Step s (submits task now) = inl (submit-Evolves s task now)
  step-Step s (cancels a task_id) = inl (cancel-Evolves s a task_id)
  step-Step s (ages now) = inl (age-Evolves s now)
  step-Step s (reconciles a) = inl (reconcile-Evolves s a)
  step-Step s (schedules a) = inl (process-Evolves sched s a)

  step-unknown :
      (id : String) (s : MasterServer N S) (e : Event N)
      → lookup id s.workers ≡ none
      → brings id e ≡ false
      → lookup id (step sched s e).workers ≡ none
  unfolding Step
  step-unknown id s e absent quiet = elim (step-Step s e) [
    | inl h ↦ stays_absent _ _ id (h.entry id) absent
    | inr (id', ip, added, grown) ↦ elim (Bool-cases (id' == id)) [
      | inl same ↦ absurd (cc (added, quiet, (eq_iff id' id).0 same))
      | inr other ↦
          rw grown
            (lookup-insert id' id (minimal_worker id' ip) s.workers ∙ ground (arith, other, absent))
    ]
  ]

  -- A worker that is not registered stays so through every history of the server in which the
  -- administrator does not register it: whatever else happens, in whatever order and with whatever
  -- answers from outside, the map has no entry for it.
  pub run-unknown :
      (id : String) (s : MasterServer N S) (es : List (Event N))
      → lookup id s.workers ≡ none
      → All (λ e. brings id e ≡ false) es
      → lookup id (run sched s es).workers ≡ none
  unfolding run
  run-unknown id s [] absent quiet = absent
  run-unknown id s (e ∷ es) absent (q, quiet) =
      run-unknown id (step sched s e) es (step-unknown id s e absent q) quiet

  step-IsNamed : (s : MasterServer N S) (e : Event N) → IsNamed s → IsNamed (step sched s e)
  unfolding Step IsNamed
  step-IsNamed s e named id w there = elim (step-Step s e) [
    | inl h ↦ keeps_name _ _ id (h.entry id) (named id) w there
    | inr (id', ip, added, grown) ↦ elim (Bool-cases (id' == id)) [
      | inl same ↦ ground (
        arith,
        same,
        eq_iff id' id,
        grown,
        there,
        lookup-insert id' id (minimal_worker id' ip) s.workers,
      )
      | inr other ↦ named id w (
          ground
            (arith, other, grown, there, lookup-insert id' id (minimal_worker id' ip) s.workers))
    ]
  ]

  -- Every entry of the map of workers is a worker of the name it stands under: if that holds before
  -- a history of the server, it holds after it.
  pub run-IsNamed :
      (s : MasterServer N S) (es : List (Event N)) → IsNamed s → IsNamed (run sched s es)
  unfolding run
  run-IsNamed s [] named = named
  run-IsNamed s (e ∷ es) named = run-IsNamed (step sched s e) es (step-IsNamed s e named)
