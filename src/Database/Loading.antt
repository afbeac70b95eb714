-- ===== src/Database/Loading.antt =====
-- LoadWorkersFromDB of master/internal/server/master_server.go: at the start the server takes its
-- workers from the collection of master/internal/db/workers.go.
use agentic_cloud_cluster.Base.{
  String, ◌≡◌, refl, sym, ap, ◌∙◌, ◌⊎◌, Bool, true, false, Option, none, some, List, [], ◌∷◌, ◌==◌,
  ◌||◌, All, arith, eq_iff, Bool-cases, Option-cases, inl, inr, if◌then◌else◌,
}
use mathlib.Core.Option
use agentic_cloud_cluster.Float.{Float, zero}
use agentic_cloud_cluster.Dict.{Dict, lookup, insert, lookup-insert, lookup-map_values}
use agentic_cloud_cluster.Database.Workers.{WorkerRecord, WorkerDb}
use agentic_cloud_cluster.Server.State.{MasterServer, WorkerState, Answers, Outcome, TaskDoc}
use agentic_cloud_cluster.Server.Reconcile.{
  usage_of, usage_in, no_usage, actual_allocations, fix_worker, reconcile_worker_resources,
}
use agentic_cloud_cluster.Server.Reconcile.Books.{tasks_of, IsReconciled, fix-IsReconciled}
use agentic_cloud_cluster.Server.Reconcile.Sums.{actual_allocations-usage_of}

module _ {N : Type 0} ⦃f : Float N⦄ where
  -- the WorkerState that is made of a document
  abbrev pub state_of : WorkerRecord N → WorkerState N
  state_of d = record {
    info = record { worker_id = d.worker_id; worker_ip = d.worker_ip; total = d.total };
    last_heartbeat = d.last_heartbeat;
    is_active = d.is_active;
    running_tasks = [];
    latest_cpu = zero;
    latest_memory = zero;
    latest_gpu = zero;
    task_count = 0;
    allocated = d.allocated;
    available = d.available;
  }

  -- the loop over the documents
  unfoldable pub load_all : List (WorkerRecord N) → Dict (WorkerState N) → Dict (WorkerState N)
  load_all [] m = m
  load_all (d ∷ ds) m = load_all ds (insert d.worker_id (state_of d) m)

  -- LoadWorkersFromDB, with the answer of GetAllWorkers; the reply `false` is an error.
  unfoldable pub load_workers_from_db :
      {S : Type 0}
      → MasterServer N S
      → Answers N
      → Option (List (WorkerRecord N))
      → Outcome Bool N S
  unfolding load_all
  load_workers_from_db s a found =
      if s.parts.worker_db
      then elim found [
        | none ↦ (false, s, [])
        | some documents ↦
            let loaded = record s { workers = load_all documents s.workers } in
            let (_, s', calls) = reconcile_worker_resources loaded a in (true, s', calls)
      ]
      else (true, s, [])

  abbrev pub has_name : String → List (WorkerRecord N) → Bool
  has_name j [] = false
  has_name j (d ∷ ds) = d.worker_id == j || has_name j ds

  load-lookup :
      (ds : List (WorkerRecord N)) (m : Dict (WorkerState N)) (j : String)
      (o : Option (WorkerRecord N))
      → All (λ d. d.worker_id ≡ j → o ≡ some d) ds
      → (has_name j ds ≡ false → lookup j m ≡ Option.map state_of o)
      → lookup j (load_all ds m) ≡ Option.map state_of o
  unfolding load_all
  load-lookup [] m j o held before = before refl
  load-lookup (d ∷ ds) m j o held before =
      load-lookup ds (insert d.worker_id (state_of d) m) j o held.1 (λ h.
        elim (Bool-cases (d.worker_id == j)) [
          | inl same ↦ ground (
            arith,
            same,
            held.0 ((eq_iff d.worker_id j).0 same),
            lookup-insert d.worker_id j (state_of d) m,
          )
          | inr other ↦ ground (arith, other, h, before, lookup-insert d.worker_id j (state_of d) m)
        ])

module _ {N : Type 0} ⦃f : Float N⦄ where
  -- The worker that a document describes: every field is the document's, and no task is running.
  pub record IsLoaded (d : WorkerRecord N) (w : WorkerState N) : Type 0 where
    pub worker_id : w.info.worker_id ≡ d.worker_id
    pub worker_ip : w.info.worker_ip ≡ d.worker_ip
    pub total : w.info.total ≡ d.total
    pub allocated : w.allocated ≡ d.allocated
    pub available : w.available ≡ d.available
    pub active : w.is_active ≡ d.is_active
    pub heartbeat : w.last_heartbeat ≡ d.last_heartbeat
    pub running : w.running_tasks ≡ []

  state_of-IsLoaded : (d : WorkerRecord N) → IsLoaded d (state_of d)
  state_of-IsLoaded d = record {
    worker_id = refl;
    worker_ip = refl;
    total = refl;
    allocated = refl;
    available = refl;
    active = refl;
    heartbeat = refl;
    running = refl;
  }

module _ {N C : Type 0} ⦃f : Float N⦄ (db : WorkerDb N C) where
  -- The answer of GetAllWorkers: all documents of the collection, and no others.
  abbrev pub ListsAll : C → List (WorkerRecord N) → Type 0
  ListsAll c ds =
      All (λ d. db.find_one c d.worker_id ≡ some d) ds
      × ((j : String) → has_name j ds ≡ false → db.find_one c j ≡ none)

  named_held :
      (c : C) (ds : List (WorkerRecord N)) (j : String)
      → All (λ d. db.find_one c d.worker_id ≡ some d) ds
      → All (λ d. d.worker_id ≡ j → db.find_one c j ≡ some d) ds
  named_held c [] j held = tt
  named_held c (d ∷ ds) j held =
      (λ same. ap (db.find_one c) (sym same) ∙ held.0, named_held c ds j held.1)

  loaded_lookup :
      (c : C) (ds : List (WorkerRecord N)) (j : String)
      → ListsAll c ds
      → lookup j (load_all ds []) ≡ Option.map state_of (db.find_one c j)
  unfolding lookup
  loaded_lookup c ds j (held, rest) =
      load-lookup ds [] j (db.find_one c j) (named_held c ds j held)
        (λ h. sym (ap (Option.map state_of) (rest j h)))

  -- A server without workers that loads them from the collection has one for each document, and no
  -- other. Each is as its document describes it, with its capacity, its allocated and its available
  -- amounts, if its allocated amounts are the sums over the running tasks that are assigned to it; if
  -- one of the four differs, its running tasks are these tasks, what is allocated are the sums,
  -- and what is available is what they leave of the capacity. This holds when GetAllWorkers answers
  -- all documents of the collection and the tasks and their workers can be read.
  pub load_workers-lookup :
      {S : Type 0} (s : MasterServer N S) (a : Answers N) (c : C) (ds : List (WorkerRecord N))
      (tasks : List (TaskDoc N)) (j : String)
      → s.workers ≡ []
      → s.parts.worker_db ≡ true
      → s.parts.task_db ≡ true
      → s.parts.assignment_db ≡ true
      → a.running ≡ some tasks
      → ListsAll c ds
      → let there = lookup j (load_workers_from_db s a (some ds)).1.workers in
        ((db.find_one c j ≡ none) × (there ≡ none))
        ⊎ ((d : WorkerRecord N) × (w : WorkerState N) × (w' : WorkerState N) × (db.find_one c j
              ≡ some d)
            × IsLoaded d w
            × (there ≡ some w')
            × IsReconciled (tasks_of a.assignment j tasks) w w')
  unfolding load_workers_from_db reconcile_worker_resources
  load_workers-lookup s a c ds tasks j empty has_db tasks_there assignments_there known all =
      let actual = actual_allocations a.assignment tasks [] in
      let loaded : Dict (WorkerState N) = load_all ds s.workers in
      let law = lookup-map_values (λ id w. fix_worker (usage_in id actual) w) j loaded in
      let found : lookup j loaded ≡ Option.map state_of (db.find_one c j) =
        ap (λ m. lookup j (load_all ds m)) empty ∙ loaded_lookup c ds j all in
      let sums = actual_allocations-usage_of a.assignment j tasks in
      elim (Option-cases (db.find_one c j)) [
        | inl gone ↦
            inl (
              gone,
              ground (arith, has_db, tasks_there, assignments_there, known, law, found, gone),
            )
        | inr (d, there) ↦ inr (
          d,
          state_of d,
          fix_worker (usage_of a.assignment j tasks no_usage) (state_of d),
          there,
          state_of-IsLoaded d,
          ground (arith, has_db, tasks_there, assignments_there, known, law, found, there, sums),
          fix-IsReconciled a.assignment j tasks (state_of d),
        )
      ]
