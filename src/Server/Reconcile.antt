-- ===== src/Server/Reconcile.antt =====
-- Reconciliation of the accounts of the workers with the tasks that the database holds as running:
-- ReconcileWorkerResources and reconcileSingleWorker of master_server.go.
pub mod Books
pub mod Sums
use agentic_cloud_cluster.Base.{
  String, Bool, true, false, Option, none, some, List, [], ◌∷◌, ◌++◌, ◌==◌, ◌&&◌, ◌||◌, not,
  if◌then◌else◌,
}
use agentic_cloud_cluster.Float.{Float, eq, lt, zero}
use agentic_cloud_cluster.Dict.{Dict, lookup, insert, map_values}
use agentic_cloud_cluster.Proto.{Resources}
use agentic_cloud_cluster.Server.State.{
  MasterServer, Outcome, WorkerState, TaskDoc, Answers, Call, release_resources, allocate_resources,
  set_worker_resources, when, no_resources, add_resources, sub_resources,
}

-- The sums over the tasks of one worker, with the set of their names.
pub record Usage (N : Type 0) : Type 0 where
  pub amounts : Resources N
  pub task_ids : Dict Bool

module _ {N : Type 0} ⦃f : Float N⦄ where
  abbrev pub no_usage : Usage N
  no_usage = record { amounts = no_resources; task_ids = [] }

  abbrev pub add_task : TaskDoc N → Usage N → Usage N
  add_task task u = record {
    amounts = add_resources u.amounts task.req;
    task_ids = insert task.task_id true u.task_ids;
  }

  -- The loop of reconcileSingleWorker over the running tasks.
  unfoldable pub usage_of : (String → Option String) → String → List (TaskDoc N) → Usage N → Usage N
  usage_of assignment worker_id [] u = u
  usage_of assignment worker_id (task ∷ rest) u =
      usage_of assignment worker_id rest (elim (assignment task.task_id) [
        | none ↦ u
        | some id ↦ if id == worker_id then add_task task u else u
      ])

  -- The accounts that a worker is given: Available is set anew from the capacity.
  abbrev pub settle : Usage N → WorkerState N → WorkerState N
  settle u worker = record worker {
    allocated = u.amounts;
    available = sub_resources worker.info.total u.amounts;
    running_tasks = u.task_ids;
  }

  unfoldable pub reconcile_single_worker :
      {S : Type 0}
      → MasterServer N S
      → Answers N
      → String
      → WorkerState N
      → WorkerState N × List (Call N)
  unfolding usage_of
  reconcile_single_worker s a worker_id worker =
      if not s.parts.task_db || not s.parts.assignment_db then (worker, []) else elim a.running [
        | none ↦ (worker, [])
        | some tasks ↦
            let u = usage_of a.assignment worker_id tasks no_usage in
            let worker' = settle u worker in
            (
              worker',
              when s.parts.worker_db
                  (set_worker_resources worker_id worker'.allocated worker'.available ∷ []),
            )
      ]

  -- What Go's map yields: the zero value for a worker without tasks.
  abbrev pub usage_in : String → Dict (Usage N) → Usage N
  usage_in id m = elim (lookup id m) [ none ↦ no_usage | some u ↦ u ]

  -- The first loop of ReconcileWorkerResources: a map from the workers to their sums.
  unfoldable pub actual_allocations :
      (String → Option String) → List (TaskDoc N) → Dict (Usage N) → Dict (Usage N)
  actual_allocations assignment [] m = m
  actual_allocations assignment (task ∷ rest) m =
      actual_allocations assignment rest (elim (assignment task.task_id) [
        | none ↦ m
        | some id ↦ insert id (add_task task (usage_in id m)) m
      ])

  abbrev pub out_of_sync : WorkerState N → Resources N → Bool
  out_of_sync worker actual =
      not (eq worker.allocated.cpu actual.cpu)
      || not (eq worker.allocated.memory actual.memory)
      || not (eq worker.allocated.storage actual.storage)
      || not (eq worker.allocated.gpu actual.gpu)

  -- The second loop's body. The database is told to take back the old processor and memory
  -- amounts, but the new storage and GPU amounts: the fields have been written by then.
  abbrev pub fix_calls : Bool → String → WorkerState N → Resources N → List (Call N)
  fix_calls has_db worker_id worker actual =
      when (has_db && lt zero worker.allocated.cpu) (
        release_resources worker_id
          (record actual { cpu = worker.allocated.cpu; memory = worker.allocated.memory })
        ∷ [])
      ++ when (has_db && lt zero actual.cpu) (allocate_resources worker_id actual ∷ [])

  unfoldable pub fix_worker : Usage N → WorkerState N → WorkerState N
  fix_worker actual worker =
      if out_of_sync worker actual.amounts then settle actual worker else worker

  unfoldable pub fix_all : Bool → Dict (Usage N) → Dict (WorkerState N) → List (Call N)
  fix_all has_db actual [] = []
  fix_all has_db actual ((id, worker) ∷ rest) =
      let amounts = (usage_in id actual).amounts in
      when (out_of_sync worker amounts) (fix_calls has_db id worker amounts)
      ++ fix_all has_db actual rest

  -- ReconcileWorkerResources, which returns an error for `false`, and ReconcileWorkerResourcesPublic around it.
  unfoldable pub reconcile_worker_resources :
      {S : Type 0} → MasterServer N S → Answers N → Outcome Bool N S
  unfolding actual_allocations fix_worker fix_all
  reconcile_worker_resources s a =
      if not s.parts.task_db || not s.parts.assignment_db then (true, s, []) else elim a.running [
        | none ↦ (false, s, [])
        | some tasks ↦
            let actual = actual_allocations a.assignment tasks [] in
            (
              true,
              record s {
                workers = map_values (λ id w. fix_worker (usage_in id actual) w) s.workers;
              },
              fix_all s.parts.worker_db actual s.workers,
            )
      ]
