-- ===== src/Server/Reconcile/Sums.antt =====
-- The two ways of master_server.go to sum up the running tasks agree: the map that
-- ReconcileWorkerResources builds, and the sums of reconcileSingleWorker.
use agentic_cloud_cluster.Base.{
  String, ◌≡◌, refl, ap, ◌∙◌, true, Option, none, some, List, [], ◌∷◌, ◌==◌, arith, if◌then◌else◌,
  eq_iff, inl, inr, Option-cases,
}
use agentic_cloud_cluster.Float.{Float}
use agentic_cloud_cluster.Dict.{Dict, lookup, insert, lookup-insert, lookup-map_values}
use agentic_cloud_cluster.Server.Reconcile.Books.{tasks_of, IsReconciled, fix-IsReconciled}
use agentic_cloud_cluster.Server.State.{MasterServer, WorkerState, TaskDoc, Answers}
use agentic_cloud_cluster.Server.Reconcile.{
  Usage, no_usage, add_task, usage_of, usage_in, actual_allocations, fix_worker,
  reconcile_worker_resources,
}

module _ {N : Type 0} ⦃f : Float N⦄ (assignment : String → Option String) (id : String) where
  abbrev counted : TaskDoc N → Usage N → Usage N
  counted task u = elim (assignment task.task_id) [
    | none ↦ u
    | some j ↦ if j == id then add_task task u else u
  ]

  one_task :
      (task : TaskDoc N) (m : Dict (Usage N))
      → usage_in id (elim (assignment task.task_id) [
        | none ↦ m
        | some j ↦ insert j (add_task task (usage_in j m)) m
      ])
        ≡ counted task (usage_in id m)
  one_task task m = elim (Option-cases (assignment task.task_id)) [
    | inl e ↦ ground (arith, e)
    | inr (j, e) ↦
        ground (arith, e, eq_iff j id, lookup-insert j id (add_task task (usage_in j m)) m)
  ]

  sums_agree_from :
      (tasks : List (TaskDoc N)) (m : Dict (Usage N))
      → usage_in id (actual_allocations assignment tasks m)
        ≡ usage_of assignment id tasks (usage_in id m)
  unfolding actual_allocations usage_of
  sums_agree_from [] m = refl
  sums_agree_from (task ∷ rest) m =
      sums_agree_from rest _ ∙ ap (usage_of assignment id rest) (one_task task m)

  -- The map holds for each worker the sums that a reconciliation of that worker alone comes to.
  pub actual_allocations-usage_of :
      (tasks : List (TaskDoc N))
      → usage_in id (actual_allocations assignment tasks []) ≡ usage_of assignment id tasks no_usage
  unfolding lookup
  actual_allocations-usage_of tasks = sums_agree_from tasks []

module _ {N S : Type 0} ⦃f : Float N⦄ (s : MasterServer N S) (a : Answers N) where
  -- A reconciliation of all workers, when the tasks and their workers can be read, compares the four
  -- allocated amounts of each worker with their sums over the running tasks that are assigned to
  -- it. If all four agree, the worker stays as it is, whatever its available amounts and its
  -- running tasks are. If one differs, its running tasks are set to these tasks, the allocated
  -- amounts to the sums, and the available ones to what the sums leave of its capacity.
  pub reconcile-lookup :
      (tasks : List (TaskDoc N)) (id : String) (w : WorkerState N)
      → s.parts.task_db ≡ true
      → s.parts.assignment_db ≡ true
      → a.running ≡ some tasks
      → lookup id s.workers ≡ some w
      → (w' : WorkerState N) × (lookup id (reconcile_worker_resources s a).1.workers ≡ some w')
        × IsReconciled (tasks_of a.assignment id tasks) w w'
  unfolding reconcile_worker_resources
  reconcile-lookup tasks id w tasks_there assignments_there known there = (
    fix_worker (usage_of a.assignment id tasks no_usage) w,
    ground (
      arith,
      lookup-map_values
          (λ id w. fix_worker (usage_in id (actual_allocations a.assignment tasks [])) w) id
          s.workers,
      actual_allocations-usage_of a.assignment id tasks,
    ),
    fix-IsReconciled a.assignment id tasks w,
  )
