-- ===== src/Server/Events/Handlers.antt =====
-- How each handler of master_server.go changes the map of workers: no handler but the
-- administrator's registration adds an entry.
use Prim.Native.Nat.{◌+◌}
use agentic_cloud_cluster.Base.{
  ℕ, String, ◌≡◌, refl, ◌∙◌, inl, inr, List, [], ◌∷◌, ◌==◌, arith, if◌then◌else◌, Bool-cases,
  Option-cases, ℤ, not, ◌&&◌, ◌||◌,
}
use agentic_cloud_cluster.Float.{Float, eq, zero}
use agentic_cloud_cluster.Dict.{lookup, modify, lookup-modify, lookup-map_values}
use agentic_cloud_cluster.Proto.{Resources, WorkerInfo, Heartbeat, Task, TaskResult}
use agentic_cloud_cluster.Server.State.{MasterServer, WorkerState, QueuedTask, Scheduler, Answers}
use agentic_cloud_cluster.Server.Evolution.{
  Evolves, Evolves-refl, Evolves-trans, Evolves-insert, Evolves-map, Evolves-delete, worker_name,
}
use agentic_cloud_cluster.Server.Registry.{
  update_worker_resources_in_memory, unregister_worker, register_worker, connect, send_heartbeat,
  check_and_mark_inactive_workers, expire,
}
use agentic_cloud_cluster.Server.Reconcile.{
  reconcile_worker_resources, reconcile_single_worker, fix_worker, usage_in, actual_allocations,
}
use agentic_cloud_cluster.Server.Assign.{assign_task_to_worker, commit_assignment, allocate}
use agentic_cloud_cluster.Server.Assign.Guards.{assign_task_to_worker-failure, assign-commit}
use agentic_cloud_cluster.Server.Queue.{
  targeted, enqueue_task, submit_task, select_worker_for_task, try_queued, try_all, process_queue,
  dispatch_task_to_worker,
}
use agentic_cloud_cluster.Server.Complete.{report_task_completion, leave, task_resources}
use agentic_cloud_cluster.Server.Complete.Accounts.{report-lookup}
use agentic_cloud_cluster.Server.Cancel.Order.{Target-cases}
use agentic_cloud_cluster.Server.Cancel.{cancel_task, find_target, ask_worker, drop_task}

module _ {N S : Type 0} ⦃f : Float N⦄ (s : MasterServer N S) where
  pub configure-Evolves :
      (id : String) (total : Resources N)
      → Evolves s.workers (update_worker_resources_in_memory s id total).workers
  unfolding update_worker_resources_in_memory
  configure-Evolves id total = elim (Option-cases (lookup id s.workers)) [
    | inl e ↦ rw (e, update_worker_resources_in_memory) (Evolves-refl s.workers)
    | inr (w, e) ↦
        rw (e, update_worker_resources_in_memory) (Evolves-insert s.workers id w _ e (inl refl))
  ]

  pub unregister-Evolves :
      (a : Answers N) (id : String) → Evolves s.workers (unregister_worker s a id).1.workers
  unfolding unregister_worker
  unregister-Evolves a id = elim (Option-cases (lookup id s.workers)) [
    | inl e ↦ rw (e, unregister_worker) (Evolves-refl s.workers)
    | inr (w, e) ↦ elim (Bool-cases (s.parts.worker_db && not a.unregister_worker_ok)) [
      | inl e' ↦ rw (e, e', unregister_worker) (Evolves-refl s.workers)
      | inr e' ↦ rw (e, e', unregister_worker) (Evolves-delete s.workers id)
    ]
  ]

  reconciled-worker_name :
      (a : Answers N) (id : String) (w : WorkerState N)
      → worker_name (reconcile_single_worker s a id w).0 ≡ worker_name w
  unfolding reconcile_single_worker
  reconciled-worker_name a id w = ground arith

  connect-worker_name :
      (a : Answers N) (w : WorkerState N) (info : WorkerInfo N) (now : ℤ)
      → worker_name (connect s a w info now).0 ≡ info.worker_id
  unfolding connect
  connect-worker_name a w info now =
      elim (Bool-cases (eq w.info.total.cpu zero || not w.is_active)) [
        | inl e ↦ rw (e, reconciled-worker_name a info.worker_id) (ground arith)
        | inr e ↦ rw e (ground arith)
      ]

  pub connect-Evolves :
      (a : Answers N) (info : WorkerInfo N) (now : ℤ)
      → Evolves s.workers (register_worker s a info now).1.workers
  unfolding register_worker
  connect-Evolves a info now = elim (Option-cases (lookup info.worker_id s.workers)) [
    | inl e ↦ rw (e, register_worker) (Evolves-refl s.workers)
    | inr (w, e) ↦
        rw (e, register_worker)
          (Evolves-insert s.workers info.worker_id w _ e (inr (connect-worker_name a w info now)))
  ]

  pub beat-Evolves :
      (hb : Heartbeat N) (now : ℤ) → Evolves s.workers (send_heartbeat s hb now).1.workers
  unfolding send_heartbeat
  beat-Evolves hb now = elim (Option-cases (lookup hb.worker_id s.workers)) [
    | inl e ↦ rw (e, send_heartbeat) (Evolves-refl s.workers)
    | inr (w, e) ↦ rw (e, send_heartbeat) (Evolves-insert s.workers hb.worker_id w _ e (inl refl))
  ]

  pub age-Evolves : (now : ℤ) → Evolves s.workers (check_and_mark_inactive_workers s now).workers
  unfolding check_and_mark_inactive_workers
  age-Evolves now =
      Evolves-map s.workers _ (λ _ w. expire now w) (λ j w. ground arith)
        (λ j. lookup-map_values (λ _ w. expire now w) j s.workers)

  pub report-Evolves :
      (a : Answers N) (r : TaskResult) → Evolves s.workers (report_task_completion s a r).1.workers
  report-Evolves a r =
      Evolves-map s.workers _
        (λ j w. if r.worker_id == j then leave (task_resources s a) r.task_id w else w)
        (λ j w. ground arith) (λ j. report-lookup s a r j ∙ ground arith)

  commit-Evolves :
      (task : Task N) (id : String) → Evolves s.workers (commit_assignment s task id).workers
  unfolding commit_assignment
  commit-Evolves task id =
      Evolves-map s.workers _ (λ j w. if id == j then allocate task w else w) (λ j w. ground arith)
        (λ j. lookup-modify id j (allocate task) s.workers ∙ ground arith)

  assign-Evolves :
      (a : Answers N) (task : Task N) (id : String)
      → Evolves s.workers (assign_task_to_worker s a task id).1.workers
  assign-Evolves a task id = elim (Bool-cases (assign_task_to_worker s a task id).0.success) [
    | inl ok ↦ rw (assign-commit s a task id ok) (commit-Evolves task id)
    | inr failed ↦ rw (assign_task_to_worker-failure s a task id failed) (Evolves-refl s.workers)
  ]

  pub dispatch-Evolves :
      (a : Answers N) (task : Task N) (id : String)
      → Evolves s.workers (dispatch_task_to_worker s a task id).1.workers
  unfolding dispatch_task_to_worker
  dispatch-Evolves a task id = assign-Evolves a task id

  pub submit-Evolves :
      (task : Task N) (now : ℤ) → Evolves s.workers (submit_task s task now).1.workers
  unfolding submit_task enqueue_task
  submit-Evolves task now = Evolves-refl s.workers

  drop-Evolves : (id task_id : String) → Evolves s.workers (modify id (drop_task task_id) s.workers)
  drop-Evolves id task_id =
      Evolves-map s.workers _ (λ j w. if id == j then drop_task task_id w else w)
        (λ j w. ground arith) (λ j. lookup-modify id j (drop_task task_id) s.workers ∙ ground arith)

  ask-Evolves :
      (a : Answers N) (task_id id ip : String)
      → Evolves s.workers (ask_worker s a task_id id ip).1.workers
  unfolding ask_worker
  ask-Evolves a task_id id ip = elim (Bool-cases a.dial_ok) [
    | inr e ↦ rw (e, ask_worker) (Evolves-refl s.workers)
    | inl e ↦ elim (Option-cases a.worker_ack) [
      | inl e' ↦ rw (e, e', ask_worker) (Evolves-refl s.workers)
      | inr (ack, e') ↦ elim (Bool-cases ack.success) [
        | inl ok ↦ rw (e, e', ok, ask_worker) (drop-Evolves id task_id)
        | inr failed ↦ rw (e, e', failed, ask_worker) (Evolves-refl s.workers)
      ]
    ]
  ]

  pub cancel-Evolves :
      (a : Answers N) (task_id : String) → Evolves s.workers (cancel_task s a task_id).1.workers
  unfolding cancel_task
  cancel-Evolves a task_id = elim (Target-cases (find_target s a task_id)) [
    | inl (m, e) ↦ rw (e, cancel_task) (Evolves-refl s.workers)
    | inr (id, w, e) ↦ elim (Bool-cases (s.parts.task_db && not a.update_status_ok)) [
      | inl e' ↦ rw (e, e', cancel_task) (Evolves-refl s.workers)
      | inr e' ↦ rw (e, e', cancel_task) (ask-Evolves a task_id id w.info.worker_ip)
    ]
  ]

  pub reconcile-Evolves :
      (a : Answers N) → Evolves s.workers (reconcile_worker_resources s a).1.workers
  unfolding reconcile_worker_resources fix_worker
  reconcile-Evolves a = elim (Bool-cases (not s.parts.task_db || not s.parts.assignment_db)) [
    | inl e ↦ rw (e, reconcile_worker_resources) (Evolves-refl s.workers)
    | inr e ↦ elim (Option-cases a.running) [
      | inl e' ↦ rw (e, e', reconcile_worker_resources) (Evolves-refl s.workers)
      | inr (tasks, e') ↦
          rw (e, e', reconcile_worker_resources)
            (Evolves-map s.workers _
              (λ id w. fix_worker (usage_in id (actual_allocations a.assignment tasks [])) w)
              (λ j w. ground arith) (λ j. lookup-map_values _ j s.workers))
    ]
  ]

module _ {N S : Type 0} ⦃f : Float N⦄ (sched : Scheduler N S) where
  try_queued-Evolves :
      (s : MasterServer N S) (a : Answers N) (qt : QueuedTask N)
      → Evolves s.workers (try_queued sched s a qt).1.workers
  unfolding try_queued select_worker_for_task
  try_queued-Evolves s a qt = elim (Bool-cases ((select_worker_for_task sched s qt.task).0 == "")) [
    | inl e ↦ rw (e, try_queued) (Evolves-refl s.workers)
    | inr e ↦
        rw (e, try_queued)
          (assign-Evolves (select_worker_for_task sched s qt.task).1 a
            (targeted qt (select_worker_for_task sched s qt.task).0).task
            (select_worker_for_task sched s qt.task).0)
  ]

  try_all-Evolves :
      (s : MasterServer N S) (a : ℕ → Answers N) (i : ℕ) (queue : List (QueuedTask N))
      → Evolves s.workers (try_all sched s a i queue).1.workers
  unfolding try_all
  try_all-Evolves s a i [] = Evolves-refl s.workers
  try_all-Evolves s a i (qt ∷ rest) =
      Evolves-trans (try_queued-Evolves s (a i) qt)
        (try_all-Evolves (try_queued sched s (a i) qt).1 a (i + 1) rest)

  pub process-Evolves :
      (s : MasterServer N S) (a : ℕ → Answers N)
      → Evolves s.workers (process_queue sched s a).0.workers
  unfolding process_queue
  process-Evolves s a = try_all-Evolves s a 0 s.task_queue
