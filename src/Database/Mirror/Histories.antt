-- ===== src/Database/Mirror/Histories.antt =====
-- The collection of workers through whole histories of the master's server.
use agentic_cloud_cluster.Base.{
  ℕ, String, ◌≡◌, refl, ap, ◌∙◌, true, some, List, [], ◌∷◌, ◌++◌, ◌==◌, ℤ, Bool-cases, inl, inr,
}
use agentic_cloud_cluster.Float.{Float}
use agentic_cloud_cluster.Dict.{lookup}
use agentic_cloud_cluster.Database.Workers.{WorkerDb, perform_all}
use agentic_cloud_cluster.Database.Effects.{recorded_at, effects, perform_all-effects}
use agentic_cloud_cluster.Database.Mirror.{
  Follows, Follows-refl, Follows-trans, Follows-books, assign-Follows, dispatch-Follows,
  submit-Follows, beat-Follows, age-Follows, cancel-Follows,
}
use agentic_cloud_cluster.Database.Mirror.Reports.{TakesNoMore, report-Follows}
use agentic_cloud_cluster.Database.Mirror.Connections.{CanReconcile, connect-Follows}
use agentic_cloud_cluster.Server.State.{
  MasterServer, WorkerState, Answers, Call, Scheduler, QueuedTask,
}
use agentic_cloud_cluster.Server.Assign.{assign_task_to_worker}
use agentic_cloud_cluster.Server.Queue.{
  targeted, select_worker_for_task, try_queued, try_all, process_queue, submit_task,
  dispatch_task_to_worker,
}
use agentic_cloud_cluster.Server.Registry.{
  register_worker, send_heartbeat, manual_register_worker, unregister_worker,
}
use agentic_cloud_cluster.Server.Reconcile.{reconcile_worker_resources}
use Prim.Native.Nat.{◌+◌}
use agentic_cloud_cluster.Server.Complete.{report_task_completion}
use agentic_cloud_cluster.Server.Cancel.{cancel_task}
use agentic_cloud_cluster.Server.Cancel.Order.{accounts}
use agentic_cloud_cluster.Server.Events.{
  Event, registers, configures, unregisters, dispatches, connects, beats, reports, submits, cancels,
  ages, reconciles, schedules, step, run,
}

module _ {N S : Type 0} ⦃f : Float N⦄ (sched : Scheduler N S) where
  select-Follows :
      (s : MasterServer N S) (qt : QueuedTask N)
      → Follows s (select_worker_for_task sched s qt.task).1 []
  unfolding select_worker_for_task
  select-Follows s qt =
      Follows-books (select_worker_for_task sched s qt.task).1 [] refl refl (Follows-refl s)

  try-Follows :
      (s : MasterServer N S) (a : Answers N) (qt : QueuedTask N)
      → s.parts.worker_db ≡ true
      → Follows s (try_queued sched s a qt).1 (try_queued sched s a qt).2
  unfolding try_queued
  try-Follows s a qt has_db =
      let (id, s₁) = select_worker_for_task sched s qt.task in
      let chosen = select-Follows s qt in
      let has_db₁ : s₁.parts.worker_db ≡ true = ap (λ p. p.worker_db) chosen.parts ∙ has_db in
      elim (Bool-cases (id == "")) [
        | inl nobody ↦ rw nobody chosen
        | inr somebody ↦ rw somebody (
            Follows-trans [] (assign_task_to_worker s₁ a (targeted qt id).task id).2 chosen
              (assign-Follows s₁ a (targeted qt id).task id has_db₁))
      ]

  try_all-Follows :
      (s : MasterServer N S) (a : ℕ → Answers N) (i : ℕ) (queue : List (QueuedTask N))
      → s.parts.worker_db ≡ true
      → Follows s (try_all sched s a i queue).1 (try_all sched s a i queue).2
  unfolding try_all
  try_all-Follows s a i [] has_db = Follows-refl s
  try_all-Follows s a i (qt ∷ rest) has_db =
      let (kept, s₁, calls) = try_queued sched s (a i) qt in
      let first = try-Follows s (a i) qt has_db in
      let has_db₁ : s₁.parts.worker_db ≡ true = ap (λ p. p.worker_db) first.parts ∙ has_db in
      Follows-trans calls (try_all sched s₁ a (i + 1) rest).2 first
        (try_all-Follows s₁ a (i + 1) rest has_db₁)

  process-Follows :
      (s : MasterServer N S) (a : ℕ → Answers N)
      → s.parts.worker_db ≡ true
      → Follows s (process_queue sched s a).0 (process_queue sched s a).1
  unfolding process_queue
  process-Follows s a has_db =
      Follows-books (process_queue sched s a).0 (process_queue sched s a).1 refl refl
        (try_all-Follows s a 0 s.task_queue has_db)

  -- the calls that the server makes at an event
  unfoldable pub calls_of : MasterServer N S → Event N → List (Call N)
  calls_of s (registers a id ip) = (manual_register_worker s a id ip).2
  calls_of s (configures id total) = []
  calls_of s (unregisters a id) = (unregister_worker s a id).2
  calls_of s (dispatches a task id) = (dispatch_task_to_worker s a task id).2
  calls_of s (connects a info now) = (register_worker s a info now).2
  calls_of s (beats hb now) = (send_heartbeat s hb now).2
  calls_of s (reports a result) = (report_task_completion s a result).2
  calls_of s (submits task now) = (submit_task s task now).2
  calls_of s (cancels a task_id) = (cancel_task s a task_id).2
  calls_of s (ages now) = []
  calls_of s (reconciles a) = (reconcile_worker_resources s a).2
  calls_of s (schedules a) = (process_queue sched s a).1

  -- What an event has to meet: it is none of the administrator's and no reconciliation of all workers;
  -- a report takes off no more than is allocated; when a worker connects, the database answers.
  abbrev pub IsOrdinary : MasterServer N S → Event N → Type 0
  IsOrdinary s (registers a id ip) = ⊥
  IsOrdinary s (configures id total) = ⊥
  IsOrdinary s (unregisters a id) = ⊥
  IsOrdinary s (dispatches a task id) = Unit
  IsOrdinary s (connects a info now) = CanReconcile s a
  IsOrdinary s (beats hb now) = Unit
  IsOrdinary s (reports a result) = TakesNoMore s a result
  IsOrdinary s (submits task now) = Unit
  IsOrdinary s (cancels a task_id) = Unit
  IsOrdinary s (ages now) = Unit
  IsOrdinary s (reconciles a) = ⊥
  IsOrdinary s (schedules a) = Unit

  step-Follows :
      (s : MasterServer N S) (e : Event N)
      → s.parts.worker_db ≡ true
      → IsOrdinary s e
      → Follows s (step sched s e) (calls_of s e)
  unfolding step calls_of
  step-Follows s (registers a id ip) has_db ok = absurd ok
  step-Follows s (configures id total) has_db ok = absurd ok
  step-Follows s (unregisters a id) has_db ok = absurd ok
  step-Follows s (dispatches a task id) has_db ok = dispatch-Follows s a task id has_db
  step-Follows s (connects a info now) has_db ok = connect-Follows s a info now has_db ok
  step-Follows s (beats hb now) has_db ok = beat-Follows s hb now
  step-Follows s (reports a result) has_db ok = report-Follows s a result has_db ok
  step-Follows s (submits task now) has_db ok = submit-Follows s task now
  step-Follows s (cancels a task_id) has_db ok = cancel-Follows s a task_id
  step-Follows s (ages now) has_db ok = age-Follows s now
  step-Follows s (reconciles a) has_db ok = absurd ok
  step-Follows s (schedules a) has_db ok = process-Follows s a has_db

  unfoldable pub AllOrdinary : MasterServer N S → List (Event N) → Type 0
  AllOrdinary s [] = Unit
  AllOrdinary s (e ∷ es) = IsOrdinary s e × AllOrdinary (step sched s e) es

  unfoldable pub calls_of_all : MasterServer N S → List (Event N) → List (Call N)
  calls_of_all s [] = []
  calls_of_all s (e ∷ es) = calls_of s e ++ calls_of_all (step sched s e) es

  run-Follows :
      (s : MasterServer N S) (es : List (Event N))
      → s.parts.worker_db ≡ true
      → AllOrdinary s es
      → Follows s (run sched s es) (calls_of_all s es)
  unfolding run calls_of_all AllOrdinary
  run-Follows s [] has_db ok = Follows-refl s
  run-Follows s (e ∷ es) has_db ok =
      let first = step-Follows s e has_db ok.0 in
      let has_db₁ : (step sched s e).parts.worker_db ≡ true =
        ap (λ p. p.worker_db) first.parts ∙ has_db in
      Follows-trans (calls_of s e) (calls_of_all (step sched s e) es) first
        (run-Follows (step sched s e) es has_db₁ ok.1)

module _ {N S C : Type 0} ⦃f : Float N⦄ (db : WorkerDb N C) where
  -- The collection has a document for each worker of the map, with the amounts that are allocated and
  -- available in memory.
  abbrev pub Mirrors : MasterServer N S → C → Type 0
  Mirrors s c =
      (j : String) (w : WorkerState N)
      → lookup j s.workers ≡ some w
      → recorded_at db c j ≡ some (accounts w)

  -- The accounts in memory refine those in the collection of workers: if the two agree before a
  -- history of the server, and each call that the server makes reaches the collection, they agree
  -- after it. The history may hold any assignments, passes over the queue, heartbeats, submissions,
  -- cancellations and inactivity checks; reports that take off no more than is allocated; and
  -- connections of workers during which the tasks can be read. It holds no event of the
  -- administrator and no reconciliation of all workers.
  pub run-Mirrors :
      (sched : Scheduler N S) (now : ℤ) (s : MasterServer N S) (c : C) (es : List (Event N))
      → s.parts.worker_db ≡ true
      → Mirrors s c
      → AllOrdinary sched s es
      → Mirrors (run sched s es) (perform_all db now c (calls_of_all sched s es))
  run-Mirrors sched now s c es has_db agree ok j w' there' =
      let follows = run-Follows sched s es has_db ok in
      let (w, there, effect) = follows.followed j w' there' in
      let calls = calls_of_all sched s es in
      perform_all-effects db now c calls j follows.quiet
      ∙ ap (effects calls j) (agree j w there)
      ∙ effect
