-- ===== src/Worker/Goroutines/Tracked.antt =====
-- The books of the worker, worker/internal: the map of containers of its executor and the running tasks
-- of its monitor, against the goroutines of worker_server.go.
use Prim.Native.Nat.{◌+◌, ◌≤◌}
use agentic_cloud_cluster.Base.{
  ℕ, String, ◌≡◌, ◌⊎◌, some, List, [], ◌∷◌, ◌==◌, ◌&&◌, ℤ, inl, inr, arith, eq_iff, Option-cases,
}
use agentic_cloud_cluster.Float.{Float}
use agentic_cloud_cluster.Dict.{lookup, insert, lookup-insert, lookup-delete}
use agentic_cloud_cluster.Proto.{Task, RunningTask}
use agentic_cloud_cluster.Paths.{join_path}
use agentic_cloud_cluster.Worker.Executor.{
  Reply-cases, TaskExecutor, TaskRun, RunAnswers, cancel_container,
}
use agentic_cloud_cluster.Worker.Executor.Run.{
  with_error, failed_run, launch, create_container, finish_run,
}
use agentic_cloud_cluster.Worker.Monitor.{
  running_task, set_master_address, monitor_task, unmonitor_task,
}
use agentic_cloud_cluster.Worker.Server.{
  Goroutine, registering, pulling, running, reporting, confirming, WorkerServer, Answers,
  new_worker_server, master_register, accept_task, cancel_running,
}
use agentic_cloud_cluster.Worker.Goroutines.{
  Action, registers, assigns, cancels, goes_on, take_out, advance, act, run_actions,
}
use agentic_cloud_cluster.Worker.Goroutines.Counts.{
  sum_of, sum_of-take_out, one_if, executes, optional,
}

module _ {N : Type 0} where
  -- the goroutines that wait for a container of a task
  abbrev pub runs : String → String → Goroutine N → ℕ
  runs id c registering = 0
  runs id c (pulling task) = 0
  runs id c (running task container) = one_if (task.task_id == id && container == c)
  runs id c (reporting task run) = 0
  runs id c (confirming task_id) = 0

  -- Whatever the books name has a goroutine that will take it off them.
  pub record IsTracked (w : WorkerServer N) : Type 0 where
    pub tracked :
        (id c : String)
        → lookup id w.executor.containers ≡ some c
        → 1 ≤ sum_of (runs id c) w.goroutines
    pub monitored :
        (id : String) (t : RunningTask N)
        → lookup id w.monitor.running_tasks ≡ some t
        → 1 ≤ sum_of (executes id) w.goroutines

module _ {N : Type 0} ⦃f : Float N⦄ (to_int64 : N → ℤ) (id : String) where
  -- The launch ends without a container and leaves the books, or it enters a new one.
  launch_cases :
      (e : TaskExecutor) (task : Task N) (dir : String) (a : RunAnswers)
      → let (end, e', calls) = launch to_int64 e task dir a in
        ((run : TaskRun) × (end ≡ inl run) × (e' ≡ e))
        ⊎ ((c : String) × (end ≡ inr c)
            × (e' ≡ record e { containers = insert task.task_id c e.containers }))
  unfolding launch create_container
  launch_cases e task dir a = elim (Option-cases a.pull_error) [
    | inr (error, refused) ↦
        inl (
          with_error (failed_run task.task_id) "Error pulling image: " error,
          rw refused,
          rw refused,
        )
    | inl pulled ↦ elim (Option-cases a.mkdir_error) [
      | inr (error, refused) ↦ inl (
        with_error (failed_run task.task_id) "Error creating container: " error,
        rw (pulled, refused),
        rw (pulled, refused),
      )
      | inl made ↦ elim (Reply-cases a.created) [
        | inl (c, created) ↦ inr (c, rw (pulled, made, created), rw (pulled, made, created))
        | inr (error, refused) ↦ inl (
          with_error (failed_run task.task_id) "Error creating container: " error,
          rw (pulled, made, refused),
          rw (pulled, made, refused),
        )
      ]
    ]
  ]

  module _ (c : String) where
    advance_tracked :
        (w : WorkerServer N) (g : Goroutine N) (a : Answers N) (others : ℕ)
        → (lookup id w.executor.containers ≡ some c → 1 ≤ runs id c g + others)
        → let (left, w', messages) = advance to_int64 w g a in
          lookup id w'.executor.containers ≡ some c → 1 ≤ optional id (runs id c) left + others
    unfolding advance finish_run
    advance_tracked w registering a others h there = omega (arith, h there)
    advance_tracked w (pulling task) a others h there =
        let dir = join_path w.output_base task.task_id in
        elim (launch_cases w.executor task dir a.run) [
          | inl (run, ended, same) ↦ ground (arith, ended, same)
          | inr (new, ended, entered) ↦ ground (
            arith,
            ended,
            entered,
            lookup-insert task.task_id id new w.executor.containers,
            eq_iff new c,
          )
        ]
    advance_tracked w (running task container) a others h there =
        ground (arith, lookup-delete task.task_id id w.executor.containers)
    advance_tracked w (reporting task run) a others h there = omega (arith, h there)
    advance_tracked w (confirming task_id) a others h there = omega (arith, h there)

    act_tracked :
        (w : WorkerServer N) (action : Action N)
        → (lookup id w.executor.containers ≡ some c → 1 ≤ sum_of (runs id c) w.goroutines)
        → let (w', entries) = act to_int64 w action in
          lookup id w'.executor.containers ≡ some c → 1 ≤ sum_of (runs id c) w'.goroutines
    unfolding act accept_task cancel_running cancel_container master_register
    act_tracked w (registers addr) h there = omega (arith, h there)
    act_tracked w (assigns task) h there = ground arith
    act_tracked w (cancels task_id a) h there =
        ground (arith, lookup-delete task_id id w.executor.containers)
    act_tracked w (goes_on n a) h there = elim (Option-cases (take_out n w.goroutines)) [
      | inl gone ↦ ground (arith, gone)
      | inr ((g, others), out) ↦
          let (left, w', messages) = advance to_int64 w g a in
          let all = sum_of-take_out (runs id c) n w.goroutines g others out in
          let owner =
            advance_tracked w g a (sum_of (runs id c) others) (λ e. omega (arith, all, h e)) in
          ground (arith, out, owner)
    ]

  advance_monitored :
      (w : WorkerServer N) (g : Goroutine N) (a : Answers N) (others : ℕ) (t : RunningTask N)
      → (lookup id w.monitor.running_tasks ≡ some t → 1 ≤ executes id g + others)
      → let (left, w', messages) = advance to_int64 w g a in
        lookup id w'.monitor.running_tasks ≡ some t → 1 ≤ optional id (executes id) left + others
  unfolding advance unmonitor_task
  advance_monitored w registering a others t h there = omega (arith, h there)
  advance_monitored w (pulling task) a others t h there =
      let dir = join_path w.output_base task.task_id in
      elim (launch_cases w.executor task dir a.run) [
        | inl (run, ended, same) ↦ ground (arith, ended, h there)
        | inr (new, ended, entered) ↦ ground (arith, ended, h there)
      ]
  advance_monitored w (running task container) a others t h there = omega (arith, h there)
  advance_monitored w (reporting task run) a others t h there =
      ground (arith, lookup-delete task.task_id id w.monitor.running_tasks)
  advance_monitored w (confirming task_id) a others t h there = omega (arith, h there)

  act_monitored :
      (w : WorkerServer N) (action : Action N) (t : RunningTask N)
      → ((u : RunningTask N)
          → lookup id w.monitor.running_tasks ≡ some u
          → 1 ≤ sum_of (executes id) w.goroutines)
      → let (w', entries) = act to_int64 w action in
        lookup id w'.monitor.running_tasks ≡ some t → 1 ≤ sum_of (executes id) w'.goroutines
  unfolding act accept_task cancel_running cancel_container master_register set_master_address
      monitor_task unmonitor_task
  act_monitored w (registers addr) t h there = omega (arith, h t there)
  act_monitored w (assigns task) t h there = ground (
    arith,
    h t,
    lookup-insert task.task_id id (running_task task) w.monitor.running_tasks,
    eq_iff task.task_id id,
  )
  act_monitored w (cancels task_id a) t h there =
      ground (arith, h t, lookup-delete task_id id w.monitor.running_tasks)
  act_monitored w (goes_on n a) t h there = elim (Option-cases (take_out n w.goroutines)) [
    | inl gone ↦ ground (arith, gone, h t)
    | inr ((g, others), out) ↦
        let (left, w', messages) = advance to_int64 w g a in
        let all = sum_of-take_out (executes id) n w.goroutines g others out in
        let owner =
          advance_monitored w g a (sum_of (executes id) others) t
            (λ e. omega (arith, all, h t e)) in
        ground (arith, out, owner)
  ]

module _ {N : Type 0} ⦃f : Float N⦄ (to_int64 : N → ℤ) where
  IsTracked-run_actions :
      (w : WorkerServer N) (actions : List (Action N))
      → IsTracked w
      → IsTracked (run_actions to_int64 w actions).0
  unfolding run_actions
  IsTracked-run_actions w [] owned = owned
  IsTracked-run_actions w (action ∷ rest) owned =
      IsTracked-run_actions (act to_int64 w action).0 rest (record {
        tracked = λ id c. act_tracked to_int64 id c w action (owned.tracked id c);
        monitored = λ id t. act_monitored to_int64 id w action t (owned.monitored id);
      })

  -- In every history of a new worker, a container that its executor tracks has a goroutine that waits
  -- for that container of that task, and a task that its monitor reports as running has a goroutine
  -- that executes it.
  pub run_actions-IsTracked :
      (worker_id base : String) (actions : List (Action N))
      → IsTracked (run_actions to_int64 (new_worker_server worker_id base) actions).0
  unfolding new_worker_server lookup
  run_actions-IsTracked worker_id base actions =
      IsTracked-run_actions (new_worker_server worker_id base) actions
        (record { tracked = λ id c h. absurd (cc); monitored = λ id t h. absurd (cc) })
