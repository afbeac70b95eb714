-- ===== src/Worker/Goroutines.antt =====
-- The goroutines of worker/internal/server/worker_server.go in any interleaving: a history is a list of
-- actions, each a call of the master or the next stretch of some goroutine. It writes down what was
-- accepted, what was cancelled and what was sent.
pub mod Counts
pub mod Balance
pub mod Tracked
pub mod Arrivals
pub mod Cancelled
use agentic_cloud_cluster.Base.{
  ℕ, zero, suc, String, Option, none, some, List, [], ◌∷◌, ◌++◌, ◌==◌, map, if◌then◌else◌, ℤ, inl,
  inr,
}
use agentic_cloud_cluster.Float.{Float, literal}
use agentic_cloud_cluster.Proto.{Resources, Task}
use agentic_cloud_cluster.Paths.{join_path}
use agentic_cloud_cluster.Worker.Executor.{CancelAnswers}
use agentic_cloud_cluster.Worker.Executor.Run.{launch, finish_run}
use agentic_cloud_cluster.Worker.Monitor.{unmonitor_task}
use agentic_cloud_cluster.Worker.Server.{
  Goroutine, registering, pulling, running, reporting, confirming, WorkerServer, Sent, registration,
  report, Answers, task_accepted, master_not_registered, master_register, accept_task,
  cancel_running, confirm, send_outputs, run_result,
}

pub data Action (N : Type 0) : Type 0 where
  registers : String → Action N
  assigns : Task N → Action N
  cancels : String → CancelAnswers → Action N
  -- the next stretch of the goroutine of this number
  goes_on : ℕ → Answers N → Action N

pub data Entry (N : Type 0) : Type 0 where
  accepted cancelled : String → Entry N
  sent : Sent N → Entry N

module _ {A : Type 0} where
  -- an element of a list, and the others
  unfoldable pub take_out : ℕ → List A → Option (A × List A)
  take_out n [] = none
  take_out zero (x ∷ xs) = some (x, xs)
  take_out (suc n) (x ∷ xs) = elim (take_out n xs) [ none ↦ none | some (y, ys) ↦ some (y, x ∷ ys) ]

module _ {N : Type 0} ⦃f : Float N⦄ (to_int64 : N → ℤ) where
  abbrev pub default_resources : Resources N
  default_resources = record {
    cpu = literal 4 1;
    memory = literal 8 1;
    storage = literal 100 1;
    gpu = literal 0 1;
  }

  abbrev registration_of : WorkerServer N → Option (Resources N) → Sent N
  registration_of w none =
      registration (record { worker_id = w.worker_id; worker_ip = ""; total = default_resources })
  registration_of w (some total) =
      registration (record { worker_id = w.worker_id; worker_ip = ""; total = total })

  -- registerWithMaster
  unfoldable pub register_with_master : WorkerServer N → Answers N → List (Sent N)
  register_with_master w a =
      if w.master_addr == ""
      then []
      else if a.dial_ok
      then registration_of w a.system_resources ∷ []
      else []

  -- The next stretch of a goroutine: what it leaves to be done, the server, what is sent.
  unfoldable pub advance :
      WorkerServer N
      → Goroutine N
      → Answers N
      → Option (Goroutine N) × WorkerServer N × List (Sent N)
  unfolding launch finish_run unmonitor_task register_with_master send_outputs confirm
  advance w registering a = (none, w, register_with_master w a)
  advance w (pulling task) a =
      let output_dir = join_path w.output_base task.task_id in
      let (end, executor, _) = launch to_int64 w.executor task output_dir a.run in
      (
        elim end [ inl run ↦ some (reporting task run) | inr id ↦ some (running task id) ],
        record w { executor = executor },
        [],
      )
  advance w (running task id) a =
      let output_dir = join_path w.output_base task.task_id in
      let (run, executor, _) = finish_run w.executor task.task_id id output_dir a.run in
      (some (reporting task run), record w { executor = executor }, [])
  advance w (reporting task run) a = (
    none,
    record w { monitor = unmonitor_task w.monitor task.task_id },
    send_outputs w task run a ++ report (run_result w task run) (a.attempt 1) ∷ [],
  )
  advance w (confirming task_id) a = (none, w, confirm w task_id a.attempt)

  abbrev back : Option (Goroutine N) → List (Goroutine N) → List (Goroutine N)
  back none others = others
  back (some g) others = g ∷ others

  -- One action; a number that no goroutine has does nothing.
  unfoldable pub act : WorkerServer N → Action N → WorkerServer N × List (Entry N)
  unfolding master_register accept_task cancel_running take_out advance
  act w (registers addr) = (master_register w addr, [])
  act w (assigns task) =
      let (reply, w') = accept_task w task in
      (w', elim reply [ task_accepted ↦ accepted task.task_id ∷ [] | master_not_registered ↦ [] ])
  act w (cancels task_id a) =
      let (error, w', _) = cancel_running w task_id a in
      (w', elim error [ none ↦ cancelled task_id ∷ [] | some e ↦ [] ])
  act w (goes_on n a) = elim (take_out n w.goroutines) [
    | none ↦ (w, [])
    | some (g, others) ↦
        let (left, w', messages) = advance w g a in
        (record w' { goroutines = back left others }, map sent messages)
  ]

  unfoldable pub run_actions : WorkerServer N → List (Action N) → WorkerServer N × List (Entry N)
  unfolding act
  run_actions w [] = (w, [])
  run_actions w (action ∷ rest) =
      let (w₁, entries) = act w action in
      let (w₂, later) = run_actions w₁ rest in (w₂, entries ++ later)
