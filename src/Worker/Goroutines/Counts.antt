-- ===== src/Worker/Goroutines/Counts.antt =====
-- Counts of the goroutines, of the messages and of what else a history of
-- worker/internal/server/worker_server.go writes down, for one task.
use Prim.Native.Nat.{◌+◌, ◌≤◌}
use agentic_cloud_cluster.Base.{
  ℕ, zero, suc, String, Bool, ◌≡◌, ◌≢◌, eq_iff, refl, Option, none, some, List, [], ◌∷◌, ◌++◌, ◌==◌,
  map, if◌then◌else◌, inl, inr, arith, Option-cases,
}
use agentic_cloud_cluster.Proto.{Task}
use agentic_cloud_cluster.Worker.Executor.{TaskRun}
use agentic_cloud_cluster.Worker.Monitor.{Answer}
use agentic_cloud_cluster.Worker.Server.{
  Goroutine, registering, pulling, running, reporting, confirming, WorkerServer, Sent, registration,
  uploaded, report, confirmation, shutdown_report, Answers, send_outputs, confirm, attempts_made,
  retry_report, max_retries, cancelled_result,
}
use agentic_cloud_cluster.Worker.Goroutines.{
  Action, registers, assigns, cancels, goes_on, Entry, accepted, cancelled, sent, take_out,
}

module _ {A : Type 0} where
  abbrev pub sum_of : (A → ℕ) → List A → ℕ
  sum_of w [] = 0
  sum_of w (x ∷ xs) = w x + sum_of w xs

  pub sum_of-append : (w : A → ℕ) (xs ys : List A) → sum_of w (xs ++ ys) ≡ sum_of w xs + sum_of w ys
  sum_of-append w [] ys = omega arith
  sum_of-append w (x ∷ xs) ys = omega (arith, sum_of-append w xs ys)

  pub sum_of-take_out :
      (w : A → ℕ) (n : ℕ) (xs : List A) (y : A) (ys : List A)
      → take_out n xs ≡ some (y, ys)
      → sum_of w xs ≡ w y + sum_of w ys
  unfolding take_out
  sum_of-take_out w n [] y ys e = absurd (cc)
  sum_of-take_out w zero (x ∷ xs) y ys e = ground arith
  sum_of-take_out w (suc n) (x ∷ xs) y ys e = elim (Option-cases (take_out n xs)) [
    | inl gone ↦ absurd (ground (arith, gone))
    | inr ((z, zs), there) ↦ ground (arith, there, sum_of-take_out w n xs z zs there)
  ]

module _ {N : Type 0} where
  -- whether an action gives the worker an address of its master, where it gives one
  abbrev pub GivesAddress : Action N → Type 0
  GivesAddress (registers addr) = addr ≢ ""
  GivesAddress (assigns task) = Unit
  GivesAddress (cancels task_id a) = Unit
  GivesAddress (goes_on n a) = Unit

-- 1 for true, and 0 for false
abbrev pub one_if : Bool → ℕ
one_if b = if b then 1 else 0

module _ {N : Type 0} (id : String) where
  -- the goroutines that execute a task
  abbrev pub executes : Goroutine N → ℕ
  executes registering = 0
  executes (pulling task) = one_if (task.task_id == id)
  executes (running task container) = one_if (task.task_id == id)
  executes (reporting task run) = one_if (task.task_id == id)
  executes (confirming task_id) = 0

  -- the goroutines that confirm the cancellation of a task
  abbrev pub confirms : Goroutine N → ℕ
  confirms (confirming task_id) = one_if (task_id == id)
  confirms registering = 0
  confirms (pulling task) = 0
  confirms (running task container) = 0
  confirms (reporting task run) = 0

  abbrev pub acceptance : Entry N → ℕ
  acceptance (accepted task_id) = one_if (task_id == id)
  acceptance (cancelled task_id) = 0
  acceptance (sent message) = 0

  abbrev pub cancellation : Entry N → ℕ
  cancellation (cancelled task_id) = one_if (task_id == id)
  cancellation (accepted task_id) = 0
  cancellation (sent message) = 0

  abbrev pub report_of : Sent N → ℕ
  report_of (report r answer) = one_if (r.task_id == id)
  report_of (registration info) = 0
  report_of (uploaded chunks) = 0
  report_of (confirmation r answer) = 0
  report_of (shutdown_report r) = 0

  abbrev pub confirmation_of : Sent N → ℕ
  confirmation_of (confirmation r answer) = one_if (r.task_id == id)
  confirmation_of (registration info) = 0
  confirmation_of (uploaded chunks) = 0
  confirmation_of (report r answer) = 0
  confirmation_of (shutdown_report r) = 0

  -- the reports of the task's executions, and the confirmations of its cancellation, in an entry
  abbrev pub reporting_of : Entry N → ℕ
  reporting_of (sent message) = report_of message
  reporting_of (accepted task_id) = 0
  reporting_of (cancelled task_id) = 0

  abbrev pub confirming_of : Entry N → ℕ
  confirming_of (sent message) = confirmation_of message
  confirming_of (accepted task_id) = 0
  confirming_of (cancelled task_id) = 0

  abbrev pub optional : (Goroutine N → ℕ) → Option (Goroutine N) → ℕ
  optional w none = 0
  optional w (some g) = w g

  pub sent_append :
      (w : Entry N → ℕ) (xs ys : List (Sent N))
      → sum_of w (map sent (xs ++ ys)) ≡ sum_of w (map sent xs) + sum_of w (map sent ys)
  sent_append w [] ys = omega arith
  sent_append w (x ∷ xs) ys = omega (arith, sent_append w xs ys)

  -- An upload is no report and no confirmation.
  pub outputs_silent :
      (w : WorkerServer N) (task : Task N) (run : TaskRun) (a : Answers N)
      → (sum_of reporting_of (map sent (send_outputs w task run a)) ≡ 0)
        × (sum_of confirming_of (map sent (send_outputs w task run a)) ≡ 0)
  unfolding send_outputs
  outputs_silent w task run a = (ground arith, ground arith)

  pub messages_accept : (messages : List (Sent N)) → sum_of acceptance (map sent messages) ≡ 0
  messages_accept [] = refl
  messages_accept (message ∷ messages) = omega (arith, messages_accept messages)

  attempts_silent :
      (w : WorkerServer N) (task_id : String) (answers : ℕ → Answer) (n attempt : ℕ)
      → sum_of reporting_of
          (map sent (attempts_made n attempt (cancelled_result w task_id) answers))
        ≡ 0
  attempts_silent w task_id answers zero attempt = refl
  attempts_silent w task_id answers (suc n) attempt =
      omega (arith, attempts_silent w task_id answers n (attempt + 1))

  pub confirm_silent :
      (w : WorkerServer N) (task_id : String) (answers : ℕ → Answer)
      → sum_of reporting_of (map sent (confirm w task_id answers)) ≡ 0
  unfolding confirm
  confirm_silent w task_id answers =
      ground (arith, attempts_silent w task_id answers (retry_report 1 max_retries answers).made 1)

  -- At least one confirmation is tried, if there is an address to send it to.
  pub confirm_some :
      (w : WorkerServer N) (task_id : String) (answers : ℕ → Answer)
      → w.master_addr ≢ ""
      → one_if (task_id == id) ≤ sum_of confirming_of (map sent (confirm w task_id answers))
  unfolding confirm retry_report
  confirm_some w task_id answers known = ground (arith, eq_iff w.master_addr "")
