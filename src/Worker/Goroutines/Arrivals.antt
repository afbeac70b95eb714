-- ===== src/Worker/Goroutines/Arrivals.antt =====
-- Which of the messages that worker/internal/server/worker_server.go tries to send come to the master.
use Prim.Native.Nat.{◌+◌}
use agentic_cloud_cluster.Base.{
  ℕ, zero, suc, String, true, ◌≡◌, refl, List, [], ◌∷◌, ◌++◌, ◌==◌, ◌&&◌, map, ℤ, inl, inr, arith,
  Option-cases, All, subst, sym, ap,
}
use agentic_cloud_cluster.Float.{Float}
use agentic_cloud_cluster.Proto.{Task, TaskResult}
use agentic_cloud_cluster.Worker.Executor.{TaskRun}
use agentic_cloud_cluster.Worker.Monitor.{Answer}
use agentic_cloud_cluster.Worker.Server.{
  Goroutine, registering, pulling, running, reporting, confirming, WorkerServer, Sent, report,
  confirmation, Answers, send_outputs, confirm, attempts_made, retry_report, max_retries,
  cancelled_result, accept_task, cancel_running, master_register, run_result,
}
use agentic_cloud_cluster.Worker.Server.Retries.{is_answered}
use agentic_cloud_cluster.Worker.Goroutines.{
  Action, registers, assigns, cancels, goes_on, Entry, sent, take_out, advance, act, run_actions,
  register_with_master,
}
use agentic_cloud_cluster.Worker.Goroutines.Counts.{
  sum_of, sum_of-append, one_if, reporting_of, confirming_of,
}

module _ {N : Type 0} (id : String) where
  -- the reports of the task's executions that the master answers
  abbrev pub arrived_report : Entry N → ℕ
  arrived_report (sent (report r answer)) = one_if (r.task_id == id && is_answered answer)
  arrived_report entry = 0

  -- the confirmations of its cancellation that the master answers
  abbrev pub arrived_confirmation : Entry N → ℕ
  arrived_confirmation (sent (confirmation r answer)) =
      one_if (r.task_id == id && is_answered answer)
  arrived_confirmation entry = 0

  -- As many arrive as are tried.
  abbrev pub AllArrive : List (Entry N) → Type 0
  AllArrive entries =
      (sum_of arrived_report entries ≡ sum_of (reporting_of id) entries)
      × (sum_of arrived_confirmation entries ≡ sum_of (confirming_of id) entries)

module _ {N : Type 0} where
  sent_messages : (xs ys : List (Sent N)) → map sent (xs ++ ys) ≡ map sent xs ++ map sent ys
  sent_messages [] ys = refl
  sent_messages (x ∷ xs) ys = ap (λ rest. sent x ∷ rest) (sent_messages xs ys)

  -- The master answers whatever is tried in this action.
  abbrev pub IsAnswered : Action N → Type 0
  IsAnswered (goes_on n a) = (k : ℕ) → is_answered (a.attempt k) ≡ true
  IsAnswered (registers addr) = Unit
  IsAnswered (assigns task) = Unit
  IsAnswered (cancels task_id a) = Unit

module _ {N : Type 0} ⦃f : Float N⦄ (to_int64 : N → ℤ) (id : String) where
  attempts_arrive :
      (n attempt : ℕ) (result : TaskResult) (answers : ℕ → Answer)
      → ((k : ℕ) → is_answered (answers k) ≡ true)
      → AllArrive {N = N} id (map sent (attempts_made n attempt result answers))
  attempts_arrive zero attempt result answers heard = (refl, refl)
  attempts_arrive (suc n) attempt result answers heard =
      let rest = attempts_arrive n (attempt + 1) result answers heard in
      (ground (arith, rest.0), ground (arith, rest.1, heard attempt))

  confirm_arrives :
      (w : WorkerServer N) (task_id : String) (answers : ℕ → Answer)
      → ((k : ℕ) → is_answered (answers k) ≡ true)
      → AllArrive id (map sent (confirm w task_id answers))
  unfolding confirm
  confirm_arrives w task_id answers heard =
      let made = (retry_report 1 max_retries answers).made in
      let all = attempts_arrive made 1 (cancelled_result w task_id) answers heard in
      (ground (arith, all.0), ground (arith, all.1))

  append_arrive :
      (xs ys : List (Entry N)) → AllArrive id xs → AllArrive id ys → AllArrive id (xs ++ ys)
  append_arrive xs ys h k = (
    omega (
      arith,
      h.0,
      k.0,
      sum_of-append (arrived_report id) xs ys,
      sum_of-append (reporting_of id) xs ys,
    ),
    omega (
      arith,
      h.1,
      k.1,
      sum_of-append (arrived_confirmation id) xs ys,
      sum_of-append (confirming_of id) xs ys,
    ),
  )

  registering_arrives :
      (w : WorkerServer N) (a : Answers N)
      → AllArrive id (map sent (register_with_master to_int64 w a))
  unfolding register_with_master
  registering_arrives w a = elim (Option-cases a.system_resources) [
    | inl e ↦ (ground (arith, e), ground (arith, e))
    | inr (total, e) ↦ (ground (arith, e), ground (arith, e))
  ]

  outputs_arrive :
      (w : WorkerServer N) (task : Task N) (run : TaskRun) (a : Answers N)
      → AllArrive id (map sent (send_outputs w task run a))
  unfolding send_outputs
  outputs_arrive w task run a = (ground arith, ground arith)

  advance_arrives :
      (w : WorkerServer N) (g : Goroutine N) (a : Answers N)
      → ((k : ℕ) → is_answered (a.attempt k) ≡ true)
      → AllArrive id (map sent (advance to_int64 w g a).2)
  unfolding advance
  advance_arrives w registering a heard = registering_arrives w a
  advance_arrives w (pulling task) a heard = (refl, refl)
  advance_arrives w (running task container) a heard = (refl, refl)
  advance_arrives w (reporting task run) a heard =
      let outputs = send_outputs w task run a in
      let last : List (Sent N) = report (run_result w task run) (a.attempt 1) ∷ [] in
      let all =
        append_arrive (map sent outputs) (map sent last) (outputs_arrive w task run a)
          (ground (arith, heard 1), ground arith) in
      subst (AllArrive id) (sym (sent_messages outputs last)) all
  advance_arrives w (confirming task_id) a heard = confirm_arrives w task_id a.attempt heard

  act_arrives :
      (w : WorkerServer N) (action : Action N)
      → IsAnswered action
      → AllArrive id (act to_int64 w action).1
  unfolding act accept_task cancel_running master_register
  act_arrives w (registers addr) heard = (refl, refl)
  act_arrives w (assigns task) heard = (ground arith, ground arith)
  act_arrives w (cancels task_id a) heard = (ground arith, ground arith)
  act_arrives w (goes_on n a) heard = elim (Option-cases (take_out n w.goroutines)) [
    | inl gone ↦ (ground (arith, gone), ground (arith, gone))
    | inr ((g, others), there) ↦
        let all = advance_arrives w g a heard in
        (ground (arith, there, all.0), ground (arith, there, all.1))
  ]

  -- If the master answers every attempt, all that is tried arrives.
  pub run_actions-arrive :
      (w : WorkerServer N) (actions : List (Action N))
      → All IsAnswered actions
      → AllArrive id (run_actions to_int64 w actions).1
  unfolding run_actions
  run_actions-arrive w [] heard = (refl, refl)
  run_actions-arrive w (action ∷ rest) heard =
      let (w₁, entries) = act to_int64 w action in
      append_arrive entries (run_actions to_int64 w₁ rest).1 (act_arrives w action heard.0)
        (run_actions-arrive w₁ rest heard.1)
