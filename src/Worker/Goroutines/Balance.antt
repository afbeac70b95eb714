-- ===== src/Worker/Goroutines/Balance.antt =====
-- What the goroutines of worker/internal/server/worker_server.go owe to the master: a count of tasks,
-- of goroutines and of messages over any history.
use Prim.Native.Nat.{◌+◌, ◌≤◌}
use agentic_cloud_cluster.Base.{
  String, ◌≡◌, ◌≢◌, refl, List, [], ◌∷◌, map, ℤ, inl, inr, arith, Option-cases, All,
}
use agentic_cloud_cluster.Float.{Float}
use agentic_cloud_cluster.Worker.Server.{
  Goroutine, registering, pulling, running, reporting, confirming, WorkerServer, Sent, report,
  Answers, send_outputs, accept_task, cancel_running, master_register, run_result,
}
use agentic_cloud_cluster.Worker.Goroutines.{
  Action, registers, assigns, cancels, goes_on, sent, take_out, advance, act, run_actions,
  register_with_master,
}
use agentic_cloud_cluster.Worker.Goroutines.Counts.{
  sum_of, sum_of-append, sum_of-take_out, executes, confirms, acceptance, cancellation,
  reporting_of, confirming_of, optional, sent_append, outputs_silent, messages_accept,
  confirm_silent, confirm_some, GivesAddress,
}

module _ {N : Type 0} ⦃f : Float N⦄ (to_int64 : N → ℤ) (id : String) where
  registering_silent :
      (w : WorkerServer N) (a : Answers N)
      → sum_of (reporting_of id) (map sent (register_with_master to_int64 w a)) ≡ 0
  unfolding register_with_master
  registering_silent w a = elim (Option-cases a.system_resources) [
    | inl e ↦ ground (arith, e)
    | inr (total, e) ↦ ground (arith, e)
  ]

  advance_balance :
      (w : WorkerServer N) (g : Goroutine N) (a : Answers N)
      → let (left, w', messages) = advance to_int64 w g a in
        executes id g
        ≡ optional id (executes id) left + sum_of (reporting_of id) (map sent messages)
  unfolding advance
  advance_balance w registering a = omega (arith, registering_silent w a)
  advance_balance w (pulling task) a = ground arith
  advance_balance w (running task container) a = omega arith
  advance_balance w (reporting task run) a = omega (
    arith,
    sent_append id (reporting_of id) (send_outputs w task run a)
        (report (run_result w task run) (a.attempt 1) ∷ []),
    (outputs_silent id w task run a).0,
  )
  advance_balance w (confirming task_id) a = omega (arith, confirm_silent id w task_id a.attempt)

  act_balance :
      (w : WorkerServer N) (action : Action N)
      → let (w', entries) = act to_int64 w action in
        sum_of (acceptance id) entries + sum_of (executes id) w.goroutines
        ≡ sum_of (reporting_of id) entries + sum_of (executes id) w'.goroutines
  unfolding act accept_task cancel_running master_register
  act_balance w (registers addr) = omega arith
  act_balance w (assigns task) = ground arith
  act_balance w (cancels task_id a) = ground arith
  act_balance w (goes_on n a) = elim (Option-cases (take_out n w.goroutines)) [
    | inl gone ↦ ground (arith, gone)
    | inr ((g, others), there) ↦
        let (left, w', messages) = advance to_int64 w g a in
        ground (
          arith,
          there,
          sum_of-take_out (executes id) n w.goroutines g others there,
          advance_balance w g a,
          messages_accept id messages,
        )
  ]

  -- In every history, from any state of the worker: the executions of a task that are under way at
  -- the beginning and the acceptances of it are as many as the reports of its executions that are
  -- tried, each once, and the executions that are under way at the end.
  pub run_actions-balance :
      (w : WorkerServer N) (actions : List (Action N))
      → let (w', entries) = run_actions to_int64 w actions in
        sum_of (acceptance id) entries + sum_of (executes id) w.goroutines
        ≡ sum_of (reporting_of id) entries + sum_of (executes id) w'.goroutines
  unfolding run_actions
  run_actions-balance w [] = refl
  run_actions-balance w (action ∷ rest) =
      let (w₁, entries) = act to_int64 w action in
      let (w₂, later) = run_actions to_int64 w₁ rest in
      omega (
        arith,
        sum_of-append (acceptance id) entries later,
        sum_of-append (reporting_of id) entries later,
        act_balance w action,
        run_actions-balance w₁ rest,
      )

  advance-confirms :
      (w : WorkerServer N) (g : Goroutine N) (a : Answers N)
      → w.master_addr ≢ ""
      → let (left, w', messages) = advance to_int64 w g a in
        (confirms id g
          ≤ optional id (confirms id) left + sum_of (confirming_of id) (map sent messages))
        × (w'.master_addr ≡ w.master_addr)
  unfolding advance
  advance-confirms w registering a known = (omega arith, refl)
  advance-confirms w (pulling task) a known = (omega arith, refl)
  advance-confirms w (running task container) a known = (omega arith, refl)
  advance-confirms w (reporting task run) a known = (omega arith, refl)
  advance-confirms w (confirming task_id) a known =
      (omega (arith, confirm_some id w task_id a.attempt known), refl)

  messages_cancel : (messages : List (Sent N)) → sum_of (cancellation id) (map sent messages) ≡ 0
  messages_cancel [] = refl
  messages_cancel (message ∷ messages) = omega (arith, messages_cancel messages)

  act-confirms :
      (w : WorkerServer N) (action : Action N)
      → w.master_addr ≢ ""
      → GivesAddress action
      → let (w', entries) = act to_int64 w action in
        (sum_of (cancellation id) entries + sum_of (confirms id) w.goroutines
          ≤ sum_of (confirming_of id) entries + sum_of (confirms id) w'.goroutines)
        × (w'.master_addr ≢ "")
  unfolding act accept_task cancel_running master_register
  act-confirms w (registers addr) known given = (omega arith, given)
  act-confirms w (assigns task) known given = (ground arith, ground arith)
  act-confirms w (cancels task_id a) known given = (ground arith, ground arith)
  act-confirms w (goes_on n a) known given = elim (Option-cases (take_out n w.goroutines)) [
    | inl gone ↦ (ground (arith, gone), ground (arith, gone))
    | inr ((g, others), there) ↦
        let (left, w', messages) = advance to_int64 w g a in
        let (owed, kept) = advance-confirms w g a known in
        (
          ground (
            arith,
            there,
            sum_of-take_out (confirms id) n w.goroutines g others there,
            owed,
            messages_cancel messages,
          ),
          ground (arith, there, kept),
        )
  ]

  -- The cancellations of a task in a history, and the confirmations under way before it, are no more
  -- than the confirmations that are sent in it, and those under way after it.
  pub run_actions-confirms :
      (w : WorkerServer N) (actions : List (Action N))
      → w.master_addr ≢ ""
      → All GivesAddress actions
      → let (w', entries) = run_actions to_int64 w actions in
        sum_of (cancellation id) entries + sum_of (confirms id) w.goroutines
        ≤ sum_of (confirming_of id) entries + sum_of (confirms id) w'.goroutines
  unfolding run_actions
  run_actions-confirms w [] known given = omega arith
  run_actions-confirms w (action ∷ rest) known given =
      let (w₁, entries) = act to_int64 w action in
      let (w₂, later) = run_actions to_int64 w₁ rest in
      let (first, known') = act-confirms w action known given.0 in
      omega (
        arith,
        sum_of-append (cancellation id) entries later,
        sum_of-append (confirming_of id) entries later,
        first,
        run_actions-confirms w₁ rest known' given.1,
      )
