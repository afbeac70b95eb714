-- ===== src/Worker/Goroutines/Cancelled.antt =====
-- What the master hears of a task that it has cancelled at a worker.
use Prim.Native.Nat.{◌≤◌}
use agentic_cloud_cluster.Base.{
  String, ◌≡◌, ◌≢◌, none, List, [], ◌∷◌, ℤ, inl, inr, arith, eq_iff, Option-cases, All,
}
use agentic_cloud_cluster.Float.{Float}
use agentic_cloud_cluster.Dict.{lookup}
use agentic_cloud_cluster.Worker.Executor.{CancelAnswers, cancel_container}
use agentic_cloud_cluster.Worker.Server.{
  Goroutine, registering, pulling, running, reporting, confirming, WorkerServer, new_worker_server,
  cancel_running,
}
use agentic_cloud_cluster.Worker.Goroutines.{Action, run_actions}
use agentic_cloud_cluster.Worker.Goroutines.Counts.{
  sum_of, executes, confirms, reporting_of, confirming_of, GivesAddress,
}
use agentic_cloud_cluster.Worker.Goroutines.Arrivals.{
  IsAnswered, arrived_report, arrived_confirmation, run_actions-arrive,
}
use agentic_cloud_cluster.Worker.Goroutines.Balance.{run_actions-balance, run_actions-confirms}
use agentic_cloud_cluster.Worker.Goroutines.Tracked.{IsTracked, runs, run_actions-IsTracked}

module _ {N : Type 0} (id : String) where
  runs-le-executes :
      (c : String) (gs : List (Goroutine N)) → sum_of (runs id c) gs ≤ sum_of (executes id) gs
  runs-le-executes c [] = omega arith
  runs-le-executes c (registering ∷ gs) = omega (arith, runs-le-executes c gs)
  runs-le-executes c (pulling task ∷ gs) = omega (arith, runs-le-executes c gs)
  runs-le-executes c (running task container ∷ gs) = ground (arith, runs-le-executes c gs)
  runs-le-executes c (reporting task run ∷ gs) = omega (arith, runs-le-executes c gs)
  runs-le-executes c (confirming task_id ∷ gs) = omega (arith, runs-le-executes c gs)

  -- A cancellation that succeeds finds the task under way, leaves it so, and adds a confirmation.
  cancel_owes :
      (w : WorkerServer N) (a : CancelAnswers)
      → IsTracked w
      → (cancel_running w id a).0 ≡ none
      → let w' = (cancel_running w id a).1 in
        (1 ≤ sum_of (executes id) w'.goroutines)
        × (1 ≤ sum_of (confirms id) w'.goroutines)
        × (w'.master_addr ≡ w.master_addr)
  unfolding cancel_running cancel_container
  cancel_owes w a owned done = elim (Option-cases (lookup id w.executor.containers)) [
    | inl missing ↦ absurd (ground (arith, missing))
    | inr (c, there) ↦
        let owner = owned.tracked id c there in
        let execution = runs-le-executes c w.goroutines in
        (
          ground (arith, there, owner, execution),
          ground (arith, there, eq_iff id id),
          ground (arith, there),
        )
  ]

module _ {N : Type 0} ⦃f : Float N⦄ (to_int64 : N → ℤ) where
  -- What is tried after a cancellation, whether or not it arrives.
  cancel_running-attempts :
      (worker_id base : String) (before after : List (Action N)) (id : String) (a : CancelAnswers)
      → let w = (run_actions to_int64 (new_worker_server worker_id base) before).0 in
        let (error, w', calls) = cancel_running w id a in
        let (end, entries) = run_actions to_int64 w' after in
        error ≡ none
        → w.master_addr ≢ ""
        → All GivesAddress after
        → end.goroutines ≡ []
        → (1 ≤ sum_of (reporting_of id) entries) × (1 ≤ sum_of (confirming_of id) entries)
  cancel_running-attempts worker_id base before after id a done known given idle =
      let w = (run_actions to_int64 (new_worker_server worker_id base) before).0 in
      let w' = (cancel_running w id a).1 in
      let owned = run_actions-IsTracked to_int64 worker_id base before in
      let (execution, confirmation, address) = cancel_owes id w a owned done in
      let balance = run_actions-balance to_int64 id w' after in
      let confirmed = run_actions-confirms to_int64 id w' after (rw address known) given in
      (ground (arith, idle, balance), ground (arith, idle, confirmed))

  -- After any history of a worker, a cancellation that succeeds at it comes to the master twice at
  -- least: by the time that nothing is left to do, whatever happens in between, a report of the
  -- task's execution and a confirmation of its cancellation have each been answered by the master.
  -- The worker has an address of the master, every master that registers later gives one, and after
  -- the cancellation the master answers every attempt to send it a result, be it by a refusal.
  pub cancel_running-two_reports :
      (worker_id base : String) (before after : List (Action N)) (id : String) (a : CancelAnswers)
      → let w = (run_actions to_int64 (new_worker_server worker_id base) before).0 in
        let (error, w', calls) = cancel_running w id a in
        let (end, entries) = run_actions to_int64 w' after in
        error ≡ none
        → w.master_addr ≢ ""
        → All GivesAddress after
        → All IsAnswered after
        → end.goroutines ≡ []
        → (1 ≤ sum_of (arrived_report id) entries) × (1 ≤ sum_of (arrived_confirmation id) entries)
  cancel_running-two_reports worker_id base before after id a done known given heard idle =
      let w = (run_actions to_int64 (new_worker_server worker_id base) before).0 in
      let tried = cancel_running-attempts worker_id base before after id a done known given idle in
      let all = run_actions-arrive to_int64 id (cancel_running w id a).1 after heard in
      (omega (arith, tried.0, all.0), omega (arith, tried.1, all.1))
