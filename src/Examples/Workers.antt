-- ===== src/Examples/Workers.antt =====
-- A worker that accepts a task, is asked to cancel it, and goes on to the end.
use Prim.Native.Nat.{◌+◌, ◌≤◌}
use agentic_cloud_cluster.Base.{
  ℕ, ◌≡◌, ◌↔◌, refl, true, false, none, some, List, [], ◌∷◌, ℤ, pos, ◌==◌, eq_iff, eqb,
  if◌then◌else◌,
}
use agentic_cloud_cluster.Float.Fixed.{fixed}
use agentic_cloud_cluster.Dict.{lookup, insert}
use agentic_cloud_cluster.Worker.Executor.{
  ok, exited, file, RunAnswers, CancelAnswers, new_task_executor,
}
use agentic_cloud_cluster.Worker.Executor.Run.{execute_task}
use agentic_cloud_cluster.Worker.Executor.Run.Results.{Succeeds, execute_task-Succeeds}
use agentic_cloud_cluster.Worker.Monitor.{Answer, call_failed, acknowledged}
use agentic_cloud_cluster.Worker.Server.{
  WorkerServer, Answers, new_worker_server, cancel_running, retry_report, max_retries,
}
use agentic_cloud_cluster.Worker.Server.Retries.{IsRetried, retry_report-IsRetried}
use agentic_cloud_cluster.Worker.Goroutines.{
  Action, registers, assigns, goes_on, Entry, run_actions,
}
use agentic_cloud_cluster.Worker.Goroutines.Counts.{sum_of, executes, acceptance, reporting_of}
use agentic_cloud_cluster.Worker.Goroutines.Arrivals.{arrived_report, arrived_confirmation}
use agentic_cloud_cluster.Worker.Goroutines.Balance.{run_actions-balance}
use agentic_cloud_cluster.Worker.Goroutines.Tracked.{IsTracked, run_actions-IsTracked}
use agentic_cloud_cluster.Worker.Goroutines.Cancelled.{cancel_running-two_reports}
use agentic_cloud_cluster.Examples.{amounts, small_task}

abbrev pub whole : ℤ → ℤ
whole x = x

abbrev run_answers : RunAnswers
run_answers = record {
  pull_error = none;
  mkdir_error = none;
  created = ok "0123456789abcdef";
  start_error = none;
  log_lines = some ("hello, world" ∷ "bye" ∷ []);
  waited = exited (pos 0);
  output_dir_exists = true;
  entries = file "a.txt" ∷ [];
}

-- The first attempt fails, the second is refused.
abbrev attempts : ℕ → Answer
attempts n = if eqb n 1 then call_failed else acknowledged false

abbrev pub worker_answers : Answers ℤ
worker_answers = record {
  dial_ok = true;
  system_resources = some (amounts (pos 8000) (pos 16000));
  run = run_answers;
  read_file = λ path. some (1 ∷ 2 ∷ []);
  attempt = λ n. acknowledged true;
}

abbrev earlier : List (Action ℤ)
earlier = registers "10.0.0.9:50051" ∷ assigns small_task ∷ goes_on 0 worker_answers ∷ []

abbrev later : List (Action ℤ)
later =
    goes_on 0 worker_answers
    ∷ goes_on 0 worker_answers
    ∷ goes_on 0 worker_answers
    ∷ goes_on 0 worker_answers
    ∷ []

abbrev stop_answers : CancelAnswers
stop_answers = record { stop_ok = true; kill_ok = true }

abbrev busy_worker : WorkerServer ℤ
busy_worker = (run_actions whole (new_worker_server "w2" "/var/out") earlier).0

abbrev last_entries : List (Entry ℤ)
last_entries = (run_actions whole (cancel_running busy_worker "t1" stop_answers).1 later).1

cancel_running-two_reports_example :
    (1 ≤ sum_of (arrived_report "t1") last_entries)
    × (1 ≤ sum_of (arrived_confirmation "t1") last_entries)
unfolding run_actions cancel_running lookup insert new_worker_server
cancel_running-two_reports_example =
    cancel_running-two_reports whole "w2" "/var/out" earlier later "t1" stop_answers refl
      (λ e. let test : ("10.0.0.9:50051" == "") ≡ true = (eq_iff "10.0.0.9:50051" "").1 e in cc)
      (tt, (tt, (tt, (tt, tt)))) ((λ k. refl), ((λ k. refl), ((λ k. refl), ((λ k. refl), tt)))) refl

run_actions-IsTracked_example :
    IsTracked (run_actions whole (new_worker_server "w2" "/var/out") earlier).0
run_actions-IsTracked_example = run_actions-IsTracked whole "w2" "/var/out" earlier

run_actions-balance_example :
    sum_of (acceptance "t1") (run_actions whole busy_worker later).1
      + sum_of (executes "t1") busy_worker.goroutines
    ≡ sum_of (reporting_of "t1") (run_actions whole busy_worker later).1
      + sum_of (executes "t1") (run_actions whole busy_worker later).0.goroutines
run_actions-balance_example = run_actions-balance whole "t1" busy_worker later

execute_task-Succeeds_example :
    ((execute_task whole new_task_executor small_task "/var/out/t1" run_answers).0.status
      ≡ "success")
    ↔ Succeeds run_answers
execute_task-Succeeds_example =
    execute_task-Succeeds whole new_task_executor small_task "/var/out/t1" run_answers

retry_report-IsRetried_example :
    IsRetried 1 max_retries attempts (retry_report 1 max_retries attempts)
retry_report-IsRetried_example = retry_report-IsRetried 1 max_retries attempts
