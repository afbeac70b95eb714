-- ===== src/Examples/Completion.antt =====
-- Reports and reconciliations at concrete inputs.
use agentic_cloud_cluster.Base.{
  ◌≡◌, refl, none, some, List, [], ◌∷◌, ◌==◌, ◌&&◌, not, if◌then◌else◌, ℤ, ◌+ℤ◌, ◌-ℤ◌,
}
use agentic_cloud_cluster.Float.Fixed.{fixed}
use agentic_cloud_cluster.Dict.{lookup}
use agentic_cloud_cluster.Server.State.{MasterServer, WorkerState, TaskDoc, add_resources}
use agentic_cloud_cluster.Server.Assign.{
  assign_task_to_worker, check_assignment, check_worker, send_task,
}
use agentic_cloud_cluster.Server.Reconcile.{reconcile_worker_resources}
use agentic_cloud_cluster.Server.Reconcile.Books.{tasks_of, IsReconciled}
use agentic_cloud_cluster.Server.Reconcile.Sums.{reconcile-lookup}
use agentic_cloud_cluster.Server.Complete.{is_cancelled, report_task_completion}
use agentic_cloud_cluster.Server.Complete.Status.{
  status_for, status_writes, result_writes, report-status_writes, report-result_writes,
}
use agentic_cloud_cluster.Server.Complete.Accounts.{
  IsReleased, report-IsReleased, report_twice, report-assign,
}
use agentic_cloud_cluster.Scheduler.RoundRobin.{RoundRobin}
use agentic_cloud_cluster.Examples.{
  big_worker, small_task, large_task, doc_of, server, answers, report_of,
}

report-status_writes_example :
    status_writes (report_task_completion server answers (report_of "t1" "success")).2 ≡ (
      if server.parts.task_db && not (is_cancelled answers.task_again)
      then ("t1", status_for "success") ∷ []
      else [])
report-status_writes_example = report-status_writes server answers (report_of "t1" "success")

report-result_writes_example :
    result_writes (report_task_completion server answers (report_of "t1" "success")).2 ≡ (
      if not server.parts.result_db
      then []
      else if not server.parts.task_db
      then ("t1", "success") ∷ []
      else if is_cancelled answers.task_again
      then (if answers.result_exists then [] else ("t1", "cancelled") ∷ [])
      else if not answers.update_status_ok && not ("success" == "cancelled")
      then []
      else ("t1", "success") ∷ [])
report-result_writes_example = report-result_writes server answers (report_of "t1" "success")

report-IsReleased_example :
    (w' : WorkerState ℤ) × (lookup "w2"
        (report_task_completion server answers (report_of "t1" "success")).1.workers
      ≡ some w')
    × IsReleased "t1" small_task.req big_worker w'
unfolding lookup
report-IsReleased_example =
    report-IsReleased server answers (report_of "t1" "success") big_worker
      (doc_of small_task "running") refl refl refl

abbrev twice : MasterServer ℤ RoundRobin
twice =
    (report_task_completion (report_task_completion server answers (report_of "t1" "cancelled")).1
      answers (report_of "t1" "cancelled")).1

report_twice_example :
    (w' : WorkerState ℤ) × (lookup "w2" twice.workers ≡ some w')
    × (w'.available
        ≡ add_resources (add_resources big_worker.available small_task.req) small_task.req)
unfolding lookup
report_twice_example =
    report_twice server answers answers (report_of "t1" "cancelled") (report_of "t1" "cancelled")
      big_worker (doc_of small_task "running") refl refl refl refl refl

abbrev assigned : MasterServer ℤ RoundRobin
assigned = (assign_task_to_worker server answers small_task "w2").1

report-assign_example :
    (w' : WorkerState ℤ) × (lookup "w2"
        (report_task_completion assigned answers (report_of "t1" "success")).1.workers
      ≡ some w')
    × (w'.available ≡ big_worker.available)
    × (w'.allocated ≡ big_worker.allocated)
    × (lookup "t1" w'.running_tasks ≡ none)
unfolding lookup assign_task_to_worker check_assignment check_worker send_task ◌+ℤ◌ ◌-ℤ◌
report-assign_example =
    report-assign server answers answers small_task (report_of "t1" "success") big_worker
      (doc_of small_task "running") refl refl refl refl refl
      (record { sub_add = refl; add_sub = refl }) (record { sub_add = refl; add_sub = refl })
      (record { cpu = refl; memory = refl; storage = refl; gpu = refl })

abbrev running_docs : List (TaskDoc ℤ)
running_docs = doc_of large_task "running" ∷ []

reconcile-lookup_example :
    (w' : WorkerState ℤ) × (lookup "w2" (reconcile_worker_resources server answers).1.workers
      ≡ some w')
    × IsReconciled (tasks_of answers.assignment "w2" running_docs) big_worker w'
unfolding lookup
reconcile-lookup_example =
    reconcile-lookup server answers running_docs "w2" big_worker refl refl refl refl
