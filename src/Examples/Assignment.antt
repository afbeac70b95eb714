-- ===== src/Examples/Assignment.antt =====
-- Assignments and cancellations at concrete inputs.
use agentic_cloud_cluster.Base.{◌≡◌, refl, true, some, ◌-ℤ◌, ℤ}
use agentic_cloud_cluster.Float.{lt, zero, ◌-◌}
use agentic_cloud_cluster.Float.Fixed.{fixed}
use agentic_cloud_cluster.Dict.{lookup}
use agentic_cloud_cluster.Server.State.{MasterServer, WorkerState, insufficient_cpu}
use agentic_cloud_cluster.Server.Assign.{
  stopped, check_assignment, commit_assignment, assign_task_to_worker, check_worker, send_task,
}
use agentic_cloud_cluster.Server.Assign.Guards.{
  IsAssigned, assign_task_to_worker-IsAssigned, assign_task_to_worker-failure,
}
use agentic_cloud_cluster.Server.Assign.Race.{interleaved, interleaved-oversubscribes}
use agentic_cloud_cluster.Server.Cancel.{cancel_task}
use agentic_cloud_cluster.Server.Cancel.Order.{StatusFirst, cancel-StatusFirst}
use agentic_cloud_cluster.Server.Queue.{process_queue}
use agentic_cloud_cluster.Server.Queue.Order.{Passed, process_queue-Passed}
use agentic_cloud_cluster.Scheduler.RoundRobin.{RoundRobin}
use agentic_cloud_cluster.Examples.{
  large_task, task_named, server, answers, round_robin, big_worker,
}

assign_task_to_worker-IsAssigned_example :
    IsAssigned server answers large_task "w2"
      (assign_task_to_worker server answers large_task "w2").1
unfolding assign_task_to_worker check_assignment check_worker send_task lookup
assign_task_to_worker-IsAssigned_example =
    assign_task_to_worker-IsAssigned server answers large_task "w2" refl

assign_task_to_worker-failure_example :
    (assign_task_to_worker server answers large_task "w1").1 ≡ server
unfolding assign_task_to_worker check_assignment check_worker send_task lookup
assign_task_to_worker-failure_example =
    assign_task_to_worker-failure server answers large_task "w1" refl

interleaved-oversubscribes_example :
    (w' : WorkerState _) × (lookup "w2"
        (interleaved server large_task (task_named "t4" large_task.req) "w2").workers
      ≡ some w')
    × (lt w'.available.cpu zero ≡ true)
    × (check_assignment
          (commit_assignment server large_task "w2")
          (task_named "t4" large_task.req)
          "w2"
        ≡ stopped
            (insufficient_cpu (big_worker.available.cpu - large_task.req.cpu) large_task.req.cpu))
unfolding check_assignment check_worker lookup ◌-ℤ◌
interleaved-oversubscribes_example =
    interleaved-oversubscribes server large_task (task_named "t4" large_task.req) "w2" big_worker
      refl refl refl refl

cancel-StatusFirst_example : StatusFirst server answers "t1" (cancel_task server answers "t1").2
cancel-StatusFirst_example = cancel-StatusFirst server answers "t1"

abbrev passed : MasterServer ℤ RoundRobin
passed = (process_queue round_robin server (λ _. answers)).0

process_queue-Passed_example :
    (s' : MasterServer ℤ RoundRobin) × Passed round_robin
      (λ _. answers)
      0
      server
      server.task_queue
      passed.task_queue
      s'
    × (passed ≡ record s' { task_queue = passed.task_queue })
process_queue-Passed_example = process_queue-Passed round_robin server (λ _. answers)
