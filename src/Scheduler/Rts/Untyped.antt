-- ===== src/Scheduler/Rts/Untyped.antt =====
-- The estimate that buildTaskView of rts_scheduler.go reads for a task of no valid type, from the
-- store of master/internal/telemetry/tau_store.go.
use agentic_cloud_cluster.Base.{String, ◌≡◌, false, List, arith, Option-cases, inl, inr, ℤ}
use agentic_cloud_cluster.Float.{Float, eq, literal, zero}
use agentic_cloud_cluster.Dict.{lookup}
use agentic_cloud_cluster.Proto.{Task}
use agentic_cloud_cluster.Scheduler.Rts.{
  Clock, RtsScheduler, build_task_view, new_task_view_from_proto,
}
use agentic_cloud_cluster.Telemetry.Tau.{
  is_valid_task_type, default_tau_values, default_tau, get_tau, new_in_memory_tau_store_with_lambda,
}
use agentic_cloud_cluster.Telemetry.Tau.Types.{TauCall, is_some, calls, calls-HasTypes, eq_comm}

module _ {N : Type 0} ⦃f : Float N⦄ where
  default-unknown :
      (k : String) → is_valid_task_type k ≡ false → default_tau k ≡ literal {N = N} 10 1
  unfolding is_valid_task_type default_tau default_tau_values lookup
  default-unknown k h = ground (
    arith,
    h,
    eq_comm "cpu-light" k,
    eq_comm "cpu-heavy" k,
    eq_comm "memory-heavy" k,
    eq_comm "gpu-inference" k,
    eq_comm "gpu-training" k,
    eq_comm "mixed" k,
  )

  get_tau-unknown :
      (lambda : N) (cs : List (TauCall N)) (k : String)
      → is_valid_task_type k ≡ false
      → get_tau (calls (new_in_memory_tau_store_with_lambda lambda) cs) k ≡ literal 10 1
  unfolding get_tau is_some
  get_tau-unknown lambda cs k h =
      elim (Option-cases
        (lookup k (calls (new_in_memory_tau_store_with_lambda lambda) cs).tau_map)) [
          | inl e ↦ ground (arith, e, default-unknown k h)
          | inr (x, e) ↦ absurd (ground (arith, e, h, calls-HasTypes lambda cs k))
        ]

  -- A task that comes with no valid type is scheduled with the estimate of 10 seconds, whatever
  -- runtimes the store has learnt and whatever type is inferred from its amounts, as long as 10 is
  -- not taken for 0.
  pub untyped-tau :
      (clock : Clock N) (s : RtsScheduler N) (lambda : N) (cs : List (TauCall N)) (task : Task N)
      (now : ℤ)
      → is_valid_task_type task.task_type ≡ false
      → eq {N = N} (literal 10 1) zero ≡ false
      → (build_task_view clock s
          (get_tau (calls (new_in_memory_tau_store_with_lambda lambda) cs))
          task
          now).tau
        ≡ literal 10 1
  unfolding build_task_view new_task_view_from_proto
  untyped-tau clock s lambda cs task now h positive =
      ground (arith, positive, get_tau-unknown lambda cs task.task_type h)
