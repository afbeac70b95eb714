-- ===== src/Examples/Training.antt =====
-- A training over two tasks of one worker.
use agentic_cloud_cluster.Base.{◌≡◌, refl, true, false, some, Option, List, [], ◌∷◌, pos, ℤ, ◌+ℤ◌}
use agentic_cloud_cluster.Float.{lt, literal, zero}
use agentic_cloud_cluster.Float.Fixed.{fixed}
use agentic_cloud_cluster.Dict.{lookup, insert}
use agentic_cloud_cluster.Scheduler.Params.{load_ga_params_or_default, get_default_ga_params}
use agentic_cloud_cluster.Aod.{TaskHistory, WorkerStats}
use agentic_cloud_cluster.Aod.Penalty.{
  build_penalty_vector, build_penalty_vector-bounded, find_max_energy, penalties_from, penalty_of,
  compute_sla_fail_rate, compute_worker_overload_rate, compute_energy_norm,
}
use agentic_cloud_cluster.Aod.Theta.{Row, IsBounded, train_theta, train_theta-IsBounded}
use agentic_cloud_cluster.Aod.Training.{run_training, trained_params-rejected}

abbrev past_task : TaskHistory ℤ
past_task = record {
  worker_id = "w1";
  task_type = "cpu-light";
  actual_runtime = pos 6000;
  tau = pos 5000;
  sla_success = true;
  cpu_used = pos 1000;
  mem_used = pos 500;
  gpu_used = pos 0;
  load_at_start = pos 300;
}

abbrev history : List (TaskHistory ℤ)
history = past_task ∷ past_task ∷ []

abbrev stats_w1 : WorkerStats ℤ
stats_w1 = record {
  worker_id = "w1";
  tasks_run = 2;
  sla_violations = 1;
  total_runtime = pos 12000;
  cpu_used_total = pos 2000;
  mem_used_total = pos 1000;
  gpu_used_total = pos 0;
  overload_time = pos 1000;
  total_time = pos 4000;
}

abbrev solution : List (Row ℤ) → Option (ℤ × ℤ × ℤ × ℤ)
solution rows = some (pos 9000, pos 100, pos 0, pos 300)

trained_params-rejected_example :
    load_ga_params_or_default (run_training solution (some history) (some (stats_w1 ∷ [])))
    ≡ get_default_ga_params
trained_params-rejected_example = trained_params-rejected solution history (stats_w1 ∷ []) refl

train_theta-IsBounded_example : IsBounded (train_theta solution history)
train_theta-IsBounded_example = train_theta-IsBounded solution history

-- one violation in two, a quarter of the time overloaded, and the most energy of all
build_penalty_vector-bounded_example :
    (lt (pos 1750) zero ≡ false) × (lt (literal 5 1) (pos 1750) ≡ false)
unfolding build_penalty_vector find_max_energy penalties_from penalty_of compute_sla_fail_rate
    compute_worker_overload_rate compute_energy_norm lookup insert ◌+ℤ◌
build_penalty_vector-bounded_example =
    build_penalty_vector-bounded (stats_w1 ∷ []) "w1" (pos 1750) refl
