-- ===== src/Aod/Training.antt =====
-- RunTraining of master/internal/aod/trainer.go, and what becomes of its result when the scheduler
-- loads it. The file is JSON, which comes out as it went in; what it holds is the model's value.
use agentic_cloud_cluster.Base.{
  String, ◌≡◌, refl, inl, inr, false, Option, none, some, List, [], ◌∷◌, arith, if◌then◌else◌,
  length, drop, ltb, Bool-cases, Option-cases,
}
use agentic_cloud_cluster.Float.{Float, literal}
use agentic_cloud_cluster.Scheduler.Params.{
  Risk, GaParams, ParamsError, invalid_task_type, validate_task_type, validate_affinities,
  validate_matrix, validate_ga_params, load_ga_params, load_ga_params_or_default,
  get_default_ga_params,
}
use agentic_cloud_cluster.Aod.{TaskHistory, WorkerStats}
use agentic_cloud_cluster.Aod.Affinity.{
  affinity_task_types, affinities_of_type, affinities_of_types, get_unique_workers,
  build_affinity_matrix,
}
use agentic_cloud_cluster.Aod.Penalty.{build_penalty_vector}
use agentic_cloud_cluster.Aod.Theta.{Row, train_theta, get_default_theta}

Fails : Option ParamsError → Type 0
Fails e = (error : ParamsError) × (e ≡ some error)

module _ {N : Type 0} ⦃f : Float N⦄ where
  unfoldable pub default_risk : Risk N
  default_risk = record { alpha = literal 10 1; beta = literal 1 1 }

  -- saveDefaultParams
  unfoldable pub default_params : GaParams N
  unfolding default_risk get_default_theta
  default_params = record {
    theta = get_default_theta;
    risk = default_risk;
    affinity_matrix = [];
    penalty_vector = [];
  }

  -- Steps 3 to 6 of RunTraining: the parameters that are saved.
  unfoldable pub trained_params :
      (List (Row N) → Option (N × N × N × N))
      → List (TaskHistory N)
      → List (WorkerStats N)
      → GaParams N
  unfolding default_risk
  trained_params solve history stats = record {
    theta = train_theta solve history;
    risk = default_risk;
    affinity_matrix = build_affinity_matrix history;
    penalty_vector = build_penalty_vector stats;
  }

  -- RunTraining: what is saved, or nothing where the database fails.
  unfoldable pub run_training :
      (List (Row N) → Option (N × N × N × N))
      → Option (List (TaskHistory N))
      → Option (List (WorkerStats N))
      → Option (GaParams N)
  unfolding trained_params default_params
  run_training solve none stats = none
  run_training solve (some history) none = none
  run_training solve (some history) (some stats) =
      some (if ltb (length history) 2 then default_params else trained_params solve history stats)

  -- a matrix with an entry for a type that is not valid
  invalid-Fails :
      (history : List (TaskHistory N)) (workers : List String) (task_type : String)
      (rest : List String)
      → validate_task_type task_type ≡ false
      → Fails (validate_matrix (affinities_of_types history workers (task_type ∷ rest)))
  unfolding Fails validate_matrix affinities_of_types
  invalid-Fails history workers task_type rest h = (invalid_task_type task_type, ground (arith, h))

  next-Fails :
      (history : List (TaskHistory N)) (workers : List String) (task_type : String)
      (rest : List String)
      → Fails (validate_matrix (affinities_of_types history workers rest))
      → Fails (validate_matrix (affinities_of_types history workers (task_type ∷ rest)))
  unfolding Fails validate_matrix affinities_of_types
  next-Fails history workers task_type rest (error, e) =
      elim (Bool-cases (validate_task_type task_type)) [
        | inr bad ↦ (invalid_task_type task_type, ground (arith, bad))
        | inl good ↦
            elim (Option-cases
              (validate_affinities task_type (affinities_of_type history task_type workers))) [
                | inl ok ↦ (error, ground (arith, good, ok, e))
                | inr (other, e') ↦ (other, ground (arith, good, e'))
              ]
      ]

  matrix-Fails :
      (history : List (TaskHistory N)) → Fails (validate_matrix (build_affinity_matrix history))
  unfolding build_affinity_matrix validate_task_type
  matrix-Fails history =
      let workers = get_unique_workers history in
      next-Fails history workers "cpu-light" (drop 1 affinity_task_types) (
        next-Fails history workers "cpu-heavy" (drop 2 affinity_task_types) (
          next-Fails history workers "memory-heavy" (drop 3 affinity_task_types)
            (invalid-Fails history workers "gpu-heavy" (drop 4 affinity_task_types) refl)))

  -- what fails in the matrix fails as a whole
  params-Fails :
      (params : GaParams N)
      → Fails (validate_matrix params.affinity_matrix)
      → Fails (validate_ga_params params)
  unfolding Fails validate_ga_params
  params-Fails params (error, e) = elim (Option-cases (validate_ga_params params)) [
    | inl passed ↦ absurd (ground (arith, passed, e))
    | inr failed ↦ failed
  ]

  trained-Fails :
      (solve : List (Row N) → Option (N × N × N × N)) (history : List (TaskHistory N))
      (stats : List (WorkerStats N))
      → Fails (validate_matrix (trained_params solve history stats).affinity_matrix)
  unfolding trained_params
  trained-Fails solve history stats = matrix-Fails history

  -- Parameters that were trained never reach the scheduler: whatever the history and the
  -- statistics, if there are at least two tasks, so that the training does not save the default
  -- parameters itself, the loader rejects what it saved and takes the default parameters.
  pub trained_params-rejected :
      (solve : List (Row N) → Option (N × N × N × N)) (history : List (TaskHistory N))
      (stats : List (WorkerStats N))
      → ltb (length history) 2 ≡ false
      → load_ga_params_or_default (run_training solve (some history) (some stats))
        ≡ get_default_ga_params
  unfolding Fails run_training load_ga_params load_ga_params_or_default
  trained_params-rejected solve history stats h =
      let (error, e) =
        params-Fails (trained_params solve history stats) (trained-Fails solve history stats) in
      ground (arith, h, e)
