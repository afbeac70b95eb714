-- ===== src/Scheduler/Params.antt =====
-- The task types and the trained parameters of master/internal/scheduler/rts_models.go and
-- rts_params_loader.go. A nil map and an empty one are not told apart: both are the empty list.
use agentic_cloud_cluster.Base.{
  String, Bool, Option, none, some, [], ◌∷◌, ◌==◌, ◌&&◌, ◌||◌, not, if◌then◌else◌,
}
use agentic_cloud_cluster.Float.{Float, lt, le, literal, zero, ◌-◌}
use agentic_cloud_cluster.Dict.{Dict}
use agentic_cloud_cluster.Proto.{Task}

pub record Theta (N : Type 0) : Type 0 where
  pub theta1 : N
  pub theta2 : N
  pub theta3 : N
  pub theta4 : N

pub record Risk (N : Type 0) : Type 0 where
  pub alpha : N
  pub beta : N

-- GAParams
pub record GaParams (N : Type 0) : Type 0 where
  pub theta : Theta N
  pub risk : Risk N
  pub affinity_matrix : Dict (Dict N)
  pub penalty_vector : Dict N

-- ValidateTaskType, and the map of valid types in validateGAParams
unfoldable pub validate_task_type : String → Bool
validate_task_type task_type =
    task_type == "cpu-light"
    || task_type == "cpu-heavy"
    || task_type == "memory-heavy"
    || task_type == "gpu-inference"
    || task_type == "gpu-training"
    || task_type == "mixed"

-- the errors of validateGAParams
pub data ParamsError : Type 0 where
  theta1_out_of_range theta2_out_of_range theta3_out_of_range theta4_out_of_range : ParamsError
  alpha_out_of_range beta_out_of_range : ParamsError
  invalid_task_type : String → ParamsError
  affinity_out_of_range : String → String → ParamsError
  penalty_out_of_range : String → ParamsError

module _ {N : Type 0} ⦃f : Float N⦄ where
  unfoldable pub infer_task_type : Task N → String
  infer_task_type task =
      if lt (literal 2 1) task.req.gpu && lt (literal 4 1) task.req.cpu
      then "gpu-training"
      else if lt zero task.req.gpu
      then "gpu-inference"
      else if lt (literal 8 1) task.req.memory
      then "memory-heavy"
      else if lt (literal 4 1) task.req.cpu
      then "cpu-heavy"
      else if lt zero task.req.cpu
      then "cpu-light"
      else "mixed"

  -- GetSLAMultiplier. The generated message has the getter, which returns a float64.
  unfoldable pub get_sla_multiplier : Task N → N
  get_sla_multiplier task =
      if le (literal 3 2) task.sla_multiplier && le task.sla_multiplier (literal 5 2)
      then task.sla_multiplier
      else literal 2 1

  unfoldable pub get_default_ga_params : GaParams N
  get_default_ga_params = record {
    theta = record {
      theta1 = literal 1 10;
      theta2 = literal 1 10;
      theta3 = literal 3 10;
      theta4 = literal 2 10;
    };
    risk = record { alpha = literal 10 1; beta = literal 1 1 };
    affinity_matrix = [];
    penalty_vector = [];
  }

  -- `x < low || x > high`
  abbrev pub outside : N → N → N → Bool
  outside low high x = lt x low || lt high x

  -- The inner loop over the affinities of one type. `none` is a nil error.
  unfoldable pub validate_affinities : String → Dict N → Option ParamsError
  validate_affinities task_type [] = none
  validate_affinities task_type ((worker_id, affinity) ∷ rest) =
      if outside (zero - literal 10 1) (literal 10 1) affinity
      then some (affinity_out_of_range task_type worker_id)
      else validate_affinities task_type rest

  unfoldable pub validate_matrix : Dict (Dict N) → Option ParamsError
  unfolding validate_affinities
  validate_matrix [] = none
  validate_matrix ((task_type, affinities) ∷ rest) =
      if not (validate_task_type task_type)
      then some (invalid_task_type task_type)
      else elim (validate_affinities task_type affinities) [
        | some error ↦ some error
        | none ↦ validate_matrix rest
      ]

  unfoldable pub validate_penalties : Dict N → Option ParamsError
  validate_penalties [] = none
  validate_penalties ((worker_id, penalty) ∷ rest) =
      if outside zero (literal 100 1) penalty
      then some (penalty_out_of_range worker_id)
      else validate_penalties rest

  -- validateGAParams
  unfoldable pub validate_ga_params : GaParams N → Option ParamsError
  unfolding validate_matrix validate_penalties
  validate_ga_params params =
      let theta = params.theta in
      let risk = params.risk in
      if outside zero (literal 10 1) theta.theta1
      then some theta1_out_of_range
      else if outside zero (literal 10 1) theta.theta2
      then some theta2_out_of_range
      else if outside zero (literal 10 1) theta.theta3
      then some theta3_out_of_range
      else if outside zero (literal 10 1) theta.theta4
      then some theta4_out_of_range
      else if outside zero (literal 1000 1) risk.alpha
      then some alpha_out_of_range
      else if outside zero (literal 100 1) risk.beta
      then some beta_out_of_range
      else elim (validate_matrix params.affinity_matrix) [
        | some error ↦ some error
        | none ↦ validate_penalties params.penalty_vector
      ]

  -- LoadGAParams: what the file holds comes from outside, `none` if it cannot be read or parsed.
  unfoldable pub load_ga_params : Option (GaParams N) → Option (GaParams N)
  unfolding validate_ga_params
  load_ga_params none = none
  load_ga_params (some params) = elim (validate_ga_params params) [
    | some error ↦ none
    | none ↦ some params
  ]

  -- LoadGAParamsOrDefault
  unfoldable pub load_ga_params_or_default : Option (GaParams N) → GaParams N
  unfolding load_ga_params get_default_ga_params
  load_ga_params_or_default file = elim (load_ga_params file) [
    | none ↦ get_default_ga_params
    | some params ↦ params
  ]
