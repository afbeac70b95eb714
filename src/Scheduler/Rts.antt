-- ===== src/Scheduler/Rts.antt =====
-- RTSScheduler of master/internal/scheduler/rts_scheduler.go, with NewTaskViewFromProto of
-- rts_models.go. The parameters are those that getGAParamsSafe returns; the estimates of the tau
-- store and the views of the telemetry source are given to the call.
pub mod Best
pub mod Choice
pub mod Untyped
use agentic_cloud_cluster.Base.{
  String, Bool, true, false, Option, none, some, List, [], ◌∷◌, ◌==◌, ◌&&◌, ◌||◌, not,
  if◌then◌else◌, ℤ, ◌+ℤ◌, ltb_ℤ,
}
use agentic_cloud_cluster.Float.{Float, ◌+◌, ◌-◌, ◌*◌, ◌/◌, lt, le, eq, literal, zero}
use agentic_cloud_cluster.Dict.{Dict, lookup}
use agentic_cloud_cluster.Proto.{Resources, Task}
use agentic_cloud_cluster.Scheduler.{WorkerView}
use agentic_cloud_cluster.Scheduler.RoundRobin.{RoundRobin, reset, select_worker}
use agentic_cloud_cluster.Scheduler.Params.{
  Theta, Risk, GaParams, validate_task_type, infer_task_type, get_sla_multiplier,
  load_ga_params_or_default,
}
use agentic_cloud_cluster.Scheduler.Telemetry.{LoadView}

-- What the code takes from Go's package time, a duration and a time being numbers of nanoseconds:
-- the conversion of a float64 to a Duration, Duration.Seconds, and Time.Sub, which saturates. And
-- math.Inf(1).
pub record Clock (N : Type 0) : Type 0 where
  pub duration : N → ℤ
  pub seconds : ℤ → N
  pub between : ℤ → ℤ → ℤ
  pub infinity : N

pub record TaskView (N : Type 0) : Type 0 where
  pub id : String
  pub task_type : String
  pub req : Resources N
  pub arrival_time : ℤ
  pub tau : N
  pub deadline : ℤ
  pub user_id : String

pub record RtsScheduler (N : Type 0) : Type 0 where
  pub rr_scheduler : RoundRobin
  pub params : GaParams N
  pub sla_multiplier : N

module _ {N : Type 0} ⦃f : Float N⦄ where
  -- NewRTSScheduler, with what the file of parameters holds
  unfoldable pub new_rts_scheduler : RoundRobin → Option (GaParams N) → N → RtsScheduler N
  new_rts_scheduler rr file sla_multiplier = record {
    rr_scheduler = rr;
    params = load_ga_params_or_default file;
    sla_multiplier = sla_multiplier;
  }

  -- one tick of startParamsReloader
  unfoldable pub reload_params : RtsScheduler N → Option (GaParams N) → RtsScheduler N
  reload_params s file = record s { params = load_ga_params_or_default file }

  -- Reset
  unfoldable pub reset_fallback : RtsScheduler N → RtsScheduler N
  reset_fallback s = record s { rr_scheduler = reset s.rr_scheduler }

  -- the type of a task: the one given if it is valid, else the one inferred
  unfoldable pub type_of_task : Task N → String
  unfolding infer_task_type validate_task_type
  type_of_task task =
      if not (task.task_type == "") && validate_task_type task.task_type
      then task.task_type
      else infer_task_type task

  -- the factor k of the deadline
  unfoldable pub effective_multiplier : Task N → N → N
  unfolding get_sla_multiplier
  effective_multiplier task k =
      let given = if eq k zero then get_sla_multiplier task else k in
      if lt given (literal 3 2) || lt (literal 5 2) given then literal 2 1 else given

  -- filterFeasible's test
  unfoldable pub is_feasible : Resources N → LoadView N → Bool
  is_feasible req worker =
      le req.cpu worker.avail.cpu
      && le req.memory worker.avail.memory
      && le req.gpu worker.avail.gpu
      && le req.storage worker.avail.storage

  -- filterFeasible
  unfoldable pub filter_feasible : Resources N → List (LoadView N) → List (LoadView N)
  unfolding is_feasible
  filter_feasible req [] = []
  filter_feasible req (worker ∷ rest) =
      let feasible = filter_feasible req rest in
      if is_feasible req worker then worker ∷ feasible else feasible

  -- the filter of buildWorkerViews
  unfoldable pub known_views : Dict (WorkerView N) → List (LoadView N) → List (LoadView N)
  known_views workers [] = []
  known_views workers (view ∷ rest) =
      let known = known_views workers rest in
      elim (lookup view.id workers) [
        | none ↦ known
        | some info ↦ if info.is_active then view ∷ known else known
      ]

  -- buildWorkerViews; an error of the telemetry source counts as no workers
  unfoldable pub build_worker_views :
      Dict (WorkerView N) → Option (List (LoadView N)) → List (LoadView N)
  unfolding known_views
  build_worker_views workers none = []
  build_worker_views workers (some views) = known_views workers views

  -- One of the three ratios of predictExecTime.
  abbrev pub ratio : N → N → N
  ratio needed avail =
      if lt zero avail then needed / avail else if lt zero needed then literal 1 1 else zero

  -- predictExecTime
  unfoldable pub predict_exec_time : TaskView N → LoadView N → Theta N → N
  predict_exec_time t w theta =
      let multiplier =
        literal 1 1
        + theta.theta1 * ratio t.req.cpu w.avail.cpu
        + theta.theta2 * ratio t.req.memory w.avail.memory
        + theta.theta3 * ratio t.req.gpu w.avail.gpu
        + theta.theta4 * w.load in
      let e_hat = t.tau * multiplier in if lt e_hat zero then t.tau else e_hat

  -- the entry of a map of floats, or zero
  abbrev pub entry_or_zero : String → Dict N → N
  entry_or_zero key m = elim (lookup key m) [ none ↦ zero | some x ↦ x ]

  abbrev pub affinity_of : String → String → Dict (Dict N) → N
  affinity_of task_type worker_id matrix = elim (lookup task_type matrix) [
    | none ↦ zero
    | some worker_map ↦ entry_or_zero worker_id worker_map
  ]

  -- computeFinalRisk
  unfoldable pub compute_final_risk : N → String → String → GaParams N → N
  compute_final_risk base_risk task_type worker_id params =
      base_risk
      - affinity_of task_type worker_id params.affinity_matrix
      + entry_or_zero worker_id params.penalty_vector

  -- a risk that can be compared
  abbrev pub is_finite : N → Bool
  is_finite x = not (f.is_inf x) && not (f.is_nan x)

  -- the fallback to round-robin
  abbrev pub fall_back : RtsScheduler N → Task N → Dict (WorkerView N) → String × RtsScheduler N
  fall_back s task workers =
      let (id, rr) = select_worker task workers s.rr_scheduler in
      (id, record s { rr_scheduler = rr })

  -- the workers that can take the task
  abbrev pub candidates :
      Task N → Dict (WorkerView N) → Option (List (LoadView N)) → List (LoadView N)
  candidates task workers views = filter_feasible task.req (build_worker_views workers views)

  module _ (clock : Clock N) where
    -- NewTaskViewFromProto
    unfoldable pub new_task_view_from_proto : Task N → ℤ → N → N → TaskView N
    unfolding type_of_task effective_multiplier
    new_task_view_from_proto task now tau k = record {
      id = task.task_id;
      task_type = type_of_task task;
      req = task.req;
      arrival_time = now;
      tau = tau;
      deadline = now +ℤ clock.duration (effective_multiplier task k * tau * literal 1000000000 1);
      user_id = task.user_id;
    }

    -- buildTaskView
    unfoldable pub build_task_view : RtsScheduler N → (String → N) → Task N → ℤ → TaskView N
    unfolding new_task_view_from_proto
    build_task_view s get_tau task now =
        let given = get_tau task.task_type in
        let tau = if eq given zero then get_tau (infer_task_type task) else given in
        new_task_view_from_proto task now tau s.sla_multiplier

    -- computeBaseRisk
    unfoldable pub compute_base_risk : TaskView N → LoadView N → N → Risk N → N
    compute_base_risk t w e_hat risk =
        let f_hat = t.arrival_time +ℤ clock.duration (e_hat * literal 1000000000 1) in
        let delta =
          if ltb_ℤ t.deadline f_hat then clock.seconds (clock.between f_hat t.deadline) else zero in
        risk.alpha * delta + risk.beta * w.load

    -- the risk that the loop computes for one worker
    unfoldable pub risk_of : GaParams N → TaskView N → LoadView N → N
    unfolding predict_exec_time compute_base_risk compute_final_risk
    risk_of params t w =
        let e_hat = predict_exec_time t w params.theta in
        compute_final_risk (compute_base_risk t w e_hat params.risk) t.task_type w.id params

    -- the loop's body
    unfoldable pub take_better : GaParams N → TaskView N → String × N → LoadView N → String × N
    unfolding risk_of
    take_better params t best w =
        let risk = risk_of params t w in
        if lt risk best.1 && not (f.is_inf risk) && not (f.is_nan risk) then (w.id, risk) else best

    -- The loop: the name and the risk of the best worker so far.
    unfoldable pub best_of : GaParams N → TaskView N → String × N → List (LoadView N) → String × N
    unfolding take_better
    best_of params t best [] = best
    best_of params t best (w ∷ rest) = best_of params t (take_better params t best w) rest

    -- SelectWorker
    unfoldable pub select_worker_by_risk :
        RtsScheduler N
        → (String → N)
        → Option (List (LoadView N))
        → ℤ
        → Task N
        → Dict (WorkerView N)
        → String × RtsScheduler N
    unfolding build_task_view filter_feasible build_worker_views best_of
    select_worker_by_risk s get_tau views now task workers =
        let t = build_task_view s get_tau task now in
        let (id, risk) = best_of s.params t ("", clock.infinity) (candidates task workers views) in
        elim (candidates task workers views) [
          | [] ↦ fall_back s task workers
          | _ ∷ _ ↦
              if id == "" || f.is_inf risk || f.is_nan risk
              then fall_back s task workers
              else (id, s)
        ]
