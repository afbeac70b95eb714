-- ===== src/Aod/Affinity.antt =====
-- BuildAffinityMatrix of master/internal/aod/affinity_builder.go. The names of the workers are taken
-- in the order of the history, where the code ranges over a map.
use agentic_cloud_cluster.Base.{
  ℕ, String, Bool, true, List, [], ◌∷◌, ◌==◌, ◌&&◌, if◌then◌else◌, length, ltb, eqb,
}
use Prim.Native.Nat.{◌+◌ as ◌+ℕ◌}
use agentic_cloud_cluster.Float.{Float, ◌+◌, ◌-◌, ◌/◌, lt, le, literal, zero}
use agentic_cloud_cluster.Dict.{Dict, keys, insert}
use agentic_cloud_cluster.Aod.{TaskHistory, float_of}

-- the six types that the matrix is built for
abbrev pub affinity_task_types : List String
affinity_task_types =
    "cpu-light" ∷ "cpu-heavy" ∷ "memory-heavy" ∷ "gpu-heavy" ∷ "gpu-training" ∷ "mixed" ∷ []

module _ {N : Type 0} where
  -- filterHistory
  unfoldable pub filter_history : List (TaskHistory N) → String → String → List (TaskHistory N)
  filter_history [] task_type worker_id = []
  filter_history (h ∷ rest) task_type worker_id =
      let filtered = filter_history rest task_type worker_id in
      if h.task_type == task_type && h.worker_id == worker_id then h ∷ filtered else filtered

  -- filterHistoryByType
  unfoldable pub filter_history_by_type : List (TaskHistory N) → String → List (TaskHistory N)
  filter_history_by_type [] task_type = []
  filter_history_by_type (h ∷ rest) task_type =
      let filtered = filter_history_by_type rest task_type in
      if h.task_type == task_type then h ∷ filtered else filtered

  -- getUniqueWorkers
  unfoldable pub worker_set : List (TaskHistory N) → Dict Bool → Dict Bool
  worker_set [] set = set
  worker_set (h ∷ rest) set = worker_set rest (insert h.worker_id true set)

  unfoldable pub get_unique_workers : List (TaskHistory N) → List String
  unfolding worker_set
  get_unique_workers history = keys (worker_set history [])

  -- the loop that counts the tasks that kept their deadline
  unfoldable pub sla_success_count : List (TaskHistory N) → ℕ
  sla_success_count [] = 0
  sla_success_count (h ∷ rest) =
      let count = sla_success_count rest in if h.sla_success then 1 +ℕ count else count

module _ {N : Type 0} ⦃f : Float N⦄ where
  unfoldable pub sum_by : (TaskHistory N → N) → N → List (TaskHistory N) → N
  sum_by field total [] = total
  sum_by field total (h ∷ rest) = sum_by field (total + field h) rest

  abbrev pub average_by : (TaskHistory N → N) → List (TaskHistory N) → N
  average_by field filtered =
      if eqb (length filtered) 0
      then zero
      else sum_by field zero filtered / float_of (length filtered)

  -- getAverageTau
  unfoldable pub get_average_tau : String → List (TaskHistory N) → N
  unfolding sum_by filter_history_by_type
  get_average_tau task_type history =
      average_by (λ h. h.tau) (filter_history_by_type history task_type)

  -- computeBaselineRuntime
  unfoldable pub compute_baseline_runtime : String → List (TaskHistory N) → N
  unfolding sum_by filter_history_by_type
  compute_baseline_runtime task_type history =
      average_by (λ h. h.actual_runtime) (filter_history_by_type history task_type)

  -- computeWorkerAvgRuntime
  unfoldable pub compute_worker_avg_runtime : String → String → List (TaskHistory N) → N
  unfolding sum_by filter_history
  compute_worker_avg_runtime task_type worker_id history =
      average_by (λ h. h.actual_runtime) (filter_history history task_type worker_id)

  -- getDefaultTauForType
  unfoldable pub get_default_tau_for_type : String → N
  get_default_tau_for_type task_type =
      if task_type == "cpu-light"
      then literal 5 1
      else if task_type == "cpu-heavy"
      then literal 60 1
      else if task_type == "memory-heavy"
      then literal 30 1
      else if task_type == "gpu-heavy"
      then literal 45 1
      else if task_type == "gpu-training"
      then literal 120 1
      else if task_type == "mixed"
      then literal 20 1
      else literal 30 1

  -- math.Max(-5.0, math.Min(5.0, x)); 0 - 5 is exactly the source's -5.0.
  abbrev pub clip_affinity : N → N
  clip_affinity raw = f.largest (zero - literal 5 1) (f.smallest (literal 5 1) raw)

  unfoldable pub baseline_tau : String → List (TaskHistory N) → N
  unfolding get_average_tau get_default_tau_for_type
  baseline_tau task_type history =
      let average = get_average_tau task_type history in
      if le average zero then get_default_tau_for_type task_type else average

  -- the body of the inner loop: the affinity of one type and worker
  unfoldable pub affinity_of_pair : List (TaskHistory N) → String → String → N
  unfolding baseline_tau compute_worker_avg_runtime sla_success_count filter_history
  affinity_of_pair history task_type worker_id =
      let pair_history = filter_history history task_type worker_id in
      if ltb (length pair_history) 2
      then literal 1 1
      else let worker_avg_runtime = compute_worker_avg_runtime task_type worker_id history in
        let speed_advantage =
          if lt zero worker_avg_runtime
          then baseline_tau task_type history / worker_avg_runtime
          else zero in
        let sla_reliability =
          float_of (sla_success_count pair_history) / float_of (length pair_history) in
        clip_affinity (speed_advantage + sla_reliability)

  unfoldable pub affinities_of_type : List (TaskHistory N) → String → List String → Dict N
  unfolding affinity_of_pair
  affinities_of_type history task_type [] = []
  affinities_of_type history task_type (worker_id ∷ rest) =
      (worker_id, affinity_of_pair history task_type worker_id)
      ∷ affinities_of_type history task_type rest

  unfoldable pub affinities_of_types :
      List (TaskHistory N) → List String → List String → Dict (Dict N)
  unfolding affinities_of_type
  affinities_of_types history workers [] = []
  affinities_of_types history workers (task_type ∷ rest) =
      (task_type, affinities_of_type history task_type workers)
      ∷ affinities_of_types history workers rest

  -- BuildAffinityMatrix
  unfoldable pub build_affinity_matrix : List (TaskHistory N) → Dict (Dict N)
  unfolding affinities_of_types get_unique_workers
  build_affinity_matrix history =
      affinities_of_types history (get_unique_workers history) affinity_task_types
