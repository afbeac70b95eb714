-- ===== src/Telemetry/Tau.antt =====
-- InMemoryTauStore of master/internal/telemetry/tau_store.go.
pub mod Types
use agentic_cloud_cluster.Base.{
  String, ◌≡◌, refl, subst, ◌⊎◌, sym, Bool, true, false, Option, none, some, List, [], ◌∷◌, ◌==◌,
  ◌||◌, not, arith, if◌then◌else◌, eq_iff, Bool-cases, inl, inr,
}
use agentic_cloud_cluster.Float.{Float, ◌+◌, ◌-◌, ◌*◌, lt, le, eq, literal, zero}
use agentic_cloud_cluster.Dict.{Dict, lookup, insert, lookup-insert}

pub record TauStore (N : Type 0) : Type 0 where
  pub tau_map : Dict N
  pub lambda : N

-- isValidTaskType
unfoldable pub is_valid_task_type : String → Bool
is_valid_task_type task_type =
    task_type == "cpu-light"
    || task_type == "cpu-heavy"
    || task_type == "memory-heavy"
    || task_type == "gpu-inference"
    || task_type == "gpu-training"
    || task_type == "mixed"

module _ {N : Type 0} ⦃f : Float N⦄ where
  -- defaultTauValues
  unfoldable pub default_tau_values : Dict N
  default_tau_values =
      ("cpu-light", literal 5 1)
      ∷ ("cpu-heavy", literal 15 1)
      ∷ ("memory-heavy", literal 20 1)
      ∷ ("gpu-inference", literal 10 1)
      ∷ ("gpu-training", literal 60 1)
      ∷ ("mixed", literal 10 1)
      ∷ []

  unfoldable pub insert_all : Dict N → Dict N → Dict N
  insert_all [] m = m
  insert_all ((k, v) ∷ rest) m = insert_all rest (insert k v m)

  -- NewInMemoryTauStoreWithLambda; NewInMemoryTauStore gives 0.2
  unfoldable pub new_in_memory_tau_store_with_lambda : N → TauStore N
  unfolding insert_all default_tau_values
  new_in_memory_tau_store_with_lambda lambda = record {
    tau_map = insert_all default_tau_values [];
    lambda = lambda;
  }

  unfoldable pub new_in_memory_tau_store : TauStore N
  unfolding new_in_memory_tau_store_with_lambda
  new_in_memory_tau_store = new_in_memory_tau_store_with_lambda (literal 2 10)

  -- the default of a type, that of mixed tasks for an unknown one
  unfoldable pub default_tau : String → N
  unfolding default_tau_values
  default_tau task_type = elim (lookup task_type default_tau_values) [
    | some tau ↦ tau
    | none ↦ literal 10 1
  ]

  -- GetTau
  unfoldable pub get_tau : TauStore N → String → N
  unfolding default_tau
  get_tau s task_type = elim (lookup task_type s.tau_map) [
    | some tau ↦ tau
    | none ↦ default_tau task_type
  ]

  -- the old value that UpdateTau works from; a missing entry reads as zero
  unfoldable pub tau_old : TauStore N → String → N
  unfolding default_tau
  tau_old s task_type = elim (lookup task_type s.tau_map) [
    | none ↦ default_tau task_type
    | some tau ↦ if eq tau zero then default_tau task_type else tau
  ]

  -- UpdateTau
  unfoldable pub update_tau : TauStore N → String → N → TauStore N
  unfolding is_valid_task_type tau_old
  update_tau s task_type actual_runtime =
      if not (is_valid_task_type task_type)
      then s
      else if le actual_runtime zero
      then s
      else record s {
        tau_map =
            insert task_type
              (s.lambda * actual_runtime + (literal 1 1 - s.lambda) * tau_old s task_type)
              s.tau_map;
      }

  -- SetTau
  unfoldable pub set_tau : TauStore N → String → N → TauStore N
  unfolding is_valid_task_type
  set_tau s task_type tau =
      if not (is_valid_task_type task_type)
      then s
      else if le tau zero
      then s
      else record s { tau_map = insert task_type tau s.tau_map }

  -- SetLambda
  unfoldable pub set_lambda : TauStore N → N → TauStore N
  set_lambda s lambda =
      if lt lambda zero || lt (literal 1 1) lambda then s else record s { lambda = lambda }

  -- ResetToDefaults
  unfoldable pub reset_to_defaults : TauStore N → TauStore N
  unfolding insert_all
  reset_to_defaults s = record s { tau_map = insert_all default_tau_values s.tau_map }
