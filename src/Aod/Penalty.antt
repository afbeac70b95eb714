-- ===== src/Aod/Penalty.antt =====
-- BuildPenaltyVector of master/internal/aod/penalty_builder.go.
use agentic_cloud_cluster.Base.{
  String, ◌≡◌, refl, subst, false, List, [], ◌∷◌, ◌==◌, arith, if◌then◌else◌, eqb, Bool-cases, inl,
  inr, some,
}
use agentic_cloud_cluster.Float.{Float, ◌+◌, ◌/◌, lt, le, literal, zero}
use agentic_cloud_cluster.Dict.{Dict, lookup, insert, lookup-insert}
use agentic_cloud_cluster.Aod.{WorkerStats, float_of}

not_in_empty : {V P : Type 0} (id : String) (x : V) → lookup id [] ≡ some x → P
unfolding lookup
not_in_empty id x there = absurd (cc there)

module _ {N : Type 0} ⦃f : Float N⦄ where
  -- math.Max(0.0, math.Min(high, x))
  abbrev pub clip : N → N → N
  clip high x = f.largest zero (f.smallest high x)

  abbrev pub energy_of : WorkerStats N → N
  energy_of stats = stats.cpu_used_total + stats.mem_used_total + stats.gpu_used_total

  -- findMaxEnergy, with the greatest so far
  unfoldable pub find_max_energy : N → List (WorkerStats N) → N
  find_max_energy max [] = max
  find_max_energy max (stats ∷ rest) =
      find_max_energy (if lt max (energy_of stats) then energy_of stats else max) rest

  -- computeSLAFailRate
  unfoldable pub compute_sla_fail_rate : WorkerStats N → N
  compute_sla_fail_rate stats =
      if eqb stats.tasks_run 0
      then zero
      else clip (literal 1 1) (float_of stats.sla_violations / float_of stats.tasks_run)

  -- computeWorkerOverloadRate
  unfoldable pub compute_worker_overload_rate : WorkerStats N → N
  compute_worker_overload_rate stats =
      if le stats.total_time zero
      then zero
      else clip (literal 1 1) (stats.overload_time / stats.total_time)

  -- computeEnergyNorm
  unfoldable pub compute_energy_norm : WorkerStats N → N → N
  compute_energy_norm stats max_energy =
      if le max_energy zero then zero else clip (literal 1 1) (energy_of stats / max_energy)

  -- the loop's body
  unfoldable pub penalty_of : N → WorkerStats N → N
  unfolding compute_sla_fail_rate compute_worker_overload_rate compute_energy_norm
  penalty_of max_energy stats =
      if eqb stats.tasks_run 0
      then zero
      else clip (literal 5 1) (
          compute_sla_fail_rate stats
          + compute_worker_overload_rate stats
          + compute_energy_norm stats max_energy)

  unfoldable pub penalties_from : N → List (WorkerStats N) → Dict N → Dict N
  unfolding penalty_of
  penalties_from max_energy [] penalty = penalty
  penalties_from max_energy (stats ∷ rest) penalty =
      penalties_from max_energy rest (insert stats.worker_id (penalty_of max_energy stats) penalty)

  -- BuildPenaltyVector
  unfoldable pub build_penalty_vector : List (WorkerStats N) → Dict N
  unfolding find_max_energy penalties_from
  build_penalty_vector worker_stats =
      let found = find_max_energy zero worker_stats in
      penalties_from (if le found zero then literal 1 1 else found) worker_stats []

  -- GetDefaultPenaltyVector
  unfoldable pub get_default_penalty_vector : List String → Dict N → Dict N
  get_default_penalty_vector [] penalty = penalty
  get_default_penalty_vector (worker_id ∷ rest) penalty =
      get_default_penalty_vector rest (insert worker_id zero penalty)

  IsPenalty : N → Type 0
  IsPenalty x = (lt x zero ≡ false) × (lt (literal 5 1) x ≡ false)

  penalty_of-IsPenalty : (max : N) (stats : WorkerStats N) → IsPenalty (penalty_of max stats)
  unfolding IsPenalty penalty_of
  penalty_of-IsPenalty max stats = elim (Bool-cases (eqb stats.tasks_run 0)) [
    | inl e ↦ rw e (f.less_irrefl zero, f.literal_mono 5 1 0 1 refl refl refl)
    | inr e ↦ rw e (
      f.largest-not-below zero _,
      f.largest-not-above zero _ (literal 5 1) (f.literal_mono 5 1 0 1 refl refl refl)
          (f.smallest-not-above (literal 5 1) _),
    )
  ]

  AllPenalties : Dict N → Type 0
  AllPenalties m = (id : String) (x : N) → lookup id m ≡ some x → IsPenalty x

  penalties-IsPenalty :
      (max : N) (stats : List (WorkerStats N)) (m : Dict N)
      → AllPenalties m
      → AllPenalties (penalties_from max stats m)
  unfolding penalties_from AllPenalties
  penalties-IsPenalty max [] m h = h
  penalties-IsPenalty max (s ∷ rest) m h =
      penalties-IsPenalty max rest (insert s.worker_id (penalty_of max s) m) (λ id x there.
        elim (Bool-cases (s.worker_id == id)) [
          | inl e ↦
              subst IsPenalty
                (ground (arith, e, there, lookup-insert s.worker_id id (penalty_of max s) m))
                (penalty_of-IsPenalty max s)
          | inr e ↦
              h id x (ground (arith, e, there, lookup-insert s.worker_id id (penalty_of max s) m))
        ])

  -- Each penalty of the vector lies between 0 and 5, or is not a number: it is neither below 0 nor
  -- above 5, whatever the statistics of the workers.
  pub build_penalty_vector-bounded :
      (stats : List (WorkerStats N)) (id : String) (x : N)
      → lookup id (build_penalty_vector stats) ≡ some x
      → (lt x zero ≡ false) × (lt (literal 5 1) x ≡ false)
  unfolding build_penalty_vector AllPenalties IsPenalty
  build_penalty_vector-bounded stats =
      penalties-IsPenalty _ stats [] (λ id x there. not_in_empty id x there)
