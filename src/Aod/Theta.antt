-- ===== src/Aod/Theta.antt =====
-- TrainTheta of master/internal/aod/theta_trainer.go. The solution of the linear equations is
-- gonum's, and a parameter: `none` where the matrix cannot be inverted.
use Prim.Native.Nat.{◌*◌ as ◌×ℕ◌}
use agentic_cloud_cluster.Base.{
  ℕ, ◌≡◌, refl, Bool, true, false, Option, none, some, List, [], ◌∷◌, ◌&&◌, ◌||◌, if◌then◌else◌,
  length, ltb, leb, Bool-cases, Option-cases, inl, inr,
}
use agentic_cloud_cluster.Float.{Float, ◌+◌, ◌-◌, ◌*◌, ◌/◌, lt, le, eq, literal, zero}
use agentic_cloud_cluster.Scheduler.Params.{Theta}
use agentic_cloud_cluster.Aod.{TaskHistory, float_of}

-- a row of the matrix, with its entry of the target vector
pub record Row (N : Type 0) : Type 0 where
  pub cpu_ratio : N
  pub mem_ratio : N
  pub gpu_ratio : N
  pub load : N
  pub target : N

module _ {N : Type 0} ⦃f : Float N⦄ where
  -- getDefaultTheta, and defaultTheta of trainer.go
  unfoldable pub get_default_theta : Theta N
  get_default_theta = record {
    theta1 = literal 1 10;
    theta2 = literal 1 10;
    theta3 = literal 3 10;
    theta4 = literal 2 10;
  }

  -- boundTheta
  unfoldable pub bound_theta : N → N
  bound_theta value =
      if f.is_nan value || f.is_inf value
      then literal 1 10
      else if lt value zero
      then zero
      else if lt (literal 2 1) value
      then literal 2 1
      else value

  abbrev pub is_skipped : TaskHistory N → Bool
  is_skipped h =
      (le h.tau zero || le h.actual_runtime zero)
      || (le h.cpu_used zero && le h.mem_used zero && le h.gpu_used zero)

  abbrev pub row_of : TaskHistory N → Row N
  row_of h = record {
    cpu_ratio = if lt zero h.cpu_used then h.load_at_start else zero;
    mem_ratio = if lt zero h.mem_used then h.load_at_start * (h.mem_used / literal 8 1) else zero;
    gpu_ratio = if lt zero h.gpu_used then h.load_at_start * (h.gpu_used / literal 1 1) else zero;
    load = h.load_at_start;
    target = h.actual_runtime / h.tau - literal 1 1;
  }

  -- -0.9 is written 0 - 0.9, which is exactly it.
  abbrev pub is_outlier : N → Bool
  is_outlier target = lt target (zero - literal 9 10) || lt (literal 5 1) target

  -- buildRegressionMatrix; no row is its error
  unfoldable pub build_regression_matrix : List (TaskHistory N) → List (Row N)
  build_regression_matrix [] = []
  build_regression_matrix (h ∷ rest) =
      let rows = build_regression_matrix rest in
      if is_skipped h || is_outlier (row_of h).target then rows else row_of h ∷ rows

  -- TrainTheta
  unfoldable pub train_theta :
      (List (Row N) → Option (N × N × N × N)) → List (TaskHistory N) → Theta N
  unfolding build_regression_matrix get_default_theta bound_theta
  train_theta solve history =
      let rows = build_regression_matrix history in
      if ltb (length history) 10
      then get_default_theta
      else if ltb (length rows) 10
      then get_default_theta
      else elim (solve rows) [
        | none ↦ get_default_theta
        | some (t1, t2, t3, t4) ↦ record {
          theta1 = bound_theta t1;
          theta2 = bound_theta t2;
          theta3 = bound_theta t3;
          theta4 = bound_theta t4;
        }
      ]

  unfoldable pub sum_with : (Row N → N) → N → List (Row N) → N
  sum_with term total [] = total
  sum_with term total (row ∷ rest) = sum_with term (total + term row) rest

  -- the rows of ComputeRSquared, which leaves no outlier out
  unfoldable pub measured_rows : List (TaskHistory N) → List (Row N)
  measured_rows [] = []
  measured_rows (h ∷ rest) =
      let rows = measured_rows rest in
      if le h.tau zero || le h.actual_runtime zero
      then rows
      else record {
        cpu_ratio = h.load_at_start;
        mem_ratio = h.load_at_start * (h.mem_used / literal 8 1);
        gpu_ratio = h.load_at_start * (h.gpu_used / literal 1 1);
        load = h.load_at_start;
        target = h.actual_runtime / h.tau - literal 1 1;
      }
        ∷ rows

  abbrev pub predicted : Theta N → Row N → N
  predicted theta row =
      theta.theta1 * row.cpu_ratio
      + theta.theta2 * row.mem_ratio
      + theta.theta3 * row.gpu_ratio
      + theta.theta4 * row.load

  -- ComputeRSquared
  unfoldable pub compute_r_squared : List (TaskHistory N) → Theta N → N
  unfolding measured_rows sum_with
  compute_r_squared history theta =
      let rows = measured_rows history in
      let mean = sum_with (λ r. r.target) zero rows / float_of (length rows) in
      let ss_tot = sum_with (λ r. (r.target - mean) * (r.target - mean)) zero rows in
      let ss_res =
        sum_with (λ r. (r.target - predicted theta r) * (r.target - predicted theta r)) zero rows in
      if ltb 0 (length rows)
      then (if eq ss_tot zero then zero else literal 1 1 - ss_res / ss_tot)
      else zero

module _ {N : Type 0} ⦃f : Float N⦄ where
  -- not below 0 and not above 2
  abbrev pub IsWeight : N → Type 0
  IsWeight x = (lt x zero ≡ false) × (lt (literal 2 1) x ≡ false)

  -- in all four components
  abbrev pub IsBounded : Theta N → Type 0
  IsBounded t = IsWeight t.theta1 × IsWeight t.theta2 × IsWeight t.theta3 × IsWeight t.theta4

module _ (N : Type 0) ⦃f : Float N⦄ where
  literal-IsWeight :
      (n d : ℕ)
      → leb (0 ×ℕ d) (n ×ℕ 1) ≡ true
      → leb (n ×ℕ 1) (2 ×ℕ d) ≡ true
      → ltb 0 d ≡ true
      → IsWeight (literal {N = N} n d)
  literal-IsWeight n d large small positive =
      (f.literal_mono n d 0 1 large positive refl, f.literal_mono 2 1 n d small refl positive)

  default-IsBounded : IsBounded {N = N} get_default_theta
  unfolding get_default_theta
  default-IsBounded = (
    literal-IsWeight 1 10 refl refl refl,
    literal-IsWeight 1 10 refl refl refl,
    literal-IsWeight 3 10 refl refl refl,
    literal-IsWeight 2 10 refl refl refl,
  )

module _ {N : Type 0} ⦃f : Float N⦄ where
  bound_theta-IsWeight : (value : N) → IsWeight (bound_theta value)
  unfolding bound_theta
  bound_theta-IsWeight value = elim (Bool-cases (f.is_nan value || f.is_inf value)) [
    | inl e ↦ rw e (literal-IsWeight N 1 10 refl refl refl)
    | inr e ↦ elim (Bool-cases (lt value zero)) [
      | inl below ↦ rw (e, below) (literal-IsWeight N 0 1 refl refl refl)
      | inr ok ↦ elim (Bool-cases (lt (literal 2 1) value)) [
        | inl above ↦ rw (e, ok, above) (literal-IsWeight N 2 1 refl refl refl)
        | inr fine ↦ rw (e, ok, fine) (ok, fine)
      ]
    ]
  ]

  -- Whatever the solution of the equations is, not a number and infinities included, each of the
  -- four weights that the training returns is neither below 0 nor above 2.
  pub train_theta-IsBounded :
      (solve : List (Row N) → Option (N × N × N × N)) (history : List (TaskHistory N))
      → IsBounded (train_theta solve history)
  unfolding train_theta
  train_theta-IsBounded solve history =
      let rows = build_regression_matrix history in
      elim (Bool-cases (ltb (length history) 10)) [
        | inl e ↦ rw e (default-IsBounded N)
        | inr e ↦ elim (Bool-cases (ltb (length rows) 10)) [
          | inl e' ↦ rw (e, e') (default-IsBounded N)
          | inr e' ↦ elim (Option-cases (solve rows)) [
            | inl e'' ↦ rw (e, e', e'') (default-IsBounded N)
            | inr ((t1, t2, t3, t4), e'') ↦
                rw (e, e', e'')
                  (
                    bound_theta-IsWeight t1,
                    bound_theta-IsWeight t2,
                    bound_theta-IsWeight t3,
                    bound_theta-IsWeight t4,
                  )
          ]
        ]
      ]
