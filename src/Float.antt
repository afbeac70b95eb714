-- ===== src/Float.antt =====
-- The float64 arithmetic that the Go code computes with, as an interface: the language fixes it, and
-- no file of the repository implements it. The laws are those of IEEE 754 that the proofs use; each
-- holds for every double, infinities and NaN included.
pub mod Fixed
use agentic_cloud_cluster.Base.{ℕ, ◌≡◌, Bool, true, false, ◌||◌, leb, ltb}
use Prim.Native.Nat.{◌*◌ as ◌×ℕ◌}

pub record Float (N : Type 0) : Type 0 where
  pub plus : N → N → N
  pub minus : N → N → N
  pub times : N → N → N
  pub over : N → N → N
  pub less : N → N → Bool
  pub same : N → N → Bool
  -- `literal n d` is the double nearest to n / d.
  pub literal : ℕ → ℕ → N
  -- math.Max and math.Min
  pub largest : N → N → N
  pub smallest : N → N → N
  -- math.IsNaN(x), and math.IsInf(x, 0)
  pub is_nan : N → Bool
  pub is_inf : N → Bool
  pub less_irrefl : (a : N) → less a a ≡ false
  pub less_trans : (a b c : N) → less a b ≡ true → less b c ≡ true → less a c ≡ true
  pub minus_nonneg : (a b : N) → less a b ≡ false → less (minus a b) (literal 0 1) ≡ false
  pub minus_neg : (a b : N) → less a b ≡ true → less (minus a b) (literal 0 1) ≡ true
  pub largest-not-below : (a b : N) → less (largest a b) a ≡ false
  pub largest-not-above :
      (a b c : N) → less c a ≡ false → less c b ≡ false → less c (largest a b) ≡ false
  pub smallest-not-above : (a b : N) → less a (smallest a b) ≡ false
  -- Rounding is monotone.
  pub literal_mono :
      (a b c d : ℕ)
      → leb (◌×ℕ◌ c b) (◌×ℕ◌ a d) ≡ true
      → ltb 0 b ≡ true
      → ltb 0 d ≡ true
      → less (literal a b) (literal c d) ≡ false

module _ {N : Type 0} ⦃f : Float N⦄ where
  infixl 65 ◌+◌ ◌-◌
  infixl 70 ◌*◌ ◌/◌
  abbrev pub ◌+◌ : N → N → N
  a + b = f.plus a b

  abbrev pub ◌-◌ : N → N → N
  a - b = f.minus a b

  abbrev pub ◌*◌ : N → N → N
  a * b = f.times a b

  abbrev pub ◌/◌ : N → N → N
  a / b = f.over a b

  -- `a < b`; the code's `a > b` is `lt b a`.
  abbrev pub lt : N → N → Bool
  lt a b = f.less a b

  -- `a <= b`; the code's `a >= b` is `le b a`.
  abbrev pub le : N → N → Bool
  le a b = f.less a b || f.same a b

  -- `a == b`
  abbrev pub eq : N → N → Bool
  eq a b = f.same a b

  -- The constant n / d of the source, such as `literal 5 2` for 2.5.
  abbrev pub literal : ℕ → ℕ → N
  literal n d = f.literal n d

  abbrev pub zero : N
  zero = f.literal 0 1
