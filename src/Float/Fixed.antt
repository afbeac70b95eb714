-- ===== src/Float/Fixed.antt =====
-- Thousandths as integers: arithmetic at which the tests and examples run. It rounds toward zero,
-- has no infinities and no NaN, and meets the laws of the interface.
use Prim.Native.Nat.{◌+◌, ◌*◌, ◌/◌}
use agentic_cloud_cluster.Base.{
  ℕ, ◌≤◌, ◌<◌, ◌≡◌, true, false, arith, leb, ltb, eqb, if◌then◌else◌, ltb→lt, ℤ, pos, negsuc,
  pos_part, neg_part, sub_ℕ, ◌+ℤ◌, ◌-ℤ◌, ltb_ℤ,
}
use agentic_cloud_cluster.Float.{Float}
use native.Mathlib.Nat.{
  le-div_iff_mul-le, div-mul-le_self, mul-le-mul_right, le_of_mul-le-mul_right,
}

abbrev pub magnitude : ℤ → ℕ
magnitude a = pos_part a + neg_part a

-- n with the sign of a product of `a` and `b`
abbrev pub signed : ℤ → ℤ → ℕ → ℤ
signed (pos _) (pos _) n = pos n
signed (negsuc _) (negsuc _) n = pos n
signed (pos _) (negsuc _) n = sub_ℕ 0 n
signed (negsuc _) (pos _) n = sub_ℕ 0 n

abbrev pub fixed_literal : ℕ → ℕ → ℤ
fixed_literal n d = pos (n * 1000 / d)

pub minus_nonneg_fixed : (a b : ℤ) → ltb_ℤ a b ≡ false → ltb_ℤ (a -ℤ b) (fixed_literal 0 1) ≡ false
unfolding ◌-ℤ◌
minus_nonneg_fixed a b h = ground arith

pub minus_neg_fixed : (a b : ℤ) → ltb_ℤ a b ≡ true → ltb_ℤ (a -ℤ b) (fixed_literal 0 1) ≡ true
unfolding ◌-ℤ◌
minus_neg_fixed a b h = ground arith

leb→le : (a b : ℕ) → leb a b ≡ true → a ≤ b
leb→le a b h = ground arith

quotient_mono : (q a b c d : ℕ) → c * b ≤ a * d → q * d ≤ c * 1000 → 0 < d → q * b ≤ a * 1000
quotient_mono q a b c d h k p =
    le_of_mul-le-mul_right {k = d} (omega (arith, mul-le-mul_right b k, mul-le-mul_right 1000 h)) p

pub literal_mono_fixed :
    (a b c d : ℕ)
    → leb (c * b) (a * d) ≡ true
    → ltb 0 b ≡ true
    → ltb 0 d ≡ true
    → ltb_ℤ (fixed_literal a b) (fixed_literal c d) ≡ false
literal_mono_fixed a b c d h p q = ground (
  arith,
  (le-div_iff_mul-le {k = b} {x = c * 1000 / d} {y = a * 1000} (ltb→lt 0 b p)).1 (
      quotient_mono (c * 1000 / d) a b c d (leb→le (c * b) (a * d) h) (div-mul-le_self (c * 1000) d)
        (ltb→lt 0 d q)),
)

abbrev pub max_ℤ : ℤ → ℤ → ℤ
max_ℤ a b = if ltb_ℤ a b then b else a

abbrev pub min_ℤ : ℤ → ℤ → ℤ
min_ℤ a b = if ltb_ℤ a b then a else b

pub max_ℤ-not-below : (a b : ℤ) → ltb_ℤ (max_ℤ a b) a ≡ false
max_ℤ-not-below a b = ground arith

pub max_ℤ-not-above :
    (a b c : ℤ) → ltb_ℤ c a ≡ false → ltb_ℤ c b ≡ false → ltb_ℤ c (max_ℤ a b) ≡ false
max_ℤ-not-above a b c h k = ground arith

pub min_ℤ-not-above : (a b : ℤ) → ltb_ℤ a (min_ℤ a b) ≡ false
min_ℤ-not-above a b = ground arith

pub ltb_ℤ_irrefl : (a : ℤ) → ltb_ℤ a a ≡ false
ltb_ℤ_irrefl a = ground arith

pub ltb_ℤ_trans : (a b c : ℤ) → ltb_ℤ a b ≡ true → ltb_ℤ b c ≡ true → ltb_ℤ a c ≡ true
ltb_ℤ_trans a b c h k = ground arith

instance abbrev pub fixed : Float ℤ
fixed = record {
  plus = ◌+ℤ◌;
  minus = ◌-ℤ◌;
  times = λ a b. signed a b (magnitude a * magnitude b / 1000);
  over = λ a b. signed a b (magnitude a * 1000 / magnitude b);
  less = ltb_ℤ;
  same = λ a b. eqb (pos_part a + neg_part b) (pos_part b + neg_part a);
  literal = fixed_literal;
  largest = max_ℤ;
  smallest = min_ℤ;
  is_nan = λ a. false;
  is_inf = λ a. false;
  less_irrefl = ltb_ℤ_irrefl;
  less_trans = ltb_ℤ_trans;
  minus_nonneg = minus_nonneg_fixed;
  minus_neg = minus_neg_fixed;
  largest-not-below = max_ℤ-not-below;
  largest-not-above = max_ℤ-not-above;
  smallest-not-above = min_ℤ-not-above;
  literal_mono = literal_mono_fixed;
}
