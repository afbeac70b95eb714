-- ===== src/Scheduler/Sort.antt =====
-- sortWorkerIDs of master/internal/scheduler/round_robin.go: a bubble sort. The i-th pass
-- compares neighbours below n - i - 1 and leaves the rest alone.
pub mod Order
use Prim.Native.Nat.{◌-◌}
use agentic_cloud_cluster.Base.{
  ℕ, zero, suc, Bool, List, [], ◌∷◌, length, if◌then◌else◌, Bool-cases, inl, inr,
}
use mathlib.Core.List.{Perm}
use mathlib.Core.List.Perm

module _ {K : Type 0} (greater : K → K → Bool) where
  -- the inner loop, with the number of comparisons left
  unfoldable pub bubble : ℕ → List K → List K
  bubble zero ids = ids
  bubble (suc n) [] = []
  bubble (suc n) (x ∷ []) = x ∷ []
  bubble (suc n) (x ∷ y ∷ ids) =
      if greater x y then y ∷ bubble n (x ∷ ids) else x ∷ bubble n (y ∷ ids)

  -- the outer loop: the bound of the inner one falls by one with each pass
  unfoldable pub passes : ℕ → List K → List K
  unfolding bubble
  passes zero ids = ids
  passes (suc bound) ids = passes bound (bubble (suc bound) ids)

  unfoldable pub sort_ids : List K → List K
  unfolding passes
  sort_ids ids = passes (length ids - 1) ids

  bubble-perm : (n : ℕ) (ids : List K) → Perm (bubble n ids) ids
  unfolding bubble
  bubble-perm zero ids = Perm.refl ids
  bubble-perm (suc n) [] = Perm.refl []
  bubble-perm (suc n) (x ∷ []) = Perm.refl (x ∷ [])
  bubble-perm (suc n) (x ∷ y ∷ ids) = elim (Bool-cases (greater x y)) [
    | inl e ↦ rw e (Perm.trans (Perm.cons y (bubble-perm n (x ∷ ids))) (Perm.swap x y ids))
    | inr e ↦ rw e (Perm.cons x (bubble-perm n (y ∷ ids)))
  ]

  passes-perm : (n : ℕ) (ids : List K) → Perm (passes n ids) ids
  unfolding passes
  passes-perm zero ids = Perm.refl ids
  passes-perm (suc n) ids =
      Perm.trans (passes-perm n (bubble (suc n) ids)) (bubble-perm (suc n) ids)

  -- No name is lost or made up.
  pub sort_ids-perm : (ids : List K) → Perm (sort_ids ids) ids
  unfolding sort_ids
  sort_ids-perm ids = passes-perm (length ids - 1) ids
