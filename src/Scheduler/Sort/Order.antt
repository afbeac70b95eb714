-- ===== src/Scheduler/Sort/Order.antt =====
-- The bubble sort of round_robin.go sorts.
use Prim.Native.Nat.{◌-◌}
use agentic_cloud_cluster.Base.{
  ℕ, zero, suc, ◌≡◌, refl, sym, ap, ◌∙◌, subst, Bool, true, false, List, [], ◌∷◌, ◌++◌, length,
  append-nil, All, arith, Bool-cases, inl, inr,
}
use mathlib.Core.List.{Perm}
use agentic_cloud_cluster.Scheduler.Sort.{bubble, passes, sort_ids, sort_ids-perm}

-- What the sort needs of its comparison: that it comes from a total order.
pub record IsOrder {K : Type 0} (greater : K → K → Bool) : Type 0 where
  pub asym : (a b : K) → greater a b ≡ true → greater b a ≡ false
  pub trans : (a b c : K) → greater a b ≡ false → greater b c ≡ false → greater a c ≡ false

module _ {K : Type 0} (greater : K → K → Bool) where
  -- `a` may stand before `b`
  abbrev pub Le : K → K → Type 0
  Le a b = greater a b ≡ false

  -- each entry may stand before all that follow it
  unfoldable pub IsSorted : List K → Type 0
  IsSorted [] = Unit {0}
  IsSorted (x ∷ xs) = All (Le x) xs × IsSorted xs

  module _ (order : IsOrder greater) where
    -- What a pass comes to: the greatest of the entries it compares stands behind the others.
    record IsBubbled (P : K → Type 0) (x : K) (xs back : List K) : Type 0 where
      pub front : List K
      pub top : K
      pub same : bubble greater (length xs) (x ∷ xs ++ back) ≡ front ++ top ∷ back
      pub size : length front ≡ length xs
      pub above : All (λ y. Le y top) front
      pub first : Le x top
      pub kept : All P front × P top

    reflexive : (a : K) → Le a a
    reflexive a = elim (Bool-cases (greater a a)) [
      | inl e ↦ absurd (cc (e, order.asym a a e))
      | inr e ↦ e
    ]

    bubble-IsBubbled :
        (P : K → Type 0) (x : K) (xs back : List K) → P x → All P xs → IsBubbled P x xs back
    unfolding bubble
    bubble-IsBubbled P x [] back h hs = record {
      front = [];
      top = x;
      same = refl;
      size = refl;
      above = tt;
      first = reflexive x;
      kept = (tt, h);
    }
    bubble-IsBubbled P x (y ∷ xs) back h (k, ks) = elim (Bool-cases (greater x y)) [
      | inl e ↦
          let r = bubble-IsBubbled P x xs back h ks in
          record {
            front = y ∷ r.front;
            top = r.top;
            same = rw e (ap (λ l. y ∷ l) r.same);
            size = ap suc r.size;
            above = (order.trans y x r.top (order.asym x y e) r.first, r.above);
            first = r.first;
            kept = ((k, r.kept.0), r.kept.1);
          }
      | inr e ↦
          let r = bubble-IsBubbled P y xs back k ks in
          record {
            front = x ∷ r.front;
            top = r.top;
            same = rw e (ap (λ l. x ∷ l) r.same);
            size = ap suc r.size;
            above = (order.trans x y r.top e r.first, r.above);
            first = order.trans x y r.top e r.first;
            kept = ((h, r.kept.0), r.kept.1);
          }
    ]

    both : (P Q : K → Type 0) (xs : List K) → All P xs → All Q xs → All (λ x. P x × Q x) xs
    both P Q [] h k = tt
    both P Q (x ∷ xs) (h, hs) (k, ks) = ((h, k), both P Q xs hs ks)

    passes-IsSorted :
        (bound : ℕ) (front back : List K)
        → length front ≡ suc bound
        → IsSorted back
        → All (λ y. All (Le y) back) front
        → IsSorted (passes greater bound (front ++ back))
    unfolding passes IsSorted
    passes-IsSorted bound [] back size sorted below = absurd (omega (arith, size))
    passes-IsSorted zero (x ∷ []) back size sorted (below, rest) = (below, sorted)
    passes-IsSorted zero (x ∷ y ∷ xs) back size sorted below = absurd (omega (arith, size))
    passes-IsSorted (suc bound) (x ∷ xs) back size sorted (below, rest) =
        let r = bubble-IsBubbled (λ y. All (Le y) back) x xs back below rest in
        let count : length xs ≡ suc bound = omega (arith, size) in
        let e : bubble greater (suc bound) (x ∷ xs ++ back) ≡ r.front ++ r.top ∷ back =
          ap (λ n. bubble greater n (x ∷ xs ++ back)) (sym count) ∙ r.same in
        subst (λ l. IsSorted (passes greater bound l)) (sym e)
          (passes-IsSorted bound r.front (r.top ∷ back) (r.size ∙ count) (r.kept.1, sorted)
            (both (λ y. Le y r.top) (λ y. All (Le y) back) r.front r.above r.kept.0))

    nothing-below : (xs : List K) → All (λ y. All (Le y) []) xs
    nothing-below [] = tt
    nothing-below (x ∷ xs) = (tt, nothing-below xs)

    ordered : (ids : List K) → IsSorted (sort_ids greater ids)
    unfolding sort_ids IsSorted passes
    ordered [] = tt
    ordered (x ∷ xs) =
        subst (λ l. IsSorted (passes greater (length (x ∷ xs) - 1) l)) (append-nil (x ∷ xs))
          (passes-IsSorted (length (x ∷ xs) - 1) (x ∷ xs) [] (omega arith) tt
            (nothing-below (x ∷ xs)))

    -- The sort gives the names it was given, each as often, and in its result each name may stand
    -- before all that follow it, if the comparison comes from a total order.
    pub sort_ids_lem :
        (ids : List K) → Perm (sort_ids greater ids) ids × IsSorted (sort_ids greater ids)
    sort_ids_lem ids = (sort_ids-perm greater ids, ordered ids)
