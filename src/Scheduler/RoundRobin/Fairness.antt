-- ===== src/Scheduler/RoundRobin/Fairness.antt =====
-- SelectWorker of round_robin.go misses no suitable worker, and none waits longer than one turn.
use Prim.Native.Nat.{◌+◌, ◌%◌, ◌-◌}
use native.Mathlib.Nat.{zero-add, mod-lt, mod-eq_of_lt, add-mod_right, mod-add-mod}
use agentic_cloud_cluster.Base.{
  ℕ, suc, ◌≤◌, ◌<◌, String, ◌≡◌, ap, sym, ◌∙◌, ◌≢◌, ◌⊎◌, none, some, List, [], ◌∷◌, arith, length,
  get_elem?, Option-cases, inl, inr, All, mem_by_index, index_of_mem, lt-length_of_get_elem?,
}
use native.Mathlib.Decide.{dec_le}
use mathlib.Core.HLevel.{¬_prop}
use mathlib.Core.List.{Mem, mem-cons}
use mathlib.Core.List.Perm
use mathlib.Core.Logic.Or
use mathlib.Core.Logic.{∥∥₁_elim, ∥∥₁_prop}
use agentic_cloud_cluster.Float.{Float}
use agentic_cloud_cluster.Dict.{Dict, keys, lookup, mem-keys}
use agentic_cloud_cluster.Proto.{Task}
use agentic_cloud_cluster.Scheduler.Sort.{sort_ids-perm}
use agentic_cloud_cluster.Scheduler.{WorkerView}
use agentic_cloud_cluster.Scheduler.RoundRobin.{
  RoundRobin, greater, sorted_ids, suitable_at, scan, finish, select_worker,
}
use agentic_cloud_cluster.Scheduler.RoundRobin.Selection.{
  IsSuitable, scan-some, suitable_at-IsSuitable, scan-none, chosen, select_worker_lem,
}

mem-sorted_ids :
    {V : Type 0} (id : String) (v : V) (m : Dict V) → lookup id m ≡ some v → Mem id (sorted_ids m)
unfolding sorted_ids
mem-sorted_ids id v m h = (Perm.mem_iff (sort_ids-perm greater (keys m))).1 (mem-keys id v m h)

-- Every index is reached from every start in fewer rounds than there are names.
offset : (start i n : ℕ) → start < n → i < n → (k : ℕ) × (k < n) × ((start + k) % n ≡ i)
offset start i n p q = elim (dec_le start i) [
  | yes h ↦ (i - start, omega arith, ap (λ m. m % n) (omega arith) ∙ mod-eq_of_lt q)
  | no h ↦ (
    i + n - start,
    omega arith,
    ap (λ m. m % n) (omega arith) ∙ add-mod_right i n ∙ mod-eq_of_lt q,
  )
]

module _ {N : Type 0} ⦃f : Float N⦄ (task : Task N) (workers : Dict (WorkerView N)) where
  -- at the index of a suitable worker the scan stops
  suitable_at-suitable :
      (ids : List String) (i : ℕ) (id : String)
      → get_elem? ids i ≡ some id
      → IsSuitable task workers id
      → suitable_at task workers ids i ≡ some id
  unfolding suitable_at
  suitable_at-suitable ids i id at (w, there, suits) = ground (arith, at)

  unsuitable_at :
      (ids : List String) (start : ℕ)
      → scan task workers ids (start % length ids) (length ids) 0 ≡ none
      → (i : ℕ) (id : String) → get_elem? ids i ≡ some id
      → ¬ IsSuitable task workers id
  unsuitable_at ids start h i id at suits =
      let below = lt-length_of_get_elem? ids i id at in
      let (k, less, reach) =
        offset (start % length ids) i (length ids) (mod-lt start (omega arith)) below in
      cc (
        scan-none task workers ids (start % length ids) (length ids) 0 h k less,
        ap (λ m. suitable_at task workers ids ((start % length ids + m) % length ids)) (zero-add k),
        ap (suitable_at task workers ids) reach,
        suitable_at-suitable ids i id at suits,
      )

  unsuitable :
      (ids : List String) (start : ℕ)
      → scan task workers ids (start % length ids) (length ids) 0 ≡ none
      → (id : String) → Mem id ids
      → ¬ IsSuitable task workers id
  unsuitable ids start h id m =
      mem_by_index {P = λ a. ¬ IsSuitable task workers a} (λ a. ¬_prop) ids
        (unsuitable_at ids start h) m

  found-named :
      (ids : List String) (i : ℕ) (id : String)
      → lookup "" workers ≡ none
      → suitable_at task workers ids i ≡ some id
      → id ≢ ""
  found-named ids i id named hit e =
      let (w, there, suits) = (suitable_at-IsSuitable task workers ids i id hit).1 in
      cc (ap (λ k. lookup k workers) e)

  -- If some worker of the map is suitable, SelectWorker returns a name, provided that no worker is
  -- registered under the empty one.
  pub select_worker_complete :
      (s : RoundRobin) (id : String)
      → lookup "" workers ≡ none
      → IsSuitable task workers id
      → (select_worker task workers s).0 ≢ ""
  unfolding finish
  select_worker_complete s id named (w, there, suits) h =
      let ids = sorted_ids workers in
      let start = s.next % length ids in
      elim (Option-cases (scan task workers ids start (length ids) 0)) [
        | inl e ↦ unsuitable ids s.next e id (mem-sorted_ids id w workers there) (w, there, suits)
        | inr (r, e) ↦
            let (k, below, at, hit, before) = scan-some task workers ids start (length ids) 0 r e in
            found-named ids r.0 r.1 named hit (ground (arith, select_worker_lem task workers s))
      ]

ordering : (a b : ℕ) → (a < b) ⊎ ((a ≡ b) ⊎ (b < a))
ordering a b = ground arith

-- A request, with the workers as they stand when it comes.
abbrev pub Request : Type 0 → Type 0
Request N = Task N × Dict (WorkerView N)

-- the index that the scan meets after `start` and `k` rounds, seen from the round after it
next_offset :
    (n next d k c : ℕ)
    → c ≡ (next % n + (0 + k)) % n
    → k < d
    → (suc c + (d - k - 1)) % n ≡ (next + d) % n
next_offset n next d k c e h =
    ap (λ m. m % n) (omega arith)
    ∙ ap (λ m. (m + (d - k)) % n) (e ∙ ap (λ m. (next % n + m) % n) (zero-add k))
    ∙ mod-add-mod (next % n + k) n (d - k)
    ∙ ap (λ m. m % n) (omega arith)
    ∙ mod-add-mod next n d

module _ {N : Type 0} ⦃f : Float N⦄ (task : Task N) (workers : Dict (WorkerView N))
    (s : RoundRobin) where
  abbrev places : ℕ
  places = length (sorted_ids workers)

  -- One request either gets the worker that is `d` places ahead, or brings it nearer.
  abbrev Nearer : String → ℕ → Type 0
  Nearer id d =
      let (chosen_id, s') = select_worker task workers s in
      (chosen_id ≡ id) ⊎ ((d' : ℕ) × (d' < d) × ((s'.next + d') % places ≡ (s.next + d) % places))

  at_place :
      (id : String) (d k c : ℕ) (j : String)
      → c ≡ (s.next % places + (0 + k)) % places
      → suitable_at task workers (sorted_ids workers) c ≡ some j
      → get_elem? (sorted_ids workers) ((s.next + d) % places) ≡ some id
      → k ≡ d
      → j ≡ id
  at_place id d k c j there hit at e = cc (
    (suitable_at-IsSuitable task workers (sorted_ids workers) c j hit).0,
    ap (get_elem? (sorted_ids workers))
        (there ∙ ap (λ m. m % places) (omega (arith, e)) ∙ mod-add-mod s.next places d),
  )

  turn :
      (id : String) (d : ℕ)
      → get_elem? (sorted_ids workers) ((s.next + d) % places) ≡ some id
      → lookup "" workers ≡ none
      → IsSuitable task workers id
      → Nearer id d
  turn id d at named suits =
      let (r, e, (k, reached, there, hit, before)) =
        chosen task workers s (select_worker_complete task workers s id named suits) in
      elim (ordering k d) [
        | inl less ↦ inr (
          d - k - 1,
          omega arith,
          ap (λ q. (q.1.next + (d - k - 1)) % places) e
              ∙ next_offset places s.next d k r.0 there less,
        )
        | inr (inl same) ↦ inl (ap (λ q. q.0) e ∙ at_place id d k r.0 r.1 there hit at same)
        | inr (inr more) ↦ absurd (
            cc (
              before d more,
              suitable_at-suitable task workers (sorted_ids workers) _ id at suits,
              ap (suitable_at task workers (sorted_ids workers)) (
                  ap (λ m. (s.next % places + m) % places) (zero-add d)
                  ∙ mod-add-mod s.next places d),
            ))
      ]

module _ {N : Type 0} ⦃f : Float N⦄ where
  -- What SelectWorker answers to the requests, one after the other.
  pub selections : List (Request N) → RoundRobin → List String
  selections [] s = []
  selections ((task, workers) ∷ rest) s =
      let (id, s') = select_worker task workers s in id ∷ selections rest s'

  -- Under every request the same names are registered, none of them empty, and `id` can serve.
  abbrev pub Serves : List String → String → Request N → Type 0
  Serves ids id (task, workers) =
      (sorted_ids workers ≡ ids) × (lookup "" workers ≡ none) × IsSuitable task workers id

  waits :
      (ids : List String) (id : String) (rs : List (Request N)) (s : RoundRobin) (d : ℕ)
      → d < length rs
      → get_elem? ids ((s.next + d) % length ids) ≡ some id
      → All (Serves ids id) rs
      → Mem id (selections rs s)
  unfolding selections
  waits ids id [] s d less at serves = elim less [ ]
  waits ids id ((task, workers) ∷ rest) s d less at ((same, named, suits), serves) =
      elim (turn task workers s id d (rw same at) named suits) [
        | inl e ↦ mem-cons.1 (Or.inl (sym e))
        | inr (d', nearer, e) ↦ mem-cons.1 (
            Or.inr (
              waits ids id rest (select_worker task workers s).1 d' (omega arith)
                (ap (get_elem? ids) (rw same at e) ∙ at) serves))
      ]

  -- As long as the same names are registered under every request, none of them empty, a worker
  -- that can serve every request of a turn, as many requests as there are names, is chosen for one
  -- of them, wherever the turn begins.
  pub selections-fair :
      (ids : List String) (id : String) (rs : List (Request N)) (s : RoundRobin)
      → Mem id ids
      → length ids ≤ length rs
      → All (Serves ids id) rs
      → Mem id (selections rs s)
  selections-fair ids id rs s m enough serves = ∥∥₁_elim (index_of_mem ids m) ∥∥₁_prop (λ (i, at).
      let below = lt-length_of_get_elem? ids i id at in
      let (d, less, reach) =
        offset (s.next % length ids) i (length ids) (mod-lt s.next (omega arith)) below in
      waits ids id rs s d (omega arith)
        (ap (get_elem? ids) (sym (mod-add-mod s.next (length ids) d) ∙ reach) ∙ at) serves)
