-- ===== src/Scheduler/RoundRobin/Selection.antt =====
-- What SelectWorker of round_robin.go returns: the first suitable worker, in cyclic order.
use Prim.Native.Nat.{◌+◌, ◌%◌}
use native.Mathlib.Nat.{add-zero}
use agentic_cloud_cluster.Base.{
  ℕ, zero, suc, ◌<◌, String, ◌≡◌, refl, ap, subst, ◌∙◌, ◌≢◌, true, false, ◌==◌, none, some, List,
  [], ◌∷◌, arith, length, get_elem?, Option-cases, inl, inr,
}
use agentic_cloud_cluster.Float.{Float, lt}
use agentic_cloud_cluster.Dict.{Dict, lookup}
use agentic_cloud_cluster.Proto.{Task}
use agentic_cloud_cluster.Scheduler.{WorkerView, is_worker_suitable, fits}
use agentic_cloud_cluster.Scheduler.RoundRobin.{
  RoundRobin, sorted_ids, suitable_at, scan, finish, select_worker,
}

-- From the round `i` and those after it, all rounds from `i` on.
from_round :
    (P : ℕ → Type 0) (start i k : ℕ)
    → P (start + i)
    → ((j : ℕ) → j < k → P (start + (i + 1 + j)))
    → (j : ℕ) → j < suc k
    → P (start + (i + j))
from_round P start i k now later zero h = rw add-zero now
from_round P start i k now later (suc j) h =
    subst (λ m. P (start + m)) (omega arith) (later j (omega arith))

module _ {N : Type 0} ⦃f : Float N⦄ (task : Task N) (workers : Dict (WorkerView N)) where
  -- The worker under this name is there and can take the task.
  abbrev pub IsSuitable : String → Type 0
  IsSuitable id =
      (w : WorkerView N) × (lookup id workers ≡ some w) × (is_worker_suitable w task ≡ true)

  pub suitable_at-IsSuitable :
      (ids : List String) (i : ℕ) (id : String)
      → suitable_at task workers ids i ≡ some id
      → (get_elem? ids i ≡ some id) × IsSuitable id
  unfolding suitable_at
  suitable_at-IsSuitable ids i id h = elim (Option-cases (get_elem? ids i)) [
    | inl e ↦ absurd (ground arith)
    | inr (j, e) ↦ elim (Option-cases (lookup j workers)) [
      | inl e' ↦ absurd (ground arith)
      | inr (w, e') ↦ (ground arith, (w, ground arith, ground arith))
    ]
  ]

  -- where the scan stops, and that it stopped nowhere before
  abbrev pub Stops : List String → ℕ → ℕ → ℕ → ℕ × String → Type 0
  Stops ids start rounds i r =
      (k : ℕ) × (k < rounds)
      × (r.0 ≡ (start + (i + k)) % length ids)
      × (suitable_at task workers ids r.0 ≡ some r.1)
      × ((j : ℕ) → j < k → suitable_at task workers ids ((start + (i + j)) % length ids) ≡ none)

  pub scan-some :
      (ids : List String) (start rounds i : ℕ) (r : ℕ × String)
      → scan task workers ids start rounds i ≡ some r
      → Stops ids start rounds i r
  unfolding scan
  scan-some ids start zero i r h = cc
  scan-some ids start (suc rounds) i r h =
      elim (Option-cases (suitable_at task workers ids ((start + i) % length ids))) [
        | inl e ↦
            let (k, below, at, hit, before) =
              scan-some ids start rounds (i + 1) r (ground (arith, e)) in
            (
              suc k,
              omega arith,
              at ∙ ap (λ m. m % length ids) (omega arith),
              hit,
              from_round (λ m. suitable_at task workers ids (m % length ids) ≡ none) start i k e
                  before,
            )
        | inr (id, e) ↦
            (0, omega arith, ground (arith, add-zero i), ground arith, λ j p. elim p [ ])
      ]

  pub scan-none :
      (ids : List String) (start rounds i : ℕ)
      → scan task workers ids start rounds i ≡ none
      → (k : ℕ) → k < rounds
      → suitable_at task workers ids ((start + (i + k)) % length ids) ≡ none
  unfolding scan
  scan-none ids start zero i h = λ k p. elim p [ ]
  scan-none ids start (suc rounds) i h =
      elim (Option-cases (suitable_at task workers ids ((start + i) % length ids))) [
        | inl e ↦
            from_round (λ m. suitable_at task workers ids (m % length ids) ≡ none) start i rounds e
              (scan-none ids start rounds (i + 1) (ground (arith, e)))
        | inr (id, e) ↦ absurd (ground arith)
      ]

module _ {N : Type 0} ⦃f : Float N⦄ (task : Task N) where
  -- What the code does, the test for an empty map left out: that test changes nothing.
  abbrev pub search_all : Dict (WorkerView N) → RoundRobin → String × RoundRobin
  search_all workers s =
      let ids = sorted_ids workers in
      finish s (scan task workers ids (s.next % length ids) (length ids) 0)

  search_all_empty : (s : RoundRobin) → select_worker task [] s ≡ search_all [] s
  unfolding select_worker sorted_ids
  search_all_empty s = refl

  pub select_worker_lem :
      (workers : Dict (WorkerView N)) (s : RoundRobin)
      → select_worker task workers s ≡ search_all workers s
  unfolding select_worker
  select_worker_lem [] s = search_all_empty s
  select_worker_lem ((k, w) ∷ ws) s = ground arith

  -- The scan's result, for a choice.
  pub chosen :
      (workers : Dict (WorkerView N)) (s : RoundRobin)
      → (select_worker task workers s).0 ≢ ""
      → let ids = sorted_ids workers in
        (r : ℕ × String) × (select_worker task workers s ≡ (r.1, record { next = suc r.0 }))
        × Stops task workers ids (s.next % length ids) (length ids) 0 r
  unfolding finish
  chosen workers s h =
      let ids = sorted_ids workers in
      let start = s.next % length ids in
      elim (Option-cases (scan task workers ids start (length ids) 0)) [
        | inl e ↦ absurd (h (ground (arith, select_worker_lem workers s)))
        | inr (r, e) ↦ (
          r,
          ground (arith, select_worker_lem workers s),
          scan-some task workers ids start (length ids) 0 r e,
        )
      ]

  pub select_worker_suits :
      (workers : Dict (WorkerView N)) (s : RoundRobin)
      → (select_worker task workers s).0 ≢ ""
      → IsSuitable task workers (select_worker task workers s).0
  select_worker_suits workers s h =
      let (r, e, (k, below, at, hit, before)) = chosen workers s h in
      rw e (suitable_at-IsSuitable task workers (sorted_ids workers) r.0 r.1 hit).1

  -- a worker that is active, has an address and has room for each of the four amounts of the task
  pub record CanTake (w : WorkerView N) : Type 0 where
    pub active : w.is_active ≡ true
    pub address : (w.worker_ip == "") ≡ false
    pub cpu : lt w.available.cpu task.req.cpu ≡ false
    pub memory : lt w.available.memory task.req.memory ≡ false
    pub storage : lt w.available.storage task.req.storage ≡ false
    pub gpu : lt w.available.gpu task.req.gpu ≡ false

  suitable-CanTake : (w : WorkerView N) → is_worker_suitable w task ≡ true → CanTake w
  unfolding is_worker_suitable fits
  suitable-CanTake w h = record {
    active = ground arith;
    address = ground arith;
    cpu = ground arith;
    memory = ground arith;
    storage = ground arith;
    gpu = ground arith;
  }

  -- A name that SelectWorker returns, other than the empty one, is that of a worker of the map
  -- which is active, has an address, and has no less available than the task asks for, in each of
  -- the four amounts.
  pub select_worker-IsSuitable :
      (workers : Dict (WorkerView N)) (s : RoundRobin)
      → (select_worker task workers s).0 ≢ ""
      → (w : WorkerView N) × (lookup (select_worker task workers s).0 workers ≡ some w) × CanTake w
  select_worker-IsSuitable workers s h =
      let (w, there, suits) = select_worker_suits workers s h in
      (w, there, suitable-CanTake w suits)
