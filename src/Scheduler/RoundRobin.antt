-- ===== src/Scheduler/RoundRobin.antt =====
-- RoundRobinScheduler of master/internal/scheduler/round_robin.go.
pub mod Selection
pub mod Fairness
use Prim.Native.Nat.{◌+◌, ◌%◌, compare, Ordering}
use Prim.Native.String.{compare as compare_text}
use agentic_cloud_cluster.Base.{
  ℕ, zero, suc, String, Bool, true, false, Option, none, some, List, [], ◌∷◌, eqb, length,
  get_elem?, if◌then◌else◌,
}
use agentic_cloud_cluster.Float.{Float}
use agentic_cloud_cluster.Dict.{Dict, keys, lookup}
use agentic_cloud_cluster.Proto.{Task}
use agentic_cloud_cluster.Scheduler.Sort.{sort_ids}
use agentic_cloud_cluster.Scheduler.{WorkerView, is_worker_suitable}

-- `lastWorkerIndex`, which starts at -1, is kept as its successor: `next` is lastWorkerIndex + 1.
pub record RoundRobin : Type 0 where
  pub next : ℕ

unfoldable pub new_round_robin_scheduler : RoundRobin
new_round_robin_scheduler = record { next = 0 }

unfoldable pub reset : RoundRobin → RoundRobin
reset s = record s { next = 0 }

-- Go's `a > b` on strings
abbrev pub greater : String → String → Bool
greater a b = elim (compare_text a b) [ Ordering.gt ↦ true | _ ↦ false ]

unfoldable pub sorted_ids {ℓ} : {V : Type ℓ} → Dict V → List String
unfolding sort_ids
sorted_ids workers = sort_ids greater (keys workers)

-- After the loop: the choice is kept, or the empty name says that there is none.
unfoldable pub finish : RoundRobin → Option (ℕ × String) → String × RoundRobin
finish s none = ("", s)
finish s (some (current, id)) = (id, record s { next = current + 1 })

module _ {N : Type 0} ⦃f : Float N⦄ where
  -- The test of the loop's body at one index. The map holds every name of the list.
  unfoldable pub suitable_at : Task N → Dict (WorkerView N) → List String → ℕ → Option String
  suitable_at task workers ids i = elim (get_elem? ids i) [
    | none ↦ none
    | some id ↦ elim (lookup id workers) [
      | none ↦ none
      | some worker ↦ if is_worker_suitable worker task then some id else none
    ]
  ]

  -- The loop `for i := 0; i < n; i++`, with the rounds left and the current i.
  unfoldable pub scan : Task N → Dict (WorkerView N) → List String → ℕ → ℕ → ℕ → Option (ℕ × String)
  scan task workers ids start zero i = none
  scan task workers ids start (suc rounds) i =
      let current = (start + i) % length ids in
      elim (suitable_at task workers ids current) [
        | some id ↦ some (current, id)
        | none ↦ scan task workers ids start rounds (i + 1)
      ]

  unfoldable pub select_worker : Task N → Dict (WorkerView N) → RoundRobin → String × RoundRobin
  unfolding scan finish
  select_worker task workers s =
      let ids = sorted_ids workers in
      if eqb (length workers) 0
      then ("", s)
      else finish s (scan task workers ids (s.next % length ids) (length ids) 0)
