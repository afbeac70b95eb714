-- ===== src/Server/Queue/Order.antt =====
-- What one scheduling pass of processQueue in master_server.go does to the queue.
use Prim.Native.Nat.{◌+◌}
use agentic_cloud_cluster.Base.{
  ℕ, String, ◌≡◌, refl, subst, eq_iff, inl, inr, true, false, List, [], ◌∷◌, ◌==◌, arith,
  Bool-cases,
}
use agentic_cloud_cluster.Float.{Float}
use agentic_cloud_cluster.Server.State.{MasterServer, QueuedTask, Scheduler, Answers, Message}
use agentic_cloud_cluster.Server.Assign.{assign_task_to_worker}
use agentic_cloud_cluster.Server.Assign.Guards.{assign_task_to_worker-failure}
use agentic_cloud_cluster.Server.Queue.{
  retry, targeted, no_suitable_worker, select_worker_for_task, worker_infos, try_queued, try_all,
  process_queue,
}

module _ {N : Type 0} where
  -- An entry that stays: the same task but for the worker it is meant for, in its old place in
  -- time, tried once more, with the reason.
  pub record IsRetry (target : String) (reason : Message N) (before after : QueuedTask N)
      : Type 0 where
    pub task : after.task ≡ record before.task { target_worker_id = target }
    pub queued_at : after.queued_at ≡ before.queued_at
    pub retries : after.retries ≡ before.retries + 1
    pub last_error : after.last_error ≡ reason

  retry-IsRetry :
      (qt : QueuedTask N) (m : Message N) → IsRetry qt.task.target_worker_id m qt (retry qt m)
  retry-IsRetry qt m = record { task = refl; queued_at = refl; retries = refl; last_error = refl }

  targeted-IsRetry :
      (qt : QueuedTask N) (id : String) (m : Message N) → IsRetry id m qt (retry (targeted qt id) m)
  targeted-IsRetry qt id m = record {
    task = refl;
    queued_at = refl;
    retries = refl;
    last_error = refl;
  }

module _ {N S : Type 0} ⦃f : Float N⦄ (sched : Scheduler N S) where
  -- What the scheduler names for a task, as the server stands, and the server with the scheduler's
  -- new state.
  pub record Names (s : MasterServer N S) (qt : QueuedTask N) (id : String) (s₁ : MasterServer N S)
      : Type 0 where
    pub name : id ≡ (sched.select_worker qt.task (worker_infos s) s.scheduler).0
    pub server :
        s₁ ≡ record s { scheduler = (sched.select_worker qt.task (worker_infos s) s.scheduler).1 }

  -- A pass, entry by entry, with the server before and after it: the entry of number `i` meets the
  -- server that those before it have left.
  pub data Passed (a : ℕ → Answers N)
      : ℕ
        → MasterServer N S
        → List (QueuedTask N)
        → List (QueuedTask N)
        → MasterServer N S
        → Type 0 where
    over : (i : ℕ) (s : MasterServer N S) → Passed a i s [] [] s
    -- a worker accepts the task and it is entered in the books
    placed :
        (i : ℕ) (s s₁ s₂ s' : MasterServer N S) (id : String) (qt : QueuedTask N)
        (qs rs : List (QueuedTask N))
        → Names s qt id s₁
        → (id == "") ≡ false
        → (assign_task_to_worker s₁ (a i) (record qt.task { target_worker_id = id }) id).0.success
          ≡ true
        → s₂ ≡ (assign_task_to_worker s₁ (a i) (record qt.task { target_worker_id = id }) id).1
        → Passed a (i + 1) s₂ qs rs s'
        → Passed a i s (qt ∷ qs) rs s'
    -- the assignment is answered by a failure: nothing is entered
    failed :
        (i : ℕ) (s s₁ s' : MasterServer N S) (id : String) (qt qt' : QueuedTask N)
        (qs rs : List (QueuedTask N))
        → Names s qt id s₁
        → (id == "") ≡ false
        → (assign_task_to_worker s₁ (a i) (record qt.task { target_worker_id = id }) id).0.success
          ≡ false
        → IsRetry id
            (assign_task_to_worker s₁ (a i) (record qt.task { target_worker_id = id }) id).0.message
            qt
            qt'
        → Passed a (i + 1) s₁ qs rs s'
        → Passed a i s (qt ∷ qs) (qt' ∷ rs) s'
    -- no worker is named
    unnamed :
        (i : ℕ) (s s₁ s' : MasterServer N S) (qt qt' : QueuedTask N) (qs rs : List (QueuedTask N))
        → Names s qt "" s₁
        → IsRetry qt.task.target_worker_id no_suitable_worker qt qt'
        → Passed a (i + 1) s₁ qs rs s'
        → Passed a i s (qt ∷ qs) (qt' ∷ rs) s'

  select_worker-Names :
      (s : MasterServer N S) (qt : QueuedTask N)
      → Names s qt
          (select_worker_for_task sched s qt.task).0
          (select_worker_for_task sched s qt.task).1
  unfolding select_worker_for_task
  select_worker-Names s qt = record { name = refl; server = refl }

  try_all-Passed :
      (s : MasterServer N S) (a : ℕ → Answers N) (i : ℕ) (queue : List (QueuedTask N))
      → Passed a i s queue (try_all sched s a i queue).0 (try_all sched s a i queue).1
  unfolding try_all try_queued
  try_all-Passed s a i [] = over i s
  try_all-Passed s a i (qt ∷ rest) =
      let (id, s₁) = select_worker_for_task sched s qt.task in
      let (ack, s₂, calls) = assign_task_to_worker s₁ (a i) (targeted qt id).task id in
      let named = select_worker-Names s qt in
      elim (Bool-cases (id == "")) [
        | inl nobody ↦
            let kept : (try_queued sched s (a i) qt).0 ≡ retry qt no_suitable_worker ∷ [] =
              ground (arith, nobody) in
            let left : (try_queued sched s (a i) qt).1 ≡ s₁ = ground (arith, nobody) in
            let empty : id ≡ "" = (eq_iff id "").0 nobody in
            rw (kept, left)
              (unnamed i s s₁ _ qt (retry qt no_suitable_worker) rest _
                (subst (λ j. Names s qt j s₁) empty named) (retry-IsRetry qt no_suitable_worker)
                (try_all-Passed s₁ a (i + 1) rest))
        | inr somebody ↦ elim (Bool-cases ack.success) [
          | inl ok ↦
              let kept : (try_queued sched s (a i) qt).0 ≡ [] = ground (arith, somebody, ok) in
              let left : (try_queued sched s (a i) qt).1 ≡ s₂ = ground (arith, somebody) in
              rw (kept, left)
                (placed i s s₁ s₂ _ id qt rest _ named somebody ok refl
                  (try_all-Passed s₂ a (i + 1) rest))
          | inr refused ↦
              let kept : (try_queued sched s (a i) qt).0 ≡ retry (targeted qt id) ack.message ∷ [] =
                ground (arith, somebody, refused) in
              let same : s₂ ≡ s₁ =
                assign_task_to_worker-failure s₁ (a i) (targeted qt id).task id refused in
              let left : (try_queued sched s (a i) qt).1 ≡ s₁ = ground (arith, somebody, same) in
              rw (kept, left)
                (failed i s s₁ _ id qt (retry (targeted qt id) ack.message) rest _ named somebody
                  refused (targeted-IsRetry qt id ack.message) (try_all-Passed s₁ a (i + 1) rest))
        ]
      ]

  -- A pass over the queue takes the entries in their order and loses none. For each the scheduler is
  -- asked for a worker, with the books as the entries before it have left them. An entry leaves the
  -- queue exactly if a worker is named and the assignment of this very task to it succeeds; otherwise
  -- it stays, in its place among those that stay, with its task as it was but for the worker it is
  -- meant for, its time, one more retry and the reason, and nothing is entered in the books. The
  -- rest of the server is as the last entry has left it.
  pub process_queue-Passed :
      (s : MasterServer N S) (a : ℕ → Answers N)
      → (s' : MasterServer N S) × Passed a 0 s s.task_queue
          (process_queue sched s a).0.task_queue
          s'
        × ((process_queue sched s a).0
            ≡ record s' { task_queue = (process_queue sched s a).0.task_queue })
  unfolding process_queue
  process_queue-Passed s a =
      ((try_all sched s a 0 s.task_queue).1, try_all-Passed s a 0 s.task_queue, refl)
