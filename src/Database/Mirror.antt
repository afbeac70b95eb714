-- ===== src/Database/Mirror.antt =====
-- The accounts that the master keeps in memory (master/internal/server/master_server.go) against those
-- in the collection of workers (master/internal/db/workers.go).
pub mod Reports
pub mod Connections
pub mod Histories
use agentic_cloud_cluster.Base.{
  ℕ, String, ◌≡◌, refl, ap, sym, ◌∙◌, Bool, true, false, Option, none, some, List, [], ◌∷◌, ◌++◌,
  ◌==◌, if◌then◌else◌, ℤ, arith, eq_iff, Option-cases, Bool-cases, inl, inr, ◌⊎◌, not, ◌&&◌, ◌||◌,
  All,
}
use mathlib.Core.Option
use agentic_cloud_cluster.Float.{Float, eq, zero}
use agentic_cloud_cluster.Dict.{lookup, lookup-modify, lookup-insert, lookup-map_values}
use agentic_cloud_cluster.Proto.{Resources, WorkerInfo, Task, TaskResult, Heartbeat}
use agentic_cloud_cluster.Database.Workers.{WorkerDb, perform, perform_all}
use agentic_cloud_cluster.Database.Effects.{
  effects-append, insertion-append, recorded_at, effect, effects, has_insertion,
  perform_all-effects,
}
use agentic_cloud_cluster.Server.State.{
  MasterServer, WorkerState, Answers, Call, TaskDoc, update_worker_info, telemetry_register,
  create_task, when, Parts, sub_resources,
}
use agentic_cloud_cluster.Server.Cancel.Order.{accounts, Accounts}
use agentic_cloud_cluster.Server.Reconcile.{reconcile_single_worker}
use agentic_cloud_cluster.Server.Registry.{
  register_worker, connect, connected, heard, register_worker, connect, connected, send_heartbeat,
  check_and_mark_inactive_workers, expire,
}
use agentic_cloud_cluster.Server.Cancel.{cancel_task, ask_worker, find_target}
use agentic_cloud_cluster.Server.Cancel.Order.{cancel-accounts, Target-cases}
use agentic_cloud_cluster.Server.Queue.{submit_task, enqueue_task, dispatch_task_to_worker}
use agentic_cloud_cluster.Server.Complete.{
  report_task_completion, settle_worker, finish_report, keep_cancelled, record_status, leave,
  task_resources,
}
use agentic_cloud_cluster.Server.Complete.Accounts.{clamp_nonneg}
use agentic_cloud_cluster.Server.Assign.{
  assign_task_to_worker, send_task, commit_assignment, allocate,
}
use agentic_cloud_cluster.Server.Assign.Guards.{IsNonneg, assign_cases}

expire-accounts : {N : Type 0} (now : ℤ) (w : WorkerState N) → accounts (expire now w) ≡ accounts w
expire-accounts now w = ground arith

module _ {N S : Type 0} ⦃f : Float N⦄ where
  -- A handler that changes the accounts in memory as its calls change those in the collection.
  pub record Follows (s s' : MasterServer N S) (calls : List (Call N)) : Type 0 where
    pub quiet : has_insertion calls ≡ false
    pub parts : s'.parts ≡ s.parts
    pub followed :
        (j : String) (w' : WorkerState N)
        → lookup j s'.workers ≡ some w'
        → (w : WorkerState N) × (lookup j s.workers ≡ some w)
          × (effects calls j (some (accounts w)) ≡ some (accounts w'))

  pub Follows-refl : (s : MasterServer N S) → Follows s s []
  Follows-refl s = record { quiet = refl; parts = refl; followed = λ j w h. (w, h, refl) }

  send-Follows :
      (s : MasterServer N S) (a : Answers N) (task : Task N) (id ip : String)
      → s.parts.worker_db ≡ true
      → Follows s (send_task s a task id ip).1 (send_task s a task id ip).2
  unfolding send_task commit_assignment
  send-Follows s a task id ip has_db = record {
    quiet = ground arith;
    parts = ground arith;
    followed = λ j w' h. elim (Option-cases (lookup j s.workers)) [
      | inl gone ↦ absurd (ground (arith, gone, lookup-modify id j (allocate task) s.workers))
      | inr (w, there) ↦
          (w, there, ground (arith, there, has_db, lookup-modify id j (allocate task) s.workers))
    ];
  }

  pub assign-Follows :
      (s : MasterServer N S) (a : Answers N) (task : Task N) (id : String)
      → s.parts.worker_db ≡ true
      → Follows s (assign_task_to_worker s a task id).1 (assign_task_to_worker s a task id).2
  assign-Follows s a task id has_db = elim (assign_cases s a task id) [
    | inl (m, e) ↦ rw e (Follows-refl s)
    | inr (w, ip, there, clear, e) ↦ rw e (send-Follows s a task id ip has_db)
  ]

  pub Follows-trans :
      {s s₁ s₂ : MasterServer N S} (xs ys : List (Call N))
      → Follows s s₁ xs
      → Follows s₁ s₂ ys
      → Follows s s₂ (xs ++ ys)
  Follows-trans xs ys h k = record {
    quiet = ground (arith, insertion-append xs ys, h.quiet, k.quiet);
    parts = k.parts ∙ h.parts;
    followed = λ j w₂ there₂.
        let (w₁, there₁, later) = k.followed j w₂ there₂ in
        let (w, there, now) = h.followed j w₁ there₁ in
        (w, there, effects-append xs ys j (some (accounts w)) ∙ ap (effects ys j) now ∙ later);
  }

  -- Changes of the queue and of the scheduler leave the books alone.
  pub Follows-books :
      {s s₁ : MasterServer N S} (s₂ : MasterServer N S) (calls : List (Call N))
      → s₂.workers ≡ s₁.workers
      → s₂.parts ≡ s₁.parts
      → Follows s s₁ calls
      → Follows s s₂ calls
  Follows-books s₂ calls same parts h = record {
    quiet = h.quiet;
    parts = parts ∙ h.parts;
    followed = λ j w there. h.followed j w (ap (lookup j) (sym same) ∙ there);
  }

  created-Follows :
      (s : MasterServer N S) (task : Task N)
      → Follows s s (when s.parts.task_db (create_task task ∷ []))
  created-Follows s task = record {
    quiet = ground arith;
    parts = refl;
    followed = λ j w there. (w, there, ground arith);
  }

  pub submit-Follows :
      (s : MasterServer N S) (task : Task N) (now : ℤ)
      → Follows s (submit_task s task now).1 (submit_task s task now).2
  unfolding submit_task enqueue_task
  submit-Follows s task now =
      Follows-books (submit_task s task now).1 (submit_task s task now).2 refl refl
        (created-Follows s task)

  pub dispatch-Follows :
      (s : MasterServer N S) (a : Answers N) (task : Task N) (id : String)
      → s.parts.worker_db ≡ true
      → Follows s (dispatch_task_to_worker s a task id).1 (dispatch_task_to_worker s a task id).2
  unfolding dispatch_task_to_worker
  dispatch-Follows s a task id has_db =
      Follows-trans (when s.parts.task_db (create_task task ∷ []))
        (assign_task_to_worker s a task id).2 (created-Follows s task)
        (assign-Follows s a task id has_db)

  -- A handler that leaves all accounts alone, in memory and in the collection.
  pub still-Follows :
      (s s' : MasterServer N S) (calls : List (Call N))
      → has_insertion calls ≡ false
      → s'.parts ≡ s.parts
      → ((j : String) (o : Option (Accounts N)) → effects calls j o ≡ o)
      → ((j : String)
          → Option.map accounts (lookup j s'.workers) ≡ Option.map accounts (lookup j s.workers))
      → Follows s s' calls
  still-Follows s s' calls quiet parts still same = record {
    quiet = quiet;
    parts = parts;
    followed = λ j w' there'. elim (Option-cases (lookup j s.workers)) [
      | inl gone ↦ absurd (ground (arith, gone, there', same j))
      | inr (w, there) ↦
          (w, there, ground (arith, there, there', same j, still j (some (accounts w))))
    ];
  }

  pub beat-Follows :
      (s : MasterServer N S) (hb : Heartbeat N) (now : ℤ)
      → Follows s (send_heartbeat s hb now).1 (send_heartbeat s hb now).2
  unfolding send_heartbeat
  beat-Follows s hb now = elim (Option-cases (lookup hb.worker_id s.workers)) [
    | inl gone ↦ rw (gone, send_heartbeat) (Follows-refl s)
    | inr (w, there) ↦
        let law = λ (j : String). lookup-insert hb.worker_id j (heard w hb now) s.workers in
        still-Follows s (send_heartbeat s hb now).1 (send_heartbeat s hb now).2
          (ground (arith, there)) (ground (arith, there)) (λ j o. ground (arith, there))
          (λ j. ground (arith, there, law j, eq_iff hb.worker_id j))
  ]

  pub age-Follows :
      (s : MasterServer N S) (now : ℤ) → Follows s (check_and_mark_inactive_workers s now) []
  unfolding check_and_mark_inactive_workers
  age-Follows s now =
      still-Follows s (check_and_mark_inactive_workers s now) [] refl refl (λ j o. refl)
        (λ j. elim (Option-cases (lookup j s.workers)) [
          | inl gone ↦ ground (arith, gone, lookup-map_values (λ _ w. expire now w) j s.workers)
          | inr (w, there) ↦
              rw (lookup-map_values (λ _ w. expire now w) j s.workers, there)
                (ap some (expire-accounts now w))
        ])

  cancel_still :
      (s : MasterServer N S) (a : Answers N) (task_id : String)
      → (has_insertion (cancel_task s a task_id).2 ≡ false)
        × ((cancel_task s a task_id).1.parts ≡ s.parts)
        × ((j : String) (o : Option (Accounts N)) → effects (cancel_task s a task_id).2 j o ≡ o)
  unfolding cancel_task ask_worker
  cancel_still s a task_id = elim (Target-cases (find_target s a task_id)) [
    | inl (m, e) ↦ (ground (arith, e), ground (arith, e), λ j o. ground (arith, e))
    | inr (id, w, e) ↦ (ground (arith, e), ground (arith, e), λ j o. ground (arith, e))
  ]

  pub cancel-Follows :
      (s : MasterServer N S) (a : Answers N) (task_id : String)
      → Follows s (cancel_task s a task_id).1 (cancel_task s a task_id).2
  cancel-Follows s a task_id =
      let (quiet, parts, still) = cancel_still s a task_id in
      still-Follows s (cancel_task s a task_id).1 (cancel_task s a task_id).2 quiet parts still
        (cancel-accounts s a task_id)
