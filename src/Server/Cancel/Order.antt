-- ===== src/Server/Cancel/Order.antt =====
-- The order of events in CancelTask of master_server.go, and what it leaves alone.
use agentic_cloud_cluster.Base.{
  String, ◌≡◌, refl, ◌⊎◌, inl, inr, false, List, [], ◌∷◌, ◌++◌, ◌&&◌, not, arith, Bool-cases,
}
use mathlib.Core.Option
use agentic_cloud_cluster.Dict.{lookup, lookup-modify}
use agentic_cloud_cluster.Proto.{Resources}
use agentic_cloud_cluster.Server.State.{
  MasterServer, WorkerState, Answers, Message, Call, when, update_task_status, rpc_cancel_task,
}
use agentic_cloud_cluster.Server.Cancel.{
  Target, missing, found, find_target, drop_task, ask_worker, cancel_task,
}

abbrev pub Accounts : Type 0 → Type 0
Accounts N = Resources N × Resources N

abbrev pub accounts : {N : Type 0} → WorkerState N → Accounts N
accounts w = (w.allocated, w.available)

pub Target-cases :
    {N : Type 0} (t : Target N)
    → ((m : Message N) × (t ≡ missing m)) ⊎ ((id : String) × (w : WorkerState N) × (t ≡ found id w))
Target-cases (missing m) = inl (m, refl)
Target-cases (found id w) = inr (id, w, refl)

module _ {N S : Type 0} (s : MasterServer N S) (a : Answers N) (task_id : String) where
  abbrev pub status_call : List (Call N)
  status_call = when s.parts.task_db (update_task_status task_id "cancelled" ∷ [])

  -- No call at all; or the status alone; or the status, which was written if there is a database of
  -- tasks, and then the worker.
  abbrev pub StatusFirst : List (Call N) → Type 0
  StatusFirst calls =
      (calls ≡ [])
      ⊎ ((calls ≡ status_call)
          ⊎ ((ip : String) × (calls ≡ status_call ++ rpc_cancel_task ip task_id ∷ [])
              × ((s.parts.task_db && not a.update_status_ok) ≡ false)))

  ask_calls :
      (id ip : String)
      → ((ask_worker s a task_id id ip).2 ≡ [])
        ⊎ ((ask_worker s a task_id id ip).2 ≡ rpc_cancel_task ip task_id ∷ [])
  unfolding ask_worker
  ask_calls id ip = ground arith

  cancel_found :
      (id : String) (w : WorkerState N)
      → find_target s a task_id ≡ found id w
      → StatusFirst (cancel_task s a task_id).2
  unfolding cancel_task
  cancel_found id w e = elim (Bool-cases (s.parts.task_db && not a.update_status_ok)) [
    | inl failed ↦ inr (inl (ground (arith, e, failed)))
    | inr passed ↦ elim (ask_calls id w.info.worker_ip) [
      | inl quiet ↦ inr (inl (ground (arith, e, passed, quiet)))
      | inr asked ↦ inr (inr (w.info.worker_ip, ground (arith, e, passed, asked), passed))
    ]
  ]

  cancel_missing :
      (m : Message N)
      → find_target s a task_id ≡ missing m
      → StatusFirst (cancel_task s a task_id).2
  unfolding cancel_task
  cancel_missing m e = inl (ground (arith, e))

  -- A cancellation writes the status before it turns to the worker, and does not turn to the worker
  -- if the status could not be written.
  pub cancel-StatusFirst : StatusFirst (cancel_task s a task_id).2
  cancel-StatusFirst = elim (Target-cases (find_target s a task_id)) [
    | inl (m, e) ↦ cancel_missing m e
    | inr (id, w, e) ↦ cancel_found id w e
  ]

  ask-accounts :
      (id ip j : String)
      → Option.map accounts (lookup j (ask_worker s a task_id id ip).1.workers)
        ≡ Option.map accounts (lookup j s.workers)
  unfolding ask_worker
  ask-accounts id ip j = ground (arith, lookup-modify id j (drop_task task_id) s.workers)

  -- A cancellation moves no resources: whatever its outcome, the allocated and the available amounts
  -- of every worker stay as they are. They are given back by the worker's report alone.
  pub cancel-accounts :
      (j : String)
      → Option.map accounts (lookup j (cancel_task s a task_id).1.workers)
        ≡ Option.map accounts (lookup j s.workers)
  unfolding cancel_task
  cancel-accounts j = elim (Target-cases (find_target s a task_id)) [
    | inl (m, e) ↦ ground (arith, e)
    | inr (id, w, e) ↦ ground (arith, e, ask-accounts id w.info.worker_ip j)
  ]
