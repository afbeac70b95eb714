-- ===== src/Server/Assign/Guards.antt =====
-- What assignTaskToWorker of master_server.go guarantees when nobody else is at the books.
use agentic_cloud_cluster.Base.{
  String, ◌≡◌, refl, sym, ap, ◌∙◌, ◌⊎◌, true, false, some, [], ◌==◌, arith, Option-cases, inl, inr,
  eq_iff, if◌then◌else◌,
}
use agentic_cloud_cluster.Float.{Float, lt, zero, ◌+◌, ◌-◌}
use agentic_cloud_cluster.Dict.{lookup, lookup-modify, lookup-insert}
use agentic_cloud_cluster.Proto.{Resources, Task}
use agentic_cloud_cluster.Server.State.{
  MasterServer, WorkerState, Answers, Message, refused, worker_not_found, sub_resources,
}
use agentic_cloud_cluster.Server.Assign.{
  Check, stopped, cleared, check_worker, allocate, commit_assignment, send_task,
  assign_task_to_worker,
}

pub Check-cases :
    {N : Type 0} (c : Check N)
    → ((m : Message N) × (c ≡ stopped m)) ⊎ ((ip : String) × (c ≡ cleared ip))
Check-cases (stopped m) = inl (m, refl)
Check-cases (cleared ip) = inr (ip, refl)

module _ {N : Type 0} ⦃f : Float N⦄ where
  -- room for every amount: no amount asked for exceeds the one available
  pub record HasRoom (available req : Resources N) : Type 0 where
    pub cpu : lt available.cpu req.cpu ≡ false
    pub memory : lt available.memory req.memory ≡ false
    pub storage : lt available.storage req.storage ≡ false
    pub gpu : lt available.gpu req.gpu ≡ false

  pub record IsReady (task : Task N) (w : WorkerState N) : Type 0 where
    pub active : w.is_active ≡ true
    pub address : (w.info.worker_ip == "") ≡ false
    pub room : HasRoom w.available task.req

  pub check_worker-IsReady :
      (task : Task N) (id ip : String) (w : WorkerState N)
      → check_worker task id w ≡ cleared ip
      → IsReady task w × (ip ≡ w.info.worker_ip)
  unfolding check_worker
  check_worker-IsReady task id ip w h = ground arith

  pub record IsNonneg (r : Resources N) : Type 0 where
    pub cpu : lt r.cpu zero ≡ false
    pub memory : lt r.memory zero ≡ false
    pub storage : lt r.storage zero ≡ false
    pub gpu : lt r.gpu zero ≡ false

  pub HasRoom-IsNonneg :
      (available req : Resources N) → HasRoom available req → IsNonneg (sub_resources available req)
  HasRoom-IsNonneg available req h = record {
    cpu = f.minus_nonneg available.cpu req.cpu h.cpu;
    memory = f.minus_nonneg available.memory req.memory h.memory;
    storage = f.minus_nonneg available.storage req.storage h.storage;
    gpu = f.minus_nonneg available.gpu req.gpu h.gpu;
  }

  module _ {S : Type 0} (s : MasterServer N S) (a : Answers N) (task : Task N) (id : String) where
    send_task-success :
        (ip : String)
        → (send_task s a task id ip).0.success ≡ true
        → (send_task s a task id ip).1 ≡ commit_assignment s task id
    unfolding send_task
    send_task-success ip h = ground arith

    send_task-failure :
        (ip : String)
        → (send_task s a task id ip).0.success ≡ false
        → (send_task s a task id ip).1 ≡ s
    unfolding send_task
    send_task-failure ip h = ground arith

    -- A task that was entered into the books of a worker that could take it.
    pub record IsCommitted (s' : MasterServer N S) : Type 0 where
      pub before : WorkerState N
      pub registered : lookup id s.workers ≡ some before
      pub ready : IsReady task before
      pub after : lookup id s'.workers ≡ some (allocate task before)
      pub within : IsNonneg (sub_resources before.available task.req)

    pub assign_success_cases :
        (w : WorkerState N) (ip : String)
        → lookup id s.workers ≡ some w
        → check_worker task id w ≡ cleared ip
        → (send_task s a task id ip).0.success ≡ true
        → IsCommitted (send_task s a task id ip).1
    unfolding commit_assignment
    assign_success_cases w ip there clear ok =
        let ready = (check_worker-IsReady task id ip w clear).0 in
        record {
          before = w;
          registered = there;
          ready = ready;
          after = ground (
            arith,
            send_task-success ip ok,
            lookup-modify id id (allocate task) s.workers,
            eq_iff id id,
          );
          within = HasRoom-IsNonneg w.available task.req ready.room;
        }

    -- assignTaskToWorker stops at the check, or sends the task to a worker that passed it.
    pub assign_cases :
        ((m : Message N) × (assign_task_to_worker s a task id ≡ (refused m, s, [])))
        ⊎ ((w : WorkerState N) × (ip : String) × (lookup id s.workers ≡ some w)
            × (check_worker task id w ≡ cleared ip)
            × (assign_task_to_worker s a task id ≡ send_task s a task id ip))
    unfolding assign_task_to_worker
    assign_cases = elim (Option-cases (lookup id s.workers)) [
      | inl e ↦ inl (worker_not_found id, ground (arith, e))
      | inr (w, e) ↦ elim (Check-cases (check_worker task id w)) [
        | inl (m, c) ↦ inl (m, ground (arith, e, c))
        | inr (ip, c) ↦ inr (w, ip, e, c, ground (arith, e, c))
      ]
    ]

    pub assign-IsCommitted :
        (assign_task_to_worker s a task id).0.success ≡ true
        → IsCommitted (assign_task_to_worker s a task id).1
    assign-IsCommitted ok = elim assign_cases [
      | inl (m, e) ↦ absurd (cc (ap (λ o. o.0.success) e))
      | inr (w, ip, there, clear, e) ↦
          rw e (assign_success_cases w ip there clear (sym (ap (λ o. o.0.success) e) ∙ ok))
    ]

    -- The books of the worker before and after an assignment: the task is among the running ones,
    -- where no other has changed, and each of its four amounts has gone from what is available to
    -- what is allocated.
    pub record IsAssigned (s' : MasterServer N S) : Type 0 where
      pub before : WorkerState N
      pub after : WorkerState N
      pub registered : lookup id s.workers ≡ some before
      pub entered : lookup id s'.workers ≡ some after
      pub ready : IsReady task before
      pub running :
          (j : String)
          → lookup j after.running_tasks
            ≡ (if task.task_id == j then some true else lookup j before.running_tasks)
      pub allocated : after.allocated ≡ record {
        cpu = before.allocated.cpu + task.req.cpu;
        memory = before.allocated.memory + task.req.memory;
        storage = before.allocated.storage + task.req.storage;
        gpu = before.allocated.gpu + task.req.gpu;
      }
      pub available : after.available ≡ record {
        cpu = before.available.cpu - task.req.cpu;
        memory = before.available.memory - task.req.memory;
        storage = before.available.storage - task.req.storage;
        gpu = before.available.gpu - task.req.gpu;
      }
      pub within : IsNonneg after.available
      pub description : after.info ≡ before.info
      pub active : after.is_active ≡ true

    -- If nobody else is at the books between the check and the entry, during the call to the worker,
    -- a successful assignment went to a registered, active worker with an address and room for
    -- each of the four amounts. The task is then among the worker's running tasks, of which no other
    -- has changed; each of the four amounts has been added to what is allocated and taken off what
    -- is available; and what is left available is in no amount below zero.
    pub assign_task_to_worker-IsAssigned :
        (assign_task_to_worker s a task id).0.success ≡ true
        → IsAssigned (assign_task_to_worker s a task id).1
    assign_task_to_worker-IsAssigned ok =
        let done = assign-IsCommitted ok in
        record {
          before = done.before;
          after = allocate task done.before;
          registered = done.registered;
          entered = done.after;
          ready = done.ready;
          running = λ j. lookup-insert task.task_id j true done.before.running_tasks;
          allocated = refl;
          available = refl;
          within = done.within;
          description = refl;
          active = done.ready.active;
        }

    -- so the server after a successful one is the server with the task in its books
    pub assign-commit :
        (assign_task_to_worker s a task id).0.success ≡ true
        → (assign_task_to_worker s a task id).1 ≡ commit_assignment s task id
    assign-commit ok = elim assign_cases [
      | inl (m, e) ↦ absurd (cc (ap (λ o. o.0.success) e))
      | inr (w, ip, there, clear, e) ↦
          ap (λ o. o.1) e ∙ send_task-success ip (sym (ap (λ o. o.0.success) e) ∙ ok)
    ]

    -- An assignment that is answered by a failure leaves the whole server as it was.
    pub assign_task_to_worker-failure :
        (assign_task_to_worker s a task id).0.success ≡ false
        → (assign_task_to_worker s a task id).1 ≡ s
    assign_task_to_worker-failure h = elim assign_cases [
      | inl (m, e) ↦ ap (λ o. o.1) e
      | inr (w, ip, there, clear, e) ↦
          rw e (send_task-failure ip (sym (ap (λ o. o.0.success) e) ∙ h))
    ]

    parts-send_task : (ip : String) → (send_task s a task id ip).1.parts ≡ s.parts
    unfolding send_task commit_assignment
    parts-send_task ip = ground arith

    pub parts-assign : (assign_task_to_worker s a task id).1.parts ≡ s.parts
    parts-assign = elim assign_cases [
      | inl (m, e) ↦ ap (λ o. o.1.parts) e
      | inr (w, ip, there, clear, e) ↦ rw e (parts-send_task ip)
    ]
