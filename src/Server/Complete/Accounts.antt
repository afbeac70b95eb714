-- ===== src/Server/Complete/Accounts.antt =====
-- What ReportTaskCompletion of master_server.go does to the books of the workers.
use agentic_cloud_cluster.Base.{
  String, ◌≡◌, refl, sym, ap, ◌∙◌, true, none, some, ◌==◌, arith, if◌then◌else◌, eq_iff,
  Option-cases, inl, inr,
}
use mathlib.Core.Option
use agentic_cloud_cluster.Float.{Float, zero}
use agentic_cloud_cluster.Dict.{lookup, lookup-insert, lookup-delete}
use agentic_cloud_cluster.Proto.{Resources, Task, TaskResult}
use agentic_cloud_cluster.Server.State.{
  MasterServer, WorkerState, TaskDoc, Answers, add_resources, sub_resources, clamp_resources,
}
use agentic_cloud_cluster.Server.Assign.{assign_task_to_worker, allocate}
use agentic_cloud_cluster.Server.Assign.Guards.{IsNonneg, assign-IsCommitted, parts-assign}
use agentic_cloud_cluster.Server.Complete.{leave, task_resources, report_task_completion}

module _ {N : Type 0} ⦃f : Float N⦄ where
  clamp_resources-IsNonneg : (r : Resources N) → IsNonneg (clamp_resources r)
  clamp_resources-IsNonneg r = record {
    cpu = ground (arith, f.less_irrefl zero);
    memory = ground (arith, f.less_irrefl zero);
    storage = ground (arith, f.less_irrefl zero);
    gpu = ground (arith, f.less_irrefl zero);
  }

  pub clamp_nonneg : (r : Resources N) → IsNonneg r → clamp_resources r ≡ r
  clamp_nonneg r h = ground arith

  module _ {S : Type 0} (s : MasterServer N S) (a : Answers N) (r : TaskResult) where
    -- The report changes the books of the worker that sends it and of no other: the task is
    -- struck off, and the amounts are given back if the database knows the task.
    pub report-lookup :
        (id : String)
        → lookup id (report_task_completion s a r).1.workers ≡ (
            if r.worker_id == id
            then Option.map (leave (task_resources s a) r.task_id) (lookup id s.workers)
            else lookup id s.workers)
    unfolding report_task_completion
    report-lookup id = elim (Option-cases (lookup r.worker_id s.workers)) [
      | inl e ↦ ground (arith, e, eq_iff r.worker_id id)
      | inr (w, e) ↦ ground (
        arith,
        e,
        eq_iff r.worker_id id,
        lookup-insert r.worker_id id (leave (task_resources s a) r.task_id w) s.workers,
      )
    ]

  -- The worker `w'` after the report of a known task by the worker `w`.
  pub record IsReleased (task_id : String) (req : Resources N) (w w' : WorkerState N) : Type 0 where
    pub struck : lookup task_id w'.running_tasks ≡ none
    pub given_back : w'.available ≡ add_resources w.available req
    pub taken_off : w'.allocated ≡ clamp_resources (sub_resources w.allocated req)
    pub nonneg : IsNonneg w'.allocated
    pub info : w'.info ≡ w.info
    pub active : w'.is_active ≡ w.is_active

  leave-IsReleased :
      (doc : TaskDoc N) (task_id : String) (w : WorkerState N)
      → IsReleased task_id doc.req w (leave (some doc) task_id w)
  leave-IsReleased doc task_id w = record {
    struck = ground (arith, lookup-delete task_id task_id w.running_tasks, eq_iff task_id task_id);
    given_back = refl;
    taken_off = refl;
    nonneg = clamp_resources-IsNonneg (sub_resources w.allocated doc.req);
    info = refl;
    active = refl;
  }

  module _ {S : Type 0} where
    -- A report of a task that the database knows strikes the task off the books of its worker and
    -- adds the task's amounts to the available ones, without regard to whether the task was on
    -- the books. No allocated amount is below zero afterwards.
    pub report-IsReleased :
        (s : MasterServer N S) (a : Answers N) (r : TaskResult) (w : WorkerState N)
        (doc : TaskDoc N)
        → lookup r.worker_id s.workers ≡ some w
        → s.parts.task_db ≡ true
        → a.task ≡ some doc
        → (w' : WorkerState N) × (lookup r.worker_id (report_task_completion s a r).1.workers
            ≡ some w')
          × IsReleased r.task_id doc.req w w'
    report-IsReleased s a r w doc there db known = (
      leave (some doc) r.task_id w,
      ground (arith, report-lookup s a r r.worker_id, eq_iff r.worker_id r.worker_id),
      leave-IsReleased doc r.task_id w,
    )

    parts-report :
        (s : MasterServer N S) (a : Answers N) (r : TaskResult)
        → (report_task_completion s a r).1.parts ≡ s.parts
    unfolding report_task_completion
    parts-report s a r = ground arith

    -- A registered worker that reports a task which the database knows, and then reports once more
    -- with the database giving the same task, is given the task's amounts twice.
    pub report_twice :
        (s : MasterServer N S) (a a' : Answers N) (r r' : TaskResult) (w : WorkerState N)
        (doc : TaskDoc N)
        → lookup r.worker_id s.workers ≡ some w
        → s.parts.task_db ≡ true
        → a.task ≡ some doc
        → a'.task ≡ some doc
        → r'.worker_id ≡ r.worker_id
        → (w' : WorkerState N) × (lookup r.worker_id
              (report_task_completion (report_task_completion s a r).1 a' r').1.workers
            ≡ some w')
          × (w'.available ≡ add_resources (add_resources w.available doc.req) doc.req)
    report_twice s a a' r r' w doc there db known known' same =
        let (w₁, there₁, released₁) = report-IsReleased s a r w doc there db known in
        let s₁ = (report_task_completion s a r).1 in
        let (w₂, there₂, released₂) =
          report-IsReleased s₁ a' r' w₁ doc (ap (λ id. lookup id s₁.workers) same ∙ there₁)
            (ap (λ p. p.task_db) (parts-report s a r) ∙ db) known' in
        (
          w₂,
          ap (λ id. lookup id (report_task_completion s₁ a' r').1.workers) (sym same) ∙ there₂,
          released₂.given_back ∙ ap (λ x. add_resources x doc.req) released₁.given_back,
        )

  -- The arithmetic loses nothing on these amounts, as it does not on whole numbers of moderate size.
  pub record IsExact (total part : Resources N) : Type 0 where
    pub sub_add : add_resources (sub_resources total part) part ≡ total
    pub add_sub : sub_resources (add_resources total part) part ≡ total

  module _ {S : Type 0} (s : MasterServer N S) (a a' : Answers N) (task : Task N)
      (r : TaskResult) where
    -- A task that is assigned and then reported once leaves its worker with the allocated and the
    -- available amounts that it had, if the arithmetic is exact on them, the database has the
    -- task with the amounts that were asked for, and no allocated amount was below zero.
    pub report-assign :
        (w : WorkerState N) (doc : TaskDoc N)
        → lookup r.worker_id s.workers ≡ some w
        → (assign_task_to_worker s a task r.worker_id).0.success ≡ true
        → s.parts.task_db ≡ true
        → a'.task ≡ some doc
        → doc.req ≡ task.req
        → IsExact w.available task.req
        → IsExact w.allocated task.req
        → IsNonneg w.allocated
        → let s' = (assign_task_to_worker s a task r.worker_id).1 in
          (w' : WorkerState N) × (lookup r.worker_id (report_task_completion s' a' r).1.workers
            ≡ some w')
          × (w'.available ≡ w.available)
          × (w'.allocated ≡ w.allocated)
          × (lookup r.task_id w'.running_tasks ≡ none)
    report-assign w doc there ok db known amounts free used nonneg =
        let s' = (assign_task_to_worker s a task r.worker_id).1 in
        let assigned = assign-IsCommitted s a task r.worker_id ok in
        let same : assigned.before ≡ w = cc (assigned.registered, there) in
        let w₁ = allocate task w in
        let there₁ : lookup r.worker_id s'.workers ≡ some w₁ =
          assigned.after ∙ ap (λ x. some (allocate task x)) same in
        let db' : s'.parts.task_db ≡ true =
          ap (λ p. p.task_db) (parts-assign s a task r.worker_id) ∙ db in
        let (w', there', released) = report-IsReleased s' a' r w₁ doc there₁ db' known in
        (
          w',
          there',
          released.given_back ∙ ap (add_resources w₁.available) amounts ∙ free.sub_add,
          released.taken_off
              ∙ ap (λ x. clamp_resources (sub_resources w₁.allocated x)) amounts
              ∙ ap clamp_resources used.add_sub
              ∙ clamp_nonneg w.allocated nonneg,
          released.struck,
        )
