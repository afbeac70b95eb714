-- ===== src/Server/Reconcile/Books.antt =====
-- The books of a worker after a reconciliation by master_server.go: the sums over its running tasks,
-- written down without the loops that compute them.
use agentic_cloud_cluster.Base.{
  String, ◌≡◌, refl, ap, ◌∙◌, Bool, Bool-cases, ◌||◌, ◌⊎◌, true, false, Option, none, some, List,
  [], ◌∷◌, ◌==◌, arith, if◌then◌else◌, inl, inr, Option-cases,
}
use agentic_cloud_cluster.Float.{Float, ◌+◌, ◌-◌, eq, zero}
use agentic_cloud_cluster.Proto.{Resources}
use agentic_cloud_cluster.Dict.{lookup, lookup-insert}
use agentic_cloud_cluster.Server.State.{WorkerState, TaskDoc, add_resources, sub_resources}
use agentic_cloud_cluster.Server.Reconcile.{
  Usage, no_usage, add_task, usage_of, settle, out_of_sync, fix_worker,
}

module _ {N : Type 0} (assignment : String → Option String) (id : String) where
  -- the tasks that are assigned to the worker
  abbrev pub tasks_of : List (TaskDoc N) → List (TaskDoc N)
  tasks_of [] = []
  tasks_of (task ∷ rest) = elim (assignment task.task_id) [
    | none ↦ tasks_of rest
    | some j ↦ if j == id then task ∷ tasks_of rest else tasks_of rest
  ]

module _ {N : Type 0} where
  abbrev pub has_task : String → List (TaskDoc N) → Bool
  has_task j [] = false
  has_task j (task ∷ rest) = task.task_id == j || has_task j rest

module _ {N : Type 0} ⦃f : Float N⦄ where
  -- one amount, added up over the tasks in their order
  abbrev pub sum_from : (Resources N → N) → N → List (TaskDoc N) → N
  sum_from amount x [] = x
  sum_from amount x (task ∷ rest) = sum_from amount (x + amount task.req) rest

  abbrev pub sums : List (TaskDoc N) → Resources N
  sums tasks = record {
    cpu = sum_from (λ r. r.cpu) zero tasks;
    memory = sum_from (λ r. r.memory) zero tasks;
    storage = sum_from (λ r. r.storage) zero tasks;
    gpu = sum_from (λ r. r.gpu) zero tasks;
  }

  pub record Agrees (a b : Resources N) : Type 0 where
    pub cpu : eq a.cpu b.cpu ≡ true
    pub memory : eq a.memory b.memory ≡ true
    pub storage : eq a.storage b.storage ≡ true
    pub gpu : eq a.gpu b.gpu ≡ true

  -- Some amount differs.
  pub data Differs (a b : Resources N) : Type 0 where
    in_cpu : eq a.cpu b.cpu ≡ false → Differs a b
    in_memory : eq a.memory b.memory ≡ false → Differs a b
    in_storage : eq a.storage b.storage ≡ false → Differs a b
    in_gpu : eq a.gpu b.gpu ≡ false → Differs a b

  -- The books of a worker that are set anew: its tasks are the running ones, the sums over them are
  -- allocated, and what they leave of its capacity is available.
  pub record IsReset (tasks : List (TaskDoc N)) (w w' : WorkerState N) : Type 0 where
    pub allocated : w'.allocated ≡ sums tasks
    pub available : w'.available ≡ record {
      cpu = w.info.total.cpu - sum_from (λ r. r.cpu) zero tasks;
      memory = w.info.total.memory - sum_from (λ r. r.memory) zero tasks;
      storage = w.info.total.storage - sum_from (λ r. r.storage) zero tasks;
      gpu = w.info.total.gpu - sum_from (λ r. r.gpu) zero tasks;
    }
    pub running :
        (j : String) → lookup j w'.running_tasks ≡ (if has_task j tasks then some true else none)
    pub description : w'.info ≡ w.info
    pub active : w'.is_active ≡ w.is_active
    pub heartbeat : w'.last_heartbeat ≡ w.last_heartbeat

  -- A worker whose allocated amounts are the sums over its tasks stays as it is; any other has its
  -- books set anew.
  abbrev pub IsReconciled : List (TaskDoc N) → WorkerState N → WorkerState N → Type 0
  IsReconciled tasks w w' =
      (Agrees w.allocated (sums tasks) × (w' ≡ w))
      ⊎ (Differs w.allocated (sums tasks) × IsReset tasks w w')

  sync-cases :
      (w : WorkerState N) (b : Resources N)
      → ((out_of_sync w b ≡ false) × Agrees w.allocated b)
        ⊎ ((out_of_sync w b ≡ true) × Differs w.allocated b)
  sync-cases w b = elim (Bool-cases (eq w.allocated.cpu b.cpu)) [
    | inr c ↦ inr (ground (arith, c), in_cpu c)
    | inl c ↦ elim (Bool-cases (eq w.allocated.memory b.memory)) [
      | inr m ↦ inr (ground (arith, m), in_memory m)
      | inl m ↦ elim (Bool-cases (eq w.allocated.storage b.storage)) [
        | inr s ↦ inr (ground (arith, s), in_storage s)
        | inl s ↦ elim (Bool-cases (eq w.allocated.gpu b.gpu)) [
          | inr g ↦ inr (ground (arith, g), in_gpu g)
          | inl g ↦
              inl (ground (arith, c, m, s, g), record { cpu = c; memory = m; storage = s; gpu = g })
        ]
      ]
    ]
  ]

module _ {N : Type 0} ⦃f : Float N⦄ (assignment : String → Option String) (id : String) where
  -- An amount of the sums that the loop comes to, for an amount that sums go along with.
  usage-sum :
      (amount : Resources N → N)
      → ((a b : Resources N) → amount (add_resources a b) ≡ amount a + amount b)
      → (tasks : List (TaskDoc N)) (u : Usage N)
      → amount (usage_of assignment id tasks u).amounts
        ≡ sum_from amount (amount u.amounts) (tasks_of assignment id tasks)
  unfolding usage_of
  usage-sum amount adds [] u = refl
  usage-sum amount adds (task ∷ rest) u = elim (Option-cases (assignment task.task_id)) [
    | inl e ↦ ground (arith, e, usage-sum amount adds rest u)
    | inr (j, e) ↦ elim (Bool-cases (j == id)) [
      | inr other ↦ ground (arith, e, other, usage-sum amount adds rest u)
      | inl mine ↦
          ground
            (arith, e, mine, adds u.amounts task.req, usage-sum amount adds rest (add_task task u))
    ]
  ]

  usage-tasks :
      (tasks : List (TaskDoc N)) (u : Usage N) (j : String)
      → lookup j (usage_of assignment id tasks u).task_ids
        ≡ (if has_task j (tasks_of assignment id tasks) then some true else lookup j u.task_ids)
  unfolding usage_of
  usage-tasks [] u j = refl
  usage-tasks (task ∷ rest) u j = elim (Option-cases (assignment task.task_id)) [
    | inl e ↦ ground (arith, e, usage-tasks rest u j)
    | inr (k, e) ↦ ground (
      arith,
      e,
      usage-tasks rest u j,
      usage-tasks rest (add_task task u) j,
      lookup-insert task.task_id j true u.task_ids,
    )
  ]

  usage_sums :
      (tasks : List (TaskDoc N))
      → (usage_of assignment id tasks no_usage).amounts ≡ sums (tasks_of assignment id tasks)
  usage_sums tasks = λ i. record {
    cpu = usage-sum (λ r. r.cpu) (λ a b. refl) tasks no_usage i;
    memory = usage-sum (λ r. r.memory) (λ a b. refl) tasks no_usage i;
    storage = usage-sum (λ r. r.storage) (λ a b. refl) tasks no_usage i;
    gpu = usage-sum (λ r. r.gpu) (λ a b. refl) tasks no_usage i;
  }

  pub fix-IsReconciled :
      (tasks : List (TaskDoc N)) (w : WorkerState N)
      → IsReconciled
          (tasks_of assignment id tasks)
          w
          (fix_worker (usage_of assignment id tasks no_usage) w)
  unfolding fix_worker lookup
  fix-IsReconciled tasks w =
      let u = usage_of assignment id tasks no_usage in
      let here = usage_sums tasks in
      elim (sync-cases w (sums (tasks_of assignment id tasks))) [
        | inl (e, agrees) ↦ inl (agrees, ground (arith, e, ap (out_of_sync w) here))
        | inr (e, differs) ↦
            let out : out_of_sync w u.amounts ≡ true = ap (out_of_sync w) here ∙ e in
            let anew : fix_worker u w ≡ settle u w = ground (arith, out) in
            inr (
              differs,
              record {
                allocated = ap (λ v. v.allocated) anew ∙ here;
                available = ap (λ v. v.available) anew ∙ ap (sub_resources w.info.total) here;
                running =
                    λ j. ap (λ v. lookup j v.running_tasks) anew ∙ usage-tasks tasks no_usage j;
                description = ap (λ v. v.info) anew;
                active = ap (λ v. v.is_active) anew;
                heartbeat = ap (λ v. v.last_heartbeat) anew;
              },
            )
      ]
