-- ===== src/Server/Assign/Race.antt =====
-- assignTaskToWorker of master_server.go with two callers: the scheduling pass and a direct
-- dispatch both pass the check before either enters its task in the books.
use agentic_cloud_cluster.Base.{String, ◌≡◌, true, some, arith, eq_iff}
use agentic_cloud_cluster.Float.{Float, lt, zero, ◌-◌}
use agentic_cloud_cluster.Dict.{lookup, lookup-modify}
use agentic_cloud_cluster.Proto.{Task}
use agentic_cloud_cluster.Server.State.{MasterServer, WorkerState, insufficient_cpu}
use agentic_cloud_cluster.Server.Assign.{
  stopped, cleared, check_worker, check_assignment, allocate, commit_assignment,
}

module _ {N S : Type 0} ⦃f : Float N⦄ where
  -- Two callers: both checks, then both entries.
  abbrev pub interleaved : MasterServer N S → Task N → Task N → String → MasterServer N S
  interleaved s task₁ task₂ id = commit_assignment (commit_assignment s task₁ id) task₂ id

  -- If two tasks pass the check of one worker, and the processors that the first leaves do not
  -- suffice for the second, then entering both leaves the worker with a negative amount of
  -- processors available. A check of the second after the entry of the first refuses it.
  pub interleaved-oversubscribes :
      (s : MasterServer N S) (task₁ task₂ : Task N) (id : String) (w : WorkerState N)
      → lookup id s.workers ≡ some w
      → check_assignment s task₁ id ≡ cleared w.info.worker_ip
      → check_assignment s task₂ id ≡ cleared w.info.worker_ip
      → lt (w.available.cpu - task₁.req.cpu) task₂.req.cpu ≡ true
      → (w' : WorkerState N) × (lookup id (interleaved s task₁ task₂ id).workers ≡ some w')
        × (lt w'.available.cpu zero ≡ true)
        × (check_assignment (commit_assignment s task₁ id) task₂ id
            ≡ stopped (insufficient_cpu (w.available.cpu - task₁.req.cpu) task₂.req.cpu))
  unfolding check_assignment check_worker commit_assignment
  interleaved-oversubscribes s task₁ task₂ id w there clear₁ clear₂ short = (
    allocate task₂ (allocate task₁ w),
    ground (
      arith,
      lookup-modify id id (allocate task₁) s.workers,
      lookup-modify id id (allocate task₂) (commit_assignment s task₁ id).workers,
      eq_iff id id,
    ),
    f.minus_neg (w.available.cpu - task₁.req.cpu) task₂.req.cpu short,
    ground (arith, lookup-modify id id (allocate task₁) s.workers, eq_iff id id),
  )
