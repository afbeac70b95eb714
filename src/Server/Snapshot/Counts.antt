-- ===== src/Server/Snapshot/Counts.antt =====
-- The counts of GetClusterSnapshot, in master/internal/server/master_server.go, against the workers
-- that it lists.
use Prim.Native.Nat.{◌+◌}
use agentic_cloud_cluster.Base.{
  ℕ, String, ◌≡◌, refl, ap, ◌∙◌, List, [], ◌∷◌, ◌++◌, ◌==◌, if◌then◌else◌, ℤ, length, map, arith,
  Bool-cases, inl, inr, length-append, length-map, append-nil, append_assoc, sym,
}
use agentic_cloud_cluster.Float.{Float}
use agentic_cloud_cluster.Dict.{Dict, keys}
use agentic_cloud_cluster.Server.State.{MasterServer, WorkerState}
use agentic_cloud_cluster.Server.Snapshot.{
  WorkerStateSnapshot, ClusterSnapshot, worker_snapshot, with_worker, with_workers,
  get_cluster_snapshot, new_snapshot,
}

module _ {V : Type 0} where
  length-keys : (m : Dict V) → length (keys m) ≡ length m
  length-keys [] = refl
  length-keys ((k, v) ∷ m) = omega (arith, length-keys m)

module _ {N : Type 0} where
  -- the workers that are listed with a status, and the tasks of all that are listed
  abbrev pub listed_as : String → List (WorkerStateSnapshot N) → ℕ
  listed_as status [] = 0
  listed_as status (w ∷ ws) = (if w.status == status then 1 else 0) + listed_as status ws

  abbrev pub listed_tasks : List (WorkerStateSnapshot N) → ℕ
  listed_tasks [] = 0
  listed_tasks (w ∷ ws) = w.task_count + listed_tasks ws

  listed_as-append :
      (status : String) (xs ys : List (WorkerStateSnapshot N))
      → listed_as status (xs ++ ys) ≡ listed_as status xs + listed_as status ys
  listed_as-append status [] ys = omega arith
  listed_as-append status (x ∷ xs) ys = omega (arith, listed_as-append status xs ys)

  listed_tasks-append :
      (xs ys : List (WorkerStateSnapshot N))
      → listed_tasks (xs ++ ys) ≡ listed_tasks xs + listed_tasks ys
  listed_tasks-append [] ys = omega arith
  listed_tasks-append (x ∷ xs) ys = omega (arith, listed_tasks-append xs ys)

  names-append :
      (xs ys : List (WorkerStateSnapshot N))
      → map (λ w. w.worker_id) (xs ++ ys) ≡ map (λ w. w.worker_id) xs ++ map (λ w. w.worker_id) ys
  names-append [] ys = refl
  names-append (x ∷ xs) ys = ap (λ names. x.worker_id ∷ names) (names-append xs ys)

  record IsCounted (snapshot : ClusterSnapshot N) : Type 0 where
    total : snapshot.total_workers ≡ length snapshot.workers
    active : snapshot.active_workers ≡ listed_as "active" snapshot.workers
    both :
        length snapshot.workers
        ≡ listed_as "active" snapshot.workers + listed_as "inactive" snapshot.workers
    tasks : snapshot.total_tasks ≡ listed_tasks snapshot.workers

module _ {N : Type 0} ⦃f : Float N⦄ (now : ℤ) where
  as_listed :
      (id : String) (w : WorkerState N)
      → let this : List (WorkerStateSnapshot N) = worker_snapshot now id w ∷ [] in
        (listed_as "active" this ≡ (if w.is_active then 1 else 0))
        × (listed_as "inactive" this ≡ (if w.is_active then 0 else 1))
  as_listed id w = elim (Bool-cases w.is_active) [
    | inl on ↦ rw on (refl, refl)
    | inr off ↦ rw off (refl, refl)
  ]

  with_worker-IsCounted :
      (id : String) (w : WorkerState N) (snapshot : ClusterSnapshot N)
      → IsCounted snapshot
      → IsCounted (with_worker now id w snapshot)
  unfolding with_worker
  with_worker-IsCounted id w snapshot h =
      let before = snapshot.workers in
      let this : List (WorkerStateSnapshot N) = worker_snapshot now id w ∷ [] in
      let size = length-append before this in
      let (on, off) = as_listed id w in
      let actives = listed_as-append "active" before this in
      let others = listed_as-append "inactive" before this in
      record {
        total = omega (arith, h.total, size);
        active = ground (arith, h.active, actives, on);
        both = ground (arith, h.both, size, actives, others, on, off);
        tasks =
            omega (arith, h.tasks, listed_tasks-append before this, length-keys w.running_tasks);
      }

  with_workers-IsCounted :
      (m : Dict (WorkerState N)) (snapshot : ClusterSnapshot N)
      → IsCounted snapshot
      → IsCounted (with_workers now m snapshot)
  unfolding with_workers
  with_workers-IsCounted [] snapshot h = h
  with_workers-IsCounted ((id, w) ∷ m) snapshot h =
      with_workers-IsCounted m (with_worker now id w snapshot)
        (with_worker-IsCounted id w snapshot h)

  with_workers-names :
      (m : Dict (WorkerState N)) (snapshot : ClusterSnapshot N)
      → map (λ w. w.worker_id) (with_workers now m snapshot).workers
        ≡ map (λ w. w.worker_id) snapshot.workers ++ keys m
  unfolding with_workers with_worker
  with_workers-names [] snapshot = sym (append-nil _)
  with_workers-names ((id, w) ∷ m) snapshot =
      let this : List (WorkerStateSnapshot N) = worker_snapshot now id w ∷ [] in
      with_workers-names m (with_worker now id w snapshot)
      ∙ ap (λ names. names ++ keys m) (names-append snapshot.workers this)
      ∙ append_assoc (map (λ w. w.worker_id) snapshot.workers) (id ∷ []) (keys m)

  -- A snapshot of the cluster lists the workers of the server, each by its name, and its counts are
  -- those of its list: the active workers are those listed as active, the inactive ones those listed
  -- as inactive, together they are all, and the number of tasks is the sum over the list.
  pub get_cluster_snapshot-listed :
      {S : Type 0} (s : MasterServer N S)
      → let snapshot = get_cluster_snapshot s now in
        (map (λ w. w.worker_id) snapshot.workers ≡ keys s.workers)
        × (snapshot.active_workers ≡ listed_as "active" snapshot.workers)
        × (snapshot.inactive_workers ≡ listed_as "inactive" snapshot.workers)
        × (snapshot.active_workers + snapshot.inactive_workers ≡ snapshot.total_workers)
        × (snapshot.total_workers ≡ length s.workers)
        × (snapshot.total_tasks ≡ listed_tasks snapshot.workers)
  unfolding get_cluster_snapshot
  get_cluster_snapshot-listed s =
      let counted =
        with_workers-IsCounted s.workers (new_snapshot now)
          (record { total = refl; active = refl; both = refl; tasks = refl }) in
      let names = with_workers-names s.workers (new_snapshot now) in
      let listed = (with_workers now s.workers (new_snapshot now)).workers in
      let size : length listed ≡ length s.workers =
        sym (length-map listed (λ w. w.worker_id)) ∙ ap length names ∙ length-keys s.workers in
      (
        names,
        counted.active,
        omega (arith, counted.total, counted.active, counted.both),
        omega (arith, counted.total, counted.active, counted.both),
        counted.total ∙ size,
        counted.tasks,
      )
