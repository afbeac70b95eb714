-- ===== src/Examples/Restarts.antt =====
-- A master that starts from its collection of workers, what it shows, and a worker that comes back.
use Prim.Native.Nat.{◌+◌}
use agentic_cloud_cluster.Base.{
  none, ◌-ℤ◌, ◌≡◌, ◌≢◌, ◌⊎◌, String, refl, true, false, some, List, [], ◌∷◌, ℤ, pos, ◌==◌, eq_iff,
  length, map, arith,
}
use mathlib.Core.List.{Mem}
use agentic_cloud_cluster.Float.Fixed.{fixed}
use agentic_cloud_cluster.Dict.{keys, lookup, map_values}
use agentic_cloud_cluster.Proto.{WorkerInfo}
use agentic_cloud_cluster.Database.Workers.{WorkerRecord}
use agentic_cloud_cluster.Database.Loading.{
  ListsAll, IsLoaded, load_workers_from_db, load_workers-lookup,
}
use agentic_cloud_cluster.Scheduler.RoundRobin.{RoundRobin}
use agentic_cloud_cluster.Server.State.{MasterServer, WorkerState, TaskDoc}
use agentic_cloud_cluster.Server.Reconcile.Books.{tasks_of, IsReconciled}
use agentic_cloud_cluster.Server.Registry.{register_worker}
use agentic_cloud_cluster.Server.Snapshot.{get_cluster_snapshot}
use agentic_cloud_cluster.Server.Snapshot.Counts.{
  listed_as, listed_tasks, get_cluster_snapshot-listed,
}
use agentic_cloud_cluster.Server.Reconnect.{contact_of, monitor_tick}
use agentic_cloud_cluster.Server.Reconnect.Return.{monitor_tick-returns}
use agentic_cloud_cluster.Worker.Server.{
  WorkerServer, registering, registration, new_worker_server, master_register,
}
use agentic_cloud_cluster.Worker.Goroutines.{advance}
use agentic_cloud_cluster.Examples.{server, answers, small_worker, big_worker, doc_of, large_task}
use agentic_cloud_cluster.Examples.Books.{map_db, record_of, records}
use agentic_cloud_cluster.Examples.Workers.{whole, worker_answers}

abbrev documents : List (WorkerRecord ℤ)
documents = record_of "w1" small_worker ∷ record_of "w2" big_worker ∷ []

abbrev running_docs : List (TaskDoc ℤ)
running_docs = doc_of large_task "running" ∷ []

abbrev empty_server : MasterServer ℤ RoundRobin
empty_server = record server { workers = [] }

documents-ListsAll : ListsAll map_db records documents
unfolding lookup map_values
documents-ListsAll = ((refl, (refl, tt)), λ j h. ground arith)

load_workers-lookup_example :
    let there =
      lookup "w2" (load_workers_from_db empty_server answers (some documents)).1.workers in
    ((lookup "w2" records ≡ none) × (there ≡ none))
    ⊎ ((d : WorkerRecord ℤ) × (w : WorkerState ℤ) × (w' : WorkerState ℤ) × (lookup "w2" records
          ≡ some d)
        × IsLoaded d w
        × (there ≡ some w')
        × IsReconciled (tasks_of answers.assignment "w2" running_docs) w w')
load_workers-lookup_example =
    load_workers-lookup map_db empty_server answers records documents running_docs "w2" refl refl
      refl refl refl documents-ListsAll

get_cluster_snapshot-listed_example :
    let snapshot = get_cluster_snapshot server (pos 140000000000) in
    (map (λ w. w.worker_id) snapshot.workers ≡ keys server.workers)
    × (snapshot.active_workers ≡ listed_as "active" snapshot.workers)
    × (snapshot.inactive_workers ≡ listed_as "inactive" snapshot.workers)
    × (snapshot.active_workers + snapshot.inactive_workers ≡ snapshot.total_workers)
    × (snapshot.total_workers ≡ length server.workers)
    × (snapshot.total_tasks ≡ listed_tasks snapshot.workers)
get_cluster_snapshot-listed_example = get_cluster_snapshot-listed (pos 140000000000) server

abbrev returning : WorkerServer ℤ
returning = new_worker_server "w2" "/var/out"

given : (s : String) → (s == "") ≡ false → s ≢ ""
given s h e = let test : (s == "") ≡ true = (eq_iff s "").1 e in cc

monitor_tick-returns_example :
    let contact = contact_of server ("w2", "10.0.0.1:50052") in
    let called = master_register returning contact.master_address in
    let (left, ws', messages) = advance whole called registering worker_answers in
    Mem contact (monitor_tick server (pos 140)).1
    × Mem registering called.goroutines
    × ((info : WorkerInfo ℤ) × (messages ≡ registration info ∷ [])
        × (let (accepted, s', calls) = register_worker server answers info (pos 150) in
            (accepted ≡ true)
            × ((w' : WorkerState ℤ) × (lookup "w2" s'.workers ≡ some w')
                × (w'.is_active ≡ true)
                × (w'.last_heartbeat ≡ pos 150))))
unfolding lookup new_worker_server ◌-ℤ◌
monitor_tick-returns_example =
    monitor_tick-returns whole server server returning worker_answers answers "w2" big_worker
      big_worker (pos 140) (pos 150) refl refl (given "10.0.0.1:50052" refl)
      (given "10.0.0.9:50051" refl) refl refl refl
