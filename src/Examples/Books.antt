-- ===== src/Examples/Books.antt =====
-- A collection of workers that is a map, and a history of the server that it follows.
use agentic_cloud_cluster.Base.{◌-ℤ◌, String, ◌≡◌, refl, List, [], ◌∷◌, ℤ, pos, subst}
use agentic_cloud_cluster.Float.Fixed.{fixed}
use agentic_cloud_cluster.Dict.{
  Dict, map_values, lookup-map_values, lookup, insert, delete, modify, lookup-insert, lookup-delete,
  lookup-modify,
}
use agentic_cloud_cluster.Database.Workers.{WorkerRecord, WorkerDb, applied, perform_all}
use agentic_cloud_cluster.Database.Mirror.Reports.{TakesNoMore}
use agentic_cloud_cluster.Database.Mirror.Histories.{
  Mirrors, AllOrdinary, calls_of_all, run-Mirrors,
}
use agentic_cloud_cluster.Server.State.{WorkerState, sub_resources}
use agentic_cloud_cluster.Server.Assign.Guards.{IsNonneg}
use agentic_cloud_cluster.Server.Events.{Event, beats, reports, schedules, run}
use agentic_cloud_cluster.Examples.{
  server, answers, small_task, big_worker, doc_of, report_of, beat_of, round_robin,
}

abbrev pub map_db : WorkerDb ℤ (Dict (WorkerRecord ℤ))
map_db = record {
  find_one = λ c id. lookup id c;
  insert_one = λ c d. insert d.worker_id d c;
  update_one = λ c id u. modify id (applied u) c;
  delete_one = λ c id. delete id c;
  find-update = λ c id j u. lookup-modify id j (applied u) c;
  find-delete = λ c id j. lookup-delete id j c;
  find-insert = λ c d j absent. lookup-insert d.worker_id j d c;
}

abbrev pub record_of : String → WorkerState ℤ → WorkerRecord ℤ
record_of id w = record {
  worker_id = id;
  worker_ip = w.info.worker_ip;
  total = w.info.total;
  allocated = w.allocated;
  available = w.available;
  is_active = w.is_active;
  last_heartbeat = w.last_heartbeat;
}

abbrev pub records : Dict (WorkerRecord ℤ)
records = map_values record_of server.workers

abbrev busy_history : List (Event ℤ)
busy_history =
    reports answers (report_of "t1" "success")
    ∷ beats (beat_of "w1") (pos 130)
    ∷ schedules (λ i. answers)
    ∷ []

records-Mirrors : Mirrors map_db server records
records-Mirrors j w h = rw (lookup-map_values record_of j server.workers, h) refl

report-TakesNoMore : TakesNoMore server answers (report_of "t1" "success")
unfolding lookup ◌-ℤ◌
report-TakesNoMore w doc there known =
    let here : big_worker ≡ w = cc in
    let task : doc_of small_task "running" ≡ doc = cc in
    subst (λ v. IsNonneg (sub_resources v.allocated doc.req)) here
      (subst (λ d. IsNonneg (sub_resources big_worker.allocated d.req)) task
        (record { cpu = refl; memory = refl; storage = refl; gpu = refl }))

run-Mirrors_example :
    Mirrors map_db
      (run round_robin server busy_history)
      (perform_all map_db (pos 130) records (calls_of_all round_robin server busy_history))
unfolding AllOrdinary
run-Mirrors_example =
    run-Mirrors map_db round_robin (pos 130) server records busy_history refl records-Mirrors
      (report-TakesNoMore, (tt, (tt, tt)))
