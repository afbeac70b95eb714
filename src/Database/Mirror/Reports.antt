-- ===== src/Database/Mirror/Reports.antt =====
-- The report of a task, ReportTaskCompletion of master_server.go, against the collection of workers.
use agentic_cloud_cluster.Base.{
  String, ◌≡◌, refl, true, false, Option, none, some, ◌==◌, arith, eq_iff, Option-cases, Bool-cases,
  inl, inr,
}
use agentic_cloud_cluster.Float.{Float}
use agentic_cloud_cluster.Dict.{lookup, lookup-insert}
use agentic_cloud_cluster.Proto.{TaskResult}
use agentic_cloud_cluster.Database.Effects.{effects, has_insertion}
use agentic_cloud_cluster.Server.State.{MasterServer, WorkerState, Answers, TaskDoc, sub_resources}
use agentic_cloud_cluster.Server.Cancel.Order.{Accounts}
use agentic_cloud_cluster.Server.Complete.{
  report_task_completion, settle_worker, finish_report, keep_cancelled, record_status, leave,
  task_resources,
}
use agentic_cloud_cluster.Server.Complete.Accounts.{clamp_nonneg}
use agentic_cloud_cluster.Server.Assign.Guards.{IsNonneg}
use agentic_cloud_cluster.Database.Mirror.{Follows, Follows-refl, Follows-trans, still-Follows}

module _ {N S : Type 0} ⦃f : Float N⦄ where
  -- The report takes off no more than is allocated.
  abbrev pub TakesNoMore : MasterServer N S → Answers N → TaskResult → Type 0
  TakesNoMore s a r =
      (w : WorkerState N) (doc : TaskDoc N)
      → lookup r.worker_id s.workers ≡ some w
      → a.task ≡ some doc
      → IsNonneg (sub_resources w.allocated doc.req)

  finish_still :
      (s : MasterServer N S) (a : Answers N) (r : TaskResult)
      → (has_insertion (finish_report s a r).1 ≡ false)
        × ((j : String) (o : Option (Accounts N)) → effects (finish_report s a r).1 j o ≡ o)
  unfolding finish_report keep_cancelled record_status
  finish_still s a r = (ground arith, λ j o. ground arith)

  settle-Follows :
      (s : MasterServer N S) (a : Answers N) (r : TaskResult)
      → s.parts.worker_db ≡ true
      → TakesNoMore s a r
      → Follows s (settle_worker s a r).0 (settle_worker s a r).1
  unfolding settle_worker
  settle-Follows s a r has_db enough = elim (Option-cases (lookup r.worker_id s.workers)) [
    | inl gone ↦ rw (gone, settle_worker) (Follows-refl s)
    | inr (w, there) ↦
        let law = λ (j : String) (known : Option (TaskDoc N)).
          lookup-insert r.worker_id j (leave known r.task_id w) s.workers in
        elim (Option-cases (task_resources s a)) [
          | inl unknown ↦
              still-Follows s (settle_worker s a r).0 (settle_worker s a r).1
                (ground (arith, there, unknown)) (ground (arith, there))
                (λ j o. ground (arith, there, unknown))
                (λ j. ground (arith, there, unknown, law j none, eq_iff r.worker_id j))
          | inr (doc, known) ↦
              let answer : a.task ≡ some doc = ground (arith, known) in
              let exact =
                clamp_nonneg (sub_resources w.allocated doc.req) (enough w doc there answer) in
              record {
                quiet = ground (arith, there, known);
                parts = ground (arith, there);
                followed = λ j w' h. elim (Bool-cases (r.worker_id == j)) [
                  | inl same ↦ (
                    w,
                    ground (arith, same, there, eq_iff r.worker_id j),
                    ground (arith, same, there, known, h, has_db, exact, law j (some doc)),
                  )
                  | inr other ↦ (
                    w',
                    ground (arith, other, there, known, h, law j (some doc)),
                    ground (arith, other, there, known),
                  )
                ];
              }
        ]
  ]

  pub report-Follows :
      (s : MasterServer N S) (a : Answers N) (r : TaskResult)
      → s.parts.worker_db ≡ true
      → TakesNoMore s a r
      → Follows s (report_task_completion s a r).1 (report_task_completion s a r).2
  unfolding report_task_completion
  report-Follows s a r has_db enough =
      let s' = (settle_worker s a r).0 in
      let (quiet, still) = finish_still s a r in
      Follows-trans (settle_worker s a r).1 (finish_report s a r).1
        (settle-Follows s a r has_db enough)
        (still-Follows s' s' (finish_report s a r).1 quiet refl still (λ j. refl))
