-- ===== src/Server/Complete/Status.antt =====
-- The status and the result that ReportTaskCompletion of master_server.go writes.
use agentic_cloud_cluster.Base.{
  String, ◌≡◌, List, [], ◌∷◌, ◌==◌, ◌&&◌, not, arith, if◌then◌else◌, eq_iff, subst, sym, refl,
  Bool-cases, inl, inr,
}
use agentic_cloud_cluster.Float.{Float}
use agentic_cloud_cluster.Proto.{TaskResult}
use agentic_cloud_cluster.Server.State.{
  MasterServer, Answers, Call, update_task_status, create_result,
}
use agentic_cloud_cluster.Server.Complete.{final_status, is_cancelled, report_task_completion}

-- The writes of a task's status among the calls, and those of results (task and status).
abbrev pub status_writes : {N : Type 0} → List (Call N) → List (String × String)
status_writes [] = []
status_writes (update_task_status id status ∷ calls) = (id, status) ∷ status_writes calls
status_writes (_ ∷ calls) = status_writes calls

abbrev pub result_writes : {N : Type 0} → List (Call N) → List (String × String)
result_writes [] = []
result_writes (create_result id worker status logs ∷ calls) = (id, status) ∷ result_writes calls
result_writes (_ ∷ calls) = result_writes calls

-- the status that a task ends in, by the outcome that its worker reports
abbrev pub status_for : String → String
status_for reported =
    if reported == "success"
    then "completed"
    else if reported == "cancelled"
    then "cancelled"
    else "failed"

final_status_lem : (reported : String) → final_status reported ≡ status_for reported
unfolding final_status
final_status_lem reported = elim (Bool-cases (reported == "cancelled")) [
  | inl e ↦
      subst (λ r. final_status r ≡ status_for r) (sym ((eq_iff reported "cancelled").0 e)) refl
  | inr e ↦ ground (arith, e)
]

module _ {N S : Type 0} ⦃f : Float N⦄ (s : MasterServer N S) (a : Answers N) (r : TaskResult) where
  -- A report writes the status of its own task and no other, once, and not at all for a task that
  -- is known as cancelled: `success` becomes `completed`, `cancelled` stays, anything else is
  -- `failed`. Without a database of tasks nothing is written.
  pub report-status_writes : status_writes (report_task_completion s a r).2 ≡ (
      if s.parts.task_db && not (is_cancelled a.task_again)
      then (r.task_id, status_for r.status) ∷ []
      else [])
  unfolding report_task_completion
  report-status_writes = ground (arith, final_status_lem r.status)

  -- A result is written unless there is no database of results, or the cancelled task has one, or
  -- the status of a task that is not cancelled could not be written. The status that is stored
  -- is `cancelled` for a task known as cancelled, and otherwise as reported. Without a database of
  -- tasks no task is known as cancelled and no status has to be written: the result is written, as
  -- reported, if there is a database of results.
  pub report-result_writes : result_writes (report_task_completion s a r).2 ≡ (
      if not s.parts.result_db
      then []
      else if not s.parts.task_db
      then (r.task_id, r.status) ∷ []
      else if is_cancelled a.task_again
      then (if a.result_exists then [] else (r.task_id, "cancelled") ∷ [])
      else if not a.update_status_ok && not (r.status == "cancelled")
      then []
      else (r.task_id, r.status) ∷ [])
  unfolding report_task_completion
  report-result_writes = ground arith

  -- The worker is told to try again in one case only: the status of a task could not be written,
  -- and neither the database nor the report says that the task is cancelled.
  pub report-refused :
      (report_task_completion s a r).0.success
      ≡ not (
          s.parts.task_db
          && not (is_cancelled a.task_again)
          && not a.update_status_ok
          && not (r.status == "cancelled"))
  unfolding report_task_completion
  report-refused = ground arith
