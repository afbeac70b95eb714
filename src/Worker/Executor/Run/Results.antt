-- ===== src/Worker/Executor/Run/Results.antt =====
-- How a run of a task ends, ExecuteTask of worker/internal/executor/executor.go.
use agentic_cloud_cluster.Base.{
  String, ◌≡◌, ◌≢◌, ◌↔◌, negsuc, refl, ap, ◌∙◌, true, Option, none, some, List, ◌==◌, ℤ, pos, inl,
  inr, arith, Option-cases, Bool-cases, eq_iff,
}
use agentic_cloud_cluster.Float.{Float}
use agentic_cloud_cluster.Proto.{Task}
use agentic_cloud_cluster.Worker.Executor.{
  Reply-cases, Waited-cases, ok, exited, RunAnswers, TaskRun, TaskExecutor, is_zero, collect_logs,
  collect_output_files,
}
use agentic_cloud_cluster.Worker.Executor.Run.{
  failed_run, with_outputs, launch, create_container, finish_run, result_of, with_exit,
  execute_task,
}

-- Everything that a task needs went well, and its container exited with 0.
pub record Succeeds (a : RunAnswers) : Type 0 where
  pub pulled : a.pull_error ≡ none
  pub made : a.mkdir_error ≡ none
  pub created : (c : String) × (a.created ≡ ok c)
  pub started : a.start_error ≡ none
  pub exit : a.waited ≡ exited (pos 0)

failed_differs : ◌≢◌ {A = String} "failed" "success"
failed_differs h = let test : ("failed" == "success") ≡ true = (eq_iff "failed" "success").1 h in cc

outputs_status :
    (run : TaskRun) (dir : String) (files : Option (List String))
    → (with_outputs run dir files).status ≡ run.status
outputs_status run dir none = refl
outputs_status run dir (some files) = refl

is_zero_lem : (n : ℤ) → is_zero n ≡ true → n ≡ pos 0
is_zero_lem (pos n) h = ground arith
is_zero_lem (negsuc n) h = absurd (cc)

-- A result that began as a failure is a success by the container's exit alone.
result_success :
    (task_id dir : String) (a : RunAnswers)
    → (result_of (failed_run task_id) dir a).status ≡ "success"
    → a.waited ≡ exited (pos 0)
unfolding result_of with_exit
result_success task_id dir a h =
    let run = record (failed_run task_id) { logs = collect_logs a.log_lines } in
    let files = collect_output_files a.output_dir_exists a.entries in
    elim (Waited-cases a.waited) [
      | inl (error, e) ↦ absurd (failed_differs (ground (arith, e)))
      | inr (inl e) ↦ absurd (failed_differs (ground (arith, e, outputs_status run dir files)))
      | inr (inr (code, e)) ↦ elim (Bool-cases (is_zero code)) [
        | inl none_left ↦ e ∙ ap exited (is_zero_lem code none_left)
        | inr some_left ↦ absurd (
            failed_differs
              (ground (arith, e, some_left, outputs_status (with_exit run code) dir files)))
      ]
    ]

module _ {N : Type 0} ⦃f : Float N⦄ (to_int64 : N → ℤ) where
  -- A run ends in "success" if and only if the image was pulled, the directory made, the container
  -- created and started, and the container exited with 0.
  pub execute_task-Succeeds :
      (e : TaskExecutor) (task : Task N) (dir : String) (a : RunAnswers)
      → ((execute_task to_int64 e task dir a).0.status ≡ "success") ↔ Succeeds a
  unfolding execute_task launch create_container finish_run result_of with_exit
  execute_task-Succeeds e task dir a = (
    λ h. elim (Option-cases a.pull_error) [
      | inr (error, e₁) ↦ absurd (failed_differs (ground (arith, e₁)))
      | inl e₁ ↦ elim (Option-cases a.mkdir_error) [
        | inr (error, e₂) ↦ absurd (failed_differs (ground (arith, e₁, e₂)))
        | inl e₂ ↦ elim (Reply-cases a.created) [
          | inr (error, e₃) ↦ absurd (failed_differs (ground (arith, e₁, e₂, e₃)))
          | inl (c, e₃) ↦ elim (Option-cases a.start_error) [
            | inr (error, e₄) ↦ absurd (failed_differs (ground (arith, e₁, e₂, e₃, e₄)))
            | inl e₄ ↦ record {
              pulled = e₁;
              made = e₂;
              created = (c, e₃);
              started = e₄;
              exit = result_success task.task_id dir a (ground (arith, e₁, e₂, e₃, e₄));
            }
          ]
        ]
      ]
    ],
    λ s.
        let (c, there) = s.created in
        let run = record (failed_run task.task_id) { logs = collect_logs a.log_lines } in
        let files = collect_output_files a.output_dir_exists a.entries in
        ground (
          arith,
          s.pulled,
          s.made,
          there,
          s.started,
          s.exit,
          outputs_status (with_exit run (pos 0)) dir files,
        ),
  )
