-- ===== src/Worker/Executor/Run.antt =====
-- ExecuteTask of worker/internal/executor/executor.go. It gives up its lock while the container runs,
-- so it is split where CancelTask can come between: `launch` up to the entry of the container,
-- `finish_run` from the start on.
pub mod Results
use agentic_cloud_cluster.Base.{
  String, true, false, Option, none, some, List, [], ◌∷◌, ◌++◌, ◌==◌, if◌then◌else◌, ℤ, pos, ◌⊎◌,
  inl, inr,
}
use agentic_cloud_cluster.Float.{Float, ◌*◌, lt, literal, zero}
use agentic_cloud_cluster.Dict.{insert, delete}
use agentic_cloud_cluster.Proto.{Task}
use agentic_cloud_cluster.Logs.{start_task, stop_task}
use agentic_cloud_cluster.Paths.{◌⧺◌}
use agentic_cloud_cluster.Worker.Executor.{
  Reply, ok, failed, ContainerSpec, DockerCall, image_pull, container_create, container_start,
  wait_error, wait_no_error, exited, RunAnswers, TaskRun, TaskExecutor, collect_logs,
  collect_output_files, cleanup, is_none, is_zero,
}

abbrev pub failed_run : String → TaskRun
failed_run task_id = record {
  task_id = task_id;
  status = "failed";
  logs = "";
  exit_code = pos 0;
  run_error = false;
  result_location = "";
  output_files = [];
}

abbrev pub with_error : TaskRun → String → String → TaskRun
with_error run what error = record run { run_error = true; logs = what ⧺ error }

module _ {N : Type 0} ⦃f : Float N⦄ (to_int64 : N → ℤ) where
  -- createContainer: what it asks Docker for. `to_int64` is Go's conversion of a float64.
  unfoldable pub container_spec : Task N → String → ContainerSpec
  container_spec task output_dir = record {
    image = task.docker_image;
    tty = true;
    cmd = if task.command == "" then [] else "/bin/sh" ∷ "-c" ∷ task.command ∷ [];
    mount_source = output_dir;
    nano_cpus =
        if lt zero task.req.cpu
        then some (to_int64 (task.req.cpu * literal 1000000000 1))
        else none;
    memory_limit =
        if lt zero task.req.memory
        then some (to_int64 (task.req.memory * literal 1073741824 1))
        else none;
    nvidia_runtime = lt zero task.req.gpu;
    container_name = "task-" ⧺ task.task_id;
  }

  -- createContainer
  unfoldable pub create_container : Task N → String → RunAnswers → Reply String × List DockerCall
  unfolding container_spec
  create_container task output_dir a = elim a.mkdir_error [
    | some error ↦ (failed error, [])
    | none ↦ (a.created, container_create (container_spec task output_dir) ∷ [])
  ]

  -- How the first half of ExecuteTask ends: with a result, or with a container that is entered.
  unfoldable pub launch :
      TaskExecutor
      → Task N
      → String
      → RunAnswers
      → (TaskRun ⊎ String) × TaskExecutor × List DockerCall
  unfolding create_container
  launch e task output_dir a = elim a.pull_error [
    | some error ↦ (
      inl (with_error (failed_run task.task_id) "Error pulling image: " error),
      e,
      image_pull task.docker_image ∷ [],
    )
    | none ↦
        let (reply, calls) = create_container task output_dir a in
        elim reply [
          | failed error ↦ (
            inl (with_error (failed_run task.task_id) "Error creating container: " error),
            e,
            image_pull task.docker_image ∷ calls,
          )
          | ok id ↦ (
            inr id,
            record e { containers = insert task.task_id id e.containers },
            image_pull task.docker_image ∷ calls,
          )
        ]
  ]

-- The container's exit, on the result so far.
unfoldable pub with_exit : TaskRun → ℤ → TaskRun
with_exit run code =
    if is_zero code
    then record run { exit_code = code; status = "success" }
    else record run { exit_code = code; status = "failed"; run_error = true }

abbrev pub with_outputs : TaskRun → String → Option (List String) → TaskRun
with_outputs run output_dir none = run
with_outputs run output_dir (some files) = record run {
  result_location = output_dir;
  output_files = files;
}

-- What ExecuteTask makes of a container that has been started.
unfoldable pub result_of : TaskRun → String → RunAnswers → TaskRun
unfolding with_exit collect_logs collect_output_files
result_of run output_dir a =
    let logged = record run { logs = collect_logs a.log_lines } in
    let files = collect_output_files a.output_dir_exists a.entries in
    elim a.waited [
      | wait_error error ↦ record logged { run_error = true }
      | wait_no_error ↦ with_outputs logged output_dir files
      | exited code ↦ with_outputs (with_exit logged code) output_dir files
    ]

-- The rest of ExecuteTask, from the start of the container on. Whatever happens, the deferred
-- function stops the log stream, cleans the container up and takes it off the map.
unfoldable pub finish_run :
    TaskExecutor → String → String → String → RunAnswers → TaskRun × TaskExecutor × List DockerCall
unfolding result_of cleanup
finish_run e task_id container_id output_dir a =
    let streams =
      if is_none a.start_error then (start_task e.streams task_id container_id).1 else e.streams in
    (
      elim a.start_error [
        | some error ↦ with_error (failed_run task_id) "Error starting container: " error
        | none ↦ result_of (failed_run task_id) output_dir a
      ],
      record e { streams = stop_task streams task_id; containers = delete task_id e.containers },
      container_start container_id ∷ cleanup container_id,
    )

module _ {N : Type 0} ⦃f : Float N⦄ (to_int64 : N → ℤ) where
  -- ExecuteTask as a whole, where no cancellation comes between.
  unfoldable pub execute_task :
      TaskExecutor → Task N → String → RunAnswers → TaskRun × TaskExecutor × List DockerCall
  unfolding launch finish_run
  execute_task e task output_dir a =
      let (end, e₁, calls) = launch to_int64 e task output_dir a in
      elim end [
        | inl run ↦ (run, e₁, calls)
        | inr id ↦
            let (run, e₂, more) = finish_run e₁ task.task_id id output_dir a in
            (run, e₂, calls ++ more)
      ]
