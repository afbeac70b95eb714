-- ===== src/Http/Tasks.antt =====
-- HandleCreateTask of master/internal/http/task_handler.go: the check of a submitted task, and its way
-- into the queue. Decoding the body, strconv.ParseFloat and the clock are outside.
pub mod Created
use agentic_cloud_cluster.Base.{
  String, Bool, true, false, Option, none, some, List, [], ◌∷◌, ◌==◌, ◌&&◌, ◌||◌, not,
  if◌then◌else◌, ℤ,
}
use agentic_cloud_cluster.Float.{Float, lt, le, literal, zero}
use agentic_cloud_cluster.Proto.{Resources, Task}
use agentic_cloud_cluster.Paths.{◌⧺◌}
use agentic_cloud_cluster.Server.State.{MasterServer, Call}
use agentic_cloud_cluster.Server.Queue.{submit_task}

-- TaskRequest, with its numbers as they are written
pub record TaskRequest : Type 0 where
  pub docker_image : String
  pub command : String
  pub cpu_required : String
  pub memory_required : String
  pub gpu_required : String
  pub storage_required : String
  pub user_id : String
  pub tag : String
  pub k_value : String

pub data CreateReply : Type 0 where
  method_not_allowed bad_body missing_image invalid_resources invalid_k_value : CreateReply
  -- the answer 201, with the name of the task
  created : String → CreateReply

module _ {N : Type 0} ⦃f : Float N⦄ (parse : String → Option N) where
  -- parseFloat64
  unfoldable pub parse_float64 : String → N → N
  parse_float64 num default =
      if num == "" then default else elim (parse num) [ none ↦ default | some x ↦ x ]

  abbrev pub k_value_of : TaskRequest → N
  k_value_of r = if r.k_value == "" then literal 2 1 else parse_float64 r.k_value zero

  abbrev pub task_of : TaskRequest → String → ℤ → Task N
  task_of r nanos now = record {
    task_id = "task-" ⧺ nanos;
    docker_image = r.docker_image;
    command = r.command;
    req = record {
      cpu = parse_float64 r.cpu_required zero;
      memory = parse_float64 r.memory_required zero;
      storage = parse_float64 r.storage_required (literal 1024 1);
      gpu = parse_float64 r.gpu_required zero;
    };
    target_worker_id = "";
    user_id = r.user_id;
    sla_multiplier = k_value_of r;
    task_type = r.tag;
    task_name = r.docker_image;
    submitted_at = now;
  }

  -- The fields that are refused, if any.
  unfoldable pub check_request : TaskRequest → Option CreateReply
  unfolding parse_float64
  check_request r =
      let cpu = parse_float64 r.cpu_required zero in
      let memory = parse_float64 r.memory_required zero in
      let k = parse_float64 r.k_value zero in
      if r.docker_image == ""
      then some missing_image
      else if le cpu zero || le memory zero
      then some invalid_resources
      else if not (r.k_value == "") && (lt k (literal 3 2) || lt (literal 5 2) k)
      then some invalid_k_value
      else none

  -- HandleCreateTask: the reply, the server, its calls, and what UpdateTaskMetadata is asked to store.
  unfoldable pub handle_create_task :
      {S : Type 0}
      → MasterServer N S
      → String
      → Option TaskRequest
      → String
      → ℤ
      → CreateReply × MasterServer N S × List (Call N) × Option (String × String × N)
  unfolding check_request submit_task
  handle_create_task s method body nanos now =
      if method == "POST"
      then elim body [
        | none ↦ (bad_body, s, [], none)
        | some r ↦ elim (check_request r) [
          | some refusal ↦ (refusal, s, [], none)
          | none ↦
              let task = task_of r nanos now in
              let (_, s', calls) = submit_task s task now in
              (
                created task.task_id,
                s',
                calls,
                if s.parts.task_db && (not (r.tag == "") || not (r.k_value == ""))
                    then some (task.task_id, r.tag, k_value_of r)
                    else none,
              )
        ]
      ]
      else (method_not_allowed, s, [], none)
