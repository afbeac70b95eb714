-- ===== src/Examples/Requests.antt =====
-- A task that is sent to the HTTP interface of a running master.
use agentic_cloud_cluster.Base.{◌==◌, if◌then◌else◌, String, Option, none, some, ℤ, pos, ◌⊎◌}
use agentic_cloud_cluster.Float.Fixed.{fixed}
use agentic_cloud_cluster.Http.Tasks.{TaskRequest, handle_create_task}
use agentic_cloud_cluster.Http.Tasks.Created.{IsAccepted, IsRefused, handle_create_task-cases}
use agentic_cloud_cluster.Examples.{server}

abbrev request : TaskRequest
request = record {
  docker_image = "alpine";
  command = "true";
  cpu_required = "2";
  memory_required = "4";
  gpu_required = "";
  storage_required = "";
  user_id = "u";
  tag = "cpu-light";
  k_value = "";
}

abbrev parse_thousandths : String → Option ℤ
parse_thousandths s =
    if s == "2" then some (pos 2000) else if s == "4" then some (pos 4000) else none

handle_create_task-cases_example :
    let (reply, s', calls, metadata) =
      handle_create_task parse_thousandths server "POST"
        (some request)
        "1735689600000000000"
        (pos 1735689600) in
    IsAccepted server s' reply ⊎ IsRefused server s' reply calls
handle_create_task-cases_example =
    handle_create_task-cases parse_thousandths server "POST" (some request) "1735689600000000000"
      (pos 1735689600)
