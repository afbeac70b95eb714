-- ===== src/Worker/Executor.antt =====
-- worker/internal/executor/executor.go. Docker, the registry of images and the file system are outside:
-- a method is given what they answer (`RunAnswers`), and hands back the calls it makes of Docker, in
-- order. The container's output is taken to have one byte for a character.
pub mod Run
use Prim.Native.Nat.{◌+◌}
use Prim.Native.String
use mathlib.Core.Option
use agentic_cloud_cluster.Base.{
  ℕ, ◌≡◌, ◌⊎◌, inl, inr, refl, String, Bool, true, false, Option, none, some, List, [], ◌∷◌, ◌++◌,
  ◌==◌, ◌&&◌, not, if◌then◌else◌, ltb, eqb, ℤ, pos, negsuc,
}
use agentic_cloud_cluster.Float.{Float, ◌*◌, lt, literal, zero}
use agentic_cloud_cluster.Dict.{Dict, lookup, insert, delete, keys}
use agentic_cloud_cluster.Proto.{Task}
use agentic_cloud_cluster.Logs.{TaskLogBroadcaster, start_task, stop_task}
use agentic_cloud_cluster.Paths.{◌⧺◌, join_path}

-- a value, or the text of an error
pub data Reply {ℓ} (A : Type ℓ) : Type ℓ where
  ok : A → Reply A
  failed : String → Reply A

pub Reply-cases {ℓ} :
    {A : Type ℓ} (r : Reply A) → ((a : A) × (r ≡ ok a)) ⊎ ((error : String) × (r ≡ failed error))
Reply-cases (ok a) = inl (a, refl)
Reply-cases (failed error) = inr (error, refl)

-- container.Config and container.HostConfig, as far as createContainer fills them in; `none` where
-- a limit is left unset
pub record ContainerSpec : Type 0 where
  pub image : String
  pub tty : Bool
  pub cmd : List String
  pub mount_source : String
  pub nano_cpus : Option ℤ
  pub memory_limit : Option ℤ
  pub nvidia_runtime : Bool
  pub container_name : String

pub data DockerCall : Type 0 where
  image_pull : String → DockerCall
  container_create : ContainerSpec → DockerCall
  container_start : String → DockerCall
  container_stop : String → ℕ → DockerCall
  container_kill : String → DockerCall
  container_remove : String → DockerCall

-- which of the two channels of ContainerWait delivers, and what
pub data Waited : Type 0 where
  wait_error : String → Waited
  wait_no_error : Waited
  exited : ℤ → Waited

pub Waited-cases :
    (w : Waited)
    → ((error : String) × (w ≡ wait_error error))
      ⊎ ((w ≡ wait_no_error) ⊎ ((code : ℤ) × (w ≡ exited code)))
Waited-cases (wait_error error) = inl (error, refl)
Waited-cases wait_no_error = inr (inl refl)
Waited-cases (exited code) = inr (inr (code, refl))

-- an entry that filepath.Walk visits: its path relative to the directory, or an error
pub data WalkEntry : Type 0 where
  directory file : String → WalkEntry
  unreadable : String → WalkEntry

-- what the outside answers to one run of ExecuteTask
pub record RunAnswers : Type 0 where
  pub pull_error : Option String
  pub mkdir_error : Option String
  pub created : Reply String
  pub start_error : Option String
  -- the lines of the container's output: what was read of them, and whether they could be had
  pub log_lines : Option (List String)
  pub waited : Waited
  -- os.Stat, and the entries of the walk
  pub output_dir_exists : Bool
  pub entries : List WalkEntry

-- TaskResult. `run_error` says that `Error` is not nil.
pub record TaskRun : Type 0 where
  pub task_id : String
  pub status : String
  pub logs : String
  pub exit_code : ℤ
  pub run_error : Bool
  pub result_location : String
  pub output_files : List String

-- TaskExecutor
pub record TaskExecutor : Type 0 where
  pub streams : Dict TaskLogBroadcaster
  pub containers : Dict String

abbrev pub new_task_executor : TaskExecutor
new_task_executor = record { streams = []; containers = [] }

-- getBaseOutputDir, by the value of the environment's variable
unfoldable pub get_base_output_dir : String → String
get_base_output_dir variable = if variable == "" then "/var/cloudai/outputs" else variable

-- collectLogs: of each line that is longer than 8 bytes the first 8 are dropped.
unfoldable pub strip_header : String → String
strip_header line = if ltb 8 (String.len line) then String.slice line 8 (String.len line) else line

unfoldable pub text_of_lines : List String → String
unfolding strip_header
text_of_lines [] = ""
text_of_lines (line ∷ lines) = strip_header line ⧺ "\n" ⧺ text_of_lines lines

unfoldable pub collect_logs : Option (List String) → String
unfolding text_of_lines
collect_logs none = ""
collect_logs (some lines) = text_of_lines lines

-- The walk of collectOutputFiles: it stops at the first error.
unfoldable pub walk_files : List WalkEntry → Option (List String)
walk_files [] = some []
walk_files (entry ∷ rest) =
    let later = walk_files rest in
    elim entry [
      | directory _ ↦ later
      | file path ↦ Option.map (λ paths. path ∷ paths) later
      | unreadable _ ↦ none
    ]

-- collectOutputFiles; `none` is an error.
unfoldable pub collect_output_files : Bool → List WalkEntry → Option (List String)
unfolding walk_files
collect_output_files dir_exists entries = if dir_exists then walk_files entries else some []

abbrev pub is_none {ℓ} : {A : Type ℓ} → Option A → Bool
is_none none = true
is_none (some a) = false

abbrev pub is_zero : ℤ → Bool
is_zero (pos n) = eqb n 0
is_zero (negsuc n) = false

-- GetContainerID and GetRunningTasks
unfoldable pub get_container_id : TaskExecutor → String → Option String
get_container_id e task_id = lookup task_id e.containers

unfoldable pub get_running_tasks : TaskExecutor → List String
get_running_tasks e = keys e.containers

-- cleanup: it goes on past errors.
unfoldable pub cleanup : String → List DockerCall
cleanup container_id = container_stop container_id 5 ∷ container_remove container_id ∷ []

-- what Docker answers to CancelTask; the error of the removal is only logged
pub record CancelAnswers : Type 0 where
  pub stop_ok : Bool
  pub kill_ok : Bool

pub data CancelError : Type 0 where
  not_running kill_failed : CancelError

-- CancelTask; `none` is a nil error.
unfoldable pub cancel_container :
    TaskExecutor → String → CancelAnswers → Option CancelError × TaskExecutor × List DockerCall
cancel_container e task_id a = elim (lookup task_id e.containers) [
  | none ↦ (some not_running, e, [])
  | some id ↦
      let stop = container_stop id 10 in
      let done = record e { containers = delete task_id e.containers } in
      if a.stop_ok
      then (none, done, stop ∷ container_remove id ∷ [])
      else if a.kill_ok
      then (none, done, stop ∷ container_kill id ∷ container_remove id ∷ [])
      else (some kill_failed, e, stop ∷ container_kill id ∷ [])
]

-- ContainerInspect's answer
pub record Inspected : Type 0 where
  pub is_running : Bool
  pub status : String
  pub exit_code : ℤ

-- GetContainerStatus; `none` is an error.
unfoldable pub get_container_status : Option Inspected → Option String
get_container_status none = none
get_container_status (some i) = some (
    if i.is_running
    then "running"
    else if i.status == "exited"
    then (if is_zero i.exit_code then "completed" else "failed")
    else i.status)
