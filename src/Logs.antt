-- ===== src/Logs.antt =====
-- worker/internal/logstream: log_broadcaster.go and log_manager.go. A channel is the lines buffered in
-- it. The goroutine that hands the recent lines to a new subscriber, and the reading of the
-- container's output, stand outside: `broadcast` is what each line read goes through.
pub mod Recent
use Prim.Native.Nat.{◌+◌}
use agentic_cloud_cluster.Base.{
  ℕ, String, Bool, true, false, Option, none, some, List, [], ◌∷◌, ◌++◌, if◌then◌else◌, length, leb,
  ltb, drop, ℤ,
}
use agentic_cloud_cluster.Dict.{Dict, lookup, insert, delete, keys, map_values}

pub record LogLine : Type 0 where
  pub content : String
  pub timestamp : ℤ

-- Subscriber: its channel, and whether its context is done
pub record Subscriber : Type 0 where
  pub channel : List LogLine
  pub is_done : Bool

pub record TaskLogBroadcaster : Type 0 where
  pub task_id : String
  pub container_id : String
  pub subscribers : Dict Subscriber
  pub recent_logs : List LogLine
  pub max_recent_logs : ℕ
  pub is_running : Bool

-- the buffer of a subscriber's channel
abbrev pub subscriber_capacity : ℕ
subscriber_capacity = 100

unfoldable pub new_task_log_broadcaster : String → String → TaskLogBroadcaster
new_task_log_broadcaster task_id container_id = record {
  task_id = task_id;
  container_id = container_id;
  subscribers = [];
  recent_logs = [];
  max_recent_logs = 1000;
  is_running = false;
}

-- Subscribe: the new channel is empty.
unfoldable pub subscribe : TaskLogBroadcaster → String → TaskLogBroadcaster
subscribe b id = record b {
  subscribers = insert id (record { channel = []; is_done = false }) b.subscribers;
}

-- Unsubscribe
unfoldable pub unsubscribe : TaskLogBroadcaster → String → TaskLogBroadcaster
unsubscribe b id = record b { subscribers = delete id b.subscribers }

-- the ring buffer: the oldest line goes when it is full
unfoldable pub remember : ℕ → List LogLine → LogLine → List LogLine
remember max recent line = (if leb max (length recent) then drop 1 recent else recent) ++ line ∷ []

-- A line that does not fit, or whose subscriber is gone, is skipped. Where the context is done and
-- there is room as well, Go may choose either; the model sends nothing.
unfoldable pub offer : LogLine → Subscriber → Subscriber
offer line sub =
    if sub.is_done
    then sub
    else if ltb (length sub.channel) subscriber_capacity
    then record sub { channel = sub.channel ++ line ∷ [] }
    else sub

-- broadcast
unfoldable pub broadcast : TaskLogBroadcaster → LogLine → TaskLogBroadcaster
unfolding remember offer
broadcast b line = record b {
  recent_logs = remember b.max_recent_logs b.recent_logs line;
  subscribers = map_values (λ _ sub. offer line sub) b.subscribers;
}

-- the loop of streamRawLogs over the lines that it reads
unfoldable pub broadcast_all : TaskLogBroadcaster → List LogLine → TaskLogBroadcaster
unfolding broadcast
broadcast_all b [] = b
broadcast_all b (line ∷ lines) = broadcast_all (broadcast b line) lines

-- Stop
unfoldable pub stop : TaskLogBroadcaster → TaskLogBroadcaster
stop b = record b { subscribers = [] }

-- LogStreamManager: StartTask, with whether it succeeds
unfoldable pub start_task :
    Dict TaskLogBroadcaster → String → String → Bool × Dict TaskLogBroadcaster
unfolding new_task_log_broadcaster
start_task m task_id container_id = elim (lookup task_id m) [
  | some _ ↦ (false, m)
  | none ↦ (true, insert task_id (new_task_log_broadcaster task_id container_id) m)
]

-- StopTask
unfoldable pub stop_task : Dict TaskLogBroadcaster → String → Dict TaskLogBroadcaster
stop_task m task_id = delete task_id m

-- GetTaskInfo
unfoldable pub get_task_info : Dict TaskLogBroadcaster → String → Bool × ℕ × Bool
get_task_info m task_id = elim (lookup task_id m) [
  | none ↦ (false, 0, false)
  | some b ↦ (true, length b.subscribers, b.is_running)
]

-- GetActiveTaskIDs
unfoldable pub get_active_task_ids : Dict TaskLogBroadcaster → List String
get_active_task_ids m = keys m
