-- ===== src/Examples/TelemetryRuns.antt =====
-- The estimates, the telemetry manager and a log stream over short histories.
use Prim.Native.Nat.{◌-◌}
use agentic_cloud_cluster.Base.{drop, length, ◌≡◌, refl, true, some, none, List, [], ◌∷◌, pos, ℤ}
use mathlib.Core.Option
use agentic_cloud_cluster.Float.Fixed.{fixed}
use agentic_cloud_cluster.Dict.{lookup}
use agentic_cloud_cluster.Telemetry.Tau.Types.{TauCall, updates, sets, resets}
use agentic_cloud_cluster.Telemetry.Manager.{
  TelemetryManager, get_worker_telemetry, unregistered, drained, react_all,
}
use agentic_cloud_cluster.Telemetry.Manager.Closed.{unregistered_returns}
use agentic_cloud_cluster.Logs.{LogLine, new_task_log_broadcaster, broadcast_all}
use agentic_cloud_cluster.Logs.Recent.{recent_logs-broadcast_all}
use agentic_cloud_cluster.Examples.{beat_of}

abbrev some_calls : List (TauCall ℤ)
some_calls = updates "cpu-light" (pos 7000) ∷ sets "unknown" (pos 1000) ∷ resets ∷ []

abbrev waiting_manager : TelemetryManager ℤ
waiting_manager = record {
  worker_data = [];
  worker_channels = ("w1", beat_of "w1" ∷ []) ∷ [];
  closing = [];
  inactivity_timeout = pos 30;
}

abbrev gone : TelemetryManager ℤ
gone = react_all waiting_manager (unregistered "w1" ∷ drained (pos 120) ∷ [])

unregistered_returns_example :
    (Option.map (λ d. d.is_active) (get_worker_telemetry gone "w1") ≡ some true)
    × (lookup "w1" gone.worker_channels ≡ none)
unfolding lookup
unregistered_returns_example = unregistered_returns waiting_manager (beat_of "w1") [] (pos 120) refl

abbrev some_lines : List LogLine
some_lines =
    record { content = "started"; timestamp = pos 1 }
    ∷ record { content = "done"; timestamp = pos 2 }
    ∷ []

recent_logs-broadcast_all_example :
    (broadcast_all (new_task_log_broadcaster "t1" "c1") some_lines).recent_logs
    ≡ drop (length some_lines - 1000) some_lines
recent_logs-broadcast_all_example = recent_logs-broadcast_all "t1" "c1" some_lines
