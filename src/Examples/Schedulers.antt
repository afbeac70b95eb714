-- ===== src/Examples/Schedulers.antt =====
-- The two schedulers over the same two workers.
use agentic_cloud_cluster.Base.{
  ◌≡◌, ◌≢◌, ◌⊎◌, refl, true, Option, none, some, List, [], ◌∷◌, pos, ℤ, ◌-ℤ◌, arith,
}
use mathlib.Core.List.{Mem, mem-cons}
use mathlib.Core.Logic.Or
use agentic_cloud_cluster.Float.{literal}
use agentic_cloud_cluster.Float.Fixed.{fixed}
use agentic_cloud_cluster.Dict.{Dict, lookup, map_values}
use agentic_cloud_cluster.Scheduler.{WorkerView, is_worker_suitable, fits}
use agentic_cloud_cluster.Scheduler.Sort.{sort_ids, bubble, passes}
use agentic_cloud_cluster.Scheduler.RoundRobin.{
  RoundRobin, sorted_ids, select_worker, suitable_at, scan, finish,
}
use agentic_cloud_cluster.Scheduler.RoundRobin.Selection.{
  IsSuitable, CanTake, select_worker-IsSuitable,
}
use agentic_cloud_cluster.Scheduler.RoundRobin.Fairness.{
  Request, selections, select_worker_complete, selections-fair,
}
use agentic_cloud_cluster.Scheduler.Params.{get_default_ga_params}
use agentic_cloud_cluster.Scheduler.Telemetry.{LoadView}
use agentic_cloud_cluster.Scheduler.Rts.{
  Clock, RtsScheduler, build_task_view, fall_back, select_worker_by_risk, build_worker_views,
  filter_feasible,
}
use agentic_cloud_cluster.Scheduler.Rts.Best.{IsKnown}
use agentic_cloud_cluster.Scheduler.Rts.Choice.{
  IsBest, selection, select_by_risk-cases, select_by_risk-IsKnown,
}
use agentic_cloud_cluster.Scheduler.Rts.Untyped.{untyped-tau}
use agentic_cloud_cluster.Telemetry.Tau.{
  is_valid_task_type, get_tau, new_in_memory_tau_store_with_lambda,
}
use agentic_cloud_cluster.Telemetry.Tau.Types.{TauCall, updates, calls}
use agentic_cloud_cluster.Server.Queue.{worker_infos}
use agentic_cloud_cluster.Examples.{amounts, small_task, large_task, server}

-- the views that the server hands to its scheduler
abbrev views : Dict (WorkerView ℤ)
views =
    (
      "w1",
      record {
        worker_id = "w1";
        is_active = true;
        worker_ip = "10.0.0.1:50052";
        available = amounts (pos 1000) (pos 2000);
      },
    )
    ∷ (
      "w2",
      record {
        worker_id = "w2";
        is_active = true;
        worker_ip = "10.0.0.1:50052";
        available = amounts (pos 7000) (pos 15000);
      },
    )
    ∷ []

abbrev start : RoundRobin
start = record { next = 0 }

server-views : worker_infos server ≡ views
unfolding worker_infos map_values
server-views = refl

chooses_w2 : (select_worker large_task views start).0 ≡ "w2"
unfolding select_worker sorted_ids sort_ids passes bubble suitable_at scan finish lookup
    is_worker_suitable fits
chooses_w2 = refl

chooses_some : (select_worker large_task views start).0 ≢ ""
chooses_some e = absurd (cc (e, chooses_w2))

select_worker-IsSuitable_example :
    (w : WorkerView ℤ) × (lookup (select_worker large_task views start).0 views ≡ some w)
    × CanTake large_task w
select_worker-IsSuitable_example = select_worker-IsSuitable large_task views start chooses_some

w2-IsSuitable : IsSuitable large_task views "w2"
unfolding lookup is_worker_suitable fits
w2-IsSuitable = (_, refl, refl)

select_worker_complete_example : (select_worker large_task views start).0 ≢ ""
unfolding lookup
select_worker_complete_example =
    select_worker_complete large_task views start "w2" refl w2-IsSuitable

abbrev requests : List (Request ℤ)
requests = (large_task, views) ∷ (small_task, views) ∷ []

selections-fair_example : Mem "w2" (selections requests start)
unfolding lookup is_worker_suitable fits sorted_ids sort_ids passes bubble
selections-fair_example =
    selections-fair ("w1" ∷ "w2" ∷ []) "w2" requests start
      (mem-cons.1 (Or.inr (mem-cons.1 (Or.inl refl)))) (omega arith)
      ((refl, refl, (_, refl, refl)), ((refl, refl, (_, refl, refl)), tt))

-- Times are in nanoseconds, floats in thousandths.
abbrev clock : Clock ℤ
clock = record {
  duration = λ x. x;
  seconds = λ d. d;
  between = λ a b. a -ℤ b;
  infinity = pos 1000000000000;
}

abbrev rts : RtsScheduler ℤ
rts = record { rr_scheduler = start; params = get_default_ga_params; sla_multiplier = pos 2000 }

abbrev loads : Option (List (LoadView ℤ))
loads = some (
    record { id = "w1"; avail = amounts (pos 1000) (pos 2000); load = pos 100 }
    ∷ record { id = "w2"; avail = amounts (pos 7000) (pos 15000); load = pos 200 }
    ∷ [])

select_by_risk-cases_example :
    (selection clock rts (λ _. pos 10000) loads (pos 0) large_task views
      ≡ fall_back rts large_task views)
    ⊎ IsBest clock rts (λ _. pos 10000) loads (pos 0) large_task views
select_by_risk-cases_example =
    select_by_risk-cases clock rts (λ _. pos 10000) loads (pos 0) large_task views

falls_back :
    (selection clock rts (λ _. pos 10000) none (pos 0) large_task views).0
    ≡ (select_worker large_task views start).0
unfolding select_worker_by_risk build_worker_views filter_feasible
falls_back = refl

falls_back-named : (selection clock rts (λ _. pos 10000) none (pos 0) large_task views).0 ≢ ""
falls_back-named e = absurd (cc (e, falls_back, chooses_w2))

select_by_risk-IsKnown_example :
    IsKnown views (selection clock rts (λ _. pos 10000) none (pos 0) large_task views).0
select_by_risk-IsKnown_example =
    select_by_risk-IsKnown clock rts (λ _. pos 10000) none (pos 0) large_task views falls_back-named

abbrev learnt : List (TauCall ℤ)
learnt = updates "cpu-light" (pos 7000) ∷ []

untyped-tau_example :
    (build_task_view clock rts
      (get_tau (calls (new_in_memory_tau_store_with_lambda (pos 200)) learnt))
      large_task
      (pos 0)).tau
    ≡ literal 10 1
unfolding is_valid_task_type
untyped-tau_example = untyped-tau clock rts (pos 200) learnt large_task (pos 0) refl refl
