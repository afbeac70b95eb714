-- ===== src/Scheduler/Rts/Choice.antt =====
-- What SelectWorker of rts_scheduler.go returns: a feasible worker of least risk, or the choice of
-- the round-robin scheduler.
use agentic_cloud_cluster.Base.{
  String, ◌≡◌, ◌≢◌, refl, sym, ap, ◌∙◌, ◌⊎◌, inl, inr, Bool, true, false, Option, List, [], ◌∷◌,
  ◌==◌, ◌||◌, arith, subst, Bool-cases, eq_self, All, ℤ,
}
use agentic_cloud_cluster.Float.{Float, lt}
use agentic_cloud_cluster.Dict.{Dict}
use agentic_cloud_cluster.Proto.{Task}
use agentic_cloud_cluster.Scheduler.{WorkerView, is_worker_suitable}
use agentic_cloud_cluster.Scheduler.RoundRobin.Selection.{select_worker_suits}
use agentic_cloud_cluster.Scheduler.Telemetry.{LoadView}
use agentic_cloud_cluster.Scheduler.Rts.{
  Clock, TaskView, RtsScheduler, build_task_view, is_finite, risk_of, best_of, fall_back,
  candidates, select_worker_by_risk,
}
use agentic_cloud_cluster.Scheduler.Rts.Best.{
  IsKnown, IsCandidate, candidates-IsCandidate, best_from, best_least, NotAbove,
}

List-cases : {A : Type 0} (xs : List A) → (xs ≡ []) ⊎ ((x : A) × (rest : List A) × (xs ≡ x ∷ rest))
List-cases [] = inl refl
List-cases (x ∷ rest) = inr (x, rest, refl)

module _ {N : Type 0} ⦃f : Float N⦄ (clock : Clock N) where
  module _ (s : RtsScheduler N) (get_tau : String → N) (views : Option (List (LoadView N)))
      (now : ℤ) (task : Task N) (workers : Dict (WorkerView N)) where
    abbrev pub view_of_task : TaskView N
    view_of_task = build_task_view clock s get_tau task now

    abbrev pub risk_for_task : LoadView N → N
    risk_for_task w = risk_of clock s.params view_of_task w

    abbrev pub selection : String × RtsScheduler N
    selection = select_worker_by_risk clock s get_tau views now task workers

    -- a choice by risk
    pub record IsBest : Type 0 where
      pub worker : LoadView N
      pub candidate : IsCandidate task workers worker
      pub choice : selection ≡ (worker.id, s)
      pub finite :
          (f.is_inf (risk_for_task worker) ≡ false) × (f.is_nan (risk_for_task worker) ≡ false)
      pub least :
          All
            (λ w.
              is_finite (risk_for_task w) ≡ true
              → lt (risk_for_task w) (risk_for_task worker) ≡ false)
            (candidates task workers views)

    abbrev best : String × N
    best = best_of clock s.params view_of_task ("", clock.infinity) (candidates task workers views)

    abbrev unusable : Bool
    unusable = best.0 == "" || f.is_inf best.1 || f.is_nan best.1

    no_candidates : candidates task workers views ≡ [] → selection ≡ fall_back s task workers
    unfolding select_worker_by_risk
    no_candidates e = ground (arith, e)

    no_usable : unusable ≡ true → selection ≡ fall_back s task workers
    unfolding select_worker_by_risk
    no_usable e = ground (arith, e)

    by_risk :
        (w : LoadView N) (ws : List (LoadView N))
        → candidates task workers views ≡ w ∷ ws
        → unusable ≡ false
        → selection ≡ (best.0, s)
    unfolding select_worker_by_risk
    by_risk w ws e e' = ground (arith, e, e')

    -- SelectWorker either leaves the choice to the round-robin scheduler, or it returns a worker
    -- that is known to the server, active, feasible for the task, and of the least risk: its risk
    -- is finite, and no candidate has a finite risk below it.
    pub select_by_risk-cases : (selection ≡ fall_back s task workers) ⊎ IsBest
    unfolding NotAbove
    select_by_risk-cases = elim (List-cases (candidates task workers views)) [
      | inl e ↦ inl (no_candidates e)
      | inr (w, ws, e) ↦ elim (Bool-cases unusable) [
        | inl none_good ↦ inl (no_usable none_good)
        | inr usable ↦
            elim (best_from clock s.params view_of_task (IsCandidate task workers)
              ("", clock.infinity) (candidates task workers views)
              (candidates-IsCandidate task workers views)) [
                | inl stays ↦ absurd (cc (ap (λ b. b.0) stays, eq_self "", usable))
                | inr (v, hv, found, lower) ↦ inr (record {
                  worker = v;
                  candidate = hv;
                  choice = by_risk w ws e usable ∙ ap (λ b. (b.0, s)) found;
                  finite = (
                    ground (arith, usable, ap (λ b. b.1) found),
                    ground (arith, usable, ap (λ b. b.1) found),
                  );
                  least =
                      subst
                        (λ x.
                          All
                            (λ w'.
                              is_finite (risk_for_task w') ≡ true → lt (risk_for_task w') x ≡ false)
                            (candidates task workers views))
                        (ap (λ b. b.1) found)
                        (best_least clock s.params view_of_task ("", clock.infinity)
                          (candidates task workers views));
                })
              ]
      ]
    ]

    fall_back-IsKnown :
        (fall_back s task workers).0 ≢ "" → IsKnown workers (fall_back s task workers).0
    unfolding is_worker_suitable
    fall_back-IsKnown h =
        let (w, there, suitable) = select_worker_suits task workers s.rr_scheduler h in
        (w, there, ground (arith, suitable))

    -- Whichever way it was found, a name that SelectWorker returns, other than the empty one, is
    -- that of an active worker of the server's map.
    pub select_by_risk-IsKnown : selection.0 ≢ "" → IsKnown workers selection.0
    select_by_risk-IsKnown h = elim select_by_risk-cases [
      | inl e ↦
          subst (λ r. IsKnown workers r.0) (sym e) (fall_back-IsKnown (subst (λ r. r.0 ≢ "") e h))
      | inr b ↦ subst (λ r. IsKnown workers r.0) (sym b.choice) b.candidate.0
    ]
