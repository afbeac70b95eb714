-- ===== src/Scheduler/Rts/Best.antt =====
-- The loop of SelectWorker in rts_scheduler.go, and the workers that it goes over.
use agentic_cloud_cluster.Base.{
  String, ◌≡◌, refl, sym, ◌⊎◌, inl, inr, true, false, Option, none, some, List, [], ◌∷◌, ◌&&◌, not,
  arith, subst, if◌then◌else◌, Bool-cases, Option-cases, All,
}
use agentic_cloud_cluster.Float.{Float, lt}
use agentic_cloud_cluster.Dict.{Dict, lookup}
use agentic_cloud_cluster.Proto.{Resources, Task}
use agentic_cloud_cluster.Scheduler.{WorkerView}
use agentic_cloud_cluster.Scheduler.Params.{GaParams}
use agentic_cloud_cluster.Scheduler.Telemetry.{LoadView}
use agentic_cloud_cluster.Scheduler.Rts.{
  Clock, TaskView, is_feasible, filter_feasible, known_views, build_worker_views, is_finite,
  risk_of, take_better, best_of, candidates,
}

module _ {N : Type 0} ⦃f : Float N⦄ where
  -- active and known to the server under this name
  abbrev pub IsKnown : Dict (WorkerView N) → String → Type 0
  IsKnown workers id =
      (info : WorkerView N) × (lookup id workers ≡ some info) × (info.is_active ≡ true)

  abbrev pub IsCandidate : Task N → Dict (WorkerView N) → LoadView N → Type 0
  IsCandidate task workers w = IsKnown workers w.id × (is_feasible task.req w ≡ true)

  not_below : (x y z : N) → lt z y ≡ true → lt x y ≡ false → lt x z ≡ false
  not_below x y z below h = elim (Bool-cases (lt x z)) [
    | inl under ↦ absurd (cc (f.less_trans x z y under below, h))
    | inr over ↦ over
  ]

  known_views-cons :
      (workers : Dict (WorkerView N)) (view : LoadView N) (rest : List (LoadView N))
      → (known_views workers (view ∷ rest) ≡ known_views workers rest)
        ⊎ (IsKnown workers view.id
            × (known_views workers (view ∷ rest) ≡ view ∷ known_views workers rest))
  unfolding known_views
  known_views-cons workers view rest = elim (Option-cases (lookup view.id workers)) [
    | inl e ↦ inl (ground (arith, e))
    | inr (info, e) ↦ elim (Bool-cases info.is_active) [
      | inl on ↦ inr ((info, e, on), ground (arith, e, on))
      | inr off ↦ inl (ground (arith, e, off))
    ]
  ]

  known_views-IsKnown :
      (workers : Dict (WorkerView N)) (views : List (LoadView N))
      → All (λ w. IsKnown workers w.id) (known_views workers views)
  unfolding known_views
  known_views-IsKnown workers [] = tt
  known_views-IsKnown workers (view ∷ rest) = elim (known_views-cons workers view rest) [
    | inl e ↦ subst (All (λ w. IsKnown workers w.id)) (sym e) (known_views-IsKnown workers rest)
    | inr (h, e) ↦
        subst (All (λ w. IsKnown workers w.id)) (sym e) (h, known_views-IsKnown workers rest)
  ]

  build-IsKnown :
      (workers : Dict (WorkerView N)) (views : Option (List (LoadView N)))
      → All (λ w. IsKnown workers w.id) (build_worker_views workers views)
  unfolding build_worker_views
  build-IsKnown workers none = tt
  build-IsKnown workers (some views) = known_views-IsKnown workers views

  feasible-All :
      (P : LoadView N → Type 0) (req : Resources N) (ws : List (LoadView N))
      → All P ws
      → All (λ w. P w × (is_feasible req w ≡ true)) (filter_feasible req ws)
  unfolding filter_feasible
  feasible-All P req [] h = tt
  feasible-All P req (w ∷ ws) (h, hs) =
      let Q = All (λ v. P v × (is_feasible req v ≡ true)) in
      elim (Bool-cases (is_feasible req w)) [
        | inl e ↦
            subst (λ b. Q (if b then w ∷ filter_feasible req ws else filter_feasible req ws))
              (sym e) ((h, e), feasible-All P req ws hs)
        | inr e ↦
            subst (λ b. Q (if b then w ∷ filter_feasible req ws else filter_feasible req ws))
              (sym e) (feasible-All P req ws hs)
      ]

  pub candidates-IsCandidate :
      (task : Task N) (workers : Dict (WorkerView N)) (views : Option (List (LoadView N)))
      → All (IsCandidate task workers) (candidates task workers views)
  candidates-IsCandidate task workers views =
      feasible-All (λ w. IsKnown workers w.id) task.req (build_worker_views workers views)
        (build-IsKnown workers views)

  module _ (clock : Clock N) where
    module _ (params : GaParams N) (t : TaskView N) where
      abbrev pub risk : LoadView N → N
      risk w = risk_of clock params t w

      better_cases :
          (best : String × N) (w : LoadView N)
          → ((take_better clock params t best w ≡ best)
              × (is_finite (risk w) ≡ true → lt (risk w) best.1 ≡ false))
            ⊎ ((take_better clock params t best w ≡ (w.id, risk w)) × (lt (risk w) best.1 ≡ true))
      unfolding take_better
      better_cases best w =
          elim (Bool-cases
            (lt (risk w) best.1 && not (f.is_inf (risk w)) && not (f.is_nan (risk w)))) [
              | inl e ↦ inr (ground (arith, e), ground (arith, e))
              | inr e ↦ inl (ground (arith, e), λ h. ground (arith, e, h))
            ]

      -- The loop's result is where it started, or a worker of lower risk.
      pub best_from :
          (P : LoadView N → Type 0) (best : String × N) (ws : List (LoadView N))
          → All P ws
          → (best_of clock params t best ws ≡ best)
            ⊎ ((w : LoadView N) × P w
                × (best_of clock params t best ws ≡ (w.id, risk w))
                × (lt (risk w) best.1 ≡ true))
      unfolding best_of
      best_from P best [] h = inl refl
      best_from P best (w ∷ ws) (h, hs) = elim (better_cases best w) [
        | inl (e, above) ↦ rw e (best_from P best ws hs)
        | inr (e, below) ↦ elim (best_from P (w.id, risk w) ws hs) [
          | inl stays ↦ inr (w, h, rw e stays, below)
          | inr (v, hv, found, lower) ↦
              inr (v, hv, rw e found, f.less_trans (risk v) (risk w) best.1 lower below)
        ]
      ]

      -- so the result's risk is not above that of the start
      best_below :
          (x : N) (best : String × N) (ws : List (LoadView N))
          → lt x best.1 ≡ false
          → lt x (best_of clock params t best ws).1 ≡ false
      unfolding best_of
      best_below x best [] h = h
      best_below x best (w ∷ ws) h = elim (better_cases best w) [
        | inl (e, above) ↦
            subst (λ b. lt x (best_of clock params t b ws).1 ≡ false) (sym e)
              (best_below x best ws h)
        | inr (e, below) ↦
            subst (λ b. lt x (best_of clock params t b ws).1 ≡ false) (sym e)
              (best_below x (w.id, risk w) ws (not_below x best.1 (risk w) below h))
      ]

      -- No worker that the loop has seen has a finite risk below the result's.
      unfoldable pub NotAbove : String × N → LoadView N → Type 0
      NotAbove result w = is_finite (risk w) ≡ true → lt (risk w) result.1 ≡ false

      pub best_least :
          (best : String × N) (ws : List (LoadView N))
          → All (NotAbove (best_of clock params t best ws)) ws
      unfolding best_of NotAbove
      best_least best [] = tt
      best_least best (w ∷ ws) =
          let Least : String × N → Type 0 = λ b.
            NotAbove (best_of clock params t b ws) w
            × All (NotAbove (best_of clock params t b ws)) ws in
          elim (better_cases best w) [
            | inl (e, above) ↦
                subst Least (sym e)
                  (λ fin. best_below (risk w) best ws (above fin), best_least best ws)
            | inr (e, below) ↦ subst Least (sym e) (
              λ fin. best_below (risk w) (w.id, risk w) ws (f.less_irrefl (risk w)),
              best_least (w.id, risk w) ws,
            )
          ]
