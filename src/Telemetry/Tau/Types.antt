-- ===== src/Telemetry/Tau/Types.antt =====
-- The task types of InMemoryTauStore in master/internal/telemetry/tau_store.go.
use agentic_cloud_cluster.Base.{
  String, ◌≡◌, refl, subst, ◌⊎◌, sym, Bool, true, false, Option, none, some, List, [], ◌∷◌, ◌==◌,
  ◌||◌, not, arith, eq_iff, Bool-cases, inl, inr,
}
use agentic_cloud_cluster.Float.{Float, ◌+◌, ◌-◌, ◌*◌, le, literal, zero}
use agentic_cloud_cluster.Dict.{Dict, lookup, insert, lookup-insert}
use agentic_cloud_cluster.Telemetry.Tau.{
  TauStore, is_valid_task_type, default_tau_values, insert_all, new_in_memory_tau_store_with_lambda,
  tau_old, update_tau, set_tau, set_lambda, reset_to_defaults,
}

pub eq_comm : (s t : String) → (s == t) ≡ (t == s)
eq_comm s t = ground (arith, eq_iff s t, eq_iff t s)

-- the calls that change a store
pub data TauCall (N : Type 0) : Type 0 where
  updates : String → N → TauCall N
  sets : String → N → TauCall N
  weighs : N → TauCall N
  resets : TauCall N

unfoldable pub is_some : {A : Type 0} → Option A → Bool
is_some none = false
is_some (some x) = true

module _ {N : Type 0} ⦃f : Float N⦄ where
  unfoldable pub call : TauStore N → TauCall N → TauStore N
  unfolding update_tau set_tau set_lambda reset_to_defaults
  call s (updates task_type runtime) = update_tau s task_type runtime
  call s (sets task_type tau) = set_tau s task_type tau
  call s (weighs lambda) = set_lambda s lambda
  call s resets = reset_to_defaults s

  unfoldable pub calls : TauStore N → List (TauCall N) → TauStore N
  unfolding call
  calls s [] = s
  calls s (c ∷ cs) = calls (call s c) cs

  -- the entries are those of the six types
  HasTypes : Dict N → Type 0
  HasTypes m = (k : String) → is_some (lookup k m) ≡ is_valid_task_type k

  insert-HasTypes :
      (m : Dict N) (task_type : String) (x : N)
      → is_valid_task_type task_type ≡ true
      → HasTypes m
      → HasTypes (insert task_type x m)
  unfolding HasTypes is_some
  insert-HasTypes m task_type x ok h k = elim (Bool-cases (task_type == k)) [
    | inl e ↦ ground (arith, e, ok, eq_iff task_type k, lookup-insert task_type k x m)
    | inr e ↦ ground (arith, e, h k, lookup-insert task_type k x m)
  ]

  reset-HasTypes : (m : Dict N) → HasTypes m → HasTypes (insert_all default_tau_values m)
  unfolding insert_all default_tau_values is_valid_task_type
  reset-HasTypes m h = insert-HasTypes _ "mixed" _ refl (
      insert-HasTypes _ "gpu-training" _ refl (
        insert-HasTypes _ "gpu-inference" _ refl (
          insert-HasTypes _ "memory-heavy" _ refl
            (insert-HasTypes _ "cpu-heavy" _ refl (insert-HasTypes m "cpu-light" _ refl h)))))

  new-HasTypes : (lambda : N) → HasTypes (new_in_memory_tau_store_with_lambda lambda).tau_map
  unfolding HasTypes new_in_memory_tau_store_with_lambda insert_all default_tau_values is_some
      is_valid_task_type lookup insert
  new-HasTypes lambda k = ground (
    arith,
    eq_comm "cpu-light" k,
    eq_comm "cpu-heavy" k,
    eq_comm "memory-heavy" k,
    eq_comm "gpu-inference" k,
    eq_comm "gpu-training" k,
    eq_comm "mixed" k,
  )

  -- how a call changes the map
  Grows : TauStore N → TauStore N → Type 0
  Grows s s' =
      (s'.tau_map ≡ s.tau_map)
      ⊎ ((k : String) × (x : N) × (is_valid_task_type k ≡ true)
          × (s'.tau_map ≡ insert k x s.tau_map))

  update-Grows : (s : TauStore N) (k : String) (runtime : N) → Grows s (update_tau s k runtime)
  unfolding Grows update_tau
  update-Grows s k runtime = elim (Bool-cases (not (is_valid_task_type k) || le runtime zero)) [
    | inl e ↦ inl (ground (arith, e))
    | inr e ↦ inr (
      k,
      s.lambda * runtime + (literal 1 1 - s.lambda) * tau_old s k,
      ground (arith, e),
      ground (arith, e),
    )
  ]

  set-Grows : (s : TauStore N) (k : String) (tau : N) → Grows s (set_tau s k tau)
  unfolding Grows set_tau
  set-Grows s k tau = elim (Bool-cases (not (is_valid_task_type k) || le tau zero)) [
    | inl e ↦ inl (ground (arith, e))
    | inr e ↦ inr (k, tau, ground (arith, e), ground (arith, e))
  ]

  tau_map-set_lambda : (s : TauStore N) (lambda : N) → (set_lambda s lambda).tau_map ≡ s.tau_map
  unfolding set_lambda
  tau_map-set_lambda s lambda = ground arith

  Grows-HasTypes : (s s' : TauStore N) → Grows s s' → HasTypes s.tau_map → HasTypes s'.tau_map
  unfolding Grows
  Grows-HasTypes s s' (inl e) h = subst HasTypes (sym e) h
  Grows-HasTypes s s' (inr (k, x, ok, e)) h =
      subst HasTypes (sym e) (insert-HasTypes s.tau_map k x ok h)

  call-HasTypes :
      (s : TauStore N) (c : TauCall N) → HasTypes s.tau_map → HasTypes (call s c).tau_map
  unfolding call
  call-HasTypes s (updates task_type runtime) h =
      Grows-HasTypes s _ (update-Grows s task_type runtime) h
  call-HasTypes s (sets task_type tau) h = Grows-HasTypes s _ (set-Grows s task_type tau) h
  call-HasTypes s (weighs lambda) h = subst HasTypes (sym (tau_map-set_lambda s lambda)) h
  call-HasTypes s resets h = reset-HasTypes s.tau_map h

  from-HasTypes :
      (s : TauStore N) (cs : List (TauCall N)) → HasTypes s.tau_map → HasTypes (calls s cs).tau_map
  unfolding calls
  from-HasTypes s [] h = h
  from-HasTypes s (c ∷ cs) h = from-HasTypes (call s c) cs (call-HasTypes s c h)

  -- After any calls on a new store, it has an entry for each of the six task types and for no other
  -- type: so no estimate is ever read from the defaults for a valid type, and no call with another
  -- type leaves a trace.
  pub calls-HasTypes :
      (lambda : N) (cs : List (TauCall N)) (k : String)
      → is_some (lookup k (calls (new_in_memory_tau_store_with_lambda lambda) cs).tau_map)
        ≡ is_valid_task_type k
  unfolding HasTypes
  calls-HasTypes lambda cs =
      from-HasTypes (new_in_memory_tau_store_with_lambda lambda) cs (new-HasTypes lambda)
