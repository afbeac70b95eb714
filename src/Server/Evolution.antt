-- ===== src/Server/Evolution.antt =====
-- What any number of steps of the server can do to its map of workers: entries change and go, but
-- none comes in, and each keeps its worker's name or takes that of its key.
use agentic_cloud_cluster.Base.{
  String, ◌≡◌, refl, ◌⊎◌, inl, inr, none, some, ◌==◌, arith, eq_iff, Bool-cases, Option-cases,
}
use mathlib.Core.Option
use agentic_cloud_cluster.Dict.{Dict, lookup, insert, delete, lookup-insert, lookup-delete}
use agentic_cloud_cluster.Server.State.{WorkerState}

abbrev pub worker_name : {N : Type 0} → WorkerState N → String
worker_name w = w.info.worker_id

-- the entry of `j`, after and before
abbrev pub Entry : {N : Type 0} → String → Dict (WorkerState N) → Dict (WorkerState N) → Type 0
Entry {N} j m m' =
    (lookup j m' ≡ none)
    ⊎ ((w : WorkerState N) × (w' : WorkerState N) × (lookup j m ≡ some w)
        × (lookup j m' ≡ some w')
        × ((worker_name w' ≡ worker_name w) ⊎ (worker_name w' ≡ j)))

pub record Evolves {N : Type 0} (m m' : Dict (WorkerState N)) : Type 0 where
  pub entry : (j : String) → Entry j m m'

module _ {N : Type 0} where
  pub Evolves-refl : (m : Dict (WorkerState N)) → Evolves m m
  Evolves-refl m = record {
    entry = λ j. elim (Option-cases (lookup j m)) [
      | inl e ↦ inl e
      | inr (w, e) ↦ inr (w, w, e, e, inl refl)
    ];
  }

  Entry-trans :
      (j : String) (a b c : Dict (WorkerState N)) → Entry j a b → Entry j b c → Entry j a c
  Entry-trans j a b c h (inl e) = inl e
  Entry-trans j a b c (inl e) (inr (w, w', there, there', named)) = absurd (cc)
  Entry-trans j a b c (inr (u, u', left, left', named)) (inr (w, w', there, there', named')) =
      inr (u, w', left, there', ground (arith, left', there))

  pub Evolves-trans : {a b c : Dict (WorkerState N)} → Evolves a b → Evolves b c → Evolves a c
  Evolves-trans {a} {b} {c} h k = record {
    entry = λ j. Entry-trans j a b c (h.entry j) (k.entry j);
  }

  pub Evolves-insert :
      (m : Dict (WorkerState N)) (id : String) (w w' : WorkerState N)
      → lookup id m ≡ some w
      → (worker_name w' ≡ worker_name w) ⊎ (worker_name w' ≡ id)
      → Evolves m (insert id w' m)
  Evolves-insert m id w w' there named = record {
    entry = λ j. elim (Bool-cases (id == j)) [
      | inl e ↦ inr (
        w,
        w',
        ground (arith, e, eq_iff id j),
        ground (arith, e, lookup-insert id j w' m),
        ground (arith, eq_iff id j),
      )
      | inr e ↦ elim (Option-cases (lookup j m)) [
        | inl e' ↦ inl (ground (arith, e, e', lookup-insert id j w' m))
        | inr (v, e') ↦ inr (v, v, e', ground (arith, e, e', lookup-insert id j w' m), inl refl)
      ]
    ];
  }

  pub Evolves-map :
      (m m' : Dict (WorkerState N)) (g : String → WorkerState N → WorkerState N)
      → ((j : String) (w : WorkerState N) → worker_name (g j w) ≡ worker_name w)
      → ((j : String) → lookup j m' ≡ Option.map (g j) (lookup j m))
      → Evolves m m'
  Evolves-map m m' g named step = record {
    entry = λ j. elim (Option-cases (lookup j m)) [
      | inl e ↦ inl (ground (arith, e, step j))
      | inr (w, e) ↦ inr (w, g j w, e, ground (arith, e, step j), inl (named j w))
    ];
  }

  pub Evolves-delete : (m : Dict (WorkerState N)) (id : String) → Evolves m (delete id m)
  Evolves-delete m id = record {
    entry = λ j. elim (Bool-cases (id == j)) [
      | inl e ↦ inl (ground (arith, e, lookup-delete id j m))
      | inr e ↦ elim (Option-cases (lookup j m)) [
        | inl e' ↦ inl (ground (arith, e, e', lookup-delete id j m))
        | inr (v, e') ↦ inr (v, v, e', ground (arith, e, e', lookup-delete id j m), inl refl)
      ]
    ];
  }
