-- ===== src/Dict.antt =====
-- Go's maps with string keys, as association lists. A `range` over a map has no fixed order in Go:
-- the theorems speak of every list, so of every order.
use agentic_cloud_cluster.Base.{
  String, ◌≡◌, refl, sym, Bool-cases, inl, inr, Option, none, some, List, [], ◌∷◌, arith, ◌==◌,
  eq_iff, if◌then◌else◌,
}
use mathlib.Core.Option
use mathlib.Core.Logic.Or
use mathlib.Core.List.{Mem, mem-cons}

abbrev pub Dict {ℓ} : Type ℓ → Type ℓ
Dict V = List (String × V)

module _ {ℓ} {V : Type ℓ} where
  unfoldable pub lookup : String → Dict V → Option V
  lookup k [] = none
  lookup k ((j, v) ∷ m) = if j == k then some v else lookup k m

  unfoldable pub insert : String → V → Dict V → Dict V
  insert k v [] = (k, v) ∷ []
  insert k v ((j, w) ∷ m) = if j == k then (k, v) ∷ m else (j, w) ∷ insert k v m

  unfoldable pub delete : String → Dict V → Dict V
  delete k [] = []
  delete k ((j, v) ∷ m) = let rest = delete k m in if j == k then rest else (j, v) ∷ rest

  abbrev pub keys : Dict V → List String
  keys [] = []
  keys ((k, v) ∷ m) = k ∷ keys m

  -- The statement `if v, ok := m[k]; ok { m[k] = f(v) }`, for a value that the map holds by a
  -- pointer: every entry of the key is the same object.
  unfoldable pub modify : String → (V → V) → Dict V → Dict V
  modify k f [] = []
  modify k f ((j, v) ∷ m) = (j, if j == k then f v else v) ∷ modify k f m

  -- A key that is found is a key of the map.
  pub mem-keys : (k : String) (v : V) (m : Dict V) → lookup k m ≡ some v → Mem k (keys m)
  unfolding lookup
  mem-keys k v [] h = absurd (cc)
  mem-keys k v ((j, w) ∷ m) h = elim (Bool-cases (j == k)) [
    | inl e ↦ mem-cons.1 (Or.inl (sym ((eq_iff j k).0 e)))
    | inr e ↦ mem-cons.1 (Or.inr (mem-keys k v m (ground (arith, e))))
  ]

  -- What a write under `written` leaves to be read under `asked`.
  pub lookup-insert :
      (written asked : String) (new : V) (entries : Dict V)
      → lookup asked (insert written new entries)
        ≡ (if written == asked then some new else lookup asked entries)
  unfolding insert lookup
  lookup-insert written asked new [] = refl
  lookup-insert written asked new ((key, old) ∷ entries) =
      let below = lookup-insert written asked new entries in
      ground (arith, below, eq_iff key asked, eq_iff key written, eq_iff written asked)

  pub lookup-delete :
      (k j : String) (m : Dict V) → lookup j (delete k m) ≡ (if k == j then none else lookup j m)
  unfolding lookup delete
  lookup-delete k j [] = ground arith
  lookup-delete k j ((i, w) ∷ m) =
      ground (arith, eq_iff k j, eq_iff i k, eq_iff i j, lookup-delete k j m)

  pub lookup-modify :
      (k j : String) (f : V → V) (m : Dict V)
      → lookup j (modify k f m) ≡ (if k == j then Option.map f (lookup j m) else lookup j m)
  unfolding lookup modify
  lookup-modify k j f [] = ground arith
  lookup-modify k j f ((i, w) ∷ m) =
      ground (arith, eq_iff k j, eq_iff i k, eq_iff i j, lookup-modify k j f m)

  pub keys-modify : (k : String) (f : V → V) (m : Dict V) → keys (modify k f m) ≡ keys m
  unfolding modify
  keys-modify k f [] = refl
  keys-modify k f ((i, w) ∷ m) = ground (arith, keys-modify k f m)

module _ {ℓ κ} {V : Type ℓ} {W : Type κ} where
  -- A loop over the map that rebuilds each value.
  unfoldable pub map_values : (String → V → W) → Dict V → Dict W
  map_values f [] = []
  map_values f ((k, v) ∷ m) = (k, f k v) ∷ map_values f m

  pub lookup-map_values :
      (f : String → V → W) (j : String) (m : Dict V)
      → lookup j (map_values f m) ≡ Option.map (f j) (lookup j m)
  unfolding lookup map_values
  lookup-map_values f j [] = refl
  lookup-map_values f j ((i, w) ∷ m) = ground (arith, eq_iff i j, lookup-map_values f j m)

  pub keys-map_values : (f : String → V → W) (m : Dict V) → keys (map_values f m) ≡ keys m
  unfolding map_values
  keys-map_values f [] = refl
  keys-map_values f ((i, w) ∷ m) = ground (arith, keys-map_values f m)

pub ruleset dict_laws = (lookup-insert, lookup-delete, lookup-modify, lookup-map_values)
