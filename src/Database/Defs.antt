-- ===== src/Database/Defs.antt =====
-- The interface of a collection of MongoDB, as master/internal/db uses it.
use agentic_cloud_cluster.Base.{String, ◌≡◌, Option, none, some, ◌==◌, if◌then◌else◌}
use mathlib.Core.Option

-- `C` are the states of a collection of documents `D`; `applied` is what an update does to one.
pub record Collection (C D U : Type 0) (name : D → String) (applied : U → D → D) : Type 0 where
  pub find_one : C → String → Option D
  pub insert_one : C → D → C
  pub update_one : C → String → U → C
  pub delete_one : C → String → C
  pub find-update :
      (c : C) (id j : String) (u : U)
      → find_one (update_one c id u) j
        ≡ (if id == j then Option.map (applied u) (find_one c j) else find_one c j)
  pub find-delete :
      (c : C) (id j : String)
      → find_one (delete_one c id) j ≡ (if id == j then none else find_one c j)
  pub find-insert :
      (c : C) (d : D) (j : String)
      → find_one c (name d) ≡ none
      → find_one (insert_one c d) j ≡ (if name d == j then some d else find_one c j)
