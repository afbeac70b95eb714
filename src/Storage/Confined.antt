-- ===== src/Storage/Confined.antt =====
-- Which files ReadFileWithAccess of master/internal/storage/file_storage.go gives out.
use agentic_cloud_cluster.Base.{
  ℕ, String, ◌≡◌, refl, sym, ap, ◌∙◌, subst, Bool, true, false, Option, none, some, List, [], ◌∷◌,
  ◌==◌, ℤ, inl, inr, map, arith, eq_iff, Option-cases, Bool-cases,
}
use mathlib.Core.List.{Mem, mem-cons}
use mathlib.Core.Logic.Or
use agentic_cloud_cluster.Paths.{join_path, split_path}
use agentic_cloud_cluster.Storage.Access.{
  Result, FoundEntry, Disk, Audit, is_admin, can_access_files, validate_file_path,
}
use agentic_cloud_cluster.Storage.Files.{
  nothing, TaskFiles, file_paths, has_path, task_directory, task_directories, listing,
  list_user_files, find_task, get_task_files, get_file_path, read_file_with_access,
}
use agentic_cloud_cluster.Storage.Audited.{
  is_permitted, Result-cases, picked, get_task_files_returns,
}

-- The files of a task stand in one directory that a walk has met.
record IsWalked (user_id task_id : String) (entries : List FoundEntry) (m : TaskFiles)
    : Type 0 where
  pub entry : FoundEntry
  pub met : Mem entry entries
  pub directory : entry.is_dir ≡ true
  pub owner : m.user_id ≡ user_id
  pub task : m.task_id ≡ task_id
  pub at : m.storage_path ≡ entry.path
  pub files : m.files ≡ entry.files

has_path-Mem : (path : String) (ps : List String) → has_path path ps ≡ true → Mem path ps
has_path-Mem path [] h = absurd (cc)
has_path-Mem path (p ∷ ps) h = elim (Bool-cases (p == path)) [
  | inl same ↦ mem-cons.1 (Or.inl (sym ((eq_iff p path).0 same)))
  | inr other ↦ mem-cons.1 (Or.inr (has_path-Mem path ps (ground (arith, other))))
]

module _ (parse_time : String → Option ℤ) (user_id : String) where
  directory_of :
      (entry : FoundEntry) (parts : List String) (m : TaskFiles)
      → task_directory parse_time user_id entry parts ≡ some m
      → (entry.is_dir ≡ true)
        × (m.user_id ≡ user_id)
        × (m.storage_path ≡ entry.path)
        × (m.files ≡ entry.files)
  directory_of entry [] m h = absurd (cc)
  directory_of entry (a ∷ []) m h = absurd (cc)
  directory_of entry (a ∷ b ∷ []) m h = absurd (cc)
  directory_of entry (a ∷ b ∷ c ∷ d ∷ rest) m h = absurd (cc)
  directory_of entry (a ∷ b ∷ c ∷ []) m h = elim (Bool-cases entry.is_dir) [
    | inr file ↦ absurd (ground (arith, file))
    | inl dir ↦ elim (Option-cases (parse_time b)) [
      | inl bad ↦ absurd (ground (arith, dir, bad))
      | inr (time, good) ↦
          (dir, ground (arith, dir, good), ground (arith, dir, good), ground (arith, dir, good))
    ]
  ]

  found-IsWalked :
      (task_id : String) (entries : List FoundEntry) (m : TaskFiles)
      → find_task task_id (task_directories parse_time user_id entries) ≡ inr m
      → IsWalked user_id task_id entries m
  unfolding find_task task_directories
  found-IsWalked task_id [] m h = absurd (ground arith)
  found-IsWalked task_id (entry ∷ entries) m h =
      let later : find_task task_id (task_directories parse_time user_id entries) ≡ inr m
          → IsWalked user_id task_id (entry ∷ entries) m =
        λ k.
          let r = found-IsWalked task_id entries m k in
          record {
            entry = r.entry;
            met = mem-cons.1 (Or.inr r.met);
            directory = r.directory;
            owner = r.owner;
            task = r.task;
            at = r.at;
            files = r.files;
          } in
      elim (Option-cases (task_directory parse_time user_id entry (split_path entry.rel))) [
        | inl none_here ↦ later (ground (arith, none_here))
        | inr (m', here) ↦ elim (Bool-cases (m'.task_id == task_id)) [
          | inr other ↦ later (ground (arith, here, other))
          | inl same ↦
              let (directory, owner, at, files) =
                directory_of entry (split_path entry.rel) m' here in
              let it : m' ≡ m = ground (arith, here, same) in
              record {
                entry = entry;
                met = mem-cons.1 (Or.inl refl);
                directory = directory;
                owner = ap (λ x. x.user_id) (sym it) ∙ owner;
                task = ap (λ x. x.task_id) (sym it) ∙ (eq_iff m'.task_id task_id).0 same;
                at = ap (λ x. x.storage_path) (sym it) ∙ at;
                files = ap (λ x. x.files) (sym it) ∙ files;
              }
        ]
      ]

module _ (parse_time : String → Option ℤ) (disk : Disk) (base_dir : String) where
  returned_listing :
      (writer_waits : Bool) (user_id task_id : String) (r : Result TaskFiles)
      → get_task_files parse_time disk base_dir writer_waits nothing user_id task_id ≡ some r
      → picked parse_time disk base_dir task_id (listing parse_time disk base_dir user_id) ≡ r
  unfolding get_task_files list_user_files
  returned_listing true user_id task_id r h = absurd (ground (arith, h))
  returned_listing false user_id task_id r h =
      ground (arith, h, get_task_files_returns parse_time disk base_dir user_id task_id)

  -- the walk of the user's directory, if a task is found
  listed_walk :
      (user_id task_id : String) (m : TaskFiles)
      → picked parse_time disk base_dir task_id (listing parse_time disk base_dir user_id) ≡ inr m
      → (entries : List FoundEntry) × (disk.walk (join_path base_dir user_id) ≡ some entries)
        × IsWalked user_id task_id entries m
  unfolding find_task
  listed_walk user_id task_id m h =
      let user_dir = join_path base_dir user_id in
      elim (Bool-cases (disk.exists user_dir)) [
        | inr missing ↦ absurd (ground (arith, h, missing))
        | inl there ↦ elim (Option-cases (disk.walk user_dir)) [
          | inl failed ↦ absurd (ground (arith, h, there, failed))
          | inr (entries, walked) ↦ (
            entries,
            walked,
            found-IsWalked parse_time user_id task_id entries m (ground (arith, h, there, walked)),
          )
        ]
      ]

  read_guards :
      (writer_waits : Bool) (requesting target task_id path : String) (bytes : List ℕ)
      (audits : List Audit)
      → read_file_with_access parse_time disk base_dir writer_waits requesting target task_id path
        ≡ some (inr bytes, audits)
      → (is_permitted requesting target ≡ true) × (validate_file_path path ≡ none)
  unfolding read_file_with_access can_access_files is_admin
  read_guards writer_waits requesting target task_id path bytes audits h =
      elim (Bool-cases (is_permitted requesting target)) [
        | inr denied ↦ absurd (ground (arith, h, denied))
        | inl allowed ↦ (
          allowed,
          elim (Option-cases (validate_file_path path)) [
            | inl valid ↦ valid
            | inr (e, bad) ↦ absurd (ground (arith, h, allowed, bad))
          ],
        )
      ]

  read_steps :
      (writer_waits : Bool) (requesting target task_id path : String) (bytes : List ℕ)
      (audits : List Audit)
      → read_file_with_access parse_time disk base_dir writer_waits requesting target task_id path
        ≡ some (inr bytes, audits)
      → (m : TaskFiles) × (get_task_files parse_time disk base_dir writer_waits nothing target
            task_id
          ≡ some (inr m))
        × (has_path path (file_paths m) ≡ true)
        × (disk.read (join_path m.storage_path path) ≡ some bytes)
  unfolding read_file_with_access get_file_path can_access_files is_admin
  read_steps writer_waits requesting target task_id path bytes audits h =
      let (allowed, valid) =
        read_guards writer_waits requesting target task_id path bytes audits h in
      let asked = get_task_files parse_time disk base_dir writer_waits nothing target task_id in
      elim (Option-cases asked) [
        | inl waits ↦ absurd (ground (arith, h, allowed, valid, waits))
        | inr (r, got) ↦ elim (Result-cases r) [
          | inl (e, failed) ↦ absurd (ground (arith, h, allowed, valid, got, failed))
          | inr (m, found) ↦ elim (Bool-cases (has_path path (file_paths m))) [
            | inr missing ↦ absurd (ground (arith, h, allowed, valid, got, found, missing))
            | inl listed ↦ (
              m,
              got ∙ ap some found,
              listed,
              elim (Option-cases (disk.read (join_path m.storage_path path))) [
                | inl gone ↦ absurd (ground (arith, h, allowed, valid, got, found, listed, gone))
                | inr (content, there) ↦
                    ground (arith, h, allowed, valid, got, found, listed, there)
              ],
            )
          ]
        ]
      ]

  -- What ReadFileWithAccess gives out, it gives to the user whose files they are or to the
  -- administrator, for a path that ValidateFilePath accepts; and it is what stands at this path below
  -- a directory that the walk of this user's own directory has met, in which the walk has found it.
  pub read_file_with_access-IsConfined :
      (writer_waits : Bool) (requesting target task_id path : String) (bytes : List ℕ)
      (audits : List Audit)
      → read_file_with_access parse_time disk base_dir writer_waits requesting target task_id path
        ≡ some (inr bytes, audits)
      → (is_permitted requesting target ≡ true)
        × (validate_file_path path ≡ none)
        × ((entries : List FoundEntry) × (entry : FoundEntry) × (disk.walk
                (join_path base_dir target)
              ≡ some entries)
            × Mem entry entries
            × (entry.is_dir ≡ true)
            × Mem path (map (λ file. file.0) entry.files)
            × (disk.read (join_path entry.path path) ≡ some bytes))
  unfolding read_file_with_access get_file_path can_access_files is_admin
  read_file_with_access-IsConfined writer_waits requesting target task_id path bytes audits h =
      let (m, found, listed, there) =
        read_steps writer_waits requesting target task_id path bytes audits h in
      let (allowed, valid) =
        read_guards writer_waits requesting target task_id path bytes audits h in
      let (entries, walked, w) =
        listed_walk target task_id m (returned_listing writer_waits target task_id (inr m) found) in
      (
        allowed,
        valid,
        (
          entries,
          w.entry,
          walked,
          w.met,
          w.directory,
          subst (λ files. Mem path (map (λ file. file.0) files)) w.files
              (has_path-Mem path (file_paths m) listed),
          ap (λ dir. disk.read (join_path dir path)) (sym w.at) ∙ there,
        ),
      )
