-- ===== src/Storage/Files.antt =====
-- master/internal/storage/file_storage.go: listing, reading and deleting the files of a task. A method
-- that waits for ever for a lock is `none`. Others may hold the lock for a while, and give it back;
-- what counts here is what the caller itself holds, which it does not give back while it waits, and
-- whether another goroutine asks for the write lock in between.
use agentic_cloud_cluster.Base.{
  String, Bool, true, false, Option, none, some, List, [], ◌∷◌, ◌==◌, ◌&&◌, ◌||◌, not,
  if◌then◌else◌, ℕ, suc, inl, inr, map, ℤ,
}
use Prim.Native.Nat.{◌+◌}
use agentic_cloud_cluster.Paths.{split_path, join_path}
use agentic_cloud_cluster.Storage.Access.{
  access_denied, walk_failed, task_not_found, file_not_found, read_failed, remove_failed, Result,
  FoundEntry, Disk, is_admin, can_access_files, validate_file_path, Audit,
}

-- What the running goroutine holds of the sync.RWMutex.
pub data Held : Type 0 where
  nothing : Held
  reading : ℕ → Held
  writing : Held

module _ {R : Type 0} where
  -- RLock, and RUnlock at the end. By the documentation of sync.RWMutex a goroutine that holds the
  -- read lock does not get it once more while another one waits for the write lock.
  abbrev pub under_read : Bool → Held → (Held → Option R) → Option R
  under_read writer_waits nothing body = body (reading 1)
  under_read writer_waits (reading n) body = if writer_waits then none else body (reading (suc n))
  under_read writer_waits writing body = none

  -- Lock, and Unlock at the end
  abbrev pub under_write : Held → (Held → Option R) → Option R
  under_write nothing body = body writing
  under_write (reading n) body = none
  under_write writing body = none

-- FileMetadata; `files` is Files, whose names are FilePaths.
pub record TaskFiles : Type 0 where
  pub user_id : String
  pub task_id : String
  pub task_name : String
  pub timestamp : ℤ
  pub files : List (String × ℕ)
  pub storage_path : String
  pub total_size : ℕ

abbrev pub total_of : List (String × ℕ) → ℕ
total_of [] = 0
total_of ((path, size) ∷ rest) = size + total_of rest

abbrev pub file_paths : TaskFiles → List String
file_paths m = map (λ file. file.0) m.files

abbrev pub has_path : String → List String → Bool
has_path path [] = false
has_path path (p ∷ ps) = p == path || has_path path ps

-- `err == nil`
abbrev pub is_nil_error : {R : Type 0} → Result R → Bool
is_nil_error (inl e) = false
is_nil_error (inr r) = true

-- A call of AuditFileAccess with the given success, and the method's result.
abbrev pub audited :
    {R : Type 0} → String → String → String → Bool → Result R → Result R × List Audit
audited user_id action resource success r =
    (r, record { user_id = user_id; action = action; resource = resource; success = success } ∷ [])

unfoldable pub find_task : String → List TaskFiles → Result TaskFiles
find_task task_id [] = inl task_not_found
find_task task_id (m ∷ ms) = if m.task_id == task_id then inr m else find_task task_id ms

-- `time.Parse` of a directory's name
module _ (parse_time : String → Option ℤ) where
  -- A directory three levels below that of the user is that of a task.
  abbrev pub task_directory : String → FoundEntry → List String → Option TaskFiles
  task_directory user_id entry (task_name ∷ time ∷ task_id ∷ []) =
      if entry.is_dir
      then elim (parse_time time) [
        | none ↦ none
        | some timestamp ↦ some (record {
          user_id = user_id;
          task_id = task_id;
          task_name = task_name;
          timestamp = timestamp;
          files = entry.files;
          storage_path = entry.path;
          total_size = total_of entry.files;
        })
      ]
      else none
  task_directory user_id entry parts = none

  -- the walk of ListUserFiles
  unfoldable pub task_directories : String → List FoundEntry → List TaskFiles
  unfolding split_path
  task_directories user_id [] = []
  task_directories user_id (entry ∷ rest) =
      elim (task_directory user_id entry (split_path entry.rel)) [
        | none ↦ task_directories user_id rest
        | some m ↦ m ∷ task_directories user_id rest
      ]

-- and the file system, and the service's own directory
module _ (parse_time : String → Option ℤ) (disk : Disk) (base_dir : String) where
  -- what ListUserFiles comes to under its lock
  abbrev pub listing : String → Result (List TaskFiles)
  listing user_id =
      let user_dir = join_path base_dir user_id in
      if disk.exists user_dir
      then elim (disk.walk user_dir) [
        | none ↦ inl walk_failed
        | some entries ↦ inr (task_directories parse_time user_id entries)
      ]
      else inr []

-- and whether another goroutine waits for the write lock
module _ (parse_time : String → Option ℤ) (disk : Disk) (base_dir : String)
    (writer_waits : Bool) where
  -- ListUserFiles
  unfoldable pub list_user_files : Held → String → Option (Result (List TaskFiles))
  unfolding task_directories join_path
  list_user_files held user_id =
      under_read writer_waits held (λ held'. some (listing parse_time disk base_dir user_id))

  -- GetTaskFiles, which takes the read lock twice
  unfoldable pub get_task_files : Held → String → String → Option (Result TaskFiles)
  unfolding list_user_files find_task
  get_task_files held user_id task_id = under_read writer_waits held (λ held'.
      elim (list_user_files held' user_id) [
        | none ↦ none
        | some (inl e) ↦ some (inl e)
        | some (inr ms) ↦ some (find_task task_id ms)
      ])

  -- DeleteTaskFiles
  unfoldable pub delete_task_files : Held → String → String → Option (Result Unit)
  unfolding get_task_files
  delete_task_files held user_id task_id = under_write held (λ held'.
      elim (get_task_files held' user_id task_id) [
        | none ↦ none
        | some (inl e) ↦ some (inl e)
        | some (inr m) ↦ some (if disk.remove_all m.storage_path then inr tt else inl remove_failed)
      ])

  -- GetFilePath
  unfoldable pub get_file_path : Held → String → String → String → Option (Result String)
  unfolding get_task_files join_path
  get_file_path held user_id task_id path = elim (get_task_files held user_id task_id) [
    | none ↦ none
    | some (inl e) ↦ some (inl e)
    | some (inr m) ↦ some (
        if has_path path (file_paths m)
        then inr (join_path m.storage_path path)
        else inl file_not_found)
  ]

  -- ListUserFilesWithAccess
  unfoldable pub list_user_files_with_access :
      String → String → Option (Result (List TaskFiles) × List Audit)
  unfolding can_access_files list_user_files
  list_user_files_with_access requesting target = elim (can_access_files requesting target) [
    | some e ↦ some (audited requesting "list_files" target false (inl e))
    | none ↦ elim (list_user_files nothing target) [
      | none ↦ none
      | some (inl e) ↦ some (audited requesting "list_files" target false (inl e))
      | some (inr ms) ↦ some (audited requesting "list_files" target true (inr ms))
    ]
  ]

  -- GetTaskFilesWithAccess
  unfoldable pub get_task_files_with_access :
      String → String → String → Option (Result TaskFiles × List Audit)
  unfolding can_access_files get_task_files
  get_task_files_with_access requesting target task_id = elim (can_access_files requesting target) [
    | some e ↦ some (audited requesting "get_task" task_id false (inl e))
    | none ↦ elim (get_task_files nothing target task_id) [
      | none ↦ none
      | some r ↦ some (audited requesting "get_task" task_id (is_nil_error r) r)
    ]
  ]

  -- ReadFileWithAccess
  unfoldable pub read_file_with_access :
      String → String → String → String → Option (Result (List ℕ) × List Audit)
  unfolding can_access_files validate_file_path get_file_path
  read_file_with_access requesting target task_id path = elim (can_access_files requesting target) [
    | some e ↦ some (audited requesting "read_file" path false (inl e))
    | none ↦ elim (validate_file_path path) [
      | some e ↦ some (audited requesting "read_file" path false (inl e))
      | none ↦ elim (get_file_path nothing target task_id path) [
        | none ↦ none
        | some (inl e) ↦ some (audited requesting "read_file" path false (inl e))
        | some (inr full) ↦
            let content : Result (List ℕ) = elim (disk.read full) [
              | none ↦ inl read_failed
              | some bytes ↦ inr bytes
            ] in
            some (audited requesting "read_file" path (is_nil_error content) content)
      ]
    ]
  ]

  -- DeleteTaskFilesWithAccess
  unfoldable pub delete_task_files_with_access :
      String → String → String → Option (Result Unit × List Audit)
  unfolding is_admin delete_task_files
  delete_task_files_with_access requesting target task_id =
      if not (requesting == target) && not (is_admin requesting)
      then some (audited requesting "delete_task" task_id false (inl access_denied))
      else elim (delete_task_files nothing target task_id) [
        | none ↦ none
        | some r ↦ some (audited requesting "delete_task" task_id (is_nil_error r) r)
      ]
