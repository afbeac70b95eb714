-- ===== src/Storage/Audited.antt =====
-- What master/internal/storage gives out to whom, what it writes into the audit log, and where it
-- waits for its own lock.
use agentic_cloud_cluster.Base.{
  String, ◌≡◌, refl, Bool, true, false, ◌||◌, Option, none, some, List, [], ◌∷◌, ◌==◌,
  if◌then◌else◌, ℤ, ◌⊎◌, inl, inr, arith, Option-cases,
}
use agentic_cloud_cluster.Paths.{join_path}
use agentic_cloud_cluster.Storage.Access.{
  FileError, access_denied, file_not_found, read_failed, Result, Disk, Audit, is_admin,
  can_access_files, validate_file_path,
}
use agentic_cloud_cluster.Storage.Files.{
  nothing, TaskFiles, file_paths, has_path, list_user_files, find_task, listing, get_task_files,
  delete_task_files, get_file_path, list_user_files_with_access, get_task_files_with_access,
  read_file_with_access, delete_task_files_with_access,
}

pub Result-cases :
    {R : Type 0} (r : Result R) → ((e : FileError) × (r ≡ inl e)) ⊎ ((x : R) × (r ≡ inr x))
Result-cases (inl e) = inl (e, refl)
Result-cases (inr x) = inr (x, refl)

-- whether a call gives something out
abbrev pub gives_out : {R : Type 0} → Result R → Bool
gives_out (inl e) = false
gives_out (inr x) = true

-- The call returns, and writes one entry into the audit log, with the user, what was done to what,
-- and whether the call gives something out.
pub record IsAudited {R : Type 0} (user_id action resource : String)
    (o : Option (Result R × List Audit)) : Type 0 where
  pub result : Result R
  pub entry : Audit
  pub returns : o ≡ some (result, entry ∷ [])
  pub by_user : entry.user_id ≡ user_id
  pub what : entry.action ≡ action
  pub of_what : entry.resource ≡ resource
  pub told : entry.success ≡ gives_out result

-- from the result, and the call as it is
audit :
    {R : Type 0} (user_id action resource : String) (o : Option (Result R × List Audit))
    (r : Result R)
    → o
      ≡ some (
        r,
        record { user_id = user_id; action = action; resource = resource; success = gives_out r }
            ∷ [],
      )
    → IsAudited user_id action resource o
audit user_id action resource o r e = record {
  result = r;
  entry = record { user_id = user_id; action = action; resource = resource; success = gives_out r };
  returns = e;
  by_user = refl;
  what = refl;
  of_what = refl;
  told = refl;
}

-- Who may see the files of a user: the user, and the administrator.
abbrev pub is_permitted : String → String → Bool
is_permitted requesting target = requesting == target || requesting == "admin"

module _ (parse_time : String → Option ℤ) (disk : Disk) (base_dir : String) where
  abbrev pub picked : String → Result (List TaskFiles) → Result TaskFiles
  picked task_id (inl e) = inl e
  picked task_id (inr ms) = find_task task_id ms

  -- The methods return if no other goroutine waits for the write lock.
  pub get_task_files_returns :
      (user_id task_id : String)
      → get_task_files parse_time disk base_dir false nothing user_id task_id
        ≡ some (picked task_id (listing parse_time disk base_dir user_id))
  unfolding get_task_files list_user_files
  get_task_files_returns user_id task_id =
      elim (Result-cases (listing parse_time disk base_dir user_id)) [
        | inl (e, h) ↦ rw h refl
        | inr (ms, h) ↦ rw h refl
      ]

  get_file_path_returns :
      (user_id task_id path : String)
      → (r : Result String) × (get_file_path parse_time disk base_dir false nothing user_id task_id
            path
          ≡ some r)
  unfolding get_file_path
  get_file_path_returns user_id task_id path =
      let found = get_task_files_returns user_id task_id in
      elim (Result-cases (picked task_id (listing parse_time disk base_dir user_id))) [
        | inl (e, h) ↦ (inl e, ground (arith, found, h))
        | inr (m, h) ↦ (
          if has_path path (file_paths m)
              then inr (join_path m.storage_path path)
              else inl file_not_found,
          ground (arith, found, h),
        )
      ]

  list-IsAudited :
      (requesting target : String)
      → IsAudited requesting "list_files" target
          (list_user_files_with_access parse_time disk base_dir false requesting target)
  unfolding list_user_files_with_access list_user_files
  list-IsAudited requesting target =
      let done =
        audit requesting "list_files" target
          (list_user_files_with_access parse_time disk base_dir false requesting target) in
      elim (Option-cases (can_access_files requesting target)) [
        | inr (e, h) ↦ done (inl e) (ground (arith, h))
        | inl h ↦ elim (Result-cases (listing parse_time disk base_dir target)) [
          | inl (e, k) ↦ done (inl e) (ground (arith, h, k))
          | inr (ms, k) ↦ done (inr ms) (ground (arith, h, k))
        ]
      ]

  get-IsAudited :
      (requesting target task_id : String)
      → IsAudited requesting "get_task" task_id
          (get_task_files_with_access parse_time disk base_dir false requesting target task_id)
  unfolding get_task_files_with_access
  get-IsAudited requesting target task_id =
      let done =
        audit requesting "get_task" task_id
          (get_task_files_with_access parse_time disk base_dir false requesting target task_id) in
      let found = get_task_files_returns target task_id in
      elim (Option-cases (can_access_files requesting target)) [
        | inr (e, h) ↦ done (inl e) (ground (arith, h))
        | inl h ↦ elim (Result-cases (picked task_id (listing parse_time disk base_dir target))) [
          | inl (e, k) ↦ done (inl e) (ground (arith, h, found, k))
          | inr (m, k) ↦ done (inr m) (ground (arith, h, found, k))
        ]
      ]

  read-IsAudited :
      (requesting target task_id path : String)
      → IsAudited requesting "read_file" path
          (read_file_with_access parse_time disk base_dir false requesting target task_id path)
  unfolding read_file_with_access
  read-IsAudited requesting target task_id path =
      let done =
        audit requesting "read_file" path
          (read_file_with_access parse_time disk base_dir false requesting target task_id path) in
      elim (Option-cases (can_access_files requesting target)) [
        | inr (e, h) ↦ done (inl e) (ground (arith, h))
        | inl allowed ↦ elim (Option-cases (validate_file_path path)) [
          | inr (e, h) ↦ done (inl e) (ground (arith, allowed, h))
          | inl valid ↦
              let (r, found) = get_file_path_returns target task_id path in
              elim (Result-cases r) [
                | inl (e, h) ↦ done (inl e) (ground (arith, allowed, valid, found, h))
                | inr (full, h) ↦ elim (Option-cases (disk.read full)) [
                  | inl gone ↦
                      done (inl read_failed) (ground (arith, allowed, valid, found, h, gone))
                  | inr (bytes, there) ↦
                      done (inr bytes) (ground (arith, allowed, valid, found, h, there))
                ]
              ]
        ]
      ]

  -- Listing, looking up and reading files with access control return, each with one entry in the
  -- audit log, which names the user and what was asked for, and says that the call succeeded if and
  -- only if it gives something out. This holds as long as no other goroutine waits for the write
  -- lock.
  pub with_access-IsAudited :
      (requesting target task_id path : String)
      → IsAudited requesting "list_files" target
          (list_user_files_with_access parse_time disk base_dir false requesting target)
        × IsAudited requesting "get_task" task_id
            (get_task_files_with_access parse_time disk base_dir false requesting target task_id)
        × IsAudited requesting "read_file" path
            (read_file_with_access parse_time disk base_dir false requesting target task_id path)
  with_access-IsAudited requesting target task_id path = (
    list-IsAudited requesting target,
    get-IsAudited requesting target task_id,
    read-IsAudited requesting target task_id path,
  )

  -- DeleteTaskFilesWithAccess never returns to a user who may delete the files: it waits for the
  -- read lock while it holds the write lock. To others it answers that access is denied, which the
  -- audit log tells. Nor does
  -- GetTaskFiles return, if another goroutine asks for the write lock after the first of the two
  -- read locks that it takes.
  pub delete_with_access-waits :
      (requesting target task_id : String) (writer_waits : Bool)
      → (delete_task_files_with_access parse_time disk base_dir writer_waits requesting target
            task_id
          ≡ (if is_permitted requesting target
              then none
              else some (
                inl access_denied,
                record {
                  user_id = requesting;
                  action = "delete_task";
                  resource = task_id;
                  success = false;
                }
                    ∷ [],
              )))
        × (get_task_files parse_time disk base_dir true nothing target task_id ≡ none)
  unfolding delete_task_files_with_access delete_task_files get_task_files list_user_files is_admin
  delete_with_access-waits requesting target task_id writer_waits = (ground arith, refl)
