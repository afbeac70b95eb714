-- ===== src/Storage/Access.antt =====
-- master/internal/storage/access_control.go: who may see whose files, and which paths are accepted.
use agentic_cloud_cluster.Base.{
  String, Bool, Option, none, some, List, [], ◌∷◌, ◌==◌, if◌then◌else◌, ℕ, ◌⊎◌, inl, inr,
}
use agentic_cloud_cluster.Paths.{contains, is_abs, clean, join_path, dir}

pub data FileError : Type 0 where
  access_denied dots_in_path absolute_path suspicious_path : FileError
  walk_failed task_not_found file_not_found read_failed remove_failed : FileError

abbrev pub Result : Type 0 → Type 0
Result R = FileError ⊎ R

-- What the walk of a directory comes to, one entry for each file or directory below it: its path, the
-- path relative to the directory, and the files below it with their sizes.
pub record FoundEntry : Type 0 where
  pub path : String
  pub rel : String
  pub is_dir : Bool
  pub files : List (String × ℕ)

-- The file system: `none` is an error.
pub record Disk : Type 0 where
  pub exists : String → Bool
  pub walk : String → Option (List FoundEntry)
  pub read : String → Option (List ℕ)
  pub remove_all : String → Bool

unfoldable pub is_admin : String → Bool
is_admin user_id = user_id == "admin"

-- CanAccessFiles; `none` is a nil error.
unfoldable pub can_access_files : String → String → Option FileError
unfolding is_admin
can_access_files requesting target =
    if requesting == target then none else if is_admin requesting then none else some access_denied

-- ValidateFilePath
unfoldable pub validate_file_path : String → Option FileError
unfolding contains is_abs clean
validate_file_path path =
    if contains path ".."
    then some dots_in_path
    else if is_abs path
    then some absolute_path
    else if clean path == path
    then none
    else some suspicious_path

-- CanAccessFile
unfoldable pub can_access_file : String → String → String → Option FileError
unfolding can_access_files validate_file_path
can_access_file requesting target path = elim (can_access_files requesting target) [
  | some e ↦ some e
  | none ↦ validate_file_path path
]

-- The files of GetUserFiles, each by FilePaths and StoragePath. A walk that fails is no error: what it
-- has not visited is left out.
abbrev only_files : List FoundEntry → List (List String × String)
only_files [] = []
only_files (entry ∷ rest) =
    if entry.is_dir then only_files rest else (entry.rel ∷ [], dir entry.path) ∷ only_files rest

module _ (disk : Disk) (base_dir : String) where
  -- GetUserFiles
  unfoldable pub get_user_files : String → String → Result (List (List String × String))
  unfolding can_access_files join_path dir
  get_user_files requesting target = elim (can_access_files requesting target) [
    | some e ↦ inl e
    | none ↦ elim (disk.walk (join_path base_dir target)) [
      | none ↦ inr []
      | some entries ↦ inr (only_files entries)
    ]
  ]

  -- ReadFile
  unfoldable pub read_user_file : String → String → String → Result (List ℕ)
  unfolding can_access_file join_path
  read_user_file requesting target path = elim (can_access_file requesting target path) [
    | some e ↦ inl e
    | none ↦ elim (disk.read (join_path (join_path base_dir target) path)) [
      | none ↦ inl read_failed
      | some bytes ↦ inr bytes
    ]
  ]

-- an entry of AuditFileAccess
pub record Audit : Type 0 where
  pub user_id : String
  pub action : String
  pub resource : String
  pub success : Bool
