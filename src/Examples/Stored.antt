-- ===== src/Examples/Stored.antt =====
-- The files of one task of a user, listed and read by the user.
use agentic_cloud_cluster.Base.{
  ◌≡◌, String, refl, true, false, Option, none, some, List, [], ◌∷◌, ℤ, pos, ◌==◌, if◌then◌else◌,
  inl, inr, map,
}
use mathlib.Core.List.{Mem}
use agentic_cloud_cluster.Paths.{join_path}
use agentic_cloud_cluster.Storage.Access.{
  FoundEntry, Disk, Audit, access_denied, validate_file_path,
}
use agentic_cloud_cluster.Storage.Files.{
  nothing, get_task_files, list_user_files_with_access, get_task_files_with_access,
  read_file_with_access, delete_task_files_with_access,
}
use agentic_cloud_cluster.Storage.Audited.{
  IsAudited, is_permitted, with_access-IsAudited, delete_with_access-waits,
}
use agentic_cloud_cluster.Storage.Confined.{read_file_with_access-IsConfined}

abbrev task_dir : FoundEntry
task_dir = record {
  path = "/var/files/u/job/2025-01-01_00-00-00/t1";
  rel = "job/2025-01-01_00-00-00/t1";
  is_dir = true;
  files = ("out/a.txt", 3) ∷ [];
}

abbrev disk : Disk
disk = record {
  exists = λ dir. dir == "/var/files/u";
  walk = λ dir. some (task_dir ∷ []);
  read = λ path.
      if path == "/var/files/u/job/2025-01-01_00-00-00/t1/out/a.txt"
      then some (1 ∷ 2 ∷ 3 ∷ [])
      else none;
  remove_all = λ dir. true;
}

abbrev parse_time : String → Option ℤ
parse_time s = some (pos 1735689600)

with_access-IsAudited_example :
    IsAudited "u" "list_files" "u"
      (list_user_files_with_access parse_time disk "/var/files" false "u" "u")
    × IsAudited "u" "get_task" "t1"
        (get_task_files_with_access parse_time disk "/var/files" false "u" "u" "t1")
    × IsAudited "u" "read_file" "out/a.txt"
        (read_file_with_access parse_time disk "/var/files" false "u" "u" "t1" "out/a.txt")
with_access-IsAudited_example =
    with_access-IsAudited parse_time disk "/var/files" "u" "u" "t1" "out/a.txt"

delete_with_access-waits_example :
    (delete_task_files_with_access parse_time disk "/var/files" false "u" "u" "t1" ≡ (
      if is_permitted "u" "u"
      then none
      else some (
        inl access_denied,
        record { user_id = "u"; action = "delete_task"; resource = "t1"; success = false } ∷ [],
      )))
    × (get_task_files parse_time disk "/var/files" true nothing "u" "t1" ≡ none)
delete_with_access-waits_example =
    delete_with_access-waits parse_time disk "/var/files" "u" "u" "t1" false

abbrev audits : List Audit
audits = record { user_id = "u"; action = "read_file"; resource = "out/a.txt"; success = true } ∷ []

reads :
    read_file_with_access parse_time disk "/var/files" false "u" "u" "t1" "out/a.txt"
    ≡ some (inr (1 ∷ 2 ∷ 3 ∷ []), audits)
unfolding read_file_with_access
reads = refl

read_file_with_access-IsConfined_example :
    (is_permitted "u" "u" ≡ true)
    × (validate_file_path "out/a.txt" ≡ none)
    × ((entries : List FoundEntry) × (entry : FoundEntry) × (disk.walk (join_path "/var/files" "u")
          ≡ some entries)
        × Mem entry entries
        × (entry.is_dir ≡ true)
        × Mem "out/a.txt" (map (λ file. file.0) entry.files)
        × (disk.read (join_path entry.path "out/a.txt") ≡ some (1 ∷ 2 ∷ 3 ∷ [])))
read_file_with_access-IsConfined_example =
    read_file_with_access-IsConfined parse_time disk "/var/files" false "u" "u" "t1" "out/a.txt"
      (1 ∷ 2 ∷ 3 ∷ []) audits reads
