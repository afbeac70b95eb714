-- ===== src/Upload.antt =====
-- The upload of a task's output: uploadOutputFiles of worker/internal/server/worker_server.go cuts
-- files into chunks, ReceiveFileStream of master/internal/storage/file_storage.go writes them. The
-- files are those of the task's directory, by the path in the chunk; two spellings of one path are
-- not identified. The stream delivers the chunks in order; its end is the end of the list.
pub mod Chunks
pub mod RoundTrip
pub mod Files
use Prim.Native.Nat.{◌+◌, ◌*◌}
use agentic_cloud_cluster.Base.{
  ℕ, zero, suc, String, Bool, true, false, Option, none, some, List, [], ◌∷◌, ◌++◌, ◌==◌, ◌&&◌, not,
  map, if◌then◌else◌, length, drop, ℤ, pos,
}
use agentic_cloud_cluster.Dict.{Dict, insert, modify}
use agentic_cloud_cluster.Proto.{Task, FileChunk}

-- an output file: `none` where it cannot be read
pub record OutputFile : Type 0 where
  pub rel_path : String
  pub contents : Option (List ℕ)

module _ {A : Type 0} where
  abbrev pub take : ℕ → List A → List A
  take zero xs = []
  take (suc n) [] = []
  take (suc n) (x ∷ xs) = x ∷ take n xs

  abbrev pub is_empty : List A → Bool
  is_empty [] = true
  is_empty (x ∷ xs) = false

-- the 1 MB of the worker
abbrev pub chunk_size : ℕ
chunk_size = 1024 * 1024

-- The loop over the offsets of one file, with the bytes left; a piece is the last if nothing is left
-- behind it. Each turn takes a byte at least, so the length of the file bounds the turns.
unfoldable pub pieces : ℕ → ℕ → List ℕ → List (List ℕ × Bool)
pieces size zero left = []
pieces size (suc turns) [] = []
pieces size (suc turns) (byte ∷ left) =
    let later = pieces size turns (drop size (byte ∷ left)) in
    (take size (byte ∷ left), is_empty (drop size (byte ∷ left))) ∷ later

module _ {N : Type 0} where
  abbrev pub chunk_of : Task N → Bool → String → List ℕ × Bool → FileChunk
  chunk_of task is_final path piece = record {
    task_id = task.task_id;
    user_id = task.user_id;
    task_name = task.task_name;
    file_path = path;
    content = piece.0;
    is_last_chunk = piece.1;
    is_last_file = is_final && piece.1;
    timestamp = task.submitted_at;
  }

  abbrev pub file_chunks : ℕ → Task N → Bool → OutputFile → List FileChunk
  file_chunks size task is_final file = elim file.contents [
    | none ↦ []
    | some bytes ↦ map (chunk_of task is_final file.rel_path) (pieces size (length bytes) bytes)
  ]

  -- uploadOutputFiles: the chunks that are sent
  unfoldable pub upload_output_files : ℕ → Task N → List OutputFile → List FileChunk
  unfolding pieces
  upload_output_files size task [] = []
  upload_output_files size task (file ∷ rest) =
      file_chunks size task (is_empty rest) file ++ upload_output_files size task rest

-- FileMetadata, as far as it is filled here
pub record FileMetadata : Type 0 where
  pub user_id : String
  pub task_id : String
  pub task_name : String
  pub timestamp : ℤ
  pub file_paths : List String

-- The variables of ReceiveFileStream, and the files that are written. `is_open` says that
-- `currentFile` is not nil.
pub record Receiving : Type 0 where
  pub metadata : FileMetadata
  pub current_file_path : String
  pub is_open : Bool
  pub files_received : ℕ
  pub disk : Dict (List ℕ)

pub data StorageError : Type 0 where
  directory_failed create_failed write_failed : StorageError

-- how the operating system answers while one chunk is handled
pub record DiskAnswers : Type 0 where
  pub task_directory_ok : Bool
  pub file_directory_ok : Bool
  pub open_ok : Bool
  pub write_ok : Bool

abbrev pub Step : Type 0
Step = Option StorageError × Receiving

-- First chunk initializes metadata
unfoldable pub start_metadata : Receiving → FileChunk → DiskAnswers → Step
start_metadata r chunk os =
    if r.metadata.task_id == ""
    then (
      if os.task_directory_ok then none else some directory_failed,
      record r {
        metadata = record {
          user_id = chunk.user_id;
          task_id = chunk.task_id;
          task_name = chunk.task_name;
          timestamp = chunk.timestamp;
          file_paths = [];
        };
      },
    )
    else (none, r)

-- New file in the stream
unfoldable pub open_file : Receiving → FileChunk → DiskAnswers → Step
open_file r chunk os =
    let closed = if r.is_open then r.files_received + 1 else r.files_received in
    let moved = record r { current_file_path = chunk.file_path; files_received = closed } in
    if r.current_file_path == chunk.file_path
    then (none, r)
    else if not os.file_directory_ok
    then (some directory_failed, moved)
    else if not os.open_ok
    then (some create_failed, record moved { is_open = false })
    else (
      none,
      record moved {
        is_open = true;
        disk = insert chunk.file_path [] r.disk;
        metadata = record r.metadata { file_paths = r.metadata.file_paths ++ chunk.file_path ∷ [] };
      },
    )

-- Write chunk data, and close file if this is the last chunk. A write to a nil file is an error.
unfoldable pub write_chunk : Receiving → FileChunk → DiskAnswers → Step
write_chunk r chunk os =
    let written = record r {
      disk = modify r.current_file_path (λ old. old ++ chunk.content) r.disk;
    } in
    if not (r.is_open && os.write_ok)
    then (some write_failed, r)
    else if chunk.is_last_chunk
    then (
      none,
      record written {
        files_received = r.files_received + 1;
        is_open = false;
        current_file_path = "";
      },
    )
    else (none, written)

-- the body of the loop; a step after an error is not taken
unfoldable pub receive_chunk : Receiving → FileChunk → DiskAnswers → Step
unfolding start_metadata open_file write_chunk
receive_chunk r chunk os =
    let (e₁, r₁) = start_metadata r chunk os in
    let (e₂, r₂) = open_file r₁ chunk os in
    let r₃ = write_chunk r₂ chunk os in
    elim e₁ [
      | some error ↦ (some error, r₁)
      | none ↦ elim e₂ [ some error ↦ (some error, r₂) | none ↦ r₃ ]
    ]

-- ReceiveFileStream: it stops at an error, after the last chunk of the last file, or at the end.
unfoldable pub receive_file_stream : Receiving → List (FileChunk × DiskAnswers) → Step
unfolding receive_chunk
receive_file_stream r [] = (none, r)
receive_file_stream r ((chunk, os) ∷ rest) =
    let later = receive_file_stream (receive_chunk r chunk os).1 rest in
    elim (receive_chunk r chunk os).0 [
      | some error ↦ receive_chunk r chunk os
      | none ↦ if chunk.is_last_file then receive_chunk r chunk os else later
    ]

abbrev pub start_receiving : Dict (List ℕ) → Receiving
start_receiving disk = record {
  metadata = record {
    user_id = "";
    task_id = "";
    task_name = "";
    timestamp = pos 0;
    file_paths = [];
  };
  current_file_path = "";
  is_open = false;
  files_received = 0;
  disk = disk;
}
