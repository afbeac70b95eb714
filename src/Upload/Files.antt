-- ===== src/Upload/Files.antt =====
-- The round trip of whole lists of files through uploadOutputFiles and ReceiveFileStream.
use agentic_cloud_cluster.Base.{
  ℕ, ◌<◌, String, ◌≡◌, refl, sym, ap, ◌∙◌, subst, false, none, some, List, [], ◌∷◌, ◌++◌, ◌==◌, map,
  arith, length, All,
}
use agentic_cloud_cluster.Dict.{Dict, lookup}
use agentic_cloud_cluster.Proto.{Task}
use agentic_cloud_cluster.Upload.{
  OutputFile, is_empty, pieces, chunk_of, file_chunks, upload_output_files, Receiving,
  receive_file_stream, start_receiving,
}
use agentic_cloud_cluster.Upload.Chunks.{undisturbed, IsBetween, IsDone, first-IsHandled}
use agentic_cloud_cluster.Upload.RoundTrip.{IsWritten, file-IsWritten, Handles}

-- a file that is sent: it can be read and is not empty, and its path is not empty
pub record IsSent (file : OutputFile) : Type 0 where
  pub bytes : List ℕ
  pub readable : file.contents ≡ some bytes
  pub some_bytes : is_empty bytes ≡ false
  pub named : (file.rel_path == "") ≡ false

-- none of the files has the path
abbrev pub IsFresh : String → List OutputFile → Type 0
IsFresh path files = All (λ g. (g.rel_path == path) ≡ false) files

abbrev pub Distinct : List OutputFile → Type 0
Distinct [] = Unit {0}
Distinct (f ∷ fs) = IsFresh f.rel_path fs × Distinct fs

done-IsBetween :
    (path : String) (got : List ℕ) (old : Dict (List ℕ)) (r : Receiving)
    → IsDone path got old r
    → IsBetween r
done-IsBetween path got old r h = record { opened = h.opened; current = h.current }

module _ {N : Type 0} (size : ℕ) (positive : 0 < size) (task : Task N)
    (known : (task.task_id == "") ≡ false) where
  record IsReceived (r : Receiving) (files : List OutputFile) : Type 0 where
    pub after : Receiving
    pub ends :
        receive_file_stream r (undisturbed (upload_output_files size task files)) ≡ (none, after)
    pub written : All (λ f. lookup f.rel_path after.disk ≡ f.contents) files
    pub others : (q : String) → IsFresh q files → lookup q after.disk ≡ lookup q r.disk

  sent_chunks :
      (f : OutputFile) (fs : List OutputFile) (h : IsSent f)
      → map (chunk_of task (is_empty fs) f.rel_path) (pieces size (length h.bytes) h.bytes)
        ≡ file_chunks size task (is_empty fs) f
  sent_chunks f fs h = rw h.readable refl

  -- the first file, whatever follows
  one_file :
      (r : Receiving) (f : OutputFile) (fs : List OutputFile)
      → IsBetween r
      → (h : IsSent f)
      → IsWritten size positive task
          (is_empty fs)
          f.rel_path
          r.disk
          (upload_output_files size task fs)
          h.bytes
          r
          (upload_output_files size task (f ∷ fs))
  unfolding upload_output_files Handles
  one_file r f fs between h =
      let rest = upload_output_files size task fs in
      let sent : map (chunk_of task (is_empty fs) f.rel_path) (pieces size (length h.bytes) h.bytes)
          ≡ file_chunks size task (is_empty fs) f =
        sent_chunks f fs h in
      subst
        (λ cs.
          IsWritten size positive task (is_empty fs) f.rel_path r.disk rest h.bytes r (cs ++ rest))
        sent
        (file-IsWritten size positive task (is_empty fs) f.rel_path r.disk rest (length h.bytes)
          h.bytes [] r (omega arith) h.some_bytes
          (λ content is_last.
            first-IsHandled r (chunk_of task (is_empty fs) f.rel_path (content, is_last)) between
              h.named known))

  files-IsReceived :
      (r : Receiving) (files : List OutputFile)
      → IsBetween r
      → All IsSent files
      → Distinct files
      → IsReceived r files
  unfolding upload_output_files receive_file_stream
  files-IsReceived r [] between sent distinct = record {
    after = r;
    ends = refl;
    written = tt;
    others = λ q h. refl;
  }
  files-IsReceived r (f ∷ []) between (s, sent) distinct =
      let w = one_file r f [] between s in
      record {
        after = w.after;
        ends = w.goes_on;
        written = (w.done.bytes ∙ sym s.readable, tt);
        others = λ q (other, h). w.done.others q other;
      }
  files-IsReceived r (f ∷ g ∷ fs) between (s, sent) (fresh, distinct) =
      let w = one_file r f (g ∷ fs) between s in
      let later = files-IsReceived w.after (g ∷ fs) (done-IsBetween _ _ _ _ w.done) sent distinct in
      record {
        after = later.after;
        ends = w.goes_on ∙ later.ends;
        written = (later.others f.rel_path fresh ∙ w.done.bytes ∙ sym s.readable, later.written);
        others = λ q (other, h). later.others q h ∙ w.done.others q other;
      }

  -- If every file can be read and has contents, no path is empty, and no two files have the same
  -- path, then the upload is received without an error and each file stands on the master's disk
  -- with the contents it had on the worker, for any positive size of the chunks, any named task,
  -- and whatever was on the disk before, as long as the operating system fails nowhere.
  pub upload-round_trip :
      (disk : Dict (List ℕ)) (files : List OutputFile)
      → All IsSent files
      → Distinct files
      → let received =
          receive_file_stream
            (start_receiving disk)
            (undisturbed (upload_output_files size task files)) in
        (received.0 ≡ none) × All (λ f. lookup f.rel_path received.1.disk ≡ f.contents) files
  upload-round_trip disk files sent distinct =
      let between : IsBetween (start_receiving disk) = record { opened = refl; current = refl } in
      let r = files-IsReceived (start_receiving disk) files between sent distinct in
      (
        ap (λ s. s.0) r.ends,
        subst (λ s. All (λ f. lookup f.rel_path s.1.disk ≡ f.contents) files) (sym r.ends)
            r.written,
      )
