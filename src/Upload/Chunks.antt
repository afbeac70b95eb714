-- ===== src/Upload/Chunks.antt =====
-- What handling one chunk of a file does to the receiver of file_storage.go.
use agentic_cloud_cluster.Base.{
  ℕ, zero, suc, String, ◌≡◌, refl, ap, true, false, none, some, List, [], ◌∷◌, ◌++◌, ◌==◌, arith,
  drop, eq_iff,
}
use agentic_cloud_cluster.Dict.{Dict, lookup, insert, lookup-insert, lookup-modify}
use agentic_cloud_cluster.Proto.{FileChunk}
use agentic_cloud_cluster.Upload.{
  take, Receiving, DiskAnswers, start_metadata, open_file, write_chunk, receive_chunk,
}

abbrev pub all_ok : DiskAnswers
all_ok = record {
  task_directory_ok = true;
  file_directory_ok = true;
  open_ok = true;
  write_ok = true;
}

-- the chunks, with an operating system that always succeeds
abbrev pub undisturbed : List FileChunk → List (FileChunk × DiskAnswers)
undisturbed [] = []
undisturbed (c ∷ cs) = (c, all_ok) ∷ undisturbed cs

pub take-drop : (n : ℕ) (xs : List ℕ) → take n xs ++ drop n xs ≡ xs
take-drop zero xs = refl
take-drop (suc n) [] = refl
take-drop (suc n) (x ∷ xs) = ap (λ r. x ∷ r) (take-drop n xs)

-- The receiver before a chunk of the file `path`, with `got` of it written and the other files as in
-- `old`: a new file, if nothing is open, or the file that is open.
pub record IsAt (path : String) (got : List ℕ) (old : Dict (List ℕ)) (r : Receiving) : Type 0 where
  pub opened : r.is_open ≡ true
  pub current : r.current_file_path ≡ path
  pub named : (r.metadata.task_id == "") ≡ false
  pub bytes : lookup path r.disk ≡ some got
  pub others : (q : String) → (path == q) ≡ false → lookup q r.disk ≡ lookup q old

-- the receiver between two files
pub record IsDone (path : String) (got : List ℕ) (old : Dict (List ℕ)) (r : Receiving)
    : Type 0 where
  pub opened : r.is_open ≡ false
  pub current : r.current_file_path ≡ ""
  pub named : (r.metadata.task_id == "") ≡ false
  pub bytes : lookup path r.disk ≡ some got
  pub others : (q : String) → (path == q) ≡ false → lookup q r.disk ≡ lookup q old

module _ (path : String) (got : List ℕ) (old : Dict (List ℕ)) (r : Receiving) (c : FileChunk) where
  next-ok : IsAt path got old r → c.file_path ≡ path → (receive_chunk r c all_ok).0 ≡ none
  unfolding receive_chunk start_metadata open_file write_chunk
  next-ok h same = ground (arith, h.opened, h.current, h.named, eq_iff path path)

  next-IsAt :
      IsAt path got old r
      → c.file_path ≡ path
      → c.is_last_chunk ≡ false
      → IsAt path (got ++ c.content) old (receive_chunk r c all_ok).1
  unfolding receive_chunk start_metadata open_file write_chunk
  next-IsAt h same more = record {
    opened = ground (arith, h.opened, h.current, h.named, eq_iff path path);
    current = ground (arith, h.opened, h.current, h.named, eq_iff path path);
    named = ground (arith, h.opened, h.current, h.named, eq_iff path path);
    bytes = ground (
      arith,
      h.opened,
      h.current,
      h.named,
      h.bytes,
      eq_iff path path,
      lookup-modify path path (λ o. o ++ c.content) r.disk,
    );
    others = λ q other. ground (
      arith,
      h.opened,
      h.current,
      h.named,
      other,
      eq_iff path path,
      h.others q other,
      lookup-modify path q (λ o. o ++ c.content) r.disk,
    );
  }

  next-IsDone :
      IsAt path got old r
      → c.file_path ≡ path
      → c.is_last_chunk ≡ true
      → IsDone path (got ++ c.content) old (receive_chunk r c all_ok).1
  unfolding receive_chunk start_metadata open_file write_chunk
  next-IsDone h same last = record {
    opened = ground (arith, h.opened, h.current, h.named, eq_iff path path);
    current = ground (arith, h.opened, h.current, h.named, eq_iff path path);
    named = ground (arith, h.opened, h.current, h.named, eq_iff path path);
    bytes = ground (
      arith,
      h.opened,
      h.current,
      h.named,
      h.bytes,
      eq_iff path path,
      lookup-modify path path (λ o. o ++ c.content) r.disk,
    );
    others = λ q other. ground (
      arith,
      h.opened,
      h.current,
      h.named,
      other,
      eq_iff path path,
      h.others q other,
      lookup-modify path q (λ o. o ++ c.content) r.disk,
    );
  }

-- the receiver with no file open
pub record IsBetween (r : Receiving) : Type 0 where
  pub opened : r.is_open ≡ false
  pub current : r.current_file_path ≡ ""

-- What handling one chunk comes to, if it is the last of its file or not.
pub record IsHandled (path : String) (got : List ℕ) (old : Dict (List ℕ)) (r : Receiving)
    (c : FileChunk) : Type 0 where
  pub ok : (receive_chunk r c all_ok).0 ≡ none
  pub more : c.is_last_chunk ≡ false → IsAt path (got ++ c.content) old (receive_chunk r c all_ok).1
  pub last :
      c.is_last_chunk ≡ true → IsDone path (got ++ c.content) old (receive_chunk r c all_ok).1

pub next-IsHandled :
    (path : String) (got : List ℕ) (old : Dict (List ℕ)) (r : Receiving) (c : FileChunk)
    → IsAt path got old r
    → c.file_path ≡ path
    → IsHandled path got old r c
next-IsHandled path got old r c h same = record {
  ok = next-ok path got old r c h same;
  more = next-IsAt path got old r c h same;
  last = next-IsDone path got old r c h same;
}

module _ (r : Receiving) (c : FileChunk) (h : IsBetween r) (named : (c.file_path == "") ≡ false)
    (known : (c.task_id == "") ≡ false) where
  turned : ("" == c.file_path) ≡ false
  turned = ground (arith, named, eq_iff "" c.file_path, eq_iff c.file_path "")

  pub first-IsHandled : IsHandled c.file_path [] r.disk r c
  unfolding receive_chunk start_metadata open_file write_chunk
  first-IsHandled = record {
    ok = ground (arith, h.opened, h.current, turned);
    more = λ e. record {
      opened = ground (arith, h.opened, h.current, turned);
      current = ground (arith, h.opened, h.current, turned);
      named = ground (arith, h.opened, h.current, turned, known);
      bytes = ground (
        arith,
        h.opened,
        h.current,
        turned,
        eq_iff c.file_path c.file_path,
        lookup-modify c.file_path c.file_path (λ o. o ++ c.content) (insert c.file_path [] r.disk),
        lookup-insert c.file_path c.file_path [] r.disk,
      );
      others = λ q other. ground (
        arith,
        h.opened,
        h.current,
        turned,
        other,
        lookup-modify c.file_path q (λ o. o ++ c.content) (insert c.file_path [] r.disk),
        lookup-insert c.file_path q [] r.disk,
      );
    };
    last = λ e. record {
      opened = ground (arith, h.opened, h.current, turned);
      current = ground (arith, h.opened, h.current, turned);
      named = ground (arith, h.opened, h.current, turned, known);
      bytes = ground (
        arith,
        h.opened,
        h.current,
        turned,
        eq_iff c.file_path c.file_path,
        lookup-modify c.file_path c.file_path (λ o. o ++ c.content) (insert c.file_path [] r.disk),
        lookup-insert c.file_path c.file_path [] r.disk,
      );
      others = λ q other. ground (
        arith,
        h.opened,
        h.current,
        turned,
        other,
        lookup-modify c.file_path q (λ o. o ++ c.content) (insert c.file_path [] r.disk),
        lookup-insert c.file_path q [] r.disk,
      );
    };
  }
