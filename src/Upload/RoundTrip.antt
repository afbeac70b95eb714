-- ===== src/Upload/RoundTrip.antt =====
-- The round trip of one file: where the receiver stands when the chunks of a file are through.
use agentic_cloud_cluster.Base.{
  ℕ, zero, suc, ◌≤◌, ◌<◌, String, ◌≡◌, refl, sym, ap, ◌∙◌, subst, Bool, true, false, none, List, [],
  ◌∷◌, ◌++◌, map, arith, length, length-drop, drop, append_assoc, append-nil, if◌then◌else◌,
  Bool-cases, inl, inr,
}
use agentic_cloud_cluster.Dict.{Dict}
use agentic_cloud_cluster.Proto.{Task, FileChunk}
use agentic_cloud_cluster.Upload.{
  take, is_empty, pieces, chunk_of, Receiving, receive_chunk, receive_file_stream,
}
use agentic_cloud_cluster.Upload.Chunks.{
  all_ok, undisturbed, take-drop, IsDone, IsHandled, next-IsHandled,
}

module _ (r : Receiving) (c : FileChunk) (cs : List FileChunk)
    (ok : (receive_chunk r c all_ok).0 ≡ none) where
  stream-first :
      c.is_last_file ≡ true
      → receive_file_stream r (undisturbed (c ∷ cs)) ≡ receive_chunk r c all_ok
  unfolding receive_file_stream
  stream-first h = ground (arith, ok, h)

  stream-stops :
      c.is_last_file ≡ true
      → receive_file_stream r (undisturbed (c ∷ cs)) ≡ (none, (receive_chunk r c all_ok).1)
  stream-stops h = stream-first h ∙ ap (λ e. (e, (receive_chunk r c all_ok).1)) ok

  stream-goes_on :
      c.is_last_file ≡ false
      → receive_file_stream r (undisturbed (c ∷ cs))
        ≡ receive_file_stream (receive_chunk r c all_ok).1 (undisturbed cs)
  unfolding receive_file_stream
  stream-goes_on h = ground (arith, ok, h)

empty_nil : (xs : List ℕ) → is_empty xs ≡ true → xs ≡ []
empty_nil [] h = refl
empty_nil (x ∷ xs) h = absurd (cc)

module _ {N : Type 0} (size : ℕ) (positive : 0 < size) (task : Task N) (is_final : Bool)
    (path : String) (old : Dict (List ℕ)) (rest : List FileChunk) where
  abbrev chunks_from : ℕ → List ℕ → List FileChunk
  chunks_from turns left = map (chunk_of task is_final path) (pieces size turns left)

  -- Where the stream stands when the file is written: at its end, or before the other files.
  pub record IsWritten (got : List ℕ) (r : Receiving) (stream : List FileChunk) : Type 0 where
    pub after : Receiving
    pub done : IsDone path got old after
    pub goes_on :
        receive_file_stream r (undisturbed stream)
        ≡ (if is_final then (none, after) else receive_file_stream after (undisturbed rest))

  unfoldable pub Handles : List ℕ → Receiving → Type 0
  Handles got r =
      (content : List ℕ) (is_last : Bool)
      → IsHandled path got old r (chunk_of task is_final path (content, is_last))

  chunks_from-nil : (turns : ℕ) (left : List ℕ) → left ≡ [] → chunks_from turns left ≡ []
  unfolding pieces
  chunks_from-nil zero left e = refl
  chunks_from-nil (suc turns) [] e = refl
  chunks_from-nil (suc turns) (x ∷ xs) e = absurd (cc e)

  last-goes_on :
      (turns : ℕ) (r : Receiving) (c : FileChunk) (further : List ℕ)
      → (receive_chunk r c all_ok).0 ≡ none
      → is_empty further ≡ true
      → c.is_last_file ≡ is_final
      → receive_file_stream r (undisturbed (c ∷ chunks_from turns further ++ rest)) ≡ (
          if is_final
          then (none, (receive_chunk r c all_ok).1)
          else receive_file_stream (receive_chunk r c all_ok).1 (undisturbed rest))
  last-goes_on turns r c further ok none_left final =
      let cs = chunks_from turns further ++ rest in
      let e : cs ≡ rest =
        ap (λ x. x ++ rest) (chunks_from-nil turns further (empty_nil further none_left)) in
      elim (Bool-cases is_final) [
        | inl yes_final ↦ rw yes_final (stream-stops r c cs ok (final ∙ yes_final))
        | inr no_final ↦ rw no_final (
            stream-goes_on r c cs ok (final ∙ no_final)
            ∙ ap (λ x. receive_file_stream (receive_chunk r c all_ok).1 (undisturbed x)) e)
      ]

  shorter :
      (turns byte : ℕ) (left : List ℕ)
      → length (byte ∷ left) ≤ suc turns
      → length (drop size (byte ∷ left)) ≤ turns
  shorter turns byte left enough = omega (arith, enough, positive, length-drop size (byte ∷ left))

  pub file-IsWritten :
      (turns : ℕ) (left got : List ℕ) (r : Receiving)
      → length left ≤ turns
      → is_empty left ≡ false
      → Handles got r
      → IsWritten (got ++ left) r (chunks_from turns left ++ rest)
  unfolding pieces Handles
  file-IsWritten turns [] got r enough some_left handled = absurd (cc some_left)
  file-IsWritten zero (byte ∷ left) got r enough some_left handled = absurd (omega (arith, enough))
  file-IsWritten (suc turns) (byte ∷ left) got r enough some_left handled =
      let content = take size (byte ∷ left) in
      let further = drop size (byte ∷ left) in
      let c = chunk_of task is_final path (content, is_empty further) in
      let h = handled content (is_empty further) in
      elim (Bool-cases (is_empty further)) [
        | inl none_left ↦
            let whole : content ≡ byte ∷ left =
              sym (append-nil content)
              ∙ ap (λ x. content ++ x) (sym (empty_nil further none_left))
              ∙ take-drop size (byte ∷ left) in
            record {
              after = (receive_chunk r c all_ok).1;
              done =
                  subst (λ x. IsDone path (got ++ x) old (receive_chunk r c all_ok).1) whole
                    (h.last none_left);
              goes_on = last-goes_on turns r c further h.ok none_left (ground (arith, none_left));
            }
        | inr more_left ↦
            let r₁ = (receive_chunk r c all_ok).1 in
            let at = h.more more_left in
            let later =
              file-IsWritten turns further (got ++ content) r₁ (shorter turns byte left enough)
                more_left
                (λ x l.
                  next-IsHandled path (got ++ content) old r₁ (chunk_of task is_final path (x, l))
                    at refl) in
            let whole : (got ++ content) ++ further ≡ got ++ byte ∷ left =
              append_assoc got content further
              ∙ ap (λ x. got ++ x) (take-drop size (byte ∷ left)) in
            record {
              after = later.after;
              done = subst (λ x. IsDone path x old later.after) whole later.done;
              goes_on =
                  stream-goes_on r c (chunks_from turns further ++ rest) h.ok
                    (ground (arith, more_left))
                  ∙ later.goes_on;
            }
      ]
