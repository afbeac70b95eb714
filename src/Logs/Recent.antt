-- ===== src/Logs/Recent.antt =====
-- The recent lines that a broadcaster of log_broadcaster.go keeps for late subscribers.
use Prim.Native.Nat.{◌+◌, ◌-◌}
use agentic_cloud_cluster.Base.{
  ℕ, zero, suc, String, ◌≡◌, ◌≤◌, ◌<◌, refl, sym, ap, ◌∙◌, List, [], ◌∷◌, ◌++◌, arith, true, false,
  length, length-append, length-drop, append-nil, append_assoc, leb, drop, Bool-cases, inl, inr,
}
use agentic_cloud_cluster.Logs.{
  LogLine, TaskLogBroadcaster, new_task_log_broadcaster, remember, broadcast, broadcast_all,
}

module _ {A : Type 0} where
  -- the last `max` entries of a list
  abbrev pub last : ℕ → List A → List A
  last max xs = drop (length xs - max) xs

  drop-append : (n : ℕ) (xs ys : List A) → n ≤ length xs → drop n (xs ++ ys) ≡ drop n xs ++ ys
  drop-append zero xs ys h = refl
  drop-append (suc n) [] ys h = absurd (omega arith)
  drop-append (suc n) (x ∷ xs) ys h = drop-append n xs ys (omega arith)

  drop-drop : (n : ℕ) (xs : List A) → drop 1 (drop n xs) ≡ drop (suc n) xs
  drop-drop zero xs = refl
  drop-drop (suc n) [] = refl
  drop-drop (suc n) (x ∷ xs) = drop-drop n xs

full_length :
    (max : ℕ) (seen : List LogLine) → leb max (length (last max seen)) ≡ true → max ≤ length seen
full_length max seen h = ground (arith, h, length-drop (length seen - max) seen)

room_length :
    (max : ℕ) (seen : List LogLine) → leb max (length (last max seen)) ≡ false → length seen < max
room_length max seen h = ground (arith, h, length-drop (length seen - max) seen)

longer : (seen : List LogLine) (line : LogLine) → length (seen ++ line ∷ []) ≡ length seen + 1
longer seen line = length-append seen (line ∷ [])

le_sub_zero : (m n : ℕ) → m ≤ n → m - n ≡ 0
le_sub_zero m n h = omega arith

remember_full :
    (max : ℕ) (seen : List LogLine) (line : LogLine)
    → 0 < max
    → max ≤ length seen
    → drop 1 (last max seen) ++ line ∷ [] ≡ last max (seen ++ line ∷ [])
remember_full max seen line positive h =
    let e : suc (length seen - max) ≡ length (seen ++ line ∷ []) - max =
      omega (arith, longer seen line) in
    ap (λ r. r ++ line ∷ []) (drop-drop (length seen - max) seen)
    ∙ sym (drop-append (suc (length seen - max)) seen (line ∷ []) (omega arith))
    ∙ ap (λ n. drop n (seen ++ line ∷ [])) e

remember_room :
    (max : ℕ) (seen : List LogLine) (line : LogLine)
    → length seen < max
    → last max seen ++ line ∷ [] ≡ last max (seen ++ line ∷ [])
remember_room max seen line h =
    let e : 0 ≡ length (seen ++ line ∷ []) - max = omega (arith, longer seen line) in
    ap (λ n. drop n seen ++ line ∷ []) (le_sub_zero (length seen) max (omega arith))
    ∙ ap (λ n. drop n (seen ++ line ∷ [])) e

remember-last :
    (max : ℕ) (seen : List LogLine) (line : LogLine)
    → 0 < max
    → remember max (last max seen) line ≡ last max (seen ++ line ∷ [])
unfolding remember
remember-last max seen line positive = elim (Bool-cases (leb max (length (last max seen)))) [
  | inl full ↦ rw full (remember_full max seen line positive (full_length max seen full))
  | inr room ↦ rw room (remember_room max seen line (room_length max seen room))
]

recent_from :
    (b : TaskLogBroadcaster) (seen lines : List LogLine)
    → 0 < b.max_recent_logs
    → b.recent_logs ≡ last b.max_recent_logs seen
    → (broadcast_all b lines).recent_logs ≡ last b.max_recent_logs (seen ++ lines)
unfolding broadcast_all broadcast
recent_from b seen [] positive h = h ∙ ap (last b.max_recent_logs) (sym (append-nil seen))
recent_from b seen (line ∷ lines) positive h =
    recent_from (broadcast b line) (seen ++ line ∷ []) lines positive (
      ap (λ r. remember b.max_recent_logs r line) h
      ∙ remember-last b.max_recent_logs seen line positive)
    ∙ ap (last b.max_recent_logs) (append_assoc seen (line ∷ []) lines)

-- After any lines, a new broadcaster keeps exactly the last thousand of them, in their order; all of
-- them while there are fewer.
pub recent_logs-broadcast_all :
    (task_id container_id : String) (lines : List LogLine)
    → (broadcast_all (new_task_log_broadcaster task_id container_id) lines).recent_logs
      ≡ drop (length lines - 1000) lines
unfolding new_task_log_broadcaster
recent_logs-broadcast_all task_id container_id lines =
    recent_from (new_task_log_broadcaster task_id container_id) [] lines (omega arith) refl
