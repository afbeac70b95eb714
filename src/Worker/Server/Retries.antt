-- ===== src/Worker/Server/Retries.antt =====
-- The loop of reportCancellationWithRetry, worker/internal/server/worker_server.go.
use Prim.Native.Nat.{◌+◌, ◌-◌, ◌≤◌, ◌<◌, ◌^◌}
use agentic_cloud_cluster.Base.{
  ℕ, zero, suc, ◌≡◌, refl, sym, ap, ◌∙◌, Bool, true, false, List, [], ◌∷◌, arith, Bool-cases, inl,
  inr, eqb, if◌then◌else◌,
}
use agentic_cloud_cluster.Worker.Monitor.{
  Answer, dial_failed, call_failed, acknowledged, report_task_result,
}
use agentic_cloud_cluster.Worker.Server.{Retried, retry_report}

-- The master answers at all, if only by a refusal.
abbrev pub is_answered : Answer → Bool
is_answered dial_failed = false
is_answered call_failed = false
is_answered (acknowledged success) = true

-- The pauses after `n` attempts, from the attempt of the given number on: they double.
abbrev pub pauses : ℕ → ℕ → List ℕ
pauses attempt zero = []
pauses attempt (suc n) = 2 ^ (attempt - 1) ∷ pauses (attempt + 1) n

-- What the loop comes to with at most `most` attempts from `attempt` on.
pub record IsRetried (attempt most : ℕ) (answers : ℕ → Answer) (r : Retried) : Type 0 where
  pub bounded : r.made ≤ most
  pub tried : 0 < most → 0 < r.made
  pub silent : (i : ℕ) → i + 1 < r.made → is_answered (answers (attempt + i)) ≡ false
  pub last : (i : ℕ) → i + 1 ≡ r.made → is_answered (answers (attempt + i)) ≡ r.confirmed
  pub exhausted : r.confirmed ≡ false → r.made ≡ most
  pub paused : r.slept ≡ pauses attempt (r.made - 1)

report-is_answered : (a : Answer) → report_task_result a ≡ is_answered a
unfolding report_task_result
report-is_answered dial_failed = refl
report-is_answered call_failed = refl
report-is_answered (acknowledged success) = refl

pauses_step :
    (attempt n : ℕ) → 0 < n → pauses attempt n ≡ 2 ^ (attempt - 1) ∷ pauses (attempt + 1) (n - 1)
pauses_step attempt zero h = elim h [ ]
pauses_step attempt (suc n) h = let e : suc n - 1 ≡ n = omega arith in rw e

module _ (attempt : ℕ) (answers : ℕ → Answer) where
  step_silent :
      (made : ℕ)
      → is_answered (answers attempt) ≡ false
      → ((i : ℕ) → i + 1 < made → is_answered (answers (attempt + 1 + i)) ≡ false)
      → (i : ℕ) → i + 1 < made + 1
      → is_answered (answers (attempt + i)) ≡ false
  step_silent made now later zero h = let e : attempt + 0 ≡ attempt = omega arith in rw e now
  step_silent made now later (suc i) h =
      let e : attempt + suc i ≡ attempt + 1 + i = omega arith in rw e (later i (omega arith))

  step_last :
      (made : ℕ) (b : Bool)
      → 0 < made
      → ((i : ℕ) → i + 1 ≡ made → is_answered (answers (attempt + 1 + i)) ≡ b)
      → (i : ℕ) → i + 1 ≡ made + 1
      → is_answered (answers (attempt + i)) ≡ b
  step_last made b some_left later zero h = absurd (omega arith)
  step_last made b some_left later (suc i) h =
      let e : attempt + suc i ≡ attempt + 1 + i = omega arith in rw e (later i (omega arith))

  only_first :
      (b : Bool)
      → is_answered (answers attempt) ≡ b
      → (i : ℕ) → i + 1 ≡ 1
      → is_answered (answers (attempt + i)) ≡ b
  only_first b now i h = let e : attempt + i ≡ attempt = omega arith in rw e now

  -- An attempt without an answer, before what the loop comes to from the next one on.
  goes_on :
      (most : ℕ) (later : Retried)
      → is_answered (answers attempt) ≡ false
      → (later.made ≡ 0 → later.confirmed ≡ false)
      → IsRetried (attempt + 1) most answers later
      → IsRetried attempt (suc most) answers (record {
        confirmed = later.confirmed;
        made = later.made + 1;
        slept = if eqb most 0 then [] else 2 ^ (attempt - 1) ∷ later.slept;
      })
  goes_on zero later now none r = record {
    bounded = omega (arith, r.bounded);
    tried = λ h. omega arith;
    silent = step_silent later.made now r.silent;
    last = λ i h.
        only_first false now i (omega (arith, r.bounded)) ∙ sym (none (omega (arith, r.bounded)));
    exhausted = λ h. omega (arith, r.exhausted h);
    paused = let e : later.made + 1 - 1 ≡ 0 = omega (arith, r.bounded) in rw e;
  }
  goes_on (suc most) later now none r = record {
    bounded = omega (arith, r.bounded);
    tried = λ h. omega arith;
    silent = step_silent later.made now r.silent;
    last = step_last later.made later.confirmed (r.tried (omega arith)) r.last;
    exhausted = λ h. omega (arith, r.exhausted h);
    paused =
        let e : later.made + 1 - 1 ≡ later.made = omega arith in
        let more : eqb (suc most) 0 ≡ false = ground arith in
        rw (e, more)
          (ap (λ s. 2 ^ (attempt - 1) ∷ s) r.paused
            ∙ sym (pauses_step attempt later.made (r.tried (omega arith))));
  }

none_made :
    (attempt most : ℕ) (answers : ℕ → Answer)
    → (retry_report attempt most answers).made ≡ 0
    → (retry_report attempt most answers).confirmed ≡ false
unfolding retry_report
none_made attempt zero answers h = refl
none_made attempt (suc most) answers h = ground arith

-- The loop stops at the first attempt that the master answers, also if it answers by a refusal; if it
-- answers none, all attempts are made. It sleeps between the attempts and twice as long each time.
pub retry_report-IsRetried :
    (attempt most : ℕ) (answers : ℕ → Answer)
    → IsRetried attempt most answers (retry_report attempt most answers)
unfolding retry_report
retry_report-IsRetried attempt zero answers = record {
  bounded = omega arith;
  tried = λ h. h;
  silent = λ i h. absurd (omega arith);
  last = λ i h. absurd (omega arith);
  exhausted = λ h. refl;
  paused = refl;
}
retry_report-IsRetried attempt (suc most) answers =
    let later = retry_report-IsRetried (attempt + 1) most answers in
    let now = report-is_answered (answers attempt) in
    elim (Bool-cases (report_task_result (answers attempt))) [
      | inl answered ↦ rw answered (record {
        bounded = omega arith;
        tried = λ h. omega arith;
        silent = λ i h. absurd (omega arith);
        last = only_first attempt answers true (sym now ∙ answered);
        exhausted = λ h. absurd (cc);
        paused = refl;
      })
      | inr silent ↦ rw silent (
          goes_on attempt answers most (retry_report (attempt + 1) most answers) (sym now ∙ silent)
            (none_made (attempt + 1) most answers) later)
    ]
