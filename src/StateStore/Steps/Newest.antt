-- ===== src/StateStore/Steps/Newest.antt =====
-- Of the payloads of one row, an older one is never written after a newer one.
use claudex.Prelude.{
  ℕ, ◌≤◌, ◌<◌, ◌≡◌, subst, List, [], ◌∷◌, Option, none, some, true, All, All-selected, ap, ==_iff,
  All-weaken, select, Bool-cases, inl, inr, arith, not,
}
use claudex.Prelude.Int.{ℤ}
use claudex.StateStore.Keys.{Scope, row_scope_eq}
use claudex.StateStore.Queue.{Job, StateStore, new_job, coalesce, hurry, same_scope}
use claudex.StateStore.Writer.{commits, succeed, is_retired, handles, execute, is_fenced, attempt}
use claudex.StateStore.Steps.Held.{job_handles, count, count-append, IsAnswerable, held}
use claudex.StateStore.Steps.Jobs.{AllOption, Every, Kept, Step-Every}
use claudex.StateStore.Steps.Order.{IsNewer, IsOvertaken, IsStamped}
use claudex.StateStore.Steps.InOrder.{IsInOrder}
use claudex.StateStore.Steps.{Run, Run_keeps, Anything}

-- A job of the row has a payload that was submitted after `n`.
abbrev pub IsAfter : Scope → ℕ → Job → Type 0
IsAfter k n j = same_scope (some k) j.scope_key ≡ true → n < j.payload_sequence

abbrev pub AreAfter : Scope → ℕ → StateStore → Type 0
AreAfter k n = Every (λ m. n < m) (λ m. IsAfter k n)

IsAfter-kept : (k : Scope) (n : ℕ) → Kept Anything (λ m. n < m) (λ m. IsAfter k n)
unfolding hurry new_job coalesce
IsAfter-kept k n = record {
  bound_grows = λ m g. omega (arith, g);
  grows = λ m j h. h;
  hurried = λ m now j h. h;
  made_due = λ m now j h. h;
  put_off = λ m wait now j h. h;
  counted = λ m j h. h;
  fresh = λ op allowed m now debounce g e. g;
  merged = λ op allowed m j g h e. g;
}

handles_held :
    (n : ℕ) (jobs : List Job)
    → All (IsStamped n) jobs
    → All (λ (r : Job). 1 ≤ count r.payload_sequence (handles jobs)) jobs
unfolding handles
handles_held n [] h = tt
handles_held n (j ∷ js) h = (
  omega (arith, count-append j.payload_sequence j.pending_writes (handles js), h.0),
  All-weaken (λ (r : Job). 1 ≤ count r.payload_sequence (handles js)) _
      (λ r p. omega (arith, count-append r.payload_sequence j.pending_writes (handles js), p)) js
      (handles_held n js h.1),
)

same_scope_sym :
    (k : Scope) (w : Option Scope) → same_scope (some k) w ≡ true → same_scope w (some k) ≡ true
same_scope_sym k none h = cc
same_scope_sym k (some j) h = ground (arith, ==_iff j k, ==_iff k j)

module _ (s : StateStore) (job : Job) (k : Scope) (ordered : IsInOrder s)
    (answerable : IsAnswerable s) (at_job : s.writer_job ≡ some job)
    (scoped : job.scope_key ≡ some k) where
  abbrev idle : StateStore
  idle = record s { writer_job = none }

  job-IsStamped : IsStamped s.next_sequence job
  job-IsStamped = subst (AllOption (IsStamped s.next_sequence)) at_job ordered.0.3

  -- Two jobs do not carry one payload.
  other_payload :
      (r : Job)
      → 1 ≤ count r.payload_sequence (handles s.retrying)
      → r.payload_sequence ≡ job.payload_sequence
      → ⊥
  other_payload r h e =
      let n = job.payload_sequence in
      let again : 1 ≤ count n (handles s.retrying) =
        subst (λ x. 1 ≤ count x (handles s.retrying)) e h in
      let fits : held n s ≤ 1 = ground (arith, answerable.1 n) in
      omega (arith, again, fits, job-IsStamped, ap (λ w. count n (job_handles w)) at_job)

  queued-IsAfter : (j : Job) → IsNewer job j → IsAfter k job.payload_sequence j
  queued-IsAfter j h e = h (rw scoped e)

  kept-IsAfter :
      (r : Job)
      → (1 ≤ count r.payload_sequence (handles s.retrying)) × (not (is_retired job r) ≡ true)
      → IsAfter k job.payload_sequence r
  unfolding is_retired
  kept-IsAfter r h e =
      let same : same_scope r.scope_key job.scope_key ≡ true =
        rw scoped (same_scope_sym k r.scope_key e) in
      let differ = other_payload r h.0 in ground (arith, same, h.1)

  IsAfter-commit :
      (job.payload_sequence < s.next_sequence)
      × All (IsAfter k job.payload_sequence) s.pending
      × All (IsAfter k job.payload_sequence) (select (λ r. not (is_retired job r)) s.retrying)
      × Unit {0}
  IsAfter-commit = (
    job-IsStamped.1,
    All-weaken (IsNewer job) (IsAfter k job.payload_sequence) queued-IsAfter s.pending
        (subst (AllOption (IsOvertaken s.pending)) at_job ordered.1.3),
    All-weaken _ (IsAfter k job.payload_sequence) kept-IsAfter _ (
        All-selected _ (λ r. not (is_retired job r)) s.retrying
          (handles_held s.next_sequence s.retrying ordered.0.2)),
    tt,
  )

  committed-AreAfter : (now : ℤ) → AreAfter k job.payload_sequence (attempt commits now job idle)
  unfolding attempt succeed execute
  committed-AreAfter now = elim (Bool-cases (is_fenced s.committed_barriers job)) [
    | inl fenced ↦ rw fenced IsAfter-commit
    | inr free ↦ rw free IsAfter-commit
  ]

  -- When a job of a row has committed, in a store whose queue is in order and whose handles are each
  -- held once, every job of that row that the store has from then on, in the queue, delayed or
  -- attempted, carries a payload that was submitted later: no older payload of the row is written.
  pub commit_newest :
      (now : ℤ) {t : StateStore}
      → Run Anything (attempt commits now job (record s { writer_job = none })) t
      → AreAfter k job.payload_sequence t
  commit_newest now r =
      Run_keeps (AreAfter k job.payload_sequence)
        (Step-Every (λ m. job.payload_sequence < m) (λ m. IsAfter k job.payload_sequence)
          (IsAfter-kept k job.payload_sequence))
        r (committed-AreAfter now)
