-- ===== src/StateStore/Steps/Crash.antt =====
-- When the writer's thread ends with an exception: at a job that failed more than 1024 times.
use claudex.Prelude.{
  ℕ, ◌+◌, ◌<◌, ◌≡◌, ◌⊎◌, inl, inr, refl, sym, subst, ◌∙◌, Option, none, some, false, Bool-cases,
  arith, if_keeps,
}
use claudex.Prelude.Int.{ℤ}
use claudex.StateStore.Queue.{
  Job, StateStore, Request, Failure, integrity_error, storage_full, transient, submit,
}
use claudex.StateStore.Writer.{
  Answer, commits, fails_to_apply, fails_to_commit, fail, retry_after, backoff, failed_again,
  succeed, execute, attempt, close,
}
use claudex.StateStore.Steps.Taken.{take_keeps}
use claudex.StateStore.Steps.{
  Operation, perform_keeps, request_of, Step, operates, closes, wakes, attempts,
}

pub backoff-eq-none : (initial longest n : ℕ) → backoff initial longest n ≡ none → 1024 < n
unfolding backoff
backoff-eq-none initial longest n h = ground (arith, h)

-- The thread is alive, or has ended at a job that failed more than 1024 times.
abbrev pub CrashesLate : StateStore → Type 0
CrashesLate s =
    (s.writer_crashed ≡ false) ⊎ ((job : Job) × (s.writer_job ≡ some job) × (1024 < job.attempts))

crashed_idle : (s : StateStore) → s.writer_job ≡ none → CrashesLate s → s.writer_crashed ≡ false
crashed_idle s idle (inl alive) = alive
crashed_idle s idle (inr (job, e, late)) = absurd (ground (arith, idle, e))

retry_after-CrashesLate :
    (wait : Option ℕ) (now : ℤ) (job : Job) (s : StateStore)
    → s.writer_crashed ≡ false
    → (wait ≡ none → 1024 < job.attempts + 1)
    → CrashesLate (retry_after wait now job s)
retry_after-CrashesLate none now job s alive late = inr (failed_again job, refl, late refl)
retry_after-CrashesLate (some wait) now job s alive late = inl alive

fail-CrashesLate :
    (failure : Failure) (now : ℤ) (job : Job) (s : StateStore)
    → s.writer_crashed ≡ false
    → CrashesLate (fail failure now job s)
unfolding fail
fail-CrashesLate integrity_error now job s alive = inl alive
fail-CrashesLate storage_full now job s alive = inl alive
fail-CrashesLate transient now job s alive = if_keeps CrashesLate s.stopping (inl alive) (
    retry_after-CrashesLate (backoff s.retry_backoff_initial s.retry_backoff_max (job.attempts + 1))
      now job s alive
      (backoff-eq-none s.retry_backoff_initial s.retry_backoff_max (job.attempts + 1)))

execute_crashed : (job : Job) (s : StateStore) → (execute job s).writer_crashed ≡ s.writer_crashed
unfolding execute
execute_crashed job s = ground arith

attempt-CrashesLate :
    (answer : Answer) (now : ℤ) (job : Job) (s : StateStore)
    → s.writer_crashed ≡ false
    → CrashesLate (attempt answer now job s)
unfolding attempt succeed
attempt-CrashesLate commits now job s alive = inl (execute_crashed job s ∙ alive)
attempt-CrashesLate (fails_to_apply failure) now job s alive =
    fail-CrashesLate failure now job s alive
attempt-CrashesLate (fails_to_commit failure) now job s alive =
    fail-CrashesLate failure now job (execute job s) (execute_crashed job s ∙ alive)

submit-CrashesLate :
    (q : Request) (now : ℤ) (s : StateStore) → CrashesLate s → CrashesLate (submit q now s).0
unfolding submit
submit-CrashesLate q now s h = elim (Bool-cases s.closed) [
  | inl shut ↦ rw shut h
  | inr on ↦ rw on h
]

close-CrashesLate : (now : ℤ) (s : StateStore) → CrashesLate s → CrashesLate (close now s)
unfolding close
close-CrashesLate now s h = elim (Bool-cases s.closed) [ inl shut ↦ rw shut h | inr on ↦ rw on h ]

pub Step-CrashesLate :
    {Allowed : Operation → Type 0} (s t : StateStore)
    → Step Allowed s t
    → CrashesLate s
    → CrashesLate t
Step-CrashesLate s t (operates op now allowed e) h = subst CrashesLate (sym e) (
    perform_keeps CrashesLate op now s (λ d. h) (λ u k. submit-CrashesLate (request_of op) now u k)
      h)
Step-CrashesLate s t (closes now e) h = subst CrashesLate (sym e) (close-CrashesLate now s h)
Step-CrashesLate s t (wakes now idle e) h =
    let alive = crashed_idle s idle h in
    inl (
      subst (λ u. u.writer_crashed ≡ false) (sym e)
        (take_keeps (λ u. u.writer_crashed ≡ false) s alive (λ job js p. alive)
          (λ job rest p. alive) now))
Step-CrashesLate s t (attempts answer now job alive e e') h =
    subst CrashesLate (sym e')
      (attempt-CrashesLate answer now job (record s { writer_job = none }) alive)
