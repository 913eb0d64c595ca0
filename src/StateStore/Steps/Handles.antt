-- ===== src/StateStore/Steps/Handles.antt =====
-- Every handle that the store gave out is held by one job or is settled, and not both.
use claudex.Prelude.{
  ℕ, ◌+◌, ◌≤◌, ◌≡◌, refl, sym, subst, ap, [], ◌∷◌, ◌++◌, Option, none, some, Bool, true, nat_eq,
  bit, select, Bool-cases, inl, inr, arith, if_keeps,
}
use claudex.Prelude.Int.{ℤ}
use claudex.Dict.{get}
use claudex.StateStore.Queue.{
  Job, StateStore, Request, Failure, integrity_error, storage_full, transient, submit,
}
use claudex.StateStore.Tables.{Database}
use claudex.StateStore.Open.{new_store}
use claudex.StateStore.Writer.{
  Answer, commits, fails_to_apply, fails_to_commit, take, wait_for_next_job, mark_done, handles,
  fail, retry_after, backoff, succeed, is_retired, execute, delayed, is_fenced, attempt, close,
}
use claudex.StateStore.Steps.Taken.{take_keeps}
use claudex.StateStore.Steps.{
  Operation, perform_keeps, request_of, Step, operates, closes, wakes, attempts, Run, Run_keeps,
  Anything,
}
use claudex.StateStore.Steps.Crash.{CrashesLate, Step-CrashesLate}
use claudex.StateStore.Steps.Held.{
  count, job_handles, is_settled, is_issued, IsAnswerable, count-append, handles-append,
  handles-enqueue, handles-hurry, handles-hurry_if, handles-due_at, handles-select,
  settled-mark_done, handles-Splits, handles-head,
}

module _ (s : StateStore) (ok : IsAnswerable s) where
  submit-IsAnswerable : (q : Request) (now : ℤ) → IsAnswerable (submit q now s).0
  unfolding submit
  submit-IsAnswerable q now = elim (Bool-cases s.closed) [
    | inl shut ↦ rw shut ok
    | inr open' ↦ rw open' (
      omega (arith, ok.0),
      λ n. rw (handles-hurry_if q.high_priority now) (
          ground
            (arith, ok.0, ok.1 n, handles-enqueue q s.next_sequence now s.debounce s.pending n)),
    )
  ]

  pub close-IsAnswerable : (now : ℤ) → IsAnswerable (close now s)
  unfolding close
  close-IsAnswerable now = elim (Bool-cases s.closed) [
    | inl shut ↦ rw shut ok
    | inr open' ↦ rw (open', handles-hurry now s.pending, handles-due_at now s.retrying) ok
  ]

  take-IsAnswerable :
      s.writer_job ≡ none → (now : ℤ) → IsAnswerable (take (wait_for_next_job now s) s)
  take-IsAnswerable idle now =
      take_keeps IsAnswerable s ok
        (λ job js e. (
          ok.0,
          λ n.
              omega
                (arith, ok.1 n, handles-head job js n e, ap (λ w. count n (job_handles w)) idle),
        ))
        (λ job rest e. (
          ok.0,
          λ n. omega (arith, ok.1 n, handles-Splits n e, ap (λ w. count n (job_handles w)) idle),
        ))
        now

-- The same while the writer is at a job that it took.
abbrev pub IsAttempting : Job → StateStore → Type 0
IsAttempting job s =
    (1 ≤ s.next_sequence)
    × (s.writer_job ≡ none)
    × ((n : ℕ)
        → count n (handles s.pending)
            + count n (handles s.retrying)
            + count n job.pending_writes
            + bit (is_settled n s)
          ≡ bit (is_issued n s))

execute-IsAttempting :
    (job : Job) (s : StateStore) → IsAttempting job s → IsAttempting job (execute job s)
unfolding execute
execute-IsAttempting job s h = elim (Bool-cases (is_fenced s.committed_barriers job)) [
  | inl fenced ↦ rw fenced h
  | inr free ↦ rw free h
]

module _ (job : Job) (s : StateStore) (h : IsAttempting job s) where
  idle_counts : (n : ℕ) → count n (job_handles s.writer_job) ≡ 0
  idle_counts n = ap (λ w. count n (job_handles w)) h.1

  settled-fits : (n : ℕ) → count n job.pending_writes + bit (is_settled n s) ≤ 1
  settled-fits n = ground (arith, h.2 n)

  settle_all :
      (error : Option Failure) (degraded : Bool)
      → IsAnswerable (record s {
        persistence_degraded = degraded;
        settled = mark_done job.pending_writes error s.settled;
      })
  settle_all error degraded = (
    h.0,
    λ n. omega (
      arith,
      h.2 n,
      idle_counts n,
      settled-mark_done job.pending_writes error s.settled n (settled-fits n),
    ),
  )

  retry_after-IsAnswerable : (wait : Option ℕ) (now : ℤ) → IsAnswerable (retry_after wait now job s)
  unfolding handles
  retry_after-IsAnswerable none now = (h.0, λ n. omega (arith, h.2 n))
  retry_after-IsAnswerable (some wait) now = (
    h.0,
    λ n. omega (
      arith,
      h.2 n,
      idle_counts n,
      handles-append s.retrying (delayed wait now job ∷ []) n,
      count-append n job.pending_writes [],
    ),
  )

  fail-IsAnswerable : (failure : Failure) (now : ℤ) → IsAnswerable (fail failure now job s)
  unfolding fail
  fail-IsAnswerable integrity_error now = settle_all (some integrity_error) s.persistence_degraded
  fail-IsAnswerable storage_full now = settle_all (some storage_full) true
  fail-IsAnswerable transient now =
      if_keeps IsAnswerable s.stopping (settle_all (some transient) true) (
        retry_after-IsAnswerable
          (backoff s.retry_backoff_initial s.retry_backoff_max (job.attempts + 1)) now)

  succeed-IsAnswerable : IsAnswerable (succeed job s)
  unfolding succeed
  succeed-IsAnswerable =
      let gone = select (λ retry. is_retired job retry) s.retrying in
      let split = handles-select (λ retry. is_retired job retry) s.retrying in
      let both = λ (n : ℕ). count-append n job.pending_writes (handles gone) in
      (
        h.0,
        λ n.
            let fits : count n (job.pending_writes ++ handles gone) + bit (is_settled n s) ≤ 1 =
              ground (arith, h.2 n, split n, both n) in
            omega (
              arith,
              h.2 n,
              idle_counts n,
              split n,
              both n,
              settled-mark_done (job.pending_writes ++ handles gone) none s.settled n fits,
            ),
      )

pub attempt-IsAnswerable :
    (answer : Answer) (now : ℤ) (job : Job) (s : StateStore)
    → IsAttempting job s
    → IsAnswerable (attempt answer now job s)
unfolding attempt
attempt-IsAnswerable commits now job s h = succeed-IsAnswerable job _ (execute-IsAttempting job s h)
attempt-IsAnswerable (fails_to_apply failure) now job s h = fail-IsAnswerable job s h failure now
attempt-IsAnswerable (fails_to_commit failure) now job s h =
    fail-IsAnswerable job (execute job s) (execute-IsAttempting job s h) failure now

pub Step-IsAnswerable :
    {Allowed : Operation → Type 0} (s t : StateStore)
    → Step Allowed s t
    → IsAnswerable s
    → IsAnswerable t
Step-IsAnswerable s t (operates op now allowed e) ok = subst IsAnswerable (sym e) (
    perform_keeps IsAnswerable op now s (λ d. ok)
      (λ u h. submit-IsAnswerable u h (request_of op) now) ok)
Step-IsAnswerable s t (closes now e) ok = subst IsAnswerable (sym e) (close-IsAnswerable s ok now)
Step-IsAnswerable s t (wakes now idle e) ok =
    subst IsAnswerable (sym e) (take-IsAnswerable s ok idle now)
Step-IsAnswerable s t (attempts answer now job alive e e') ok = subst IsAnswerable (sym e') (
    attempt-IsAnswerable answer now job _
      (ok.0, refl, λ n. omega (arith, ok.1 n, ap (λ w. count n (job_handles w)) e)))

-- If every handle that the store gave out is held by exactly one job or is settled, and not both, and
-- no other number is held or settled, this is still so after any run of operations, attempts with
-- any answers of SQLite, and closes. And if the writer's thread is alive, or has ended at a job, which
-- it still holds, that failed more than 1024 times, this is still so after the run.
pub Run-IsAnswerable :
    {s t : StateStore}
    → IsAnswerable s
    → CrashesLate s
    → Run Anything s t
    → IsAnswerable t × CrashesLate t
Run-IsAnswerable ok late r =
    (Run_keeps IsAnswerable Step-IsAnswerable r ok, Run_keeps CrashesLate Step-CrashesLate r late)

-- A store that was just opened has given out no handle.
pub new_store-IsAnswerable :
    (debounce interval : ℤ) (initial longest : ℕ) (db : Database)
    → IsAnswerable (new_store debounce interval initial longest db)
unfolding get handles
new_store-IsAnswerable debounce interval initial longest db = (omega arith, λ n. ground arith)
