-- ===== src/StateStore/Steps/InOrder.antt =====
-- The order of the queue is kept by every run.
use claudex.Prelude.{
  ℕ, ◌≡◌, sym, subst, List, [], ◌∷◌, Option, none, some, true, All, All-map, All-weaken, All-append,
  map, Bool-cases, inl, inr, arith, not, if_keeps, ◌+◌,
}
use claudex.Prelude.Int.{ℤ}
use claudex.Dict.{Unique}
use claudex.StateStore.Keys.{row_scope_eq}
use claudex.StateStore.Queue.{
  Job, StateStore, Request, submit, enqueue, hurry, hurry_if, Failure, integrity_error,
  storage_full, transient,
}
use claudex.StateStore.Tables.{Database}
use claudex.StateStore.Open.{new_store}
use claudex.StateStore.Queue.View.{payloads, payloads-enqueue, payloads-hurry_if}
use claudex.StateStore.Writer.{
  Answer, commits, fails_to_apply, fails_to_commit, take, wait_for_next_job, fail, retry_after,
  backoff, succeed, is_retired, execute, is_fenced, attempt, close, due_at,
}
use claudex.StateStore.Steps.Taken.{take_keeps}
use claudex.StateStore.Steps.Jobs.{AllOption, All-Splits, All-select, submit-Every, Step-Every}
use claudex.StateStore.Steps.Order.{
  Ascending, IsNewer, IsOvertaken, IsOrdered, IsStamped, AreStamped, IsStamped-kept,
  Ascending-enqueue, Ascending-hurry, Ascending-hurry_if, write_at-Unique, head-IsOvertaken,
  enqueued-IsOvertaken,
}
use claudex.StateStore.Steps.{
  Operation, perform, perform_keeps, request_of, Step, operates, closes, wakes, attempts, Run,
  Run_keeps, Anything,
}

-- The two invariants together.
abbrev pub IsInOrder : StateStore → Type 0
IsInOrder s = AreStamped s × IsOrdered s

AllOption-weaken :
    (P Q : Job → Type 0)
    → ((j : Job) → P j → Q j)
    → (w : Option Job) → AllOption P w
    → AllOption Q w
AllOption-weaken P Q f none h = tt
AllOption-weaken P Q f (some job) h = f job h

All-both : (P Q : Job → Type 0) (js : List Job) → All P js → All Q js → All (λ j. P j × Q j) js
All-both P Q [] p q = tt
All-both P Q (j ∷ js) p q = ((p.0, q.0), All-both P Q js p.1 q.1)

AllOption-both :
    (P Q : Job → Type 0) (w : Option Job)
    → AllOption P w
    → AllOption Q w
    → AllOption (λ j. P j × Q j) w
AllOption-both P Q none p q = tt
AllOption-both P Q (some j) p q = (p, q)

later :
    (q : Request) (now : ℤ) (s : StateStore) (r : Job)
    → IsStamped s.next_sequence r × IsOvertaken s.pending r
    → IsOvertaken
        (hurry_if q.high_priority now (enqueue q s.next_sequence now s.debounce s.pending))
        r
later q now s r h =
    enqueued-IsOvertaken q s.next_sequence now s.debounce q.high_priority s.pending r h.0.1 h.1

hurried-IsOvertaken :
    (now : ℤ) (jobs : List Job) (r : Job)
    → IsOvertaken jobs r
    → IsOvertaken (map (hurry now) jobs) r
unfolding hurry
hurried-IsOvertaken now jobs r h = All-map (IsNewer r) _ (hurry now) (λ j p. p) jobs h

pub submit-IsOrdered :
    (q : Request) (now : ℤ) (s : StateStore)
    → AreStamped s
    → IsOrdered s
    → IsOrdered (submit q now s).0
unfolding submit
submit-IsOrdered q now s st h = elim (Bool-cases s.closed) [
  | inl shut ↦ rw shut h
  | inr on ↦ rw on (
    Ascending-hurry_if q.high_priority now _ (
        Ascending-enqueue q s.next_sequence now s.debounce s.pending
          (All-weaken (IsStamped s.next_sequence) _ (λ j m. omega (arith, m)) s.pending st.1) h.0),
    rw
        (
          payloads-hurry_if q.high_priority now,
          payloads-enqueue q s.next_sequence now s.debounce s.pending,
        )
        (write_at-Unique q.scope_key q.payload (payloads s.pending) h.1),
    All-weaken _ _ (later q now s) s.retrying (All-both _ _ s.retrying st.2 h.2),
    AllOption-weaken _ _ (later q now s) s.writer_job (AllOption-both _ _ s.writer_job st.3 h.3),
  )
]

close-IsOrdered : (now : ℤ) (s : StateStore) → IsOrdered s → IsOrdered (close now s)
unfolding close
close-IsOrdered now s h = elim (Bool-cases s.closed) [
  | inl shut ↦ rw shut h
  | inr on ↦
      rw (on, payloads-hurry_if true now s.pending)
        (
          Ascending-hurry now s.pending h.0,
          h.1,
          All-map (IsOvertaken s.pending) _ (due_at now) (hurried-IsOvertaken now s.pending)
              s.retrying h.2,
          AllOption-weaken _ _ (hurried-IsOvertaken now s.pending) s.writer_job h.3,
        )
]

take-IsOrdered :
    (now : ℤ) (s : StateStore)
    → s.writer_job ≡ none
    → IsOrdered s
    → IsOrdered (take (wait_for_next_job now s) s)
take-IsOrdered now s idle h =
    take_keeps IsOrdered s h
      (λ job js e.
        let parts = head-IsOvertaken job js (subst (λ l. Unique (payloads l)) e h.1) in
        let ascending : Ascending (job ∷ js) = subst Ascending e h.0 in
        (
          ascending.1,
          parts.1,
          All-weaken (IsOvertaken s.pending) (IsOvertaken js)
              (λ r o. (subst (λ l. IsOvertaken l r) e o).1) s.retrying h.2,
          parts.0,
        ))
      (λ job rest sp.
        let parts = All-Splits (IsOvertaken s.pending) s.retrying rest job sp h.2 in
        (h.0, h.1, parts.1, parts.0))
      now

retry_after-IsOrdered :
    (wait : Option ℕ) (now : ℤ) (job : Job) (s : StateStore)
    → IsOvertaken s.pending job
    → IsOrdered s
    → IsOrdered (retry_after wait now job s)
retry_after-IsOrdered none now job s o h = (h.0, h.1, h.2, o)
retry_after-IsOrdered (some wait) now job s o h =
    (h.0, h.1, All-append (IsOvertaken s.pending) s.retrying _ h.2 (o, tt), h.3)

fail-IsOrdered :
    (failure : Failure) (now : ℤ) (job : Job) (s : StateStore)
    → IsOvertaken s.pending job
    → IsOrdered s
    → IsOrdered (fail failure now job s)
unfolding fail
fail-IsOrdered integrity_error now job s o h = h
fail-IsOrdered storage_full now job s o h = h
fail-IsOrdered transient now job s o h = if_keeps IsOrdered s.stopping h (
    retry_after-IsOrdered (backoff s.retry_backoff_initial s.retry_backoff_max (job.attempts + 1))
      now job s o h)

succeed-IsOrdered : (job : Job) (s : StateStore) → IsOrdered s → IsOrdered (succeed job s)
unfolding succeed
succeed-IsOrdered job s h =
    (h.0, h.1, All-select (IsOvertaken s.pending) (λ r. not (is_retired job r)) s.retrying h.2, h.3)

execute_pending : (job : Job) (s : StateStore) → (execute job s).pending ≡ s.pending
unfolding execute
execute_pending job s = ground arith

execute-IsOrdered : (job : Job) (s : StateStore) → IsOrdered s → IsOrdered (execute job s)
unfolding execute
execute-IsOrdered job s h = elim (Bool-cases (is_fenced s.committed_barriers job)) [
  | inl fenced ↦ rw fenced h
  | inr free ↦ rw free h
]

attempt-IsOrdered :
    (answer : Answer) (now : ℤ) (job : Job) (s : StateStore)
    → IsOvertaken s.pending job
    → IsOrdered s
    → IsOrdered (attempt answer now job s)
unfolding attempt
attempt-IsOrdered commits now job s o h = succeed-IsOrdered job _ (execute-IsOrdered job s h)
attempt-IsOrdered (fails_to_apply failure) now job s o h = fail-IsOrdered failure now job s o h
attempt-IsOrdered (fails_to_commit failure) now job s o h =
    fail-IsOrdered failure now job (execute job s) (rw (execute_pending job s) o)
      (execute-IsOrdered job s h)

perform-IsOrdered :
    (op : Operation) (now : ℤ) (s : StateStore) → IsInOrder s → IsOrdered (perform op now s).0
perform-IsOrdered op now s h =
    (perform_keeps IsInOrder op now s (λ d. h)
      (λ t q. (
        submit-Every (λ n. Unit) IsStamped IsStamped-kept op tt now t q.0,
        submit-IsOrdered (request_of op) now t q.0 q.1,
      ))
      h).1

Step-IsOrdered : (s t : StateStore) → Step Anything s t → IsInOrder s → IsOrdered t
Step-IsOrdered s t (operates op now allowed e) h =
    subst IsOrdered (sym e) (perform-IsOrdered op now s h)
Step-IsOrdered s t (closes now e) h = subst IsOrdered (sym e) (close-IsOrdered now s h.1)
Step-IsOrdered s t (wakes now idle e) h = subst IsOrdered (sym e) (take-IsOrdered now s idle h.1)
Step-IsOrdered s t (attempts answer now job alive e e') h = subst IsOrdered (sym e') (
    attempt-IsOrdered answer now job (record s { writer_job = none })
      (subst (AllOption (IsOvertaken s.pending)) e h.1.3) (h.1.0, h.1.1, h.1.2, tt))

-- If the queue's positions ascend, no two queued jobs are of one row, every queued job has a newer
-- payload than an attempted or delayed job of its row, and each job's payload is not older than its
-- position and was given out with a handle that the job holds, then this is still so after any run.
pub Run-IsInOrder : {s t : StateStore} → IsInOrder s → Run Anything s t → IsInOrder t
Run-IsInOrder ok r =
    Run_keeps IsInOrder
      (λ s t st h.
        (Step-Every (λ n. Unit) IsStamped IsStamped-kept s t st h.0, Step-IsOrdered s t st h))
      r ok

-- A store that was just opened has an empty queue.
pub new_store-IsInOrder :
    (debounce interval : ℤ) (initial longest : ℕ) (db : Database)
    → IsInOrder (new_store debounce interval initial longest db)
unfolding payloads
new_store-IsInOrder debounce interval initial longest db = ((tt, tt, tt, tt), (tt, tt, tt, tt))
