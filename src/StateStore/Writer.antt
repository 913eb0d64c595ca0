-- ===== src/StateStore/Writer.antt =====
-- The writer thread: `_wait_for_next_job`, `_attempt` and `_writer_loop`, and `close`. What SQLite
-- answers to an attempt is an argument.
use claudex.Prelude.{
  ℕ, ◌+◌, ◌-◌, ◌*◌, ◌^◌, min, max, ◌∷◌, ◌++◌, List, [], String, string_eq, Option, none, some, Bool,
  true, false, not, nat_eq, ◌&&◌, ltb, any, select, map, if◌then◌else◌,
}
use claudex.Prelude.Int.{ℤ, pos, ◌+ℤ◌, ◌-ℤ◌, min_ℤ, max_ℤ, leb_ℤ}
use claudex.Dict.{Dict, get, put}
use claudex.Selection.Pick.{Bytes}
use claudex.Router.State.{RestoreResult}
use claudex.StateStore.Keys.{Barrier, barrier_eq}
use claudex.StateStore.Tables.{Payload, apply_payload, rotate, restore_rows, Database}
use claudex.StateStore.Tables.Restore.{do_restore}
use claudex.StateStore.Queue.{
  Job, StateStore, Failure, integrity_error, storage_full, transient, same_scope, hurry,
}

-- One round of `_wait_for_next_job`: a job is taken, the writer stops, or it sleeps until a time or
-- until it is woken.
pub data Wake : Type 0 where
  run : Job → StateStore → Wake
  stop : Wake
  sleep : Option ℤ → Wake

abbrev pub is_due : ℤ → Option ℤ → Bool
is_due now none = false
is_due now (some t) = leb_ℤ t now

-- The first job whose retry is due, and the others.
abbrev pub prepend : Job → Option (Job × List Job) → Option (Job × List Job)
prepend j none = none
prepend j (some (due, rest)) = some (due, j ∷ rest)

unfoldable pub take_due : ℤ → List Job → Option (Job × List Job)
take_due now [] = none
take_due now (j ∷ js) =
    if is_due now j.next_attempt_at then some (j, js) else prepend j (take_due now js)

abbrev pub soonest : Option ℤ → Option ℤ → Option ℤ
soonest none b = b
soonest (some a) none = some a
soonest (some a) (some b) = some (min_ℤ a b)

unfoldable pub retry_deadline : List Job → Option ℤ
retry_deadline [] = none
retry_deadline (j ∷ js) = soonest j.next_attempt_at (retry_deadline js)

abbrev pub head_deadline : List Job → Option ℤ
head_deadline [] = none
head_deadline (j ∷ js) = some j.flush_after

-- `max(0.0, min(deadlines) - now)`
abbrev pub timeout_until : ℤ → Option ℤ → Option ℤ
timeout_until now none = none
timeout_until now (some t) = some (max_ℤ (pos 0) (t -ℤ now))

abbrev pub is_empty : List Job → Bool
is_empty [] = true
is_empty (j ∷ js) = false

abbrev pub take_retry : ℤ → Option (Job × List Job) → StateStore → Wake
take_retry now (some (j, rest)) s = run j (record s { retrying = rest })
take_retry now none s =
    if s.stopping && is_empty s.pending && is_empty s.retrying
    then stop
    else sleep (timeout_until now (soonest (head_deadline s.pending) (retry_deadline s.retrying)))

abbrev pub take_next : ℤ → List Job → StateStore → Wake
take_next now [] s = take_retry now (take_due now s.retrying) s
take_next now (j ∷ js) s =
    if leb_ℤ j.flush_after now
    then run j (record s { pending = js })
    else take_retry now (take_due now s.retrying) s

unfoldable pub wait_for_next_job : ℤ → StateStore → Wake
wait_for_next_job now s = take_next now s.pending s

-- `self._committed_barriers.get(scope, -1) > payload_sequence`
abbrev pub is_later : Option ℕ → ℕ → Bool
is_later none n = false
is_later (some b) n = ltb n b

unfoldable pub is_fenced : Dict Barrier ℕ → Job → Bool
is_fenced barriers job = any (λ b. is_later (get b barriers) job.payload_sequence) job.fence

-- What SQLite answers: the write commits, or an error is raised before `apply` is through, or by the
-- commit.
pub data Answer : Type 0 where
  commits : Answer
  fails_to_apply : Failure → Answer
  fails_to_commit : Failure → Answer

-- `max(self._committed_barriers.get(barrier, -1), payload_sequence)`
abbrev pub raised : Option ℕ → ℕ → ℕ
raised none n = n
raised (some b) n = max b n

abbrev pub raise_barrier : Option Barrier → ℕ → Dict Barrier ℕ → Dict Barrier ℕ
raise_barrier none n barriers = barriers
raise_barrier (some b) n barriers = put b (raised (get b barriers) n) barriers

-- What `apply` changes in memory: the epoch, and the box of a restore.
abbrev pub epoch_id_after : Payload → String → String
epoch_id_after (rotate id seed) old = id
epoch_id_after p old = old

abbrev pub epoch_seed_after : Payload → Bytes → Bytes
epoch_seed_after (rotate id seed) old = seed
epoch_seed_after p old = old

abbrev pub box_after : Payload → ℕ → StateStore → Dict ℕ RestoreResult
box_after (restore_rows now_utc) n s =
    put n (do_restore s.balanced_epoch_id now_utc s.database.tables).0 s.restored
box_after p n s = s.restored

abbrev pub remember : Payload → ℕ → StateStore → StateStore
remember p n s = record s {
  balanced_epoch_id = epoch_id_after p s.balanced_epoch_id;
  epoch_seed = epoch_seed_after p s.epoch_seed;
  restored = box_after p n s;
}

-- The body of the transaction in memory; the tables follow when it commits.
unfoldable pub execute : Job → StateStore → StateStore
execute job s =
    if is_fenced s.committed_barriers job
    then s
    else record (remember job.payload job.payload_sequence s) {
      committed_barriers = raise_barrier job.barrier job.payload_sequence s.committed_barriers;
    }

unfoldable pub committed : Job → StateStore → Database
committed job s =
    if is_fenced s.committed_barriers job
    then s.database
    else apply_payload s.balanced_epoch_id job.payload s.database

-- `pending_write._mark_done(error)` for each handle
unfoldable pub mark_done :
    List ℕ → Option Failure → Dict ℕ (Option Failure) → Dict ℕ (Option Failure)
mark_done [] error settled = settled
mark_done (n ∷ ns) error settled = mark_done ns error (put n error settled)

-- The wait after a number of failed attempts. None is the OverflowError of `initial * 2 ** (attempts -
-- 1)`: no float is as large as 2 ** 1024.
unfoldable pub backoff : ℕ → ℕ → ℕ → Option ℕ
backoff initial longest attempts =
    if ltb 1024 attempts then none else some (min longest (initial * 2 ^ (attempts - 1)))

-- The job after another failed attempt.
abbrev pub failed_again : Job → Job
failed_again job = record job { attempts = job.attempts + 1 }

-- The job as it waits for its next attempt.
abbrev pub delayed : ℕ → ℤ → Job → Job
delayed wait now job = record (failed_again job) { next_attempt_at = some (now +ℤ pos wait) }

-- The job is put off; or the exception of the wait's computation leaves the writer's thread, which
-- ends with the job at hand.
abbrev pub retry_after : Option ℕ → ℤ → Job → StateStore → StateStore
retry_after none now job s = record s {
  persistence_degraded = true;
  writer_crashed = true;
  writer_job = some (failed_again job);
}
retry_after (some wait) now job s = record s {
  persistence_degraded = true;
  retrying = s.retrying ++ delayed wait now job ∷ [];
}

-- `_attempt` after an exception, of a writer that has no other job; `now` is the clock's reading there.
unfoldable pub fail : Failure → ℤ → Job → StateStore → StateStore
fail integrity_error now job s = record s {
  settled = mark_done job.pending_writes (some integrity_error) s.settled;
}
fail storage_full now job s = record s {
  persistence_degraded = true;
  settled = mark_done job.pending_writes (some storage_full) s.settled;
}
fail transient now job s =
    if s.stopping
    then record s {
      persistence_degraded = true;
      settled = mark_done job.pending_writes (some transient) s.settled;
    }
    else retry_after (backoff s.retry_backoff_initial s.retry_backoff_max (job.attempts + 1)) now
        job s

-- Whether a retry is superseded by a committed job.
unfoldable pub is_retired : Job → Job → Bool
is_retired job retry =
    same_scope retry.scope_key job.scope_key && ltb retry.payload_sequence job.payload_sequence

unfoldable pub handles : List Job → List ℕ
handles [] = []
handles (j ∷ js) = j.pending_writes ++ handles js

-- `_attempt` after a commit.
unfoldable pub succeed : Job → StateStore → StateStore
succeed job s =
    let kept = select (λ retry. not (is_retired job retry)) s.retrying in
    record s {
      retrying = kept;
      persistence_degraded = not (is_empty kept);
      settled =
          mark_done
            (job.pending_writes ++ handles (select (λ retry. is_retired job retry) s.retrying)) none
            s.settled;
    }

unfoldable pub attempt : Answer → ℤ → Job → StateStore → StateStore
attempt commits now job s = succeed job (record (execute job s) { database = committed job s })
attempt (fails_to_apply failure) now job s = fail failure now job s
attempt (fails_to_commit failure) now job s = fail failure now job (execute job s)

-- The store after the writer has looked for a job.
abbrev pub take : Wake → StateStore → StateStore
take (run j t) s = record t { writer_job = some j }
take stop s = s
take (sleep deadline) s = s

abbrev pub due_at : ℤ → Job → Job
due_at now job = record job { next_attempt_at = some now }

-- `close` up to the join.
unfoldable pub close : ℤ → StateStore → StateStore
close now s = if s.closed then s else record s {
  closed = true;
  stopping = true;
  pending = map (hurry now) s.pending;
  retrying = map (due_at now) s.retrying;
}

-- A round of `_writer_loop`: the clock's reading when the writer looks for a job, SQLite's answer, and
-- the reading after it.
pub record Round : Type 0 where
  pub woken_at : ℤ
  pub answer : Answer
  pub answered_at : ℤ

-- The loop goes on after an attempt, unless its exception has ended the thread.
abbrev pub or_crash : (StateStore → Option StateStore) → StateStore → Option StateStore
or_crash loop s = if s.writer_crashed then some s else loop s

-- The body of the loop, given the rest of it.
abbrev pub after_wake :
    (StateStore → Option StateStore) → Round → StateStore → Wake → Option StateStore
after_wake loop r s (run job t) = or_crash loop (attempt r.answer r.answered_at job t)
after_wake loop r s stop = some s
after_wake loop r s (sleep deadline) = loop s

-- The loop over the rounds that it is given; none says that they ran out before it stopped.
unfoldable pub writer_loop : List Round → StateStore → Option StateStore
writer_loop [] s = none
writer_loop (r ∷ rs) s = after_wake (writer_loop rs) r s (wait_for_next_job r.woken_at s)
