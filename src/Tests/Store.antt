-- ===== src/Tests/Store.antt =====
-- Witnesses of the theorems on the state store: a pin and a deletion are submitted, and the writer
-- works on them.
use claudex.Prelude.{
  ℕ, ◌+◌, ◌*◌, ◌↔◌, inl, ◌≡◌, ◌≤◌, ◌<◌, refl, min, List, [], ◌∷◌, none, some, true, false, All,
  string_eq, list_eq, nat_eq, pair_eq, arith, length,
}
use claudex.Prelude.Int.{pos}
use claudex.Dict.{get, size}
use claudex.Selection.Units.{default, seconds, family_eq, window_eq}
use claudex.Selection.Pick.{uuid}
use claudex.Selection.Gate.{scope_eq}
use claudex.Router.State.{PinRow}
use claudex.StateStore.Keys.{pin_scope, incarnation_barrier, row_scope_eq}
use claudex.StateStore.Tables.{write_pin, erase_incarnation}
use claudex.StateStore.Tables.Restore.{RestoredTables, do_restore}
use claudex.StateStore.Tables.Rows.{HasNoRow}
use claudex.StateStore.Tables.Validity.{HasKeys, RestoresValid, do_restore_valid}
use claudex.StateStore.Tables.Counts.{total, do_restore_counts}
use claudex.StateStore.Queue.{Job, StateStore, transient, submit, enqueue, new_job, hurry}
use claudex.StateStore.Queue.View.{payloads, write_at, submit-refines}
use claudex.StateStore.Operations
use claudex.StateStore.Open.{new_store, fresh_database, no_tables}
use claudex.StateStore.Writer.{
  Round, commits, fails_to_apply, fails_to_commit, attempt, succeed, execute, take,
  wait_for_next_job, run, close, writer_loop, backoff, delayed,
}
use claudex.StateStore.Steps.{Run, here, next, operates, wakes, Anything, upsert_pin, perform}
use claudex.StateStore.Steps.Handles.{new_store-IsAnswerable, Run-IsAnswerable}
use claudex.StateStore.Steps.Crash.{CrashesLate}
use claudex.StateStore.Steps.Held.{IsAnswerable, is_settled, is_issued}
use claudex.StateStore.Steps.InOrder.{IsInOrder, new_store-IsInOrder, Run-IsInOrder}
use claudex.StateStore.Steps.Newest.{AreAfter, commit_newest}
use claudex.StateStore.Steps.Erasure.{IsErasure, incarnation_stays_erased}
use claudex.StateStore.Steps.Close.{close_settles}
use claudex.StateStore.Steps.Rounds.{left}
use claudex.StateStore.Steps.Failing.{FailsWell, failed_attempt, backoff_doubles}
use claudex.StateStore.Steps.Flush.{high_priority_flushes}
use claudex.StateStore.Steps.Drain.{IsFlushed}

abbrev pin_row : PinRow
pin_row = record {
  session_key_digest = 1 ∷ [];
  key_kind = uuid;
  account_id = "a";
  account_incarnation_id = "a1";
  last_seen_utc = pos 0;
  expires_at_utc = seconds 18000;
  generation = 0;
  balanced_epoch_id = "e1";
  model_family = default;
}

abbrev opened_store : StateStore
opened_store = new_store (seconds 1) (seconds 60) 500000 30000000 (fresh_database "e1" [])

opened-IsAnswerable : IsAnswerable opened_store
opened-IsAnswerable =
    new_store-IsAnswerable (seconds 1) (seconds 60) 500000 30000000 (fresh_database "e1" [])

opened-IsInOrder : IsInOrder opened_store
opened-IsInOrder =
    new_store-IsInOrder (seconds 1) (seconds 60) 500000 30000000 (fresh_database "e1" [])

abbrev pin_store : StateStore
pin_store = (perform (upsert_pin pin_row true) (pos 0) opened_store).0

abbrev busy_store : StateStore
busy_store = take (wait_for_next_job (pos 0) pin_store) pin_store

abbrev pin_job : Job
pin_job = new_job (Operations.pin_request pin_row true) 1 (pos 0) (seconds 1)

rounds : List Round
rounds =
    record { woken_at = seconds 2; answer = fails_to_apply transient; answered_at = seconds 2 }
    ∷ record { woken_at = seconds 3; answer = commits; answered_at = seconds 3 }
    ∷ []

pin_open : pin_store.closed ≡ false
unfolding Operations.upsert_pin submit
pin_open = refl

pin_idle : pin_store.writer_job ≡ none
unfolding Operations.upsert_pin submit
pin_idle = refl

pin_alive : pin_store.writer_crashed ≡ false
unfolding Operations.upsert_pin submit
pin_alive = refl

pin_left : left pin_store < length rounds
unfolding Operations.upsert_pin submit enqueue rounds hurry
pin_left = ground arith

pin-IsAnswerable : IsAnswerable pin_store
pin-IsAnswerable =
    (Run-IsAnswerable opened-IsAnswerable (inl refl)
      (next here (operates (upsert_pin pin_row true) (pos 0) tt refl))).0

to_busy : Run Anything opened_store busy_store
unfolding Operations.upsert_pin submit
to_busy =
    next (next here (operates (upsert_pin pin_row true) (pos 0) tt refl)) (wakes (pos 0) refl refl)

busy-IsAnswerable : IsAnswerable busy_store
busy-IsAnswerable = (Run-IsAnswerable opened-IsAnswerable (inl refl) to_busy).0

busy-IsInOrder : IsInOrder busy_store
busy-IsInOrder = Run-IsInOrder opened-IsInOrder to_busy

busy_job : busy_store.writer_job ≡ some (hurry (pos 0) pin_job)
unfolding Operations.upsert_pin submit enqueue hurry new_job wait_for_next_job
busy_job = refl

Run-IsAnswerable_example : IsAnswerable busy_store × CrashesLate busy_store
Run-IsAnswerable_example = Run-IsAnswerable opened-IsAnswerable (inl refl) to_busy

Run-IsInOrder_example : IsInOrder busy_store
Run-IsInOrder_example = Run-IsInOrder opened-IsInOrder to_busy

submit-refines_example :
    payloads (submit (Operations.pin_request pin_row true) (pos 0) opened_store).0.pending
    ≡ write_at (some (pin_scope (1 ∷ []))) (write_pin pin_row) (payloads opened_store.pending)
submit-refines_example =
    submit-refines (Operations.pin_request pin_row true) (pos 0) opened_store refl

later_store : StateStore
later_store =
    (perform (upsert_pin pin_row false) (pos 5)
      (attempt commits (pos 0) (hurry (pos 0) pin_job) (record busy_store { writer_job = none }))).0

pin_job_scope : (hurry (pos 0) pin_job).scope_key ≡ some (pin_scope (1 ∷ []))
unfolding hurry new_job
pin_job_scope = refl

commit_newest_example :
    AreAfter (pin_scope (1 ∷ [])) (hurry (pos 0) pin_job).payload_sequence later_store
unfolding later_store
commit_newest_example =
    commit_newest busy_store (hurry (pos 0) pin_job) (pin_scope (1 ∷ [])) busy-IsInOrder
      busy-IsAnswerable busy_job pin_job_scope (pos 0)
      (next here (operates (upsert_pin pin_row false) (pos 5) tt refl))

-- The deletion of the pin's incarnation, while an older write of the pin waits for its retry.
abbrev erase_job : Job
erase_job =
    new_job (Operations.unscoped (erase_incarnation "a1") (some (incarnation_barrier "a1"))) 2
      (pos 0) (seconds 1)

abbrev retry_store : StateStore
retry_store = record opened_store {
  retrying = delayed 500000 (pos 0) pin_job ∷ [];
  next_sequence = 3;
}

erase-IsErasure : IsErasure "a1" erase_job
unfolding new_job
erase-IsErasure = record { of_payload = refl; of_barrier = refl; of_fence = refl }

abbrev erased_store : StateStore
erased_store = attempt commits (pos 0) erase_job retry_store

retried_store : StateStore
retried_store = take (wait_for_next_job (seconds 1) erased_store) erased_store

erased_idle : erased_store.writer_job ≡ none
unfolding attempt succeed execute
erased_idle = ground arith

incarnation_stays_erased_example : HasNoRow "a1" retried_store.database.tables
unfolding retried_store new_job
incarnation_stays_erased_example =
    incarnation_stays_erased "a1" erase_job retry_store erase-IsErasure (pos 0)
      (tt, tt, (λ w. refl, tt), tt) (tt, tt, (λ w. omega arith, tt), tt)
      (next here (wakes (seconds 1) erased_idle refl))

close_settles_example :
    (u : StateStore) × (writer_loop rounds (close (seconds 1) pin_store) ≡ some u)
    × (u.pending ≡ [])
    × (u.retrying ≡ [])
    × ((n : ℕ) → is_settled n u ≡ is_issued n pin_store)
unfolding rounds
close_settles_example =
    close_settles (seconds 1) rounds pin_store pin_open pin_idle pin_alive pin-IsAnswerable
      (omega arith) pin_left

failed_attempt_example :
    FailsWell transient
      (seconds 1)
      pin_job
      retry_store
      (attempt (fails_to_commit transient) (seconds 1) pin_job retry_store)
failed_attempt_example =
    failed_attempt (fails_to_commit transient) transient (seconds 1) pin_job retry_store refl

backoff_doubles_example :
    (backoff 500000 30000000 1 ≡ some (min 30000000 500000))
    × ((wait : ℕ) × (backoff 500000 30000000 4 ≡ some wait)
        × (wait ≤ 30000000)
        × (backoff 500000 30000000 5 ≡ some (min 30000000 (2 * wait))))
    × ((n : ℕ) → (backoff 500000 30000000 n ≡ none) ↔ (1024 < n))
backoff_doubles_example = backoff_doubles 500000 30000000 3 (omega arith)

high_priority_flushes_example :
    (j : Job) × (js : List Job) × (pin_store.pending ≡ j ∷ js)
    × (wait_for_next_job (seconds 1) pin_store ≡ run j (record pin_store { pending = js }))
    × All (λ (k : Job). j.sequence < k.sequence) js
    × All (IsFlushed (pos 0)) js
unfolding Operations.upsert_pin
high_priority_flushes_example =
    high_priority_flushes (Operations.pin_request pin_row true) (pos 0) (seconds 1) opened_store
      refl refl (omega arith) opened-IsInOrder

abbrev stored : RestoredTables
stored = record no_tables {
  pins =
      (1 ∷ [], pin_row)
      ∷ (2 ∷ [], record pin_row { session_key_digest = 2 ∷ []; balanced_epoch_id = "e0" })
      ∷ [];
}

stored-HasKeys : HasKeys stored
unfolding get
stored-HasKeys = ((refl, (refl, tt)), tt, tt, tt)

do_restore_valid_example : RestoresValid "e1" (pos 5) stored
do_restore_valid_example = do_restore_valid "e1" (pos 5) stored stored-HasKeys

do_restore_counts_example :
    size (do_restore "e1" (pos 5) stored).0.pins
      + size (do_restore "e1" (pos 5) stored).0.cooldowns
      + size (do_restore "e1" (pos 5) stored).0.usage_observations
      + size (do_restore "e1" (pos 5) stored).0.capability_evidence
      + total (do_restore "e1" (pos 5) stored).0.skip_counts
    ≡ 2
do_restore_counts_example = do_restore_counts "e1" (pos 5) stored stored-HasKeys
