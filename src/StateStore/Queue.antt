-- ===== src/StateStore/Queue.antt =====
-- The store's state, and `_submit`: the queue of jobs, which coalesces the payloads of a row.
pub mod View
use claudex.Prelude.{
  ℕ, ◌+◌, ◌≡◌, ◌↔◌, ◌∷◌, ◌++◌, List, [], String, Option, none, some, Bool, true, false, ◌||◌, ◌&&◌,
  Eq, ◌==◌, ==_iff, string_eq, list_eq, nat_eq, pair_eq, if◌then◌else◌, arith, map,
}
use claudex.Prelude.Int.{ℤ, ◌+ℤ◌, min_ℤ}
use claudex.Dict.{Dict}
use claudex.Selection.Units.{AccountId, Window, window_eq, Family, family_eq}
use claudex.Selection.Family.{Text}
use claudex.Selection.Pick.{Bytes}
use claudex.Selection.Gate.{CooldownScope, scope_eq}
use claudex.Router.State.{CooldownKey, RestoreResult}
use claudex.StateStore.Keys.{Scope, row_scope_eq, Barrier, barrier_eq}
use claudex.StateStore.Tables.{Payload, Database}

-- A handle is its persistence sequence number.
pub record Job : Type 0 where
  pub sequence : ℕ
  pub payload_sequence : ℕ
  pub scope_key : Option Scope
  pub priority : Bool
  pub flush_after : ℤ
  pub payload : Payload
  pub pending_writes : List ℕ
  pub barrier : Option Barrier
  pub fence : List Barrier
  pub attempts : ℕ
  pub next_attempt_at : Option ℤ

-- Why SQLite refused a write.
pub data Failure : Type 0 where
  integrity_error storage_full transient : Failure

-- `writer_job` is the local `job` of `_writer_loop`, and `writer_crashed` says that an exception ended
-- the thread while it was at that job; `settled` holds the handles that are done, with
-- their errors; `restored` holds what a restore's `apply` put into its box, by the restore's handle.
pub record StateStore : Type 0 where
  pub debounce : ℤ
  pub pin_last_seen_min_interval : ℤ
  pub retry_backoff_initial : ℕ
  pub retry_backoff_max : ℕ
  pub pending : List Job
  pub retrying : List Job
  pub writer_job : Option Job
  pub writer_crashed : Bool
  pub committed_barriers : Dict Barrier ℕ
  pub next_sequence : ℕ
  pub closed : Bool
  pub stopping : Bool
  pub persistence_degraded : Bool
  pub balanced_epoch_id : String
  pub epoch_seed : Bytes
  pub epoch_active : Bool
  pub last_pin_touch_accepted : Dict Bytes ℤ
  pub database : Database
  pub restored : Dict ℕ RestoreResult
  pub settled : Dict ℕ (Option Failure)

-- The arguments of `_submit`.
pub record Request : Type 0 where
  pub scope_key : Option Scope
  pub payload : Payload
  pub high_priority : Bool
  pub barrier : Option Barrier
  pub fence : List Barrier

abbrev pub or_barrier : Option Barrier → Option Barrier → Option Barrier
or_barrier none old = old
or_barrier (some b) old = some b

abbrev pub or_fence : List Barrier → List Barrier → List Barrier
or_fence [] old = old
or_fence (b ∷ bs) old = b ∷ bs

-- `job.scope_key == scope_key`, for a key that is not None
abbrev pub same_scope : Option Scope → Option Scope → Bool
same_scope (some a) (some b) = a == b
same_scope _ _ = false

module _ (q : Request) (sequence : ℕ) where
  unfoldable pub new_job : ℤ → ℤ → Job
  new_job now debounce = record {
    sequence = sequence;
    payload_sequence = sequence;
    scope_key = q.scope_key;
    priority = q.high_priority;
    flush_after = if q.high_priority then now else now +ℤ debounce;
    payload = q.payload;
    pending_writes = sequence ∷ [];
    barrier = q.barrier;
    fence = q.fence;
    attempts = 0;
    next_attempt_at = none;
  }

  unfoldable pub coalesce : Job → Job
  coalesce existing = record existing {
    payload = q.payload;
    payload_sequence = sequence;
    priority = existing.priority || q.high_priority;
    pending_writes = existing.pending_writes ++ sequence ∷ [];
    barrier = or_barrier q.barrier existing.barrier;
    fence = or_fence q.fence existing.fence;
  }

  -- The first job of the scope takes the payload; where there is none, a new job is appended.
  unfoldable pub enqueue : ℤ → ℤ → List Job → List Job
  enqueue now debounce [] = new_job now debounce ∷ []
  enqueue now debounce (job ∷ jobs) =
      if same_scope job.scope_key q.scope_key
      then coalesce job ∷ jobs
      else job ∷ enqueue now debounce jobs

unfoldable pub hurry : ℤ → Job → Job
hurry now job = record job { flush_after = min_ℤ job.flush_after now }

abbrev pub hurry_if : Bool → ℤ → List Job → List Job
hurry_if false now jobs = jobs
hurry_if true now jobs = map (hurry now) jobs

-- `RuntimeError` of a closed store, `ValueError` of a rejected argument, a throttled touch (None), or
-- the handle.
pub data Submitted : Type 0 where
  store_closed invalid_argument throttled : Submitted
  pending_write : ℕ → Submitted

-- `now` is the reading of the store's clock.
unfoldable pub submit : Request → ℤ → StateStore → StateStore × Submitted
submit q now s = if s.closed then (s, store_closed) else (
  record s {
    next_sequence = s.next_sequence + 1;
    pending = hurry_if q.high_priority now (enqueue q s.next_sequence now s.debounce s.pending);
  },
  pending_write s.next_sequence,
)
