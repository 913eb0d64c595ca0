-- ===== src/Router/Durability.antt =====
-- The barrier of a pin generation, and the pin writes that resolve it. A coroutine that awaits a
-- write is two functions: up to the wait, and from its end.
pub mod Barrier
use claudex.Prelude.{
  ℕ, ◌++◌, List, [], ◌∷◌, Option, none, some, Bool, true, false, not, ◌||◌, set, get_elem?, list_eq,
  nat_eq, if◌then◌else◌,
}
use claudex.Prelude.Int.{ℤ, ◌+ℤ◌, ◌-ℤ◌}
use claudex.Dict.{get}
use claudex.Selection.Pick.{Bytes}
use claudex.Router.State.{Router, PinEntry, PinRow, upsert_pin, touch_pin_last_seen}
use claudex.Router.Store.{
  awaited, Submission, not_submitted, pending_write, store_closed, submit, submit_to,
}
use claudex.Router.Pins.{pin_ttl_seconds}

-- `PendingDurabilityBarrier.resolve`: a second call changes nothing.
unfoldable pub resolve_barrier : ℕ → Router → Router
resolve_barrier i r = record r { barriers = set r.barriers i true }

-- What the coroutine that submits a pin's first write waits for, with the barrier it owes.
pub data PinWait : Type 0 where
  returned : PinWait
  waiting : (barrier write : ℕ) → PinWait

-- The two readings of the wall clock are one after the other.
abbrev pub row_of : Bytes → PinEntry → ℤ → ℤ → ℤ → Router → PinRow
row_of digest e now seen_at wall_now r = record {
  session_key_digest = digest;
  key_kind = e.key_kind;
  account_id = e.account_id;
  account_incarnation_id = e.account_incarnation_id;
  last_seen_utc = seen_at;
  expires_at_utc = wall_now +ℤ (e.expires_at_monotonic -ℤ now);
  generation = e.generation;
  balanced_epoch_id = r.balanced_epoch_id;
  model_family = e.model_family;
}

-- No store resolves at once, and so does a store that raises, which also degrades the router.
abbrev pub after_submit : ℕ → Router × Submission → Router × PinWait
after_submit barrier (r, not_submitted) = (resolve_barrier barrier r, returned)
after_submit barrier (r, store_closed) =
    (resolve_barrier barrier (record r { persistence_degraded = true }), returned)
after_submit barrier (r, pending_write i) = (r, waiting barrier i)

abbrev pub submit_entry : Bytes → Option PinEntry → ℤ → ℤ → ℤ → Router → Router × PinWait
submit_entry digest none now seen_at wall_now r = (r, returned)
submit_entry digest (some e) now seen_at wall_now r = elim e.pending_durability [
  | none ↦ (r, returned)
  | some barrier ↦
      after_submit barrier (submit (upsert_pin (row_of digest e now seen_at wall_now r) true) r)
]

unfoldable pub submit_new_pin_durability : Bytes → ℤ → ℤ → ℤ → Router → Router × PinWait
submit_new_pin_durability digest now seen_at wall_now r =
    submit_entry digest (get digest r.pins) now seen_at wall_now r

-- The end of the wait: `except` degrades the router, `finally` resolves the barrier.
unfoldable pub finish_pin_durability : PinWait → Bool → Router → Router
finish_pin_durability returned succeeded r = r
finish_pin_durability (waiting barrier write) succeeded r =
    resolve_barrier barrier
      (record r { persistence_degraded = r.persistence_degraded || not succeeded })

-- Whether `await_pin_durability` returns without waiting.
abbrev pub barrier_is_open : Option ℕ → List Bool → Bool
barrier_is_open none barriers = true
barrier_is_open (some i) barriers = elim (get_elem? barriers i) [ none ↦ false | some b ↦ b ]

unfoldable pub await_pin_durability_returns : Bytes → Router → Bool
await_pin_durability_returns digest r = elim (get digest r.pins) [
  | none ↦ true
  | some e ↦ barrier_is_open e.pending_durability r.barriers
]

unfoldable pub plan_pin_durable_last_seen : Bytes → ℤ → Router → Option (ℤ × ℤ)
plan_pin_durable_last_seen digest wall_now r = elim (get digest r.pins) [
  | none ↦ none
  | some e ↦ some (wall_now, wall_now +ℤ pin_ttl_seconds e.key_kind r)
]

-- `refresh_pin_durable_last_seen` up to its wait; its end is `finish_write`. Whether the store merges
-- the write into an earlier one, and so returns nothing, is the store's decision.
unfoldable pub refresh_pin_durable_last_seen : Bytes → ℤ → ℤ → Bool → Router → Router × Option ℕ
refresh_pin_durable_last_seen digest last_seen_utc expires_at_utc is_merged r = awaited (
    if is_merged
    then (r, not_submitted)
    else submit (touch_pin_last_seen digest last_seen_utc expires_at_utc) r)
