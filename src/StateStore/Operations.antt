-- ===== src/StateStore/Operations.antt =====
-- The store's operations: each builds a payload, its scope, barrier and fence, and submits it. A key
-- kind, a cooldown scope, a window and a capability state are of closed types here, and a generation
-- is a natural number, so their validation is that of the types.
use claudex.Prelude.{
  List, [], ◌∷◌, String, Option, none, some, Bool, true, false, not, ◌&&◌, list_eq, nat_eq,
  if◌then◌else◌,
}
use claudex.Prelude.Int.{ℤ, pos, ◌-ℤ◌, leb_ℤ, ltb_ℤ}
use claudex.Dict.{get, put}
use claudex.Selection.Units.{AccountId, Window, points}
use claudex.Selection.Family.{Text}
use claudex.Selection.Pick.{Bytes}
use claudex.Router.State.{
  PinRow, CooldownRow, CooldownKey, UsageObservationRow, CapabilityEvidenceRow,
}
use claudex.StateStore.Keys.{
  Scope, pin_scope, last_seen_scope, cooldown_scope, usage_scope, capability_scope, Barrier,
  epoch_barrier, incarnation_barrier,
}
use claudex.StateStore.Tables.{
  Payload, rotate, invalidate, write_pin, touch_last_seen, erase_pin, write_cooldown,
  erase_cooldown, write_usage, erase_usage, write_capability, erase_capability, erase_incarnation,
  restore_rows, cooldown_key,
}
use claudex.StateStore.Queue.{StateStore, Request, Submitted, throttled, invalid_argument, submit}

-- A request with no scope, which is never coalesced.
abbrev pub unscoped : Payload → Option Barrier → Request
unscoped p barrier = record {
  scope_key = none;
  payload = p;
  high_priority = true;
  barrier = barrier;
  fence = [];
}

abbrev pub scoped : Scope → Payload → Bool → List Barrier → Request
scoped scope p high_priority fence = record {
  scope_key = some scope;
  payload = p;
  high_priority = high_priority;
  barrier = none;
  fence = fence;
}

-- The fresh id and seed are arguments.
unfoldable pub rotate_epoch : String → Bytes → ℤ → StateStore → StateStore × Submitted
rotate_epoch id seed now s = submit (unscoped (rotate id seed) (some epoch_barrier)) now s

unfoldable pub invalidate_epoch_pins : ℤ → StateStore → StateStore × Submitted
invalidate_epoch_pins now s = submit (unscoped invalidate (some epoch_barrier)) now s

abbrev pub pin_request : PinRow → Bool → Request
pin_request row high =
    scoped (pin_scope row.session_key_digest) (write_pin row) high
      (epoch_barrier ∷ incarnation_barrier row.account_incarnation_id ∷ [])

unfoldable pub upsert_pin : PinRow → Bool → ℤ → StateStore → StateStore × Submitted
upsert_pin row high now s = submit (pin_request row high) now s

-- `last_accepted is not None and now - last_accepted < interval`
abbrev pub is_throttled : Option ℤ → ℤ → ℤ → Bool
is_throttled none now interval = false
is_throttled (some last) now interval = ltb_ℤ (now -ℤ last) interval

abbrev pub touch_request : Bytes → ℤ → ℤ → Request
touch_request digest last_seen expires_at =
    scoped (last_seen_scope digest) (touch_last_seen digest last_seen expires_at) false
      (epoch_barrier ∷ [])

unfoldable pub touch_pin_last_seen : Bytes → ℤ → ℤ → ℤ → StateStore → StateStore × Submitted
touch_pin_last_seen digest last_seen expires_at now s =
    if is_throttled (get digest s.last_pin_touch_accepted) now s.pin_last_seen_min_interval
    then (s, throttled)
    else submit (touch_request digest last_seen expires_at) now
        (record s { last_pin_touch_accepted = put digest now s.last_pin_touch_accepted })

unfoldable pub delete_pin : Bytes → Bool → ℤ → StateStore → StateStore × Submitted
delete_pin digest high now s = submit (scoped (pin_scope digest) (erase_pin digest) high []) now s

abbrev pub cooldown_request : CooldownRow → Bool → Request
cooldown_request row high =
    scoped (cooldown_scope (cooldown_key row)) (write_cooldown row) high
      (incarnation_barrier row.account_incarnation_id ∷ [])

unfoldable pub upsert_cooldown : CooldownRow → Bool → ℤ → StateStore → StateStore × Submitted
upsert_cooldown row high now s = submit (cooldown_request row high) now s

unfoldable pub delete_cooldown : CooldownKey → Bool → ℤ → StateStore → StateStore × Submitted
delete_cooldown key high now s =
    submit (scoped (cooldown_scope key) (erase_cooldown key) high []) now s

-- `0 <= used_percent <= 100`
abbrev pub is_percentage : ℤ → Bool
is_percentage used = leb_ℤ (pos 0) used && leb_ℤ used (pos (points 100))

abbrev pub usage_request : UsageObservationRow → Bool → Request
usage_request row high =
    scoped (usage_scope (row.account_id, row.window)) (write_usage row) high
      (incarnation_barrier row.account_incarnation_id ∷ [])

unfoldable pub upsert_usage_observation :
    UsageObservationRow → Bool → ℤ → StateStore → StateStore × Submitted
upsert_usage_observation row high now s =
    if not (is_percentage row.used_percent)
    then (s, invalid_argument)
    else submit (usage_request row high) now s

unfoldable pub delete_usage_observation :
    AccountId × Window → Bool → ℤ → StateStore → StateStore × Submitted
delete_usage_observation key high now s =
    submit (scoped (usage_scope key) (erase_usage key) high []) now s

abbrev pub capability_request : CapabilityEvidenceRow → Bool → Request
capability_request row high =
    scoped (capability_scope (row.account_id, row.capability_key)) (write_capability row) high
      (incarnation_barrier row.account_incarnation_id ∷ [])

unfoldable pub upsert_capability_evidence :
    CapabilityEvidenceRow → Bool → ℤ → StateStore → StateStore × Submitted
upsert_capability_evidence row high now s = submit (capability_request row high) now s

unfoldable pub delete_capability_evidence :
    AccountId × Text → Bool → ℤ → StateStore → StateStore × Submitted
delete_capability_evidence key high now s =
    submit (scoped (capability_scope key) (erase_capability key) high []) now s

unfoldable pub delete_all_for_incarnation : String → ℤ → StateStore → StateStore × Submitted
delete_all_for_incarnation i now s =
    submit (unscoped (erase_incarnation i) (some (incarnation_barrier i))) now s

-- `restore` up to its wait; its end reads the box of its handle.
unfoldable pub restore : ℤ → ℤ → StateStore → StateStore × Submitted
restore now_utc now s = submit (unscoped (restore_rows now_utc) none) now s
