-- ===== src/Router/Pins.antt =====
-- The pin map: expiry, the LRU victim and the capacity bound.
pub mod Purge
pub mod Reserve
pub mod Victim
pub mod Capacity
pub mod Bound
use claudex.Prelude.{
  ℕ, zero, suc, ◌+◌, List, [], ◌∷◌, Option, none, some, Bool, true, false, not, ◌&&◌, ◌||◌, ltb,
  leb, nat_beq, bit, or_else, is_some, list_eq, nat_eq, if◌then◌else◌,
}
use claudex.Prelude.Int.{ℤ, ◌+ℤ◌, leb_ℤ, ltb_ℤ}
use claudex.Dict.{Dict, size, get, put, pop, keys_where, count_where}
use claudex.Selection.Pick.{Bytes, KeyKind, uuid, content_hash}
use claudex.Router.State.{
  Router, PinEntry, RemovalReason, expired, removed, evicted_lru, reason_eq, delete_pin,
}
use claudex.Router.Store.{submit, submit_to, degrade_if_closed}

abbrev pub get_pin : Bytes → Router → Option PinEntry
get_pin digest r = get digest r.pins

abbrev pub pin_count : Router → ℕ
pin_count r = size r.pins

unfoldable pub active_migration_count : Router → ℕ
active_migration_count r = count_where (λ d e. e.migration_reserved) r.pins

abbrev pub reserve_entry : Bytes → Bool → Option PinEntry → Router → Router
reserve_entry digest reserved none r = r
reserve_entry digest reserved (some e) r = record r {
  pins = put digest (record e { migration_reserved = reserved }) r.pins;
}

unfoldable pub set_migration_reserved : Bytes → Bool → Router → Router
set_migration_reserved digest reserved r = reserve_entry digest reserved (get digest r.pins) r

abbrev pub pin_ttl_seconds : KeyKind → Router → ℤ
pin_ttl_seconds uuid r = r.pin_ttl_uuid_seconds
pin_ttl_seconds content_hash r = r.pin_ttl_content_hash_seconds

abbrev pub remove_found : Bytes → RemovalReason → Option PinEntry → Router → Router
remove_found digest reason none r = r
remove_found digest reason (some e) r = record r {
  pins = pop digest r.pins;
  removed_pin_counts =
      put reason (or_else (get reason r.removed_pin_counts) 0 + 1) r.removed_pin_counts;
  total_removed_pins = r.total_removed_pins + 1;
}

-- `_remove_pin`, without the entry that it returns
unfoldable pub remove_pin_for : RemovalReason → Bytes → Router → Router
remove_pin_for reason digest r = remove_found digest reason (get digest r.pins) r

-- `remove_pin`, with its result
unfoldable pub remove_pin : Bytes → Router → Router × Bool
remove_pin digest r = (remove_pin_for removed digest r, is_some (get digest r.pins))

unfoldable pub remove_each : RemovalReason → List Bytes → Router → Router
remove_each reason [] r = r
remove_each reason (d ∷ ds) r = remove_each reason ds (remove_pin_for reason d r)

unfoldable pub is_expired : ℤ → Bytes → PinEntry → Bool
is_expired now d e = leb_ℤ e.expires_at_monotonic now

unfoldable pub purge_expired_pins : ℤ → Router → Router
purge_expired_pins now r = remove_each expired (keys_where (is_expired now) r.pins) r

-- `a < b` of two byte strings
unfoldable pub bytes_ltb : Bytes → Bytes → Bool
bytes_ltb [] [] = false
bytes_ltb [] (y ∷ ys) = true
bytes_ltb (x ∷ xs) [] = false
bytes_ltb (x ∷ xs) (y ∷ ys) = ltb x y || (nat_beq x y && bytes_ltb xs ys)

-- `a < b` of two pairs of a reading and a digest
abbrev pub older : ℤ × Bytes → ℤ × Bytes → Bool
older (s, d) (t, e) = ltb_ℤ s t || (not (ltb_ℤ t s) && bytes_ltb d e)

abbrev pub kind_beq : KeyKind → KeyKind → Bool
kind_beq uuid uuid = true
kind_beq content_hash content_hash = true
kind_beq _ _ = false

unfoldable pub is_evictable : KeyKind → PinEntry → Bool
is_evictable kind e = kind_beq e.key_kind kind && not e.migration_reserved

unfoldable pub lru_candidates : KeyKind → Dict Bytes PinEntry → List (ℤ × Bytes)
lru_candidates kind [] = []
lru_candidates kind ((d, e) ∷ rest) =
    let more = lru_candidates kind rest in
    if is_evictable kind e then (e.last_seen_monotonic, d) ∷ more else more

abbrev pub oldest_of : ℤ × Bytes → ℤ × Bytes → ℤ × Bytes
oldest_of a b = if older b a then b else a

-- `min(candidates)`
unfoldable pub oldest : ℤ × Bytes → List (ℤ × Bytes) → ℤ × Bytes
oldest a [] = a
oldest a (b ∷ bs) = oldest (oldest_of a b) bs

abbrev pub victim_of : List (ℤ × Bytes) → Option Bytes
victim_of [] = none
victim_of (a ∷ more) = some (oldest a more).1

unfoldable pub lru_victim : KeyKind → Dict Bytes PinEntry → Option Bytes
lru_victim kind pins = victim_of (lru_candidates kind pins)

-- `a or b` of two optional digests: an empty digest is false.
abbrev pub or_victim : Option Bytes → Option Bytes → Option Bytes
or_victim none v = v
or_victim (some []) v = v
or_victim (some (b ∷ bs)) v = some (b ∷ bs)

abbrev pub next_victim : Dict Bytes PinEntry → Option Bytes
next_victim pins = or_victim (lru_victim content_hash pins) (lru_victim uuid pins)

unfoldable pub evict : Bytes → Router → Router
evict victim r =
    degrade_if_closed (submit (delete_pin victim true) (remove_pin_for evicted_lru victim r))

-- `len(self._pins) > maximum`, where the maximum is the bound less one for a new pin
abbrev pub is_over : Bool → Router → Bool
is_over reserve_for_new_pin r = ltb r.pin_map_max_entries (size r.pins + bit reserve_for_new_pin)

-- The `while` loop; each round removes a pin, so as many rounds as there are pins are enough.
unfoldable pub evict_loop : ℕ → Bool → Router → Router
evict_loop zero reserve r = r
evict_loop (suc fuel) reserve r = elim (is_over reserve r) [
  | false ↦ r
  | true ↦ elim (next_victim r.pins) [
    | none ↦ record r { soft_bound_overflow_count = r.soft_bound_overflow_count + 1 }
    | some victim ↦ evict_loop fuel reserve (evict victim r)
  ]
]

unfoldable pub ensure_capacity : ℤ → Bool → Router → Router
ensure_capacity now reserve r =
    if is_over reserve r
    then (let purged = purge_expired_pins now r in evict_loop (size purged.pins + 1) reserve purged)
    else r

unfoldable pub touch_entry : Bytes → Option PinEntry → Bool → ℤ → Router → Router × Bool
touch_entry digest none counts now r = (r, false)
touch_entry digest (some e) counts now r =
    if counts
    then (
      record r {
        pins =
            put digest
              (record e {
                last_seen_monotonic = now;
                expires_at_monotonic = now +ℤ pin_ttl_seconds e.key_kind r;
              })
              r.pins;
      },
      true,
    )
    else (r, false)

unfoldable pub touch_pin : Bytes → Bool → Bool → Bool → ℤ → Router → Router × Bool
touch_pin digest is_message_request key_is_live account_still_registered now r =
    touch_entry digest (get digest r.pins)
      (is_message_request && key_is_live && account_still_registered) now r
