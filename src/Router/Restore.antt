-- ===== src/Router/Restore.antt =====
-- `restore_from_store`: rows on the wall clock become entries on the monotonic one.
pub mod Clamp
use claudex.Prelude.{
  ℕ, List, [], ◌∷◌, String, Option, none, some, Bool, true, false, not, ◌==◌, string_eq, list_eq,
  nat_eq, pair_eq, if◌then◌else◌,
}
use claudex.Prelude.Int.{ℤ, ◌+ℤ◌, ◌-ℤ◌, leb_ℤ, min_ℤ, max_ℤ}
use claudex.Dict.{Dict, get, put, size}
use claudex.Selection.Units.{AccountId, Family, family_eq, seconds}
use claudex.Selection.Family.{Text}
use claudex.Selection.Pressure.{wall_to_monotonic}
use claudex.Selection.Pick.{Bytes}
use claudex.Selection.Gate.{CooldownScope}
use claudex.Router.State.{
  Router, RestoreResult, CooldownKey, PinRow, PinEntry, CooldownRow, CooldownEntry,
  CapabilityEvidenceRow, CapabilityEvidenceEntry, eligible, denied,
}
use claudex.Router.Cooldown.{set_cooldown}
use claudex.Router.Capability.{capability_classifier_version}
use claudex.Router.Pins.{ensure_capacity}

abbrev pub cooldown_restore_min : ℤ
cooldown_restore_min = seconds 1

abbrev pub cooldown_restore_max : ℤ
cooldown_restore_max = seconds 604800

module _ (now wall_now : ℤ) where
  unfoldable pub restored_pin : Bytes → PinRow → PinEntry
  restored_pin digest row = record {
    session_key_digest = digest;
    key_kind = row.key_kind;
    account_id = row.account_id;
    account_incarnation_id = row.account_incarnation_id;
    generation = row.generation;
    last_seen_monotonic = wall_to_monotonic row.last_seen_utc wall_now now;
    expires_at_monotonic = wall_to_monotonic row.expires_at_utc wall_now now;
    migration_reserved = false;
    pending_durability = none;
    model_family = row.model_family;
  }

  unfoldable pub restore_pins : Dict Bytes PinRow → Dict Bytes PinEntry → Dict Bytes PinEntry
  restore_pins [] pins = pins
  restore_pins ((d, row) ∷ rows) pins = restore_pins rows (put d (restored_pin d row) pins)

  abbrev pub clamped_remaining : CooldownRow → ℤ
  clamped_remaining row =
      max_ℤ cooldown_restore_min (min_ℤ cooldown_restore_max (row.deadline_utc -ℤ wall_now))

  unfoldable pub restored_cooldown : CooldownRow → CooldownEntry
  restored_cooldown row = record {
    deadline_monotonic = now +ℤ clamped_remaining row;
    deadline_wall = wall_now +ℤ clamped_remaining row;
    account_incarnation_id = row.account_incarnation_id;
    account_profile_fingerprint = some row.account_profile_fingerprint;
    reason = row.reason;
  }

  unfoldable pub restore_cooldowns : Dict CooldownKey CooldownRow → Router → Router
  restore_cooldowns [] r = r
  restore_cooldowns (((a, (scope, model_family)), row) ∷ rows) r =
      restore_cooldowns rows (set_cooldown scope a model_family (restored_cooldown row) r)

  -- The entry of a row, unless the row is skipped.
  unfoldable pub restored_capability : CapabilityEvidenceRow → Option CapabilityEvidenceEntry
  restored_capability row = elim row.state [
    | denied ↦ none
    | eligible ↦ elim row.expires_at_utc [
      | none ↦ none
      | some expiry ↦
          if not (row.classifier_version == capability_classifier_version)
          then none
          else (let expires_at_monotonic = wall_to_monotonic expiry wall_now now in
              if leb_ℤ expires_at_monotonic now
              then none
              else some (record {
                account_incarnation_id = row.account_incarnation_id;
                account_profile_fingerprint = row.account_profile_fingerprint;
                classifier_version = row.classifier_version;
                expires_at_monotonic = expires_at_monotonic;
              }))
    ]
  ]

  abbrev pub put_capability : AccountId × Text → Option CapabilityEvidenceEntry → Router → Router
  put_capability key none r = r
  put_capability key (some e) r = record r { capability_evidence = put key e r.capability_evidence }

  unfoldable pub restore_capabilities :
      Dict (AccountId × Text) CapabilityEvidenceRow → Router → Router
  restore_capabilities [] r = r
  restore_capabilities ((key, row) ∷ rows) r =
      restore_capabilities rows (put_capability key (restored_capability row) r)

  abbrev pub cleared : Router → Router
  cleared r = record r {
    pins = [];
    removed_pin_counts = [];
    total_removed_pins = 0;
    soft_bound_overflow_count = 0;
    account_cooldowns = [];
    family_cooldowns = [];
    capability_evidence = [];
  }

  abbrev pub is_nonempty : Dict Bytes PinRow → Bool
  is_nonempty [] = false
  is_nonempty (e ∷ d) = true

  -- The code returns the number of pins beside the new state.
  unfoldable pub restore_from_store : RestoreResult → Router → Router × ℕ
  restore_from_store rows r =
      let loaded = record (cleared r) {
        pins = restore_pins rows.pins [];
        restored_any_valid_pin = is_nonempty rows.pins;
      } in
      let bounded = ensure_capacity now false loaded in
      let s =
        restore_capabilities rows.capability_evidence (restore_cooldowns rows.cooldowns bounded) in
      (s, size s.pins)
