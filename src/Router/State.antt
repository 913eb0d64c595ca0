-- ===== src/Router/State.antt =====
-- The state of `ClaudeBalancedRouter` and the persisted rows of balanced/state_model.py.
-- Reservations and barriers are objects that several coroutines hold: they stand on heaps, and the
-- router keeps their indices.
use claudex.Prelude.{ℕ, ◌≡◌, ◌↔◌, String, List, [], Option, Bool, true, false, Eq, arith}
use claudex.Prelude.Int.{ℤ}
use claudex.Dict.{Dict}
use claudex.Selection.Units.{AccountId, Family, Window}
use claudex.Selection.Family.{Text}
use claudex.Selection.Observation.{ObservationView, no_observations}
use claudex.Selection.Pick.{Bytes, KeyKind}
use claudex.Selection.Gate.{CooldownScope}

pub record PinRow : Type 0 where
  pub session_key_digest : Bytes
  pub key_kind : KeyKind
  pub account_id : AccountId
  pub account_incarnation_id : String
  pub last_seen_utc : ℤ
  pub expires_at_utc : ℤ
  pub generation : ℕ
  pub balanced_epoch_id : String
  pub model_family : Family

pub record CooldownRow : Type 0 where
  pub account_id : AccountId
  pub scope : CooldownScope
  pub model_family : Family
  pub account_incarnation_id : String
  pub account_profile_fingerprint : String
  pub deadline_utc : ℤ
  pub reason : String
  pub evidence : String
  pub updated_at_utc : ℤ

pub data CapabilityState : Type 0 where
  eligible denied : CapabilityState

pub record CapabilityEvidenceRow : Type 0 where
  pub account_id : AccountId
  pub capability_key : Text
  pub account_incarnation_id : String
  pub account_profile_fingerprint : String
  pub state : CapabilityState
  pub evidence_source : String
  pub classifier_version : String
  pub observed_at_utc : ℤ
  pub expires_at_utc : Option ℤ

-- A percentage is in hundredths of a point.
pub record UsageObservationRow : Type 0 where
  pub account_id : AccountId
  pub window : Window
  pub account_incarnation_id : String
  pub account_profile_fingerprint : String
  pub used_percent : ℤ
  pub reset_identity : String
  pub reset_at_utc : Option ℤ
  pub observed_at_utc : ℤ
  pub source : String
  pub unified_status : Option String
  pub unified_claim : Option String

abbrev pub CooldownKey : Type 0
CooldownKey = AccountId × (CooldownScope × Family)

-- Why a restore skips a row.
pub data SkipClass : Type 0 where
  pins_expired pins_epoch_mismatch cooldowns_expired : SkipClass
  usage_observations_stale_reset capability_evidence_expired : SkipClass

abbrev pub skip_beq : SkipClass → SkipClass → Bool
skip_beq pins_expired pins_expired = true
skip_beq pins_epoch_mismatch pins_epoch_mismatch = true
skip_beq cooldowns_expired cooldowns_expired = true
skip_beq usage_observations_stale_reset usage_observations_stale_reset = true
skip_beq capability_evidence_expired capability_evidence_expired = true
skip_beq _ _ = false

pub skip_beq_iff : (a b : SkipClass) → (skip_beq a b ≡ true) ↔ (a ≡ b)
skip_beq_iff a b = (λ h. ground arith, λ h. ground arith)

instance abbrev pub skip_eq : Eq SkipClass
skip_eq = record { equals = skip_beq; equals_iff = skip_beq_iff }

-- The rows that the store accepted, and how many it skipped for each reason.
pub record RestoreResult : Type 0 where
  pub pins : Dict Bytes PinRow
  pub cooldowns : Dict CooldownKey CooldownRow
  pub usage_observations : Dict (AccountId × Window) UsageObservationRow
  pub capability_evidence : Dict (AccountId × Text) CapabilityEvidenceRow
  pub skip_counts : Dict SkipClass ℕ

-- What the router submits to its store, each with its priority.
pub data StoreWrite : Type 0 where
  upsert_pin : PinRow → Bool → StoreWrite
  touch_pin_last_seen : Bytes → ℤ → ℤ → StoreWrite
  delete_pin : Bytes → Bool → StoreWrite
  upsert_cooldown : CooldownRow → Bool → StoreWrite
  upsert_capability_evidence : CapabilityEvidenceRow → Bool → StoreWrite
  delete_all_for_incarnation : String → StoreWrite

pub record RuntimeStore : Type 0 where
  pub closed : Bool
  pub persistence_degraded : Bool
  pub submitted : List StoreWrite

pub record CooldownEntry : Type 0 where
  pub deadline_monotonic : ℤ
  pub deadline_wall : ℤ
  pub account_incarnation_id : String
  pub account_profile_fingerprint : Option String
  pub reason : String

pub record CapabilityEvidenceEntry : Type 0 where
  pub account_incarnation_id : String
  pub account_profile_fingerprint : String
  pub classifier_version : String
  pub expires_at_monotonic : ℤ

pub record PinEntry : Type 0 where
  pub session_key_digest : Bytes
  pub key_kind : KeyKind
  pub account_id : AccountId
  pub account_incarnation_id : String
  pub generation : ℕ
  pub last_seen_monotonic : ℤ
  pub expires_at_monotonic : ℤ
  pub migration_reserved : Bool
  pub pending_durability : Option ℕ
  pub model_family : Family

pub data MigrationOutcome : Type 0 where
  pending committed cas_lost retryable_preheader_failure terminal_failure : MigrationOutcome
  target_removed mode_stopped : MigrationOutcome

abbrev pub outcome_beq : MigrationOutcome → MigrationOutcome → Bool
outcome_beq pending pending = true
outcome_beq committed committed = true
outcome_beq cas_lost cas_lost = true
outcome_beq retryable_preheader_failure retryable_preheader_failure = true
outcome_beq terminal_failure terminal_failure = true
outcome_beq target_removed target_removed = true
outcome_beq mode_stopped mode_stopped = true
outcome_beq _ _ = false

pub outcome_beq_iff : (a b : MigrationOutcome) → (outcome_beq a b ≡ true) ↔ (a ≡ b)
outcome_beq_iff a b = (λ h. ground arith, λ h. ground arith)

instance abbrev pub outcome_eq : Eq MigrationOutcome
outcome_eq = record { equals = outcome_beq; equals_iff = outcome_beq_iff }

-- `resolved` is the state of `resolved_event`.
pub record MigrationReservation : Type 0 where
  pub source_account : AccountId
  pub source_generation : ℕ
  pub target_account : AccountId
  pub owner_attempt_id : String
  pub outcome : MigrationOutcome
  pub resolved : Bool

pub data RemovalReason : Type 0 where
  expired removed evicted_lru : RemovalReason

abbrev pub reason_beq : RemovalReason → RemovalReason → Bool
reason_beq expired expired = true
reason_beq removed removed = true
reason_beq evicted_lru evicted_lru = true
reason_beq _ _ = false

pub reason_beq_iff : (a b : RemovalReason) → (reason_beq a b ≡ true) ↔ (a ≡ b)
reason_beq_iff a b = (λ h. ground arith, λ h. ground arith)

instance abbrev pub reason_eq : Eq RemovalReason
reason_eq = record { equals = reason_beq; equals_iff = reason_beq_iff }

pub record Router : Type 0 where
  pub balanced_epoch_id : String
  pub observations : ObservationView
  pub persistence_degraded : Bool
  pub store : Option RuntimeStore
  pub pin_ttl_uuid_seconds : ℤ
  pub pin_ttl_content_hash_seconds : ℤ
  pub pin_map_max_entries : ℕ
  pub pins : Dict Bytes PinEntry
  pub in_flight : Dict AccountId ℕ
  pub restored_any_valid_pin : Bool
  pub removed_pin_counts : Dict RemovalReason ℕ
  pub total_removed_pins : ℕ
  pub soft_bound_overflow_count : ℕ
  pub reservations : Dict Bytes ℕ
  pub reservation_objects : List MigrationReservation
  pub barriers : List Bool
  pub migration_tokens : Dict String AccountId
  pub removed_accounts : List AccountId
  pub migration_outcome_counts : Dict MigrationOutcome ℕ
  pub migration_cas_lost : ℕ
  pub migration_commit_rejected_target_removed : ℕ
  pub account_cooldowns : Dict AccountId CooldownEntry
  pub family_cooldowns : Dict (AccountId × Family) CooldownEntry
  pub capability_evidence : Dict (AccountId × Text) CapabilityEvidenceEntry
  pub pending_incarnation_removals : Dict String ℕ

-- `__init__`
abbrev pub new_router : String → Option RuntimeStore → ℤ → ℤ → ℕ → Router
new_router epoch store ttl_uuid ttl_content_hash max_entries = record {
  balanced_epoch_id = epoch;
  observations = no_observations;
  persistence_degraded = false;
  store = store;
  pin_ttl_uuid_seconds = ttl_uuid;
  pin_ttl_content_hash_seconds = ttl_content_hash;
  pin_map_max_entries = max_entries;
  pins = [];
  in_flight = [];
  restored_any_valid_pin = false;
  removed_pin_counts = [];
  total_removed_pins = 0;
  soft_bound_overflow_count = 0;
  reservations = [];
  reservation_objects = [];
  barriers = [];
  migration_tokens = [];
  removed_accounts = [];
  migration_outcome_counts = [];
  migration_cas_lost = 0;
  migration_commit_rejected_target_removed = 0;
  account_cooldowns = [];
  family_cooldowns = [];
  capability_evidence = [];
  pending_incarnation_removals = [];
}
