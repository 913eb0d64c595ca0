-- ===== src/StateStore/Tables.antt =====
-- The database as its tables by primary key, and what each payload (`apply` in the code) does to it.
pub mod Restore
pub mod Rows
pub mod Validity
pub mod Counts
use claudex.Prelude.{
  ℕ, List, [], ◌∷◌, String, Option, none, some, Bool, true, false, not, ◌==◌, string_eq, list_eq,
  nat_eq, pair_eq, if◌then◌else◌,
}
use claudex.Prelude.Int.{ℤ}
use claudex.Dict.{Dict, get, put, pop}
use claudex.Selection.Units.{AccountId, Family, family_eq, Window, window_eq}
use claudex.Selection.Family.{Text}
use claudex.Selection.Pick.{Bytes}
use claudex.Selection.Gate.{CooldownScope, scope_eq}
use claudex.Router.State.{
  PinRow, CooldownRow, CooldownKey, UsageObservationRow, CapabilityEvidenceRow, RestoreResult,
}
use claudex.StateStore.Tables.Restore.{do_restore, RestoredTables}

abbrev pub schema_version : ℕ
schema_version = 2

-- The table `meta` is a record of its four rows.
pub record Database : Type 0 where
  pub meta_schema_version : ℕ
  pub meta_epoch_id : String
  pub meta_epoch_seed : Bytes
  pub meta_epoch_active : Bool
  pub tables : RestoredTables

-- The payload of a write: what its `apply` closes over.
pub data Payload : Type 0 where
  rotate : String → Bytes → Payload
  invalidate : Payload
  write_pin : PinRow → Payload
  touch_last_seen : Bytes → ℤ → ℤ → Payload
  erase_pin : Bytes → Payload
  write_cooldown : CooldownRow → Payload
  erase_cooldown : CooldownKey → Payload
  write_usage : UsageObservationRow → Payload
  erase_usage : AccountId × Window → Payload
  write_capability : CapabilityEvidenceRow → Payload
  erase_capability : AccountId × Text → Payload
  erase_incarnation : String → Payload
  restore_rows : ℤ → Payload

module _ {K V : Type 0} where
  -- `DELETE FROM … WHERE p`
  unfoldable pub delete_where : (V → Bool) → Dict K V → Dict K V
  delete_where p [] = []
  delete_where p ((k, v) ∷ d) = let rest = delete_where p d in if p v then rest else (k, v) ∷ rest

abbrev pub touched : Bytes → ℤ → ℤ → Option PinRow → Dict Bytes PinRow → Dict Bytes PinRow
touched digest last_seen expires_at none pins = pins
touched digest last_seen expires_at (some row) pins =
    put digest (record row { last_seen_utc = last_seen; expires_at_utc = expires_at }) pins

abbrev pub cooldown_key : CooldownRow → CooldownKey
cooldown_key row = (row.account_id, (row.scope, row.model_family))

-- `DELETE FROM … WHERE account_incarnation_id = ?` on the four tables
unfoldable pub without_incarnation : String → RestoredTables → RestoredTables
without_incarnation i t = record {
  pins = delete_where (λ row. row.account_incarnation_id == i) t.pins;
  cooldowns = delete_where (λ row. row.account_incarnation_id == i) t.cooldowns;
  usage_observations = delete_where (λ row. row.account_incarnation_id == i) t.usage_observations;
  capability_evidence = delete_where (λ row. row.account_incarnation_id == i) t.capability_evidence;
}

module _ (current_epoch : String) where
  -- The tables after a payload is applied while the store's epoch id is `current_epoch`.
  unfoldable pub apply_tables : Payload → RestoredTables → RestoredTables
  apply_tables (rotate id seed) t = record t { pins = [] }
  apply_tables invalidate t = record t {
    pins = delete_where (λ row. not (row.balanced_epoch_id == current_epoch)) t.pins;
  }
  apply_tables (write_pin row) t = record t { pins = put row.session_key_digest row t.pins }
  apply_tables (touch_last_seen digest last_seen expires_at) t = record t {
    pins = touched digest last_seen expires_at (get digest t.pins) t.pins;
  }
  apply_tables (erase_pin digest) t = record t { pins = pop digest t.pins }
  apply_tables (write_cooldown row) t = record t {
    cooldowns = put (cooldown_key row) row t.cooldowns;
  }
  apply_tables (erase_cooldown key) t = record t { cooldowns = pop key t.cooldowns }
  apply_tables (write_usage row) t = record t {
    usage_observations = put (row.account_id, row.window) row t.usage_observations;
  }
  apply_tables (erase_usage key) t = record t { usage_observations = pop key t.usage_observations }
  apply_tables (write_capability row) t = record t {
    capability_evidence = put (row.account_id, row.capability_key) row t.capability_evidence;
  }
  apply_tables (erase_capability key) t = record t {
    capability_evidence = pop key t.capability_evidence;
  }
  apply_tables (erase_incarnation i) t = without_incarnation i t
  apply_tables (restore_rows now_utc) t = (do_restore current_epoch now_utc t).1

  -- The same with the rows of `meta`.
  unfoldable pub apply_payload : Payload → Database → Database
  apply_payload (rotate id seed) db = record db {
    meta_epoch_id = id;
    meta_epoch_seed = seed;
    tables = apply_tables (rotate id seed) db.tables;
  }
  apply_payload p db = record db { tables = apply_tables p db.tables }
