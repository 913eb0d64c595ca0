-- ===== src/StateStore/Open.antt =====
-- `open_`: which database a store starts from, and the store that `__init__` and
-- `_load_epoch_from_meta` make. What stands at the path is an argument: its name in the file system
-- decides nothing else.
use claudex.Prelude.{ℕ, String, [], Option, none, some, false, ltb, nat_beq, if◌then◌else◌}
use claudex.Prelude.Int.{ℤ}
use claudex.Selection.Pick.{Bytes}
use claudex.StateStore.Tables.{Database, schema_version}
use claudex.StateStore.Tables.Restore.{RestoredTables}
use claudex.StateStore.Queue.{StateStore}

-- A file that is no database with a `meta.schema_version` that is a number, or one that has it. The
-- rows of the latter are seen as tables only if the version is this build's.
pub data Disk : Type 0 where
  absent : Disk
  unreadable : Disk
  versioned : ℕ → Database → Disk

-- `_read_schema_version_readonly`
abbrev pub read_schema_version : Disk → Option ℕ
read_schema_version absent = none
read_schema_version unreadable = none
read_schema_version (versioned n db) = some n

abbrev pub no_tables : RestoredTables
no_tables = record { pins = []; cooldowns = []; usage_observations = []; capability_evidence = [] }

-- `_SCHEMA_SQL` and `_seed_meta`
abbrev pub fresh_database : String → Bytes → Database
fresh_database id seed = record {
  meta_schema_version = schema_version;
  meta_epoch_id = id;
  meta_epoch_seed = seed;
  meta_epoch_active = false;
  tables = no_tables;
}

-- `UnsupportedSchemaVersionError` with the file untouched, or a database, which replaces a file that
-- was there and has been moved aside (`quarantined`).
pub data Opened : Type 0 where
  unsupported : Opened
  opened : Database → Opened
  quarantined : Disk → Database → Opened

abbrev pub replace : Disk → Database → Opened
replace absent db = opened db
replace disk db = quarantined disk db

unfoldable pub open_ : String → Bytes → Disk → Opened
open_ id seed (versioned n db) =
    if ltb schema_version n
    then unsupported
    else if nat_beq n schema_version
    then opened db
    else replace (versioned n db) (fresh_database id seed)
open_ id seed disk = replace disk (fresh_database id seed)

-- The default timings of state_model.py, in microseconds.
abbrev pub default_debounce : ℕ
default_debounce = 1000000

abbrev pub default_pin_last_seen_min_interval : ℕ
default_pin_last_seen_min_interval = 60000000

abbrev pub default_retry_backoff_initial : ℕ
default_retry_backoff_initial = 500000

abbrev pub default_retry_backoff_max : ℕ
default_retry_backoff_max = 30000000

-- `__init__` with its timings, and `_load_epoch_from_meta`
abbrev pub new_store : ℤ → ℤ → ℕ → ℕ → Database → StateStore
new_store debounce interval initial longest db = record {
  debounce = debounce;
  pin_last_seen_min_interval = interval;
  retry_backoff_initial = initial;
  retry_backoff_max = longest;
  pending = [];
  retrying = [];
  writer_job = none;
  writer_crashed = false;
  committed_barriers = [];
  next_sequence = 1;
  closed = false;
  stopping = false;
  persistence_degraded = false;
  balanced_epoch_id = db.meta_epoch_id;
  epoch_seed = db.meta_epoch_seed;
  epoch_active = db.meta_epoch_active;
  last_pin_touch_accepted = [];
  database = db;
  restored = [];
  settled = [];
}
