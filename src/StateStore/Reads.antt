-- ===== src/StateStore/Reads.antt =====
-- The reads: each opens a connection of its own, which a closed store refuses.
use claudex.Prelude.{ℕ, Option, none, some, list_eq, nat_eq, pair_eq, string_eq, if◌then◌else◌}
use claudex.Dict.{get, size}
use claudex.Selection.Units.{AccountId, Window, window_eq, family_eq}
use claudex.Selection.Family.{Text}
use claudex.Selection.Pick.{Bytes}
use claudex.Selection.Gate.{scope_eq}
use claudex.Router.State.{
  PinRow, CooldownRow, CooldownKey, UsageObservationRow, CapabilityEvidenceRow,
}
use claudex.StateStore.Tables.Restore.{RestoredTables}
use claudex.StateStore.Queue.{StateStore}

-- `_read_connection`; none stands for its `RuntimeError`.
abbrev pub read_connection : {A : Type 0} → (RestoredTables → A) → StateStore → Option A
read_connection query s = if s.closed then none else some (query s.database.tables)

unfoldable pub read_pin : Bytes → StateStore → Option (Option PinRow)
read_pin digest s = read_connection (λ t. get digest t.pins) s

unfoldable pub count_pins : StateStore → Option ℕ
count_pins s = read_connection (λ t. size t.pins) s

unfoldable pub get_cooldown : CooldownKey → StateStore → Option (Option CooldownRow)
get_cooldown key s = read_connection (λ t. get key t.cooldowns) s

unfoldable pub get_usage_observation :
    AccountId × Window → StateStore → Option (Option UsageObservationRow)
get_usage_observation key s = read_connection (λ t. get key t.usage_observations) s

unfoldable pub get_capability_evidence :
    AccountId × Text → StateStore → Option (Option CapabilityEvidenceRow)
get_capability_evidence key s = read_connection (λ t. get key t.capability_evidence) s
