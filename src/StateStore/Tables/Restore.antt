-- ===== src/StateStore/Tables/Restore.antt =====
-- `_do_restore`: the rows that are still valid are returned, the others are deleted and counted. The
-- four loops differ in the test of a row.
use claudex.Prelude.{
  ℕ, ◌+◌, List, [], ◌∷◌, ◌++◌, String, Option, none, some, not, Eq, ◌==◌, string_eq, list_eq,
  nat_eq, pair_eq, if◌then◌else◌, or_else,
}
use claudex.Prelude.Int.{ℤ, leb_ℤ}
use claudex.Dict.{Dict, get, put, pop_all}
use claudex.Selection.Units.{AccountId, family_eq, Window, window_eq}
use claudex.Selection.Family.{Text}
use claudex.Selection.Pick.{Bytes}
use claudex.Selection.Gate.{scope_eq}
use claudex.Router.State.{
  PinRow, CooldownRow, CooldownKey, UsageObservationRow, CapabilityEvidenceRow, RestoreResult,
  SkipClass, skip_eq, pins_expired, pins_epoch_mismatch, cooldowns_expired,
  usage_observations_stale_reset, capability_evidence_expired,
}

pub record RestoredTables : Type 0 where
  pub pins : Dict Bytes PinRow
  pub cooldowns : Dict CooldownKey CooldownRow
  pub usage_observations : Dict (AccountId × Window) UsageObservationRow
  pub capability_evidence : Dict (AccountId × Text) CapabilityEvidenceRow

-- The locals of one loop: the accepted rows, the keys to delete, and `skip_counts`.
pub record Sweep (K V : Type 0) : Type 0 where
  pub kept : Dict K V
  pub stale : List K
  pub skip_counts : Dict SkipClass ℕ

module _ {K V : Type 0} ⦃e : Eq K⦄ where
  unfoldable pub sweep_row : Option SkipClass → K → V → Sweep K V → Sweep K V
  sweep_row none k v s = record s { kept = put k v s.kept }
  sweep_row (some reason) k v s = record s {
    stale = s.stale ++ k ∷ [];
    skip_counts = put reason (or_else (get reason s.skip_counts) 0 + 1) s.skip_counts;
  }

  unfoldable pub sweep : (V → Option SkipClass) → Dict K V → Sweep K V → Sweep K V
  sweep judge [] s = s
  sweep judge ((k, v) ∷ rows) s = sweep judge rows (sweep_row (judge v) k v s)

  abbrev pub no_rows : Dict SkipClass ℕ → Sweep K V
  no_rows counts = record { kept = []; stale = []; skip_counts = counts }

abbrev pub judge_by : ℤ → SkipClass → Option ℤ → Option SkipClass
judge_by now_utc reason none = none
judge_by now_utc reason (some expiry) = if leb_ℤ expiry now_utc then some reason else none

unfoldable pub judge_pin : String → ℤ → PinRow → Option SkipClass
judge_pin current_epoch now_utc pin =
    if leb_ℤ pin.expires_at_utc now_utc
    then some pins_expired
    else if not (pin.balanced_epoch_id == current_epoch)
    then some pins_epoch_mismatch
    else none

unfoldable pub judge_cooldown : ℤ → CooldownRow → Option SkipClass
judge_cooldown now_utc row = judge_by now_utc cooldowns_expired (some row.deadline_utc)

unfoldable pub judge_observation : ℤ → UsageObservationRow → Option SkipClass
judge_observation now_utc row = judge_by now_utc usage_observations_stale_reset row.reset_at_utc

unfoldable pub judge_capability : ℤ → CapabilityEvidenceRow → Option SkipClass
judge_capability now_utc row = judge_by now_utc capability_evidence_expired row.expires_at_utc

unfoldable pub do_restore : String → ℤ → RestoredTables → RestoreResult × RestoredTables
do_restore current_epoch now_utc t =
    let pins = sweep (judge_pin current_epoch now_utc) t.pins (no_rows []) in
    let cooldowns = sweep (judge_cooldown now_utc) t.cooldowns (no_rows pins.skip_counts) in
    let usage =
      sweep (judge_observation now_utc) t.usage_observations (no_rows cooldowns.skip_counts) in
    let capability =
      sweep (judge_capability now_utc) t.capability_evidence (no_rows usage.skip_counts) in
    (
      record {
        pins = pins.kept;
        cooldowns = cooldowns.kept;
        usage_observations = usage.kept;
        capability_evidence = capability.kept;
        skip_counts = capability.skip_counts;
      },
      record {
        pins = pop_all pins.stale t.pins;
        cooldowns = pop_all cooldowns.stale t.cooldowns;
        usage_observations = pop_all usage.stale t.usage_observations;
        capability_evidence = pop_all capability.stale t.capability_evidence;
      },
    )
