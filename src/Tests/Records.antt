-- ===== src/Tests/Records.antt =====
-- Witnesses of the theorems on cooldowns, evidence, removal, restoring and durability.
use claudex.Prelude.{
  ◌≡◌, ◌↔◌, ◌⊎◌, refl, none, some, true, false, ◌==◌, string_eq, list_eq, nat_eq, pair_eq,
  if◌then◌else◌, arith,
}
use claudex.Prelude.Int.{ℤ, pos, ◌+ℤ◌, ◌-ℤ◌, ◌≤ℤ◌, ◌<ℤ◌}
use claudex.Dict.{get}
use claudex.Selection.Units.{AccountId, seconds, default, family_eq}
use claudex.Selection.Family.{codes}
use claudex.Selection.Pressure.{wall_to_monotonic}
use claudex.Selection.Gate.{account}
use claudex.Router.State.{CooldownEntry, CooldownRow, CapabilityEvidenceRow, eligible}
use claudex.Router.Cooldown.{
  CooldownRequest, is_mismatch, entry_cooldown_deadline, account_cooldown_deadline,
  install_cooldown,
}
use claudex.Router.Cooldown.Deadline.{entry_cooldown_deadline-eq-none_iff, install_cooldown-read}
use claudex.Router.Capability.{entry_is_eligible, capability_classifier_version}
use claudex.Router.Restore.{restored_capability}
use claudex.Router.Restore.Clamp.{restored_capability_iff}
use claudex.Router.Durability.{
  submit_new_pin_durability, finish_pin_durability, await_pin_durability_returns,
}
use claudex.Router.Durability.Barrier.{durability_is_settled}
use claudex.Tests.Data.{pinned_router, first_digest, first_pin}

abbrev cooldown : CooldownEntry
cooldown = record {
  deadline_monotonic = seconds 100;
  deadline_wall = seconds 1100;
  account_incarnation_id = "a1";
  account_profile_fingerprint = some "f1";
  reason = "rate_limit";
}

entry_cooldown_deadline-eq-none_iff_example :
    (entry_cooldown_deadline (some cooldown) (seconds 10) (seconds 1200) (some "a1") (some "f1")
      ≡ none)
    ↔ ((is_mismatch cooldown (some "a1") (some "f1") ≡ true)
        ⊎ (cooldown.deadline_monotonic ≤ℤ seconds 10)
        ⊎ (cooldown.deadline_wall ≤ℤ seconds 1200))
entry_cooldown_deadline-eq-none_iff_example =
    entry_cooldown_deadline-eq-none_iff cooldown (seconds 10) (seconds 1200) (some "a1") (some "f1")

still_cooling :
    entry_cooldown_deadline (some cooldown) (seconds 10) (seconds 1050) (some "a1") (some "f1")
    ≡ some (seconds 60)
unfolding entry_cooldown_deadline ◌-ℤ◌ ◌+ℤ◌
still_cooling = refl

abbrev cooldown_request : CooldownRequest
cooldown_request = record {
  account_id = "a";
  account_incarnation_id = "a1";
  account_profile_fingerprint = some "f1";
  scope = account;
  deadline = seconds 100;
  reason = "rate_limit";
  model_family = default;
  evidence = "429";
}

ahead : seconds 10 <ℤ cooldown_request.deadline
ahead = omega arith

install_cooldown-read_example :
    account_cooldown_deadline "a"
      (some "a1")
      (some "f1")
      (seconds 10)
      (seconds 1010)
      (install_cooldown cooldown_request (seconds 10) (seconds 1010) pinned_router).0
    ≡ (if cooldown_request.account_id == "a"
        then some (seconds 100)
        else account_cooldown_deadline "a"
            (some "a1")
            (some "f1")
            (seconds 10)
            (seconds 1010)
            pinned_router)
install_cooldown-read_example =
    install_cooldown-read cooldown_request "a" (seconds 10) (seconds 1010) pinned_router refl ahead

abbrev account_a : AccountId
account_a = "a"

abbrev long_row : CooldownRow
long_row = record {
  account_id = "a";
  scope = account;
  model_family = default;
  account_incarnation_id = "a1";
  account_profile_fingerprint = "f1";
  deadline_utc = seconds 900000;
  reason = "rate_limit";
  evidence = "429";
  updated_at_utc = seconds 1000;
}

abbrev evidence_row : CapabilityEvidenceRow
evidence_row = record {
  account_id = "a";
  capability_key = codes "opus";
  account_incarnation_id = "a1";
  account_profile_fingerprint = "f1";
  state = eligible;
  evidence_source = "upstream";
  classifier_version = "v1";
  observed_at_utc = seconds 900;
  expires_at_utc = some (seconds 4500);
}

restored_capability_iff_example :
    (entry_is_eligible
        (restored_capability (seconds 10) (seconds 1000) evidence_row)
        "a1"
        "f1"
        (seconds 10)
      ≡ true)
    ↔ ((evidence_row.state ≡ eligible)
        × (evidence_row.classifier_version ≡ capability_classifier_version)
        × ((expiry : ℤ) × (evidence_row.expires_at_utc ≡ some expiry)
            × (seconds 10 <ℤ wall_to_monotonic expiry (seconds 1000) (seconds 10))))
restored_capability_iff_example = restored_capability_iff (seconds 10) (seconds 1000) evidence_row

first_there : get first_digest pinned_router.pins ≡ some first_pin
unfolding get
first_there = refl

durability_is_settled_example :
    await_pin_durability_returns first_digest (
      finish_pin_durability
        (submit_new_pin_durability first_digest (pos 0) (pos 0) (pos 0) pinned_router).1
        false
        (submit_new_pin_durability first_digest (pos 0) (pos 0) (pos 0) pinned_router).0)
    ≡ true
durability_is_settled_example =
    durability_is_settled first_digest first_pin 0 false false (pos 0) (pos 0) (pos 0) pinned_router
      first_there refl refl
