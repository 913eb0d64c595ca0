-- ===== src/Router/Capability.antt =====
-- Capability evidence: recorded only for a 2xx answer, and trusted only for its exact key.
pub mod Trust
use claudex.Prelude.{
  ℕ, ◌/◌, ◌≡◌, String, Option, none, some, Bool, true, false, not, nat_beq, ◌==◌, string_eq,
  pair_eq, list_eq, nat_eq, arith, if◌then◌else◌,
}
use claudex.Prelude.Int.{ℤ, ◌+ℤ◌, leb_ℤ}
use claudex.Dict.{get, put}
use claudex.Selection.Units.{AccountId, seconds}
use claudex.Selection.Family.{Text}
use claudex.Router.State.{Router, CapabilityEvidenceEntry, eligible, upsert_capability_evidence}
use claudex.Router.Store.{Submission, not_submitted, submit, submit_to}

abbrev pub capability_classifier_version : String
capability_classifier_version = "v1"

abbrev pub capability_evidence_ttl : ℤ
capability_evidence_ttl = seconds 3600

pub record CapabilityRequest : Type 0 where
  pub account_id : AccountId
  pub capability_key : Text
  pub account_incarnation_id : String
  pub account_profile_fingerprint : String
  pub status_code : ℕ
  pub evidence_source : String

-- A closed store raises after the evidence is recorded in memory.
unfoldable pub classify_capability_evidence :
    CapabilityRequest → ℤ → ℤ → Router → Router × Submission
unfolding submit_to
classify_capability_evidence q now wall_now r =
    if not (nat_beq (q.status_code / 100) 2)
    then (r, not_submitted)
    else submit
        (upsert_capability_evidence
          (record {
            account_id = q.account_id;
            capability_key = q.capability_key;
            account_incarnation_id = q.account_incarnation_id;
            account_profile_fingerprint = q.account_profile_fingerprint;
            state = eligible;
            evidence_source = q.evidence_source;
            classifier_version = capability_classifier_version;
            observed_at_utc = wall_now;
            expires_at_utc = some (wall_now +ℤ capability_evidence_ttl);
          })
          false)
        (record r {
          capability_evidence =
              put (q.account_id, q.capability_key)
                (record {
                  account_incarnation_id = q.account_incarnation_id;
                  account_profile_fingerprint = q.account_profile_fingerprint;
                  classifier_version = capability_classifier_version;
                  expires_at_monotonic = now +ℤ capability_evidence_ttl;
                })
                r.capability_evidence;
        })

unfoldable pub entry_is_eligible : Option CapabilityEvidenceEntry → String → String → ℤ → Bool
entry_is_eligible none incarnation fingerprint now = false
entry_is_eligible (some e) incarnation fingerprint now =
    if leb_ℤ e.expires_at_monotonic now
    then false
    else if not (e.account_incarnation_id == incarnation)
    then false
    else if not (e.account_profile_fingerprint == fingerprint)
    then false
    else if not (e.classifier_version == capability_classifier_version)
    then false
    else true

unfoldable pub is_capability_eligible : AccountId → Text → String → String → ℤ → Router → Bool
unfolding entry_is_eligible
is_capability_eligible a key incarnation fingerprint now r =
    entry_is_eligible (get (a, key) r.capability_evidence) incarnation fingerprint now
