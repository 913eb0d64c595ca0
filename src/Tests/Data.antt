-- ===== src/Tests/Data.antt =====
-- The inputs of the witnesses: a router with two pins, and a migration from one account to another.
use claudex.Prelude.{◌<◌, All, [], ◌∷◌, none, some, true, false, refl, arith}
use claudex.Prelude.Int.{pos}
use claudex.Selection.Units.{AccountId, unset, default, seconds}
use claudex.Selection.Observation.{ObservationView}
use claudex.Selection.Family.{codes}
use claudex.Selection.Pick.{Bytes, uuid, content_hash, Sampling, AccountCandidate, SessionKey}
use claudex.Router.State.{Router, PinEntry, new_router}
use claudex.Router.Place.{PlaceRequest}
use claudex.Router.Migration.{
  MigrationRequest, CommitRequest, acquire_migration_reservation, commit_at_headers,
}

abbrev pub empty_router : Router
empty_router = new_router "epoch" none (seconds 18000) (seconds 1800) 1

abbrev pub first_digest : Bytes
first_digest = 1 ∷ []

abbrev pub second_digest : Bytes
second_digest = 2 ∷ []

abbrev pub first_pin : PinEntry
first_pin = record {
  session_key_digest = first_digest;
  key_kind = uuid;
  account_id = "a";
  account_incarnation_id = "a1";
  generation = 0;
  last_seen_monotonic = pos 0;
  expires_at_monotonic = seconds 18000;
  migration_reserved = false;
  pending_durability = some 0;
  model_family = default;
}

abbrev pub second_pin : PinEntry
second_pin = record first_pin {
  session_key_digest = second_digest;
  key_kind = content_hash;
  last_seen_monotonic = seconds 1;
  expires_at_monotonic = seconds 1801;
  pending_durability = none;
}

abbrev pub pinned_router : Router
pinned_router = record empty_router {
  pins = (first_digest, first_pin) ∷ (second_digest, second_pin) ∷ [];
  barriers = false ∷ [];
}

abbrev pub to_b : MigrationRequest
to_b = record {
  source_account = "a";
  source_generation = 0;
  target_account = "b";
  attempt_id = "t1";
}

abbrev pub migrating_router : Router
migrating_router = (acquire_migration_reservation first_digest to_b pinned_router).0

abbrev pub commit_to_b : CommitRequest
commit_to_b = record {
  attempt_id = "t1";
  source_account = "a";
  source_generation = 0;
  target_account = "b";
  target_account_incarnation_id = "b1";
  target_still_registered = true;
}

abbrev pub keep_view : ObservationView → ObservationView
keep_view v = v

abbrev pub migrated_router : Router
migrated_router = (commit_at_headers first_digest commit_to_b keep_view migrating_router).0

abbrev pub zeros : Bytes
zeros =
    0 ∷ 0 ∷ 0 ∷ 0 ∷ 0 ∷ 0 ∷ 0 ∷ 0 ∷ 0 ∷ 0 ∷ 0 ∷ 0 ∷ 0 ∷ 0 ∷ 0 ∷ 0 ∷ 0 ∷ 0 ∷ 0 ∷ 0 ∷ 0 ∷ 0 ∷ 0 ∷ 0
    ∷ 0 ∷ 0 ∷ 0 ∷ 0 ∷ 0 ∷ 0 ∷ 0 ∷ 0 ∷ []

pub zeros-bytes : All (λ b. b < 256) zeros
zeros-bytes = ground arith

-- A stand-in for the hash and the logarithm that has what is asked of them.
abbrev pub flat_sampling : Sampling
flat_sampling = record {
  hmac_sha256 = λ seed message. zeros;
  neg_log = λ n. 5;
  hmac_length = λ seed message. refl;
  hmac_bytes = λ seed message. zeros-bytes;
}

abbrev pub candidate : AccountId → AccountCandidate
candidate a = record {
  account_id = a;
  account_incarnation_id = "i";
  ready = true;
  capability_denied = false;
  account_cooldown_until = none;
  family_cooldown_until = none;
}

abbrev pub third_key : SessionKey
third_key = record { digest = 3 ∷ []; kind = uuid; scoring_digest = []; family = unset }

abbrev pub third_request : PlaceRequest
third_request = record {
  session_key = third_key;
  model = codes "opus";
  candidates = candidate "b" ∷ candidate "c" ∷ [];
  seed = 7 ∷ [];
  serving_account_id = some "c";
  already_attempted = "b" ∷ [];
}
