-- ===== src/Router/Migration.antt =====
-- Migration reservations, attempt tokens and the commit at the upstream headers. Each method runs
-- with no suspension point inside.
pub mod Commit
pub mod Heap
pub mod Waiters
pub mod InFlight
use claudex.Prelude.{
  ℕ, ◌+◌, ◌++◌, String, string_eq, list_eq, nat_eq, List, [], ◌∷◌, Option, none, some, Bool, true,
  false, not, ◌&&◌, contains, nat_beq, length, get_elem?, set, or_else, ◌==◌, is_some,
  if◌then◌else◌,
}
use claudex.Dict.{get, put, pop}
use claudex.Selection.Units.{AccountId}
use claudex.Selection.Observation.{ObservationView}
use claudex.Selection.Pick.{Bytes}
use claudex.Router.State.{
  Router, PinEntry, MigrationReservation, MigrationOutcome, pending, outcome_beq, outcome_eq,
}
use claudex.Router.Attempts.{begin_attempt, end_attempt}
use claudex.Router.Pins.{set_migration_reserved, remove_pin, remove_pin_for}

abbrev pub follow {ℓ} : {A : Type ℓ} → List A → Option ℕ → Option A
follow heap none = none
follow heap (some i) = get_elem? heap i

-- `get_migration_reservation`: the object that the map holds for the session
abbrev pub get_migration_reservation : Bytes → Router → Option MigrationReservation
get_migration_reservation digest r = follow r.reservation_objects (get digest r.reservations)

abbrev pub is_pending : Option MigrationReservation → Bool
is_pending none = false
is_pending (some v) = outcome_beq v.outcome pending

pub record MigrationRequest : Type 0 where
  pub source_account : AccountId
  pub source_generation : ℕ
  pub target_account : AccountId
  pub attempt_id : String

abbrev pub reservation_of : MigrationRequest → MigrationReservation
reservation_of q = record {
  source_account = q.source_account;
  source_generation = q.source_generation;
  target_account = q.target_account;
  owner_attempt_id = q.attempt_id;
  outcome = pending;
  resolved = false;
}

unfoldable pub create_reservation : Bytes → MigrationRequest → Router → Router
create_reservation digest q r = set_migration_reserved digest true (
    begin_attempt q.target_account (record r {
      reservations = put digest (length r.reservation_objects) r.reservations;
      reservation_objects = r.reservation_objects ++ reservation_of q ∷ [];
      migration_tokens = put q.attempt_id q.target_account r.migration_tokens;
    }))

-- The reservation that now holds the session, and whether this call created it.
unfoldable pub acquire_migration_reservation :
    Bytes → MigrationRequest → Router → Router × Option ℕ × Bool
acquire_migration_reservation digest q r =
    if is_pending (get_migration_reservation digest r)
    then (r, get digest r.reservations, false)
    else (create_reservation digest q r, some (length r.reservation_objects), true)

abbrev pub owns : Option MigrationReservation → String → Bool
owns none attempt = false
owns (some v) attempt = outcome_beq v.outcome pending && (v.owner_attempt_id == attempt)

abbrev pub settle_object :
    Option ℕ
    → Option MigrationReservation
    → MigrationOutcome
    → List MigrationReservation
    → List MigrationReservation
settle_object (some i) (some v) outcome heap =
    set heap i (record v { outcome = outcome; resolved = true })
settle_object _ _ outcome heap = heap

unfoldable pub settle : Bytes → MigrationOutcome → Router → Router
settle digest outcome r = set_migration_reserved digest false (record r {
  reservation_objects =
      settle_object (get digest r.reservations) (get_migration_reservation digest r) outcome
        r.reservation_objects;
  migration_outcome_counts =
      put outcome (or_else (get outcome r.migration_outcome_counts) 0 + 1)
        r.migration_outcome_counts;
  reservations = pop digest r.reservations;
})

-- Whether this call resolved the reservation.
unfoldable pub resolve_migration_reservation :
    Bytes → String → MigrationOutcome → Router → Router × Bool
resolve_migration_reservation digest attempt outcome r =
    if owns (get_migration_reservation digest r) attempt
    then (settle digest outcome r, true)
    else (r, false)

abbrev pub migration_token_target : String → Router → Option AccountId
migration_token_target attempt r = get attempt r.migration_tokens

abbrev pub release_found : String → Option AccountId → Router → Router
release_found attempt none r = r
release_found attempt (some target) r =
    end_attempt target (record r { migration_tokens = pop attempt r.migration_tokens })

unfoldable pub release_migration_token : String → Router → Router × Option AccountId
release_migration_token attempt r =
    let target = get attempt r.migration_tokens in (release_found attempt target r, target)

unfoldable pub resolve_migration_owner_terminal :
    Bytes → String → MigrationOutcome → Router → Router × Bool
resolve_migration_owner_terminal digest attempt outcome r =
    let (s, resolved_now) = resolve_migration_reservation digest attempt outcome r in
    ((release_migration_token attempt s).0, resolved_now)

abbrev pub source_is_removed : Option MigrationReservation → List AccountId → Bool
source_is_removed none gone = false
source_is_removed (some v) gone = contains gone v.source_account

unfoldable pub resolve_migration_preheader_failure :
    Bytes → String → MigrationOutcome → Router → Router × Bool
resolve_migration_preheader_failure digest attempt outcome r =
    let source = get_migration_reservation digest r in
    let (s, resolved_now) = resolve_migration_owner_terminal digest attempt outcome r in
    (
      if resolved_now && source_is_removed source s.removed_accounts
          then (remove_pin digest s).0
          else s,
      resolved_now,
    )

pub data CommitOutcome : Type 0 where
  committed cas_lost target_removed : CommitOutcome

pub record CommitRequest : Type 0 where
  pub attempt_id : String
  pub source_account : AccountId
  pub source_generation : ℕ
  pub target_account : AccountId
  pub target_account_incarnation_id : String
  pub target_still_registered : Bool

abbrev pub pin_matches : Option PinEntry → AccountId → ℕ → Bool
pin_matches none source generation = false
pin_matches (some e) source generation = (e.account_id == source) && nat_beq e.generation generation

abbrev pub owner_matches : Option MigrationReservation → String → Bool
owner_matches none attempt = false
owner_matches (some v) attempt = v.owner_attempt_id == attempt

abbrev pub cas_ok : Bytes → CommitRequest → Router → Bool
cas_ok digest q r =
    pin_matches (get digest r.pins) q.source_account q.source_generation
    && owner_matches (get_migration_reservation digest r) q.attempt_id

abbrev pub flip_pin : PinEntry → CommitRequest → ℕ → PinEntry
flip_pin e q barrier = record e {
  account_id = q.target_account;
  account_incarnation_id = q.target_account_incarnation_id;
  generation = e.generation + 1;
  pending_durability = some barrier;
}

abbrev pub flip_found : Bytes → Option PinEntry → CommitRequest → Router → Router
flip_found digest none q r = r
flip_found digest (some e) q r = record r {
  pins = put digest (flip_pin e q (length r.barriers)) r.pins;
  barriers = r.barriers ++ false ∷ [];
}

unfoldable pub commit_registered :
    Bytes → CommitRequest → Router → Router × CommitOutcome × Option ℕ
commit_registered digest q r =
    if cas_ok digest q r
    then (
      (resolve_migration_reservation digest q.attempt_id MigrationOutcome.committed
          (flip_found digest (get digest r.pins) q r)).0,
      committed,
      some (length r.barriers),
    )
    else (
      (resolve_migration_reservation digest q.attempt_id MigrationOutcome.cas_lost
          (record r { migration_cas_lost = r.migration_cas_lost + 1 })).0,
      cas_lost,
      none,
    )

-- The outcome, and the barrier of the new generation. The pin that the code returns beside them is
-- the map's own object.
unfoldable pub commit_at_headers :
    Bytes
    → CommitRequest
    → (ObservationView → ObservationView)
    → Router
    → Router × CommitOutcome × Option ℕ
commit_at_headers digest q ingest_headers r =
    let s = record r { observations = ingest_headers r.observations } in
    if not q.target_still_registered
    then (
      (resolve_migration_reservation digest q.attempt_id MigrationOutcome.target_removed (record s {
        migration_commit_rejected_target_removed = s.migration_commit_rejected_target_removed + 1;
      })).0,
      target_removed,
      none,
    )
    else commit_registered digest q s
