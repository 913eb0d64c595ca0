-- ===== src/Router/Place.antt =====
-- `place_session`: the pick and the pin insertion, with no suspension point between them.
pub mod Sticky
pub mod Fresh
pub mod Outcome
use claudex.Prelude.{
  ℕ, zero, ◌+◌, ◌++◌, List, [], ◌∷◌, map, Option, none, some, Bool, true, false, not, ◌&&◌, ◌||◌,
  any, contains, select, is_some, or_else, length, nat_beq, string_eq, list_eq, nat_eq,
  if◌then◌else◌,
}
use claudex.Prelude.Int.{ℤ, ◌+ℤ◌}
use claudex.Dict.{Dict, size, get, put}
use claudex.Selection.Units.{AccountId, Family, unset, family_beq, Window}
use claudex.Selection.Family.{Text, quota_family, binding_windows}
use claudex.Selection.Pressure.{unknown_floor, max_of}
use claudex.Selection.Observation.{ObservationView, window_pressure, warning_factor}
use claudex.Selection.Weights.{Weight, select_weights}
use claudex.Selection.Pick.{
  Bytes, KeyKind, SessionKey, scoring_digest_or_default, Sampling, AccountCandidate,
  is_eligible_candidate, pick_weighted_hrw, or_digest,
}
use claudex.Router.State.{Router, PinEntry}
use claudex.Router.Attempts.{in_flight_count}
use claudex.Router.Pins.{
  purge_expired_pins, ensure_capacity, active_migration_count, pin_ttl_seconds,
}

-- The pressures of the binding windows that are not unknown.
unfoldable pub known_pressures : ObservationView → AccountId → List Window → ℤ → List ℕ
known_pressures view a [] now = []
known_pressures view a (w ∷ ws) now =
    let more = known_pressures view a ws now in
    elim (window_pressure view a w now) [ none ↦ more | some p ↦ p ∷ more ]

unfoldable pub candidate_set_unknown_floor : ObservationView → List AccountId → Family → ℤ → ℕ
candidate_set_unknown_floor view ids family now = unknown_floor (complete ids)
  where
    complete : List AccountId → List ℕ
    complete [] = []
    complete (a ∷ rest) = known_pressures view a (binding_windows family) now ++ complete rest

-- `max` over the binding windows, of which there is always one; every value is at least 0.
unfoldable pub account_pressure : ObservationView → AccountId → Family → ℤ → ℕ → ℕ
account_pressure view a family now floor =
    max_of 0 (map (λ w. or_else (window_pressure view a w now) floor) (binding_windows family))

abbrev pub candidate_ids : List AccountCandidate → List AccountId
candidate_ids = map (λ c. c.account_id)

unfoldable pub candidate_weights :
    List AccountCandidate → Family → ℤ → Router → Dict AccountId Weight
candidate_weights eligible family now r =
    let ids = candidate_ids eligible in
    let floor = candidate_set_unknown_floor r.observations ids family now in
    select_weights (λ a. account_pressure r.observations a family now floor)
      (λ a. warning_factor r.observations a (binding_windows family) now) (λ a. in_flight_count a r)
      ids

unfoldable pub any_known : ObservationView → List AccountId → Family → ℤ → Bool
any_known view ids family now =
    any (λ a. any (λ w. is_some (window_pressure view a w now)) (binding_windows family)) ids

-- The account that a cold start goes to, if this is one.
unfoldable pub cold_start :
    List AccountId → List AccountId → Family → Option AccountId → ℤ → Router → Option AccountId
cold_start eligible all family none now r = none
cold_start eligible all family (some serving) now r =
    if not (nat_beq (size r.pins) 0)
    then none
    else if r.restored_any_valid_pin
    then none
    else if not (nat_beq (active_migration_count r) 0)
    then none
    else if any_known r.observations all family now
    then none
    else if contains eligible serving
    then some serving
    else none

pub record PlacementResult : Type 0 where
  pub account_id : AccountId
  pub session_key_digest : Bytes
  pub key_kind : KeyKind
  pub generation : ℕ
  pub created : Bool
  pub durability_barrier : Option ℕ

-- A placement, or the exception that is raised: `ValueError` or `NoEligibleAccountError`.
pub data Placement : Type 0 where
  placed : PlacementResult → Placement
  family_mismatch no_eligible_account : Placement

pub record PlaceRequest : Type 0 where
  pub session_key : SessionKey
  pub model : Text
  pub candidates : List AccountCandidate
  pub seed : Bytes
  pub serving_account_id : Option AccountId
  pub already_attempted : List AccountId

-- The dict by account id that the code builds keeps the last candidate of an id.
unfoldable pub candidate_named : AccountId → List AccountCandidate → Option AccountCandidate
candidate_named a [] = none
candidate_named a (c ∷ cs) = elim (candidate_named a cs) [
  | some d ↦ some d
  | none ↦ if contains (c.account_id ∷ []) a then some c else none
]

unfoldable pub insert_pin : PlaceRequest → AccountCandidate → ℤ → Router → Router × Placement
insert_pin q chosen now r =
    let key = q.session_key in
    let barrier = length r.barriers in
    (
      record r {
        pins =
            put key.digest
              (record {
                session_key_digest = key.digest;
                key_kind = key.kind;
                account_id = chosen.account_id;
                account_incarnation_id = chosen.account_incarnation_id;
                generation = 0;
                last_seen_monotonic = now;
                expires_at_monotonic = now +ℤ pin_ttl_seconds key.kind r;
                migration_reserved = false;
                pending_durability = some barrier;
                model_family = key.family;
              })
              r.pins;
        barriers = r.barriers ++ false ∷ [];
      },
      placed (record {
        account_id = chosen.account_id;
        session_key_digest = key.digest;
        key_kind = key.kind;
        generation = 0;
        created = true;
        durability_barrier = some barrier;
      }),
    )

abbrev pub follow_pin : PlaceRequest → PinEntry → Placement
follow_pin q e = placed (record {
  account_id = e.account_id;
  session_key_digest = q.session_key.digest;
  key_kind = e.key_kind;
  generation = e.generation;
  created = false;
  durability_barrier = e.pending_durability;
})

module _ (sampling : Sampling) where
  abbrev pub or_pick : Option AccountId → Option AccountId → Option AccountId
  or_pick none p = p
  or_pick (some a) p = some a

  unfoldable pub choose_account :
      PlaceRequest → List AccountCandidate → ℤ → Router → Option AccountId
  choose_account q eligible now r =
      let family = quota_family q.model in
      or_pick
        (cold_start (candidate_ids eligible) (candidate_ids q.candidates) family
          q.serving_account_id now r)
        (pick_weighted_hrw sampling q.seed (scoring_digest_or_default q.session_key)
          (candidate_weights eligible family now r) q.serving_account_id)

  abbrev pub bind_candidate : Option AccountId → List AccountCandidate → Option AccountCandidate
  bind_candidate none cs = none
  bind_candidate (some a) cs = candidate_named a cs

  abbrev pub insert_chosen :
      PlaceRequest → Option AccountCandidate → ℤ → Router → Router × Placement
  insert_chosen q none now r = (r, no_eligible_account)
  insert_chosen q (some c) now r = insert_pin q c now (ensure_capacity now true r)

  abbrev pub eligible_candidates : PlaceRequest → ℤ → List AccountCandidate
  eligible_candidates q now =
      select (λ c. is_eligible_candidate c now q.already_attempted) q.candidates

  abbrev pub place_among : PlaceRequest → List AccountCandidate → ℤ → Router → Router × Placement
  place_among q [] now r = (r, no_eligible_account)
  place_among q (c ∷ cs) now r =
      insert_chosen q (bind_candidate (choose_account q (c ∷ cs) now r) (c ∷ cs)) now r

  abbrev pub place_new : PlaceRequest → ℤ → Router → Router × Placement
  place_new q now r = place_among q (eligible_candidates q now) now r

  abbrev pub follow_or_place : Option PinEntry → PlaceRequest → ℤ → Router → Router × Placement
  follow_or_place none q now r = place_new q now r
  follow_or_place (some e) q now r = (r, follow_pin q e)

  unfoldable pub place_session : PlaceRequest → ℤ → Router → Router × Placement
  place_session q now r =
      let named = q.session_key.family in
      if not (family_beq named unset) && not (family_beq named (quota_family q.model))
      then (r, family_mismatch)
      else (let purged = purge_expired_pins now r in
          follow_or_place (get q.session_key.digest purged.pins) q now purged)
