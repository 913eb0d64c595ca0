-- ===== src/Tests/Pins.antt =====
-- Witnesses of the theorems on pins and placement.
use claudex.Prelude.{
  ◌≡◌, ◌⊎◌, refl, [], ◌∷◌, In, inl, inr, none, some, true, false, list_eq, nat_eq, string_eq,
  some_inj, subst,
}
use claudex.Prelude.Int.{pos, ◌≤ℤ◌, ◌+ℤ◌}
use claudex.Dict.{get, put, Unique, keys_where, count_where}
use claudex.Selection.Units.{seconds}
use claudex.Selection.Pick.{Bytes, content_hash, AccountCandidate, is_eligible_candidate}
use claudex.Router.State.{Router, PinEntry}
use claudex.Router.Pins.{
  is_over, ensure_capacity, is_expired, purge_expired_pins, remove_each, lru_victim, is_evictable,
  lru_candidates, oldest, active_migration_count,
}
use claudex.Router.Pins.Bound.{ensure_capacity-bounded, ensure_capacity-keeps}
use claudex.Router.Pins.Victim.{lru_victim_oldest}
use claudex.Router.Place.{
  PlaceRequest, PlacementResult, placed, place_session, insert_pin, choose_account, cold_start,
  candidate_named, any_known,
}
use claudex.Selection.Family.{quota_family}
use claudex.Selection.Observation.{window_pressure}
use claudex.Router.Place.Sticky.{IsBound}
use claudex.Router.Place.Fresh.{FamilyFits}
use claudex.Router.Place.Outcome.{place_session-total, place_session_sound, place_session_again}
use claudex.Tests.Data.{
  empty_router, pinned_router, first_digest, second_digest, first_pin, flat_sampling, third_request,
  candidate,
}

pinned-Unique : Unique pinned_router.pins
unfolding get
pinned-Unique = (refl, (refl, tt))

no_empty_digest : get [] pinned_router.pins ≡ none
unfolding get
no_empty_digest = refl

ensure_capacity-bounded_example :
    (is_over true (ensure_capacity (pos 0) true pinned_router) ≡ false)
    ⊎ ((d : Bytes) (e : PinEntry)
        → get d (ensure_capacity (pos 0) true pinned_router).pins ≡ some e
        → e.migration_reserved ≡ true)
ensure_capacity-bounded_example =
    ensure_capacity-bounded (pos 0) true pinned_router pinned-Unique no_empty_digest

ensure_capacity-keeps_example :
    (get first_digest (ensure_capacity (pos 0) false pinned_router).pins ≡ some first_pin
      → get first_digest pinned_router.pins ≡ some first_pin)
    × (get first_digest pinned_router.pins ≡ some first_pin
        → is_expired (pos 0) first_digest first_pin ≡ false
        → first_pin.migration_reserved ≡ true
        → get first_digest (ensure_capacity (pos 0) false pinned_router).pins ≡ some first_pin)
ensure_capacity-keeps_example =
    ensure_capacity-keeps (pos 0) false pinned_router pinned-Unique first_digest first_pin

victim_is_second : lru_victim content_hash pinned_router.pins ≡ some second_digest
unfolding lru_victim lru_candidates oldest is_evictable
victim_is_second = refl

lru_victim_oldest_example :
    (e : PinEntry) × (get second_digest pinned_router.pins ≡ some e)
    × (is_evictable content_hash e ≡ true)
    × ((d : Bytes) (f : PinEntry)
        → get d pinned_router.pins ≡ some f
        → is_evictable content_hash f ≡ true
        → e.last_seen_monotonic ≤ℤ f.last_seen_monotonic)
lru_victim_oldest_example =
    lru_victim_oldest content_hash pinned_router.pins second_digest pinned-Unique victim_is_second

fits : FamilyFits third_request
fits = inl refl

no_pin : get third_request.session_key.digest (purge_expired_pins (pos 0) empty_router).pins ≡ none
unfolding purge_expired_pins remove_each keys_where get
no_pin = refl

eligible_c : is_eligible_candidate (candidate "c") (pos 0) third_request.already_attempted ≡ true
unfolding is_eligible_candidate
eligible_c = refl

place_session-total_example :
    (p : PlacementResult) × ((place_session flat_sampling third_request (pos 0) empty_router).1
      ≡ placed p)
    × (p.created ≡ true)
place_session-total_example =
    place_session-total flat_sampling third_request (pos 0) empty_router (candidate "c") fits no_pin
      (inr (inl refl)) eligible_c

abbrev third_placement : PlacementResult
third_placement = record {
  account_id = "c";
  session_key_digest = third_request.session_key.digest;
  key_kind = third_request.session_key.kind;
  generation = 0;
  created = true;
  durability_barrier = some 0;
}

abbrev placed_router : Router
placed_router = (place_session flat_sampling third_request (pos 0) empty_router).0

places :
    place_session flat_sampling third_request (pos 0) empty_router
    ≡ (placed_router, placed third_placement)
unfolding place_session get purge_expired_pins remove_each keys_where is_eligible_candidate
    choose_account cold_start active_migration_count count_where any_known quota_family
    window_pressure candidate_named insert_pin ensure_capacity
places = refl

place_session_sound_example :
    IsBound third_request third_placement placed_router
    × ((c : AccountCandidate) × In c third_request.candidates
        × (is_eligible_candidate c (pos 0) third_request.already_attempted ≡ true)
        × (c.account_id ≡ third_placement.account_id))
place_session_sound_example =
    place_session_sound flat_sampling third_request (pos 0) empty_router placed_router
      third_placement fits places refl

-- The same session with other candidates and no account to prefer.
abbrev again_request : PlaceRequest
again_request = record third_request {
  candidates = candidate "b" ∷ [];
  already_attempted = [];
  serving_account_id = none;
}

placed_is_live :
    (e : PinEntry)
    → get third_request.session_key.digest placed_router.pins ≡ some e
    → is_expired (seconds 60) third_request.session_key.digest e ≡ false
unfolding place_session get purge_expired_pins remove_each keys_where is_eligible_candidate
    choose_account cold_start active_migration_count count_where any_known quota_family
    window_pressure candidate_named insert_pin ensure_capacity is_expired ◌+ℤ◌ put
placed_is_live e h =
    subst (λ x. is_expired (seconds 60) third_request.session_key.digest x ≡ false) (some_inj h)
      refl

place_session_again_example :
    (p : PlacementResult) × ((place_session flat_sampling again_request
        (seconds 60)
        placed_router).1
      ≡ placed p)
    × (p.account_id ≡ third_placement.account_id)
    × (p.generation ≡ third_placement.generation)
    × (p.created ≡ false)
place_session_again_example =
    place_session_again flat_sampling third_request again_request (pos 0) (seconds 60) empty_router
      placed_router third_placement fits (inl refl) refl tt places placed_is_live
