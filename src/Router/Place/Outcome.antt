-- ===== src/Router/Place/Outcome.antt =====
-- What `place_session` returns and the pin that it leaves.
use claudex.Prelude.{
  ◌≡◌, refl, none, some, true, false, inl, inr, In, arith, list_eq, nat_eq, string_eq, Option-cases,
  subst,
}
use claudex.Prelude.Int.{ℤ}
use claudex.Dict.{get, Unique}
use claudex.Selection.Pick.{Sampling, AccountCandidate, is_eligible_candidate}
use claudex.Router.State.{Router, PinEntry}
use claudex.Router.Pins.{is_expired, purge_expired_pins}
use claudex.Router.Pins.Purge.{get-purge_expired_pins, purge_expired_pins-Unique}
use claudex.Router.Place.{PlaceRequest, PlacementResult, placed, place_session}
use claudex.Router.Place.Sticky.{IsBound}
use claudex.Router.Place.Fresh.{
  FamilyFits, follow_pin-IsBound, place_session-fits, place_new-IsSound, place_new-total,
}

module _ (sampling : Sampling) (q : PlaceRequest) (now : ℤ) where
  -- When the key's family fits and its session holds no live pin, an eligible candidate is enough
  -- for a placement to succeed with a new pin: the request is never turned away.
  pub place_session-total :
      (r : Router) (c : AccountCandidate)
      → FamilyFits q
      → get q.session_key.digest (purge_expired_pins now r).pins ≡ none
      → In c q.candidates
      → is_eligible_candidate c now q.already_attempted ≡ true
      → (p : PlacementResult) × ((place_session sampling q now r).1 ≡ placed p) × (p.created ≡ true)
  place_session-total r c fits free i ok =
      rw (place_session-fits sampling q now r fits, free)
        (place_new-total sampling q now (purge_expired_pins now r) c i ok)

  -- When the key's family fits, a placement that makes a new pin goes to a candidate of the
  -- request that is eligible, and leaves a pin under the key's digest with the placement's
  -- account, generation and barrier.
  pub place_session_sound :
      (r s : Router) (p : PlacementResult)
      → FamilyFits q
      → place_session sampling q now r ≡ (s, placed p)
      → p.created ≡ true
      → IsBound q p s
        × ((c : AccountCandidate) × In c q.candidates
            × (is_eligible_candidate c now q.already_attempted ≡ true)
            × (c.account_id ≡ p.account_id))
  place_session_sound r s p fits h made =
      let purged = purge_expired_pins now r in
      elim (Option-cases (get q.session_key.digest purged.pins)) [
        | inl free ↦
            let (bound, _, candidate) =
              place_new-IsSound sampling q now purged s p
                (rw (place_session-fits sampling q now r fits, free) at h) in
            (bound, candidate)
        | inr (e, there) ↦
            let (_, _, old) =
              follow_pin-IsBound q e purged s p there
                (rw (place_session-fits sampling q now r fits, there) at h) in
            absurd (ground arith)
      ]

  -- Every placement leaves the pin that it tells of, and distinct keys stay distinct.
  pub place_session-IsBound :
      (r s : Router) (p : PlacementResult)
      → FamilyFits q
      → Unique r.pins
      → place_session sampling q now r ≡ (s, placed p)
      → IsBound q p s × Unique s.pins
  place_session-IsBound r s p fits u h =
      let purged = purge_expired_pins now r in
      let unique = purge_expired_pins-Unique now r u in
      elim (Option-cases (get q.session_key.digest purged.pins)) [
        | inl free ↦
            let (bound, kept, _) =
              place_new-IsSound sampling q now purged s p
                (rw (place_session-fits sampling q now r fits, free) at h) in
            (bound, kept unique)
        | inr (e, there) ↦
            let (bound, same, _) =
              follow_pin-IsBound q e purged s p there
                (rw (place_session-fits sampling q now r fits, there) at h) in
            (bound, subst (λ (x : Router). Unique x.pins) same unique)
      ]

-- A session stays where it was placed. Where the keys of the pin map are distinct: a later request
-- on the state that a placement left, with the same key digest, whatever its candidates, seed and
-- model, each request's key family fitting its model, goes to the same account and generation
-- without a new pin, as long as the pin has not expired.
pub place_session_again :
    (sampling : Sampling) (q q' : PlaceRequest) (now later : ℤ) (r s : Router) (p : PlacementResult)
    → FamilyFits q
    → FamilyFits q'
    → q'.session_key.digest ≡ q.session_key.digest
    → Unique r.pins
    → place_session sampling q now r ≡ (s, placed p)
    → ((e : PinEntry)
        → get q.session_key.digest s.pins ≡ some e
        → is_expired later q.session_key.digest e ≡ false)
    → (p' : PlacementResult) × ((place_session sampling q' later s).1 ≡ placed p')
      × (p'.account_id ≡ p.account_id)
      × (p'.generation ≡ p.generation)
      × (p'.created ≡ false)
place_session_again sampling q q' now later r s p fits fits' same u h live =
    let (bound, unique) = place_session-IsBound sampling q now r s p fits u h in
    let there : get q'.session_key.digest (purge_expired_pins later s).pins ≡ some bound.pin =
      rw same (
        rw (get-purge_expired_pins later q.session_key.digest s unique)
          (rw bound.stored (rw (live bound.pin bound.stored) refl))) in
    rw (place_session-fits sampling q' later s fits', there)
      (_, refl, bound.same_account, bound.same_generation, refl)
