-- ===== src/Router/Migration/Waiters.antt =====
-- No waiter is left behind by acquiring or resolving a reservation.
use claudex.Prelude.{
  ℕ, ◌+◌, or_else, ◌≡◌, ◌≢◌, refl, String, [], ◌∷◌, ◌++◌, Option, none, Bool, true, false,
  string_eq, list_eq, nat_eq, arith, Bool-cases, Option-cases, inl, inr, length,
}
use claudex.Dict.{get, put, pop}
use claudex.Selection.Pick.{Bytes}
use claudex.Prelude.Int.{ℤ}
use claudex.Router.State.{
  new_router, RuntimeStore, Router, MigrationReservation, MigrationOutcome, pending, outcome_eq,
}
use claudex.Router.Pins.{set_migration_reserved}
use claudex.Router.Attempts.{begin_attempt}
use claudex.Router.Migration.{
  MigrationRequest, reservation_of, create_reservation, acquire_migration_reservation, settle,
  settle_object, resolve_migration_reservation, get_migration_reservation, is_pending, owns,
}
use claudex.Router.Migration.Heap.{NoLostWaiter, created-NoLostWaiter, settled-NoLostWaiter}

pending_of_owns :
    (o : Option MigrationReservation) (attempt : String)
    → owns o attempt ≡ true
    → is_pending o ≡ true
pending_of_owns o attempt h = ground arith

-- The state of `create_reservation` before the in-flight count and the pin's flag.
abbrev inserted : Bytes → MigrationRequest → Router → Router
inserted k q r = record r {
  reservations = put k (length r.reservation_objects) r.reservations;
  reservation_objects = r.reservation_objects ++ reservation_of q ∷ [];
  migration_tokens = put q.attempt_id q.target_account r.migration_tokens;
}

-- The state of `settle` before the pin's flag.
abbrev unheld : Bytes → MigrationOutcome → Router → Router
unheld k outcome r = record r {
  reservation_objects =
      settle_object (get k r.reservations) (get_migration_reservation k r) outcome
        r.reservation_objects;
  migration_outcome_counts =
      put outcome (or_else (get outcome r.migration_outcome_counts) 0 + 1)
        r.migration_outcome_counts;
  reservations = pop k r.reservations;
}

abbrev pub WaitersSafe : Router → Type 0
WaitersSafe r = NoLostWaiter r.reservations r.reservation_objects

-- A new router has no reservations, so no waiter is lost.
pub new_router-WaitersSafe :
    (epoch : String) (store : Option RuntimeStore) (ttl ttl' : ℤ) (bound : ℕ)
    → WaitersSafe (new_router epoch store ttl ttl' bound)
unfolding get
new_router-WaitersSafe epoch store ttl ttl' bound = record {
  held_pending = λ d i h. absurd (cc);
  held_once = λ d d' i h h'. absurd (cc);
  pending_held = λ i v h p. absurd (cc);
  signalled = λ i v h. absurd (cc);
}

set_migration_reserved-reservations :
    (k : Bytes) (b : Bool) (r : Router)
    → ((set_migration_reserved k b r).reservations ≡ r.reservations)
      × ((set_migration_reserved k b r).reservation_objects ≡ r.reservation_objects)
unfolding set_migration_reserved
set_migration_reserved-reservations k b r = elim (Option-cases (get k r.pins)) [
  | inl e ↦ ground arith
  | inr (v, e) ↦ ground arith
]

-- A session whose reservation is not pending holds none.
none_held :
    (k : Bytes) (r : Router)
    → WaitersSafe r
    → is_pending (get_migration_reservation k r) ≡ false
    → get k r.reservations ≡ none
none_held k r n idle = elim (Option-cases (get k r.reservations)) [
  | inl e ↦ e
  | inr (i, e) ↦ let (v, there, p) = n.held_pending k i e in absurd (ground arith)
]

-- If no waiter is lost before, none is lost after a reservation is acquired, whether a pending one
-- is found or a new one made.
pub acquire-WaitersSafe :
    (k : Bytes) (q : MigrationRequest) (r : Router)
    → WaitersSafe r
    → WaitersSafe (acquire_migration_reservation k q r).0
unfolding acquire_migration_reservation create_reservation begin_attempt
acquire-WaitersSafe k q r n = elim (Bool-cases (is_pending (get_migration_reservation k r))) [
  | inl busy ↦ rw busy n
  | inr idle ↦
      let same =
        set_migration_reserved-reservations k true
          (begin_attempt q.target_account (inserted k q r)) in
      rw (idle, same.0, same.1)
        (created-NoLostWaiter n k (reservation_of q) refl refl (none_held k r n idle))
]

settled_heap :
    (k : Bytes) (outcome : MigrationOutcome) (r : Router)
    → outcome ≢ pending
    → WaitersSafe r
    → is_pending (get_migration_reservation k r) ≡ true
    → NoLostWaiter (pop k r.reservations) (
        settle_object
          (get k r.reservations)
          (get_migration_reservation k r)
          outcome
          r.reservation_objects)
settled_heap k outcome r final n busy = elim (Option-cases (get k r.reservations)) [
  | inl e ↦ absurd (ground arith)
  | inr (i, e) ↦
      let (v, there, p) = n.held_pending k i e in
      rw (e, there)
        (settled-NoLostWaiter n k i v (record v { outcome = outcome; resolved = true }) e there
          (ground arith) refl)
]

-- If no waiter is lost before, none is lost after an attempt, its owner or not, resolves a
-- session's reservation to a final outcome: each object that is still pending is the one the map
-- holds for some session, each held one is pending, and an object's event is set exactly when its
-- outcome is final.
pub resolve-WaitersSafe :
    (k : Bytes) (attempt : String) (outcome : MigrationOutcome) (r : Router)
    → outcome ≢ pending
    → WaitersSafe r
    → WaitersSafe (resolve_migration_reservation k attempt outcome r).0
unfolding resolve_migration_reservation settle
resolve-WaitersSafe k attempt outcome r final n =
    elim (Bool-cases (owns (get_migration_reservation k r) attempt)) [
      | inr other ↦ rw other n
      | inl owned ↦
          let same = set_migration_reserved-reservations k false (unheld k outcome r) in
          let busy = pending_of_owns (get_migration_reservation k r) attempt owned in
          rw (owned, same.0, same.1) (settled_heap k outcome r final n busy)
    ]
