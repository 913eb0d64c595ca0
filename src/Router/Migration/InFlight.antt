-- ===== src/Router/Migration/InFlight.antt =====
-- M(a) counts the ordinary attempts on an account and the live migration tokens that target it, and
-- each token is given back once.
use claudex.Prelude.{
  ℕ, ◌+◌, ◌-◌, ◌≡◌, String, none, Bool, true, false, ◌==◌, ==_iff, string_eq, list_eq, nat_eq,
  arith, Bool-cases, Option-cases, inl, inr, length, ◌++◌, ◌∷◌, [],
}
use claudex.Dict.{get, put, count_where, Unique}
use claudex.Dict.Laws.{get-put, get-pop_self, count-put, count-pop, put-Unique, pop-Unique}
use claudex.Selection.Units.{AccountId}
use claudex.Selection.Pick.{Bytes}
use claudex.Router.State.{Router, MigrationOutcome}
use claudex.Router.Pins.{set_migration_reserved}
use claudex.Router.Attempts.{begin_attempt, end_attempt, in_flight_count}
use claudex.Router.Migration.{
  MigrationRequest, create_reservation, acquire_migration_reservation, release_migration_token,
  get_migration_reservation, is_pending, resolve_migration_reservation,
  resolve_migration_owner_terminal, reservation_of, owns, settle,
}

-- The live tokens that target an account.
abbrev pub tokens_on : AccountId → Router → ℕ
tokens_on a r = count_where (λ k t. t == a) r.migration_tokens

-- The count of every account is that of its ordinary attempts and of its tokens.
pub record IsAccounted (ordinary : AccountId → ℕ) (r : Router) : Type 0 where
  pub counted : (a : AccountId) → in_flight_count a r ≡ ordinary a + tokens_on a r
  pub tokens_unique : Unique r.migration_tokens

set_migration_reserved-counts :
    (k : Bytes) (b : Bool) (r : Router)
    → ((set_migration_reserved k b r).in_flight ≡ r.in_flight)
      × ((set_migration_reserved k b r).migration_tokens ≡ r.migration_tokens)
unfolding set_migration_reserved
set_migration_reserved-counts k b r = elim (Option-cases (get k r.pins)) [
  | inl e ↦ ground arith
  | inr (v, e) ↦ ground arith
]

module _ (ordinary : AccountId → ℕ) (r : Router) (ok : IsAccounted ordinary r) where
  create-counted :
      (k : Bytes) (q : MigrationRequest)
      → get q.attempt_id r.migration_tokens ≡ none
      → IsAccounted ordinary (create_reservation k q r)
  unfolding create_reservation begin_attempt
  create-counted k q fresh = record {
    counted = λ a.
        rw ((same a).0, (same a).1)
          (ground (
            arith,
            ok.counted a,
            ok.counted q.target_account,
            ==_iff q.target_account a,
            get-put a q.target_account (in_flight_count q.target_account r + 1) r.in_flight,
            count-put (λ j t. t == a) q.attempt_id q.target_account r.migration_tokens,
          ));
    tokens_unique =
        rw ((same q.target_account).1)
          (put-Unique q.attempt_id q.target_account r.migration_tokens ok.tokens_unique);
  }
    where
      inner : Router
      inner = begin_attempt q.target_account (record r {
        reservations = put k (length r.reservation_objects) r.reservations;
        reservation_objects = r.reservation_objects ++ reservation_of q ∷ [];
        migration_tokens = put q.attempt_id q.target_account r.migration_tokens;
      })

      same :
          AccountId
          → ((set_migration_reserved k true inner).in_flight ≡ inner.in_flight)
            × ((set_migration_reserved k true inner).migration_tokens ≡ inner.migration_tokens)
      same a = set_migration_reserved-counts k true inner

  -- If each account's in-flight count is that of its ordinary attempts and of the live tokens that
  -- target it, it still is after a reservation is acquired under an attempt id that has no token.
  pub acquire-IsAccounted :
      (k : Bytes) (q : MigrationRequest)
      → get q.attempt_id r.migration_tokens ≡ none
      → IsAccounted ordinary (acquire_migration_reservation k q r).0
  unfolding acquire_migration_reservation
  acquire-IsAccounted k q fresh = elim (Bool-cases (is_pending (get_migration_reservation k r))) [
    | inl busy ↦ rw busy ok
    | inr idle ↦ rw idle (create-counted k q fresh)
  ]

  -- If each account's in-flight count is that of its ordinary attempts and of the live tokens that
  -- target it, it still is after an attempt's token is released, which takes back one of each or
  -- nothing.
  pub release-IsAccounted :
      (attempt : String) → IsAccounted ordinary (release_migration_token attempt r).0
  unfolding release_migration_token end_attempt
  release-IsAccounted attempt = elim (Option-cases (get attempt r.migration_tokens)) [
    | inl e ↦ rw e ok
    | inr (t, e) ↦ rw e (record {
      counted = λ a. ground (
        arith,
        ok.counted a,
        ok.counted t,
        ==_iff t a,
        get-put a t (in_flight_count t r - 1) r.in_flight,
        count-pop (λ j x. x == a) attempt r.migration_tokens ok.tokens_unique,
      );
      tokens_unique = pop-Unique attempt r.migration_tokens ok.tokens_unique;
    })
  ]

-- A second release of the same attempt changes nothing.
pub release_twice :
    (attempt : String) (r : Router)
    → release_migration_token attempt (release_migration_token attempt r).0
      ≡ ((release_migration_token attempt r).0, none)
unfolding release_migration_token end_attempt
release_twice attempt r = elim (Option-cases (get attempt r.migration_tokens)) [
  | inl e ↦ ground arith
  | inr (t, e) ↦ ground (arith, get-pop_self attempt r.migration_tokens)
]

resolve_idle :
    (k : Bytes) (attempt : String) (outcome : MigrationOutcome) (r : Router)
    → owns (get_migration_reservation k r) attempt ≡ false
    → resolve_migration_reservation k attempt outcome r ≡ (r, false)
unfolding resolve_migration_reservation
resolve_idle k attempt outcome r h = rw h

set_migration_reserved-held :
    (k : Bytes) (b : Bool) (r : Router)
    → (set_migration_reserved k b r).reservations ≡ r.reservations
unfolding set_migration_reserved
set_migration_reserved-held k b r = elim (Option-cases (get k r.pins)) [
  | inl e ↦ ground arith
  | inr (v, e) ↦ ground arith
]

settle_frees :
    (k : Bytes) (outcome : MigrationOutcome) (r : Router)
    → get k (settle k outcome r).reservations ≡ none
unfolding settle
settle_frees k outcome r = rw set_migration_reserved-held (get-pop_self k r.reservations)

resolve_disowns :
    (k : Bytes) (attempt : String) (outcome : MigrationOutcome) (r : Router)
    → owns
        (get_migration_reservation k (resolve_migration_reservation k attempt outcome r).0)
        attempt
      ≡ false
unfolding resolve_migration_reservation
resolve_disowns k attempt outcome r =
    elim (Bool-cases (owns (get_migration_reservation k r) attempt)) [
      | inl owned ↦ rw owned (rw (settle_frees k outcome r))
      | inr other ↦ rw other other
    ]

release_keeps :
    (k : Bytes) (attempt : String) (r : Router)
    → get_migration_reservation k (release_migration_token attempt r).0
      ≡ get_migration_reservation k r
unfolding release_migration_token end_attempt
release_keeps k attempt r = elim (Option-cases (get attempt r.migration_tokens)) [
  | inl e ↦ ground arith
  | inr (t, e) ↦ ground arith
]

-- An owner's terminal path runs once: when it is repeated, with whatever outcome, nothing more is
-- resolved or given back, and the state stays as it is.
pub owner_terminal_twice :
    (k : Bytes) (attempt : String) (outcome outcome' : MigrationOutcome) (r : Router)
    → resolve_migration_owner_terminal k attempt outcome'
        (resolve_migration_owner_terminal k attempt outcome r).0
      ≡ ((resolve_migration_owner_terminal k attempt outcome r).0, false)
unfolding resolve_migration_owner_terminal
owner_terminal_twice k attempt outcome outcome' r =
    let s = (resolve_migration_reservation k attempt outcome r).0 in
    let t = (release_migration_token attempt s).0 in
    let idle : owns (get_migration_reservation k t) attempt ≡ false =
      rw (release_keeps k attempt s) (resolve_disowns k attempt outcome r) in
    rw (resolve_idle k attempt outcome' t idle) (rw (release_twice attempt s))
