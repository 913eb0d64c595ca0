-- ===== src/Router/Migration/Commit.antt =====
-- The commit is a compare-and-set on the pin's account, its generation and the reservation's owner.
use claudex.Prelude.{
  ◌+◌, ◌≡◌, ◌≢◌, ◌↔◌, String, Option, some, Bool, true, false, ◌==◌, ==_iff, ==_refl, string_eq,
  list_eq, nat_eq, if◌then◌else◌, arith, ap, ◌∙◌, Bool-cases, Option-cases, inl, inr, length,
}
use claudex.Dict.{get}
use claudex.Dict.Laws.{get-put, ==-ne}
use claudex.Selection.Observation.{ObservationView}
use claudex.Selection.Pick.{Bytes}
use claudex.Router.State.{Router, PinEntry, MigrationReservation, MigrationOutcome}
use claudex.Router.Pins.{set_migration_reserved}
use claudex.Router.Pins.Reserve.{flagged, get-set_migration_reserved}
use claudex.Router.Migration.{
  resolve_migration_reservation, settle, commit_at_headers, commit_registered, CommitRequest,
  committed, cas_ok, flip_pin, flip_found, get_migration_reservation, owns,
}

-- A pin without its protection flag, which says nothing of where the session goes.
abbrev pub routing : Option PinEntry → Option PinEntry
routing o = flagged false o

routing-set_migration_reserved :
    (d k : Bytes) (b : Bool) (r : Router)
    → routing (get d (set_migration_reserved k b r).pins) ≡ routing (get d r.pins)
routing-set_migration_reserved d k b r = elim (Option-cases (get d r.pins)) [
  | inl e ↦ ground (arith, get-set_migration_reserved k b r d)
  | inr (v, e) ↦ ground (arith, get-set_migration_reserved k b r d)
]

-- Resolving a reservation moves no pin.
pub routing-resolve :
    (d k : Bytes) (attempt : String) (outcome : MigrationOutcome) (r : Router)
    → routing (get d (resolve_migration_reservation k attempt outcome r).0.pins)
      ≡ routing (get d r.pins)
unfolding resolve_migration_reservation settle
routing-resolve d k attempt outcome r =
    elim (Bool-cases (owns (get_migration_reservation k r) attempt)) [
      | inl owned ↦ rw owned (rw (routing-set_migration_reserved d k false))
      | inr other ↦ rw other
    ]

get-flip_found :
    (d k : Bytes) (q : CommitRequest) (r : Router) (e : PinEntry)
    → get k r.pins ≡ some e
    → get d (flip_found k (get k r.pins) q r).pins
      ≡ (if k == d then some (flip_pin e q (length r.barriers)) else get d r.pins)
get-flip_found d k q r e h = rw h (get-put d k (flip_pin e q (length r.barriers)) r.pins)

cas_ok-pin :
    (k : Bytes) (q : CommitRequest) (r : Router)
    → cas_ok k q r ≡ true
    → (e : PinEntry) × (get k r.pins ≡ some e)
      × (e.account_id ≡ q.source_account)
      × (e.generation ≡ q.source_generation)
cas_ok-pin k q r h = elim (Option-cases (get k r.pins)) [
  | inl e ↦ absurd (ground arith)
  | inr (v, e) ↦ (v, e, ground (arith, ==_iff v.account_id q.source_account), ground arith)
]

committed_inv :
    (k : Bytes) (q : CommitRequest) (ingest : ObservationView → ObservationView) (r : Router)
    → (commit_at_headers k q ingest r).1 ≡ committed
    → (q.target_still_registered ≡ true) × (cas_ok k q r ≡ true)
unfolding commit_at_headers commit_registered
committed_inv k q ingest r h = ground arith

module _ (k : Bytes) (q : CommitRequest) (ingest : ObservationView → ObservationView)
    (r : Router) where
  pub commit_at_headers-committed_iff :
      ((commit_at_headers k q ingest r).1 ≡ committed)
      ↔ ((q.target_still_registered ≡ true) × (cas_ok k q r ≡ true))
  unfolding commit_at_headers commit_registered
  commit_at_headers-committed_iff = (λ h. ground arith, λ h. ground arith)

  -- A commit goes through exactly when the target is still registered, the session's pin still stands
  -- at the source account and generation, and the session holds a reservation of this attempt.
  pub commit_at_headers_iff : ((commit_at_headers k q ingest r).1 ≡ committed) ↔ (
      (q.target_still_registered ≡ true)
      × ((e : PinEntry) × (get k r.pins ≡ some e)
          × (e.account_id ≡ q.source_account)
          × (e.generation ≡ q.source_generation))
      × ((v : MigrationReservation) × (get_migration_reservation k r ≡ some v)
          × (v.owner_attempt_id ≡ q.attempt_id)))
  commit_at_headers_iff = (
    λ h.
        let (registered, won) = commit_at_headers-committed_iff.0 h in
        (registered, (let (e, p, a, g) = cas_ok-pin k q r won in (e, p, a, g)), owner won),
    λ (registered, (e, p, a, g), (v, o, same)). commit_at_headers-committed_iff.1 (
      registered,
      ground (arith, ==_iff e.account_id q.source_account, ==_iff v.owner_attempt_id q.attempt_id),
    ),
  )
    where
      owner :
          cas_ok k q r ≡ true
          → (v : MigrationReservation) × (get_migration_reservation k r ≡ some v)
            × (v.owner_attempt_id ≡ q.attempt_id)
      owner won = elim (Option-cases (get_migration_reservation k r)) [
        | inl e ↦ absurd (ground arith)
        | inr (v, e) ↦ (v, e, ground (arith, ==_iff v.owner_attempt_id q.attempt_id))
      ]

  abbrev ingested : Router
  ingested = record r { observations = ingest r.observations }

  abbrev gone_counted : Router
  gone_counted = record ingested {
    migration_commit_rejected_target_removed = r.migration_commit_rejected_target_removed + 1;
  }

  abbrev lost_counted : Router
  lost_counted = record ingested { migration_cas_lost = r.migration_cas_lost + 1 }

  won_state :
      q.target_still_registered ≡ true
      → cas_ok k q r ≡ true
      → (commit_at_headers k q ingest r).0
        ≡ (resolve_migration_reservation k q.attempt_id MigrationOutcome.committed
            (flip_found k (get k r.pins) q ingested)).0
  unfolding commit_at_headers commit_registered
  won_state registered won = ground arith

  lost_state :
      q.target_still_registered ≡ true
      → cas_ok k q r ≡ false
      → (commit_at_headers k q ingest r).0
        ≡ (resolve_migration_reservation k q.attempt_id MigrationOutcome.cas_lost lost_counted).0
  unfolding commit_at_headers commit_registered
  lost_state registered lost = ground arith

  gone_state :
      q.target_still_registered ≡ false
      → (commit_at_headers k q ingest r).0
        ≡ (resolve_migration_reservation k q.attempt_id MigrationOutcome.target_removed
            gone_counted).0
  unfolding commit_at_headers
  gone_state gone = ground arith

  pub commit_at_headers-flips :
      (e : PinEntry)
      → get k r.pins ≡ some e
      → (commit_at_headers k q ingest r).1 ≡ committed
      → routing (get k (commit_at_headers k q ingest r).0.pins)
        ≡ routing (some (flip_pin e q (length r.barriers)))
  commit_at_headers-flips e h c =
      let (registered, swap) = commit_at_headers-committed_iff.0 c in
      let s = ingested in
      rw (won_state registered swap) (
        routing-resolve k k q.attempt_id MigrationOutcome.committed
          (flip_found k (get k r.pins) q s)
        ∙ ap routing {y = some (flip_pin e q (length r.barriers))}
            (get-flip_found k k q s e h ∙ rw (==_refl k)))

  -- Where the session has a pin, a commit moves it to the target account and its incarnation,
  -- under the next generation, with a new barrier.
  pub commit_at_headers_moves :
      (e : PinEntry)
      → get k r.pins ≡ some e
      → (commit_at_headers k q ingest r).1 ≡ committed
      → (f : PinEntry) × (get k (commit_at_headers k q ingest r).0.pins ≡ some f)
        × (f.account_id ≡ q.target_account)
        × (f.account_incarnation_id ≡ q.target_account_incarnation_id)
        × (f.generation ≡ e.generation + 1)
        × (f.pending_durability ≡ some (length r.barriers))
  commit_at_headers_moves e h c =
      let moved = commit_at_headers-flips e h c in
      elim (Option-cases (get k (commit_at_headers k q ingest r).0.pins)) [
        | inl gone ↦ absurd (ground arith)
        | inr (f, there) ↦ (f, there, ground arith, ground arith, ground arith, ground arith)
      ]

  -- A pin of another session, and after a run that does not commit every pin, is left as it was,
  -- its protection flag apart.
  pub commit_at_headers-keeps :
      (d : Bytes)
      → ((commit_at_headers k q ingest r).1 ≡ committed → k ≢ d)
      → routing (get d (commit_at_headers k q ingest r).0.pins) ≡ routing (get d r.pins)
  commit_at_headers-keeps d h = elim (Bool-cases q.target_still_registered) [
    | inr gone ↦
        rw (gone_state gone)
          (routing-resolve d k q.attempt_id MigrationOutcome.target_removed gone_counted)
    | inl registered ↦ elim (Bool-cases (cas_ok k q r)) [
      | inr lost ↦
          rw (lost_state registered lost)
            (routing-resolve d k q.attempt_id MigrationOutcome.cas_lost lost_counted)
      | inl won ↦
          let (e, here, _, _) = cas_ok-pin k q r won in
          let apart = ==-ne k d (h (commit_at_headers-committed_iff.1 (registered, won))) in
          let s = ingested in
          rw (won_state registered won) (
            routing-resolve d k q.attempt_id MigrationOutcome.committed
              (flip_found k (get k r.pins) q s)
            ∙ ap routing (get-flip_found d k q s e here ∙ rw apart))
    ]
  ]

  -- Two attempts that started from the same generation of a session's pin never both commit, one
  -- right after the other: when the first commits, the second, on the state it leaves, does not.
  pub commit_at_headers_once :
      (q' : CommitRequest) (ingest' : ObservationView → ObservationView)
      → q'.source_generation ≡ q.source_generation
      → (commit_at_headers k q ingest r).1 ≡ committed
      → (commit_at_headers k q' ingest' (commit_at_headers k q ingest r).0).1 ≢ committed
  commit_at_headers_once q' ingest' same c c' =
      let s = (commit_at_headers k q ingest r).0 in
      let (e, here, _, old) = cas_ok-pin k q r (commit_at_headers-committed_iff.0 c).1 in
      let (e', here', _, new) = cas_ok-pin k q' s (second c').1 in
      absurd (ground (arith, commit_at_headers-flips e here c))
    where
      second :
          (commit_at_headers k q' ingest' (commit_at_headers k q ingest r).0).1 ≡ committed
          → (q'.target_still_registered ≡ true)
            × (cas_ok k q' (commit_at_headers k q ingest r).0 ≡ true)
      second c'' = committed_inv k q' ingest' (commit_at_headers k q ingest r).0 c''
