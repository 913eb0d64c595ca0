-- ===== src/Tests/Migration.antt =====
-- Witnesses of the migration theorems.
use claudex.Prelude.{
  ◌≡◌, ◌≢◌, ◌↔◌, refl, none, some, true, false, list_eq, nat_eq, string_eq, length,
}
use claudex.Dict.{get, count_where, put}
use claudex.Router.State.{PinEntry, MigrationReservation, MigrationOutcome, target_removed}
use claudex.Router.Attempts.{begin_attempt}
use claudex.Router.Pins.{set_migration_reserved}
use claudex.Router.Migration.{
  commit_at_headers, committed, commit_registered, resolve_migration_reservation,
  get_migration_reservation, acquire_migration_reservation, create_reservation,
  release_migration_token, resolve_migration_owner_terminal,
}
use claudex.Router.Migration.Commit.{
  routing, commit_at_headers_once, commit_at_headers_iff, commit_at_headers_moves,
  commit_at_headers-keeps,
}
use claudex.Router.Migration.Waiters.{WaitersSafe, acquire-WaitersSafe, resolve-WaitersSafe}
use claudex.Router.Migration.InFlight.{
  IsAccounted, acquire-IsAccounted, release-IsAccounted, owner_terminal_twice,
}
use claudex.Tests.Data.{
  pinned_router, migrating_router, migrated_router, first_digest, second_digest, first_pin, to_b,
  commit_to_b, keep_view,
}

commits : (commit_at_headers first_digest commit_to_b keep_view migrating_router).1 ≡ committed
unfolding commit_at_headers commit_registered acquire_migration_reservation create_reservation
    set_migration_reserved begin_attempt get put
commits = refl

commit_at_headers_once_example :
    (commit_at_headers first_digest commit_to_b keep_view migrated_router).1 ≢ committed
commit_at_headers_once_example =
    commit_at_headers_once first_digest commit_to_b keep_view migrating_router commit_to_b keep_view
      refl commits

commit_at_headers_iff_example :
    ((commit_at_headers first_digest commit_to_b keep_view migrating_router).1 ≡ committed) ↔ (
      (commit_to_b.target_still_registered ≡ true)
      × ((e : PinEntry) × (get first_digest migrating_router.pins ≡ some e)
          × (e.account_id ≡ commit_to_b.source_account)
          × (e.generation ≡ commit_to_b.source_generation))
      × ((v : MigrationReservation) × (get_migration_reservation first_digest migrating_router
            ≡ some v)
          × (v.owner_attempt_id ≡ commit_to_b.attempt_id)))
commit_at_headers_iff_example =
    commit_at_headers_iff first_digest commit_to_b keep_view migrating_router

reserved_pin :
    get first_digest migrating_router.pins ≡ some (record first_pin { migration_reserved = true })
unfolding acquire_migration_reservation create_reservation set_migration_reserved begin_attempt get
    put
reserved_pin = refl

commit_at_headers_moves_example :
    (f : PinEntry) × (get first_digest migrated_router.pins ≡ some f)
    × (f.account_id ≡ commit_to_b.target_account)
    × (f.account_incarnation_id ≡ commit_to_b.target_account_incarnation_id)
    × (f.generation ≡ 1)
    × (f.pending_durability ≡ some (length migrating_router.barriers))
commit_at_headers_moves_example =
    commit_at_headers_moves first_digest commit_to_b keep_view migrating_router
      (record first_pin { migration_reserved = true }) reserved_pin commits

first-ne-second : first_digest ≢ second_digest
first-ne-second e = cc

commit_at_headers-keeps_example :
    routing (get second_digest migrated_router.pins)
    ≡ routing (get second_digest migrating_router.pins)
commit_at_headers-keeps_example =
    commit_at_headers-keeps first_digest commit_to_b keep_view migrating_router second_digest
      (λ c. first-ne-second)

pinned-WaitersSafe : WaitersSafe pinned_router
unfolding get
pinned-WaitersSafe = record {
  held_pending = λ d i h. absurd (cc);
  held_once = λ d d' i h h'. absurd (cc);
  pending_held = λ i v h p. absurd (cc);
  signalled = λ i v h. absurd (cc);
}

acquire-WaitersSafe_example : WaitersSafe migrating_router
acquire-WaitersSafe_example = acquire-WaitersSafe first_digest to_b pinned_router pinned-WaitersSafe

migrating-WaitersSafe : WaitersSafe migrating_router
migrating-WaitersSafe = acquire-WaitersSafe first_digest to_b pinned_router pinned-WaitersSafe

target_removed-ne-pending : target_removed ≢ MigrationOutcome.pending
target_removed-ne-pending e = cc

resolve-WaitersSafe_example :
    WaitersSafe (resolve_migration_reservation first_digest "t1" target_removed migrating_router).0
resolve-WaitersSafe_example =
    resolve-WaitersSafe first_digest "t1" target_removed migrating_router target_removed-ne-pending
      migrating-WaitersSafe

pinned-IsAccounted : IsAccounted (λ a. 0) pinned_router
unfolding get count_where
pinned-IsAccounted = record { counted = λ a. refl; tokens_unique = tt }

fresh : get "t1" pinned_router.migration_tokens ≡ none
unfolding get
fresh = refl

acquire-IsAccounted_example : IsAccounted (λ a. 0) migrating_router
acquire-IsAccounted_example =
    acquire-IsAccounted (λ a. 0) pinned_router pinned-IsAccounted first_digest to_b fresh

migrating-IsAccounted : IsAccounted (λ a. 0) migrating_router
migrating-IsAccounted =
    acquire-IsAccounted (λ a. 0) pinned_router pinned-IsAccounted first_digest to_b fresh

release-IsAccounted_example : IsAccounted (λ a. 0) (release_migration_token "t1" migrating_router).0
release-IsAccounted_example =
    release-IsAccounted (λ a. 0) migrating_router migrating-IsAccounted "t1"

owner_terminal_twice_example :
    resolve_migration_owner_terminal first_digest "t1" MigrationOutcome.terminal_failure
      (resolve_migration_owner_terminal first_digest "t1" target_removed migrating_router).0
    ≡ (
      (resolve_migration_owner_terminal first_digest "t1" target_removed migrating_router).0,
      false,
    )
owner_terminal_twice_example =
    owner_terminal_twice first_digest "t1" target_removed MigrationOutcome.terminal_failure
      migrating_router
