-- ===== src/Router/Removal.antt =====
-- `remove_account`. The order in which Python visits a set is a parameter.
pub mod Forget
use claudex.Prelude.{
  ℕ, ◌+◌, ◌++◌, String, string_eq, list_eq, nat_eq, pair_eq, List, [], ◌∷◌, Option, none, some,
  Bool, true, false, not, ◌&&◌, ◌||◌, contains, select, ◌==◌, if◌then◌else◌,
}
use claudex.Dict.{Dict, get, put, pop, pop_all, keys_where}
use claudex.Selection.Units.{AccountId, Family, family_eq}
use claudex.Selection.Pick.{Bytes}
use claudex.Router.State.{
  Router, MigrationReservation, MigrationOutcome, target_removed, delete_all_for_incarnation,
}
use claudex.Router.Store.{Submission, not_submitted, pending_write, store_closed, submit, submit_to}
use claudex.Router.Pins.{remove_pin, remove_pin_for}
use claudex.Router.Migration.{get_migration_reservation, resolve_migration_reservation, follow}

pub record CaseCounts : Type 0 where
  pub ordinary_pin_removed : ℕ
  pub source_removed_migration_continues : ℕ
  pub target_removed_before_headers : ℕ
  pub both_removed_aborted : ℕ

abbrev pub no_cases : CaseCounts
no_cases = record {
  ordinary_pin_removed = 0;
  source_removed_migration_continues = 0;
  target_removed_before_headers = 0;
  both_removed_aborted = 0;
}

abbrev pub involves : Option MigrationReservation → AccountId → Bool
involves none a = false
involves (some v) a = (v.source_account == a) || (v.target_account == a)

-- `touching_digests`, each digest once
unfoldable pub touching_digests : AccountId → Router → List Bytes
touching_digests a r =
    let pinned = keys_where (λ d e. e.account_id == a) r.pins in
    pinned
    ++ select (λ d. not (contains pinned d))
        (keys_where (λ d i. involves (follow r.reservation_objects (some i)) a) r.reservations)

-- One round of the loop.
unfoldable pub remove_touching :
    Option MigrationReservation → Bytes → Router × CaseCounts → Router × CaseCounts
remove_touching none digest (r, counts) =
    let (s, done) = remove_pin digest r in
    (
      s,
      if done
          then record counts { ordinary_pin_removed = counts.ordinary_pin_removed + 1 }
          else counts,
    )
remove_touching (some v) digest (r, counts) =
    let source_removed = contains r.removed_accounts v.source_account in
    let target_gone = contains r.removed_accounts v.target_account in
    let resolved = (resolve_migration_reservation digest v.owner_attempt_id target_removed r).0 in
    if source_removed && target_gone
    then (
      (remove_pin digest resolved).0,
      record counts { both_removed_aborted = counts.both_removed_aborted + 1 },
    )
    else if target_gone
    then (
      resolved,
      record counts { target_removed_before_headers = counts.target_removed_before_headers + 1 },
    )
    else if source_removed
    then (
      r,
      record counts {
        source_removed_migration_continues = counts.source_removed_migration_continues + 1;
      },
    )
    else (r, counts)

unfoldable pub remove_touching_all : List Bytes → Router × CaseCounts → Router × CaseCounts
remove_touching_all [] s = s
remove_touching_all (d ∷ ds) s =
    remove_touching_all ds (remove_touching (get_migration_reservation d s.0) d s)

unfoldable pub drop_account_state : AccountId → Router → Router
drop_account_state a r = record r {
  account_cooldowns = pop a r.account_cooldowns;
  family_cooldowns = pop_all (keys_where (λ k e. k.0 == a) r.family_cooldowns) r.family_cooldowns;
  capability_evidence =
      pop_all (keys_where (λ k e. k.0 == a) r.capability_evidence) r.capability_evidence;
}

abbrev pub record_removal : String → Router × Submission → Router × Submission
record_removal incarnation (r, pending_write i) = (
  record r { pending_incarnation_removals = put incarnation i r.pending_incarnation_removals },
  pending_write i,
)
record_removal incarnation (r, s) = (r, s)

-- The counts are lost when the closed store raises.
unfoldable pub remove_account :
    (List Bytes → List Bytes) → AccountId → String → Router → Router × CaseCounts × Submission
remove_account visit a incarnation r =
    let marked = record r { removed_accounts = a ∷ r.removed_accounts } in
    let (s, counts) = remove_touching_all (visit (touching_digests a marked)) (marked, no_cases) in
    let (t, submission) =
      record_removal incarnation
        (submit (delete_all_for_incarnation incarnation) (drop_account_state a s)) in
    (t, counts, submission)

-- `await_account_removal_durability` up to its wait: the write that it waits for, if any, is taken out
-- of the map at once. Its end is `finish_write`.
unfoldable pub await_account_removal_durability : String → Router → Router × Option ℕ
await_account_removal_durability incarnation r = (
  record r { pending_incarnation_removals = pop incarnation r.pending_incarnation_removals },
  get incarnation r.pending_incarnation_removals,
)
