-- ===== src/Polling/Coordinator.antt =====
-- The coordinator's state and operations. The usage cache is seen through what it answers: a peek for
-- each account, and an answer to each poll with the clock readings around it. The formatting of a
-- float is a parameter.
use Prim.Native.String.{compare}
use text.Mathlib.Text.{is_lt}
use claudex.Prelude.{
  ℕ, ◌+◌, String, List, [], ◌∷◌, ◌++◌, Option, none, some, Bool, true, false, not, ◌&&◌, ◌||◌,
  string_eq, select, is_some, if◌then◌else◌, map, contains,
}
use claudex.Prelude.Int.{ℤ, ◌-ℤ◌, ltb_ℤ, min_ℤ}
use claudex.Dict.{Dict, get, put}
use claudex.Selection.Units.{AccountId, Window, seconds}
use claudex.Router.State.{Router}
use claudex.Router.Attempts.{PeekedWindow}
use claudex.StateStore.Queue.{StateStore}

abbrev pub usage_poll_interval : ℤ
usage_poll_interval = seconds 300

abbrev pub manual_refresh_rate_limit : ℤ
manual_refresh_rate_limit = seconds 300

pub data PollTickOutcome : Type 0 where
  was_fetched budget_wait on_cooldown idle : PollTickOutcome

pub record PollTickResult : Type 0 where
  pub outcome : PollTickOutcome
  pub account_id : Option AccountId
  pub manual : Bool
  pub ok : Option Bool

pub record UsagePollAccount : Type 0 where
  pub account_incarnation_id : String
  pub account_profile_fingerprint : Option String

pub record AccountPollDiagnostics : Type 0 where
  pub last_outcome : Option PollTickOutcome
  pub last_polled_monotonic : Option ℤ
  pub last_ok : Option Bool
  pub consecutive_failures : ℕ

-- `peek_with_metadata`: the ages of the metadata's windows, and the windows.
pub record Peeked : Type 0 where
  pub ages : List ℤ
  pub windows : Window → Option PeekedWindow

-- What `poll` answers. A fetch comes with the clock readings of the coordinator, the router and the
-- store after it,
-- and with what the cache then shows.
pub record Fetch : Type 0 where
  pub ok : Bool
  pub fetched_at : ℤ
  pub router_now : ℤ
  pub router_wall_now : ℤ
  pub wall_now : ℤ
  pub store_now : Window → ℤ
  pub peeked : Option Peeked

pub data PollAnswer : Type 0 where
  cache_hit cooldown : PollAnswer
  fetched : Fetch → PollAnswer

pub record UsageCache : Type 0 where
  pub peek_with_metadata : AccountId → Option Peeked
  pub poll : AccountId → Bool → PollAnswer

pub record Coordinator : Type 0 where
  pub poll_interval : ℤ
  pub manual_rate_limit : ℤ
  pub router : Router
  pub store : Option StateStore
  pub last_call_monotonic : Option ℤ
  pub any_automatic_serviced : Bool
  pub pending_manual : Dict AccountId ℤ
  pub last_manual_enqueue_at : Option ℤ
  pub account_diagnostics : Dict AccountId AccountPollDiagnostics
  pub last_tick_outcome : Option PollTickOutcome
  pub last_fetched_account_id : Option AccountId
  pub last_fetched_monotonic : Option ℤ
  pub fetched_count : ℕ
  pub cache_hit_count : ℕ
  pub cooldown_count : ℕ
  pub manual_enqueued_count : ℕ
  pub manual_rate_limited_count : ℕ
  pub manual_served_count : ℕ

abbrev pub new_coordinator : ℤ → ℤ → Router → Option StateStore → Coordinator
new_coordinator interval limit router store = record {
  poll_interval = interval;
  manual_rate_limit = limit;
  router = router;
  store = store;
  last_call_monotonic = none;
  any_automatic_serviced = false;
  pending_manual = [];
  last_manual_enqueue_at = none;
  account_diagnostics = [];
  last_tick_outcome = none;
  last_fetched_account_id = none;
  last_fetched_monotonic = none;
  fetched_count = 0;
  cache_hit_count = 0;
  cooldown_count = 0;
  manual_enqueued_count = 0;
  manual_rate_limited_count = 0;
  manual_served_count = 0;
}

-- `last is not None and now - last < span`
abbrev pub is_within : ℤ → Option ℤ → ℤ → Bool
is_within now none span = false
is_within now (some last) span = ltb_ℤ (now -ℤ last) span

unfoldable pub request_manual_refresh : AccountId → ℤ → Coordinator → Coordinator × Bool
request_manual_refresh account now c =
    if is_some (get account c.pending_manual)
    then (c, true)
    else if is_within now c.last_manual_enqueue_at c.manual_rate_limit
    then (record c { manual_rate_limited_count = c.manual_rate_limited_count + 1 }, false)
    else (
      record c {
        pending_manual = put account now c.pending_manual;
        last_manual_enqueue_at = some now;
        manual_enqueued_count = c.manual_enqueued_count + 1;
      },
      true,
    )

unfoldable pub is_manual_refresh_pending : AccountId → Coordinator → Bool
is_manual_refresh_pending account c = is_some (get account c.pending_manual)

-- `set(ids)`, in some order
unfoldable pub unique_ids : List AccountId → List AccountId
unique_ids [] = []
unique_ids (a ∷ as') = let rest = unique_ids as' in if contains rest a then rest else a ∷ rest

unfoldable pub insert_id : AccountId → List AccountId → List AccountId
insert_id a [] = a ∷ []
insert_id a (b ∷ bs) =
    let rest = insert_id a bs in if is_lt (compare b a) then b ∷ rest else a ∷ b ∷ bs

-- `sorted`
unfoldable pub sorted_ids : List AccountId → List AccountId
sorted_ids [] = []
sorted_ids (a ∷ as') = insert_id a (sorted_ids as')

abbrev pub least_age : List ℤ → Option ℤ
least_age [] = none
least_age (x ∷ xs) = elim (least_age xs) [ none ↦ some x | some y ↦ some (min_ℤ x y) ]

-- The least age of the account's windows; none for an account that is "missing".
abbrev pub age_of : Option Peeked → Option ℤ
age_of none = none
age_of (some p) = least_age p.ages

-- `(-age, id) < (-age', id')`
abbrev pub is_older : AccountId × ℤ → AccountId × ℤ → Bool
is_older (a, x) (b, y) = ltb_ℤ y x || (not (ltb_ℤ x y) && is_lt (compare a b))

unfoldable pub insert_aged : AccountId × ℤ → List (AccountId × ℤ) → List (AccountId × ℤ)
insert_aged p [] = p ∷ []
insert_aged p (q ∷ qs) =
    let rest = insert_aged p qs in if is_older q p then q ∷ rest else p ∷ q ∷ qs

abbrev pub add_aged : AccountId → Option ℤ → List (AccountId × ℤ) → List (AccountId × ℤ)
add_aged a none aged = aged
add_aged a (some age) aged = insert_aged (a, age) aged

unfoldable pub aged_of : (AccountId → Option Peeked) → List AccountId → List (AccountId × ℤ)
aged_of peek [] = []
aged_of peek (a ∷ as') = add_aged a (age_of (peek a)) (aged_of peek as')

unfoldable pub due_order : (AccountId → Option Peeked) → List AccountId → List AccountId
due_order peek ready =
    let ids = sorted_ids (unique_ids ready) in
    select (λ a. not (is_some (age_of (peek a)))) ids ++ map (λ p. p.0) (aged_of peek ids)
