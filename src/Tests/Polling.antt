-- ===== src/Tests/Polling.antt =====
-- Witnesses of the theorems on usage polling: two ready accounts, one of which has no data.
use claudex.Prelude.{
  times, ◌≡◌, ◌⊎◌, ◌++◌, String, List, [], ◌∷◌, Option, none, some, true, false, All, contains,
  string_eq, ◌==◌, map, if◌then◌else◌, bit,
}
use claudex.Prelude.Int.{ℤ, ◌-ℤ◌}
use claudex.Selection.Units.{AccountId, seconds}
use claudex.Polling.Coordinator.{
  Peeked, Fetch, cache_hit, fetched, UsageCache, Coordinator, new_coordinator, usage_poll_interval,
  manual_refresh_rate_limit, request_manual_refresh, is_manual_refresh_pending, is_within,
  due_order, age_of, budget_wait,
}
use claudex.Polling.Tick.{run_due_poll, ended, no_call}
use claudex.Polling.Budget.{Quiet, Called, reports_fetch, tick_budget}
use claudex.Polling.First.{run_due_poll-first}
use claudex.Polling.Order.{IsOldestFirst, due_order_sound}
use claudex.Polling.Manual.{Answers, request_manual_refresh_sound}
use claudex.Tests.Data.{pinned_router}

abbrev seen : Peeked
seen = record { ages = seconds 30 ∷ []; windows = λ w. none }

abbrev peek : AccountId → Option Peeked
peek a = if a == "a" then some seen else none

abbrev answered : Fetch
answered = record {
  ok = true;
  fetched_at = seconds 400;
  router_now = seconds 400;
  router_wall_now = seconds 1400;
  wall_now = seconds 1400;
  store_now = λ w. seconds 400;
  peeked = some seen;
}

abbrev cache : UsageCache
cache = record {
  peek_with_metadata = peek;
  poll = λ a forced. if a == "a" then fetched answered else cache_hit;
}

abbrev coordinator : Coordinator
coordinator =
    record (new_coordinator usage_poll_interval manual_refresh_rate_limit pinned_router none) {
      last_call_monotonic = some (seconds 10);
    }

abbrev format : ℤ → String
format t = "0.000"

abbrev ready : List AccountId
ready = "a" ∷ "b" ∷ []

tick_budget_example :
    (Quiet coordinator (run_due_poll format none cache ready (seconds 400) coordinator).0
      × (reports_fetch (run_due_poll format none cache ready (seconds 400) coordinator).1 ≡ false))
    ⊎ (Called cache coordinator (run_due_poll format none cache ready (seconds 400) coordinator)
        × (is_within (seconds 400) (some (seconds 10)) usage_poll_interval ≡ false))
tick_budget_example = tick_budget format none cache ready (seconds 400) coordinator

run_due_poll-first_example :
    run_due_poll format none cache ready (seconds 20) coordinator
    ≡ (record coordinator { last_tick_outcome = some budget_wait }, ended (no_call budget_wait))
unfolding ◌-ℤ◌
run_due_poll-first_example = run_due_poll-first format none cache ready (seconds 20) coordinator

due_order_sound_example :
    ((a : AccountId) → times a (due_order peek ready) ≡ bit (contains ready a))
    × ((missing : List AccountId) × (aged : List (AccountId × ℤ)) × (due_order peek ready
          ≡ missing ++ map (λ p. p.0) aged)
        × All (λ a. age_of (peek a) ≡ none) missing
        × All (λ (p : AccountId × ℤ). age_of (peek p.0) ≡ some p.1) aged
        × IsOldestFirst aged)
due_order_sound_example = due_order_sound peek ready

request_manual_refresh_sound_example :
    ((request_manual_refresh "b" (seconds 20) coordinator).1
      ≡ is_manual_refresh_pending "b" (request_manual_refresh "b" (seconds 20) coordinator).0)
    × Answers "b" (seconds 20) coordinator (request_manual_refresh "b" (seconds 20) coordinator)
request_manual_refresh_sound_example = request_manual_refresh_sound "b" (seconds 20) coordinator
