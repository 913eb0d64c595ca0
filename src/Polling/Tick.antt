-- ===== src/Polling/Tick.antt =====
-- One tick of `run_due_poll`. The ticks of a coordinator run one after another; a tick is one function
-- of the cache's answers to its polls, without other calls of the coordinator during a poll.
use claudex.Prelude.{
  ◌+◌, String, List, [], ◌∷◌, Option, none, some, Bool, true, false, string_eq, contains, or_else,
  select, if◌then◌else◌,
}
use claudex.Prelude.Int.{ℤ, ltb_ℤ}
use claudex.Dict.{Dict, get, put, pop}
use claudex.Selection.Units.{AccountId, Window}
use claudex.Router.Attempts.{PeekedWindow, ingest_usage_peek}
use claudex.StateStore.Queue.{StateStore}
use claudex.Polling.Persist.{persist_account}
use claudex.Polling.Coordinator.{
  PollTickOutcome, PollTickResult, was_fetched, budget_wait, on_cooldown, idle, UsagePollAccount,
  AccountPollDiagnostics, Peeked, Fetch, PollAnswer, cache_hit, cooldown, fetched, UsageCache,
  Coordinator, is_within, due_order,
}

abbrev pub windows_of : Option Peeked → Option (Window → Option PeekedWindow)
windows_of none = none
windows_of (some p) = some p.windows

abbrev pub with_store : Coordinator → StateStore × Bool → Coordinator × Bool
with_store c (s, raised) = (record c { store = some s }, raised)

-- The next candidate, the tick's result, or the store's exception.
pub data Attempted : Type 0 where
  next_candidate store_raised : Attempted
  ended : PollTickResult → Attempted

abbrev pub no_diagnostics : AccountPollDiagnostics
no_diagnostics = record {
  last_outcome = none;
  last_polled_monotonic = none;
  last_ok = none;
  consecutive_failures = 0;
}

abbrev pub after_fetch : Fetch → AccountPollDiagnostics → AccountPollDiagnostics
after_fetch f d = record {
  last_outcome = some was_fetched;
  last_polled_monotonic = some f.fetched_at;
  last_ok = some f.ok;
  consecutive_failures = if f.ok then 0 else d.consecutive_failures + 1;
}

unfoldable pub record_fetch : AccountId → Fetch → Coordinator → Coordinator
record_fetch account f c = record c {
  last_call_monotonic = some f.fetched_at;
  fetched_count = c.fetched_count + 1;
  last_fetched_account_id = some account;
  last_fetched_monotonic = some f.fetched_at;
  last_tick_outcome = some was_fetched;
  account_diagnostics =
      put account (after_fetch f (or_else (get account c.account_diagnostics) no_diagnostics))
        c.account_diagnostics;
}

unfoldable pub serve : AccountId → Bool → Coordinator → Coordinator
serve account true c = record c {
  pending_manual = pop account c.pending_manual;
  manual_served_count = c.manual_served_count + 1;
}
serve account false c = record c {
  pending_manual = pop account c.pending_manual;
  any_automatic_serviced = true;
}

abbrev pub finish_fetch : AccountId → Bool → Fetch → Coordinator × Bool → Coordinator × Attempted
finish_fetch account manual f (c, true) = (c, store_raised)
finish_fetch account manual f (c, false) = (
  serve account manual c,
  ended (record {
    outcome = was_fetched;
    account_id = some account;
    manual = manual;
    ok = some f.ok;
  }),
)

-- A loop goes on after a candidate that made no call.
abbrev pub go_on :
    (Coordinator → Coordinator × Attempted) → Coordinator × Attempted → Coordinator × Attempted
go_on rest (c, next_candidate) = rest c
go_on rest (c, store_raised) = (c, store_raised)
go_on rest (c, ended r) = (c, ended r)

-- `[aid for aid in self._pending_manual if aid in ready]`, each with its time
abbrev pub pending_ready : List AccountId → Dict AccountId ℤ → List (AccountId × ℤ)
pending_ready ready pending = select (λ p. contains ready p.0) pending

-- `min(pending_ready, key=…)`, the first of equals
unfoldable pub earliest_from : AccountId × ℤ → List (AccountId × ℤ) → AccountId
earliest_from p [] = p.0
earliest_from p (q ∷ qs) = earliest_from (if ltb_ℤ q.1 p.1 then q else p) qs

abbrev pub earliest : List (AccountId × ℤ) → Option AccountId
earliest [] = none
earliest (p ∷ ps) = some (earliest_from p ps)

abbrev pub no_call : PollTickOutcome → PollTickResult
no_call outcome = record { outcome = outcome; account_id = none; manual = false; ok = none }

abbrev pub end_idle : Coordinator × Attempted → Coordinator × Attempted
end_idle (c, next_candidate) = (record c { last_tick_outcome = some idle }, ended (no_call idle))
end_idle (c, store_raised) = (c, store_raised)
end_idle (c, ended r) = (c, ended r)

module _ (format : ℤ → String) (accounts : Option (Dict AccountId UsagePollAccount)) where
  abbrev pub persist_all :
      AccountId
      → Fetch
      → Option Peeked
      → Option StateStore
      → Option (Dict AccountId UsagePollAccount)
      → Coordinator
      → Coordinator × Bool
  persist_all account f (some p) (some s) (some known) c =
      with_store c (persist_account format account f.wall_now (get account known) f.store_now p s)
  persist_all account f _ _ _ c = (c, false)

  -- The Boolean says that the store raised.
  unfoldable pub ingest_observation : AccountId → Fetch → Coordinator → Coordinator × Bool
  ingest_observation account f c = persist_all account f f.peeked c.store accounts (record c {
    router =
        ingest_usage_peek account (windows_of f.peeked) f.router_now f.router_wall_now c.router;
  })

  unfoldable pub attempt : AccountId → Bool → PollAnswer → Coordinator → Coordinator × Attempted
  attempt account manual cache_hit c =
      (record c { cache_hit_count = c.cache_hit_count + 1 }, next_candidate)
  attempt account manual cooldown c = (
    record c { cooldown_count = c.cooldown_count + 1; last_tick_outcome = some on_cooldown },
    ended (record { outcome = on_cooldown; account_id = some account; manual = manual; ok = none }),
  )
  attempt account manual (fetched f) c =
      finish_fetch account manual f (ingest_observation account f (record_fetch account f c))

  unfoldable pub attempt_each :
      (AccountId → PollAnswer) → List AccountId → Coordinator → Coordinator × Attempted
  attempt_each poll [] c = (c, next_candidate)
  attempt_each poll (a ∷ as') c = go_on (attempt_each poll as') (attempt a false (poll a) c)

  abbrev pub attempt_pending :
      (AccountId → PollAnswer) → Option AccountId → Bool → Coordinator → Coordinator × Attempted
  attempt_pending poll (some a) true c = attempt a true (poll a) c
  attempt_pending poll _ _ c = (c, next_candidate)

  -- The rest of `run_due_poll` after the automatic candidates.
  unfoldable pub attempt_manual :
      (AccountId → PollAnswer) → List AccountId → Coordinator → Coordinator × Attempted
  attempt_manual poll ready c =
      attempt_pending poll (earliest (pending_ready ready c.pending_manual))
        c.any_automatic_serviced c

  unfoldable pub run_due_poll :
      UsageCache → List AccountId → ℤ → Coordinator → Coordinator × Attempted
  run_due_poll cache ready now c =
      if is_within now c.last_call_monotonic c.poll_interval
      then (record c { last_tick_outcome = some budget_wait }, ended (no_call budget_wait))
      else end_idle (
          go_on (attempt_manual (λ a. cache.poll a true) ready)
            (attempt_each (λ a. cache.poll a false) (due_order cache.peek_with_metadata ready) c))
