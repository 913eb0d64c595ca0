-- ===== src/Polling/Budget.antt =====
-- The budget of upstream calls.
use claudex.Prelude.{
  ◌+◌, ◌≡◌, ◌⊎◌, inl, inr, refl, sym, subst, some_inj, ap, ◌∙◌, String, List, [], ◌∷◌, Option, none,
  some, Bool, true, false, if◌then◌else◌, Bool-cases, arith,
}
use claudex.Prelude.Int.{ℤ}
use claudex.Dict.{Dict}
use claudex.Selection.Units.{AccountId}
use claudex.StateStore.Queue.{StateStore}
use claudex.Polling.Coordinator.{
  UsagePollAccount, Fetch, PollAnswer, cache_hit, cooldown, fetched, UsageCache, Coordinator,
  is_within, due_order, budget_wait, Peeked, was_fetched, PollTickOutcome, on_cooldown, idle,
}
use claudex.Polling.Tick.{
  Attempted, next_candidate, store_raised, ended, record_fetch, ingest_observation, persist_all,
  serve, finish_fetch, attempt, attempt_pending, attempt_manual, go_on, end_idle, no_call,
  run_due_poll, earliest, pending_ready,
}
use claudex.Polling.First.{
  is_hit, or_later, first_other, hits_before, with_hits, go_on-other, decided, run_due_poll-first,
}

-- No upstream call: the count and the time of the last one stay.
abbrev pub Quiet : Coordinator → Coordinator → Type 0
Quiet c d =
    (d.fetched_count ≡ c.fetched_count)
    × (d.poll_interval ≡ c.poll_interval)
    × (d.last_call_monotonic ≡ c.last_call_monotonic)

-- The tick reports a fetch of an account, or the store's exception after one.
abbrev pub Reports : AccountId → Bool → Fetch → Attempted → Type 0
Reports account manual f result =
    (result ≡ store_raised)
    ⊎ (result
        ≡ ended (record {
          outcome = was_fetched;
          account_id = some account;
          manual = manual;
          ok = some f.ok;
        }))

abbrev pub is_fetch : PollTickOutcome → Bool
is_fetch was_fetched = true
is_fetch budget_wait = false
is_fetch on_cooldown = false
is_fetch idle = false

abbrev pub reports_fetch : Attempted → Bool
reports_fetch next_candidate = false
reports_fetch store_raised = true
reports_fetch (ended r) = is_fetch r.outcome

-- One call: the cache answered with a fetch, which is reported and counted, and its time is kept.
abbrev pub Called : UsageCache → Coordinator → Coordinator × Attempted → Type 0
Called cache c (d, result) =
    (account : AccountId) × (forced : Bool) × (f : Fetch) × (cache.poll account forced ≡ fetched f)
    × Reports account forced f result
    × (d.fetched_count ≡ c.fetched_count + 1)
    × (d.poll_interval ≡ c.poll_interval)
    × (d.last_call_monotonic ≡ some f.fetched_at)

abbrev Calls : UsageCache → Coordinator → Coordinator × Attempted → Type 0
Calls cache c r = (Quiet c r.0 × (reports_fetch r.1 ≡ false)) ⊎ Called cache c r

finish_fetch-Reports :
    (account : AccountId) (manual : Bool) (f : Fetch) (p : Coordinator × Bool)
    → Reports account manual f (finish_fetch account manual f p).1
finish_fetch-Reports account manual f (c, true) = inl refl
finish_fetch-Reports account manual f (c, false) = inr refl

finish_fetch-Quiet :
    (account : AccountId) (manual : Bool) (f : Fetch) (p : Coordinator × Bool)
    → Quiet p.0 (finish_fetch account manual f p).0
unfolding serve
finish_fetch-Quiet account manual f (c, true) = (refl, refl, refl)
finish_fetch-Quiet account true f (c, false) = (refl, refl, refl)
finish_fetch-Quiet account false f (c, false) = (refl, refl, refl)

module _ (format : ℤ → String) (accounts : Option (Dict AccountId UsagePollAccount)) where
  persist_all-Quiet :
      (account : AccountId) (f : Fetch) (p : Option Peeked) (s : Option StateStore)
      (known : Option (Dict AccountId UsagePollAccount)) (c : Coordinator)
      → Quiet c (persist_all format accounts account f p s known c).0
  persist_all-Quiet account f (some p) (some s) (some known) c = (refl, refl, refl)
  persist_all-Quiet account f (some p) (some s) none c = (refl, refl, refl)
  persist_all-Quiet account f (some p) none known c = (refl, refl, refl)
  persist_all-Quiet account f none s known c = (refl, refl, refl)

  ingest_observation-Quiet :
      (account : AccountId) (f : Fetch) (c : Coordinator)
      → Quiet c (ingest_observation format accounts account f c).0
  unfolding ingest_observation
  ingest_observation-Quiet account f c = persist_all-Quiet account f f.peeked c.store accounts _

  attempt-Calls :
      (cache : UsageCache) (account : AccountId) (manual : Bool) (answer : PollAnswer)
      (c : Coordinator)
      → cache.poll account manual ≡ answer
      → Calls cache c (attempt format accounts account manual answer c)
  unfolding attempt record_fetch
  attempt-Calls cache account manual cache_hit c h = inl ((refl, refl, refl), refl)
  attempt-Calls cache account manual cooldown c h = inl ((refl, refl, refl), refl)
  attempt-Calls cache account manual (fetched f) c h =
      let called = record_fetch account f c in
      let i = ingest_observation-Quiet account f called in
      let e =
        finish_fetch-Quiet account manual f (ingest_observation format accounts account f called) in
      inr (
        account,
        manual,
        f,
        h,
        finish_fetch-Reports account manual f _,
        e.0 ∙ i.0,
        e.1 ∙ i.1,
        e.2 ∙ i.2,
      )

  decided-Calls :
      (cache : UsageCache) (first : Option AccountId) (c : Coordinator)
      → Calls cache c (decided format accounts (λ a. cache.poll a false) first c)
  decided-Calls cache none c = inl ((refl, refl, refl), refl)
  decided-Calls cache (some a) c = attempt-Calls cache a false (cache.poll a false) c refl

  attempt_pending-Calls :
      (cache : UsageCache) (chosen : Option AccountId) (serviced : Bool) (c : Coordinator)
      → Calls cache c (attempt_pending format accounts (λ a. cache.poll a true) chosen serviced c)
  attempt_pending-Calls cache (some a) true c =
      attempt-Calls cache a true (cache.poll a true) c refl
  attempt_pending-Calls cache (some a) false c = inl ((refl, refl, refl), refl)
  attempt_pending-Calls cache none serviced c = inl ((refl, refl, refl), refl)

  -- A call of an automatic candidate ends the tick: what comes after it is not run.
  go_on-Calls :
      (cache : UsageCache) (first : Option AccountId) (c : Coordinator)
      (manual : Coordinator → Coordinator × Attempted)
      → ((a : AccountId) → first ≡ some a → is_hit (cache.poll a false) ≡ false)
      → ((d : Coordinator) → Calls cache d (manual d))
      → Calls cache c (go_on manual (decided format accounts (λ a. cache.poll a false) first c))
  go_on-Calls cache none c manual other calls = calls c
  go_on-Calls cache (some a) c manual other calls =
      subst (λ (r : Coordinator × Attempted). Calls cache c r)
        (sym (go_on-other format accounts manual a false (cache.poll a false) c (other a refl)))
        (attempt-Calls cache a false (cache.poll a false) c refl)

first_other-misses :
    (poll : AccountId → PollAnswer) (ids : List AccountId) (a : AccountId)
    → first_other poll ids ≡ some a
    → is_hit (poll a) ≡ false
first_other-misses poll [] a h = cc
first_other-misses poll (b ∷ rest) a h =
    first_here poll b (poll b) refl rest a h (first_other-misses poll rest a)
  where
    first_here :
        (poll : AccountId → PollAnswer) (b : AccountId) (answer : PollAnswer)
        → poll b ≡ answer
        → (rest : List AccountId) (a : AccountId)
        → or_later answer b (first_other poll rest) ≡ some a
        → (first_other poll rest ≡ some a → is_hit (poll a) ≡ false)
        → is_hit (poll a) ≡ false
    first_here poll b cache_hit e rest a h ih = ih h
    first_here poll b cooldown e rest a h ih =
        subst (λ x. is_hit (poll x) ≡ false) (some_inj h) (rw e refl)
    first_here poll b (fetched f) e rest a h ih =
        subst (λ x. is_hit (poll x) ≡ false) (some_inj h) (rw e refl)

end_idle-Calls :
    (cache : UsageCache) (c : Coordinator) (r : Coordinator × Attempted)
    → Calls cache c r
    → Calls cache c (end_idle r)
end_idle-Calls cache c (d, next_candidate) (inl (quiet, silent)) = inl (quiet, refl)
end_idle-Calls cache c (d, next_candidate) (inr (a, forced, f, e, inl raised, counted, same, at)) =
    absurd (ground arith)
end_idle-Calls cache c (d, next_candidate) (inr (a, forced, f, e, inr fetch, counted, same, at)) =
    absurd (ground arith)
end_idle-Calls cache c (d, store_raised) h = h
end_idle-Calls cache c (d, ended r) h = h

module _ (format : ℤ → String) (accounts : Option (Dict AccountId UsagePollAccount)) where
  abbrev tick_rest : UsageCache → List AccountId → Coordinator → Coordinator × Attempted
  tick_rest cache ready c = end_idle (
      go_on (attempt_manual format accounts (λ a. cache.poll a true) ready) (
        decided format accounts (λ a. cache.poll a false)
          (first_other (λ a. cache.poll a false) (due_order cache.peek_with_metadata ready))
          (with_hits
            (hits_before (λ a. cache.poll a false) (due_order cache.peek_with_metadata ready)) c)))

  abbrev tick_early : Coordinator → Coordinator × Attempted
  tick_early c = (record c { last_tick_outcome = some budget_wait }, ended (no_call budget_wait))

  tick_rest-Calls :
      (cache : UsageCache) (ready : List AccountId) (c : Coordinator)
      → Calls cache c (tick_rest cache ready c)
  unfolding attempt_manual
  tick_rest-Calls cache ready c =
      let poll = λ (a : AccountId). cache.poll a false in
      let ids = due_order cache.peek_with_metadata ready in
      end_idle-Calls cache c _ (
        go_on-Calls format accounts cache (first_other poll ids)
          (with_hits (hits_before poll ids) c)
          (attempt_manual format accounts (λ a. cache.poll a true) ready)
          (first_other-misses poll ids)
          (λ d.
            attempt_pending-Calls format accounts cache
              (earliest (pending_ready ready d.pending_manual)) d.any_automatic_serviced d))

  run_due_poll-eq :
      (cache : UsageCache) (ready : List AccountId) (now : ℤ) (c : Coordinator) (within : Bool)
      → is_within now c.last_call_monotonic c.poll_interval ≡ within
      → run_due_poll format accounts cache ready now c
        ≡ (if within then tick_early c else tick_rest cache ready c)
  run_due_poll-eq cache ready now c within e =
      run_due_poll-first format accounts cache ready now c
      ∙ ap (λ b. if b then tick_early c else tick_rest cache ready c) e

  -- A tick that reports no fetch leaves the count of fetches and the time of the last one as they are.
  -- Any other tick comes after the interval since the last fetch; the cache answered one poll with a
  -- fetch, of the account that the tick reports unless the store raised; the count grows by exactly
  -- one, and the time of that fetch is kept as that of the last one.
  pub tick_budget :
      (cache : UsageCache) (ready : List AccountId) (now : ℤ) (c : Coordinator)
      → (Quiet c (run_due_poll format accounts cache ready now c).0
          × (reports_fetch (run_due_poll format accounts cache ready now c).1 ≡ false))
        ⊎ (Called cache c (run_due_poll format accounts cache ready now c)
            × (is_within now c.last_call_monotonic c.poll_interval ≡ false))
  tick_budget cache ready now c =
      elim (Bool-cases (is_within now c.last_call_monotonic c.poll_interval)) [
        | inl early ↦
            rw (run_due_poll-eq cache ready now c true early) (inl ((refl, refl, refl), refl))
        | inr free ↦
            rw (run_due_poll-eq cache ready now c false free)
              (elim (tick_rest-Calls cache ready c) [
                | inl quiet ↦ inl quiet
                | inr called ↦ inr (called, free)
              ])
      ]
