-- ===== src/Polling/First.antt =====
-- Which candidate of a tick gets the call: the loop of `run_due_poll`.
use claudex.Prelude.{
  ℕ, suc, ◌+◌, ◌≡◌, refl, sym, ap, ◌∙◌, String, List, [], ◌∷◌, Option, none, some, Bool, true,
  false, if◌then◌else◌, arith,
}
use claudex.Prelude.Int.{ℤ}
use claudex.Dict.{Dict}
use claudex.Selection.Units.{AccountId}
use claudex.Polling.Coordinator.{
  UsagePollAccount, Fetch, PollAnswer, cache_hit, cooldown, fetched, UsageCache, Coordinator,
  is_within, due_order, budget_wait,
}
use claudex.Polling.Tick.{
  Attempted, next_candidate, ended, record_fetch, ingest_observation, finish_fetch, attempt,
  attempt_each, attempt_manual, go_on, end_idle, no_call, run_due_poll,
}

abbrev pub is_hit : PollAnswer → Bool
is_hit cache_hit = true
is_hit cooldown = false
is_hit (fetched f) = false

-- The first account that the cache does not answer from what it has.
abbrev pub or_later : PollAnswer → AccountId → Option AccountId → Option AccountId
or_later cache_hit a later = later
or_later cooldown a later = some a
or_later (fetched f) a later = some a

abbrev pub first_other : (AccountId → PollAnswer) → List AccountId → Option AccountId
first_other poll [] = none
first_other poll (a ∷ rest) = or_later (poll a) a (first_other poll rest)

-- How many accounts stand before it.
abbrev pub one_more : PollAnswer → ℕ → ℕ
one_more cache_hit n = suc n
one_more cooldown n = 0
one_more (fetched f) n = 0

abbrev pub hits_before : (AccountId → PollAnswer) → List AccountId → ℕ
hits_before poll [] = 0
hits_before poll (a ∷ rest) = one_more (poll a) (hits_before poll rest)

abbrev pub with_hits : ℕ → Coordinator → Coordinator
with_hits n c = record c { cache_hit_count = c.cache_hit_count + n }

with_hits-zero : (c : Coordinator) → with_hits 0 c ≡ c
with_hits-zero c = ap (λ n. record c { cache_hit_count = n }) (omega arith)

go_on-finish :
    (rest : Coordinator → Coordinator × Attempted) (account : AccountId) (manual : Bool) (f : Fetch)
    (p : Coordinator × Bool)
    → go_on rest (finish_fetch account manual f p) ≡ finish_fetch account manual f p
go_on-finish rest account manual f (c, true) = refl
go_on-finish rest account manual f (c, false) = refl

module _ (format : ℤ → String) (accounts : Option (Dict AccountId UsagePollAccount)) where
  pub go_on-other :
      (rest : Coordinator → Coordinator × Attempted) (account : AccountId) (manual : Bool)
      (answer : PollAnswer) (c : Coordinator)
      → is_hit answer ≡ false
      → go_on rest (attempt format accounts account manual answer c)
        ≡ attempt format accounts account manual answer c
  unfolding attempt
  go_on-other rest account manual cache_hit c h = cc
  go_on-other rest account manual cooldown c h = refl
  go_on-other rest account manual (fetched f) c h =
      go_on-finish rest account manual f
        (ingest_observation format accounts account f (record_fetch account f c))

  -- What the automatic candidates come to, given the first that the cache does not answer itself.
  abbrev pub decided :
      (AccountId → PollAnswer) → Option AccountId → Coordinator → Coordinator × Attempted
  decided poll none c = (c, next_candidate)
  decided poll (some a) c = attempt format accounts a false (poll a) c

  settled_step :
      (poll : AccountId → PollAnswer) (a : AccountId) (rest : List AccountId) (answer : PollAnswer)
      (c : Coordinator)
      → poll a ≡ answer
      → is_hit answer ≡ false
      → go_on (attempt_each format accounts poll rest) (attempt format accounts a false answer c)
        ≡ attempt format accounts a false (poll a) (with_hits 0 c)
  settled_step poll a rest answer c e other =
      go_on-other (attempt_each format accounts poll rest) a false answer c other
      ∙ (ap (λ x. attempt format accounts a false x c) (sym e)
          ∙ ap (λ d. attempt format accounts a false (poll a) d) (sym (with_hits-zero c)))

  each_step :
      (poll : AccountId → PollAnswer) (a : AccountId) (rest : List AccountId) (answer : PollAnswer)
      (c : Coordinator)
      → poll a ≡ answer
      → ((d : Coordinator)
          → attempt_each format accounts poll rest d
            ≡ decided poll (first_other poll rest) (with_hits (hits_before poll rest) d))
      → go_on (attempt_each format accounts poll rest) (attempt format accounts a false answer c)
        ≡ decided poll
            (or_later answer a (first_other poll rest))
            (with_hits (one_more answer (hits_before poll rest)) c)
  unfolding attempt
  each_step poll a rest cache_hit c e ih =
      ih _
      ∙ ap (λ n. decided poll (first_other poll rest) (record c { cache_hit_count = n }))
          (omega arith)
  each_step poll a rest cooldown c e ih = settled_step poll a rest cooldown c e refl
  each_step poll a rest (fetched f) c e ih = settled_step poll a rest (fetched f) c e refl

  each_decided :
      (poll : AccountId → PollAnswer) (ids : List AccountId) (c : Coordinator)
      → attempt_each format accounts poll ids c
        ≡ decided poll (first_other poll ids) (with_hits (hits_before poll ids) c)
  unfolding attempt_each
  each_decided poll [] c = ap (λ d. (d, next_candidate)) (sym (with_hits-zero c))
  each_decided poll (a ∷ rest) c =
      each_step poll a rest (poll a) c refl (λ d. each_decided poll rest d)

  -- A tick within the interval of the last call calls nothing. Any other tick, whatever the cache
  -- answers, tries the ready accounts in due order up to the first that the cache does not answer from
  -- what it has, and ends with that one's outcome; only when there is none may a pending manual
  -- refresh be tried, and a tick that tries nothing is idle.
  pub run_due_poll-first :
      (cache : UsageCache) (ready : List AccountId) (now : ℤ) (c : Coordinator)
      → run_due_poll format accounts cache ready now c ≡ (
          if is_within now c.last_call_monotonic c.poll_interval
          then (record c { last_tick_outcome = some budget_wait }, ended (no_call budget_wait))
          else (let poll = λ (a : AccountId). cache.poll a false in
              let ids = due_order cache.peek_with_metadata ready in
              end_idle (
                go_on
                  (attempt_manual format accounts (λ a. cache.poll a true) ready)
                  (decided poll (first_other poll ids) (with_hits (hits_before poll ids) c)))))
  unfolding run_due_poll
  run_due_poll-first cache ready now c =
      let poll = λ (a : AccountId). cache.poll a false in
      let ids = due_order cache.peek_with_metadata ready in
      ap
        (λ x.
          if is_within now c.last_call_monotonic c.poll_interval
          then (record c { last_tick_outcome = some budget_wait }, ended (no_call budget_wait))
          else end_idle (go_on (attempt_manual format accounts (λ a. cache.poll a true) ready) x))
        (each_decided poll ids c)
