-- ===== src/Polling/Order.antt =====
-- The due order: each ready account once, those without data first, then the oldest first.
use claudex.Prelude.{
  times, times-append, ◌+◌, ◌≡◌, refl, sym, ap, ◌∙◌, string_eq, List, [], ◌∷◌, ◌++◌, Option, not,
  ◌==◌, ==_iff, contains, select, is_some, map, All, All-weaken, bit, Bool-cases, Option-cases, inl,
  inr, arith, subst, none, some, if◌then◌else◌,
}
use claudex.Prelude.Int.{ℤ, ◌≤ℤ◌}
use claudex.Selection.Units.{AccountId}
use claudex.Polling.Coordinator.{
  Peeked, unique_ids, insert_id, sorted_ids, age_of, is_older, insert_aged, aged_of, due_order,
  add_aged,
}

times-insert_id :
    (a b : AccountId) (ids : List AccountId)
    → times a (insert_id b ids) ≡ times a ids + bit (b == a)
unfolding insert_id
times-insert_id a b [] = omega arith
times-insert_id a b (c ∷ cs) = ground (arith, times-insert_id a b cs)

times-sorted_ids : (a : AccountId) (ids : List AccountId) → times a (sorted_ids ids) ≡ times a ids
unfolding sorted_ids
times-sorted_ids a [] = refl
times-sorted_ids a (b ∷ bs) =
    omega (arith, times-insert_id a b (sorted_ids bs), times-sorted_ids a bs)

contains-unique_ids :
    (a : AccountId) (ids : List AccountId) → contains (unique_ids ids) a ≡ contains ids a
unfolding unique_ids
contains-unique_ids a [] = refl
contains-unique_ids a (b ∷ bs) = elim (Bool-cases (contains (unique_ids bs) b)) [
  | inl there ↦ ground (arith, there, contains-unique_ids a bs, ==_iff b a)
  | inr new ↦ ground (arith, new, contains-unique_ids a bs)
]

times-unique_ids :
    (a : AccountId) (ids : List AccountId)
    → times a (unique_ids ids) ≡ bit (contains (unique_ids ids) a)
unfolding unique_ids
times-unique_ids a [] = refl
times-unique_ids a (b ∷ bs) = elim (Bool-cases (contains (unique_ids bs) b)) [
  | inl there ↦ rw there (times-unique_ids a bs)
  | inr new ↦ ground (arith, new, times-unique_ids a bs, ==_iff b a)
]

times-insert_aged :
    (a : AccountId) (p : AccountId × ℤ) (ps : List (AccountId × ℤ))
    → times a (map (λ q. q.0) (insert_aged p ps)) ≡ times a (map (λ q. q.0) ps) + bit (p.0 == a)
unfolding insert_aged
times-insert_aged a p [] = omega arith
times-insert_aged a p (q ∷ qs) = ground (arith, times-insert_aged a p qs)

-- The two parts of the order have each account of the list as often as the list has it.
times-parts :
    (peek : AccountId → Option Peeked) (a : AccountId) (ids : List AccountId)
    → times a (select (λ b. not (is_some (age_of (peek b)))) ids)
        + times a (map (λ q. q.0) (aged_of peek ids))
      ≡ times a ids
unfolding aged_of
times-parts peek a [] = omega arith
times-parts peek a (b ∷ bs) = elim (Option-cases (age_of (peek b))) [
  | inl e ↦ rw e (omega (arith, times-parts peek a bs))
  | inr (age, e) ↦
      rw e (omega (arith, times-parts peek a bs, times-insert_aged a (b, age) (aged_of peek bs)))
]

times-due_order :
    (peek : AccountId → Option Peeked) (a : AccountId) (ready : List AccountId)
    → times a (due_order peek ready) ≡ bit (contains ready a)
unfolding due_order
times-due_order peek a ready =
    let ids = sorted_ids (unique_ids ready) in
    times-append a (select (λ b. not (is_some (age_of (peek b)))) ids) _
    ∙ times-parts peek a ids
    ∙ times-sorted_ids a (unique_ids ready)
    ∙ times-unique_ids a ready
    ∙ ap bit (contains-unique_ids a ready)

-- Each account is at least as old as those behind it.
abbrev pub IsOldestFirst : List (AccountId × ℤ) → Type 0
IsOldestFirst [] = Unit
IsOldestFirst (p ∷ ps) = All (λ (q : AccountId × ℤ). q.1 ≤ℤ p.1) ps × IsOldestFirst ps

All-insert_aged :
    (P : AccountId × ℤ → Type 0) (p : AccountId × ℤ) (ps : List (AccountId × ℤ))
    → P p
    → All P ps
    → All P (insert_aged p ps)
unfolding insert_aged
All-insert_aged P p [] h hs = (h, tt)
All-insert_aged P p (q ∷ qs) h hs = elim (Bool-cases (is_older q p)) [
  | inl e ↦ rw e (hs.0, All-insert_aged P p qs h hs.1)
  | inr e ↦ rw e (h, hs)
]

insert_aged-IsOldestFirst :
    (p : AccountId × ℤ) (ps : List (AccountId × ℤ))
    → IsOldestFirst ps
    → IsOldestFirst (insert_aged p ps)
unfolding insert_aged
insert_aged-IsOldestFirst p [] h = (tt, tt)
insert_aged-IsOldestFirst p (q ∷ qs) h = elim (Bool-cases (is_older q p)) [
  | inl e ↦ rw e (
    All-insert_aged (λ (r : AccountId × ℤ). r.1 ≤ℤ q.1) p qs (ground (arith, e)) h.0,
    insert_aged-IsOldestFirst p qs h.1,
  )
  | inr e ↦ rw e (
    (
      ground (arith, e),
      All-weaken (λ (r : AccountId × ℤ). r.1 ≤ℤ q.1) _ (λ r k. ground (arith, e, k)) qs h.0,
    ),
    h,
  )
]

aged_of-IsOldestFirst :
    (peek : AccountId → Option Peeked) (ids : List AccountId) → IsOldestFirst (aged_of peek ids)
unfolding aged_of
aged_of-IsOldestFirst peek [] = tt
aged_of-IsOldestFirst peek (a ∷ as') = elim (Option-cases (age_of (peek a))) [
  | inl e ↦ rw e (aged_of-IsOldestFirst peek as')
  | inr (age, e) ↦
      rw e (insert_aged-IsOldestFirst (a, age) (aged_of peek as') (aged_of-IsOldestFirst peek as'))
]

-- Each entry has the least age of its account's windows.
aged_of-age :
    (peek : AccountId → Option Peeked) (ids : List AccountId)
    → All (λ (p : AccountId × ℤ). age_of (peek p.0) ≡ some p.1) (aged_of peek ids)
unfolding aged_of
aged_of-age peek [] = tt
aged_of-age peek (a ∷ as') = elim (Option-cases (age_of (peek a))) [
  | inl e ↦ rw e (aged_of-age peek as')
  | inr (age, e) ↦
      subst
        (λ o.
          All (λ (p : AccountId × ℤ). age_of (peek p.0) ≡ some p.1)
            (add_aged a o (aged_of peek as')))
        (sym e)
        (All-insert_aged (λ (p : AccountId × ℤ). age_of (peek p.0) ≡ some p.1) (a, age)
          (aged_of peek as') e (aged_of-age peek as'))
]

missing-All :
    (peek : AccountId → Option Peeked) (ids : List AccountId)
    → All (λ a. age_of (peek a) ≡ none) (select (λ b. not (is_some (age_of (peek b)))) ids)
missing-All peek [] = tt
missing-All peek (a ∷ as') = elim (Option-cases (age_of (peek a))) [
  | inl e ↦
      subst
        (λ o.
          All (λ b. age_of (peek b) ≡ none)
            (if not (is_some o)
              then a ∷ select (λ b. not (is_some (age_of (peek b)))) as'
              else select (λ b. not (is_some (age_of (peek b)))) as'))
        (sym e) (e, missing-All peek as')
  | inr (age, e) ↦ rw e (missing-All peek as')
]

-- The due order has each ready account exactly once and no other: first all those of which the cache
-- has no window, then those with an age, which is the least of the account's windows, and none of
-- these stands before one that is older.
pub due_order_sound :
    (peek : AccountId → Option Peeked) (ready : List AccountId)
    → ((a : AccountId) → times a (due_order peek ready) ≡ bit (contains ready a))
      × ((missing : List AccountId) × (aged : List (AccountId × ℤ)) × (due_order peek ready
            ≡ missing ++ map (λ p. p.0) aged)
          × All (λ a. age_of (peek a) ≡ none) missing
          × All (λ (p : AccountId × ℤ). age_of (peek p.0) ≡ some p.1) aged
          × IsOldestFirst aged)
unfolding due_order
due_order_sound peek ready =
    let ids = sorted_ids (unique_ids ready) in
    (
      λ a. times-due_order peek a ready,
      (
        select (λ b. not (is_some (age_of (peek b)))) ids,
        aged_of peek ids,
        refl,
        missing-All peek ids,
        aged_of-age peek ids,
        aged_of-IsOldestFirst peek ids,
      ),
    )
