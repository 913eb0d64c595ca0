-- ===== src/Pool/Chain/Order.antt =====
-- The chain against a description of it that has no state.
use claudex.Prelude.{
  ℕ, ◌+◌, ◌≡◌, refl, List, [], ◌∷◌, ◌++◌, map, Option, none, some, Bool, true, false, not, ◌&&◌,
  select, string_eq, ◌==◌, if◌then◌else◌, Bool-cases, inl, inr, ap, sym, ◌∙◌, All, times,
}
use mathlib.Core.List.{append_assoc, append-nil}
use claudex.Prelude.Int.{ℤ}
use claudex.Dict.{get}
use claudex.Selection.Units.{AccountId}
use claudex.Pool.Tracker.{AccountCooldownTracker, is_cooling}
use claudex.Pool.Tracker.Expiry.{cools, is_cooling-eq-cools, get-is_cooling}
use claudex.Pool.Chain.{
  AccountRecord, ServingChain, find_record, place, placed_as, place_each, chain_of,
  build_serving_chain,
}
use claudex.Pool.Chain.Sorted.{
  ordered, others_of, AreDistinct, IsByAge, ordered-AreDistinct, others_of-IsByAge, ids_of,
  times-others_of,
}

-- The records with their places: the serving account's at 0, the others from 1 on.
abbrev pub numbered : ℕ → List AccountRecord → List (ℕ × AccountRecord)
numbered n [] = []
numbered n (c ∷ cs) = (n, c) ∷ numbered (n + 1) cs

abbrev pub placed : Option AccountRecord → List AccountRecord → List (ℕ × AccountRecord)
placed none others = numbered 1 others
placed (some c) others = (0, c) ∷ numbered 1 others

abbrev pub places : AccountId → List AccountRecord → List (ℕ × AccountRecord)
places serving records = placed (find_record serving records) (others_of serving records)

module _ (clocks : ℕ → ℤ × ℤ) (t : AccountCooldownTracker) where
  -- Whether the account cools in the tracker of the call, by the readings at its place.
  abbrev pub cools_at : ℕ × AccountRecord → Bool
  cools_at (n, c) = (is_cooling (clocks n).0 (clocks n).1 c.id t).1

  abbrev pub is_usable : ℕ × AccountRecord → Bool
  is_usable (n, c) = (c.state == "ready") && not (cools_at (n, c))

  abbrev pub is_resting : ℕ × AccountRecord → Bool
  is_resting (n, c) = (c.state == "ready") && cools_at (n, c)

  -- The tracker has the deadlines of the records as the first one has them.
  abbrev AnswersAlike : List AccountRecord → AccountCooldownTracker → Type 0
  AnswersAlike cs s = All (λ (c : AccountRecord). get c.id s.deadlines ≡ get c.id t.deadlines) cs

  -- What a placed record adds to the chain.
  abbrev Adds : ℕ × AccountRecord → ServingChain → ServingChain → Type 0
  Adds p before after =
      (after.attempts ≡ before.attempts ++ (if is_usable p then p.1 ∷ [] else []))
      × (after.cooling_ids ≡ before.cooling_ids ++ (if is_resting p then p.1.id ∷ [] else []))

  placed_as_lem :
      (n : ℕ) (c : AccountRecord) (x : AccountCooldownTracker × Bool) (chain : ServingChain)
      → ((placed_as clocks c x chain).0 ≡ x.0)
        × ((placed_as clocks c x chain).1.attempts
            ≡ chain.attempts ++ (if not x.1 then c ∷ [] else []))
        × ((placed_as clocks c x chain).1.cooling_ids
            ≡ chain.cooling_ids ++ (if x.1 then c.id ∷ [] else []))
  placed_as_lem n c (s, true) chain = (refl, sym (append-nil chain.attempts), refl)
  placed_as_lem n c (s, false) chain = (refl, refl, sym (append-nil chain.cooling_ids))

  same_answer :
      (n : ℕ) (c : AccountRecord) (s : AccountCooldownTracker)
      → get c.id s.deadlines ≡ get c.id t.deadlines
      → (is_cooling (clocks n).0 (clocks n).1 c.id s).1 ≡ cools_at (n, c)
  same_answer n c s e =
      is_cooling-eq-cools (clocks n).0 (clocks n).1 c.id s
      ∙ ap (cools (clocks n).0 (clocks n).1) e
      ∙ sym (is_cooling-eq-cools (clocks n).0 (clocks n).1 c.id t)

  place_lem :
      (n : ℕ) (c : AccountRecord) (s : AccountCooldownTracker) (chain : ServingChain)
      → get c.id s.deadlines ≡ get c.id t.deadlines
      → Adds (n, c) chain (place clocks n c (s, chain)).1
  unfolding place
  place_lem n c s chain same = elim (Bool-cases (c.state == "ready")) [
    | inr other ↦ rw other (sym (append-nil chain.attempts), sym (append-nil chain.cooling_ids))
    | inl ready ↦
        let (kept, tried, rested) =
          placed_as_lem n c (is_cooling (clocks n).0 (clocks n).1 c.id s) chain in
        rw (ready, ← same_answer n c s same) (tried, rested)
  ]

  -- Placing a record leaves the deadlines of other accounts alone.
  place_keeps :
      (n : ℕ) (c : AccountRecord) (s : AccountCooldownTracker) (chain : ServingChain)
      (a : AccountId)
      → (c.id == a) ≡ false
      → get a (place clocks n c (s, chain)).0.deadlines ≡ get a s.deadlines
  unfolding place
  place_keeps n c s chain a other = elim (Bool-cases (c.state == "ready")) [
    | inr rests ↦ rw rests refl
    | inl ready ↦
        let x = is_cooling (clocks n).0 (clocks n).1 c.id s in
        let kept = (placed_as_lem n c x chain).0 in
        let read = get-is_cooling (clocks n).0 (clocks n).1 c.id a s in
        rw ready (
          ap (λ u. get a u.deadlines) kept
          ∙ (read
              ∙ ap
                  (λ b.
                    if b
                    then (if cools (clocks n).0 (clocks n).1 (get a s.deadlines)
                        then get a s.deadlines
                        else none)
                    else get a s.deadlines)
                  other))
  ]

  place-AnswersAlike :
      (n : ℕ) (c : AccountRecord) (cs : List AccountRecord) (s : AccountCooldownTracker)
      (chain : ServingChain)
      → All (λ (d : AccountRecord). (c.id == d.id) ≡ false) cs
      → AnswersAlike cs s
      → AnswersAlike cs (place clocks n c (s, chain)).0
  place-AnswersAlike n c [] s chain distinct alike = tt
  place-AnswersAlike n c (d ∷ ds) s chain distinct alike = (
    place_keeps n c s chain d.id distinct.0 ∙ alike.0,
    place-AnswersAlike n c ds s chain distinct.1 alike.1,
  )

  place_each_lem :
      (n : ℕ) (cs : List AccountRecord) (s : AccountCooldownTracker) (chain : ServingChain)
      → AreDistinct cs
      → AnswersAlike cs s
      → ((place_each clocks n cs (s, chain)).1.attempts
          ≡ chain.attempts ++ map (λ p. p.1) (select is_usable (numbered n cs)))
        × ((place_each clocks n cs (s, chain)).1.cooling_ids
            ≡ chain.cooling_ids ++ map (λ p. p.1.id) (select is_resting (numbered n cs)))
  unfolding place_each
  place_each_lem n [] s chain distinct alike =
      (sym (append-nil chain.attempts), sym (append-nil chain.cooling_ids))
  place_each_lem n (c ∷ cs) s chain distinct alike =
      let next = place clocks n c (s, chain) in
      let (tried, rested) = place_lem n c s chain alike.0 in
      let (all_tried, all_rested) =
        place_each_lem (n + 1) cs next.0 next.1 distinct.1
          (place-AnswersAlike n c cs s chain distinct.0 alike.1) in
      (
        all_tried
            ∙ ap (λ xs. xs ++ map (λ p. p.1) (select is_usable (numbered (n + 1) cs))) tried
            ∙ joined (λ p. p.1) (is_usable (n, c)) chain.attempts (n, c)
                (select is_usable (numbered (n + 1) cs)),
        all_rested
            ∙ ap (λ xs. xs ++ map (λ p. p.1.id) (select is_resting (numbered (n + 1) cs))) rested
            ∙ joined (λ p. p.1.id) (is_resting (n, c)) chain.cooling_ids (n, c)
                (select is_resting (numbered (n + 1) cs)),
      )
    where
      joined :
          {A : Type 0} (f : ℕ × AccountRecord → A) (b : Bool) (xs : List A) (x : ℕ × AccountRecord)
          (ys : List (ℕ × AccountRecord))
          → (xs ++ (if b then f x ∷ [] else [])) ++ map f ys
            ≡ xs ++ map f (if b then x ∷ ys else ys)
      joined f true xs x ys = append_assoc xs (f x ∷ []) (map f ys)
      joined f false xs x ys = append_assoc xs [] (map f ys)

  all_alike : (cs : List AccountRecord) → AnswersAlike cs t
  all_alike [] = tt
  all_alike (c ∷ cs) = (refl, all_alike cs)

  -- Where no two records have one id: the attempts are the ready accounts that do not cool by the two
  -- clocks' readings at their own place, in this order: the serving account's record if there is one,
  -- then those of every other account, none before one that was created earlier; the ready ones that
  -- cool are reported in the same order.
  pub build_serving_chain-eq-order :
      (serving : AccountId) (records : List AccountRecord)
      → AreDistinct records
      → ((build_serving_chain clocks serving records t).1.attempts
          ≡ map (λ p. p.1) (select is_usable (places serving records)))
        × ((build_serving_chain clocks serving records t).1.cooling_ids
            ≡ map (λ p. p.1.id) (select is_resting (places serving records)))
        × IsByAge (others_of serving records)
        × ((a : AccountId)
            → times a (ids_of (others_of serving records))
              ≡ (if a == serving then 0 else times a (ids_of records)))
  unfolding build_serving_chain place_each
  build_serving_chain-eq-order serving records distinct =
      let chain =
        from_found (find_record serving records) (others_of serving records)
          (ordered-AreDistinct serving records (find_record serving records) refl distinct) in
      (chain.0, chain.1, others_of-IsByAge serving records, λ a. times-others_of a serving records)
    where
      from_found :
          (found : Option AccountRecord) (others : List AccountRecord)
          → AreDistinct (ordered found others)
          → ((chain_of clocks found others t).1.attempts
              ≡ map (λ p. p.1) (select is_usable (placed found others)))
            × ((chain_of clocks found others t).1.cooling_ids
                ≡ map (λ p. p.1.id) (select is_resting (placed found others)))
      from_found none others apart = place_each_lem 1 others t _ apart (all_alike others)
      from_found (some c) others apart =
          place_each_lem 0 (c ∷ others) t _ apart (all_alike (c ∷ others))
