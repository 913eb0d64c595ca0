-- ===== src/Router/Pins/Victim.antt =====
-- The LRU victim is an evictable pin of its kind that was seen no later than any other.
use claudex.Prelude.{
  ◌≡◌, refl, List, [], ◌∷◌, none, some, Bool, true, false, ◌⊎◌, inl, inr, In, All, All-In,
  if◌then◌else◌, arith, ◌==◌, ==_iff, list_eq, nat_eq, Bool-cases, ap, ==_refl, sym, subst,
  some_inj, ==_refl, sym, subst,
}
use claudex.Prelude.Int.{ℤ, ◌≤ℤ◌}
use claudex.Dict.{Dict, get, Unique}
use claudex.Dict.Laws.{==-ne}
use claudex.Selection.Pick.{Bytes, KeyKind}
use claudex.Router.State.{PinEntry}
use claudex.Router.Pins.{
  is_evictable, lru_candidates, lru_victim, oldest, oldest_of, older, victim_of,
}

In-lru_candidates :
    (kind : KeyKind) (pins : Dict Bytes PinEntry) (t : ℤ) (d : Bytes)
    → Unique pins
    → In (t, d) (lru_candidates kind pins)
    → (e : PinEntry) × (get d pins ≡ some e)
      × (is_evictable kind e ≡ true)
      × (t ≡ e.last_seen_monotonic)
unfolding get lru_candidates
In-lru_candidates kind [] t d u i = absurd i
In-lru_candidates kind ((k, e) ∷ rest) t d u i = elim (Bool-cases (is_evictable kind e)) [
  | inr kept ↦ later (In-lru_candidates kind rest t d u.1 (rw kept at i))
  | inl free ↦ elim (split free i) [
    | inl same ↦ (
      e,
      rw (ap (λ (p : ℤ × Bytes). p.1) same) (rw (==_refl k)),
      free,
      ap (λ (p : ℤ × Bytes). p.0) same,
    )
    | inr j ↦ later (In-lru_candidates kind rest t d u.1 j)
  ]
]
  where
    split :
        is_evictable kind e ≡ true
        → In (t, d) (lru_candidates kind ((k, e) ∷ rest))
        → (◌≡◌ {A = ℤ × Bytes} (t, d) (e.last_seen_monotonic, k))
          ⊎ In (t, d) (lru_candidates kind rest)
    split free j = rw free at j

    later :
        ((f : PinEntry) × (get d rest ≡ some f)
          × (is_evictable kind f ≡ true)
          × (t ≡ f.last_seen_monotonic))
        → (f : PinEntry) × (get d ((k, e) ∷ rest) ≡ some f)
          × (is_evictable kind f ≡ true)
          × (t ≡ f.last_seen_monotonic)
    later (f, h, g, s) =
        let apart : (k == d) ≡ false =
          ==-ne k d (λ same. ground (arith, ap (λ x. get x rest) same)) in
        (f, rw apart h, g, s)

lru_candidates-In :
    (kind : KeyKind) (pins : Dict Bytes PinEntry) (d : Bytes) (e : PinEntry)
    → get d pins ≡ some e
    → is_evictable kind e ≡ true
    → In (e.last_seen_monotonic, d) (lru_candidates kind pins)
unfolding get lru_candidates
lru_candidates-In kind [] d e h f = cc
lru_candidates-In kind ((k, g) ∷ rest) d e h f = elim (Bool-cases (k == d)) [
  | inl same ↦
      let here : g ≡ e = some_inj (rw same at h) in
      let free : is_evictable kind g ≡ true =
        subst (λ x. is_evictable kind x ≡ true) (sym here) f in
      rw free (inl (entry here ((==_iff k d).0 same)))
  | inr other ↦ further (is_evictable kind g) (lru_candidates-In kind rest d e (rw other at h) f)
]
  where
    entry :
        g ≡ e → k ≡ d → ◌≡◌ {A = ℤ × Bytes} (e.last_seen_monotonic, d) (g.last_seen_monotonic, k)
    entry p q = λ i. ((sym p i).last_seen_monotonic, sym q i)

    further :
        (c : Bool)
        → In (e.last_seen_monotonic, d) (lru_candidates kind rest)
        → In
            (e.last_seen_monotonic, d)
            (if c
              then (g.last_seen_monotonic, k) ∷ lru_candidates kind rest
              else lru_candidates kind rest)
    further true i = inr i
    further false i = i

older-le : (a b : ℤ × Bytes) → (oldest_of a b).0 ≤ℤ a.0 × ((oldest_of a b).0 ≤ℤ b.0)
older-le a b = ground arith

oldest-le :
    (a : ℤ × Bytes) (more : List (ℤ × Bytes)) → All (λ b. (oldest a more).0 ≤ℤ b.0) (a ∷ more)
unfolding oldest
oldest-le a [] = omega arith
oldest-le a (b ∷ bs) =
    let h = oldest-le (oldest_of a b) bs in
    let s = older-le a b in (omega (arith, h.0, s.0), (omega (arith, h.0, s.1), h.1))

oldest-In : (a : ℤ × Bytes) (more : List (ℤ × Bytes)) → In (oldest a more) (a ∷ more)
unfolding oldest
oldest-In a [] = inl refl
oldest-In a (b ∷ bs) = widen (older b a) (oldest-In a bs) (oldest-In b bs)
  where
    widen :
        (c : Bool)
        → In (oldest a bs) (a ∷ bs)
        → In (oldest b bs) (b ∷ bs)
        → In (oldest (if c then b else a) bs) (a ∷ b ∷ bs)
    widen true _ i = inr i
    widen false (inl e) _ = inl e
    widen false (inr i) _ = inr (inr i)

-- Where the keys of the pin map are distinct: a victim is a pin of its kind with no migration in
-- flight, and no such pin was seen earlier.
pub lru_victim_oldest :
    (kind : KeyKind) (pins : Dict Bytes PinEntry) (d : Bytes)
    → Unique pins
    → lru_victim kind pins ≡ some d
    → (e : PinEntry) × (get d pins ≡ some e)
      × (is_evictable kind e ≡ true)
      × ((d' : Bytes) (e' : PinEntry)
          → get d' pins ≡ some e'
          → is_evictable kind e' ≡ true
          → e.last_seen_monotonic ≤ℤ e'.last_seen_monotonic)
unfolding lru_victim
lru_victim_oldest kind pins d u h = of_list (lru_candidates kind pins) refl h
  where
    of_list :
        (l : List (ℤ × Bytes))
        → lru_candidates kind pins ≡ l
        → victim_of l ≡ some d
        → (e : PinEntry) × (get d pins ≡ some e)
          × (is_evictable kind e ≡ true)
          × ((d' : Bytes) (e' : PinEntry)
              → get d' pins ≡ some e'
              → is_evictable kind e' ≡ true
              → e.last_seen_monotonic ≤ℤ e'.last_seen_monotonic)
    of_list [] eq v = absurd (cc)
    of_list (a ∷ more) eq v =
        let i : In (oldest a more) (lru_candidates kind pins) =
          subst (In (oldest a more)) (sym eq) (oldest-In a more) in
        let (e, there, free, seen) =
          In-lru_candidates kind pins (oldest a more).0 (oldest a more).1 u i in
        let same : (oldest a more).1 ≡ d = some_inj v in
        (
          e,
          subst (λ x. get x pins ≡ some e) same there,
          free,
          λ d' e' h' f'.
              let j =
                subst (In (e'.last_seen_monotonic, d')) eq
                  (lru_candidates-In kind pins d' e' h' f') in
              subst (λ x. x ≤ℤ e'.last_seen_monotonic) seen
                (All-In (λ b. (oldest a more).0 ≤ℤ b.0) (a ∷ more) (e'.last_seen_monotonic, d')
                  (oldest-le a more) j),
        )

-- Without a victim, no pin of the kind may be evicted.
pub lru_victim-none :
    (kind : KeyKind) (pins : Dict Bytes PinEntry) (d : Bytes) (e : PinEntry)
    → lru_victim kind pins ≡ none
    → get d pins ≡ some e
    → is_evictable kind e ≡ false
unfolding lru_victim
lru_victim-none kind pins d e h there = elim (Bool-cases (is_evictable kind e)) [
  | inr kept ↦ kept
  | inl free ↦
      absurd (empty (lru_candidates kind pins) h (lru_candidates-In kind pins d e there free))
]
  where
    empty : (l : List (ℤ × Bytes)) → victim_of l ≡ none → In (e.last_seen_monotonic, d) l → ⊥
    empty [] v i = i
    empty (a ∷ more) v i = cc
