-- ===== src/Router/Pins/Capacity.antt =====
-- Making room: the bound holds afterwards, or no pin that is left may be evicted.
use claudex.Prelude.{
  ℕ, zero, suc, ◌+◌, ◌<◌, ◌≡◌, refl, [], ◌∷◌, Option, none, some, Bool, true, false, ◌⊎◌, inl, inr,
  if◌then◌else◌, arith, ◌==◌, ==_iff, list_eq, nat_eq, Bool-cases, Option-cases, ◌∙◌,
}
use claudex.Dict.{Dict, get, size, Unique}
use claudex.Prelude.{subst}
use claudex.Dict.Laws.{size-pop}
use claudex.Selection.Pick.{Bytes, uuid, content_hash}
use claudex.Router.State.{Router, PinEntry, evicted_lru}
use claudex.Router.Store.{submit_to}
use claudex.Router.Pins.{
  is_evictable, lru_victim, next_victim, or_victim, evict, evict_loop, is_over, remove_pin_for,
}
use claudex.Router.Pins.Purge.{get-remove_pin_for, remove_pin_for-Unique, remove_pin_for-conserves}
use claudex.Router.Pins.Victim.{lru_victim_oldest}

overflow-remove_pin_for :
    (v : Bytes) (r : Router)
    → (remove_pin_for evicted_lru v r).soft_bound_overflow_count ≡ r.soft_bound_overflow_count
unfolding remove_pin_for
overflow-remove_pin_for v r = elim (Option-cases (get v r.pins)) [
  | inl e ↦ ground arith
  | inr (w, e) ↦ ground arith
]

-- Eviction removes the victim and tells the store.
evict-pins :
    (d : Bytes) (r : Router)
    → ((evict d r).pins ≡ (remove_pin_for evicted_lru d r).pins)
      × ((evict d r).total_removed_pins ≡ (remove_pin_for evicted_lru d r).total_removed_pins)
      × ((evict d r).pin_map_max_entries ≡ (remove_pin_for evicted_lru d r).pin_map_max_entries)
      × ((evict d r).soft_bound_overflow_count
          ≡ (remove_pin_for evicted_lru d r).soft_bound_overflow_count)
unfolding evict submit_to
evict-pins d r = elim (Option-cases (remove_pin_for evicted_lru d r).store) [
  | inl e ↦ ground arith
  | inr (s, e) ↦ ground arith
]

overflow-evict :
    (v : Bytes) (r : Router) → (evict v r).soft_bound_overflow_count ≡ r.soft_bound_overflow_count
overflow-evict v r = (evict-pins v r).3 ∙ overflow-remove_pin_for v r

evict-Unique : (v : Bytes) (r : Router) → Unique r.pins → Unique (evict v r).pins
evict-Unique v r u = rw (evict-pins v r).0 (remove_pin_for-Unique evicted_lru v r u)

get-evict :
    (d v : Bytes) (r : Router) → get d (evict v r).pins ≡ (if v == d then none else get d r.pins)
get-evict d v r = rw (evict-pins v r).0 (get-remove_pin_for evicted_lru d v r)

-- The next victim is a pin with no migration in flight.
next_victim_mem :
    (pins : Dict Bytes PinEntry) (v : Bytes)
    → Unique pins
    → next_victim pins ≡ some v
    → (e : PinEntry) × (get v pins ≡ some e) × (e.migration_reserved ≡ false)
unfolding is_evictable
next_victim_mem pins v u h =
    elim (victims (lru_victim content_hash pins) (lru_victim uuid pins) h) [
      | inl c ↦
          let (e, there, free, _) = lru_victim_oldest content_hash pins v u c in
          (e, there, ground arith)
      | inr c ↦
          let (e, there, free, _) = lru_victim_oldest uuid pins v u c in (e, there, ground arith)
    ]
  where
    victims : (a b : Option Bytes) → or_victim a b ≡ some v → (a ≡ some v) ⊎ (b ≡ some v)
    victims none b h' = inr h'
    victims (some []) b h' = inr h'
    victims (some (x ∷ xs)) b h' = inl h'

-- What a run of the eviction loop leaves.
pub record IsTrimmed (reserve : Bool) (r s : Router) : Type 0 where
  pub unique : Unique s.pins
  pub subset : (d : Bytes) (e : PinEntry) → get d s.pins ≡ some e → get d r.pins ≡ some e
  pub protected :
      (d : Bytes) (e : PinEntry)
      → get d r.pins ≡ some e
      → e.migration_reserved ≡ true
      → get d s.pins ≡ some e
  pub conserved : size s.pins + s.total_removed_pins ≡ size r.pins + r.total_removed_pins
  pub bounded :
      ((is_over reserve s ≡ false) × (s.soft_bound_overflow_count ≡ r.soft_bound_overflow_count))
      ⊎ ((next_victim s.pins ≡ none)
          × (s.soft_bound_overflow_count ≡ r.soft_bound_overflow_count + 1))

module _ (fuel : ℕ) (reserve : Bool) (r : Router) where
  loop_fits : is_over reserve r ≡ false → evict_loop (suc fuel) reserve r ≡ r
  unfolding evict_loop
  loop_fits h = ground arith

  loop_stuck :
      is_over reserve r ≡ true
      → next_victim r.pins ≡ none
      → evict_loop (suc fuel) reserve r
        ≡ record r { soft_bound_overflow_count = r.soft_bound_overflow_count + 1 }
  unfolding evict_loop
  loop_stuck h n = ground arith

  loop_evicts :
      (v : Bytes)
      → is_over reserve r ≡ true
      → next_victim r.pins ≡ some v
      → evict_loop (suc fuel) reserve r ≡ evict_loop fuel reserve (evict v r)
  unfolding evict_loop
  loop_evicts v h n = ground arith

size-evict :
    (v : Bytes) (r : Router) (e : PinEntry)
    → Unique r.pins
    → get v r.pins ≡ some e
    → size (evict v r).pins + 1 ≡ size r.pins
unfolding remove_pin_for
size-evict v r e u there = rw (evict-pins v r).0 (rw there (size-pop v r.pins {v = e} u there))

evict-IsTrimmed :
    (reserve : Bool) (v : Bytes) (r s : Router) (e : PinEntry)
    → Unique r.pins
    → get v r.pins ≡ some e
    → e.migration_reserved ≡ false
    → IsTrimmed reserve (evict v r) s
    → IsTrimmed reserve r s
evict-IsTrimmed reserve v r s e u there free t = record {
  unique = t.unique;
  subset = λ d f h.
      let g = t.subset d f h in
      elim (Bool-cases (v == d)) [
        | inl same ↦ absurd (ground (arith, get-evict d v r))
        | inr other ↦ ground (arith, get-evict d v r)
      ];
  protected = λ d f h p.
      t.protected d f
        (elim (Bool-cases (v == d)) [
          | inl same ↦ absurd (clash d f h p ((==_iff v d).0 same))
          | inr other ↦ ground (arith, get-evict d v r)
        ])
        p;
  conserved =
      t.conserved
      ∙ rw ((evict-pins v r).0, (evict-pins v r).1) (remove_pin_for-conserves evicted_lru v r u);
  bounded = rw (overflow-evict v r) at t.bounded;
}
  where
    clash :
        (d : Bytes) (f : PinEntry) → get d r.pins ≡ some f → f.migration_reserved ≡ true → v ≡ d → ⊥
    clash d f h p same = let h' = subst (λ x. get x r.pins ≡ some e) same there in ground arith

pub evict_loop-IsTrimmed :
    (fuel : ℕ) (reserve : Bool) (r : Router)
    → Unique r.pins
    → size r.pins < fuel
    → IsTrimmed reserve r (evict_loop fuel reserve r)
evict_loop-IsTrimmed zero reserve r u f = elim f [ ]
evict_loop-IsTrimmed (suc fuel) reserve r u f = elim (Bool-cases (is_over reserve r)) [
  | inr fits ↦ rw (loop_fits fuel reserve r fits) (record {
    unique = u;
    subset = λ d e h. h;
    protected = λ d e h p. h;
    conserved = refl;
    bounded = inl (fits, refl);
  })
  | inl over ↦ elim (Option-cases (next_victim r.pins)) [
    | inl stuck ↦ rw (loop_stuck fuel reserve r over stuck) (record {
      unique = u;
      subset = λ d e h. h;
      protected = λ d e h p. h;
      conserved = refl;
      bounded = inr (stuck, refl);
    })
    | inr (v, next) ↦
        let (e, there, free) = next_victim_mem r.pins v u next in
        rw (loop_evicts fuel reserve r v over next) (
          evict-IsTrimmed reserve v r (evict_loop fuel reserve (evict v r)) e u there free (
            evict_loop-IsTrimmed fuel reserve (evict v r) (evict-Unique v r u)
              (omega (arith, size-evict v r e u there))))
  ]
]
