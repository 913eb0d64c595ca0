-- ===== src/Router/Pins/Bound.antt =====
-- What `_ensure_capacity` promises its callers.
use claudex.Prelude.{
  ◌+◌, ◌≡◌, refl, [], ◌∷◌, Option, none, some, Bool, true, false, ◌⊎◌, inl, inr, arith, list_eq,
  nat_eq, Bool-cases, Option-cases,
}
use claudex.Prelude.Int.{ℤ}
use claudex.Dict.{Dict, get, size, Unique}
use claudex.Selection.Pick.{Bytes, uuid, content_hash}
use claudex.Router.State.{Router, PinEntry}
use claudex.Router.Pins.{
  is_evictable, is_expired, lru_victim, next_victim, or_victim, evict_loop, ensure_capacity,
  is_over, purge_expired_pins,
}
use claudex.Router.Pins.Purge.{
  get-purge_expired_pins, purge_expired_pins-Unique, purge_expired_pins-conserves,
}
use claudex.Router.Pins.Victim.{lru_victim_oldest, lru_victim-none}
use claudex.Router.Pins.Capacity.{IsTrimmed, evict_loop-IsTrimmed}

-- No victim is left only when every pin has a migration in flight.
stuck_reserved :
    (pins : Dict Bytes PinEntry) (d : Bytes) (e : PinEntry)
    → Unique pins
    → get [] pins ≡ none
    → next_victim pins ≡ none
    → get d pins ≡ some e
    → e.migration_reserved ≡ true
unfolding is_evictable
stuck_reserved pins d e u nonempty stuck there =
    let (c, v) = both (lru_victim content_hash pins) (lru_victim uuid pins) (λ h. empty h) stuck in
    ground
      (arith, lru_victim-none content_hash pins d e c there, lru_victim-none uuid pins d e v there)
  where
    empty : lru_victim content_hash pins ≡ some [] → ⊥
    empty h = let (f, g, _, _) = lru_victim_oldest content_hash pins [] u h in ground arith

    both : (a b : Option Bytes) → (a ≡ some [] → ⊥) → or_victim a b ≡ none → (a ≡ none) × (b ≡ none)
    both none b h n = (refl, n)
    both (some []) b h n = absurd (h refl)
    both (some (x ∷ xs)) b h n = absurd (cc)

purged_IsTrimmed :
    (now : ℤ) (reserve : Bool) (r : Router)
    → Unique r.pins
    → IsTrimmed reserve
        (purge_expired_pins now r)
        (evict_loop (size (purge_expired_pins now r).pins + 1) reserve (purge_expired_pins now r))
purged_IsTrimmed now reserve r u =
    let p = purge_expired_pins now r in
    evict_loop-IsTrimmed (size p.pins + 1) reserve p (purge_expired_pins-Unique now r u)
      (omega arith)

module _ (now : ℤ) (reserve : Bool) (r : Router) (u : Unique r.pins) where
  subset-purge :
      (d : Bytes) (e : PinEntry)
      → get d (purge_expired_pins now r).pins ≡ some e
      → get d r.pins ≡ some e
  subset-purge d e h = ground (arith, get-purge_expired_pins now d r u)

  -- Where the keys of the pin map are distinct and none is the empty digest: after room is made,
  -- either the map is within its bound (one below it for a new pin), or every pin that is left has
  -- a migration in flight.
  pub ensure_capacity-bounded :
      get [] r.pins ≡ none
      → (is_over reserve (ensure_capacity now reserve r) ≡ false)
        ⊎ ((d : Bytes) (e : PinEntry)
            → get d (ensure_capacity now reserve r).pins ≡ some e
            → e.migration_reserved ≡ true)
  unfolding ensure_capacity
  ensure_capacity-bounded nonempty = elim (Bool-cases (is_over reserve r)) [
    | inr fits ↦ rw fits (inl fits)
    | inl over ↦ rw over (
        let t = purged_IsTrimmed now reserve r u in
        elim t.bounded [
          | inl b ↦ inl b.0
          | inr b ↦ inr (λ d e h.
              stuck_reserved _ d e t.unique
                (elim (Option-cases (
                  get []
                    (evict_loop (size (purge_expired_pins now r).pins + 1) reserve
                      (purge_expired_pins now r)).pins)) [
                        | inl gone ↦ gone
                        | inr (f, g) ↦
                            absurd (let h' = subset-purge [] f (t.subset [] f g) in ground arith)
                      ])
                b.0 h)
        ])
  ]

  -- Where the keys of the pin map are distinct: making room adds no pin and changes none, and
  -- keeps each pin that is not expired and has a migration in flight.
  pub ensure_capacity-keeps :
      (d : Bytes) (e : PinEntry)
      → (get d (ensure_capacity now reserve r).pins ≡ some e → get d r.pins ≡ some e)
        × (get d r.pins ≡ some e
            → is_expired now d e ≡ false
            → e.migration_reserved ≡ true
            → get d (ensure_capacity now reserve r).pins ≡ some e)
  unfolding ensure_capacity
  ensure_capacity-keeps d e = elim (Bool-cases (is_over reserve r)) [
    | inr fits ↦ rw fits (λ h. h, λ h live held. h)
    | inl over ↦ rw over (
        let t = purged_IsTrimmed now reserve r u in
        (
          λ h. subset-purge d e (t.subset d e h),
          λ h live held. t.protected d e (ground (arith, get-purge_expired_pins now d r u)) held,
        ))
  ]

  -- Where the keys of the pin map are distinct: each pin that leaves the map while room is made is
  -- counted once as removed, and the keys stay distinct.
  pub ensure_capacity-conserves :
      (size (ensure_capacity now reserve r).pins
          + (ensure_capacity now reserve r).total_removed_pins
        ≡ size r.pins + r.total_removed_pins)
      × Unique (ensure_capacity now reserve r).pins
  unfolding ensure_capacity
  ensure_capacity-conserves = elim (Bool-cases (is_over reserve r)) [
    | inr fits ↦ rw fits (refl, u)
    | inl over ↦ rw over (
        let t = purged_IsTrimmed now reserve r u in
        (omega (arith, t.conserved, purge_expired_pins-conserves now r u), t.unique))
  ]
