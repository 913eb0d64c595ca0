-- ===== src/Router/Pins/Purge.antt =====
-- Removing pins: what is left, and that each removal is counted once.
use claudex.Prelude.{
  ◌+◌, ◌≡◌, refl, List, [], ◌∷◌, none, contains, ◌==◌, ==_iff, list_eq, nat_eq, if◌then◌else◌,
  arith, Option-cases, inl, inr, ◌∙◌,
}
use claudex.Prelude.Int.{ℤ}
use claudex.Dict.{get, size, Unique, holds, keys_where}
use claudex.Dict.Laws.{get-pop, pop-Unique, size-pop, contains-keys_where}
use claudex.Selection.Pick.{Bytes}
use claudex.Router.State.{Router, RemovalReason, expired}
use claudex.Router.Pins.{remove_pin_for, remove_each, is_expired, purge_expired_pins}

module _ (reason : RemovalReason) where
  pub get-remove_pin_for :
      (d k : Bytes) (r : Router)
      → get d (remove_pin_for reason k r).pins ≡ (if k == d then none else get d r.pins)
  unfolding remove_pin_for
  get-remove_pin_for d k r = elim (Option-cases (get k r.pins)) [
    | inl e ↦ ground (arith, ==_iff k d)
    | inr (v, e) ↦ ground (arith, get-pop d k r.pins)
  ]

  pub remove_pin_for-Unique :
      (k : Bytes) (r : Router) → Unique r.pins → Unique (remove_pin_for reason k r).pins
  unfolding remove_pin_for
  remove_pin_for-Unique k r u = elim (Option-cases (get k r.pins)) [
    | inl e ↦ ground arith
    | inr (v, e) ↦ ground (arith, pop-Unique k r.pins u)
  ]

  pub remove_pin_for-conserves :
      (k : Bytes) (r : Router)
      → Unique r.pins
      → size (remove_pin_for reason k r).pins + (remove_pin_for reason k r).total_removed_pins
        ≡ size r.pins + r.total_removed_pins
  unfolding remove_pin_for
  remove_pin_for-conserves k r u = elim (Option-cases (get k r.pins)) [
    | inl e ↦ ground arith
    | inr (v, e) ↦ ground (arith, size-pop k r.pins {v = v} u e)
  ]

  pub get-remove_each :
      (d : Bytes) (ks : List Bytes) (r : Router)
      → get d (remove_each reason ks r).pins ≡ (if contains ks d then none else get d r.pins)
  unfolding remove_each
  get-remove_each d [] r = refl
  get-remove_each d (k ∷ ks) r =
      ground (arith, get-remove_each d ks (remove_pin_for reason k r), get-remove_pin_for d k r)

  pub remove_each-Unique :
      (ks : List Bytes) (r : Router) → Unique r.pins → Unique (remove_each reason ks r).pins
  unfolding remove_each
  remove_each-Unique [] r u = u
  remove_each-Unique (k ∷ ks) r u =
      remove_each-Unique ks (remove_pin_for reason k r) (remove_pin_for-Unique k r u)

  pub remove_each-conserves :
      (ks : List Bytes) (r : Router)
      → Unique r.pins
      → size (remove_each reason ks r).pins + (remove_each reason ks r).total_removed_pins
        ≡ size r.pins + r.total_removed_pins
  unfolding remove_each
  remove_each-conserves [] r u = refl
  remove_each-conserves (k ∷ ks) r u =
      remove_each-conserves ks (remove_pin_for reason k r) (remove_pin_for-Unique k r u)
      ∙ remove_pin_for-conserves k r u

-- Where the keys of the pin map are distinct: purging drops exactly the expired pins, and changes
-- no other.
pub get-purge_expired_pins :
    (now : ℤ) (d : Bytes) (r : Router)
    → Unique r.pins
    → get d (purge_expired_pins now r).pins
      ≡ (if holds (is_expired now) d (get d r.pins) then none else get d r.pins)
unfolding purge_expired_pins
get-purge_expired_pins now d r u =
    rw (get-remove_each expired d (keys_where (is_expired now) r.pins) r)
      (rw (contains-keys_where (is_expired now) d r.pins u))

pub purge_expired_pins-Unique :
    (now : ℤ) (r : Router) → Unique r.pins → Unique (purge_expired_pins now r).pins
unfolding purge_expired_pins
purge_expired_pins-Unique now r u =
    remove_each-Unique expired (keys_where (is_expired now) r.pins) r u

pub purge_expired_pins-conserves :
    (now : ℤ) (r : Router)
    → Unique r.pins
    → size (purge_expired_pins now r).pins + (purge_expired_pins now r).total_removed_pins
      ≡ size r.pins + r.total_removed_pins
unfolding purge_expired_pins
purge_expired_pins-conserves now r u =
    remove_each-conserves expired (keys_where (is_expired now) r.pins) r u
