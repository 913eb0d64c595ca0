-- ===== src/Router/Durability/Barrier.antt =====
-- A barrier is resolved at the end of its write, whatever the end is, and stays resolved.
use claudex.Prelude.{
  ℕ, ◌≡◌, refl, some, Bool, true, get_elem?, get_elem?-set_self, get_elem?-set_ne, nat_beq, nat_eq,
  list_eq, arith, Bool-cases, Option-cases, inl, inr,
}
use claudex.Prelude.Int.{ℤ}
use claudex.Dict.{get}
use claudex.Selection.Pick.{Bytes}
use claudex.Router.State.{Router, PinEntry}
use claudex.Router.Store.{submit_to}
use claudex.Router.Durability.{
  resolve_barrier, submit_new_pin_durability, finish_pin_durability, await_pin_durability_returns,
}

-- A resolved barrier stays resolved when another, or the same one again, is resolved.
pub resolve_barrier_stays :
    (i j : ℕ) (r : Router)
    → get_elem? r.barriers j ≡ some true
    → get_elem? (resolve_barrier i r).barriers j ≡ some true
unfolding resolve_barrier
resolve_barrier_stays i j r h = elim (Bool-cases (nat_beq i j)) [
  | inl same ↦ let e : i ≡ j = ground arith in rw e (get_elem?-set_self r.barriers j true h)
  | inr other ↦ rw (get_elem?-set_ne r.barriers i j true (λ e. ground arith)) h
]

-- For a pin that waits for a barrier that exists: whether the write of its generation succeeds,
-- fails, cannot be submitted or has no store to go to, those who wait for it are let go once the
-- coroutine has ended, no other step being taken between.
pub durability_is_settled :
    (d : Bytes) (e : PinEntry) (barrier : ℕ) (b succeeded : Bool) (now seen_at wall_now : ℤ)
    (r : Router)
    → get d r.pins ≡ some e
    → e.pending_durability ≡ some barrier
    → get_elem? r.barriers barrier ≡ some b
    → await_pin_durability_returns d (
        finish_pin_durability
          (submit_new_pin_durability d now seen_at wall_now r).1
          succeeded
          (submit_new_pin_durability d now seen_at wall_now r).0)
      ≡ true
unfolding await_pin_durability_returns finish_pin_durability submit_new_pin_durability
    resolve_barrier submit_to get
durability_is_settled d e barrier b succeeded now seen_at wall_now r there owed made =
    let set_it = get_elem?-set_self r.barriers barrier true made in
    rw (there, owed)
      (elim (Option-cases r.store) [
        | inl e1 ↦ rw (e1, there, owed, set_it) refl
        | inr (s, e1) ↦ elim (Bool-cases s.closed) [
          | inl c ↦ rw (e1, c, there, owed, set_it) refl
          | inr c ↦ rw (e1, c, there, owed, set_it) refl
        ]
      ])
