-- ===== src/Router/Attempts/Balance.antt =====
-- Attempts are counted up and down per account.
use claudex.Prelude.{
  ◌+◌, ◌-◌, ◌≡◌, or_else, ◌==◌, ==_iff, ==_refl, string_eq, if◌then◌else◌, arith, Bool-cases, inl,
  inr,
}
use claudex.Dict.{get, put}
use claudex.Dict.Laws.{get-put}
use claudex.Selection.Units.{AccountId}
use claudex.Router.State.{Router}
use claudex.Router.Attempts.{in_flight_count, begin_attempt, end_attempt}

-- An attempt that begins is counted on its own account and on no other, and when it ends every
-- account's count is what it was before.
pub end_attempt-begin_attempt :
    (a b : AccountId) (r : Router)
    → (in_flight_count b (end_attempt a (begin_attempt a r)) ≡ in_flight_count b r)
      × (in_flight_count b (begin_attempt a r)
          ≡ (if a == b then in_flight_count b r + 1 else in_flight_count b r))
unfolding begin_attempt end_attempt
end_attempt-begin_attempt a b r =
    let n = in_flight_count a r + 1 in
    let up = put a n r.in_flight in
    let g = get-put b a n r.in_flight in
    let h = get-put a a n r.in_flight in
    let k = get-put b a (or_else (get a up) 0 - 1) up in
    elim (Bool-cases (a == b)) [
      | inl same ↦ ground (arith, g, h, k, ==_iff a b, ==_refl a)
      | inr other ↦ ground (arith, g, h, k, ==_refl a)
    ]
