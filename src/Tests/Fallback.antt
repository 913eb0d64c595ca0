-- ===== src/Tests/Fallback.antt =====
-- Witnesses of the theorems on the fallback pool.
use claudex.Prelude.{
  ℕ, ◌≡◌, ◌↔◌, List, [], ◌∷◌, map, none, true, select, string_eq, refl, ◌+◌, times, ◌==◌,
  if◌then◌else◌,
}
use claudex.Prelude.Int.{ℤ, pos, ◌+ℤ◌, ◌<ℤ◌, max_ℤ}
use claudex.Selection.Units.{AccountId, seconds}
use claudex.Pool.Tracker.{AccountCooldownTracker, new_tracker, mark, is_cooling}
use claudex.Pool.Tracker.Expiry.{is_cooling-mark_iff}
use claudex.Pool.Chain.{AccountRecord, build_serving_chain}
use claudex.Pool.Chain.Sorted.{AreDistinct, IsByAge, others_of, ids_of}
use claudex.Pool.Chain.Order.{is_usable, is_resting, places, build_serving_chain-eq-order}

is_cooling-mark_iff_example :
    ((is_cooling
        (seconds 50)
        (seconds 1070)
        "a"
        (mark (seconds 10) (seconds 1010) "a" (seconds 60) new_tracker)).1
      ≡ true)
    ↔ ((seconds 50 <ℤ seconds 10 +ℤ max_ℤ (pos 0) (seconds 60))
        × (seconds 1070 <ℤ seconds 1010 +ℤ max_ℤ (pos 0) (seconds 60)))
is_cooling-mark_iff_example =
    is_cooling-mark_iff (seconds 10) (seconds 1010) (seconds 50) (seconds 1070) (seconds 60) "a"
      new_tracker

abbrev marked : AccountCooldownTracker
marked = mark (seconds 10) (seconds 1010) "a" (seconds 60) new_tracker

abbrev account_record : AccountId → ℕ → AccountRecord
account_record id created_at = record {
  id = id;
  email = "e";
  organization_uuid = none;
  organization_name = none;
  created_at = created_at;
  updated_at = created_at;
  last_authenticated_at = created_at;
  state = "ready";
  account_incarnation_id = "i";
  upstream_account_uuid = none;
}

abbrev account_records : List AccountRecord
account_records = account_record "c" 3 ∷ account_record "a" 2 ∷ account_record "b" 1 ∷ []

-- The clocks move on by a second from one reading to the next.
abbrev clocks : ℕ → ℤ × ℤ
clocks n = (seconds (20 + n), seconds (1020 + n))

account_records-AreDistinct : AreDistinct account_records
account_records-AreDistinct = ((refl, (refl, tt)), ((refl, tt), (tt, tt)))

build_serving_chain-eq-order_example :
    ((build_serving_chain clocks "c" account_records marked).1.attempts
      ≡ map (λ p. p.1) (select (is_usable clocks marked) (places "c" account_records)))
    × ((build_serving_chain clocks "c" account_records marked).1.cooling_ids
        ≡ map (λ p. p.1.id) (select (is_resting clocks marked) (places "c" account_records)))
    × IsByAge (others_of "c" account_records)
    × ((a : AccountId)
        → times a (ids_of (others_of "c" account_records))
          ≡ (if a == "c" then 0 else times a (ids_of account_records)))
build_serving_chain-eq-order_example =
    build_serving_chain-eq-order clocks marked "c" account_records account_records-AreDistinct
