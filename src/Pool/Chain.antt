-- ===== src/Pool/Chain.antt =====
-- `build_serving_chain`: the order in which a request tries the accounts. Each record has its own
-- readings of the two clocks: those at its place in the order.
pub mod Sorted
pub mod Order
use Prim.Native.String.{compare}
use text.Mathlib.Text.{is_lt}
use claudex.Prelude.{
  ℕ, String, List, [], ◌∷◌, ◌++◌, Option, none, some, Bool, true, false, not, ◌&&◌, ◌||◌, select,
  is_some, string_eq, ◌==◌, ltb, nat_beq, if◌then◌else◌, ◌+◌,
}
use claudex.Prelude.Int.{ℤ}
use claudex.Selection.Units.{AccountId}
use claudex.Pool.Tracker.{AccountCooldownTracker, is_cooling}

pub record AccountRecord : Type 0 where
  pub id : AccountId
  pub email : String
  pub organization_uuid : Option String
  pub organization_name : Option String
  pub created_at : ℕ
  pub updated_at : ℕ
  pub last_authenticated_at : ℕ
  pub state : String
  pub account_incarnation_id : String
  pub upstream_account_uuid : Option String

pub record ServingChain : Type 0 where
  pub attempts : List AccountRecord
  pub cooling_ids : List AccountId
  pub serving_registered : Bool
  pub serving_state : Option String

-- `next((record for record in records if record.id == serving_account_id), None)`
unfoldable pub find_record : AccountId → List AccountRecord → Option AccountRecord
find_record a [] = none
find_record a (c ∷ cs) = if c.id == a then some c else find_record a cs

-- `(a.created_at, a.id) < (b.created_at, b.id)`
abbrev pub is_before : AccountRecord → AccountRecord → Bool
is_before a b =
    ltb a.created_at b.created_at
    || (nat_beq a.created_at b.created_at && is_lt (compare a.id b.id))

unfoldable pub insert_record : AccountRecord → List AccountRecord → List AccountRecord
insert_record c [] = c ∷ []
insert_record c (d ∷ ds) =
    let rest = insert_record c ds in if is_before d c then d ∷ rest else c ∷ d ∷ ds

-- `sorted`, which is stable
unfoldable pub sorted_records : List AccountRecord → List AccountRecord
sorted_records [] = []
sorted_records (c ∷ cs) = insert_record c (sorted_records cs)

module _ (clocks : ℕ → ℤ × ℤ) where
  abbrev pub placed_as :
      AccountRecord
      → AccountCooldownTracker × Bool
      → ServingChain
      → AccountCooldownTracker × ServingChain
  placed_as c (t, true) chain = (t, record chain { cooling_ids = chain.cooling_ids ++ c.id ∷ [] })
  placed_as c (t, false) chain = (t, record chain { attempts = chain.attempts ++ c ∷ [] })

  unfoldable pub place :
      ℕ
      → AccountRecord
      → AccountCooldownTracker × ServingChain
      → AccountCooldownTracker × ServingChain
  place n c (t, chain) =
      if not (c.state == "ready")
      then (t, chain)
      else placed_as c (is_cooling (clocks n).0 (clocks n).1 c.id t) chain

  unfoldable pub place_each :
      ℕ
      → List AccountRecord
      → AccountCooldownTracker × ServingChain
      → AccountCooldownTracker × ServingChain
  place_each n [] s = s
  place_each n (c ∷ cs) s = place_each (n + 1) cs (place n c s)

  abbrev pub place_serving :
      Option AccountRecord
      → AccountCooldownTracker × ServingChain
      → AccountCooldownTracker × ServingChain
  place_serving none s = s
  place_serving (some c) s = place 0 c s

  abbrev pub state_of : Option AccountRecord → Option String
  state_of none = none
  state_of (some c) = some c.state

  -- The chain from the serving account's record, if there is one, and the other records in order.
  abbrev pub chain_of :
      Option AccountRecord
      → List AccountRecord
      → AccountCooldownTracker
      → AccountCooldownTracker × ServingChain
  chain_of serving_record others t = place_each 1 others (
      place_serving serving_record (
        t,
        record {
          attempts = [];
          cooling_ids = [];
          serving_registered = is_some serving_record;
          serving_state = state_of serving_record;
        },
      ))

  unfoldable pub build_serving_chain :
      AccountId
      → List AccountRecord
      → AccountCooldownTracker
      → AccountCooldownTracker × ServingChain
  build_serving_chain serving records t =
      chain_of (find_record serving records)
        (select (λ c. not (c.id == serving)) (sorted_records records)) t
