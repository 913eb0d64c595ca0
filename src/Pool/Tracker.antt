-- ===== src/Pool/Tracker.antt =====
-- `AccountCooldownTracker`. Each operation takes the readings of its two clocks, and one that reads
-- several accounts takes readings for each.
pub mod Expiry
use claudex.Prelude.{
  ◌≡◌, ℕ, List, [], ◌∷◌, map, Option, none, some, Bool, true, false, string_eq, if◌then◌else◌, ◌+◌,
}
use claudex.Prelude.Int.{ℤ, pos, ◌+ℤ◌, ◌-ℤ◌, leb_ℤ, ltb_ℤ, min_ℤ, max_ℤ}
use claudex.Dict.{Dict, get, put, pop, keys_where}
use claudex.Selection.Units.{AccountId}

pub record AccountCooldownTracker : Type 0 where
  pub deadlines : Dict AccountId (ℤ × ℤ)

abbrev pub new_tracker : AccountCooldownTracker
new_tracker = record { deadlines = [] }

module _ (now wall_now : ℤ) where
  unfoldable pub mark : AccountId → ℤ → AccountCooldownTracker → AccountCooldownTracker
  mark a seconds t =
      let duration = max_ℤ (pos 0) seconds in
      record t { deadlines = put a (now +ℤ duration, wall_now +ℤ duration) t.deadlines }

  abbrev pub remaining_of : ℤ × ℤ → ℤ
  remaining_of (monotonic, wall) = min_ℤ (monotonic -ℤ now) (wall -ℤ wall_now)

  -- An expired deadline is deleted as it is read.
  abbrev pub read_deadline :
      AccountId → Option (ℤ × ℤ) → AccountCooldownTracker → AccountCooldownTracker × ℤ
  read_deadline a none t = (t, pos 0)
  read_deadline a (some d) t =
      if leb_ℤ (remaining_of d) (pos 0)
      then (record t { deadlines = pop a t.deadlines }, pos 0)
      else (t, remaining_of d)

  unfoldable pub remaining_seconds : AccountId → AccountCooldownTracker → AccountCooldownTracker × ℤ
  remaining_seconds a t = read_deadline a (get a t.deadlines) t

  unfoldable pub is_cooling : AccountId → AccountCooldownTracker → AccountCooldownTracker × Bool
  is_cooling a t = let (s, remaining) = remaining_seconds a t in (s, ltb_ℤ (pos 0) remaining)

abbrev pub least : List ℤ → Option ℤ
least [] = none
least (x ∷ xs) = elim (least xs) [ none ↦ some x | some y ↦ some (min_ℤ x y) ]

-- The readings of the two clocks, one after the other: each account has its own.
module _ (clocks : ℕ → ℤ × ℤ) where
  -- The remaining times of the accounts in turn, of which the positive ones are kept.
  unfoldable pub active_of :
      ℕ → List AccountId → AccountCooldownTracker → AccountCooldownTracker × List ℤ
  active_of n [] t = (t, [])
  active_of n (a ∷ rest) t =
      let (s, remaining) = remaining_seconds (clocks n).0 (clocks n).1 a t in
      let (u, more) = active_of (n + 1) rest s in
      (u, if ltb_ℤ (pos 0) remaining then remaining ∷ more else more)

  unfoldable pub min_remaining_seconds : AccountCooldownTracker → AccountCooldownTracker × Option ℤ
  min_remaining_seconds t =
      let (s, active) = active_of 0 (map (λ e. e.0) t.deadlines) t in (s, least active)

unfoldable pub clear : AccountId → AccountCooldownTracker → AccountCooldownTracker
clear a t = record t { deadlines = pop a t.deadlines }
