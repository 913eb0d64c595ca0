-- ===== src/Pool/Tracker/Expiry.antt =====
-- How long an account cools, and what reading its cooldown leaves of the deadlines.
use claudex.Prelude.{
  ◌≡◌, ◌↔◌, Option, none, some, Bool, true, false, string_eq, ◌==◌, ==_iff, if◌then◌else◌, arith,
  Bool-cases, Option-cases, inl, inr,
}
use claudex.Prelude.Int.{ℤ, pos, ◌+ℤ◌, ◌<ℤ◌, leb_ℤ, max_ℤ, -ℤ_parts}
use claudex.Dict.{get}
use claudex.Dict.Laws.{get-put_self, get-pop}
use claudex.Selection.Units.{AccountId}
use claudex.Pool.Tracker.{AccountCooldownTracker, mark, remaining_of, remaining_seconds, is_cooling}

module _ (now wall_now : ℤ) where
  -- Whether a stored deadline, if there is one, lies ahead on both clocks.
  abbrev pub cools : Option (ℤ × ℤ) → Bool
  cools none = false
  cools (some d) = if leb_ℤ (remaining_of now wall_now d) (pos 0) then false else true

  pub is_cooling-eq-cools :
      (a : AccountId) (t : AccountCooldownTracker)
      → (is_cooling now wall_now a t).1 ≡ cools (get a t.deadlines)
  unfolding is_cooling remaining_seconds
  is_cooling-eq-cools a t = elim (Option-cases (get a t.deadlines)) [
    | inl e ↦ ground arith
    | inr (d, e) ↦ ground arith
  ]

  pub get-is_cooling :
      (a b : AccountId) (t : AccountCooldownTracker)
      → get b (is_cooling now wall_now a t).0.deadlines ≡ (
          if a == b
          then (if cools (get b t.deadlines) then get b t.deadlines else none)
          else get b t.deadlines)
  unfolding is_cooling remaining_seconds
  get-is_cooling a b t = elim (Option-cases (get a t.deadlines)) [
    | inl e ↦ ground (arith, ==_iff a b)
    | inr (d, e) ↦ elim (Bool-cases (leb_ℤ (remaining_of now wall_now d) (pos 0))) [
      | inl over ↦ ground (arith, ==_iff a b, get-pop b a t.deadlines)
      | inr live ↦ ground (arith, ==_iff a b)
    ]
  ]

-- An account that was marked is cooling, by the readings of a later call, exactly when neither
-- clock has moved on by the seconds it was marked with, a negative number counting as 0.
pub is_cooling-mark_iff :
    (now wall_now later wall_later seconds : ℤ) (a : AccountId) (t : AccountCooldownTracker)
    → ((is_cooling later wall_later a (mark now wall_now a seconds t)).1 ≡ true) ↔ (
        (later <ℤ now +ℤ max_ℤ (pos 0) seconds) × (wall_later <ℤ wall_now +ℤ max_ℤ (pos 0) seconds))
unfolding mark
is_cooling-mark_iff now wall_now later wall_later seconds a t =
    let d = max_ℤ (pos 0) seconds in
    let p = -ℤ_parts (now +ℤ d) later in
    let q = -ℤ_parts (wall_now +ℤ d) wall_later in
    rw
      (
        is_cooling-eq-cools later wall_later a (mark now wall_now a seconds t),
        get-put_self a (now +ℤ d, wall_now +ℤ d) t.deadlines,
      )
      (λ h. ground (arith, p, q), λ h. ground (arith, p, q))
