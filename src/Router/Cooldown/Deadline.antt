-- ===== src/Router/Cooldown/Deadline.antt =====
-- When a cooldown holds: until the earlier of its two deadlines, for the identity it was set for.
use claudex.Prelude.{
  ◌≡◌, ◌↔◌, ◌⊎◌, inl, inr, String, Option, none, some, true, ◌==◌, ==_refl, string_eq, option_eq,
  if◌then◌else◌, arith, Bool-cases, Option-cases, refl,
}
use claudex.Prelude.Int.{ℤ, ◌+ℤ◌, ◌-ℤ◌, ◌<ℤ◌, ◌≤ℤ◌, +ℤ_parts, -ℤ_parts, eq_of_parts}
use claudex.Dict.Laws.{get-put}
use claudex.Selection.Units.{AccountId}
use claudex.Selection.Gate.{account}
use claudex.Router.Store.{submit_to}
use claudex.Router.State.{Router, CooldownEntry}
use claudex.Router.Cooldown.{
  is_mismatch, entry_cooldown_deadline, CooldownRequest, entry_of, install_cooldown,
  account_cooldown_deadline, submit_cooldown, set_cooldown,
}

module _ (e : CooldownEntry) (now wall_now : ℤ) (incarnation fingerprint : Option String) where
  -- A stored cooldown is not reported exactly when an identity is supplied that is another one, or
  -- either of the two clocks has reached its deadline.
  pub entry_cooldown_deadline-eq-none_iff :
      (entry_cooldown_deadline (some e) now wall_now incarnation fingerprint ≡ none) ↔ (
        (is_mismatch e incarnation fingerprint ≡ true)
        ⊎ (e.deadline_monotonic ≤ℤ now)
        ⊎ (e.deadline_wall ≤ℤ wall_now))
  unfolding entry_cooldown_deadline
  entry_cooldown_deadline-eq-none_iff = (
    λ h. ground (arith, -ℤ_parts e.deadline_monotonic now, -ℤ_parts e.deadline_wall wall_now),
    λ h. ground (arith, -ℤ_parts e.deadline_monotonic now, -ℤ_parts e.deadline_wall wall_now),
  )

  -- A deadline that is reported lies ahead, is no later than the monotonic one, and leaves no more
  -- time than the wall clock does.
  pub entry_cooldown_deadline_bounds :
      (t : ℤ)
      → entry_cooldown_deadline (some e) now wall_now incarnation fingerprint ≡ some t
      → (now <ℤ t) × (t ≤ℤ e.deadline_monotonic) × (t -ℤ now ≤ℤ e.deadline_wall -ℤ wall_now)
  unfolding entry_cooldown_deadline
  entry_cooldown_deadline_bounds t h = ground (
    arith,
    -ℤ_parts e.deadline_monotonic now,
    -ℤ_parts e.deadline_wall wall_now,
    -ℤ_parts t now,
    +ℤ_parts now (e.deadline_monotonic -ℤ now),
    +ℤ_parts now (e.deadline_wall -ℤ wall_now),
  )

-- An entry that was just made for an identity reads back as its deadline.
entry_of-read :
    (q : CooldownRequest) (now wall_now : ℤ)
    → now <ℤ q.deadline
    → entry_cooldown_deadline
        (some (entry_of q now wall_now))
        now
        wall_now
        (some q.account_incarnation_id)
        q.account_profile_fingerprint
      ≡ some q.deadline
unfolding entry_cooldown_deadline
entry_of-read q now wall_now h =
    let d = q.deadline -ℤ now in
    let back : now +ℤ d ≡ q.deadline =
      eq_of_parts _ _ (omega (arith, +ℤ_parts now d, -ℤ_parts q.deadline now)) in
    let wall : (wall_now +ℤ d) -ℤ wall_now ≡ d =
      eq_of_parts _ _ (omega (arith, +ℤ_parts wall_now d, -ℤ_parts (wall_now +ℤ d) wall_now)) in
    rw (==_refl q.account_incarnation_id, option_refl, wall)
      (ground (arith, -ℤ_parts q.deadline now))
  where
    option_refl : (q.account_profile_fingerprint == q.account_profile_fingerprint) ≡ true
    option_refl = ==_refl q.account_profile_fingerprint

-- Submitting to the store leaves the cooldowns in memory alone.
submit_cooldown-account :
    (fp : Option String) (q : CooldownRequest) (e : CooldownEntry) (wall_now : ℤ) (r : Router)
    → (submit_cooldown fp q e wall_now r).0.account_cooldowns ≡ r.account_cooldowns
unfolding submit_to
submit_cooldown-account none q e wall_now r = refl
submit_cooldown-account (some fp) q e wall_now r = elim (Option-cases r.store) [
  | inl none_open ↦ ground arith
  | inr (s, some_open) ↦ ground arith
]

-- For a deadline that lies ahead: reading an account-wide cooldown at the moment of its
-- installation, for the identity it was installed with, gives its deadline, and what is read of
-- any other account is as before.
pub install_cooldown-read :
    (q : CooldownRequest) (a : AccountId) (now wall_now : ℤ) (r : Router)
    → q.scope ≡ account
    → now <ℤ q.deadline
    → account_cooldown_deadline a
        (some q.account_incarnation_id)
        q.account_profile_fingerprint
        now
        wall_now
        (install_cooldown q now wall_now r).0
      ≡ (if q.account_id == a
          then some q.deadline
          else account_cooldown_deadline a
              (some q.account_incarnation_id)
              q.account_profile_fingerprint
              now
              wall_now
              r)
unfolding account_cooldown_deadline install_cooldown
install_cooldown-read q a now wall_now r s h =
    let e = entry_of q now wall_now in
    let fp = q.account_profile_fingerprint in
    let there =
      submit_cooldown-account fp q e wall_now
        (set_cooldown q.scope q.account_id q.model_family e r) in
    rw (there, s)
      (unfold set_cooldown in
        rw get-put (elim (Bool-cases (q.account_id == a)) [
          | inl same ↦ rw same (entry_of-read q now wall_now h)
          | inr other ↦ rw other
        ]))
