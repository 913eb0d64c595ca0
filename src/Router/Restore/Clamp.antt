-- ===== src/Router/Restore/Clamp.antt =====
-- What a restart makes of a persisted cooldown and of persisted evidence.
use claudex.Prelude.{◌≡◌, ◌↔◌, refl, Option, none, some, true, ==_iff, ==_refl, string_eq, arith}
use claudex.Prelude.Int.{ℤ, ◌+ℤ◌, ◌-ℤ◌, ◌<ℤ◌, ◌≤ℤ◌, +ℤ_parts, -ℤ_parts, eq_of_parts}
use claudex.Selection.Units.{seconds}
use claudex.Selection.Pressure.{wall_to_monotonic}
use claudex.Router.State.{CooldownRow, CapabilityEvidenceRow, CapabilityState, eligible, denied}
use claudex.Router.Capability.{capability_classifier_version, entry_is_eligible}
use claudex.Router.Restore.{restored_cooldown, restored_capability, clamped_remaining}

-- A restored cooldown holds for at least a second and at most seven days, by both clocks alike.
pub restored_cooldown_bounds :
    (now wall_now : ℤ) (row : CooldownRow)
    → (now +ℤ seconds 1 ≤ℤ (restored_cooldown now wall_now row).deadline_monotonic)
      × ((restored_cooldown now wall_now row).deadline_monotonic ≤ℤ now +ℤ seconds 604800)
      × ((restored_cooldown now wall_now row).deadline_monotonic -ℤ now
          ≡ (restored_cooldown now wall_now row).deadline_wall -ℤ wall_now)
unfolding restored_cooldown
restored_cooldown_bounds now wall_now row =
    let c = clamped_remaining now wall_now row in
    let p = +ℤ_parts now c in
    let q = +ℤ_parts wall_now c in
    (
      ground (arith, p, +ℤ_parts now (seconds 1)),
      ground (arith, p, +ℤ_parts now (seconds 604800)),
      eq_of_parts _ _
          (omega (arith, p, q, -ℤ_parts (now +ℤ c) now, -ℤ_parts (wall_now +ℤ c) wall_now)),
    )

-- What is restored of a persisted row is trusted for the row's own incarnation and fingerprint at
-- that moment exactly when the row says eligible, was written by this classifier version and has
-- an expiry that is still ahead on the monotonic clock.
pub restored_capability_iff :
    (now wall_now : ℤ) (row : CapabilityEvidenceRow)
    → (entry_is_eligible
          (restored_capability now wall_now row)
          row.account_incarnation_id
          row.account_profile_fingerprint
          now
        ≡ true)
      ↔ ((row.state ≡ eligible)
          × (row.classifier_version ≡ capability_classifier_version)
          × ((expiry : ℤ) × (row.expires_at_utc ≡ some expiry)
              × (now <ℤ wall_to_monotonic expiry wall_now now)))
unfolding restored_capability entry_is_eligible
restored_capability_iff now wall_now row = by_state row.state row.expires_at_utc
  where
    by_state :
        (s : CapabilityState) (x : Option ℤ)
        → (entry_is_eligible
              (restored_capability now wall_now (record row { state = s; expires_at_utc = x }))
              row.account_incarnation_id
              row.account_profile_fingerprint
              now
            ≡ true)
          ↔ ((s ≡ eligible)
              × (row.classifier_version ≡ capability_classifier_version)
              × ((expiry : ℤ) × (x ≡ some expiry) × (now <ℤ wall_to_monotonic expiry wall_now now)))
    by_state denied x = (λ h. cc, λ h. cc)
    by_state eligible none = (λ h. cc, λ h. cc)
    by_state eligible (some t) = (
      λ h. (
        refl,
        ground (arith, ==_iff row.classifier_version capability_classifier_version),
        (t, refl, ground arith),
      ),
      λ h. ground (
        arith,
        ==_iff row.classifier_version capability_classifier_version,
        ==_refl row.account_incarnation_id,
        ==_refl row.account_profile_fingerprint,
      ),
    )
