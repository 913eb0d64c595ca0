-- ===== src/StateStore/Keys.antt =====
-- The keys of the queue: the row that a job writes, and the barrier that it raises or waits on.
use claudex.Prelude.{
  ◌≡◌, ◌↔◌, String, Bool, true, false, Eq, ◌==◌, ==_iff, string_eq, list_eq, nat_eq, pair_eq, arith,
}
use claudex.Selection.Units.{AccountId, Window, window_eq, family_eq}
use claudex.Selection.Family.{Text}
use claudex.Selection.Pick.{Bytes}
use claudex.Selection.Gate.{scope_eq}
use claudex.Router.State.{CooldownKey}

-- The coalescing scope of a job, `scope_key`.
pub data Scope : Type 0 where
  pin_scope : Bytes → Scope
  last_seen_scope : Bytes → Scope
  cooldown_scope : CooldownKey → Scope
  usage_scope : AccountId × Window → Scope
  capability_scope : AccountId × Text → Scope

abbrev pub row_scope_beq : Scope → Scope → Bool
row_scope_beq (pin_scope j) (pin_scope k) = j == k
row_scope_beq (last_seen_scope j) (last_seen_scope k) = j == k
row_scope_beq (cooldown_scope j) (cooldown_scope k) = j == k
row_scope_beq (usage_scope j) (usage_scope k) = j == k
row_scope_beq (capability_scope j) (capability_scope k) = j == k
row_scope_beq _ _ = false

pub row_scope_beq_iff : (a b : Scope) → (row_scope_beq a b ≡ true) ↔ (a ≡ b)
row_scope_beq_iff (pin_scope j) (pin_scope k) =
    (λ h. ground (arith, ==_iff j k), λ h. ground (arith, ==_iff j k))
row_scope_beq_iff (last_seen_scope j) (last_seen_scope k) =
    (λ h. ground (arith, ==_iff j k), λ h. ground (arith, ==_iff j k))
row_scope_beq_iff (cooldown_scope j) (cooldown_scope k) =
    (λ h. ground (arith, ==_iff j k), λ h. ground (arith, ==_iff j k))
row_scope_beq_iff (usage_scope j) (usage_scope k) =
    (λ h. ground (arith, ==_iff j k), λ h. ground (arith, ==_iff j k))
row_scope_beq_iff (capability_scope j) (capability_scope k) =
    (λ h. ground (arith, ==_iff j k), λ h. ground (arith, ==_iff j k))
row_scope_beq_iff a b = (λ h. ground arith, λ h. ground arith)

instance abbrev pub row_scope_eq : Eq Scope
row_scope_eq = record { equals = row_scope_beq; equals_iff = row_scope_beq_iff }

pub data Barrier : Type 0 where
  epoch_barrier : Barrier
  incarnation_barrier : String → Barrier

abbrev pub barrier_beq : Barrier → Barrier → Bool
barrier_beq epoch_barrier epoch_barrier = true
barrier_beq (incarnation_barrier i) (incarnation_barrier j) = i == j
barrier_beq _ _ = false

pub barrier_beq_iff : (a b : Barrier) → (barrier_beq a b ≡ true) ↔ (a ≡ b)
barrier_beq_iff (incarnation_barrier i) (incarnation_barrier j) =
    (λ h. ground (arith, ==_iff i j), λ h. ground (arith, ==_iff i j))
barrier_beq_iff epoch_barrier epoch_barrier = (λ h. ground arith, λ h. ground arith)
barrier_beq_iff a b = (λ h. ground arith, λ h. ground arith)

instance abbrev pub barrier_eq : Eq Barrier
barrier_eq = record { equals = barrier_beq; equals_iff = barrier_beq_iff }
