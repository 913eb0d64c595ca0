-- ===== src/StateStore/Steps.antt =====
-- The runs of a store: its operations in any order, in between the writer takes a job or is through
-- with one, and the store is closed. No attempt starts once an exception has ended the writer.
pub mod Held
pub mod Crash
pub mod Handles
pub mod Taken
pub mod Jobs
pub mod Order
pub mod InOrder
pub mod Newest
pub mod Fencing
pub mod Erased
pub mod Erasure
pub mod Drain
pub mod Rounds
pub mod Close
pub mod Failing
pub mod Flush
use claudex.Prelude.{
  ℕ, ◌≡◌, refl, sym, subst, List, [], ◌∷◌, String, Option, none, some, Bool, true, false, nat_eq,
  list_eq, Bool-cases, inl, inr, ◌⊎◌, arith, not,
}
use claudex.Prelude.Int.{ℤ}
use claudex.Dict.{get, put, Dict}
use claudex.Selection.Units.{AccountId, Window}
use claudex.Selection.Family.{Text}
use claudex.Selection.Pick.{Bytes}
use claudex.Router.State.{
  PinRow, CooldownRow, CooldownKey, UsageObservationRow, CapabilityEvidenceRow,
}
use claudex.StateStore.Keys.{
  Scope, pin_scope, last_seen_scope, cooldown_scope, usage_scope, capability_scope, Barrier,
  epoch_barrier, incarnation_barrier,
}
use claudex.StateStore.Tables.{
  rotate, invalidate, erase_pin, erase_cooldown, erase_usage, erase_capability, erase_incarnation,
  restore_rows,
}
use claudex.StateStore.Queue.{StateStore, Job, Request, Submitted, submit}
use claudex.StateStore.Writer.{Answer, take, wait_for_next_job, attempt, close}
use claudex.StateStore.Operations

pub data Operation : Type 0 where
  rotate_epoch : String → Bytes → Operation
  invalidate_epoch_pins : Operation
  upsert_pin : PinRow → Bool → Operation
  touch_pin_last_seen : Bytes → ℤ → ℤ → Operation
  delete_pin : Bytes → Bool → Operation
  upsert_cooldown : CooldownRow → Bool → Operation
  delete_cooldown : CooldownKey → Bool → Operation
  upsert_usage_observation : UsageObservationRow → Bool → Operation
  delete_usage_observation : AccountId × Window → Bool → Operation
  upsert_capability_evidence : CapabilityEvidenceRow → Bool → Operation
  delete_capability_evidence : AccountId × Text → Bool → Operation
  delete_all_for_incarnation : String → Operation
  restore : ℤ → Operation

abbrev pub perform : Operation → ℤ → StateStore → StateStore × Submitted
perform (rotate_epoch id seed) = Operations.rotate_epoch id seed
perform invalidate_epoch_pins = Operations.invalidate_epoch_pins
perform (upsert_pin row high) = Operations.upsert_pin row high
perform (touch_pin_last_seen d seen expires) = Operations.touch_pin_last_seen d seen expires
perform (delete_pin d high) = Operations.delete_pin d high
perform (upsert_cooldown row high) = Operations.upsert_cooldown row high
perform (delete_cooldown key high) = Operations.delete_cooldown key high
perform (upsert_usage_observation row high) = Operations.upsert_usage_observation row high
perform (delete_usage_observation key high) = Operations.delete_usage_observation key high
perform (upsert_capability_evidence row high) = Operations.upsert_capability_evidence row high
perform (delete_capability_evidence key high) = Operations.delete_capability_evidence key high
perform (delete_all_for_incarnation i) = Operations.delete_all_for_incarnation i
perform (restore now_utc) = Operations.restore now_utc

-- What an operation submits.
abbrev pub request_of : Operation → Request
request_of (rotate_epoch id seed) = Operations.unscoped (rotate id seed) (some epoch_barrier)
request_of invalidate_epoch_pins = Operations.unscoped invalidate (some epoch_barrier)
request_of (upsert_pin row high) = Operations.pin_request row high
request_of (touch_pin_last_seen d seen expires) = Operations.touch_request d seen expires
request_of (delete_pin d high) = Operations.scoped (pin_scope d) (erase_pin d) high []
request_of (upsert_cooldown row high) = Operations.cooldown_request row high
request_of (delete_cooldown key high) =
    Operations.scoped (cooldown_scope key) (erase_cooldown key) high []
request_of (upsert_usage_observation row high) = Operations.usage_request row high
request_of (delete_usage_observation key high) =
    Operations.scoped (usage_scope key) (erase_usage key) high []
request_of (upsert_capability_evidence row high) = Operations.capability_request row high
request_of (delete_capability_evidence key high) =
    Operations.scoped (capability_scope key) (erase_capability key) high []
request_of (delete_all_for_incarnation i) =
    Operations.unscoped (erase_incarnation i) (some (incarnation_barrier i))
request_of (restore now_utc) = Operations.unscoped (restore_rows now_utc) none

-- A predicate that a recorded touch and a submission keep is kept by an operation.
pub perform_keeps :
    (P : StateStore → Type 0) (op : Operation) (now : ℤ) (s : StateStore)
    → ((touches : Dict Bytes ℤ) → P (record s { last_pin_touch_accepted = touches }))
    → ((t : StateStore) → P t → P (submit (request_of op) now t).0)
    → P s
    → P (perform op now s).0
unfolding Operations.rotate_epoch Operations.invalidate_epoch_pins Operations.upsert_pin
    Operations.touch_pin_last_seen Operations.delete_pin Operations.upsert_cooldown
    Operations.delete_cooldown Operations.upsert_usage_observation
    Operations.delete_usage_observation Operations.upsert_capability_evidence
    Operations.delete_capability_evidence Operations.delete_all_for_incarnation Operations.restore
perform_keeps P (rotate_epoch id seed) now s touch sub h = sub s h
perform_keeps P invalidate_epoch_pins now s touch sub h = sub s h
perform_keeps P (upsert_pin row high) now s touch sub h = sub s h
perform_keeps P (touch_pin_last_seen d seen expires) now s touch sub h =
    elim (Bool-cases (
      Operations.is_throttled (get d s.last_pin_touch_accepted) now s.pin_last_seen_min_interval)) [
        | inl early ↦ rw early h
        | inr due ↦ rw due (sub _ (touch (put d now s.last_pin_touch_accepted)))
      ]
perform_keeps P (delete_pin d high) now s touch sub h = sub s h
perform_keeps P (upsert_cooldown row high) now s touch sub h = sub s h
perform_keeps P (delete_cooldown key high) now s touch sub h = sub s h
perform_keeps P (upsert_usage_observation row high) now s touch sub h =
    elim (Bool-cases (Operations.is_percentage row.used_percent)) [
      | inl inside ↦ rw inside (sub s h)
      | inr outside ↦ rw outside h
    ]
perform_keeps P (delete_usage_observation key high) now s touch sub h = sub s h
perform_keeps P (upsert_capability_evidence row high) now s touch sub h = sub s h
perform_keeps P (delete_capability_evidence key high) now s touch sub h = sub s h
perform_keeps P (delete_all_for_incarnation i) now s touch sub h = sub s h
perform_keeps P (restore now_utc) now s touch sub h = sub s h

-- One step. The label of an operation lets a theorem say which operations a run has.
pub data Step (Allowed : Operation → Type 0) (s t : StateStore) : Type 0 where
  operates : (op : Operation) (now : ℤ) → Allowed op → t ≡ (perform op now s).0 → Step Allowed s t
  closes : (now : ℤ) → t ≡ close now s → Step Allowed s t
  wakes : (now : ℤ) → s.writer_job ≡ none → t ≡ take (wait_for_next_job now s) s → Step Allowed s t
  attempts :
      (answer : Answer) (now : ℤ) (job : Job)
      → s.writer_crashed ≡ false
      → s.writer_job ≡ some job
      → t ≡ attempt answer now job (record s { writer_job = none })
      → Step Allowed s t

pub data Run (Allowed : Operation → Type 0) (s : StateStore) : StateStore → Type 0 where
  here : Run Allowed s s
  next : {t u : StateStore} → Run Allowed s t → Step Allowed t u → Run Allowed s u

abbrev pub Anything : Operation → Type 0
Anything op = Unit

-- What every step keeps, every run keeps.
pub Run_keeps :
    {Allowed : Operation → Type 0} (P : StateStore → Type 0)
    → ((s t : StateStore) → Step Allowed s t → P s → P t)
    → {s t : StateStore} → Run Allowed s t
    → P s
    → P t
Run_keeps P step here h = h
Run_keeps P step (next {t} {u} r st) h = step t u st (Run_keeps P step r h)
