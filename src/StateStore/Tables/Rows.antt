-- ===== src/StateStore/Tables/Rows.antt =====
-- Tables none of whose rows passes a test, and what keeps them so.
use claudex.Prelude.{
  ◌≡◌, refl, List, [], ◌∷◌, String, string_eq, list_eq, nat_eq, pair_eq, Option, none, some, Bool,
  false, Eq, ◌==◌, Bool-cases, inl, inr, arith,
}
use claudex.Prelude.Int.{ℤ}
use claudex.Dict.{Dict, get, put, pop, pop_all}
use claudex.Selection.Units.{window_eq, family_eq}
use claudex.Selection.Pick.{Bytes}
use claudex.Selection.Gate.{scope_eq}
use claudex.Router.State.{PinRow, CooldownRow, UsageObservationRow, CapabilityEvidenceRow}
use claudex.StateStore.Tables.Restore.{RestoredTables, do_restore}
use claudex.StateStore.Tables.{
  Payload, Database, delete_where, touched, without_incarnation, apply_tables, apply_payload,
  rotate, invalidate, write_pin, touch_last_seen, erase_pin, write_cooldown, erase_cooldown,
  write_usage, erase_usage, write_capability, erase_capability, erase_incarnation, restore_rows,
}

abbrev pub Clear : {K V : Type 0} → (V → Bool) → Dict K V → Type 0
Clear p [] = Unit
Clear p ((k, v) ∷ d) = (p v ≡ false) × Clear p d

module _ {K V : Type 0} (p : V → Bool) where
  Clear-delete_where : (q : V → Bool) (d : Dict K V) → Clear p d → Clear p (delete_where q d)
  unfolding delete_where
  Clear-delete_where q [] h = tt
  Clear-delete_where q ((k, v) ∷ d) h = elim (Bool-cases (q v)) [
    | inl e ↦ rw e (Clear-delete_where q d h.1)
    | inr e ↦ rw e (h.0, Clear-delete_where q d h.1)
  ]

  delete_where-Clear : (d : Dict K V) → Clear p (delete_where p d)
  unfolding delete_where
  delete_where-Clear [] = tt
  delete_where-Clear ((k, v) ∷ d) = elim (Bool-cases (p v)) [
    | inl e ↦ rw e (delete_where-Clear d)
    | inr e ↦ rw e (e, delete_where-Clear d)
  ]

module _ {K V : Type 0} ⦃e : Eq K⦄ (p : V → Bool) where
  Clear-put : (k : K) (v : V) (d : Dict K V) → p v ≡ false → Clear p d → Clear p (put k v d)
  unfolding put
  Clear-put k v [] h c = (h, tt)
  Clear-put k v ((j, w) ∷ d) h c = elim (Bool-cases (j == k)) [
    | inl same ↦ rw same (h, c.1)
    | inr other ↦ rw other (c.0, Clear-put k v d h c.1)
  ]

  Clear-pop : (k : K) (d : Dict K V) → Clear p d → Clear p (pop k d)
  unfolding pop
  Clear-pop k [] c = tt
  Clear-pop k ((j, w) ∷ d) c = elim (Bool-cases (j == k)) [
    | inl same ↦ rw same (Clear-pop k d c.1)
    | inr other ↦ rw other (c.0, Clear-pop k d c.1)
  ]

  Clear-pop_all : (ks : List K) (d : Dict K V) → Clear p d → Clear p (pop_all ks d)
  unfolding pop_all
  Clear-pop_all [] d c = c
  Clear-pop_all (k ∷ ks) d c = Clear-pop_all ks (pop k d) (Clear-pop k d c)

  Clear-get : (k : K) (d : Dict K V) (v : V) → Clear p d → get k d ≡ some v → p v ≡ false
  unfolding get
  Clear-get k [] v c h = cc
  Clear-get k ((j, w) ∷ d) v c h = ground (arith, Clear-get k d v c.1)

abbrev pub of_incarnation_pin : String → PinRow → Bool
of_incarnation_pin i row = row.account_incarnation_id == i

abbrev pub of_incarnation_cooldown : String → CooldownRow → Bool
of_incarnation_cooldown i row = row.account_incarnation_id == i

abbrev pub of_incarnation_usage : String → UsageObservationRow → Bool
of_incarnation_usage i row = row.account_incarnation_id == i

abbrev pub of_incarnation_capability : String → CapabilityEvidenceRow → Bool
of_incarnation_capability i row = row.account_incarnation_id == i

-- No table has a row of the incarnation.
abbrev pub HasNoRow : String → RestoredTables → Type 0
HasNoRow i t =
    Clear (of_incarnation_pin i) t.pins
    × Clear (of_incarnation_cooldown i) t.cooldowns
    × Clear (of_incarnation_usage i) t.usage_observations
    × Clear (of_incarnation_capability i) t.capability_evidence

-- Whether a payload writes a row of the incarnation.
abbrev pub writes : String → Payload → Bool
writes i (write_pin row) = row.account_incarnation_id == i
writes i (write_cooldown row) = row.account_incarnation_id == i
writes i (write_usage row) = row.account_incarnation_id == i
writes i (write_capability row) = row.account_incarnation_id == i
writes i p = false

Clear-touched :
    (i : String) (digest : Bytes) (seen expires : ℤ) (row : Option PinRow)
    (pins : Dict Bytes PinRow)
    → ((r : PinRow) → row ≡ some r → of_incarnation_pin i r ≡ false)
    → Clear (of_incarnation_pin i) pins
    → Clear (of_incarnation_pin i) (touched digest seen expires row pins)
Clear-touched i digest seen expires none pins h c = c
Clear-touched i digest seen expires (some r) pins h c =
    Clear-put (of_incarnation_pin i) digest _ pins (h r refl) c

-- A payload that writes no row of an incarnation leaves the tables without one.
pub apply_tables-HasNoRow :
    (i epoch : String) (p : Payload) (t : RestoredTables)
    → writes i p ≡ false
    → HasNoRow i t
    → HasNoRow i (apply_tables epoch p t)
unfolding apply_tables without_incarnation do_restore
apply_tables-HasNoRow i epoch (rotate id seed) t w h = (tt, h.1, h.2, h.3)
apply_tables-HasNoRow i epoch invalidate t w h =
    (Clear-delete_where (of_incarnation_pin i) _ t.pins h.0, h.1, h.2, h.3)
apply_tables-HasNoRow i epoch (write_pin row) t w h =
    (Clear-put (of_incarnation_pin i) _ row t.pins w h.0, h.1, h.2, h.3)
apply_tables-HasNoRow i epoch (touch_last_seen digest seen expires) t w h = (
  Clear-touched i digest seen expires (get digest t.pins) t.pins
      (λ r e. Clear-get (of_incarnation_pin i) digest t.pins r h.0 e) h.0,
  h.1,
  h.2,
  h.3,
)
apply_tables-HasNoRow i epoch (erase_pin digest) t w h =
    (Clear-pop (of_incarnation_pin i) digest t.pins h.0, h.1, h.2, h.3)
apply_tables-HasNoRow i epoch (write_cooldown row) t w h =
    (h.0, Clear-put (of_incarnation_cooldown i) _ row t.cooldowns w h.1, h.2, h.3)
apply_tables-HasNoRow i epoch (erase_cooldown key) t w h =
    (h.0, Clear-pop (of_incarnation_cooldown i) key t.cooldowns h.1, h.2, h.3)
apply_tables-HasNoRow i epoch (write_usage row) t w h =
    (h.0, h.1, Clear-put (of_incarnation_usage i) _ row t.usage_observations w h.2, h.3)
apply_tables-HasNoRow i epoch (erase_usage key) t w h =
    (h.0, h.1, Clear-pop (of_incarnation_usage i) key t.usage_observations h.2, h.3)
apply_tables-HasNoRow i epoch (write_capability row) t w h =
    (h.0, h.1, h.2, Clear-put (of_incarnation_capability i) _ row t.capability_evidence w h.3)
apply_tables-HasNoRow i epoch (erase_capability key) t w h =
    (h.0, h.1, h.2, Clear-pop (of_incarnation_capability i) key t.capability_evidence h.3)
apply_tables-HasNoRow i epoch (erase_incarnation j) t w h = (
  Clear-delete_where (of_incarnation_pin i) _ t.pins h.0,
  Clear-delete_where (of_incarnation_cooldown i) _ t.cooldowns h.1,
  Clear-delete_where (of_incarnation_usage i) _ t.usage_observations h.2,
  Clear-delete_where (of_incarnation_capability i) _ t.capability_evidence h.3,
)
apply_tables-HasNoRow i epoch (restore_rows now_utc) t w h = (
  Clear-pop_all (of_incarnation_pin i) _ t.pins h.0,
  Clear-pop_all (of_incarnation_cooldown i) _ t.cooldowns h.1,
  Clear-pop_all (of_incarnation_usage i) _ t.usage_observations h.2,
  Clear-pop_all (of_incarnation_capability i) _ t.capability_evidence h.3,
)

-- The deletion of an incarnation leaves no row of it.
pub erase_incarnation-HasNoRow :
    (i epoch : String) (t : RestoredTables)
    → HasNoRow i (apply_tables epoch (erase_incarnation i) t)
unfolding apply_tables without_incarnation
erase_incarnation-HasNoRow i epoch t = (
  delete_where-Clear (of_incarnation_pin i) t.pins,
  delete_where-Clear (of_incarnation_cooldown i) t.cooldowns,
  delete_where-Clear (of_incarnation_usage i) t.usage_observations,
  delete_where-Clear (of_incarnation_capability i) t.capability_evidence,
)

-- The tables of `apply_payload` are those of `apply_tables`.
pub tables-apply_payload :
    (epoch : String) (p : Payload) (db : Database)
    → (apply_payload epoch p db).tables ≡ apply_tables epoch p db.tables
unfolding apply_payload
tables-apply_payload epoch (rotate id seed) db = refl
tables-apply_payload epoch p db = refl
