-- ===== src/Pool/Chain/Sorted.antt =====
-- How `sorted` and the choice of the serving record arrange the records.
use claudex.Prelude.{
  ◌+◌, ◌≤◌, ◌≡◌, refl, List, [], ◌∷◌, map, Option, none, some, Bool, false, not, select, string_eq,
  ◌==◌, ==_iff, if◌then◌else◌, Bool-cases, inl, inr, All, times, bit, arith, subst, All-weaken, sym,
  ap, ◌∙◌,
}
use claudex.Selection.Units.{AccountId}
use claudex.Pool.Chain.{AccountRecord, find_record, is_before, insert_record, sorted_records}

-- The serving account's record first, then the others by age.
abbrev pub ordered : Option AccountRecord → List AccountRecord → List AccountRecord
ordered none others = others
ordered (some c) others = c ∷ others

abbrev pub others_of : AccountId → List AccountRecord → List AccountRecord
others_of serving records = select (λ c. not (c.id == serving)) (sorted_records records)

-- No two records have the same id.
abbrev pub AreDistinct : List AccountRecord → Type 0
AreDistinct [] = Unit
AreDistinct (c ∷ cs) = All (λ (d : AccountRecord). (c.id == d.id) ≡ false) cs × AreDistinct cs

-- None stands before one that was created earlier.
abbrev pub IsByAge : List AccountRecord → Type 0
IsByAge [] = Unit
IsByAge (c ∷ cs) = All (λ (d : AccountRecord). c.created_at ≤ d.created_at) cs × IsByAge cs

All-insert_record :
    (P : AccountRecord → Type 0) (c : AccountRecord) (ds : List AccountRecord)
    → P c
    → All P ds
    → All P (insert_record c ds)
unfolding insert_record
All-insert_record P c [] p h = (p, tt)
All-insert_record P c (d ∷ ds) p h = elim (Bool-cases (is_before d c)) [
  | inl e ↦ rw e (h.0, All-insert_record P c ds p h.1)
  | inr e ↦ rw e (p, h)
]

All-sorted_records :
    (P : AccountRecord → Type 0) (cs : List AccountRecord) → All P cs → All P (sorted_records cs)
unfolding sorted_records
All-sorted_records P [] h = tt
All-sorted_records P (c ∷ cs) h =
    All-insert_record P c (sorted_records cs) h.0 (All-sorted_records P cs h.1)

apart_sym : (a b : AccountId) → (a == b) ≡ false → (b == a) ≡ false
apart_sym a b h = ground (arith, h, ==_iff a b, ==_iff b a)

insert_record-AreDistinct :
    (c : AccountRecord) (ds : List AccountRecord)
    → All (λ (d : AccountRecord). (c.id == d.id) ≡ false) ds
    → AreDistinct ds
    → AreDistinct (insert_record c ds)
unfolding insert_record
insert_record-AreDistinct c [] apart h = (tt, tt)
insert_record-AreDistinct c (d ∷ ds) apart h = elim (Bool-cases (is_before d c)) [
  | inl e ↦ rw e (
    All-insert_record (λ (x : AccountRecord). (d.id == x.id) ≡ false) c ds
        (apart_sym c.id d.id apart.0) h.0,
    insert_record-AreDistinct c ds apart.1 h.1,
  )
  | inr e ↦ rw e (apart, h)
]

sorted_records-AreDistinct :
    (cs : List AccountRecord) → AreDistinct cs → AreDistinct (sorted_records cs)
unfolding sorted_records
sorted_records-AreDistinct [] h = tt
sorted_records-AreDistinct (c ∷ cs) h =
    insert_record-AreDistinct c (sorted_records cs)
      (All-sorted_records (λ (x : AccountRecord). (c.id == x.id) ≡ false) cs h.0)
      (sorted_records-AreDistinct cs h.1)

All-kept :
    (P : AccountRecord → Type 0) (p : AccountRecord → Bool) (cs : List AccountRecord)
    → All P cs
    → All P (select p cs)
All-kept P p [] h = tt
All-kept P p (c ∷ cs) h = elim (Bool-cases (p c)) [
  | inl e ↦ rw e (h.0, All-kept P p cs h.1)
  | inr e ↦ rw e (All-kept P p cs h.1)
]

kept-AreDistinct :
    (p : AccountRecord → Bool) (cs : List AccountRecord)
    → AreDistinct cs
    → AreDistinct (select p cs)
kept-AreDistinct p [] h = tt
kept-AreDistinct p (c ∷ cs) h = elim (Bool-cases (p c)) [
  | inl e ↦
      rw e (
        All-kept (λ (x : AccountRecord). (c.id == x.id) ≡ false) p cs h.0,
        kept-AreDistinct p cs h.1,
      )
  | inr e ↦ rw e (kept-AreDistinct p cs h.1)
]

others_apart :
    (serving : AccountId) (cs : List AccountRecord)
    → All
        (λ (d : AccountRecord). (serving == d.id) ≡ false)
        (select (λ c. not (c.id == serving)) cs)
others_apart serving [] = tt
others_apart serving (c ∷ cs) = elim (Bool-cases (c.id == serving)) [
  | inl e ↦ rw e (others_apart serving cs)
  | inr e ↦ rw e (apart_sym c.id serving e, others_apart serving cs)
]

find_record-id :
    (serving : AccountId) (cs : List AccountRecord) (c : AccountRecord)
    → find_record serving cs ≡ some c
    → c.id ≡ serving
unfolding find_record
find_record-id serving [] c h = absurd (ground arith)
find_record-id serving (d ∷ ds) c h = elim (Bool-cases (d.id == serving)) [
  | inl e ↦ ground (arith, h, e, ==_iff d.id serving)
  | inr e ↦ find_record-id serving ds c (rw e at h)
]

-- Neither the serving record nor any other stands twice.
pub ordered-AreDistinct :
    (serving : AccountId) (records : List AccountRecord) (found : Option AccountRecord)
    → find_record serving records ≡ found
    → AreDistinct records
    → AreDistinct (ordered found (others_of serving records))
ordered-AreDistinct serving records none e h =
    kept-AreDistinct (λ c. not (c.id == serving)) (sorted_records records)
      (sorted_records-AreDistinct records h)
ordered-AreDistinct serving records (some c) e h = (
  subst (λ a. All (λ (d : AccountRecord). (a == d.id) ≡ false) (others_of serving records))
      (sym (find_record-id serving records c e)) (others_apart serving (sorted_records records)),
  kept-AreDistinct (λ c. not (c.id == serving)) (sorted_records records)
      (sorted_records-AreDistinct records h),
)

insert_record-IsByAge :
    (c : AccountRecord) (ds : List AccountRecord) → IsByAge ds → IsByAge (insert_record c ds)
unfolding insert_record
insert_record-IsByAge c [] h = (tt, tt)
insert_record-IsByAge c (d ∷ ds) h = elim (Bool-cases (is_before d c)) [
  | inl e ↦ rw e (
    All-insert_record (λ (x : AccountRecord). d.created_at ≤ x.created_at) c ds (ground (arith, e))
        h.0,
    insert_record-IsByAge c ds h.1,
  )
  | inr e ↦ rw e (
    (
      ground (arith, e),
      All-weaken (λ (x : AccountRecord). d.created_at ≤ x.created_at) _
          (λ x k. ground (arith, e, k)) ds h.0,
    ),
    h,
  )
]

sorted_records-IsByAge : (cs : List AccountRecord) → IsByAge (sorted_records cs)
unfolding sorted_records
sorted_records-IsByAge [] = tt
sorted_records-IsByAge (c ∷ cs) =
    insert_record-IsByAge c (sorted_records cs) (sorted_records-IsByAge cs)

kept-IsByAge :
    (p : AccountRecord → Bool) (cs : List AccountRecord) → IsByAge cs → IsByAge (select p cs)
kept-IsByAge p [] h = tt
kept-IsByAge p (c ∷ cs) h = elim (Bool-cases (p c)) [
  | inl e ↦ rw e (
    All-kept (λ (x : AccountRecord). c.created_at ≤ x.created_at) p cs h.0,
    kept-IsByAge p cs h.1,
  )
  | inr e ↦ rw e (kept-IsByAge p cs h.1)
]

pub others_of-IsByAge :
    (serving : AccountId) (records : List AccountRecord) → IsByAge (others_of serving records)
others_of-IsByAge serving records =
    kept-IsByAge (λ c. not (c.id == serving)) (sorted_records records)
      (sorted_records-IsByAge records)

abbrev pub ids_of : List AccountRecord → List AccountId
ids_of cs = map (λ c. c.id) cs

times-insert_record :
    (a : AccountId) (c : AccountRecord) (ds : List AccountRecord)
    → times a (ids_of (insert_record c ds)) ≡ times a (ids_of ds) + bit (c.id == a)
unfolding insert_record
times-insert_record a c [] = omega arith
times-insert_record a c (d ∷ ds) = ground (arith, times-insert_record a c ds)

times-sorted_records :
    (a : AccountId) (cs : List AccountRecord)
    → times a (ids_of (sorted_records cs)) ≡ times a (ids_of cs)
unfolding sorted_records
times-sorted_records a [] = refl
times-sorted_records a (c ∷ cs) =
    omega (arith, times-insert_record a c (sorted_records cs), times-sorted_records a cs)

times-others :
    (a serving : AccountId) (cs : List AccountRecord)
    → times a (ids_of (select (λ c. not (c.id == serving)) cs))
      ≡ (if a == serving then 0 else times a (ids_of cs))
times-others a serving [] = ground arith
times-others a serving (c ∷ cs) = elim (Bool-cases (c.id == serving)) [
  | inl e ↦
      ground
        (arith, e, times-others a serving cs, ==_iff c.id serving, ==_iff a serving, ==_iff c.id a)
  | inr e ↦
      ground
        (arith, e, times-others a serving cs, ==_iff c.id serving, ==_iff a serving, ==_iff c.id a)
]

-- Any other account has as many records among the others as there are, and the serving one has none.
pub times-others_of :
    (a serving : AccountId) (records : List AccountRecord)
    → times a (ids_of (others_of serving records))
      ≡ (if a == serving then 0 else times a (ids_of records))
times-others_of a serving records =
    times-others a serving (sorted_records records)
    ∙ ap (λ n. if a == serving then 0 else n) (times-sorted_records a records)
