-- ===== src/StateStore/Steps/Order.antt =====
-- The order of the queue: positions ascend, and a job carries a payload that is not older than its
-- position.
use claudex.Prelude.{
  ℕ, ◌≤◌, ◌<◌, ◌≡◌, refl, List, [], ◌∷◌, ◌++◌, Option, none, some, Bool, true, false, All, All-map,
  All-weaken, map, Bool-cases, inl, inr, arith, ==_refl, ==_iff, nat_eq,
}
use claudex.Prelude.Int.{ℤ}
use claudex.Dict.{Dict, get, Unique}
use claudex.Dict.Laws.{put-Unique}
use claudex.StateStore.Keys.{Scope, row_scope_eq}
use claudex.StateStore.Tables.{Payload}
use claudex.StateStore.Queue.{
  Job, StateStore, Request, enqueue, new_job, coalesce, hurry, hurry_if, same_scope,
}
use claudex.StateStore.Queue.View.{payloads, write_at, entry_at}
use claudex.StateStore.Steps.Held.{count}
use claudex.StateStore.Steps.Jobs.{AllOption, Every, Kept}
use claudex.StateStore.Steps.{Anything}

abbrev pub Ascending : List Job → Type 0
Ascending [] = Unit
Ascending (j ∷ js) = All (λ (k : Job). j.sequence < k.sequence) js × Ascending js

-- Where a job that is attempted or waits for its retry meets a queued job of its row, the queued one
-- has the newer payload.
abbrev pub IsNewer : Job → Job → Type 0
IsNewer r j = same_scope r.scope_key j.scope_key ≡ true → r.payload_sequence < j.payload_sequence

abbrev pub IsOvertaken : List Job → Job → Type 0
IsOvertaken pending r = All (IsNewer r) pending

abbrev pub IsOrdered : StateStore → Type 0
IsOrdered s =
    Ascending s.pending
    × Unique (payloads s.pending)
    × All (IsOvertaken s.pending) s.retrying
    × AllOption (IsOvertaken s.pending) s.writer_job

-- The payload is not older than the position, has been given out, and its handle is with the job.
abbrev pub IsStamped : ℕ → Job → Type 0
IsStamped n j =
    (j.sequence ≤ j.payload_sequence)
    × (j.payload_sequence < n)
    × (1 ≤ count j.payload_sequence j.pending_writes)

abbrev pub AreStamped : StateStore → Type 0
AreStamped = Every (λ n. Unit) IsStamped

count-last : (n : ℕ) (ms : List ℕ) → 1 ≤ count n (ms ++ n ∷ [])
count-last n [] = ground (arith, ==_refl n)
count-last n (m ∷ ms) = omega (arith, count-last n ms)

pub IsStamped-kept : Kept Anything (λ n. Unit) IsStamped
unfolding hurry new_job coalesce
IsStamped-kept = record {
  bound_grows = λ n g. tt;
  grows = λ n j h. omega (arith, h);
  hurried = λ n now j h. h;
  made_due = λ n now j h. h;
  put_off = λ n wait now j h. h;
  counted = λ n j h. h;
  fresh = λ op allowed n now debounce g. (omega arith, omega arith, ground (arith, ==_refl n));
  merged = λ op allowed n j g h. (omega (arith, h), omega arith, count-last n j.pending_writes);
}

All-enqueued :
    (R : Job → Type 0) (q : Request) (n : ℕ) (now debounce : ℤ)
    → R (new_job q n now debounce)
    → ((j : Job) → R j → R (coalesce q n j))
    → (jobs : List Job) → All R jobs
    → All R (enqueue q n now debounce jobs)
unfolding enqueue
All-enqueued R q n now debounce new old [] h = (new, tt)
All-enqueued R q n now debounce new old (j ∷ js) h =
    elim (Bool-cases (same_scope j.scope_key q.scope_key)) [
      | inl same ↦ rw same (old j h.0, h.1)
      | inr other ↦ rw other (h.0, All-enqueued R q n now debounce new old js h.1)
    ]

All-hurry_if :
    (R : Job → Type 0)
    → ((now : ℤ) (j : Job) → R j → R (hurry now j))
    → (high : Bool) (now : ℤ) (jobs : List Job) → All R jobs
    → All R (hurry_if high now jobs)
All-hurry_if R keep false now jobs h = h
All-hurry_if R keep true now jobs h = All-map R R (hurry now) (keep now) jobs h

pub Ascending-enqueue :
    (q : Request) (n : ℕ) (now debounce : ℤ) (jobs : List Job)
    → All (λ (j : Job). j.sequence < n) jobs
    → Ascending jobs
    → Ascending (enqueue q n now debounce jobs)
unfolding enqueue new_job coalesce
Ascending-enqueue q n now debounce [] low h = (tt, tt)
Ascending-enqueue q n now debounce (j ∷ js) low h =
    elim (Bool-cases (same_scope j.scope_key q.scope_key)) [
      | inl same ↦ rw same h
      | inr other ↦ rw other (
        All-enqueued (λ (k : Job). j.sequence < k.sequence) q n now debounce low.0 (λ k p. p) js
            h.0,
        Ascending-enqueue q n now debounce js low.1 h.1,
      )
    ]

pub Ascending-hurry :
    (now : ℤ) (jobs : List Job) → Ascending jobs → Ascending (map (hurry now) jobs)
unfolding hurry
Ascending-hurry now [] h = tt
Ascending-hurry now (j ∷ js) h = (
  All-map (λ (k : Job). j.sequence < k.sequence) _ (hurry now) (λ k p. p) js h.0,
  Ascending-hurry now js h.1,
)

pub Ascending-hurry_if :
    (high : Bool) (now : ℤ) (jobs : List Job) → Ascending jobs → Ascending (hurry_if high now jobs)
Ascending-hurry_if false now jobs h = h
Ascending-hurry_if true now jobs h = Ascending-hurry now jobs h

pub write_at-Unique :
    (k : Option Scope) (p : Payload) (d : Dict Scope Payload) → Unique d → Unique (write_at k p d)
write_at-Unique none p d u = u
write_at-Unique (some k) p d u = put-Unique k p d u

absent_entry :
    (k : Scope) (own : Option Scope) (p : Payload) (rest : Dict Scope Payload)
    → get k (entry_at own p rest) ≡ none
    → (same_scope (some k) own ≡ false) × (get k rest ≡ none)
unfolding get
absent_entry k none p rest h = (refl, h)
absent_entry k (some j) p rest h = ground (arith, ==_iff j k, ==_iff k j)

-- A row that the map does not have is that of no job.
absent_scope :
    (k : Scope) (jobs : List Job)
    → get k (payloads jobs) ≡ none
    → All (λ (j : Job). same_scope (some k) j.scope_key ≡ false) jobs
unfolding payloads
absent_scope k [] h = tt
absent_scope k (j ∷ js) h =
    let e = absent_entry k j.scope_key j.payload (payloads js) h in (e.0, absent_scope k js e.1)

All-unit : (js : List Job) → All (λ (j : Job). Unit {0}) js
All-unit [] = tt
All-unit (j ∷ js) = (tt, All-unit js)

alone :
    (n : ℕ) (own : Option Scope) (p : Payload) (js : List Job)
    → Unique (entry_at own p (payloads js))
    → All (λ (j : Job). same_scope own j.scope_key ≡ true → n < j.payload_sequence) js
alone n none p js u = All-weaken (λ (j : Job). Unit {0}) _ (λ j h e. cc) js (All-unit js)
alone n (some k) p js u =
    All-weaken (λ (j : Job). same_scope (some k) j.scope_key ≡ false) _ (λ j h e. cc) js
      (absent_scope k js u.0)

Unique-rest :
    (own : Option Scope) (p : Payload) (rest : Dict Scope Payload)
    → Unique (entry_at own p rest)
    → Unique rest
Unique-rest none p rest u = u
Unique-rest (some k) p rest u = u.1

-- When the head is taken, no other job of the queue is of its row.
pub head-IsOvertaken :
    (job : Job) (js : List Job)
    → Unique (payloads (job ∷ js))
    → IsOvertaken js job × Unique (payloads js)
unfolding payloads
head-IsOvertaken job js u = (
  alone job.payload_sequence job.scope_key job.payload js u,
  Unique-rest job.scope_key job.payload (payloads js) u,
)

pub enqueued-IsOvertaken :
    (q : Request) (n : ℕ) (now debounce : ℤ) (high : Bool) (jobs : List Job) (r : Job)
    → r.payload_sequence < n
    → IsOvertaken jobs r
    → IsOvertaken (hurry_if high now (enqueue q n now debounce jobs)) r
unfolding hurry new_job coalesce
enqueued-IsOvertaken q n now debounce high jobs r low h =
    All-hurry_if (IsNewer r) (λ t j p. p) high now _
      (All-enqueued (IsNewer r) q n now debounce (λ e. low) (λ j p e. low) jobs h)
