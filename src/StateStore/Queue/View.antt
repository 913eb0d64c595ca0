-- ===== src/StateStore/Queue/View.antt =====
-- The queue as a map from rows to payloads.
use claudex.Prelude.{
  ℕ, ◌≡◌, refl, List, [], ◌∷◌, Option, none, some, Bool, true, false, Bool-cases, inl, inr, arith,
}
use claudex.Prelude.Int.{ℤ}
use claudex.Dict.{Dict, put}
use claudex.StateStore.Keys.{Scope, row_scope_eq}
use claudex.StateStore.Tables.{Payload}
use claudex.StateStore.Queue.{
  Job, StateStore, Request, submit, enqueue, new_job, coalesce, hurry, hurry_if, same_scope,
}

-- What the queue will write, by row: the abstract view of its scoped jobs.
abbrev pub write_at : Option Scope → Payload → Dict Scope Payload → Dict Scope Payload
write_at none p d = d
write_at (some k) p d = put k p d

abbrev pub entry_at : Option Scope → Payload → Dict Scope Payload → Dict Scope Payload
entry_at none p d = d
entry_at (some k) p d = (k, p) ∷ d

unfoldable pub payloads : List Job → Dict Scope Payload
payloads [] = []
payloads (j ∷ js) = entry_at j.scope_key j.payload (payloads js)

payloads-merged :
    (q : Request) (own wanted : Option Scope) (p : Payload) (rest : Dict Scope Payload)
    → same_scope own wanted ≡ true
    → entry_at own q.payload rest ≡ write_at wanted q.payload (entry_at own p rest)
unfolding put
payloads-merged q (some a) (some b) p rest h = ground arith
payloads-merged q none b p rest h = cc
payloads-merged q (some a) none p rest h = cc

payloads-passed :
    (own wanted : Option Scope) (p r : Payload) (rest : Dict Scope Payload)
    → same_scope own wanted ≡ false
    → entry_at own p (write_at wanted r rest) ≡ write_at wanted r (entry_at own p rest)
unfolding put
payloads-passed (some a) (some b) p r rest h = ground arith
payloads-passed none (some b) p r rest h = refl
payloads-passed (some a) none p r rest h = refl
payloads-passed none none p r rest h = refl

entry-first : (k : Option Scope) (p : Payload) → entry_at k p [] ≡ write_at k p []
unfolding put
entry-first none p = refl
entry-first (some k) p = refl

pub payloads-enqueue :
    (q : Request) (n : ℕ) (now debounce : ℤ) (jobs : List Job)
    → payloads (enqueue q n now debounce jobs) ≡ write_at q.scope_key q.payload (payloads jobs)
unfolding payloads enqueue new_job coalesce
payloads-enqueue q n now debounce [] = entry-first q.scope_key q.payload
payloads-enqueue q n now debounce (j ∷ js) =
    elim (Bool-cases (same_scope j.scope_key q.scope_key)) [
      | inl same ↦ rw same (payloads-merged q j.scope_key q.scope_key j.payload (payloads js) same)
      | inr other ↦
          rw (other, payloads-enqueue q n now debounce js)
            (payloads-passed j.scope_key q.scope_key j.payload q.payload (payloads js) other)
    ]

pub payloads-hurry_if :
    (high : Bool) (now : ℤ) (jobs : List Job) → payloads (hurry_if high now jobs) ≡ payloads jobs
unfolding payloads hurry
payloads-hurry_if false now jobs = refl
payloads-hurry_if true now [] = refl
payloads-hurry_if true now (j ∷ js) = rw (payloads-hurry_if true now js)

-- Seen as a map from each row to the payload that will be written to it, in the order of the queue,
-- the queue of an open store takes a submission as Python's dict takes a write: the payload of the
-- row is replaced at its place or appended, and a job with no row leaves the map as it is.
pub submit-refines :
    (q : Request) (now : ℤ) (s : StateStore)
    → s.closed ≡ false
    → payloads (submit q now s).0.pending ≡ write_at q.scope_key q.payload (payloads s.pending)
unfolding submit
submit-refines q now s on =
    rw (on, payloads-hurry_if q.high_priority now)
      (payloads-enqueue q s.next_sequence now s.debounce s.pending)
