-- ===== src/StateStore/Steps/Flush.antt =====
-- A high-priority submission flushes the queue, in the order of the positions.
use claudex.Prelude.{
  ℕ, ◌<◌, ◌≡◌, refl, subst, ap, ◌∙◌, List, [], ◌∷◌, true, false, All, map, Bool-cases, inl, inr,
  arith,
}
use claudex.Prelude.Int.{ℤ, ◌≤ℤ◌}
use claudex.StateStore.Queue.{
  Job, StateStore, Request, submit, enqueue, new_job, coalesce, hurry, hurry_if, same_scope,
}
use claudex.StateStore.Writer.{run, wait_for_next_job}
use claudex.StateStore.Steps.Drain.{IsFlushed}
use claudex.StateStore.Steps.Rounds.{take_head}
use claudex.StateStore.Steps.Order.{Ascending}
use claudex.StateStore.Steps.InOrder.{IsInOrder, submit-IsOrdered}

hurried-IsFlushed : (now : ℤ) (jobs : List Job) → All (IsFlushed now) (map (hurry now) jobs)
unfolding hurry
hurried-IsFlushed now [] = tt
hurried-IsFlushed now (j ∷ js) = (ground arith, hurried-IsFlushed now js)

-- A queue that has taken a submission has a job.
record HasHead (jobs : List Job) : Type 0 where
  first : Job
  others : List Job
  split : jobs ≡ first ∷ others

enqueue-HasHead :
    (q : Request) (n : ℕ) (now debounce : ℤ) (jobs : List Job)
    → HasHead (enqueue q n now debounce jobs)
unfolding enqueue
enqueue-HasHead q n now debounce [] = record {
  first = new_job q n now debounce;
  others = [];
  split = refl;
}
enqueue-HasHead q n now debounce (j ∷ js) = elim (Bool-cases (same_scope j.scope_key q.scope_key)) [
  | inl same ↦ record { first = coalesce q n j; others = js; split = rw same refl }
  | inr other ↦ record { first = j; others = enqueue q n now debounce js; split = rw other refl }
]

submitted_pending :
    (q : Request) (now : ℤ) (s : StateStore)
    → q.high_priority ≡ true
    → s.closed ≡ false
    → (submit q now s).0.pending
      ≡ map (hurry now) (enqueue q s.next_sequence now s.debounce s.pending)
unfolding submit
submitted_pending q now s high on =
    rw on (ap (λ b. hurry_if b now (enqueue q s.next_sequence now s.debounce s.pending)) high)

-- After a high-priority submission to an open store whose queue is in order, and at any later time,
-- the writer that looks for a job takes the head of the queue at once, and the head has the earliest
-- position of all queued jobs: no debounce holds a job back, and none is overtaken.
pub high_priority_flushes :
    (q : Request) (now later : ℤ) (s : StateStore)
    → q.high_priority ≡ true
    → s.closed ≡ false
    → now ≤ℤ later
    → IsInOrder s
    → (j : Job) × (js : List Job) × ((submit q now s).0.pending ≡ j ∷ js)
      × (wait_for_next_job later (submit q now s).0
          ≡ run j (record (submit q now s).0 { pending = js }))
      × All (λ (k : Job). j.sequence < k.sequence) js
      × All (IsFlushed now) js
high_priority_flushes q now later s high on late ok =
    let t = (submit q now s).0 in
    let h = enqueue-HasHead q s.next_sequence now s.debounce s.pending in
    let e : t.pending ≡ hurry now h.first ∷ map (hurry now) h.others =
      submitted_pending q now s high on ∙ ap (map (hurry now)) h.split in
    let flushed : All (IsFlushed now) t.pending =
      rw (submitted_pending q now s high on) (hurried-IsFlushed now _) in
    let ascending : Ascending t.pending = (submit-IsOrdered q now s ok.0 ok.1).0 in
    (
      hurry now h.first,
      map (hurry now) h.others,
      e,
      take_head now later t (hurry now h.first) (map (hurry now) h.others) e flushed late,
      (subst Ascending e ascending).0,
      (subst (All (IsFlushed now)) e flushed).1,
    )
