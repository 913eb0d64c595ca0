-- ===== src/StateStore/Steps/Close.antt =====
-- A closed store: the writer loop ends, with nothing left in the queue or delayed.
use claudex.Prelude.{
  ℕ, suc, ◌<◌, ◌≡◌, refl, ap, ◌∙◌, List, [], ◌∷◌, none, some, Bool, false, ◌&&◌, bit, leb, ltb,
  length, map, All, arith,
}
use claudex.Prelude.Int.{ℤ}
use claudex.StateStore.Queue.{Job, StateStore, hurry}
use claudex.StateStore.Writer.{handles, close, due_at, Round, writer_loop}
use claudex.StateStore.Steps.Handles.{close-IsAnswerable}
use claudex.StateStore.Steps.Held.{IsAnswerable, is_issued, is_settled, count, job_handles}
use claudex.StateStore.Steps.Drain.{IsFlushed, IsDue}
use claudex.StateStore.Steps.Rounds.{left, Drained, Ends, IsLate, drain}

IsFlushed-close : (now : ℤ) (jobs : List Job) → All (IsFlushed now) (map (hurry now) jobs)
unfolding hurry
IsFlushed-close now [] = tt
IsFlushed-close now (j ∷ js) = (ground arith, IsFlushed-close now js)

IsDue-close : (now : ℤ) (jobs : List Job) → All (IsDue now) (map (due_at now) jobs)
IsDue-close now [] = tt
IsDue-close now (j ∷ js) = (ground arith, IsDue-close now js)

length-map : {A : Type 0} (f : A → A) (xs : List A) → length (map f xs) ≡ length xs
length-map f [] = refl
length-map f (x ∷ xs) = ap suc (length-map f xs)

bit_inj : (a b : Bool) → bit a ≡ bit b → a ≡ b
bit_inj a b h = ground (arith, h)

Drained-settled : (n m : ℕ) (u : StateStore) → Drained m u → is_settled n u ≡ (leb 1 n && ltb n m)
unfolding handles
Drained-settled n m u d =
    let here = d.answerable.1 n in
    let issued : is_issued n u ≡ (leb 1 n && ltb n m) = ap (λ k. leb 1 n && ltb n k) d.same_next in
    bit_inj (is_settled n u) (is_issued n u) (
      omega (
        arith,
        here,
        ap (λ l. count n (handles l)) d.no_pending,
        ap (λ l. count n (handles l)) d.no_retrying,
        ap (λ w. count n (job_handles w)) d.idle,
      ))
    ∙ issued

module _ (now : ℤ) (rs : List Round) (s : StateStore) where
  close-Ends :
      s.closed ≡ false
      → s.writer_job ≡ none
      → s.writer_crashed ≡ false
      → IsAnswerable s
      → All (IsLate now) rs
      → left s < length rs
      → Ends rs (close now s)
  unfolding close
  close-Ends on idle alive ok late fuel =
      drain now rs (close now s)
        (record {
          stopped = rw on refl;
          idle = rw on idle;
          alive = rw on alive;
          flushed = rw on (IsFlushed-close now s.pending);
          due = rw on (IsDue-close now s.retrying);
          answerable = close-IsAnswerable s ok now;
        })
        late
        (rw on (
          omega
            (arith, fuel, length-map (hurry now) s.pending, length-map (due_at now) s.retrying)))

  close_next : (close now s).next_sequence ≡ s.next_sequence
  unfolding close
  close_next = ground arith

  -- When an open store between two jobs, whose writer is alive and whose handles are each held once, is
  -- closed, and the clock never reads earlier than at the close, the writer loop ends within one round
  -- more than there are jobs, whatever SQLite answers; nothing is left in the queue or delayed, and exactly the handles
  -- that were given out are settled.
  pub close_settles :
      s.closed ≡ false
      → s.writer_job ≡ none
      → s.writer_crashed ≡ false
      → IsAnswerable s
      → All (IsLate now) rs
      → left s < length rs
      → (u : StateStore) × (writer_loop rs (close now s) ≡ some u)
        × (u.pending ≡ [])
        × (u.retrying ≡ [])
        × ((n : ℕ) → is_settled n u ≡ is_issued n s)
  close_settles on idle alive ok late fuel =
      let e = close-Ends on idle alive ok late fuel in
      (
        e.final,
        e.runs,
        e.drained.no_pending,
        e.drained.no_retrying,
        λ n.
            Drained-settled n (close now s).next_sequence e.final e.drained
            ∙ ap (λ m. leb 1 n && ltb n m) close_next,
      )
