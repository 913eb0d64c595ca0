-- ===== src/StateStore/Steps/Drain.antt =====
-- What an attempt does to a store that stops: it delays no job again.
use claudex.Prelude.{
  ◌≤◌, ◌≡◌, refl, ap, ◌∙◌, false, List, [], ◌∷◌, Option, none, some, Bool, true, not, length,
  select, All, arith,
}
use claudex.Prelude.Int.{ℤ, leb_ℤ, ◌≤ℤ◌}
use claudex.StateStore.Queue.{Job, StateStore, Failure, integrity_error, storage_full, transient}
use claudex.StateStore.Writer.{
  Answer, commits, fails_to_apply, fails_to_commit, is_due, fail, succeed, is_retired, execute,
  attempt,
}
use claudex.StateStore.Steps.Jobs.{All-select}
use claudex.StateStore.Steps.Handles.{IsAttempting, attempt-IsAnswerable}
use claudex.StateStore.Steps.Held.{IsAnswerable}

abbrev pub IsFlushed : ℤ → Job → Type 0
IsFlushed t j = j.flush_after ≤ℤ t

abbrev pub IsDue : ℤ → Job → Type 0
IsDue t j = is_due t j.next_attempt_at ≡ true

-- What an attempt of a stopping store leaves as it is.
abbrev pub SameFrame : StateStore → StateStore → Type 0
SameFrame s t =
    (t.stopping ≡ s.stopping)
    × (t.writer_job ≡ s.writer_job)
    × (t.writer_crashed ≡ s.writer_crashed)
    × (t.next_sequence ≡ s.next_sequence)
    × (t.pending ≡ s.pending)

fail_frame :
    (failure : Failure) (now : ℤ) (job : Job) (s : StateStore)
    → s.stopping ≡ true
    → SameFrame s (fail failure now job s)
unfolding fail
fail_frame integrity_error now job s st = (refl, refl, refl, refl, refl)
fail_frame storage_full now job s st = (refl, refl, refl, refl, refl)
fail_frame transient now job s st = rw st (refl, refl, refl, refl, refl)

execute_frame :
    (job : Job) (s : StateStore)
    → SameFrame s (execute job s) × ((execute job s).retrying ≡ s.retrying)
unfolding execute
execute_frame job s = ground arith

pub attempt_frame :
    (answer : Answer) (now : ℤ) (job : Job) (s : StateStore)
    → s.stopping ≡ true
    → SameFrame s (attempt answer now job s)
unfolding attempt succeed
attempt_frame commits now job s st = (execute_frame job s).0
attempt_frame (fails_to_apply failure) now job s st = fail_frame failure now job s st
attempt_frame (fails_to_commit failure) now job s st =
    let e = (execute_frame job s).0 in
    let f = fail_frame failure now job (execute job s) (e.0 ∙ st) in
    (f.0 ∙ e.0, f.1 ∙ e.1, f.2 ∙ e.2, f.3 ∙ e.3, f.4 ∙ e.4)

-- A stopping store delays no job again.
abbrev pub Shrinks : ℤ → StateStore → StateStore → Type 0
Shrinks t s u = All (IsDue t) u.retrying × (length u.retrying ≤ length s.retrying)

length-select : {A : Type 0} (p : A → Bool) (xs : List A) → length (select p xs) ≤ length xs
length-select p [] = omega arith
length-select p (x ∷ xs) = ground (arith, length-select p xs)

module _ (t : ℤ) where
  fail-Shrinks :
      (failure : Failure) (now : ℤ) (job : Job) (s : StateStore)
      → s.stopping ≡ true
      → All (IsDue t) s.retrying
      → Shrinks t s (fail failure now job s)
  unfolding fail
  fail-Shrinks integrity_error now job s st h = (h, omega arith)
  fail-Shrinks storage_full now job s st h = (h, omega arith)
  fail-Shrinks transient now job s st h = rw st (h, omega arith)

  pub attempt-Shrinks :
      (answer : Answer) (now : ℤ) (job : Job) (s : StateStore)
      → s.stopping ≡ true
      → All (IsDue t) s.retrying
      → Shrinks t s (attempt answer now job s)
  unfolding attempt succeed
  attempt-Shrinks commits now job s st h = rw (execute_frame job s).1 (
    All-select (IsDue t) (λ r. not (is_retired job r)) s.retrying h,
    length-select (λ r. not (is_retired job r)) s.retrying,
  )
  attempt-Shrinks (fails_to_apply failure) now job s st h = fail-Shrinks failure now job s st h
  attempt-Shrinks (fails_to_commit failure) now job s st h =
      let same = execute_frame job s in
      let after : Shrinks t (execute job s) (fail failure now job (execute job s)) =
        fail-Shrinks failure now job (execute job s) (rw same.0.0 st) (rw same.1 h) in
      (after.0, omega (arith, after.1, ap (length {A = Job}) same.1))

  -- A store that only the writer works on, with everything due.
  pub record IsDraining (s : StateStore) : Type 0 where
    pub stopped : s.stopping ≡ true
    pub idle : s.writer_job ≡ none
    pub alive : s.writer_crashed ≡ false
    pub flushed : All (IsFlushed t) s.pending
    pub due : All (IsDue t) s.retrying
    pub answerable : IsAnswerable s

  pub IsDraining-attempt :
      (answer : Answer) (now : ℤ) (job : Job) (s : StateStore)
      → s.stopping ≡ true
      → s.writer_crashed ≡ false
      → All (IsFlushed t) s.pending
      → All (IsDue t) s.retrying
      → IsAttempting job s
      → IsDraining (attempt answer now job s)
  IsDraining-attempt answer now job s st alive flushed due h =
      let same = attempt_frame answer now job s st in
      record {
        stopped = rw same.0 st;
        idle = rw same.1 h.1;
        alive = same.2 ∙ alive;
        flushed = rw same.4 flushed;
        due = (attempt-Shrinks answer now job s st due).0;
        answerable = attempt-IsAnswerable answer now job s h;
      }

  -- A job is due when it was flushed by an earlier time.
  pub flushed_by : (j : Job) (now : ℤ) → IsFlushed t j → t ≤ℤ now → leb_ℤ j.flush_after now ≡ true
  flushed_by j now h late = ground (arith, h, late)

  pub due_by : (now : ℤ) (at : Option ℤ) → is_due t at ≡ true → t ≤ℤ now → is_due now at ≡ true
  due_by now none h late = cc
  due_by now (some x) h late = ground (arith, h, late)
