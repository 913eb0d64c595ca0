-- ===== src/StateStore/Steps/Held.antt =====
-- How the handles of the jobs are counted.
use claudex.Prelude.{
  ℕ, ◌+◌, ◌≤◌, ◌≡◌, refl, ap, List, [], ◌∷◌, ◌++◌, Option, none, some, Bool, true, false, not, ◌&&◌,
  ◌==◌, nat_eq, bit, is_some, map, select, leb, ltb, arith,
}
use claudex.Prelude.Int.{ℤ}
use claudex.Dict.{Dict, get, put}
use claudex.Dict.Laws.{get-put}
use claudex.StateStore.Queue.{
  Job, StateStore, Request, Failure, enqueue, new_job, coalesce, hurry, hurry_if,
}
use claudex.StateStore.Writer.{mark_done, handles, due_at}
use claudex.StateStore.Steps.Taken.{Splits}

abbrev pub count : ℕ → List ℕ → ℕ
count n [] = 0
count n (m ∷ ms) = count n ms + bit (m == n)

abbrev pub job_handles : Option Job → List ℕ
job_handles none = []
job_handles (some job) = job.pending_writes

-- How often a handle is held by a job that waits, that waits for its retry, or that is attempted.
abbrev pub held : ℕ → StateStore → ℕ
held n s =
    count n (handles s.pending) + count n (handles s.retrying) + count n (job_handles s.writer_job)

abbrev pub is_settled : ℕ → StateStore → Bool
is_settled n s = is_some (get n s.settled)

abbrev pub is_issued : ℕ → StateStore → Bool
is_issued n s = leb 1 n && ltb n s.next_sequence

-- A handle that was given out is held once or is settled; another is neither.
abbrev pub IsAnswerable : StateStore → Type 0
IsAnswerable s =
    (1 ≤ s.next_sequence) × ((n : ℕ) → held n s + bit (is_settled n s) ≡ bit (is_issued n s))

pub count-append : (n : ℕ) (xs ys : List ℕ) → count n (xs ++ ys) ≡ count n xs + count n ys
count-append n [] ys = omega arith
count-append n (x ∷ xs) ys = omega (arith, count-append n xs ys)

pub handles-append :
    (xs ys : List Job) (n : ℕ)
    → count n (handles (xs ++ ys)) ≡ count n (handles xs) + count n (handles ys)
unfolding handles
handles-append [] ys n = omega arith
handles-append (x ∷ xs) ys n =
    rw
      (
        count-append n x.pending_writes (handles (xs ++ ys)),
        count-append n x.pending_writes (handles xs),
      )
      (omega (arith, handles-append xs ys n))

pub handles-enqueue :
    (q : Request) (m : ℕ) (now debounce : ℤ) (jobs : List Job) (n : ℕ)
    → count n (handles (enqueue q m now debounce jobs)) ≡ count n (handles jobs) + bit (m == n)
unfolding handles enqueue new_job coalesce
handles-enqueue q m now debounce [] n = omega arith
handles-enqueue q m now debounce (j ∷ js) n = ground (
  arith,
  handles-enqueue q m now debounce js n,
  count-append n j.pending_writes (handles js),
  count-append n (j.pending_writes ++ m ∷ []) (handles js),
  count-append n j.pending_writes (m ∷ []),
  count-append n j.pending_writes (handles (enqueue q m now debounce js)),
)

pub handles-hurry : (now : ℤ) (jobs : List Job) → handles (map (hurry now) jobs) ≡ handles jobs
unfolding handles hurry
handles-hurry now [] = refl
handles-hurry now (j ∷ js) = ap (λ hs. j.pending_writes ++ hs) (handles-hurry now js)

pub handles-hurry_if :
    (high : Bool) (now : ℤ) (jobs : List Job) → handles (hurry_if high now jobs) ≡ handles jobs
handles-hurry_if true now jobs = handles-hurry now jobs
handles-hurry_if false now jobs = refl

pub handles-due_at : (now : ℤ) (jobs : List Job) → handles (map (due_at now) jobs) ≡ handles jobs
unfolding handles
handles-due_at now [] = refl
handles-due_at now (j ∷ js) = ap (λ hs. j.pending_writes ++ hs) (handles-due_at now js)

pub handles-select :
    (p : Job → Bool) (jobs : List Job) (n : ℕ)
    → count n (handles (select (λ j. not (p j)) jobs)) + count n (handles (select p jobs))
      ≡ count n (handles jobs)
unfolding handles
handles-select p [] n = omega arith
handles-select p (j ∷ js) n = ground (
  arith,
  handles-select p js n,
  count-append n j.pending_writes (handles js),
  count-append n j.pending_writes (handles (select p js)),
  count-append n j.pending_writes (handles (select (λ j. not (p j)) js)),
)

pub settled-mark_done :
    (ns : List ℕ) (error : Option Failure) (settled : Dict ℕ (Option Failure)) (n : ℕ)
    → count n ns + bit (is_some (get n settled)) ≤ 1
    → bit (is_some (get n (mark_done ns error settled)))
      ≡ count n ns + bit (is_some (get n settled))
unfolding mark_done
settled-mark_done [] error settled n h = omega arith
settled-mark_done (m ∷ ms) error settled n h =
    ground (arith, settled-mark_done ms error (put m error settled) n, get-put n m error settled)

pub handles-Splits :
    {jobs rest : List Job} {job : Job} (n : ℕ)
    → Splits jobs rest job
    → count n (handles jobs) ≡ count n job.pending_writes + count n (handles rest)
unfolding handles
handles-Splits {jobs} {rest} {job} n sp =
    rw
      (
        sp.whole,
        sp.others,
        handles-append sp.before (job ∷ sp.after) n,
        handles-append sp.before sp.after n,
        count-append n job.pending_writes (handles sp.after),
      )
      (omega arith)

pub handles-head :
    {jobs : List Job} (job : Job) (js : List Job) (n : ℕ)
    → jobs ≡ job ∷ js
    → count n (handles jobs) ≡ count n job.pending_writes + count n (handles js)
unfolding handles
handles-head job js n e = rw e (count-append n job.pending_writes (handles js))
