-- ===== src/StateStore/Steps/Fencing.antt =====
-- Every job that writes a row of an incarnation waits on the barrier of its deletion.
use claudex.Prelude.{◌≡◌, String, string_eq, List, [], ◌∷◌, true, contains, arith}
use claudex.StateStore.Keys.{Barrier, barrier_eq, incarnation_barrier}
use claudex.StateStore.Tables.Rows.{writes}
use claudex.StateStore.Queue.{Job, StateStore, new_job, coalesce, hurry, or_fence}
use claudex.StateStore.Steps.Jobs.{Every, Kept, Step-Every}
use claudex.StateStore.Steps.{
  Operation, request_of, Run, Run_keeps, Anything, rotate_epoch, invalidate_epoch_pins, upsert_pin,
  touch_pin_last_seen, delete_pin, upsert_cooldown, delete_cooldown, upsert_usage_observation,
  delete_usage_observation, upsert_capability_evidence, delete_capability_evidence,
  delete_all_for_incarnation, restore,
}

-- A job that writes a row of the incarnation waits on its barrier.
abbrev pub IsGuarded : String → Job → Type 0
IsGuarded i j = writes i j.payload ≡ true → contains j.fence (incarnation_barrier i) ≡ true

request_guarded :
    (i : String) (op : Operation)
    → writes i (request_of op).payload ≡ true
    → contains (request_of op).fence (incarnation_barrier i) ≡ true
request_guarded i (upsert_pin row high) h = ground (arith, h)
request_guarded i (upsert_cooldown row high) h = ground (arith, h)
request_guarded i (upsert_usage_observation row high) h = ground (arith, h)
request_guarded i (upsert_capability_evidence row high) h = ground (arith, h)
request_guarded i (rotate_epoch id seed) h = cc
request_guarded i invalidate_epoch_pins h = cc
request_guarded i (touch_pin_last_seen digest seen expires) h = cc
request_guarded i (delete_pin digest high) h = cc
request_guarded i (delete_cooldown key high) h = cc
request_guarded i (delete_usage_observation key high) h = cc
request_guarded i (delete_capability_evidence key high) h = cc
request_guarded i (delete_all_for_incarnation j) h = cc
request_guarded i (restore now_utc) h = cc

contains-or_fence :
    (new old : List Barrier) (b : Barrier)
    → contains new b ≡ true
    → contains (or_fence new old) b ≡ true
contains-or_fence [] old b h = cc
contains-or_fence (k ∷ ks) old b h = h

IsGuarded-kept : (i : String) → Kept Anything (λ n. Unit) (λ n. IsGuarded i)
unfolding hurry new_job coalesce
IsGuarded-kept i = record {
  bound_grows = λ n g. tt;
  grows = λ n j h. h;
  hurried = λ n now j h. h;
  made_due = λ n now j h. h;
  put_off = λ n wait now j h. h;
  counted = λ n j h. h;
  fresh = λ op allowed n now debounce g w. request_guarded i op w;
  merged = λ op allowed n j g h w.
      contains-or_fence (request_of op).fence j.fence _ (request_guarded i op w);
}

-- If every job that writes a row of an incarnation has that incarnation's barrier in its fence, this
-- is still so after any run.
pub Run-IsGuarded :
    (i : String) {s t : StateStore}
    → Every (λ n. Unit) (λ n. IsGuarded i) s
    → Run Anything s t
    → Every (λ n. Unit) (λ n. IsGuarded i) t
Run-IsGuarded i h r =
    Run_keeps (Every (λ n. Unit) (λ n. IsGuarded i))
      (Step-Every (λ n. Unit) (λ n. IsGuarded i) (IsGuarded-kept i)) r h
