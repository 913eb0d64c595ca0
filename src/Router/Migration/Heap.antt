-- ===== src/Router/Migration/Heap.antt =====
-- The map of reservations against the heap of their objects: an object that is not resolved is the
-- one that the map holds for its session, and its event is set exactly when its outcome is final.
use claudex.Prelude.{
  ℕ, ◌≡◌, ◌≢◌, List, [], ◌∷◌, ◌++◌, none, some, true, false, not, ◌==◌, ==_iff, ==_refl, string_eq,
  list_eq, nat_eq, if◌then◌else◌, arith, some_inj, ◌∙◌, ◌⊎◌, ◌<◌, subst, sym, Bool-cases, inl, inr,
  length, get_elem?, set, get_elem?-lt, get_elem?-append_left, get_elem?-append_last,
  get_elem?-append_cases, get_elem?-set_self, get_elem?-set_ne,
}
use native.Mathlib.Decide.{ℕ_discrete}
use claudex.Dict.{get, put, pop}
use claudex.Dict.Laws.{get-put, get-pop, ==-ne}
use claudex.Selection.Pick.{Bytes}
use claudex.Router.State.{MigrationReservation, pending, outcome_beq, outcome_eq}

-- Over the map of reservations and the heap of their objects.
pub record NoLostWaiter (held : List (Bytes × ℕ)) (heap : List MigrationReservation) : Type 0 where
  pub held_pending :
      (d : Bytes) (i : ℕ)
      → get d held ≡ some i
      → (v : MigrationReservation) × (get_elem? heap i ≡ some v) × (v.outcome ≡ pending)
  pub held_once : (d d' : Bytes) (i : ℕ) → get d held ≡ some i → get d' held ≡ some i → d ≡ d'
  pub pending_held :
      (i : ℕ) (v : MigrationReservation)
      → get_elem? heap i ≡ some v
      → v.outcome ≡ pending
      → (d : Bytes) × (get d held ≡ some i)
  pub signalled :
      (i : ℕ) (v : MigrationReservation)
      → get_elem? heap i ≡ some v
      → v.resolved ≡ not (outcome_beq v.outcome pending)

module _ {held : List (Bytes × ℕ)} {heap : List MigrationReservation} (n : NoLostWaiter held heap)
    (k : Bytes) where
  -- A new pending object for a session that holds none.
  pub created-NoLostWaiter :
      (v : MigrationReservation)
      → v.outcome ≡ pending
      → v.resolved ≡ false
      → get k held ≡ none
      → NoLostWaiter (put k (length heap) held) (heap ++ v ∷ [])
  created-NoLostWaiter v p s free = record {
    held_pending = λ d i h. pending_of d i (Bool-cases (k == d)) h;
    held_once = λ d d' i h h'. once d d' i (Bool-cases (k == d)) (Bool-cases (k == d')) h h';
    pending_held = λ i w h p'. holder i w p' (get_elem?-append_cases heap v i h);
    signalled = λ i w h. signal i w (get_elem?-append_cases heap v i h);
  }
    where
      old : (d : Bytes) (i : ℕ) → get d held ≡ some i → i < length heap
      old d i h = get_elem?-lt heap i (n.held_pending d i h).1

      read :
          (d : Bytes)
          → get d (put k (length heap) held) ≡ (if k == d then some (length heap) else get d held)
      read d = get-put d k (length heap) held

      pending_of :
          (d : Bytes) (i : ℕ)
          → ((k == d) ≡ true) ⊎ ((k == d) ≡ false)
          → get d (put k (length heap) held) ≡ some i
          → (w : MigrationReservation) × (get_elem? (heap ++ v ∷ []) i ≡ some w)
            × (w.outcome ≡ pending)
      pending_of d i (inl same) h =
          let e : i ≡ length heap = ground (arith, read d) in
          (v, rw e (get_elem?-append_last heap v), p)
      pending_of d i (inr other) h =
          let (w, there, q) = n.held_pending d i (ground (arith, read d)) in
          (w, get_elem?-append_left heap (v ∷ []) i there, q)

      once :
          (d d' : Bytes) (i : ℕ)
          → ((k == d) ≡ true) ⊎ ((k == d) ≡ false)
          → ((k == d') ≡ true) ⊎ ((k == d') ≡ false)
          → get d (put k (length heap) held) ≡ some i
          → get d' (put k (length heap) held) ≡ some i
          → d ≡ d'
      once d d' i (inl a) (inl b) h h' = sym ((==_iff k d).0 a) ∙ (==_iff k d').0 b
      once d d' i (inl a) (inr b) h h' =
          let e : i ≡ length heap = ground (arith, read d) in
          absurd (omega (arith, old d' i (ground (arith, read d'))))
      once d d' i (inr a) (inl b) h h' =
          let e : i ≡ length heap = ground (arith, read d') in
          absurd (omega (arith, old d i (ground (arith, read d))))
      once d d' i (inr a) (inr b) h h' =
          n.held_once d d' i (ground (arith, read d)) (ground (arith, read d'))

      holder :
          (i : ℕ) (w : MigrationReservation)
          → w.outcome ≡ pending
          → ((get_elem? heap i ≡ some w) ⊎ ((i ≡ length heap) × (v ≡ w)))
          → (d : Bytes) × (get d (put k (length heap) held) ≡ some i)
      holder i w p' (inl there) =
          let (d, h) = n.pending_held i w there p' in
          let apart : (k == d) ≡ false =
            ==-ne k d (λ e. let h' = subst (λ x. get x held ≡ some i) (sym e) h in cc) in
          (d, ground (arith, read d))
      holder i w p' (inr (e, f)) = (k, ground (arith, read k, ==_refl k))

      signal :
          (i : ℕ) (w : MigrationReservation)
          → ((get_elem? heap i ≡ some w) ⊎ ((i ≡ length heap) × (v ≡ w)))
          → w.resolved ≡ not (outcome_beq w.outcome pending)
      signal i w (inl there) = n.signalled i w there
      signal i w (inr (e, f)) =
          subst (λ x. x.resolved ≡ not (outcome_beq x.outcome pending)) f (rw (s, p))

  -- The object that a session holds becomes final, and the session holds none.
  pub settled-NoLostWaiter :
      (i : ℕ) (v w : MigrationReservation)
      → get k held ≡ some i
      → get_elem? heap i ≡ some v
      → outcome_beq w.outcome pending ≡ false
      → w.resolved ≡ true
      → NoLostWaiter (pop k held) (set heap i w)
  settled-NoLostWaiter i v w h there final s = record {
    held_pending = λ d j g.
        let apart = other_key d j g in
        let (x, e, q) = n.held_pending d j apart.1 in
        (
          x,
          get_elem?-set_ne heap i j w (λ same. apart.0 (n.held_once k d j (rw (← same) h) apart.1))
              ∙ e,
          q,
        );
    held_once = λ d d' j g g'. n.held_once d d' j (other_key d j g).1 (other_key d' j g').1;
    pending_held = λ j x e q. holder j x q e (ℕ_discrete i j);
    signalled = λ j x e. signal j x e (ℕ_discrete i j);
  }
    where
      read : (d : Bytes) → get d (pop k held) ≡ (if k == d then none else get d held)
      read d = get-pop d k held

      other_key :
          (d : Bytes) (j : ℕ) → get d (pop k held) ≡ some j → (k ≢ d) × (get d held ≡ some j)
      other_key d j g = elim (Bool-cases (k == d)) [
        | inl same ↦ absurd (ground (arith, read d))
        | inr other ↦ (λ e. ground (arith, ==_iff k d), ground (arith, read d))
      ]

      holder :
          (j : ℕ) (x : MigrationReservation)
          → x.outcome ≡ pending
          → get_elem? (set heap i w) j ≡ some x
          → Dec (i ≡ j)
          → (d : Bytes) × (get d (pop k held) ≡ some j)
      holder j x q e (yes same) =
          let e' : w ≡ x = some_inj (
            sym (get_elem?-set_self heap i w there)
            ∙ subst (λ t. get_elem? (set heap i w) t ≡ some x) (sym same) e) in
          absurd (ground arith)
      holder j x q e (no other) =
          let (d, g) = n.pending_held j x (sym (get_elem?-set_ne heap i j w other) ∙ e) q in
          let apart : (k == d) ≡ false =
            ==-ne k d
              (λ same. other (some_inj (sym h ∙ subst (λ t. get t held ≡ some j) (sym same) g))) in
          (d, ground (arith, read d))

      signal :
          (j : ℕ) (x : MigrationReservation)
          → get_elem? (set heap i w) j ≡ some x
          → Dec (i ≡ j)
          → x.resolved ≡ not (outcome_beq x.outcome pending)
      signal j x e (yes same) =
          let e' : w ≡ x = some_inj (
            sym (get_elem?-set_self heap i w there)
            ∙ subst (λ t. get_elem? (set heap i w) t ≡ some x) (sym same) e) in
          subst (λ t. t.resolved ≡ not (outcome_beq t.outcome pending)) e' (rw (s, final))
      signal j x e (no other) = n.signalled j x (sym (get_elem?-set_ne heap i j w other) ∙ e)
