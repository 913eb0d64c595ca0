-- ===== src/Dict/Laws.antt =====
-- The laws of the dictionary operations.
use claudex.Prelude.{
  suc, ◌+◌, ◌≡◌, ◌≢◌, refl, List, [], ◌∷◌, none, some, Bool, false, Eq, ◌==◌, ==_iff, ==_refl,
  contains, if◌then◌else◌, arith, Bool-cases, inl, inr, ap, is_some, subst, bit,
}
use claudex.Dict.{Dict, size, get, put, pop, pop_all, keys_where, count_where, holds, Unique}

module _ {ℓ} {K : Type ℓ} ⦃e : Eq K⦄ where
  pub ==-ne : (j k : K) → j ≢ k → (j == k) ≡ false
  ==-ne j k h = elim (Bool-cases (j == k)) [ inl p ↦ absurd (h ((==_iff j k).0 p)) | inr p ↦ p ]

module _ {ℓ κ} {K : Type ℓ} {V : Type κ} ⦃e : Eq K⦄ where
  pub get-put :
      (j k : K) (v : V) (d : Dict K V) → get j (put k v d) ≡ (if k == j then some v else get j d)
  unfolding get put
  get-put j k v [] = refl
  get-put j k v ((i, w) ∷ d) = ground (arith, ==_iff k j, ==_iff i k, ==_iff i j, get-put j k v d)

  pub get-pop : (j k : K) (d : Dict K V) → get j (pop k d) ≡ (if k == j then none else get j d)
  unfolding get pop
  get-pop j k [] = ground arith
  get-pop j k ((i, w) ∷ d) = ground (arith, ==_iff k j, ==_iff i k, ==_iff i j, get-pop j k d)

  pub get-put_self : (k : K) (v : V) (d : Dict K V) → get k (put k v d) ≡ some v
  get-put_self k v d = ground (arith, get-put k k v d, ==_refl k)

  pub get-pop_self : (k : K) (d : Dict K V) → get k (pop k d) ≡ none
  get-pop_self k d = ground (arith, get-pop k k d, ==_refl k)

  pub get-pop_all :
      (j : K) (ks : List K) (d : Dict K V)
      → get j (pop_all ks d) ≡ (if contains ks j then none else get j d)
  unfolding pop_all
  get-pop_all j [] d = refl
  get-pop_all j (k ∷ ks) d = ground (arith, get-pop_all j ks (pop k d), get-pop j k d)

  pub put-Unique : (k : K) (v : V) (d : Dict K V) → Unique d → Unique (put k v d)
  unfolding get put
  put-Unique k v [] h = (refl, tt)
  put-Unique k v ((i, w) ∷ d) h =
      ground (arith, put-Unique k v d h.1, get-put i k v d, ==_iff i k, ==_iff k i)

  pub pop-Unique : (k : K) (d : Dict K V) → Unique d → Unique (pop k d)
  unfolding get pop
  pop-Unique k [] h = tt
  pop-Unique k ((i, w) ∷ d) h = ground (arith, pop-Unique k d h.1, get-pop i k d)

  pub pop_all-Unique : (ks : List K) (d : Dict K V) → Unique d → Unique (pop_all ks d)
  unfolding pop_all
  pop_all-Unique [] d h = h
  pop_all-Unique (k ∷ ks) d h = pop_all-Unique ks (pop k d) (pop-Unique k d h)

  pub pop_absent : (k : K) (d : Dict K V) → get k d ≡ none → pop k d ≡ d
  unfolding get pop
  pop_absent k [] h = refl
  pop_absent k ((i, w) ∷ d) h = ground (arith, pop_absent k d)

  pub size-pop :
      (k : K) (d : Dict K V) {v : V} → Unique d → get k d ≡ some v → size (pop k d) + 1 ≡ size d
  unfolding get pop
  size-pop k [] u h = cc
  size-pop k ((i, w) ∷ d) {v} u h = elim (Bool-cases (i == k)) [
    | inl p ↦
        rw p
          (omega (arith, ap (size {K = K} {V = V}) (pop_absent k d (rw ((==_iff i k).0 p) at u.0))))
    | inr p ↦ rw p (omega (arith, size-pop k d {v = v} u.1 (ground arith)))
  ]

  pub size-put :
      (k : K) (v : V) (d : Dict K V)
      → size (put k v d) ≡ (if is_some (get k d) then size d else suc (size d))
  unfolding get put
  size-put k v [] = refl
  size-put k v ((i, w) ∷ d) = ground (arith, size-put k v d)

  pub contains-keys_where :
      (p : K → V → Bool) (j : K) (d : Dict K V)
      → Unique d
      → contains (keys_where p d) j ≡ holds p j (get j d)
  unfolding get keys_where
  contains-keys_where p j [] u = refl
  contains-keys_where p j ((i, w) ∷ d) u = elim (Bool-cases (i == j)) [
    | inl same ↦
        let e : i ≡ j = (==_iff i j).0 same in
        let none_j : get j d ≡ none = subst (λ x. get x d ≡ none) e u.0 in
        let q : p i w ≡ p j w = ap (λ x. p x w) e in ground (arith, contains-keys_where p j d u.1)
    | inr other ↦ ground (arith, contains-keys_where p j d u.1)
  ]

  pub count-put :
      (p : K → V → Bool) (k : K) (v : V) (d : Dict K V)
      → count_where p (put k v d) + bit (holds p k (get k d)) ≡ count_where p d + bit (p k v)
  unfolding get put count_where
  count-put p k v [] = omega arith
  count-put p k v ((i, w) ∷ d) = elim (Bool-cases (i == k)) [
    | inl same ↦
        let e : i ≡ k = (==_iff i k).0 same in
        let q : p i w ≡ p k w = ap (λ x. p x w) e in
        let q' : p i v ≡ p k v = ap (λ x. p x v) e in ground arith
    | inr other ↦ ground (arith, count-put p k v d)
  ]

  count_absent :
      (p : K → V → Bool) (k : K) (d : Dict K V) → get k d ≡ none → holds p k (get k d) ≡ false
  count_absent p k d h = rw h

  pub count-pop :
      (p : K → V → Bool) (k : K) (d : Dict K V)
      → Unique d
      → count_where p (pop k d) + bit (holds p k (get k d)) ≡ count_where p d
  unfolding get pop count_where
  count-pop p k [] u = omega arith
  count-pop p k ((i, w) ∷ d) u = elim (Bool-cases (i == k)) [
    | inl same ↦
        let e : i ≡ k = (==_iff i k).0 same in
        let gone : pop k d ≡ d = pop_absent k d (subst (λ x. get x d ≡ none) e u.0) in
        let q : p i w ≡ p k w = ap (λ x. p x w) e in rw (same, gone) (ground arith)
    | inr other ↦ ground (arith, count-pop p k d u.1)
  ]
