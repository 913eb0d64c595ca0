-- ===== src/Selection/Weights/Positive.antt =====
-- Which accounts may be drawn, and that every weight is positive.
use claudex.Prelude.{
  ℕ, zero, suc, ◌≤◌, ◌*◌, ◌<◌, ◌≡◌, refl, List, [], ◌∷◌, Option, none, some, Bool, true, false,
  ◌==◌, ==_iff, string_eq, ==_refl, ltb, any, contains, arith, if◌then◌else◌, Bool-cases, inl, inr,
  ap, ◌∙◌, subst,
}
use claudex.Dict.{Dict, get, put, Unique}
use claudex.Dict.Laws.{get-put, put-Unique}
use claudex.Selection.Units.{AccountId}
use claudex.Selection.Weights.{
  Weight, tabulate, tabulate_from, positive_part, or_emergency, ordinary_weight, emergency_of,
  select_weights, emergency_weight, emergency_capacity,
}

module _ {ℓ} {V : Type ℓ} where
  get-tabulate_from :
      (j : AccountId) (f : AccountId → V) (names : List AccountId) (d : Dict AccountId V)
      → get j (tabulate_from d f names) ≡ (if contains names j then some (f j) else get j d)
  unfolding tabulate_from
  get-tabulate_from j f [] d = refl
  get-tabulate_from j f (a ∷ names) d = elim (Bool-cases (a == j)) [
    | inl same ↦
        let e : f a ≡ f j = ap f ((==_iff a j).0 same) in
        ground (arith, get-tabulate_from j f names (put a (f a) d), get-put j a (f a) d)
    | inr other ↦ ground (arith, get-tabulate_from j f names (put a (f a) d), get-put j a (f a) d)
  ]

  tabulate_from-Unique :
      (f : AccountId → V) (names : List AccountId) (d : Dict AccountId V)
      → Unique d
      → Unique (tabulate_from d f names)
  unfolding tabulate_from
  tabulate_from-Unique f [] d u = u
  tabulate_from-Unique f (a ∷ names) d u = tabulate_from-Unique f names _ (put-Unique a (f a) d u)

abbrev as_positive : Option ℕ → Option Weight
as_positive none = none
as_positive (some w) = if ltb 0 w then some (record { num = w; den = 1 }) else none

get-positive_part :
    (j : AccountId) (d : Dict AccountId ℕ)
    → Unique d
    → get j (positive_part d) ≡ as_positive (get j d)
unfolding get positive_part
get-positive_part j [] u = refl
get-positive_part j ((i, w) ∷ d) u = elim (Bool-cases (i == j)) [
  | inl same ↦
      let gone : get j d ≡ none = subst (λ x. get x d ≡ none) ((==_iff i j).0 same) u.0 in
      ground (arith, get-positive_part j d u.1)
  | inr other ↦ ground (arith, get-positive_part j d u.1)
]

pub any-contains :
    (p : AccountId → Bool) (a : AccountId) (names : List AccountId)
    → contains names a ≡ true
    → p a ≡ true
    → any p names ≡ true
any-contains p a [] c h = cc
any-contains p a (b ∷ bs) c h = elim (Bool-cases (b == a)) [
  | inl same ↦ let e : p b ≡ p a = ap p ((==_iff b a).0 same) in ground arith
  | inr other ↦ ground (arith, any-contains p a bs)
]

pub any_witness :
    (p : AccountId → Bool) (names : List AccountId)
    → any p names ≡ true
    → (a : AccountId) × (contains names a ≡ true) × (p a ≡ true)
any_witness p [] h = absurd (cc)
any_witness p (b ∷ bs) h = elim (Bool-cases (p b)) [
  | inl yes_b ↦ (b, ground (arith, ==_refl b), yes_b)
  | inr not_b ↦ let (a, c, q) = any_witness p bs (ground arith) in (a, ground arith, q)
]

-- The capacity never falls under one point.
emergency_capacity-ge : (p f : ℕ) → 200 ≤ emergency_capacity p f
unfolding emergency_capacity
emergency_capacity-ge p f = omega arith

square_pos : (c : ℕ) → 200 ≤ c → 0 < c * c
square_pos zero h = absurd (omega arith)
square_pos (suc c) h = omega arith

module _ (pressures factors in_flight : AccountId → ℕ) where
  abbrev ordinary : AccountId → ℕ
  ordinary = ordinary_weight pressures factors in_flight

  abbrev emergency : AccountId → Weight
  emergency = emergency_of pressures factors in_flight

  abbrev pub is_positive : AccountId → Bool
  is_positive a = ltb 0 (ordinary a)

  abbrev positives : List AccountId → Dict AccountId Weight
  positives ids = positive_part (tabulate ordinary ids)

  get-positives :
      (ids : List AccountId) (a : AccountId)
      → get a (positives ids) ≡ (if contains ids a then as_positive (some (ordinary a)) else none)
  get-positives ids a =
      let u = tabulate_from-Unique ordinary ids [] tt in
      get-positive_part a (tabulate ordinary ids) u
      ∙ (ap as_positive (get-tabulate_from a ordinary ids []) ∙ push (contains ids a))
    where
      push :
          (b : Bool)
          → as_positive (if b then some (ordinary a) else get a [])
            ≡ (if b then as_positive (some (ordinary a)) else none)
      push true = refl
      push false = unfold get in refl

  any_of_some :
      (ids : List AccountId) (b : AccountId) (w : Weight)
      → get b (positives ids) ≡ some w
      → any is_positive ids ≡ true
  any_of_some ids b w h = elim (Bool-cases (contains ids b)) [
    | inl c ↦ any-contains is_positive b ids c (ground (arith, get-positives ids b))
    | inr c ↦ absurd (ground (arith, get-positives ids b))
  ]

  any_of_none : (ids : List AccountId) → positives ids ≡ [] → any is_positive ids ≡ false
  any_of_none ids e = elim (Bool-cases (any is_positive ids)) [
    | inr no_one ↦ no_one
    | inl some_one ↦
        let (b, c, q) = any_witness is_positive ids some_one in
        let gone : get b (positives ids) ≡ none = rw e (unfold get in refl) in
        absurd (ground (arith, get-positives ids b))
  ]

  choose :
      (ids : List AccountId) (a : AccountId) (chosen : Dict AccountId Weight)
      → positives ids ≡ chosen
      → get a (or_emergency chosen (tabulate emergency ids)) ≡ (
          if contains ids a
          then (if any is_positive ids then as_positive (some (ordinary a)) else some (emergency a))
          else none)
  unfolding get
  choose ids a [] e = ground (arith, any_of_none ids e, get-tabulate_from a emergency ids [])
  choose ids a ((b, w) ∷ d) e =
      let here : get b (positives ids) ≡ some w = rw e (rw (==_refl b)) in
      let some_one = any_of_some ids b w here in
      rw some_one (
        subst (λ x. get a x ≡ (if contains ids a then as_positive (some (ordinary a)) else none)) e
          (get-positives ids a))

  -- The complete rule: a candidate is drawn with its ordinary weight if that is positive, with its
  -- emergency weight if no candidate's is, and otherwise not at all.
  pub get-select_weights :
      (ids : List AccountId) (a : AccountId)
      → get a (select_weights pressures factors in_flight ids) ≡ (
          if contains ids a
          then (if any is_positive ids then as_positive (some (ordinary a)) else some (emergency a))
          else none)
  unfolding select_weights
  get-select_weights ids a = choose ids a (positives ids) refl

  pub emergency_pos : (a : AccountId) → (0 < (emergency a).num) × (0 < (emergency a).den)
  unfolding emergency_weight
  emergency_pos a =
      let c = emergency_capacity-ge (pressures a) (factors a) in (square_pos _ c, omega arith)

  -- Every weight that is drawn from is a positive fraction, so that no score divides by zero.
  pub select_weights_pos :
      (ids : List AccountId) (a : AccountId) (w : Weight)
      → get a (select_weights pressures factors in_flight ids) ≡ some w
      → (0 < w.num) × (0 < w.den)
  select_weights_pos ids a w h = ground (arith, get-select_weights ids a, emergency_pos a)

  -- Some account can be drawn whenever there is a candidate, however busy and exhausted all of
  -- them are.
  pub select_weights-some :
      (ids : List AccountId) (a : AccountId)
      → contains ids a ≡ true
      → (b : AccountId) × (w : Weight) × (get b (select_weights pressures factors in_flight ids)
          ≡ some w)
  select_weights-some ids a c = elim (Bool-cases (any is_positive ids)) [
    | inl some_one ↦
        let (b, cb, q) = any_witness is_positive ids some_one in
        (b, record { num = ordinary b; den = 1 }, ground (arith, get-select_weights ids b))
    | inr no_one ↦ (a, emergency a, ground (arith, get-select_weights ids a))
  ]
