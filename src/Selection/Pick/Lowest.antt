-- ===== src/Selection/Pick/Lowest.antt =====
-- The draw returns an account whose score no other undercuts, and fails only on no weights.
use native.Mathlib.Nat.{le_of_mul-le-mul_right, mul-le-mul_right}
use claudex.Prelude.{
  sym, subst, ◌*◌, ◌≤◌, ◌<◌, ◌≡◌, ◌≢◌, inl, inr, refl, List, [], ◌∷◌, map, contains, Option, none,
  some, Bool, true, false, nat_beq_iff, All, In, All-In, arith, if◌then◌else◌, Bool-cases, ==_iff,
  ==_refl, string_eq, ◌==◌, ap,
}
use claudex.Dict.{Dict}
use claudex.Selection.Units.{AccountId}
use claudex.Selection.Weights.{Weight}
use claudex.Selection.Pick.{
  Bytes, Sampling, score, ltb_score, score_beq, lower_score, lowest_score, smallest_id,
  resolve_tie_break, tie_of, names_at, pick_weighted_hrw,
}

-- The order of fractions.
abbrev pub LeScore : Weight → Weight → Type 0
LeScore a b = a.num * b.den ≤ b.num * a.den

LeScore-trans : (a b c : Weight) → 0 < b.den → LeScore a b → LeScore b c → LeScore a c
LeScore-trans a b c pos p q =
    le_of_mul-le-mul_right (omega (arith, mul-le-mul_right c.den p, mul-le-mul_right a.den q)) pos

LeScore-refl : (a : Weight) → LeScore a a
LeScore-refl a = omega arith

lower_score-le : (a b : Weight) → LeScore (lower_score a b) a × LeScore (lower_score a b) b
lower_score-le a b = ground arith

lower_score-pos : (a b : Weight) → 0 < a.den → 0 < b.den → 0 < (lower_score a b).den
lower_score-pos a b p q = ground arith

abbrev IsPosScore : Weight × AccountId → Type 0
IsPosScore p = 0 < p.0.den

lowest_score-le :
    (s : Weight) (rest : List (Weight × AccountId))
    → 0 < s.den
    → All IsPosScore rest
    → (0 < (lowest_score s rest).den)
      × LeScore (lowest_score s rest) s
      × All (λ p. LeScore (lowest_score s rest) p.0) rest
unfolding lowest_score
lowest_score-le s [] pos h = (pos, LeScore-refl s, tt)
lowest_score-le s ((t, a) ∷ rest) pos h =
    let m = lower_score s t in
    let m_pos = lower_score-pos s t pos h.0 in
    let below = lower_score-le s t in
    let (l_pos, l_m, l_rest) = lowest_score-le m rest m_pos h.1 in
    let l = lowest_score m rest in
    (l_pos, LeScore-trans l m s m_pos l_m below.0, (LeScore-trans l m t m_pos l_m below.1, l_rest))

-- The lowest score is that of some account.
lowest_score-In :
    (s : Weight) (a : AccountId) (rest : List (Weight × AccountId))
    → (b : AccountId) × In (lowest_score s rest, b) ((s, a) ∷ rest)
unfolding lowest_score
lowest_score-In s a [] = (a, inl refl)
lowest_score-In s a ((t, b) ∷ rest) =
    widen (ltb_score t s) (lowest_score-In t b rest) (lowest_score-In s a rest)
  where
    widen :
        (c : Bool)
        → ((d : AccountId) × In (lowest_score t rest, d) ((t, b) ∷ rest))
        → ((d : AccountId) × In (lowest_score s rest, d) ((s, a) ∷ rest))
        → (d : AccountId) × In (lowest_score (if c then t else s) rest, d) ((s, a) ∷ (t, b) ∷ rest)
    widen true (d, i) _ = (d, inr i)
    widen false _ (d, inl e) = (d, inl e)
    widen false _ (d, inr i) = (d, inr (inr i))

names_at_sound :
    (l : Weight) (scored : List (Weight × AccountId)) (a : AccountId)
    → contains (names_at l scored) a ≡ true
    → (s : Weight) × In (s, a) scored × (score_beq s l ≡ true)
names_at_sound l [] a h = absurd (cc)
names_at_sound l ((s, b) ∷ rest) a h = elim (Bool-cases (score_beq s l)) [
  | inr other ↦ let (t, i, e) = names_at_sound l rest a (rw other at h) in (t, inr i, e)
  | inl tied ↦ elim (Bool-cases (b == a)) [
    | inl same ↦ (s, inl (ap (λ c. (s, c)) (sym ((==_iff b a).0 same))), tied)
    | inr differs ↦
        let (t, i, e) = names_at_sound l rest a (rw (tied, differs) at h) in (t, inr i, e)
  ]
]

score_beq-eq : (s l : Weight) → s ≡ l → score_beq s l ≡ true
score_beq-eq s l e = rw e ((nat_beq_iff _ _).1 refl)

names_at-some :
    (l : Weight) (scored : List (Weight × AccountId)) (a : AccountId)
    → In (l, a) scored
    → names_at l scored ≢ []
names_at-some l [] a i = absurd i
names_at-some l ((s, b) ∷ rest) a (inl e) =
    let tied : score_beq s l ≡ true =
      score_beq-eq s l (ap (λ (p : Weight × AccountId). p.0) (sym e)) in
    rw tied (λ q. cc)
names_at-some l ((s, b) ∷ rest) a (inr i) = ground (arith, names_at-some l rest a i)

smallest_id-mem :
    (a : AccountId) (more : List AccountId) → contains (a ∷ more) (smallest_id a more) ≡ true
unfolding smallest_id
smallest_id-mem a [] = rw (==_refl a)
smallest_id-mem a (b ∷ bs) = ground (arith, smallest_id-mem a bs, smallest_id-mem b bs)

tie_of-mem :
    (names : List AccountId) (serving : Option AccountId) (a : AccountId)
    → tie_of names serving ≡ some a
    → contains names a ≡ true
unfolding resolve_tie_break
tie_of-mem [] serving a h = cc
tie_of-mem (b ∷ []) serving a h = ground (arith, ==_iff b a)
tie_of-mem (b ∷ c ∷ more) none a h =
    subst (λ x. contains (b ∷ c ∷ more) x ≡ true) (cc) (smallest_id-mem b (c ∷ more))
tie_of-mem (b ∷ c ∷ more) (some s) a h = elim (Bool-cases (contains (b ∷ c ∷ more) s)) [
  | inl tied ↦ let e : s ≡ a = ground arith in subst (λ x. contains (b ∷ c ∷ more) x ≡ true) e tied
  | inr other ↦
      let e : smallest_id b (c ∷ more) ≡ a = ground arith in
      subst (λ x. contains (b ∷ c ∷ more) x ≡ true) e (smallest_id-mem b (c ∷ more))
]

tie_of-some :
    (names : List AccountId) (serving : Option AccountId)
    → names ≢ []
    → (a : AccountId) × (tie_of names serving ≡ some a)
tie_of-some [] serving h = absurd (h refl)
tie_of-some (a ∷ []) serving h = (a, refl)
tie_of-some (a ∷ b ∷ more) serving h = (resolve_tie_break a (b ∷ more) serving, refl)

le_of_tied : (s l : Weight) → score_beq s l ≡ true → LeScore s l
le_of_tied s l h = ground arith

module _ (sampling : Sampling) (seed digest : Bytes) where
  abbrev scored : Dict AccountId Weight → List (Weight × AccountId)
  scored weights = map (λ e. (score sampling seed digest e.0 e.1, e.0)) weights

  -- Something is drawn whenever there is a weight.
  pub pick_weighted_hrw-some :
      (weights : Dict AccountId Weight) (serving : Option AccountId)
      → weights ≢ []
      → (a : AccountId) × (pick_weighted_hrw sampling seed digest weights serving ≡ some a)
  unfolding pick_weighted_hrw
  pick_weighted_hrw-some [] serving h = absurd (h refl)
  pick_weighted_hrw-some ((n, w) ∷ rest) serving h =
      let s = score sampling seed digest n w in
      let (b, i) = lowest_score-In s n (scored rest) in
      tie_of-some _ serving
        (names_at-some (lowest_score s (scored rest)) ((s, n) ∷ scored rest) b i)

  In-scored :
      (weights : Dict AccountId Weight) (s : Weight) (a : AccountId)
      → In (s, a) (scored weights)
      → (w : Weight) × In (a, w) weights × (s ≡ score sampling seed digest a w)
  In-scored [] s a i = absurd i
  In-scored ((n, w) ∷ rest) s a (inl e) =
      let same : a ≡ n = ap (λ (p : Weight × AccountId). p.1) e in
      (
        w,
        inl (ap (λ (x : AccountId). (x, w)) same),
        rw same (ap (λ (p : Weight × AccountId). p.0) e),
      )
  In-scored ((n, w) ∷ rest) s a (inr i) = let (v, j, e) = In-scored rest s a i in (v, inr j, e)

  scored-In :
      (weights : Dict AccountId Weight) (b : AccountId) (v : Weight)
      → In (b, v) weights
      → In (score sampling seed digest b v, b) (scored weights)
  scored-In [] b v i = absurd i
  scored-In (x ∷ rest) b v (inl e) =
      inl (ap (λ (p : AccountId × Weight). (score sampling seed digest p.0 p.1, p.0)) e)
  scored-In (x ∷ rest) b v (inr i) = inr (scored-In rest b v i)

  scored-pos :
      (weights : Dict AccountId Weight)
      → All (λ e. 0 < e.1.num) weights
      → All IsPosScore (scored weights)
  unfolding score
  scored-pos [] h = tt
  scored-pos (e ∷ rest) h = (h.0, scored-pos rest h.1)

  -- With positive weights, the account that is drawn is one of them, and no other account's score
  -- -ln(u) / W is lower.
  pub pick_weighted_hrw_lowest :
      (weights : Dict AccountId Weight) (serving : Option AccountId) (a : AccountId)
      → All (λ e. 0 < e.1.num) weights
      → pick_weighted_hrw sampling seed digest weights serving ≡ some a
      → (w : Weight) × In (a, w) weights
        × ((b : AccountId) (v : Weight)
            → In (b, v) weights
            → LeScore (score sampling seed digest a w) (score sampling seed digest b v))
  unfolding pick_weighted_hrw
  pick_weighted_hrw_lowest [] serving a pos h = absurd (cc)
  pick_weighted_hrw_lowest ((n, u) ∷ rest) serving a pos h =
      let s = score sampling seed digest n u in
      let l = lowest_score s (scored rest) in
      let mem = tie_of-mem (names_at l ((s, n) ∷ scored rest)) serving a h in
      let (t, i, tied) = names_at_sound l ((s, n) ∷ scored rest) a mem in
      let (w, j, e) = In-scored ((n, u) ∷ rest) t a i in
      let all = scored-pos ((n, u) ∷ rest) pos in
      let (l_pos, l_s, l_rest) = lowest_score-le s (scored rest) all.0 all.1 in
      let near : LeScore t l = le_of_tied t l tied in
      (
        w,
        j,
        λ b v k.
            subst (λ x. LeScore x (score sampling seed digest b v)) e
              (LeScore-trans t l (score sampling seed digest b v) l_pos near (
                All-In (λ p. LeScore l p.0) ((s, n) ∷ scored rest)
                  (score sampling seed digest b v, b) (l_s, l_rest)
                  (scored-In ((n, u) ∷ rest) b v k))),
      )
