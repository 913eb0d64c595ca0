-- ===== src/Selection/Family/Tokens.antt =====
-- The token search finds exactly the occurrences that are bounded on both sides.
use claudex.Prelude.{
  ℕ, zero, suc, ◌+◌, ◌≤◌, ◌<◌, ◌≡◌, ◌↔◌, [], ◌∷◌, some, true, false, drop, length, arith,
  if◌then◌else◌, Bool-cases, Option-cases, inl, inr, Bool, refl,
}
use native.Mathlib.Decide.{ℕ_discrete}
use claudex.Selection.Units.{fable, default}
use claudex.Selection.Family.{
  Text, codes, lower, starts_with, find_from, find, is_bounded_at, token_loop,
  bounded_token_present, quota_family,
}

-- The token stands in the text at the position.
abbrev pub occurs_at : Text → Text → ℕ → Bool
occurs_at text token i = starts_with token (drop i text)

-- A position that is found is one of the token, at or after the start.
find_from_sound :
    (token cs : Text) (start at : ℕ) {j : ℕ}
    → find_from token cs start at ≡ some j
    → (k : ℕ) × (j ≡ at + k) × (start ≤ k) × (occurs_at cs token k ≡ true)
unfolding find_from
find_from_sound token [] zero at h = elim (Bool-cases (starts_with token [])) [
  | inl p ↦ (0, ground arith, ground arith, p)
  | inr p ↦ absurd (ground arith)
]
find_from_sound token [] (suc start) at h = absurd (cc)
find_from_sound token (c ∷ cs) zero at h = elim (Bool-cases (starts_with token (c ∷ cs))) [
  | inl p ↦ (0, ground arith, ground arith, p)
  | inr p ↦
      let (k, e, le, o) = find_from_sound token cs zero (suc at) (rw p at h) in
      (suc k, omega arith, omega arith, o)
]
find_from_sound token (c ∷ cs) (suc start) at h =
    let (k, e, le, o) = find_from_sound token cs start (suc at) h in
    (suc k, omega arith, omega arith, o)

module _ (t : ℕ) (ts : Text) where
  occurs_at-lt : (cs : Text) (i : ℕ) → occurs_at cs (t ∷ ts) i ≡ true → i < length cs
  occurs_at-lt [] zero h = absurd (cc)
  occurs_at-lt [] (suc i) h = absurd (cc)
  occurs_at-lt (c ∷ cs) zero h = omega arith
  occurs_at-lt (c ∷ cs) (suc i) h = omega (arith, occurs_at-lt cs i h)

  -- No occurrence at or after the start is passed over.
  find_from_first :
      (cs : Text) (start at i : ℕ)
      → start ≤ i
      → occurs_at cs (t ∷ ts) i ≡ true
      → (j : ℕ) × (find_from (t ∷ ts) cs start at ≡ some j) × (j ≤ at + i)
  unfolding find_from
  find_from_first [] start at zero le h = absurd (cc)
  find_from_first [] start at (suc i) le h = absurd (cc)
  find_from_first (c ∷ cs) zero at zero le h = (at, rw h, omega arith)
  find_from_first (c ∷ cs) zero at (suc i) le h =
      elim (Bool-cases (starts_with (t ∷ ts) (c ∷ cs))) [
        | inl p ↦ (at, rw p, omega arith)
        | inr p ↦
            let (j, e, b) = find_from_first cs zero (suc at) i (omega arith) h in
            (j, rw p e, omega arith)
      ]
  find_from_first (c ∷ cs) (suc start) at zero le h = absurd (omega arith)
  find_from_first (c ∷ cs) (suc start) at (suc i) le h =
      let (j, e, b) = find_from_first cs start (suc at) i (omega arith) h in (j, e, omega arith)

  token_loop_sound :
      (fuel : ℕ) (text : Text) (start : ℕ)
      → token_loop fuel text (t ∷ ts) start ≡ true
      → (i : ℕ) × (occurs_at text (t ∷ ts) i ≡ true) × (is_bounded_at text (t ∷ ts) i ≡ true)
  unfolding token_loop
  token_loop_sound zero text start h = absurd (cc)
  token_loop_sound (suc fuel) text start h = elim (Option-cases (find (t ∷ ts) text start)) [
    | inl e ↦ absurd (ground arith)
    | inr (j, e) ↦
        let (k, eq, le, o) = find_from_sound (t ∷ ts) text start 0 e in
        let same : j ≡ k = omega arith in
        elim (Bool-cases (is_bounded_at text (t ∷ ts) j)) [
          | inl b ↦ (j, rw same o, b)
          | inr b ↦ token_loop_sound fuel text (j + 1) (ground arith)
        ]
  ]

  token_loop_complete :
      (fuel : ℕ) (text : Text) (start i : ℕ)
      → length text < fuel + start
      → start ≤ i
      → occurs_at text (t ∷ ts) i ≡ true
      → is_bounded_at text (t ∷ ts) i ≡ true
      → token_loop fuel text (t ∷ ts) start ≡ true
  unfolding token_loop
  token_loop_complete zero text start i f le o b = absurd (omega (arith, occurs_at-lt text i o))
  token_loop_complete (suc fuel) text start i f le o b =
      let (j, e, near) = find_from_first text start 0 i le o in
      let (k, eq, from, _) = find_from_sound (t ∷ ts) text start 0 e in
      elim (Bool-cases (is_bounded_at text (t ∷ ts) j)) [
        | inl yes_j ↦ ground arith
        | inr not_j ↦
            let rest =
              token_loop_complete fuel text (j + 1) i (omega arith) (later j near not_j) o b in
            ground arith
      ]
    where
      later : (j : ℕ) → j ≤ 0 + i → is_bounded_at text (t ∷ ts) j ≡ false → j + 1 ≤ i
      later j le' not_j = elim (ℕ_discrete j i) [
        | yes same ↦ absurd (ground arith)
        | no other ↦ omega arith
      ]

  -- For a token that is not empty, the search reports it exactly when some occurrence of it has no
  -- ASCII letter or digit on either side.
  pub bounded_token_present_iff :
      (text : Text)
      → (bounded_token_present text (t ∷ ts) ≡ true)
        ↔ ((i : ℕ) × (occurs_at text (t ∷ ts) i ≡ true) × (is_bounded_at text (t ∷ ts) i ≡ true))
  unfolding bounded_token_present
  bounded_token_present_iff text = (
    token_loop_sound (length text + 2) text 0,
    λ w. token_loop_complete (length text + 2) text 0 w.0 (omega arith) (omega arith) w.1 w.2,
  )

-- A model id is of the fable family exactly when its lower case has "fable" with no ASCII letter or
-- digit on either side.
pub quota_family-eq-fable_iff :
    (model : Text)
    → (quota_family model ≡ fable) ↔ (
        (i : ℕ) × (occurs_at (lower model) (codes "fable") i ≡ true)
        × (is_bounded_at (lower model) (codes "fable") i ≡ true))
unfolding quota_family
quota_family-eq-fable_iff model = (
  λ h. found.0 (only_fable (bounded_token_present (lower model) (codes "fable")) h),
  λ w. rw (found.1 w),
)
  where
    found : (bounded_token_present (lower model) (codes "fable") ≡ true) ↔ (
        (i : ℕ) × (occurs_at (lower model) (codes "fable") i ≡ true)
        × (is_bounded_at (lower model) (codes "fable") i ≡ true))
    found = bounded_token_present_iff b'f' (codes "able") (lower model)

    only_fable : (b : Bool) → (if b then fable else default) ≡ fable → b ≡ true
    only_fable true h = refl
    only_fable false h = cc
