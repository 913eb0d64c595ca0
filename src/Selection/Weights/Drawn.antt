-- ===== src/Selection/Weights/Drawn.antt =====
-- Which accounts the weights let be drawn.
use claudex.Prelude.{
  ℕ, ◌<◌, ◌≡◌, List, [], ◌∷◌, true, All, ltb, contains, string_eq, ◌==◌, ==_iff, ==_refl,
  Bool-cases, inl, inr, subst, sym, refl, arith,
}
use claudex.Dict.{Dict, put}
use claudex.Selection.Units.{AccountId}
use claudex.Selection.Weights.{
  Weight, tabulate_from, positive_part, or_emergency, select_weights, ordinary_weight, emergency_of,
}
use claudex.Selection.Weights.Positive.{emergency_pos}

module _ {V : Type 0} (P : AccountId × V → Type 0) where
  All-put : (k : AccountId) (v : V) (d : Dict AccountId V) → All P d → P (k, v) → All P (put k v d)
  unfolding put
  All-put k v [] h p = (p, tt)
  All-put k v ((j, w) ∷ d) h p = elim (Bool-cases (j == k)) [
    | inl same ↦ rw same (subst (λ x. P (x, v)) (sym ((==_iff j k).0 same)) p, h.1)
    | inr other ↦ rw other (h.0, All-put k v d h.1 p)
  ]

  All-tabulate_from :
      (d : Dict AccountId V) (f : AccountId → V) (names : List AccountId)
      → All P d
      → ((a : AccountId) → contains names a ≡ true → P (a, f a))
      → All P (tabulate_from d f names)
  unfolding tabulate_from
  All-tabulate_from d f [] h p = h
  All-tabulate_from d f (a ∷ names) h p =
      All-tabulate_from (put a (f a) d) f names (All-put a (f a) d h (p a (rw (==_refl a) refl)))
        (λ b c. p b (ground arith))

module _ (ids : List AccountId) where
  All-positive_part :
      (d : Dict AccountId ℕ)
      → All (λ e. contains ids e.0 ≡ true) d
      → All (λ e. (contains ids e.0 ≡ true) × (0 < e.1.num)) (positive_part d)
  unfolding positive_part
  All-positive_part [] h = tt
  All-positive_part ((a, w) ∷ d) h = elim (Bool-cases (ltb 0 w)) [
    | inl yes_w ↦ rw yes_w ((h.0, ground arith), All-positive_part d h.1)
    | inr no_w ↦ rw no_w (All-positive_part d h.1)
  ]

  -- Every account that can be drawn is one of those asked for, with a positive weight.
  pub select_weights-drawn :
      (pressures factors in_flight : AccountId → ℕ)
      → All
          (λ e. (contains ids e.0 ≡ true) × (0 < e.1.num))
          (select_weights pressures factors in_flight ids)
  unfolding select_weights
  select_weights-drawn pressures factors in_flight =
      either _ _
        (All-positive_part _ (
          All-tabulate_from (λ e. contains ids e.0 ≡ true) []
            (ordinary_weight pressures factors in_flight) ids tt (λ a c. c)))
        (All-tabulate_from (λ e. (contains ids e.0 ≡ true) × (0 < e.1.num)) []
          (emergency_of pressures factors in_flight) ids tt
          (λ a c. (c, (emergency_pos pressures factors in_flight a).0)))
    where
      either :
          (a b : Dict AccountId Weight)
          → All (λ e. (contains ids e.0 ≡ true) × (0 < e.1.num)) a
          → All (λ e. (contains ids e.0 ≡ true) × (0 < e.1.num)) b
          → All (λ e. (contains ids e.0 ≡ true) × (0 < e.1.num)) (or_emergency a b)
      either [] b h k = k
      either (e ∷ a) b h k = h
