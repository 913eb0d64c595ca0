-- ===== src/Dict.antt =====
-- Python's dict: entries in insertion order, a write to a present key in place.
pub mod Laws
use claudex.Prelude.{
  ℕ, ◌≡◌, List, [], ◌∷◌, Option, none, some, Bool, Eq, ◌==◌, length, if◌then◌else◌, bit, ◌+◌, false,
}

abbrev pub Dict {ℓ κ} : Type ℓ → Type κ → Type (ℓ ⊔ κ)
Dict K V = List (K × V)

module _ {ℓ κ} {K : Type ℓ} {V : Type κ} where
  -- `len(d)`
  abbrev pub size : Dict K V → ℕ
  size d = length d

  -- `[k for k, v in d.items() if p(k, v)]`
  unfoldable pub keys_where : (K → V → Bool) → Dict K V → List K
  keys_where p [] = []
  keys_where p ((k, v) ∷ d) = let rest = keys_where p d in if p k v then k ∷ rest else rest

  -- `sum(1 for k, v in d.items() if p(k, v))`
  unfoldable pub count_where : (K → V → Bool) → Dict K V → ℕ
  count_where p [] = 0
  count_where p ((k, v) ∷ d) = count_where p d + bit (p k v)

  -- Whether the value that a key has, if it has one, passes a test.
  abbrev pub holds : (K → V → Bool) → K → Option V → Bool
  holds p k none = false
  holds p k (some v) = p k v

module _ {ℓ κ} {K : Type ℓ} {V : Type κ} ⦃e : Eq K⦄ where
  -- `d.get(k)`
  unfoldable pub get : K → Dict K V → Option V
  get k [] = none
  get k ((j, v) ∷ d) = if j == k then some v else get k d

  -- `d[k] = v`
  unfoldable pub put : K → V → Dict K V → Dict K V
  put k v [] = (k, v) ∷ []
  put k v ((j, w) ∷ d) = if j == k then (j, v) ∷ d else (j, w) ∷ put k v d

  -- `d.pop(k, None)`, its result dropped
  unfoldable pub pop : K → Dict K V → Dict K V
  pop k [] = []
  pop k ((j, w) ∷ d) = let rest = pop k d in if j == k then rest else (j, w) ∷ rest

  -- `for k in ks: d.pop(k, None)`
  unfoldable pub pop_all : List K → Dict K V → Dict K V
  unfolding pop
  pop_all [] d = d
  pop_all (k ∷ ks) d = pop_all ks (pop k d)

  -- No key stands twice, which every Python dict keeps.
  abbrev pub Unique : Dict K V → Type κ
  Unique [] = Unit
  Unique ((k, v) ∷ d) = (get k d ≡ none) × Unique d
