-- ===== src/Prelude/Keys.antt =====
-- Types whose values the program compares by `==`, membership in a collection of them, and how often
-- a text stands in a list.
use Prim.Native.Nat.{ℕ, ◌+◌}
use Prim.Native.String.{String}
use mathlib.Core.Path.{◌≡◌, refl, ap}
use mathlib.Core.Logic.{◌↔◌}
use mathlib.Core.List.{List, [], ◌∷◌, ◌++◌}
use mathlib.Core.Option.{Option, none, some}
use mathlib.Core.Bool.{Bool, true, false, ◌&&◌, ◌||◌}
use native.Mathlib.Omega.{arith}
use text.Mathlib.Text.{◌==◌ as str_eq}
use text.Mathlib.TextEquality.{eq_iff}
use claudex.Prelude.Tests.{nat_beq, nat_beq_iff, bit}

-- A type with a test of equality that decides it.
pub record Eq {κ} (T : Type κ) : Type κ where
  pub equals : T → T → Bool
  pub equals_iff : (x y : T) → (equals x y ≡ true) ↔ (x ≡ y)

instance abbrev pub string_eq : Eq String
string_eq = record { equals_iff = eq_iff; equals = str_eq }

instance abbrev pub nat_eq : Eq ℕ
nat_eq = record { equals_iff = nat_beq_iff; equals = nat_beq }

module _ {κ} {T : Type κ} ⦃t : Eq T⦄ where
  infix 50 ◌==◌
  -- `x == y`
  abbrev pub ◌==◌ : T → T → Bool
  x == y = t.equals x y

  pub ==_iff : (x y : T) → ((x == y) ≡ true) ↔ (x ≡ y)
  ==_iff x y = t.equals_iff x y

  pub ==_refl : (x : T) → (x == x) ≡ true
  ==_refl x = (t.equals_iff x x).1 refl

module _ {ℓ κ} {A : Type ℓ} {B : Type κ} ⦃a : Eq A⦄ ⦃b : Eq B⦄ where
  abbrev pub pair_beq : A × B → A × B → Bool
  pair_beq (x, y) (u, v) = (x == u) && (y == v)

  pub pair_beq_iff : (p q : A × B) → (pair_beq p q ≡ true) ↔ (p ≡ q)
  pair_beq_iff p q = (
    λ h. ground (arith, a.equals_iff p.0 q.0, b.equals_iff p.1 q.1, h),
    λ h. ground (arith, a.equals_iff p.0 q.0, b.equals_iff p.1 q.1, h),
  )

  instance abbrev pub pair_eq : Eq (A × B)
  pair_eq = record { equals = pair_beq; equals_iff = pair_beq_iff }

module _ {ℓ} {A : Type ℓ} ⦃a : Eq A⦄ where
  abbrev pub option_beq : Option A → Option A → Bool
  option_beq none none = true
  option_beq (some x) (some y) = x == y
  option_beq _ _ = false

  pub option_beq_iff : (x y : Option A) → (option_beq x y ≡ true) ↔ (x ≡ y)
  option_beq_iff none none = (λ _. refl, λ _. refl)
  option_beq_iff none (some y) = (λ h. cc, λ h. cc)
  option_beq_iff (some x) none = (λ h. cc, λ h. cc)
  option_beq_iff (some x) (some y) =
      (λ h. ap some ((a.equals_iff x y).0 h), λ h. (a.equals_iff x y).1 (ground arith))

  instance abbrev pub option_eq : Eq (Option A)
  option_eq = record { equals = option_beq; equals_iff = option_beq_iff }

  -- `x in xs`
  abbrev pub contains : List A → A → Bool
  contains [] x = false
  contains (y ∷ ys) x = y == x || contains ys x

module _ {ℓ} {A : Type ℓ} ⦃a : Eq A⦄ where
  abbrev pub list_beq : List A → List A → Bool
  list_beq [] [] = true
  list_beq [] (y ∷ ys) = false
  list_beq (x ∷ xs) [] = false
  list_beq (x ∷ xs) (y ∷ ys) = (x == y) && list_beq xs ys

  list_beq-eq : (xs ys : List A) → list_beq xs ys ≡ true → xs ≡ ys
  list_beq-eq [] [] h = refl
  list_beq-eq [] (y ∷ ys) h = cc
  list_beq-eq (x ∷ xs) [] h = cc
  list_beq-eq (x ∷ xs) (y ∷ ys) h = ground (arith, a.equals_iff x y, list_beq-eq xs ys)

  list_beq_refl : (xs : List A) → list_beq xs xs ≡ true
  list_beq_refl [] = refl
  list_beq_refl (x ∷ xs) = rw ((a.equals_iff x x).1 refl) (list_beq_refl xs)

  pub list_beq_iff : (xs ys : List A) → (list_beq xs ys ≡ true) ↔ (xs ≡ ys)
  list_beq_iff xs ys = (list_beq-eq xs ys, λ e. rw e (list_beq_refl ys))

  instance abbrev pub list_eq : Eq (List A)
  list_eq = record { equals = list_beq; equals_iff = list_beq_iff }

-- How often a text stands in a list.
abbrev pub times : String → List String → ℕ
times a [] = 0
times a (b ∷ bs) = times a bs + bit (b == a)

pub times-append : (a : String) (xs ys : List String) → times a (xs ++ ys) ≡ times a xs + times a ys
times-append a [] ys = omega arith
times-append a (x ∷ xs) ys = omega (arith, times-append a xs ys)
