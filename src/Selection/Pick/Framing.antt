-- ===== src/Selection/Pick/Framing.antt =====
-- The length prefix keeps the fields of a hashed message apart, whatever bytes they hold.
use claudex.Prelude.{
  ℕ, zero, suc, ◌+◌, ◌*◌, ◌/◌, ◌%◌, ◌^◌, ◌<◌, ◌≡◌, refl, List, [], ◌∷◌, ◌++◌, length, length-append,
  All, ap, sym, ◌∙◌, arith,
}
use native.Mathlib.Numerals.{unary_clauses}
use claudex.Selection.Pick.{Bytes, to_bytes, from_bytes, length_prefixed}

length-to_bytes : (width n : ℕ) → length (to_bytes width n) ≡ width
unfolding to_bytes
length-to_bytes zero n = refl
length-to_bytes (suc width) n = omega (
  arith,
  length-append (to_bytes width (n / 256)) (n % 256 ∷ []),
  length-to_bytes width (n / 256),
)

from_bytes-append :
    (acc : ℕ) (xs : Bytes) (b : ℕ) → from_bytes acc (xs ++ b ∷ []) ≡ from_bytes acc xs * 256 + b
unfolding from_bytes
from_bytes-append acc [] b = refl
from_bytes-append acc (x ∷ xs) b = from_bytes-append (acc * 256 + x) xs b

-- Reading back a number that fits its width gives the number.
pub from_bytes-to_bytes : (width n : ℕ) → n < 256 ^ width → from_bytes 0 (to_bytes width n) ≡ n
unfolding to_bytes from_bytes
from_bytes-to_bytes zero n h = omega arith
from_bytes-to_bytes (suc width) n h =
    rw
      (
        from_bytes-append 0 (to_bytes width (n / 256)) (n % 256),
        from_bytes-to_bytes width (n / 256) (fits (256 ^ width) (simp unary_clauses at h)),
      )
      (omega arith)
  where
    fits : (m : ℕ) → n < m * 256 → n / 256 < m
    fits m k = omega (arith, k)

append-inj :
    (xs xs' ys ys' : Bytes)
    → length xs ≡ length xs'
    → xs ++ ys ≡ xs' ++ ys'
    → (xs ≡ xs') × (ys ≡ ys')
append-inj [] [] ys ys' l e = (refl, e)
append-inj [] (x ∷ xs') ys ys' l e = absurd (omega arith)
append-inj (x ∷ xs) [] ys ys' l e = absurd (omega arith)
append-inj (x ∷ xs) (x' ∷ xs') ys ys' l e =
    let (p, q) = append-inj xs xs' ys ys' (omega arith) (ap tail e) in
    (ground (arith, ap (head x) e), q)
  where
    tail : Bytes → Bytes
    tail [] = []
    tail (b ∷ bs) = bs

    head : ℕ → Bytes → ℕ
    head d [] = d
    head d (b ∷ bs) = b

short : (f : Bytes) (fs : List Bytes) → length_prefixed (f ∷ fs) ≡ [] → ⊥
unfolding length_prefixed
short f fs e = omega (
  arith,
  ap (length {A = ℕ}) e,
  length-to_bytes 8 (length f),
  length-append (to_bytes 8 (length f)) (f ++ length_prefixed fs),
)

-- Two lists of fields, each shorter than 2^64 bytes, that are framed to the same bytes are the
-- same list.
pub length_prefixed_inj :
    (fields others : List Bytes)
    → All (λ f. length f < 256 ^ 8) fields
    → All (λ f. length f < 256 ^ 8) others
    → length_prefixed fields ≡ length_prefixed others
    → fields ≡ others
unfolding length_prefixed
length_prefixed_inj [] [] h k e = refl
length_prefixed_inj [] (g ∷ gs) h k e = absurd (short g gs (sym e))
length_prefixed_inj (f ∷ fs) [] h k e = absurd (short f fs e)
length_prefixed_inj (f ∷ fs) (g ∷ gs) h k e =
    let (n, rest) =
      append-inj (to_bytes 8 (length f)) (to_bytes 8 (length g)) _ _
        (length-to_bytes 8 (length f) ∙ sym (length-to_bytes 8 (length g))) e in
    let l : length f ≡ length g =
      sym (from_bytes-to_bytes 8 (length f) h.0)
      ∙ ap (from_bytes 0) n
      ∙ from_bytes-to_bytes 8 (length g) k.0 in
    let (same, tails) = append-inj f g _ _ l rest in
    λ i. same i ∷ length_prefixed_inj fs gs h.1 k.1 tails i
