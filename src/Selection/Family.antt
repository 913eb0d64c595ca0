-- ===== src/Selection/Family.antt =====
-- `quota_family`, `capability_key` and the token search of balanced/selection.py. A text is the list
-- of its code points. Python's `lower` is written out as far as the search can see it: every other
-- code point stays, or becomes one outside ASCII, on which the tests agree.
pub mod Tokens
use Prim.Native.Char.{code}
use claudex.Prelude.{
  ℕ, zero, suc, ◌+◌, ◌-◌, String, List, [], ◌∷◌, ◌++◌, Option, none, some, Bool, true, false, ◌&&◌,
  ◌||◌, not, leb, ltb, nat_beq, length, get_elem?, if◌then◌else◌,
}
use claudex.Selection.Units.{Family, default, fable, Window, five_hour, seven_day, fable_weekly}

abbrev pub Text : Type 0
Text = List ℕ

abbrev pub codes : String → Text
codes String.[] = []
codes (String.◌∷◌ c s) = code c ∷ codes s

-- The Kelvin sign becomes k, and I with a dot above becomes i and a combining dot.
unfoldable pub lower_char : ℕ → Text
lower_char c =
    if leb b'A' c && leb c b'Z'
    then (c + 32) ∷ []
    else if nat_beq c 0x212a
    then b'k' ∷ []
    else if nat_beq c 0x130
    then b'i' ∷ 0x307 ∷ []
    else c ∷ []

unfoldable pub lower : Text → Text
unfolding lower_char
lower [] = []
lower (c ∷ cs) = lower_char c ++ lower cs

unfoldable pub is_ascii_alnum : Option ℕ → Bool
is_ascii_alnum none = false
is_ascii_alnum (some c) =
    (leb b'0' c && leb c b'9') || (leb b'A' c && leb c b'Z') || (leb b'a' c && leb c b'z')

abbrev pub starts_with : Text → Text → Bool
starts_with [] text = true
starts_with (t ∷ ts) [] = false
starts_with (t ∷ ts) (c ∷ cs) = nat_beq t c && starts_with ts cs

-- `text.find(token, start)`, by the suffix that is left at each position
unfoldable pub find_from : Text → Text → ℕ → ℕ → Option ℕ
find_from token [] zero at = if starts_with token [] then some at else none
find_from token [] (suc start) at = none
find_from token (c ∷ cs) zero at =
    if starts_with token (c ∷ cs) then some at else find_from token cs zero (suc at)
find_from token (c ∷ cs) (suc start) at = find_from token cs start (suc at)

unfoldable pub find : Text → Text → ℕ → Option ℕ
unfolding find_from
find token text start = find_from token text start 0

abbrev pub before_at : Text → ℕ → Option ℕ
before_at text zero = none
before_at text (suc i) = get_elem? text i

-- The test on both sides of one occurrence.
unfoldable pub is_bounded_at : Text → Text → ℕ → Bool
unfolding is_ascii_alnum
is_bounded_at lowered token index =
    not (is_ascii_alnum (before_at lowered index))
    && not (is_ascii_alnum (get_elem? lowered (index + length token)))

-- The `while True` loop, on fuel; it is false when the fuel runs out.
unfoldable pub token_loop : ℕ → Text → Text → ℕ → Bool
unfolding find is_bounded_at
token_loop zero lowered token start = false
token_loop (suc fuel) lowered token start = elim (find token lowered start) [
  | none ↦ false
  | some index ↦
      let rest = token_loop fuel lowered token (index + 1) in
      if is_bounded_at lowered token index then true else rest
]

-- Each round moves on by at least one position, and no token starts past the end.
unfoldable pub bounded_token_present : Text → Text → Bool
unfolding token_loop
bounded_token_present lowered token = token_loop (length lowered + 2) lowered token 0

unfoldable pub quota_family : Text → Family
unfolding bounded_token_present lower
quota_family model = if bounded_token_present (lower model) (codes "fable") then fable else default

unfoldable pub capability_key_of : List Text → Text → Text
unfolding bounded_token_present
capability_key_of [] lowered = codes "model:" ++ lowered
capability_key_of (token ∷ tokens) lowered =
    if bounded_token_present lowered token then token else capability_key_of tokens lowered

abbrev pub capability_key_tokens : List Text
capability_key_tokens = codes "fable" ∷ codes "opus" ∷ codes "sonnet" ∷ codes "haiku" ∷ []

unfoldable pub capability_key : Text → Text
unfolding capability_key_of lower
capability_key model = capability_key_of capability_key_tokens (lower model)

abbrev pub non_fable_windows : List Window
non_fable_windows = five_hour ∷ seven_day ∷ []

abbrev pub fable_windows : List Window
fable_windows = five_hour ∷ seven_day ∷ fable_weekly ∷ []

abbrev pub binding_windows : Family → List Window
binding_windows fable = fable_windows
binding_windows _ = non_fable_windows
