-- ===== src/Selection/Pick.antt =====
-- Session keys, the weighted draw and eligibility (balanced/selection.py). HMAC-SHA-256, the
-- logarithm and the canonical encodings of a request body are not code of the repository: they are
-- parameters.
pub mod Framing
pub mod Lowest
use Prim.Native.String.{compare}
use text.Mathlib.Text.{is_lt}
use claudex.Prelude.{
  ℕ, zero, suc, ◌+◌, ◌-◌, ◌*◌, ◌/◌, ◌%◌, ◌^◌, ◌≡◌, ◌<◌, String, string_eq, List, [], ◌∷◌, ◌++◌, map,
  select, contains, Option, none, some, Bool, true, false, not, ltb, nat_beq, length, All,
  if◌then◌else◌,
}
use claudex.Prelude.Int.{ℤ, ltb_ℤ}
use claudex.Dict.{Dict}
use claudex.Selection.Units.{AccountId, Family, unset, default, fable}
use claudex.Selection.Family.{codes}
use claudex.Selection.Weights.{Weight}

abbrev pub Bytes : Type 0
Bytes = List ℕ

pub data KeyKind : Type 0 where
  uuid content_hash : KeyKind

pub record SessionKey : Type 0 where
  pub digest : Bytes
  pub kind : KeyKind
  pub scoring_digest : Bytes
  pub family : Family

-- `self.scoring_digest or self.digest`: an empty digest is false.
unfoldable pub or_digest : Bytes → Bytes → Bytes
or_digest [] digest = digest
or_digest (b ∷ bs) digest = b ∷ bs

abbrev pub scoring_digest_or_default : SessionKey → Bytes
scoring_digest_or_default key = or_digest key.scoring_digest key.digest

-- `n.to_bytes(width, "big")`, for an `n` that fits
unfoldable pub to_bytes : ℕ → ℕ → Bytes
to_bytes zero n = []
to_bytes (suc width) n = to_bytes width (n / 256) ++ (n % 256) ∷ []

unfoldable pub length_prefixed : List Bytes → Bytes
unfolding to_bytes
length_prefixed [] = []
length_prefixed (field ∷ fields) = to_bytes 8 (length field) ++ (field ++ length_prefixed fields)

-- `int.from_bytes(bs, "big")`, the value read so far given first
unfoldable pub from_bytes : ℕ → Bytes → ℕ
from_bytes acc [] = acc
from_bytes acc (b ∷ bs) = from_bytes (acc * 256 + b) bs

-- What the code takes from hashlib and math: HMAC-SHA-256 gives 32 bytes, and the logarithm of a
-- sample is a number. `neg_log n` stands for -ln (n / 2^54).
pub record Sampling : Type 0 where
  pub hmac_sha256 : Bytes → Bytes → Bytes
  pub neg_log : ℕ → ℕ
  pub hmac_length : (seed message : Bytes) → length (hmac_sha256 seed message) ≡ 32
  pub hmac_bytes : (seed message : Bytes) → All (λ b. b < 256) (hmac_sha256 seed message)

-- `str.encode("utf-8")` of a code point, and of a text.
unfoldable pub utf8_char : ℕ → Bytes
utf8_char c =
    if ltb c 128
    then c ∷ []
    else if ltb c 2048
    then (192 + c / 64) ∷ (128 + c % 64) ∷ []
    else if ltb c 65536
    then (224 + c / 4096) ∷ (128 + (c / 64) % 64) ∷ (128 + c % 64) ∷ []
    else (240 + c / 262144) ∷ (128 + (c / 4096) % 64) ∷ (128 + (c / 64) % 64) ∷ (128 + c % 64) ∷ []

unfoldable pub utf8 : List ℕ → Bytes
utf8 [] = []
utf8 (c ∷ cs) = utf8_char c ++ utf8 cs

abbrev pub session_key_domain : Bytes
session_key_domain = codes "claudex-session-key-v1"

abbrev pub pin_key_domain : Bytes
pin_key_domain = codes "claudex-pin-key-v2"

abbrev pub hrw_domain : Bytes
hrw_domain = codes "claudex-balanced-hrw-v1"

abbrev pub stateless_request_domain : Bytes
stateless_request_domain = codes "claudex-stateless-request-v1"

abbrev pub family_name : Family → Bytes
family_name unset = []
family_name default = codes "default"
family_name fable = codes "fable"

-- `ValueError`, or the key; there is no key when the body has nothing to hash.
pub data Derived : Type 0 where
  invalid_family unpinnable : Derived
  derived : SessionKey → Derived

-- A message of the body: whether its role is "user", and its canonical JSON.
pub record Message : Type 0 where
  pub is_user : Bool
  pub canonical : Bytes

unfoldable pub first_user_message : List Message → Option Message
first_user_message [] = none
first_user_message (m ∷ ms) = if m.is_user then some m else first_user_message ms

abbrev pub logical_key : KeyKind → Bytes → SessionKey
logical_key kind digest = record {
  digest = digest;
  kind = kind;
  scoring_digest = [];
  family = unset;
}

module _ (sampling : Sampling) (seed : Bytes) where
  open sampling use {hmac_sha256, neg_log}

  -- The argument is the session id that `extract_session_uuid` found, in UTF-8.
  unfoldable pub uuid_session_key : Option Bytes → Option SessionKey
  uuid_session_key none = none
  uuid_session_key (some canonical_utf8) = some (
      logical_key uuid (
        hmac_sha256 seed (
          session_key_domain ++ (0 ∷ codes "uuid" ++ (0 ∷ length_prefixed (canonical_utf8 ∷ []))))))

  unfoldable pub content_key_of : Option Message → Option SessionKey
  content_key_of none = none
  content_key_of (some m) = some (
      logical_key content_hash (
        hmac_sha256 seed (
          session_key_domain
          ++ (0 ∷ codes "content_hash" ++ (0 ∷ length_prefixed (m.canonical ∷ []))))))

  unfoldable pub content_hash_session_key : List Message → Option SessionKey
  unfolding first_user_message content_key_of
  content_hash_session_key messages = content_key_of (first_user_message messages)

  unfoldable pub salted : Family → SessionKey → SessionKey
  salted family logical = record {
    digest =
        hmac_sha256 seed
          (pin_key_domain ++ (0 ∷ length_prefixed (logical.digest ∷ family_name family ∷ [])));
    kind = logical.kind;
    scoring_digest = logical.digest;
    family = family;
  }

  abbrev or_key : Option SessionKey → Option SessionKey → Option SessionKey
  or_key none k = k
  or_key (some k) _ = some k

  abbrev derived_of : Family → Option SessionKey → Derived
  derived_of family none = unpinnable
  derived_of family (some logical) = derived (salted family logical)

  unfoldable pub derive_session_key : Option Bytes → List Message → Family → Derived
  unfolding uuid_session_key content_hash_session_key salted
  derive_session_key session_id messages unset = invalid_family
  derive_session_key session_id messages family =
      derived_of family (or_key (uuid_session_key session_id) (content_hash_session_key messages))

  unfoldable pub derive_stateless_routing_digest : Bytes → Bytes
  derive_stateless_routing_digest nonce =
      hmac_sha256 seed (stateless_request_domain ++ (0 ∷ length_prefixed (nonce ∷ [])))

  -- The numerator over 2^54 of (h + 0.5) / 2^53, for the high 53 bits h.
  unfoldable pub hrw_unit_interval : Bytes → AccountId → ℕ
  unfolding from_bytes length_prefixed
  hrw_unit_interval digest account =
      let mac =
        hmac_sha256 seed
          (hrw_domain ++ (0 ∷ length_prefixed (digest ∷ utf8 (codes account) ∷ []))) in
      2 * (from_bytes 0 mac / 2 ^ (8 * length mac - 53)) + 1

  -- `-ln(u) / W`, as a fraction
  unfoldable pub score : Bytes → AccountId → Weight → Weight
  unfolding hrw_unit_interval
  score digest account w = record {
    num = neg_log (hrw_unit_interval digest account) * w.den;
    den = w.num;
  }

-- Order and equality of fractions with positive denominators.
abbrev pub ltb_score : Weight → Weight → Bool
ltb_score a b = ltb (a.num * b.den) (b.num * a.den)

abbrev pub score_beq : Weight → Weight → Bool
score_beq a b = nat_beq (a.num * b.den) (b.num * a.den)

abbrev pub lower_score : Weight → Weight → Weight
lower_score a b = if ltb_score b a then b else a

unfoldable pub lowest_score : Weight → List (Weight × AccountId) → Weight
lowest_score s [] = s
lowest_score s ((t, a) ∷ rest) = lowest_score (lower_score s t) rest

-- Python compares texts by code point, which is the order of their bytes.
abbrev pub lesser_id : AccountId → AccountId → AccountId
lesser_id a b = if is_lt (compare b a) then b else a

unfoldable pub smallest_id : AccountId → List AccountId → AccountId
smallest_id a [] = a
smallest_id a (b ∷ bs) = smallest_id (lesser_id a b) bs

-- Of the tied accounts, which are not none: the serving one if it is tied, else the smallest id.
unfoldable pub resolve_tie_break : AccountId → List AccountId → Option AccountId → AccountId
unfolding smallest_id
resolve_tie_break a more none = smallest_id a more
resolve_tie_break a more (some serving) =
    if contains (a ∷ more) serving then serving else smallest_id a more

abbrev pub tie_of : List AccountId → Option AccountId → Option AccountId
tie_of [] serving = none
tie_of (a ∷ []) serving = some a
tie_of (a ∷ b ∷ more) serving = some (resolve_tie_break a (b ∷ more) serving)

abbrev pub names_at : Weight → List (Weight × AccountId) → List AccountId
names_at lowest scored = map (λ p. p.1) (select (λ p. score_beq p.0 lowest) scored)

abbrev pub pick_scored : List (Weight × AccountId) → Option AccountId → Option AccountId
pick_scored [] serving = none
pick_scored ((s, a) ∷ rest) serving =
    tie_of (names_at (lowest_score s rest) ((s, a) ∷ rest)) serving

-- `none` is `NoEligibleAccountError`.
unfoldable pub pick_weighted_hrw :
    Sampling → Bytes → Bytes → Dict AccountId Weight → Option AccountId → Option AccountId
unfolding lowest_score resolve_tie_break score
pick_weighted_hrw sampling seed digest weights serving =
    pick_scored (map (λ e. (score sampling seed digest e.0 e.1, e.0)) weights) serving

pub record AccountCandidate : Type 0 where
  pub account_id : AccountId
  pub account_incarnation_id : String
  pub ready : Bool
  pub capability_denied : Bool
  pub account_cooldown_until : Option ℤ
  pub family_cooldown_until : Option ℤ

-- `until is not None and until > now`
abbrev pub is_after : Option ℤ → ℤ → Bool
is_after none now = false
is_after (some t) now = ltb_ℤ now t

unfoldable pub is_eligible_candidate : AccountCandidate → ℤ → List AccountId → Bool
is_eligible_candidate c now already_attempted =
    if not c.ready
    then false
    else if c.capability_denied
    then false
    else if contains already_attempted c.account_id
    then false
    else if is_after c.account_cooldown_until now
    then false
    else if is_after c.family_cooldown_until now
    then false
    else true
