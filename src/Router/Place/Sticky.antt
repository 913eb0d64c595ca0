-- ===== src/Router/Place/Sticky.antt =====
-- Where a session is placed.
use claudex.Prelude.{
  ◌<◌, ◌≡◌, ◌≢◌, refl, List, [], ◌∷◌, Option, none, some, Bool, true, inl, inr, In, All, All-In,
  All-of, select, contains, arith, ◌==◌, ==_iff, ==_refl, list_eq, nat_eq, string_eq, Bool-cases,
  Option-cases, subst, sym, some_inj, ◌∙◌,
}
use claudex.Prelude.Int.{ℤ}
use claudex.Dict.{Dict, get}
use claudex.Selection.Units.{AccountId}
use claudex.Selection.Family.{quota_family}
use claudex.Selection.Weights.{Weight}
use claudex.Selection.Weights.Positive.{select_weights-some}
use claudex.Selection.Weights.Drawn.{select_weights-drawn}
use claudex.Selection.Pick.{
  Bytes, Sampling, AccountCandidate, scoring_digest_or_default, pick_weighted_hrw,
}
use claudex.Selection.Pick.Lowest.{pick_weighted_hrw-some, pick_weighted_hrw_lowest}
use claudex.Router.State.{Router, PinEntry}
use claudex.Router.Place.{
  PlaceRequest, PlacementResult, choose_account, candidate_named, candidate_ids, candidate_weights,
  cold_start, or_pick,
}

pub candidate_named-In :
    (a : AccountId) (cs : List AccountCandidate) (c : AccountCandidate)
    → candidate_named a cs ≡ some c
    → In c cs × (c.account_id ≡ a)
unfolding candidate_named
candidate_named-In a [] c h = cc
candidate_named-In a (d ∷ cs) c h = elim (Option-cases (candidate_named a cs)) [
  | inl gone ↦ elim (Bool-cases (d.account_id == a)) [
    | inl same ↦
        let e : d ≡ c = some_inj (rw (gone, same) at h) in
        (inl (sym e), subst (λ x. x.account_id ≡ a) e ((==_iff d.account_id a).0 same))
    | inr other ↦ absurd (let h' = rw (gone, other) at h in cc)
  ]
  | inr (f, there) ↦
      let e : f ≡ c = some_inj (rw there at h) in
      let (i, n) = candidate_named-In a cs f there in
      (inr (subst (λ x. In x cs) e i), subst (λ x. x.account_id ≡ a) e n)
]

pub candidate_named-some :
    (a : AccountId) (cs : List AccountCandidate)
    → contains (candidate_ids cs) a ≡ true
    → (c : AccountCandidate) × (candidate_named a cs ≡ some c)
unfolding candidate_named
candidate_named-some a [] h = absurd (cc)
candidate_named-some a (d ∷ cs) h = elim (Option-cases (candidate_named a cs)) [
  | inr (f, there) ↦ (f, rw there refl)
  | inl gone ↦ elim (Bool-cases (d.account_id == a)) [
    | inl same ↦ (d, rw (gone, same) refl)
    | inr other ↦ absurd (let (c, k) = candidate_named-some a cs (rw other at h) in ground arith)
  ]
]

pub select-In :
    (p : AccountCandidate → Bool) (cs : List AccountCandidate) (c : AccountCandidate)
    → In c (select p cs)
    → In c cs × (p c ≡ true)
select-In p [] c i = absurd i
select-In p (d ∷ cs) c i = elim (Bool-cases (p d)) [
  | inl kept ↦ elim (rw kept at i) [
    | inl same ↦ (inl same, subst (λ x. p x ≡ true) (sym same) kept)
    | inr later ↦ let (j, k) = select-In p cs c later in (inr j, k)
  ]
  | inr dropped ↦ let (j, k) = select-In p cs c (rw dropped at i) in (inr j, k)
]

pub In-select :
    (p : AccountCandidate → Bool) (cs : List AccountCandidate) (c : AccountCandidate)
    → In c cs
    → p c ≡ true
    → select p cs ≢ []
In-select p [] c i h = absurd i
In-select p (d ∷ cs) c i h = elim (Bool-cases (p d)) [
  | inl kept ↦ rw kept (λ e. cc)
  | inr dropped ↦ rw dropped (elim i [
    | inl same ↦ absurd (let h' = subst (λ x. p x ≡ true) same h in ground arith)
    | inr later ↦ In-select p cs c later h
  ])
]

module _ (sampling : Sampling) (q : PlaceRequest) (now : ℤ) (r : Router) where
  cold_start-mem :
      (eligible all : List AccountId) (serving : Option AccountId) (a : AccountId)
      → cold_start eligible all (quota_family q.model) serving now r ≡ some a
      → contains eligible a ≡ true
  unfolding cold_start
  cold_start-mem eligible all none a h = absurd (cc)
  cold_start-mem eligible all (some s) a h = ground arith

  drawn-mem :
      (eligible : List AccountCandidate) (seed digest : Bytes) (serving : Option AccountId)
      (a : AccountId)
      → pick_weighted_hrw sampling seed digest
          (candidate_weights eligible (quota_family q.model) now r)
          serving
        ≡ some a
      → contains (candidate_ids eligible) a ≡ true
  unfolding candidate_weights
  drawn-mem eligible seed digest serving a h =
      let weights = candidate_weights eligible (quota_family q.model) now r in
      let drawn : All (λ e. (contains (candidate_ids eligible) e.0 ≡ true) × (0 < e.1.num))
          weights =
        select_weights-drawn (candidate_ids eligible) _ _ _ in
      let (w, i, _) =
        pick_weighted_hrw_lowest sampling seed digest weights serving a
          (All-of (λ e. 0 < e.1.num) weights (λ e j. (All-In _ weights e drawn j).1)) h in
      (All-In _ weights (a, w) drawn i).0

  pub choose_account-mem :
      (eligible : List AccountCandidate) (a : AccountId)
      → choose_account sampling q eligible now r ≡ some a
      → contains (candidate_ids eligible) a ≡ true
  unfolding choose_account
  choose_account-mem eligible a h = either _ _ refl refl h
    where
      cold : Option AccountId
      cold =
          cold_start (candidate_ids eligible) (candidate_ids q.candidates) (quota_family q.model)
            q.serving_account_id now r

      drawn : Option AccountId
      drawn =
          pick_weighted_hrw sampling q.seed (scoring_digest_or_default q.session_key)
            (candidate_weights eligible (quota_family q.model) now r) q.serving_account_id

      either :
          (x y : Option AccountId)
          → cold ≡ x
          → drawn ≡ y
          → or_pick sampling x y ≡ some a
          → contains (candidate_ids eligible) a ≡ true
      either none y ex ey e = drawn-mem eligible _ _ _ a (ey ∙ e)
      either (some b) y ex ey e = cold_start-mem _ _ _ a (ex ∙ e)

  pub choose_account-some :
      (c : AccountCandidate) (cs : List AccountCandidate)
      → (a : AccountId) × (choose_account sampling q (c ∷ cs) now r ≡ some a)
  unfolding choose_account candidate_weights get
  choose_account-some c cs =
      or_some _ (pick_weighted_hrw-some sampling q.seed _ weights q.serving_account_id nonempty)
    where
      weights : Dict AccountId Weight
      weights = candidate_weights (c ∷ cs) (quota_family q.model) now r

      nonempty : weights ≢ []
      nonempty e =
          let (b, w, there) =
            select_weights-some _ _ _ (candidate_ids (c ∷ cs)) c.account_id
              (rw (==_refl c.account_id) refl) in
          absurd (let h = subst (λ x. get b x ≡ some w) e there in cc)

      or_some :
          (x : Option AccountId) {y : Option AccountId}
          → ((a : AccountId) × (y ≡ some a))
          → (a : AccountId) × (or_pick sampling x y ≡ some a)
      or_some none p = p
      or_some (some a) p = (a, refl)

-- The pin that a placement leaves behind says where the placement went.
pub record IsBound (q : PlaceRequest) (p : PlacementResult) (s : Router) : Type 0 where
  pub pin : PinEntry
  pub stored : get q.session_key.digest s.pins ≡ some pin
  pub same_account : pin.account_id ≡ p.account_id
  pub same_generation : pin.generation ≡ p.generation
  pub same_barrier : pin.pending_durability ≡ p.durability_barrier
