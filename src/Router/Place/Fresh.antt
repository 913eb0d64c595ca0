-- ===== src/Router/Place/Fresh.antt =====
-- The two ways a placement is made: following a live pin, and making a new one.
use claudex.Prelude.{
  ◌≡◌, ◌≢◌, refl, List, [], ◌∷◌, Option, none, some, true, false, ◌⊎◌, inl, inr, In, list_eq,
  nat_eq, string_eq, Bool-cases, subst, sym, ap,
}
use claudex.Prelude.Int.{ℤ}
use claudex.Dict.{get, Unique}
use claudex.Dict.Laws.{get-put_self, put-Unique}
use claudex.Selection.Units.{AccountId, unset, default, fable, Family, family_beq}
use claudex.Selection.Family.{quota_family}
use claudex.Selection.Pick.{Sampling, AccountCandidate, is_eligible_candidate}
use claudex.Router.State.{Router, PinEntry}
use claudex.Router.Pins.{purge_expired_pins, ensure_capacity}
use claudex.Router.Pins.Bound.{ensure_capacity-conserves}
use claudex.Router.Place.{
  PlaceRequest, PlacementResult, Placement, placed, place_session, follow_pin, follow_or_place,
  place_new, place_among, insert_chosen, insert_pin, bind_candidate, choose_account,
  eligible_candidates,
}
use claudex.Router.Place.Sticky.{
  IsBound, choose_account-mem, choose_account-some, candidate_named-In, candidate_named-some,
  select-In, In-select,
}

-- The family of the session's key is not given, or it is that of the model.
abbrev pub FamilyFits : PlaceRequest → Type 0
FamilyFits q = (q.session_key.family ≡ unset) ⊎ (q.session_key.family ≡ quota_family q.model)

family_beq_refl : (f : Family) → family_beq f f ≡ true
family_beq_refl unset = refl
family_beq_refl default = refl
family_beq_refl fable = refl

pair_0 : {A B : Type 0} {x y : A × B} → x ≡ y → x.0 ≡ y.0
pair_0 e = ap (λ p. p.0) e

pair_1 : {A B : Type 0} {x y : A × B} → x ≡ y → x.1 ≡ y.1
pair_1 e = ap (λ p. p.1) e

placed_inj : {p p' : PlacementResult} → placed p ≡ placed p' → p ≡ p'
placed_inj e = cc

insert_pin-IsBound :
    (q : PlaceRequest) (c : AccountCandidate) (now : ℤ) (r s : Router) (p : PlacementResult)
    → insert_pin q c now r ≡ (s, placed p)
    → IsBound q p s × (p.account_id ≡ c.account_id) × (Unique r.pins → Unique s.pins)
unfolding insert_pin
insert_pin-IsBound q c now r s p h =
    let hs = pair_0 h in
    let hp = placed_inj (pair_1 h) in
    subst (λ x. IsBound q p x × (p.account_id ≡ c.account_id) × (Unique r.pins → Unique x.pins)) hs
      (subst
        (λ x.
          IsBound q x (insert_pin q c now r).0
          × (x.account_id ≡ c.account_id)
          × (Unique r.pins → Unique (insert_pin q c now r).0.pins))
        hp
        (
          record {
            pin = _;
            stored = get-put_self q.session_key.digest _ r.pins;
            same_account = refl;
            same_generation = refl;
            same_barrier = refl;
          },
          refl,
          put-Unique q.session_key.digest _ r.pins,
        ))

insert_pin-placed :
    (q : PlaceRequest) (c : AccountCandidate) (now : ℤ) (r : Router)
    → (p : PlacementResult) × ((insert_pin q c now r).1 ≡ placed p) × (p.created ≡ true)
unfolding insert_pin
insert_pin-placed q c now r = (_, refl, refl)

pub follow_pin-IsBound :
    (q : PlaceRequest) (e : PinEntry) (r s : Router) (p : PlacementResult)
    → get q.session_key.digest r.pins ≡ some e
    → ◌≡◌ {A = Router × Placement} (r, follow_pin q e) (s, placed p)
    → IsBound q p s × (r ≡ s) × (p.created ≡ false)
follow_pin-IsBound q e r s p there h =
    let hs : r ≡ s = pair_0 h in
    let hp = placed_inj (pair_1 h) in
    (
      record {
        pin = e;
        stored = subst (λ x. get q.session_key.digest x.pins ≡ some e) hs there;
        same_account = ap (λ (x : PlacementResult). x.account_id) hp;
        same_generation = ap (λ (x : PlacementResult). x.generation) hp;
        same_barrier = ap (λ (x : PlacementResult). x.durability_barrier) hp;
      },
      hs,
      sym (ap (λ (x : PlacementResult). x.created) hp),
    )

module _ (sampling : Sampling) (q : PlaceRequest) (now : ℤ) where
  pub place_session-fits :
      (r : Router)
      → FamilyFits q
      → place_session sampling q now r
        ≡ follow_or_place sampling
            (get q.session_key.digest (purge_expired_pins now r).pins)
            q
            now
            (purge_expired_pins now r)
  unfolding place_session
  place_session-fits r (inl e) = rw e refl
  place_session-fits r (inr e) =
      rw (e, family_beq_refl (quota_family q.model))
        (elim (Bool-cases (family_beq (quota_family q.model) unset)) [
          | inl h ↦ rw h refl
          | inr h ↦ rw h refl
        ])

  -- What a placement promises: its pin, and a candidate that was eligible.
  abbrev pub IsSound : Router → Router → PlacementResult → Type 0
  IsSound r s p =
      IsBound q p s
      × (Unique r.pins → Unique s.pins)
      × ((c : AccountCandidate) × In c q.candidates
          × (is_eligible_candidate c now q.already_attempted ≡ true)
          × (c.account_id ≡ p.account_id))

  insert_chosen-IsSound :
      (o : Option AccountCandidate) (r s : Router) (p : PlacementResult)
      → ((c : AccountCandidate)
          → o ≡ some c
          → In c q.candidates × (is_eligible_candidate c now q.already_attempted ≡ true))
      → insert_chosen sampling q o now r ≡ (s, placed p)
      → IsSound r s p
  insert_chosen-IsSound none r s p f h = absurd (let e = pair_1 h in cc)
  insert_chosen-IsSound (some c) r s p f h =
      let (bound, same, unique) = insert_pin-IsBound q c now (ensure_capacity now true r) s p h in
      let (i, ok) = f c refl in
      (bound, λ u. unique (ensure_capacity-conserves now true r u).1, (c, i, ok, sym same))

  bind_candidate-eligible :
      (o : Option AccountId) (c : AccountCandidate)
      → bind_candidate sampling o (eligible_candidates sampling q now) ≡ some c
      → In c q.candidates × (is_eligible_candidate c now q.already_attempted ≡ true)
  bind_candidate-eligible none c h = absurd (cc)
  bind_candidate-eligible (some a) c h =
      select-In _ q.candidates c (candidate_named-In a (eligible_candidates sampling q now) c h).0

  pub place_new-IsSound :
      (r s : Router) (p : PlacementResult)
      → place_new sampling q now r ≡ (s, placed p)
      → IsSound r s p
  place_new-IsSound r s p h = of_list (eligible_candidates sampling q now) refl h
    where
      of_list :
          (cs : List AccountCandidate)
          → eligible_candidates sampling q now ≡ cs
          → place_among sampling q cs now r ≡ (s, placed p)
          → IsSound r s p
      of_list [] e g = absurd (let f = pair_1 g in cc)
      of_list (c ∷ cs) e g =
          insert_chosen-IsSound _ r s p
            (λ d k. bind_candidate-eligible (choose_account sampling q (c ∷ cs) now r) d (
              subst
                (λ x. bind_candidate sampling (choose_account sampling q (c ∷ cs) now r) x ≡ some d)
                (sym e) k))
            g

  pub place_new-total :
      (r : Router) (c : AccountCandidate)
      → In c q.candidates
      → is_eligible_candidate c now q.already_attempted ≡ true
      → (p : PlacementResult) × ((place_new sampling q now r).1 ≡ placed p) × (p.created ≡ true)
  place_new-total r c i ok =
      of_list (eligible_candidates sampling q now) (In-select _ q.candidates c i ok)
    where
      of_list :
          (cs : List AccountCandidate)
          → cs ≢ []
          → (p : PlacementResult) × ((place_among sampling q cs now r).1 ≡ placed p)
            × (p.created ≡ true)
      of_list [] n = absurd (n refl)
      of_list (d ∷ ds) n =
          let (a, chosen) = choose_account-some sampling q now r d ds in
          let (b, named) =
            candidate_named-some a (d ∷ ds)
              (choose_account-mem sampling q now r (d ∷ ds) a chosen) in
          rw (chosen, named) (insert_pin-placed q b now (ensure_capacity now true r))
