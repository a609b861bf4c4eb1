-- ===== src/Negotiation/Authorization/Permitted.antt =====
-- When `authorizeConcession` says yes.
use ai_receptionist.Base.{
  ℕ, ◌≤◌, ◌<◌, ◌≡◌, ◌≢◌, refl, ◌⊎◌, inl, inr, ◌↔◌, String, true, false, ◌&&◌, List, [], ◌∷◌, Option,
  none, some, arith, leb, find-All, All, includes, Dict, lookup, is_some, ◌=ˢ◌, Option-cases,
}
use ai_receptionist.Negotiation.Policy.{
  free_addon, discount_percent, ConcessionCondition, Concession, NegotiationPolicy, exceeds,
  is_discount_percent,
}
use ai_receptionist.Negotiation.Policy.WellFormed.{
  InRange, InRange-test, test-InRange, IsSound, IsWellFormed,
}
use ai_receptionist.Negotiation.Authorization.{
  needs_human_approval, outside_limits, AuthorizedOffer, allowed, denied, NegotiationSnapshot,
  is_free_addon, condition_fails, unmet, times_offered, offer_of, approve, decide_concession,
  find_concession, authorize_concession,
}

-- The call has established one of the values that the condition names.
abbrev pub IsMet : Dict String → ConcessionCondition → Type 0
IsMet fields c = (v : String) × (lookup c.field fields ≡ some v) × (includes c.one_of v ≡ true)

-- All that the policy asks of a concession before the agent may offer it.
pub record IsPermitted (policy : NegotiationPolicy) (s : NegotiationSnapshot) (id : String)
    (c : Concession) : Type 0 where
  pub valued : (c.value ≢ none) ⊎ (c.kind ≡ free_addon)
  pub met : All (IsMet s.fields) c.conditions
  pub offers_left : times_offered s id < c.max_per_conversation
  pub approved : c.requires_approval ≡ false
  pub below_threshold :
      (v t : ℕ)
      → c.kind ≡ discount_percent
      → c.value ≡ some v
      → policy.escalation.human_approval_above_percent ≡ some t
      → v ≤ t
  pub within_floor :
      (v m : ℕ)
      → c.kind ≡ discount_percent
      → c.value ≡ some v
      → policy.floors.max_discount_percent ≡ some m
      → v ≤ m

condition_IsMet :
    (fields : Dict String) (c : ConcessionCondition)
    → (condition_fails fields c ≡ false) ↔ IsMet fields c
unfolding condition_fails
condition_IsMet fields c = (
  (λ h. elim (Option-cases (lookup c.field fields)) [
    | inl gone ↦ absurd (ground arith)
    | inr (v, e) ↦ (v, e, ground arith)
  ]),
  (λ (v, e, i). ground arith),
)

unmet_iff :
    (fields : Dict String) (cs : List ConcessionCondition)
    → (unmet fields cs ≡ none) ↔ All (IsMet fields) cs
unfolding unmet
unmet_iff fields [] = ((λ h. tt), (λ h. refl))
unmet_iff fields (c ∷ cs) =
    let (to, from) = unmet_iff fields cs in
    (
      (λ h. ((condition_IsMet fields c).0 (ground arith), to (ground arith))),
      (λ (m, ms). rw ((condition_IsMet fields c).1 m) (from ms)),
    )

Grants : NegotiationPolicy → Option String → Concession → AuthorizedOffer → Type 0
Grants policy language c o =
    (c.requires_approval ≡ false)
    × InRange c.kind c.value policy.escalation.human_approval_above_percent
    × InRange c.kind c.value policy.floors.max_discount_percent
    × (o ≡ offer_of policy language c)

approve_iff :
    (policy : NegotiationPolicy) (id : String) (language : Option String) (c : Concession)
    (o : AuthorizedOffer)
    → (approve policy id language c ≡ allowed o) ↔ Grants policy language c o
unfolding approve Grants
approve_iff policy id language c o = (
  (λ h. (
    ground arith,
    test-InRange c.kind c.value policy.escalation.human_approval_above_percent (ground arith),
    test-InRange c.kind c.value policy.floors.max_discount_percent (ground arith),
    ground arith,
  )),
  (λ (a, t, f, e). ground (
    arith,
    InRange-test c.kind c.value policy.escalation.human_approval_above_percent t,
    InRange-test c.kind c.value policy.floors.max_discount_percent f,
  )),
)

decide_tests :
    (policy : NegotiationPolicy) (s : NegotiationSnapshot) (id : String) (language : Option String)
    (c : Concession) (o : AuthorizedOffer)
    → decide_concession policy s id language c ≡ allowed o
    → ((is_some c.value ≡ true) ⊎ (is_free_addon c.kind ≡ true))
      × (unmet s.fields c.conditions ≡ none)
      × (leb c.max_per_conversation (times_offered s id) ≡ false)
      × (approve policy id language c ≡ allowed o)
unfolding decide_concession
decide_tests policy s id language c o h = ground arith

decide_sound :
    (policy : NegotiationPolicy) (s : NegotiationSnapshot) (id : String) (language : Option String)
    (c : Concession) (o : AuthorizedOffer)
    → decide_concession policy s id language c ≡ allowed o
    → IsPermitted policy s id c × (o ≡ offer_of policy language c)
unfolding Grants
decide_sound policy s id language c o h =
    let (valued, met, left, granted) = decide_tests policy s id language c o h in
    let (a, t, f, e) = (approve_iff policy id language c o).0 granted in
    (
      record {
        valued = ground arith;
        met = (unmet_iff s.fields c.conditions).0 met;
        offers_left = ground arith;
        approved = a;
        below_threshold = t;
        within_floor = f;
      },
      e,
    )

decide_complete :
    (policy : NegotiationPolicy) (s : NegotiationSnapshot) (id : String) (language : Option String)
    (c : Concession)
    → IsPermitted policy s id c
    → decide_concession policy s id language c ≡ allowed (offer_of policy language c)
unfolding decide_concession Grants
decide_complete policy s id language c p = ground (
  arith,
  p.valued,
  p.offers_left,
  (unmet_iff s.fields c.conditions).1 p.met,
  (approve_iff policy id language c (offer_of policy language c)).1
      (p.approved, p.below_threshold, p.within_floor, refl),
)

-- An offer is granted exactly if the policy's first concession of that id is permitted: it has a
-- value (or is a free extra), every condition is met by what the call has established, it was
-- offered fewer times than it may be, nobody has to approve it, and as a percentage it lies within
-- the approval threshold and the floor. The offer granted is the concession as the policy has it.
pub authorize_concession_iff :
    (policy : NegotiationPolicy) (s : NegotiationSnapshot) (id : String) (language : Option String)
    (o : AuthorizedOffer)
    → (authorize_concession policy s id language ≡ allowed o) ↔ (
        (c : Concession) × (find_concession policy id ≡ some c)
        × IsPermitted policy s id c
        × (o ≡ offer_of policy language c))
unfolding authorize_concession
authorize_concession_iff policy s id language o = (
  (λ h. elim (Option-cases (find_concession policy id)) [
    | inl gone ↦ absurd (ground arith)
    | inr (c, found) ↦
        let (p, e) = decide_sound policy s id language c o (ground arith) in (c, found, p, e)
  ]),
  (λ (c, found, p, e). ground (arith, decide_complete policy s id language c p)),
)

past_floor :
    (policy : NegotiationPolicy) (s : NegotiationSnapshot) (id : String) (language : Option String)
    (c : Concession)
    → decide_concession policy s id language c ≡ denied needs_human_approval id outside_limits
    → (is_discount_percent c.kind && exceeds c.value policy.floors.max_discount_percent) ≡ true
unfolding decide_concession approve
past_floor policy s id language c h = ground arith

-- In a policy that was loaded, the last refusal of the code is never reached: no concession is
-- refused for lying outside the floor.
pub never_outside_limits :
    (policy : NegotiationPolicy) (s : NegotiationSnapshot) (id : String) (language : Option String)
    → IsWellFormed policy
    → authorize_concession policy s id language ≢ denied needs_human_approval id outside_limits
unfolding authorize_concession find_concession
never_outside_limits policy s id language w h = elim (Option-cases (find_concession policy id)) [
  | inl gone ↦ ground arith
  | inr (c, found) ↦
      let sound =
        find-All (IsSound policy.language policy.floors) (λ d. d.id =ˢ id) policy.concessions
          w.sound found in
      ground (
        arith,
        past_floor policy s id language c (ground arith),
        InRange-test c.kind c.value policy.floors.max_discount_percent sound.floor,
      )
]
