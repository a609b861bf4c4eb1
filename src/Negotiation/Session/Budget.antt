-- ===== src/Negotiation/Session/Budget.antt =====
-- How often a concession can be offered on one call, and how often an objection is counted.
use ai_receptionist.Base.{
  ℕ, suc, ◌+◌, ◌≤◌, ◌<◌, ◌≡◌, refl, String, Bool, List, [], ◌∷◌, Option, none, some, arith, eq_iff,
  find, tally, Dict, lookup, insert, lookup-insert, or_else, if◌then◌else◌, ◌=ˢ◌,
}
use ai_receptionist.Negotiation.Policy.{Concession, NegotiationPolicy}
use ai_receptionist.Negotiation.Authorization.{
  ConcessionDecision, AuthorizedOffer, allowed, denied, NegotiationSnapshot, times_offered,
  offer_of, find_concession, authorize_concession,
}
use ai_receptionist.Negotiation.Authorization.Permitted.{authorize_concession_iff}
use ai_receptionist.Negotiation.Objections.{
  ObjectionCatalog, match_objections, ObjectionMatch, ObjectionHistory, record_objections,
}
use ai_receptionist.Negotiation.Session.{
  NegotiationSession, new_session, record_offer, prepare, note_turn, offer_concession, CallEvent,
  turn, attempt, granted, offers_granted,
}

-- How often the concession was granted.
abbrev pub grants_of : String → List AuthorizedOffer → ℕ
grants_of id os = tally (λ o. o.id =ˢ id) os

module _ (policy : NegotiationPolicy) (language : Option String) where
  -- What the id's concession allows on one call, nothing where there is none.
  abbrev pub budget : String → ℕ
  budget id = elim (find_concession policy id) [ none ↦ 0 | some c ↦ c.max_per_conversation ]

  times-note_turn :
      (ms : List ObjectionMatch) (q : Option (Dict String)) (s : NegotiationSession) (id : String)
      → times_offered (note_turn ms q s).snapshot id ≡ times_offered s.snapshot id
  unfolding note_turn times_offered
  times-note_turn ms q s id = refl

  times-record_offer :
      (s : NegotiationSession) (id other : String)
      → times_offered (record_offer id s).snapshot other ≡ (
          if id =ˢ other then suc (times_offered s.snapshot id) else times_offered s.snapshot other)
  unfolding record_offer times_offered
  times-record_offer s id other = ground (
    arith,
    lookup-insert id other (suc (or_else (lookup id s.snapshot.offered) 0)) s.snapshot.offered,
  )

  found_id :
      (id : String) (cs : List Concession) (c : Concession)
      → find (λ d. d.id =ˢ id) cs ≡ some c
      → c.id ≡ id
  found_id id [] c e = cc
  found_id id (d ∷ cs) c e = ground (arith, eq_iff d.id id, found_id id cs c)

  -- A granted offer bears the id that was proposed, and its budget was not used up.
  granted_facts :
      (id : String) (s : NegotiationSnapshot) (o : AuthorizedOffer)
      → authorize_concession policy s id language ≡ allowed o
      → (o.id ≡ id) × (times_offered s id < budget id)
  unfolding find_concession offer_of
  granted_facts id s o h =
      let (c, found, p, e) = (authorize_concession_iff policy s id language o).0 h in
      (ground (arith, found_id id policy.concessions c found), ground (arith, p.offers_left))

  -- One call of the executor counts exactly what it grants, and keeps within the budget.
  abbrev Counts : String → NegotiationSession → NegotiationSession → ConcessionDecision → Type 0
  Counts other s t d =
      (times_offered t.snapshot other
        ≡ grants_of other (granted d []) + times_offered s.snapshot other)
      × (times_offered t.snapshot other ≤ budget other)

  Counts-grant :
      (id other : String) (s : NegotiationSession) (o : AuthorizedOffer)
      → times_offered s.snapshot other ≤ budget other
      → authorize_concession policy s.snapshot id language ≡ allowed o
      → Counts other s (record_offer o.id s) (allowed o)
  Counts-grant id other s o h e =
      let (same, room) = granted_facts id s.snapshot o e in
      ground (arith, times-record_offer s o.id other, eq_iff o.id other)

  Counts-offer_concession :
      (id other : String) (s : NegotiationSession)
      → times_offered s.snapshot other ≤ budget other
      → Counts other s
          (offer_concession policy language id s).0
          (offer_concession policy language id s).1
  unfolding offer_concession
  Counts-offer_concession id other s h =
      by_decision (authorize_concession policy s.snapshot id language) refl
    where
      by_decision :
          (d : ConcessionDecision)
          → authorize_concession policy s.snapshot id language ≡ d
          → Counts other s
              (offer_concession policy language id s).0
              (offer_concession policy language id s).1
      by_decision (allowed o) e = rw (e, offer_concession) (Counts-grant id other s o h e)
      by_decision (denied reason at detail) e = rw (e, offer_concession) (omega arith, h)

grants-granted :
    (id : String) (d : ConcessionDecision) (os : List AuthorizedOffer)
    → grants_of id (granted d os) ≡ grants_of id (granted d []) + grants_of id os
grants-granted id (allowed o) os = ground arith
grants-granted id (denied reason at detail) os = omega arith

module _ (normalize : String → String) (contains : String → String → Bool)
    (catalog : ObjectionCatalog) (policy : NegotiationPolicy) (language : Option String) where
  run_call_counts :
      (id : String) (s : NegotiationSession) (es : List CallEvent)
      → times_offered s.snapshot id ≤ budget policy language id
      → grants_of id (offers_granted normalize contains catalog policy language s es)
          + times_offered s.snapshot id
        ≤ budget policy language id
  unfolding offers_granted prepare
  run_call_counts id s [] h = omega arith
  run_call_counts id s (turn m q ∷ es) h =
      let ms = match_objections normalize contains m catalog in
      omega (
        arith,
        times-note_turn policy language ms q s id,
        run_call_counts id (note_turn ms q s) es
            (omega (arith, times-note_turn policy language ms q s id)),
      )
  run_call_counts id s (attempt p ∷ es) h =
      let (counted, within) = Counts-offer_concession policy language p id s h in
      omega (
        arith,
        counted,
        grants-granted id (offer_concession policy language p s).1 (
            offers_granted normalize contains catalog policy language
              (offer_concession policy language p s).0 es),
        run_call_counts id (offer_concession policy language p s).0 es within,
      )

  -- On one call, whatever is said and whatever the model proposes in whatever order, no concession
  -- is granted more often than the policy allows, and none that the policy does not list.
  pub offers_granted-le-budget :
      (id : String) (es : List CallEvent)
      → grants_of id (offers_granted normalize contains catalog policy language new_session es)
        ≤ budget policy language id
  unfolding times_offered
  offers_granted-le-budget id es =
      omega (arith, run_call_counts id new_session es (unfold times_offered lookup in omega arith))

-- Matching and counting objections: each adds one under its id, and nothing elsewhere.
pub lookup-record_objections :
    (history : ObjectionHistory) (ms : List ObjectionMatch) (id : String)
    → or_else (lookup id (record_objections history ms)) 0
      ≡ tally (λ m. m.objection.id =ˢ id) ms + or_else (lookup id history) 0
unfolding record_objections
lookup-record_objections history [] id = omega arith
lookup-record_objections history (m ∷ ms) id =
    let count = suc (or_else (lookup m.objection.id history) 0) in
    ground (
      arith,
      lookup-record_objections (insert m.objection.id count history) ms id,
      lookup-insert m.objection.id id count history,
      eq_iff m.objection.id id,
    )
