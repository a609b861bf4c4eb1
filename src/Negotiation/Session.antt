-- ===== src/Negotiation/Session.antt =====
-- packages/negotiation/system-action.ts and tool.ts: the state that lives for one call. A turn is
-- `prepare` (its text for the model is left out, its changes of state are not), and an attempt is a
-- call of the `offer_concession` executor, which authorizes again and only then records.
pub mod Budget
use ai_receptionist.Base.{
  ℕ, suc, zero, ◌+◌, String, Bool, true, false, List, [], ◌∷◌, Option, none, some, Dict, lookup,
  insert, or_else,
}
use ai_receptionist.Negotiation.Policy.{NegotiationPolicy}
use ai_receptionist.Negotiation.Authorization.{
  ConcessionDecision, AuthorizedOffer, allowed, denied, NegotiationSnapshot,
  empty_negotiation_snapshot, times_offered, authorize_concession,
}
use ai_receptionist.Negotiation.Objections.{
  ObjectionCatalog, ObjectionMatch, ObjectionHistory, record_objections, match_objections,
}

pub record NegotiationSession : Type 0 where
  pub snapshot : NegotiationSnapshot
  pub history : ObjectionHistory

abbrev pub new_session : NegotiationSession
new_session = record { snapshot = empty_negotiation_snapshot; history = [] }

unfoldable pub record_offer : String → NegotiationSession → NegotiationSession
record_offer id s = record s {
  snapshot = record s.snapshot {
    offered = insert id (suc (times_offered s.snapshot id)) s.snapshot.offered;
  };
}

-- `requests + (matches.length > 0 ? 1 : 0)`
abbrev pub count_request : List ObjectionMatch → ℕ → ℕ
count_request [] n = n
count_request (m ∷ ms) n = n + 1

-- The changes of state of `prepare`, once the objections are matched.
unfoldable pub note_turn :
    List ObjectionMatch → Option (Dict String) → NegotiationSession → NegotiationSession
note_turn matches qualification s = record {
  snapshot = record s.snapshot {
    fields = or_else qualification s.snapshot.fields;
    requests = count_request matches s.snapshot.requests;
  };
  history = record_objections s.history matches;
}

-- `concessionExecutor`: the new state, and the decision.
unfoldable pub offer_concession :
    NegotiationPolicy
    → Option String
    → String
    → NegotiationSession
    → NegotiationSession × ConcessionDecision
offer_concession policy language id s = elim (authorize_concession policy s.snapshot id language) [
  | allowed o ↦ (record_offer o.id s, allowed o)
  | denied reason at detail ↦ (s, denied reason at detail)
]

-- What happens on a call: the caller says something (with what `qualification?.()` then returns), or
-- the model proposes a concession.
pub data CallEvent : Type 0 where
  turn : String → Option (Dict String) → CallEvent
  attempt : String → CallEvent

abbrev pub granted : ConcessionDecision → List AuthorizedOffer → List AuthorizedOffer
granted (allowed o) os = o ∷ os
granted (denied reason at detail) os = os

module _ (normalize_for_matching : String → String) (contains : String → String → Bool)
    (catalog : ObjectionCatalog) where
  unfoldable pub prepare : String → Option (Dict String) → NegotiationSession → NegotiationSession
  prepare user_message qualification s =
      note_turn (match_objections normalize_for_matching contains user_message catalog)
        qualification s

  module _ (policy : NegotiationPolicy) (language : Option String) where
    unfoldable pub run_call : NegotiationSession → List CallEvent → NegotiationSession
    run_call s [] = s
    run_call s (turn message qualification ∷ es) = run_call (prepare message qualification s) es
    run_call s (attempt id ∷ es) = run_call (offer_concession policy language id s).0 es

    -- The offers granted on the call, in order.
    unfoldable pub offers_granted : NegotiationSession → List CallEvent → List AuthorizedOffer
    offers_granted s [] = []
    offers_granted s (turn message qualification ∷ es) =
        offers_granted (prepare message qualification s) es
    offers_granted s (attempt id ∷ es) =
        granted (offer_concession policy language id s).1
          (offers_granted (offer_concession policy language id s).0 es)
