-- ===== src/Negotiation/Authorization.antt =====
-- packages/negotiation/authorization.ts: the decision that alone may grant a concession.
pub mod Permitted
pub mod Offers
use ai_receptionist.Base.{
  ℕ, ◌≤◌, String, Bool, true, false, ◌&&◌, List, [], ◌∷◌, map, Option, none, some, leb, ltb, keep,
  find, includes, Dict, lookup, or_else, is_some, if◌then◌else◌, ◌=ˢ◌,
}
use ai_receptionist.Negotiation.Policy.{
  ConcessionType, free_addon, discount_percent, ConcessionCondition, Concession, Quote,
  PriceDisclosure, no_figures, NegotiationPolicy, exceeds, is_discount_percent,
}

pub data ConcessionDenial : Type 0 where
  unknown no_authorized_value condition_unmet already_offered needs_human_approval :
      ConcessionDenial

-- One constructor for each text of `detail`, with what the text names.
pub data Detail : Type 0 where
  not_authorized no_figure_yet offered_on_this_call team_must_approve outside_limits : Detail
  depends_on : String → Detail
  above_percent : Option ℕ → Detail

pub record AuthorizedOffer : Type 0 where
  pub id : String
  pub kind : ConcessionType
  pub value : Option ℕ
  pub script : String
  pub label : String

pub data ConcessionDecision : Type 0 where
  allowed : AuthorizedOffer → ConcessionDecision
  denied : ConcessionDenial → String → Detail → ConcessionDecision

pub record NegotiationSnapshot : Type 0 where
  pub fields : Dict String
  pub offered : Dict ℕ
  pub requests : ℕ

abbrev pub empty_negotiation_snapshot : NegotiationSnapshot
empty_negotiation_snapshot = record { fields = []; offered = []; requests = 0 }

-- `Object.values(text)[0] ?? ""`
abbrev pub first_text : Dict String → String
first_text [] = ""
first_text ((k, s) ∷ text) = s

unfoldable pub pick : Dict String → String → String → String
pick text language fallback =
    or_else (lookup language text) (or_else (lookup fallback text) (first_text text))

abbrev pub is_free_addon : ConcessionType → Bool
is_free_addon free_addon = true
is_free_addon _ = false

-- `captured === undefined || !condition.in.includes(captured)`
unfoldable pub condition_fails : Dict String → ConcessionCondition → Bool
condition_fails fields c = elim (lookup c.field fields) [
  | none ↦ true
  | some captured ↦ if includes c.one_of captured then false else true
]

-- The loop over the conditions: the first one that fails.
unfoldable pub unmet : Dict String → List ConcessionCondition → Option ConcessionCondition
unmet fields conditions = find (condition_fails fields) conditions

-- Offers are keyed by id; that an object in JavaScript answers to the names of its prototype, as
-- `constructor`, has no part here.
unfoldable pub times_offered : NegotiationSnapshot → String → ℕ
times_offered s id = or_else (lookup id s.offered) 0

unfoldable pub offer_of : NegotiationPolicy → Option String → Concession → AuthorizedOffer
offer_of policy language c =
    let lang = or_else language policy.language in
    record {
      id = c.id;
      kind = c.kind;
      value = c.value;
      script = pick c.script lang policy.language;
      label = pick c.label lang policy.language;
    }

-- From the approval test to the end.
unfoldable pub approve :
    NegotiationPolicy → String → Option String → Concession → ConcessionDecision
approve policy id language c =
    if c.requires_approval
    then denied needs_human_approval id team_must_approve
    else if is_discount_percent c.kind
        && exceeds c.value policy.escalation.human_approval_above_percent
    then denied needs_human_approval id
        (above_percent policy.escalation.human_approval_above_percent)
    else if is_discount_percent c.kind && exceeds c.value policy.floors.max_discount_percent
    then denied needs_human_approval id outside_limits
    else allowed (offer_of policy language c)

-- `authorizeConcession` once the concession is found.
unfoldable pub decide_concession :
    NegotiationPolicy
    → NegotiationSnapshot
    → String
    → Option String
    → Concession
    → ConcessionDecision
decide_concession policy snapshot id language c =
    if is_some c.value
    then conditions
    else if is_free_addon c.kind
    then conditions
    else denied no_authorized_value id no_figure_yet
  where
    conditions : ConcessionDecision
    conditions = elim (unmet snapshot.fields c.conditions) [
      | some condition ↦ denied condition_unmet id (depends_on condition.field)
      | none ↦
          if leb c.max_per_conversation (times_offered snapshot id)
          then denied already_offered id offered_on_this_call
          else approve policy id language c
    ]

unfoldable pub find_concession : NegotiationPolicy → String → Option Concession
find_concession policy id = find (λ c. c.id =ˢ id) policy.concessions

unfoldable pub authorize_concession :
    NegotiationPolicy → NegotiationSnapshot → String → Option String → ConcessionDecision
authorize_concession policy snapshot id language = elim (find_concession policy id) [
  | none ↦ denied unknown id not_authorized
  | some c ↦ decide_concession policy snapshot id language c
]

abbrev pub add_offer : ConcessionDecision → List AuthorizedOffer → List AuthorizedOffer
add_offer (allowed o) offers = o ∷ offers
add_offer (denied reason id detail) offers = offers

-- The loop of `availableConcessions`.
unfoldable pub offers_among :
    NegotiationPolicy → NegotiationSnapshot → Option String → List Concession → List AuthorizedOffer
offers_among policy snapshot language [] = []
offers_among policy snapshot language (c ∷ cs) =
    add_offer (authorize_concession policy snapshot c.id language)
      (offers_among policy snapshot language cs)

unfoldable pub available_concessions :
    NegotiationPolicy → NegotiationSnapshot → Option String → List AuthorizedOffer
available_concessions policy snapshot language =
    offers_among policy snapshot language policy.concessions

abbrev pub is_approvable : ConcessionDecision → Bool
is_approvable (denied needs_human_approval id detail) = true
is_approvable _ = false

unfoldable pub approvable_concessions : NegotiationPolicy → NegotiationSnapshot → List String
approvable_concessions policy snapshot =
    map (λ c. Concession.id c)
      (keep (λ c. is_approvable (authorize_concession policy snapshot c.id none))
        policy.concessions)

abbrev pub is_nil : List AuthorizedOffer → Bool
is_nil [] = true
is_nil (_ ∷ _) = false

unfoldable pub should_escalate : NegotiationPolicy → NegotiationSnapshot → Bool → Bool
should_escalate policy snapshot unlisted_request =
    if unlisted_request && policy.escalation.escalate_on_unlisted_request
    then true
    else leb policy.escalation.requests_before_human snapshot.requests
      && is_nil (available_concessions policy snapshot none)

-- What `disclosableQuotes` returns of each quote.
pub record Figure : Type 0 where
  pub label : String
  pub amount : ℕ
  pub unit : String

abbrev pub add_figure : NegotiationPolicy → Option String → Quote → List Figure → List Figure
add_figure policy language q rest = elim q.amount [
  | none ↦ rest
  | some amount ↦
      record {
        label = pick q.label (or_else language policy.language) policy.language;
        amount = amount;
        unit = q.unit;
      }
      ∷ rest
]

unfoldable pub figures : NegotiationPolicy → Option String → List Quote → List Figure
figures policy language [] = []
figures policy language (q ∷ qs) = add_figure policy language q (figures policy language qs)

abbrev pub if_disclosed : PriceDisclosure → List Figure → List Figure
if_disclosed no_figures l = []
if_disclosed _ l = l

unfoldable pub disclosable_quotes : NegotiationPolicy → Option String → List Figure
disclosable_quotes policy language =
    if_disclosed policy.price_disclosure (figures policy language policy.quotes)
