-- ===== src/Examples/Negotiation.antt =====
-- Properties of the negotiation at concrete input: a policy with one discount and one quote.
use mathlib.Core.List.{Memᴰ}
use ai_receptionist.Base.{
  ℕ, ◌≡◌, refl, ◌↔◌, ◌≤◌, String, Bool, true, false, List, [], ◌∷◌, none, some, lookup,
}
use ai_receptionist.Negotiation.Policy.{
  discount_percent, Concession, Quote, exact, NegotiationPolicy, SafeParse, success, ok,
  parse_negotiation_policy, missing, exceeds, concession_errors, concessions_errors, quotes_errors,
  financing_errors, policy_errors,
}
use ai_receptionist.Negotiation.Policy.WellFormed.{IsWellFormed, parse_negotiation_policy_iff}
use ai_receptionist.Negotiation.Authorization.{
  allowed, empty_negotiation_snapshot, authorize_concession, find_concession, offer_of,
  disclosable_quotes, Figure, figures, pick,
}
use ai_receptionist.Negotiation.Authorization.Permitted.{IsPermitted, authorize_concession_iff}
use ai_receptionist.Negotiation.Objections.{Objection, ObjectionCatalog, ObjectionMatch}
use ai_receptionist.Negotiation.Session.{CallEvent, turn, attempt, offers_granted, new_session}
use ai_receptionist.Negotiation.Session.Budget.{grants_of, budget, offers_granted-le-budget}

abbrev discount : Concession
discount = record {
  id = "early";
  label = ("en", "early bird") ∷ [];
  kind = discount_percent;
  value = some 5;
  conditions = [];
  requires_approval = false;
  script = ("en", "five percent off") ∷ [];
  max_per_conversation = 1;
}

abbrev site_visit : Quote
site_visit = record {
  id = "visit";
  label = ("en", "site visit") ∷ [];
  amount = some 500;
  unit = "INR";
}

abbrev policy : NegotiationPolicy
policy = record {
  version = "1";
  language = "en";
  currency = "INR";
  price_disclosure = exact;
  quotes = site_visit ∷ [];
  concessions = discount ∷ [];
  floors = record { min_amount = none; max_discount_percent = some 10 };
  financing = [];
  escalation = record {
    requests_before_human = 2;
    escalate_on_unlisted_request = true;
    human_approval_above_percent = none;
  };
  prohibited_promises = [];
}

abbrev parsed : ℕ → SafeParse
parsed raw = success policy

abbrev objection : Objection
objection = record {
  id = "price";
  cues = [];
  acknowledge = [];
  evidence = [];
  follow_up = none;
  escalate_after = 2;
  ends_qualification = false;
}

abbrev catalog : ObjectionCatalog
catalog = record { version = "1"; language = "en"; objections = objection ∷ [] }

abbrev price_match : ObjectionMatch
price_match = record { objection = objection; cue = "costly"; language = "en" }

abbrev unchanged : String → String
unchanged t = t

abbrev never_contains : String → String → Bool
never_contains t cue = false

parse_negotiation_policy_iff_example :
    (parse_negotiation_policy parsed 0 ≡ ok policy)
    ↔ ((parsed 0 ≡ success policy) × IsWellFormed policy)
parse_negotiation_policy_iff_example = parse_negotiation_policy_iff parsed 0 policy

policy-IsWellFormed : IsWellFormed policy
unfolding parse_negotiation_policy policy_errors concessions_errors concession_errors quotes_errors
    financing_errors missing exceeds lookup
policy-IsWellFormed = ((parse_negotiation_policy_iff parsed 0 policy).0 refl).1

authorize_concession_iff_example :
    (authorize_concession policy empty_negotiation_snapshot "early" none
      ≡ allowed (offer_of policy none discount))
    ↔ ((c : Concession) × (find_concession policy "early" ≡ some c)
        × IsPermitted policy empty_negotiation_snapshot "early" c
        × (offer_of policy none discount ≡ offer_of policy none c))
authorize_concession_iff_example =
    authorize_concession_iff policy empty_negotiation_snapshot "early" none
      (offer_of policy none discount)

abbrev visit_figure : Figure
visit_figure = record { label = "site visit"; amount = 500; unit = "INR" }

visit_shown : Memᴰ visit_figure (disclosable_quotes policy none)
unfolding disclosable_quotes figures pick lookup
visit_shown = Memᴰ.head refl

abbrev call : List CallEvent
call = turn "too costly" none ∷ attempt "early" ∷ attempt "early" ∷ []

offers_granted-le-budget_example :
    grants_of "early" (offers_granted unchanged never_contains catalog policy none new_session call)
    ≤ budget policy none "early"
offers_granted-le-budget_example =
    offers_granted-le-budget unchanged never_contains catalog policy none "early" call
