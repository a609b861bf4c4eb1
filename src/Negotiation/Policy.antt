-- ===== src/Negotiation/Policy.antt =====
-- packages/negotiation/policy.ts: a tenant's commercial policy and the checks that load it.
-- Amounts and percentages are whole here (the schema also admits fractions). `safeParse` of the schema is zod's,
-- and is a parameter: it gives the parsed policy, or how many issues it found.
pub mod WellFormed
use ai_receptionist.Base.{
  ℕ, String, Bool, true, false, not, ◌&&◌, List, [], ◌∷◌, ◌++◌, Option, none, some, ltb, all,
  is_some, includes, Dict, lookup, if◌then◌else◌, ◌=ˢ◌,
}

pub data ConcessionType : Type 0 where
  discount_percent discount_amount free_addon payment_terms price_hold : ConcessionType

pub record ConcessionCondition : Type 0 where
  pub field : String
  -- `in`
  pub one_of : List String

pub record Concession : Type 0 where
  pub id : String
  pub label : Dict String
  -- `type`
  pub kind : ConcessionType
  pub value : Option ℕ
  pub conditions : List ConcessionCondition
  pub requires_approval : Bool
  pub script : Dict String
  pub max_per_conversation : ℕ

pub record Quote : Type 0 where
  pub id : String
  pub label : Dict String
  pub amount : Option ℕ
  pub unit : String

pub record FinancingOption : Type 0 where
  pub id : String
  pub label : Dict String
  pub description : Dict String
  pub verified : Bool

-- `no_figures` is the text "none".
pub data PriceDisclosure : Type 0 where
  no_figures range exact : PriceDisclosure

pub record Floors : Type 0 where
  pub min_amount : Option ℕ
  pub max_discount_percent : Option ℕ

pub record Escalation : Type 0 where
  pub requests_before_human : ℕ
  pub escalate_on_unlisted_request : Bool
  pub human_approval_above_percent : Option ℕ

pub record NegotiationPolicy : Type 0 where
  pub version : String
  pub language : String
  pub currency : String
  pub price_disclosure : PriceDisclosure
  pub quotes : List Quote
  pub concessions : List Concession
  pub floors : Floors
  pub financing : List FinancingOption
  pub escalation : Escalation
  pub prohibited_promises : List String

-- One constructor for each message, with the id that the message names.
pub data PolicyError : Type 0 where
  schema_issue : PolicyError
  duplicate_id no_script no_label above_hundred above_floor : String → PolicyError
  quote_without_label financing_without_description : String → PolicyError
  nothing_to_disclose : PolicyError

pub data PolicyParseResult : Type 0 where
  ok : NegotiationPolicy → PolicyParseResult
  rejected : List PolicyError → PolicyParseResult

-- `!text[lang]`: no entry, or an empty one
unfoldable pub missing : Dict String → String → Bool
missing text lang = elim (lookup lang text) [ none ↦ true | some s ↦ s =ˢ "" ]

abbrev pub is_discount_percent : ConcessionType → Bool
is_discount_percent discount_percent = true
is_discount_percent _ = false

-- `a !== null && b !== null && a > b`
unfoldable pub exceeds : Option ℕ → Option ℕ → Bool
exceeds (some a) (some b) = ltb b a
exceeds _ _ = false

abbrev pub error_if : Bool → PolicyError → List PolicyError
error_if b e = if b then e ∷ [] else []

unfoldable pub concession_errors : String → Floors → List String → Concession → List PolicyError
concession_errors lang floors ids c =
    error_if (includes ids c.id) (duplicate_id c.id)
    ++ (error_if (missing c.script lang) (no_script c.id)
        ++ (error_if (missing c.label lang) (no_label c.id)
            ++ (error_if (is_discount_percent c.kind && exceeds c.value (some 100))
                  (above_hundred c.id)
                ++ error_if
                    (is_discount_percent c.kind && exceeds c.value floors.max_discount_percent)
                    (above_floor c.id))))

-- The loop over the concessions, with the set of the ids seen.
unfoldable pub concessions_errors :
    String → Floors → List String → List Concession → List PolicyError
concessions_errors lang floors ids [] = []
concessions_errors lang floors ids (c ∷ cs) =
    concession_errors lang floors ids c ++ concessions_errors lang floors (c.id ∷ ids) cs

unfoldable pub quotes_errors : String → List Quote → List PolicyError
quotes_errors lang [] = []
quotes_errors lang (q ∷ qs) =
    error_if (missing q.label lang) (quote_without_label q.id) ++ quotes_errors lang qs

unfoldable pub financing_errors : String → List FinancingOption → List PolicyError
financing_errors lang [] = []
financing_errors lang (o ∷ os) =
    error_if (missing o.description lang) (financing_without_description o.id)
    ++ financing_errors lang os

abbrev pub discloses : PriceDisclosure → Bool
discloses no_figures = false
discloses _ = true

-- The cross-checks of `parseNegotiationPolicy`, in their order.
unfoldable pub policy_errors : NegotiationPolicy → List PolicyError
policy_errors p =
    concessions_errors p.language p.floors [] p.concessions
    ++ (quotes_errors p.language p.quotes
        ++ (financing_errors p.language p.financing
            ++ error_if (discloses p.price_disclosure && all (λ q. not (is_some q.amount)) p.quotes)
                nothing_to_disclose))

-- What `safeParse` returns.
pub data SafeParse : Type 0 where
  success : NegotiationPolicy → SafeParse
  failure : ℕ → SafeParse

abbrev pub issues : ℕ → List PolicyError
issues ℕ.zero = []
issues (ℕ.suc n) = schema_issue ∷ issues n

abbrev accept_if_none : NegotiationPolicy → List PolicyError → PolicyParseResult
accept_if_none p [] = ok p
accept_if_none p (e ∷ es) = rejected (e ∷ es)

module _ {ℓ} {Raw : Type ℓ} (safe_parse : Raw → SafeParse) where
  unfoldable pub parse_negotiation_policy : Raw → PolicyParseResult
  parse_negotiation_policy raw = elim (safe_parse raw) [
    | success p ↦ accept_if_none p (policy_errors p)
    | failure n ↦ rejected (issues n)
  ]
