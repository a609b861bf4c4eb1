-- ===== src/Campaigns.antt =====
-- packages/campaigns/engine.ts: one batch of an outbound campaign. The store and the dialer are
-- parameters: `authorize`, `dial` and `settle` say what each call answers, `none` (or `false` for
-- `settle`) where it throws. The events are the calls that act outside, in their order.
pub mod Dispatch
use ai_receptionist.Base.{
  ℕ, ◌+◌, ltb, leb, length, String, Bool, true, false, ◌&&◌, ◌||◌, not, ◌=ˢ◌, List, [], ◌∷◌, ◌++◌,
  Option, none, some, or_else, if◌then◌else◌,
}

pub record ClaimedContact : Type 0 where
  pub id : String
  pub business_id : String
  pub campaign_id : String
  pub customer_id : String
  pub agent_id : String
  pub agent_version_id : String
  pub from_number : String
  pub to_number : String
  pub attempt : ℕ

pub data DialResult : Type 0 where
  -- `providerCallId`
  accepted : String → DialResult
  -- `retryable`
  rejected : Bool → DialResult
  unknown : DialResult

pub data CampaignEvent : Type 0 where
  dialed : ClaimedContact → CampaignEvent
  settled : ClaimedContact → DialResult → CampaignEvent

pub data CampaignError : Type 0 where
  invalid_campaign_batch : CampaignError
  campaign_scope_mismatch : CampaignError
  store_failed : CampaignError

pub record DispatchCounts : Type 0 where
  pub claimed : ℕ
  pub accepted_count : ℕ
  pub uncertain_count : ℕ

-- What a batch did before it ended, its counts, and the error if it threw.
pub record Dispatched : Type 0 where
  pub events : List CampaignEvent
  pub counts : DispatchCounts
  pub error : Option CampaignError

abbrev pub count_result : DialResult → DispatchCounts → DispatchCounts
count_result (accepted call) n = record n { accepted_count = n.accepted_count + 1 }
count_result (rejected retryable) n = n
count_result unknown n = record n { uncertain_count = n.uncertain_count + 1 }

abbrev pub stopped : List CampaignEvent → DispatchCounts → CampaignError → Dispatched
stopped events counts error = record { events = events; counts = counts; error = some error }

abbrev pub after_events : List CampaignEvent → Dispatched → Dispatched
after_events events d = record d { events = events ++ d.events }

module _ (authorize : ClaimedContact → Option Bool) (dial : ClaimedContact → Option DialResult)
    (settle : ClaimedContact → DialResult → Bool) where
  -- The dial of a contact, if it is authorized.
  abbrev pub dial_events : ClaimedContact → Bool → List CampaignEvent
  dial_events contact true = dialed contact ∷ []
  dial_events contact false = []

  -- A dialer that throws leaves the result unknown.
  abbrev pub dial_result : ClaimedContact → Bool → DialResult
  dial_result contact true = or_else (dial contact) unknown
  dial_result contact false = rejected false

  module _ (business_id campaign_id : String) where
    abbrev pub in_scope : ClaimedContact → Bool
    in_scope contact = contact.business_id =ˢ business_id && contact.campaign_id =ˢ campaign_id

    -- The rest of the loop's body after `authorize`; `later` is the rest of the loop.
    unfoldable pub settle_contact :
        (DispatchCounts → Dispatched) → DispatchCounts → ClaimedContact → Bool → Dispatched
    settle_contact later counts contact allowed =
        let result = dial_result contact allowed in
        let events = dial_events contact allowed in
        if settle contact result
        then after_events (events ++ settled contact result ∷ [])
            (later (count_result result counts))
        else stopped events counts store_failed

    abbrev pub with_answer :
        (DispatchCounts → Dispatched) → DispatchCounts → ClaimedContact → Option Bool → Dispatched
    with_answer later counts contact none = stopped [] counts store_failed
    with_answer later counts contact (some allowed) = settle_contact later counts contact allowed

    unfoldable pub dispatch_loop : List ClaimedContact → DispatchCounts → Dispatched
    dispatch_loop [] counts = record { events = []; counts = counts; error = none }
    dispatch_loop (contact ∷ contacts) counts =
        if not (in_scope contact)
        then stopped [] counts campaign_scope_mismatch
        else with_answer (dispatch_loop contacts) counts contact (authorize contact)

    abbrev pub no_counts : DispatchCounts
    no_counts = record { claimed = 0; accepted_count = 0; uncertain_count = 0 }

    -- `claim` is what the store claims, given the limit.
    unfoldable pub dispatch : (ℕ → Option (List ClaimedContact)) → ℕ → Dispatched
    dispatch claim limit =
        if business_id =ˢ "" || campaign_id =ˢ "" || (ltb limit 1 || ltb 100 limit)
        then stopped [] no_counts invalid_campaign_batch
        else elim (claim limit) [
          | none ↦ stopped [] no_counts store_failed
          | some contacts ↦ dispatch_loop contacts (record no_counts { claimed = length contacts })
        ]
