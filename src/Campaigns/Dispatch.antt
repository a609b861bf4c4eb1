-- ===== src/Campaigns/Dispatch.antt =====
-- What a batch did, however it ends.
use ai_receptionist.Base.{
  ℕ, ◌+◌, ◌≤◌, ◌≡◌, refl, ap, String, Bool, true, false, not, List, [], ◌∷◌, ◌++◌, Option, none,
  some, or_else, All, map, eq_iff, ltb, ◌||◌, length, tally, if◌then◌else◌, arith, ◌=ˢ◌,
}
use ai_receptionist.Campaigns.{
  ClaimedContact, DialResult, accepted, rejected, unknown, CampaignEvent, dialed, settled,
  CampaignError, DispatchCounts, Dispatched, count_result, stopped, store_failed,
  campaign_scope_mismatch, after_events, in_scope, settle_contact, with_answer, dispatch_loop,
  dispatch,
}

abbrev pub is_accepted : CampaignEvent → Bool
is_accepted (settled c (accepted call)) = true
is_accepted _ = false

abbrev pub is_uncertain : CampaignEvent → Bool
is_uncertain (settled c unknown) = true
is_uncertain _ = false

module _ (authorize : ClaimedContact → Option Bool) (dial : ClaimedContact → Option DialResult)
    (settle : ClaimedContact → DialResult → Bool) where
  -- What is settled for a contact: what the dialer answers if it is authorized, unknown where the
  -- dialer throws, and a final rejection if not.
  abbrev pub answer : ClaimedContact → Bool → DialResult
  answer c true = or_else (dial c) unknown
  answer c false = rejected false

  -- An authorized contact is dialed, no other.
  abbrev pub dials : ClaimedContact → Bool → List CampaignEvent
  dials c true = dialed c ∷ []
  dials c false = []

  -- The calls for contacts that are dealt with, each with the store's leave for it.
  abbrev pub done_events : List (ClaimedContact × Bool) → List CampaignEvent
  done_events [] = []
  done_events ((c, allowed) ∷ done) =
      dials c allowed ++ settled c (answer c allowed) ∷ done_events done

  module _ (business_id campaign_id : String) where
    abbrev InScope : ClaimedContact → Type 0
    InScope c = (c.business_id ≡ business_id) × (c.campaign_id ≡ campaign_id)

    -- A contact in scope whose leave the store gave or refused, and whose result it took.
    abbrev pub IsDone : ClaimedContact × Bool → Type 0
    IsDone (c, allowed) =
        InScope c × (authorize c ≡ some allowed) × (settle c (answer c allowed) ≡ true)

    -- Why the store's failure stops the batch at a contact: it gives no leave, or does not take the
    -- result.
    abbrev pub IsFailed : ClaimedContact → Option Bool → List CampaignEvent → Type 0
    IsFailed c none last = last ≡ []
    IsFailed c (some allowed) last =
        (settle c (answer c allowed) ≡ false) × (last ≡ dials c allowed)

    -- How a batch ends, with the contacts that it did not settle and the last calls: all are settled, or
    -- the first of them is out of scope, or the store failed for the first of them.
    abbrev pub IsEnd : Option CampaignError → List ClaimedContact → List CampaignEvent → Type 0
    IsEnd none rest last = (rest ≡ []) × (last ≡ [])
    IsEnd (some campaign_scope_mismatch) (c ∷ rest) last = ¬ InScope c × (last ≡ [])
    IsEnd (some store_failed) (c ∷ rest) last = InScope c × IsFailed c (authorize c) last
    IsEnd (some error) rest last = ⊥

    -- What a run of the loop over `contacts` from `counts` did.
    abbrev pub IsBatch : List ClaimedContact → DispatchCounts → Dispatched → Type 0
    IsBatch contacts counts d =
        (done : List (ClaimedContact × Bool)) × (rest : List ClaimedContact) × (last : List
          CampaignEvent)
        × (contacts ≡ map (λ p. p.0) done ++ rest)
        × (d.events ≡ done_events done ++ last)
        × All IsDone done
        × IsEnd d.error rest last
        × (d.counts.claimed ≡ counts.claimed)
        × (d.counts.accepted_count ≡ counts.accepted_count + tally is_accepted d.events)
        × (d.counts.uncertain_count ≡ counts.uncertain_count + tally is_uncertain d.events)

    in_scope-InScope :
        (c : ClaimedContact)
        → in_scope authorize dial settle business_id campaign_id c ≡ true
        → InScope c
    in_scope-InScope c e =
        ground (arith, eq_iff c.business_id business_id, eq_iff c.campaign_id campaign_id)

    not-InScope :
        (c : ClaimedContact)
        → in_scope authorize dial settle business_id campaign_id c ≡ false
        → ¬ InScope c
    not-InScope c e (p, q) =
        ground (arith, eq_iff c.business_id business_id, eq_iff c.campaign_id campaign_id)

    -- The counts with one more settled result, before those of the later calls.
    counted :
        (c : ClaimedContact) (r : DialResult) (counts : DispatchCounts)
        (events : List CampaignEvent) (after : DispatchCounts)
        → after.claimed ≡ (count_result r counts).claimed
        → after.accepted_count ≡ (count_result r counts).accepted_count + tally is_accepted events
        → after.uncertain_count
          ≡ (count_result r counts).uncertain_count + tally is_uncertain events
        → (after.claimed ≡ counts.claimed)
          × (after.accepted_count
              ≡ counts.accepted_count + tally is_accepted (settled c r ∷ events))
          × (after.uncertain_count
              ≡ counts.uncertain_count + tally is_uncertain (settled c r ∷ events))
    counted c (accepted call) counts events after n a u = (n, omega (arith, a), omega (arith, u))
    counted c (rejected retryable) counts events after n a u =
        (n, omega (arith, a), omega (arith, u))
    counted c unknown counts events after n a u = (n, omega (arith, a), omega (arith, u))

    -- The calls for one contact that is settled, before those for the others.
    settled-IsBatch :
        (later : DispatchCounts → Dispatched) (counts : DispatchCounts) (c : ClaimedContact)
        (contacts : List ClaimedContact) (allowed : Bool)
        → IsDone (c, allowed)
        → IsBatch contacts
            (count_result (answer c allowed) counts)
            (later (count_result (answer c allowed) counts))
        → IsBatch (c ∷ contacts) counts (
            after_events
              (dials c allowed ++ settled c (answer c allowed) ∷ [])
              (later (count_result (answer c allowed) counts)))
    settled-IsBatch later counts c contacts true fine
          (done, rest, last, parts, log, fines, end, n, a, u) =
        let d = later (count_result (answer c true) counts) in
        let (n', a', u') = counted c (answer c true) counts d.events d.counts n a u in
        (
          (c, true) ∷ done,
          rest,
          last,
          ap (λ cs. c ∷ cs) parts,
          ap (λ es. dialed c ∷ settled c (answer c true) ∷ es) log,
          (fine, fines),
          end,
          n',
          a',
          u',
        )
    settled-IsBatch later counts c contacts false fine
          (done, rest, last, parts, log, fines, end, n, a, u) =
        (
          (c, false) ∷ done,
          rest,
          last,
          ap (λ cs. c ∷ cs) parts,
          ap (λ es. settled c (rejected false) ∷ es) log,
          (fine, fines),
          end,
          n,
          omega (arith, a),
          omega (arith, u),
        )

    -- A batch that stops at its first contact.
    stopped-IsBatch :
        (counts : DispatchCounts) (contacts : List ClaimedContact) (error : CampaignError)
        (last : List CampaignEvent)
        → IsEnd (some error) contacts last
        → tally is_accepted last ≡ 0
        → tally is_uncertain last ≡ 0
        → IsBatch contacts counts (stopped last counts error)
    stopped-IsBatch counts contacts error last end a u =
        ([], contacts, last, refl, refl, tt, end, refl, omega (arith, a), omega (arith, u))

    settle_contact-IsBatch :
        (later : DispatchCounts → Dispatched) (counts : DispatchCounts) (c : ClaimedContact)
        (contacts : List ClaimedContact) (allowed : Bool)
        → authorize c ≡ some allowed
        → InScope c
        → ((n : DispatchCounts) → IsBatch contacts n (later n))
        → IsBatch
            (c ∷ contacts)
            counts
            (settle_contact authorize dial settle business_id campaign_id later counts c allowed)
    unfolding settle_contact
    settle_contact-IsBatch later counts c contacts allowed leave scope h =
        by_store allowed (settle c (answer c allowed)) leave refl
      where
        by_store :
            (b ok : Bool)
            → authorize c ≡ some b
            → settle c (answer c b) ≡ ok
            → IsBatch (c ∷ contacts) counts (
                if ok
                then after_events
                    (dials c b ++ settled c (answer c b) ∷ [])
                    (later (count_result (answer c b) counts))
                else stopped (dials c b) counts store_failed)
        by_store b true e took =
            settled-IsBatch later counts c contacts b (scope, e, took)
              (h (count_result (answer c b) counts))
        by_store true false e lost =
            stopped-IsBatch counts (c ∷ contacts) store_failed (dialed c ∷ [])
              (scope, rw e (lost, refl)) (omega arith) (omega arith)
        by_store false false e lost =
            stopped-IsBatch counts (c ∷ contacts) store_failed [] (scope, rw e (lost, refl))
              (omega arith) (omega arith)

    dispatch_loop-IsBatch :
        (contacts : List ClaimedContact) (counts : DispatchCounts)
        → IsBatch contacts counts
            (dispatch_loop authorize dial settle business_id campaign_id contacts counts)
    unfolding dispatch_loop
    dispatch_loop-IsBatch [] counts =
        ([], [], [], refl, refl, tt, (refl, refl), refl, omega arith, omega arith)
    dispatch_loop-IsBatch (c ∷ contacts) counts =
        by_scope (in_scope authorize dial settle business_id campaign_id c) (authorize c) refl refl
          (dispatch_loop-IsBatch contacts)
      where
        loop : DispatchCounts → Dispatched
        loop n = dispatch_loop authorize dial settle business_id campaign_id contacts n

        by_scope :
            (b : Bool) (leave : Option Bool)
            → in_scope authorize dial settle business_id campaign_id c ≡ b
            → authorize c ≡ leave
            → ((n : DispatchCounts) → IsBatch contacts n (loop n))
            → IsBatch (c ∷ contacts) counts (
                if not b
                then stopped [] counts campaign_scope_mismatch
                else with_answer authorize dial settle business_id campaign_id loop counts c leave)
        by_scope false leave out e h =
            stopped-IsBatch counts (c ∷ contacts) campaign_scope_mismatch []
              (not-InScope c out, refl) (omega arith) (omega arith)
        by_scope true none scope e h =
            stopped-IsBatch counts (c ∷ contacts) store_failed []
              (in_scope-InScope c scope, rw e refl) (omega arith) (omega arith)
        by_scope true (some allowed) scope e h =
            settle_contact-IsBatch loop counts c contacts allowed e (in_scope-InScope c scope) h

    -- A request for 1 to 100 contacts of a named business and campaign, which the store answers with the
    -- contacts that it claims: however the batch ends, what it did is known. For a first part of the contacts that it claimed, in
    -- order, each in the batch's scope, it dialed the contact if and only if the store authorized it,
    -- and settled what the dialer answered (unknown where it threw, a final rejection for a contact
    -- without leave). Without an error that is all of them; otherwise it stopped at the first of the
    -- others, which is out of scope or for which the store failed, and which it dialed only where it
    -- was authorized and settling the answer failed. The counts are those of the settled results.
    pub dispatch-IsBatch :
        (contacts : List ClaimedContact) (claim : ℕ → Option (List ClaimedContact)) (limit : ℕ)
        → business_id =ˢ "" ≡ false
        → campaign_id =ˢ "" ≡ false
        → 1 ≤ limit
        → limit ≤ 100
        → claim limit ≡ some contacts
        → IsBatch contacts
            (record { claimed = length contacts; accepted_count = 0; uncertain_count = 0 })
            (dispatch authorize dial settle business_id campaign_id claim limit)
    unfolding dispatch
    dispatch-IsBatch contacts claim limit business campaign low high claimed =
        let valid : (business_id =ˢ "" || campaign_id =ˢ "" || (ltb limit 1 || ltb 100 limit))
            ≡ false =
          ground (arith, business, campaign, low, high) in
        rw (valid, claimed)
          (dispatch_loop-IsBatch contacts
            (record { claimed = length contacts; accepted_count = 0; uncertain_count = 0 }))
