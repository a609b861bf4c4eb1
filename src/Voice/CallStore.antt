-- ===== src/Voice/CallStore.antt =====
-- packages/voice/call-store.ts and in-memory-call-store.ts: the calls of all tenants. The records
-- that the store only keeps (events, transcript turns, finalizations, outcomes) are types of the
-- caller's, with the numbers and ids that the store reads beside them. A fresh `randomUUID` is an
-- argument. Inbound routes and versions are not modelled.
pub mod Idempotent
pub mod Steps
pub mod Lifetime
use Prim.Native.String.{◌++◌ as ◌<>◌}
use ai_receptionist.Base.{
  ℕ, String, Bool, true, false, not, ◌&&◌, ◌||◌, List, [], ◌∷◌, ◌++◌, Option, none, some, any,
  is_some, Dict, lookup, insert, or_else, if◌then◌else◌, ◌=ˢ◌, ◌==◌,
}
use ai_receptionist.Voice.CallState.{
  CallState, CallDirection, state_eq, is_terminal_call_state, can_transition_call,
}

pub record NewCall : Type 0 where
  pub business_id : String
  pub agent_id : String
  pub agent_version_id : String
  pub phone_number_id : Option String
  pub direction : CallDirection
  pub provider : String
  pub provider_call_id : String
  pub from_number : String
  pub to_number : String
  pub state : CallState
  pub language : Option String

-- A stored call; what it was created from stays, but for the state.
pub record CallRecord : Type 0 where
  pub id : String
  pub conversation_id : Option String
  pub correlation_id : String
  pub state : CallState
  pub new_call : NewCall

pub record Conversation : Type 0 where
  pub business_id : String
  pub agent_id : String
  pub agent_version_id : String

pub record Suppression : Type 0 where
  pub reason : String
  pub call_id : String

pub data StoreError : Type 0 where
  call_not_found conversation_mismatch unexpected_state illegal_transition event_store_unavailable :
      StoreError

-- What a method of the store does: it throws, or returns.
pub data Result {ℓ} (A : Type ℓ) : Type ℓ where
  thrown : StoreError → Result A
  done : A → Result A

abbrev pub has_provider_id : String → String → CallRecord → Bool
has_provider_id provider provider_call_id c =
    (c.new_call.provider =ˢ provider) && (c.new_call.provider_call_id =ˢ provider_call_id)

-- `list.some((e) => e.seq === seq)`
abbrev pub has_seq {ℓ} : {A : Type ℓ} → ℕ → List (ℕ × A) → Bool
has_seq seq list = any (λ e. e.0 == seq) list

-- The loop of `appendEvents` and of `appendTranscript`.
unfoldable pub add_new {ℓ} : {A : Type ℓ} → List (ℕ × A) → List (ℕ × A) → List (ℕ × A)
add_new list [] = list
add_new list (e ∷ es) = add_new (if has_seq e.0 list then list else list ++ e ∷ []) es

unfoldable pub find_by_provider_id : String → String → Dict CallRecord → Option CallRecord
find_by_provider_id provider provider_call_id [] = none
find_by_provider_id provider provider_call_id ((id, c) ∷ calls) =
    if has_provider_id provider provider_call_id c
    then some c
    else find_by_provider_id provider provider_call_id calls

abbrev pub created_call : String → String → NewCall → CallRecord
created_call id correlation_id input = record {
  id = id;
  conversation_id = none;
  correlation_id = correlation_id;
  state = input.state;
  new_call = input;
}

abbrev pub suppression_key : String → String → String
suppression_key business_id e164 = business_id <> "|" <> e164

module _ (Event Turn Finalization Outcome : Type 0) where
  pub record CallStore : Type 0 where
    pub calls : Dict CallRecord
    pub events : Dict (List (ℕ × Event))
    pub transcripts : Dict (List (ℕ × Turn))
    pub finalizations : Dict Finalization
    pub outcomes : Dict Outcome
    pub conversations : Dict Conversation
    pub suppressions : Dict Suppression
    pub fail_events : Bool

  -- `scoped`
  unfoldable pub scoped : String → String → CallStore → Option CallRecord
  scoped call_id business_id s = elim (lookup call_id s.calls) [
    | none ↦ none
    | some c ↦ if c.new_call.business_id =ˢ business_id then some c else none
  ]

  abbrev pub with_scoped :
      {A : Type 0} → String → String → CallStore → (CallRecord → Result A) → Result A
  with_scoped call_id business_id s use_call = elim (scoped call_id business_id s) [
    | none ↦ thrown call_not_found
    | some c ↦ use_call c
  ]

  abbrev pub put_call : String → CallRecord → CallStore → CallStore
  put_call call_id c s = record s { calls = insert call_id c s.calls }

  unfoldable pub create_or_get_call :
      String → String → NewCall → CallStore → CallStore × (CallRecord × Bool)
  create_or_get_call id correlation_id input s =
      elim (find_by_provider_id input.provider input.provider_call_id s.calls) [
        | some existing ↦ (s, (existing, false))
        | none ↦ (
          put_call id (created_call id correlation_id input) s,
          (created_call id correlation_id input, true),
        )
      ]

  unfoldable pub begin_call_conversation :
      String → String → String → CallStore → Result (CallStore × Option String)
  begin_call_conversation id call_id business_id s = with_scoped call_id business_id s (λ c.
      if is_some c.conversation_id || is_terminal_call_state c.state
      then done (s, none)
      else done (
        record (put_call call_id (record c { conversation_id = some id }) s) {
          conversations =
              insert id
                (record {
                  business_id = business_id;
                  agent_id = c.new_call.agent_id;
                  agent_version_id = c.new_call.agent_version_id;
                })
                s.conversations;
        },
        some id,
      ))

  unfoldable pub create_phone_conversation : String → Conversation → CallStore → CallStore × String
  create_phone_conversation id input s =
      (record s { conversations = insert id input s.conversations }, id)

  unfoldable pub attach_conversation : String → String → String → CallStore → Result CallStore
  attach_conversation call_id business_id conversation_id s =
      with_scoped call_id business_id s (λ c. elim (lookup conversation_id s.conversations) [
        | none ↦ thrown conversation_mismatch
        | some conversation ↦
            if conversation.business_id =ˢ business_id
            then done (put_call call_id (record c { conversation_id = some conversation_id }) s)
            else thrown conversation_mismatch
      ])

  unfoldable pub transition_call :
      String → String → CallState → CallState → CallStore → Result CallStore
  transition_call call_id business_id from to s = with_scoped call_id business_id s (λ c.
      if not (state_eq c.state from)
      then thrown unexpected_state
      else if can_transition_call from to
      then done (put_call call_id (record c { state = to }) s)
      else thrown illegal_transition)

  unfoldable pub append_events : String → String → List (ℕ × Event) → CallStore → Result CallStore
  append_events call_id business_id events s =
      if s.fail_events
      then thrown event_store_unavailable
      else with_scoped call_id business_id s (λ c. done (record s {
        events = insert call_id (add_new (or_else (lookup call_id s.events) []) events) s.events;
      }))

  unfoldable pub append_transcript :
      String → String → List (ℕ × Turn) → CallStore → Result CallStore
  append_transcript call_id business_id turns s = with_scoped call_id business_id s (λ c.
      done (record s {
        transcripts =
            insert call_id (add_new (or_else (lookup call_id s.transcripts) []) turns)
              s.transcripts;
      }))

  unfoldable pub finalize_call : String → String → Finalization → CallStore → Result CallStore
  finalize_call call_id business_id finalization s =
      with_scoped call_id business_id s
        (λ c. done (record s { finalizations = insert call_id finalization s.finalizations }))

  unfoldable pub record_outcome : String → String → Outcome → CallStore → Result CallStore
  record_outcome call_id business_id outcome s = with_scoped call_id business_id s (λ c.
      if is_some (lookup call_id s.outcomes)
      then done s
      else done (record s { outcomes = insert call_id outcome s.outcomes }))

  unfoldable pub is_suppressed : String → String → CallStore → Bool
  is_suppressed business_id e164 s =
      is_some (lookup (suppression_key business_id e164) s.suppressions)

  unfoldable pub suppress : String → String → Suppression → CallStore → CallStore
  suppress business_id e164 suppression s =
      if is_suppressed business_id e164 s then s else record s {
        suppressions = insert (suppression_key business_id e164) suppression s.suppressions;
      }
