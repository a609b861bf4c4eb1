-- ===== src/Voice/CallStore/Steps.antt =====
-- The methods of the store that write, as steps, and what each does to the calls.
use ai_receptionist.Base.{
  ℕ, ◌≡◌, String, true, ◌||◌, List, Option, none, some, ◌⊎◌, inl, inr, arith, eq_iff, is_some,
  lookup, insert, lookup-insert, Bool-cases, Option-cases,
}
use ai_receptionist.Voice.CallState.{
  CallState, state_eq, can_transition_call, is_terminal_call_state,
}
use ai_receptionist.Voice.CallStore.{
  NewCall, CallRecord, Conversation, Suppression, done, CallStore, scoped, create_or_get_call,
  begin_call_conversation, create_phone_conversation, attach_conversation, transition_call,
  append_events, append_transcript, finalize_call, record_outcome, suppress, created_call,
}

module _ (Event Turn Finalization Outcome : Type 0) where
  abbrev pub Store : Type 0
  Store = CallStore Event Turn Finalization Outcome

  -- One successful call of a method that writes; a created id is fresh.
  pub data Step : Store → Store → Type 0 where
    created :
        (id correlation_id : String) (input : NewCall) (s : Store)
        → lookup id s.calls ≡ none
        → Step s (create_or_get_call Event Turn Finalization Outcome id correlation_id input s).0
    began :
        (id call_id business_id : String) (s t : Store) (o : Option String)
        → begin_call_conversation Event Turn Finalization Outcome id call_id business_id s
          ≡ done (t, o)
        → Step s t
    opened :
        (id : String) (input : Conversation) (s : Store)
        → Step s (create_phone_conversation Event Turn Finalization Outcome id input s).0
    attached :
        (call_id business_id conversation_id : String) (s t : Store)
        → attach_conversation Event Turn Finalization Outcome call_id business_id conversation_id s
          ≡ done t
        → Step s t
    moved :
        (call_id business_id : String) (from to : CallState) (s t : Store)
        → transition_call Event Turn Finalization Outcome call_id business_id from to s ≡ done t
        → Step s t
    flushed :
        (call_id business_id : String) (events : List (ℕ × Event)) (s t : Store)
        → append_events Event Turn Finalization Outcome call_id business_id events s ≡ done t
        → Step s t
    transcribed :
        (call_id business_id : String) (turns : List (ℕ × Turn)) (s t : Store)
        → append_transcript Event Turn Finalization Outcome call_id business_id turns s ≡ done t
        → Step s t
    finalized :
        (call_id business_id : String) (finalization : Finalization) (s t : Store)
        → finalize_call Event Turn Finalization Outcome call_id business_id finalization s ≡ done t
        → Step s t
    reported :
        (call_id business_id : String) (outcome : Outcome) (s t : Store)
        → record_outcome Event Turn Finalization Outcome call_id business_id outcome s ≡ done t
        → Step s t
    suppressed :
        (business_id e164 : String) (suppression : Suppression) (s : Store)
        → Step s (suppress Event Turn Finalization Outcome business_id e164 suppression s)

  pub data Steps : Store → Store → Type 0 where
    stopped : {s : Store} → Steps s s
    followed : {s t u : Store} → Step s t → Steps t u → Steps s u

  -- What `scoped` finds is what is stored.
  pub scoped-lookup :
      (call_id business_id : String) (s : Store) (c : CallRecord)
      → scoped Event Turn Finalization Outcome call_id business_id s ≡ some c
      → lookup call_id s.calls ≡ some c
  unfolding scoped
  scoped-lookup call_id business_id s c h = ground arith

  pub moved-calls :
      (call_id business_id : String) (from to : CallState) (s t : Store)
      → transition_call Event Turn Finalization Outcome call_id business_id from to s ≡ done t
      → (c : CallRecord) × (scoped Event Turn Finalization Outcome call_id business_id s ≡ some c)
        × (state_eq c.state from ≡ true)
        × (can_transition_call from to ≡ true)
        × (t.calls ≡ insert call_id (record c { state = to }) s.calls)
  unfolding transition_call
  moved-calls call_id business_id from to s t h =
      elim (Option-cases (scoped Event Turn Finalization Outcome call_id business_id s)) [
        | inl gone ↦ absurd (ground arith)
        | inr (c, e) ↦ (c, e, ground arith, ground arith, ground arith)
      ]

  pub began-calls :
      (id call_id business_id : String) (s t : Store) (o : Option String)
      → begin_call_conversation Event Turn Finalization Outcome id call_id business_id s
        ≡ done (t, o)
      → (t.calls ≡ s.calls)
        ⊎ ((c : CallRecord) × (scoped Event Turn Finalization Outcome call_id business_id s
              ≡ some c)
            × (t.calls ≡ insert call_id (record c { conversation_id = some id }) s.calls))
  unfolding begin_call_conversation
  began-calls id call_id business_id s t o h =
      elim (Option-cases (scoped Event Turn Finalization Outcome call_id business_id s)) [
        | inl gone ↦ absurd (ground arith)
        | inr (c, e) ↦
            elim (Bool-cases (is_some c.conversation_id || is_terminal_call_state c.state)) [
              | inl taken ↦ inl (ground arith)
              | inr free ↦ inr (c, e, ground arith)
            ]
      ]

  pub attached-calls :
      (call_id business_id conversation_id : String) (s t : Store)
      → attach_conversation Event Turn Finalization Outcome call_id business_id conversation_id s
        ≡ done t
      → (c : CallRecord) × (scoped Event Turn Finalization Outcome call_id business_id s ≡ some c)
        × (t.calls ≡ insert call_id (record c { conversation_id = some conversation_id }) s.calls)
  unfolding attach_conversation
  attached-calls call_id business_id conversation_id s t h =
      elim (Option-cases (scoped Event Turn Finalization Outcome call_id business_id s)) [
        | inl gone ↦ absurd (ground arith)
        | inr (c, e) ↦ (c, e, ground arith)
      ]

  pub flushed-calls :
      (call_id business_id : String) (events : List (ℕ × Event)) (s t : Store)
      → append_events Event Turn Finalization Outcome call_id business_id events s ≡ done t
      → t.calls ≡ s.calls
  unfolding append_events
  flushed-calls call_id business_id events s t h = ground arith

  pub transcribed-calls :
      (call_id business_id : String) (turns : List (ℕ × Turn)) (s t : Store)
      → append_transcript Event Turn Finalization Outcome call_id business_id turns s ≡ done t
      → t.calls ≡ s.calls
  unfolding append_transcript
  transcribed-calls call_id business_id turns s t h = ground arith

  pub finalized-calls :
      (call_id business_id : String) (finalization : Finalization) (s t : Store)
      → finalize_call Event Turn Finalization Outcome call_id business_id finalization s ≡ done t
      → t.calls ≡ s.calls
  unfolding finalize_call
  finalized-calls call_id business_id finalization s t h = ground arith

  pub reported-calls :
      (call_id business_id : String) (outcome : Outcome) (s t : Store)
      → record_outcome Event Turn Finalization Outcome call_id business_id outcome s ≡ done t
      → t.calls ≡ s.calls
  unfolding record_outcome
  reported-calls call_id business_id outcome s t h = ground arith

  pub suppressed-calls :
      (business_id e164 : String) (suppression : Suppression) (s : Store)
      → (suppress Event Turn Finalization Outcome business_id e164 suppression s).calls ≡ s.calls
  unfolding suppress
  suppressed-calls business_id e164 suppression s = ground arith

  pub created-calls :
      (id correlation_id : String) (input : NewCall) (s : Store) (other : String) (c : CallRecord)
      → lookup id s.calls ≡ none
      → lookup other s.calls ≡ some c
      → lookup other
          (create_or_get_call Event Turn Finalization Outcome id correlation_id input s).0.calls
        ≡ some c
  unfolding create_or_get_call
  created-calls id correlation_id input s other c fresh h = ground (
    arith,
    eq_iff id other,
    lookup-insert id other (created_call id correlation_id input) s.calls,
  )
