-- ===== src/Voice/CallStore/Lifetime.antt =====
-- The life of a call in the store, under any operations of any tenants in any order.
use ai_receptionist.Base.{
  ◌≡◌, refl, sym, ap, ◌∙◌, subst, String, true, List, [], ◌∷◌, ◌++◌, some, inl, inr, arith, eq_iff,
  Dict, lookup, insert, lookup-insert, ◌=ˢ◌, Bool-cases, holds_sound,
}
use ai_receptionist.Voice.CallState.{
  CallState, state_eq, CallState-discrete, can_transition_call, is_terminal_call_state,
}
use ai_receptionist.Voice.CallState.Paths.{Route, terminal_accepts_nothing}
use ai_receptionist.Voice.CallStore.{CallRecord, CallStore, create_phone_conversation, suppress}
use ai_receptionist.Voice.CallStore.Steps.{
  Step, Steps, created, began, opened, attached, moved, flushed, transcribed, finalized, reported,
  suppressed, stopped, followed, scoped-lookup, moved-calls, began-calls, attached-calls,
  flushed-calls, transcribed-calls, finalized-calls, reported-calls, suppressed-calls,
  created-calls,
}

-- The call `c` is still there under its id, made of the same `NewCall`, and its state was reached
-- from `c.state` by legal transitions.
abbrev pub Continues : String → CallRecord → Dict CallRecord → Type 0
Continues id c calls =
    (d : CallRecord) × (lookup id calls ≡ some d)
    × (d.new_call ≡ c.new_call)
    × (l : List CallState) × Route c.state l d.state

Continues-same :
    (id : String) (c : CallRecord) (calls : Dict CallRecord)
    → lookup id calls ≡ some c
    → Continues id c calls
Continues-same id c calls e = (c, e, refl, [], Route.arrived)

Continues-insert :
    (id call_id : String) (c e f : CallRecord) (l : List CallState) (calls : Dict CallRecord)
    → lookup id calls ≡ some c
    → lookup call_id calls ≡ some e
    → f.new_call ≡ e.new_call
    → Route e.state l f.state
    → Continues id c (insert call_id f calls)
Continues-insert id call_id c e f l calls h k same r = elim (Bool-cases (call_id =ˢ id)) [
  | inr other ↦ (c, ground (arith, lookup-insert call_id id f calls), refl, [], Route.arrived)
  | inl this ↦
      let met : e ≡ c = ground (arith, eq_iff call_id id) in
      (
        f,
        ground (arith, lookup-insert call_id id f calls),
        same ∙ ap (λ x. x.new_call) met,
        l,
        subst (λ x. Route x.state l f.state) met r,
      )
]

Route-append :
    {s t u : CallState} {k l : List CallState} → Route s k t → Route t l u → Route s (k ++ l) u
Route-append Route.arrived r = r
Route-append (Route.hop h q) r = Route.hop h (Route-append q r)

Continues-trans :
    (id : String) (c d : CallRecord) (l : List CallState) (calls : Dict CallRecord)
    → d.new_call ≡ c.new_call
    → Route c.state l d.state
    → Continues id d calls
    → Continues id c calls
Continues-trans id c d l calls same r (e, found, same', l', r') =
    (e, found, same' ∙ same, l ++ l', Route-append r r')

Route-ended :
    {s u : CallState} {l : List CallState} → is_terminal_call_state s ≡ true → Route s l u → u ≡ s
Route-ended over Route.arrived = refl
Route-ended over (Route.hop {s} {t} h r) =
    absurd (ground (arith, (terminal_accepts_nothing s).0.0 over t))

legal_from :
    (e : CallRecord) (from to : CallState)
    → state_eq e.state from ≡ true
    → can_transition_call from to ≡ true
    → can_transition_call e.state to ≡ true
unfolding state_eq
legal_from e from to there legal =
    subst (λ x. can_transition_call x to ≡ true)
      (sym (holds_sound (CallState-discrete e.state from) there)) legal

module _ (Event Turn Finalization Outcome : Type 0) where
  abbrev Store : Type 0
  Store = CallStore Event Turn Finalization Outcome

  kept :
      (id : String) (c : CallRecord) (s t : Store)
      → lookup id s.calls ≡ some c
      → t.calls ≡ s.calls
      → Continues id c t.calls
  kept id c s t h e = subst (Continues id c) (sym e) (Continues-same id c s.calls h)

  Step-Continues :
      (id : String) (c : CallRecord) (s t : Store)
      → Step Event Turn Finalization Outcome s t
      → lookup id s.calls ≡ some c
      → Continues id c t.calls
  unfolding create_phone_conversation
  Step-Continues id c _ _ (created id' correlation_id input s fresh) h =
      Continues-same id c _
        (created-calls Event Turn Finalization Outcome id' correlation_id input s id c fresh h)
  Step-Continues id c _ _ (began new call_id business_id s t o done_) h =
      elim (began-calls Event Turn Finalization Outcome new call_id business_id s t o done_) [
        | inl same ↦ kept id c s t h same
        | inr (e, found, put) ↦ subst (Continues id c) (sym put) (
            Continues-insert id call_id c e (record e { conversation_id = some new }) [] s.calls h
              (scoped-lookup Event Turn Finalization Outcome call_id business_id s e found) refl
              Route.arrived)
      ]
  Step-Continues id c _ _ (opened new input s) h = Continues-same id c s.calls h
  Step-Continues id c _ _ (attached call_id business_id conversation_id s t done_) h =
      let (e, found, put) =
        attached-calls Event Turn Finalization Outcome call_id business_id conversation_id s t
          done_ in
      subst (Continues id c) (sym put) (
        Continues-insert id call_id c e (record e { conversation_id = some conversation_id }) []
          s.calls h (scoped-lookup Event Turn Finalization Outcome call_id business_id s e found)
          refl Route.arrived)
  Step-Continues id c _ _ (moved call_id business_id from to s t done_) h =
      let (e, found, there, legal, put) =
        moved-calls Event Turn Finalization Outcome call_id business_id from to s t done_ in
      subst (Continues id c) (sym put) (
        Continues-insert id call_id c e (record e { state = to }) (to ∷ []) s.calls h
          (scoped-lookup Event Turn Finalization Outcome call_id business_id s e found) refl
          (Route.hop (legal_from e from to there legal) Route.arrived))
  Step-Continues id c _ _ (flushed call_id business_id events s t done_) h =
      kept id c s t h
        (flushed-calls Event Turn Finalization Outcome call_id business_id events s t done_)
  Step-Continues id c _ _ (transcribed call_id business_id turns s t done_) h =
      kept id c s t h
        (transcribed-calls Event Turn Finalization Outcome call_id business_id turns s t done_)
  Step-Continues id c _ _ (finalized call_id business_id finalization s t done_) h =
      kept id c s t h
        (finalized-calls Event Turn Finalization Outcome call_id business_id finalization s t done_)
  Step-Continues id c _ _ (reported call_id business_id outcome s t done_) h =
      kept id c s t h
        (reported-calls Event Turn Finalization Outcome call_id business_id outcome s t done_)
  Step-Continues id c _ _ (suppressed business_id e164 suppression s) h =
      kept id c s (suppress Event Turn Finalization Outcome business_id e164 suppression s) h
        (suppressed-calls Event Turn Finalization Outcome business_id e164 suppression s)

  -- Whatever operations of any tenants succeed, in whatever order, created ids being fresh: a stored
  -- call stays under its id with what it was created from, and its state only ever moves by legal
  -- transitions.
  pub call_moves_legally :
      (id : String) (c : CallRecord) (s t : Store)
      → Steps Event Turn Finalization Outcome s t
      → lookup id s.calls ≡ some c
      → Continues id c t.calls
  call_moves_legally id c s _ stopped h = Continues-same id c s.calls h
  call_moves_legally id c _ _ (followed {s} {t} {u} one more) h =
      let (d, found, same, l, r) = Step-Continues id c s t one h in
      Continues-trans id c d l u.calls same r (call_moves_legally id d t u more found)

  -- A call in a terminal state stays in it, whatever operations of any tenants succeed, created ids
  -- being fresh.
  pub ended_call_stays :
      (id : String) (c : CallRecord) (s t : Store)
      → Steps Event Turn Finalization Outcome s t
      → lookup id s.calls ≡ some c
      → is_terminal_call_state c.state ≡ true
      → (d : CallRecord) × (lookup id t.calls ≡ some d) × (d.state ≡ c.state)
  ended_call_stays id c s t steps h over =
      let (d, found, same, l, r) = call_moves_legally id c s t steps h in
      (d, found, Route-ended over r)
