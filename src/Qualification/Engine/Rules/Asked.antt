-- ===== src/Qualification/Engine/Rules/Asked.antt =====
-- After every utterance the engine waits for a confirmation, or asks the next open field, or is done.
use ai_receptionist.Base.{
  ◌≡◌, ◌++◌, refl, sym, ap, ◌⊎◌, inl, inr, String, Bool, true, false, not, ◌&&◌, List, [], ◌∷◌,
  Option, none, some, is_some, includes, if◌then◌else◌, ◌=ˢ◌,
}
use ai_receptionist.Qualification.Snapshot.{
  QualificationField, QualificationSchema, FieldValue, complete, do_not_call, wrong_number,
  callback_requested, QualificationSnapshot, intent, Progress, is_terminal, close, next_field,
  id_of, is_open, attempts_of, is_skipped, completed, field_by_id,
}
use ai_receptionist.Qualification.Engine.{
  Answer, returns, goes_on, call_human, ask_next, choose_next, finish, confirm_pending,
  answer_pending, to_question, hear, finish_answer, after_confirmation, hear_intents,
  apply_utterance, answer_confirmation, answer_question, is_in_progress, confirm_unlisted,
}
use ai_receptionist.Qualification.Engine.Rules.Returns.{
  EndsIfReturns, EndsIfReturns-if, goes_on-EndsIfReturns, answer_confirmation-EndsIfReturns,
  answer_question-EndsIfReturns,
}

module _ (schema : QualificationSchema) where
  -- The engine waits for a confirmation, or its question is the next open field; with nothing left
  -- to ask the call is not in progress.
  abbrev pub IsAsking : QualificationSnapshot → Type 0
  IsAsking s =
      (is_some s.awaiting_confirmation_field_id ≡ true)
      ⊎ ((s.pending_field_id ≡ id_of (next_field schema s))
          × ((is_in_progress s.status ≡ false) ⊎ (is_some (next_field schema s) ≡ true)))

  ask_next-IsAsking :
      (n : Option QualificationField) (p : Progress)
      → next_field schema p.0 ≡ n
      → IsAsking (ask_next schema n p).0
  unfolding ask_next next_field is_open attempts_of is_skipped
  ask_next-IsAsking (some f) (s, events) e = inr (sym (ap id_of e), inr (ap is_some e))
  ask_next-IsAsking none (s, events) e = by_status (is_in_progress s.status) refl
    where
      by_status :
          (b : Bool)
          → is_in_progress s.status ≡ b
          → IsAsking
              (if◌then◌else◌ {A = Progress} b
                (record s { pending_field_id = none; status = complete }, events ++ completed ∷ [])
                (record s { pending_field_id = none }, events)).0
      by_status true _ = inr (sym (ap id_of e), inl refl)
      by_status false over = inr (sym (ap id_of e), inl over)

  choose_next-IsAsking : (p : Progress) → IsAsking (choose_next schema p).0
  unfolding choose_next
  choose_next-IsAsking p = by_waiting (is_some p.0.awaiting_confirmation_field_id) refl
    where
      by_waiting :
          (b : Bool)
          → is_some p.0.awaiting_confirmation_field_id ≡ b
          → IsAsking (if b then p else ask_next schema (next_field schema p.0) p).0
      by_waiting true waits = inl waits
      by_waiting false _ = ask_next-IsAsking (next_field schema p.0) p refl

  finish-IsAsking : (p : Progress) → IsAsking (finish schema p).0
  unfolding finish
  finish-IsAsking p = choose_next-IsAsking (call_human schema p)

  abbrev pub Settled : Progress → Type 0
  Settled p = (is_terminal p.0.status ≡ true) ⊎ IsAsking p.0

  module _ (intents : List String) (said : String)
      (extract : QualificationField → Option FieldValue) where
    confirm_pending-EndsIfReturns :
        (id : String) (p : Progress)
        → EndsIfReturns (confirm_pending schema intents said extract id p)
    unfolding confirm_pending
    confirm_pending-EndsIfReturns id p = by_field (field_by_id schema id)
      where
        by_field :
            (o : Option QualificationField)
            → EndsIfReturns (elim o [
              | none ↦
                  confirm_unlisted id (includes intents "affirm" && not (includes intents "deny")) p
              | some f ↦
                  answer_confirmation f
                    (includes intents "affirm")
                    (includes intents "deny")
                    (extract f)
                    p
            ])
        by_field none =
            EndsIfReturns-if _ _ _ (goes_on-EndsIfReturns _ true) (goes_on-EndsIfReturns _ true)
        by_field (some f) = answer_confirmation-EndsIfReturns f _ _ _ p

    answer_pending-EndsIfReturns :
        (id : String) (p : Progress)
        → EndsIfReturns (answer_pending schema intents said extract id p)
    unfolding answer_pending
    answer_pending-EndsIfReturns id p = by_field (field_by_id schema id)
      where
        by_field :
            (o : Option QualificationField)
            → EndsIfReturns (elim o [
              | none ↦ goes_on p false
              | some f ↦ answer_question f (includes intents "dont_know") said (extract f) p
            ])
        by_field none = goes_on-EndsIfReturns _ false
        by_field (some f) = answer_question-EndsIfReturns f _ said _ p

    finish_answer-Settled :
        (a : Answer) → EndsIfReturns a → Settled (finish_answer schema intents said extract a)
    unfolding EndsIfReturns
    finish_answer-Settled (returns p) ends = inl (ends p refl)
    finish_answer-Settled (goes_on p c) _ = inr (finish-IsAsking p)

    to_question-Settled : (p : Progress) → Settled (to_question schema intents said extract p)
    unfolding to_question
    to_question-Settled p = by_waiting (is_some p.0.awaiting_confirmation_field_id)
      where
        by_pending :
            (o : Option String)
            → Settled (elim o [
              | none ↦ finish schema p
              | some id ↦
                  finish_answer schema intents said extract
                    (answer_pending schema intents said extract id p)
            ])
        by_pending none = inr (finish-IsAsking p)
        by_pending (some id) = finish_answer-Settled _ (answer_pending-EndsIfReturns id p)

        by_waiting :
            (b : Bool)
            → Settled (
                if b then finish schema p else elim p.0.pending_field_id [
                  | none ↦ finish schema p
                  | some id ↦
                      finish_answer schema intents said extract
                        (answer_pending schema intents said extract id p)
                ])
        by_waiting true = inr (finish-IsAsking p)
        by_waiting false = by_pending p.0.pending_field_id

    after_confirmation-Settled :
        (a : Answer) → EndsIfReturns a → Settled (after_confirmation schema intents said extract a)
    unfolding EndsIfReturns
    after_confirmation-Settled (returns p) ends = inl (ends p refl)
    after_confirmation-Settled (goes_on p true) _ = inr (finish-IsAsking p)
    after_confirmation-Settled (goes_on p false) _ = to_question-Settled _

    hear-Settled : (p : Progress) → Settled (hear schema intents said extract p)
    unfolding hear
    hear-Settled p = by_awaiting p.0.awaiting_confirmation_field_id
      where
        by_awaiting :
            (o : Option String)
            → Settled (elim o [
              | some id ↦
                  after_confirmation schema intents said extract
                    (confirm_pending schema intents said extract id p)
              | none ↦ to_question schema intents said extract p
            ])
        by_awaiting none = to_question-Settled p
        by_awaiting (some id) = after_confirmation-Settled _ (confirm_pending-EndsIfReturns id p)

    hear_intents-Settled :
        (s : QualificationSnapshot) → Settled (hear_intents schema intents said extract s)
    unfolding hear_intents close
    hear_intents-Settled s =
        by_intents (includes intents "do_not_call") (includes intents "wrong_number")
          (includes intents "call_back_later") _
      where
        by_intents :
            (no wrong later : Bool) (noted : Progress)
            → Settled (
                if no
                then (close s do_not_call, intent "do_not_call" ∷ [])
                else if wrong
                then (close s wrong_number, intent "wrong_number" ∷ [])
                else if later
                then (close noted.0 callback_requested, noted.1 ++ intent "call_back_later" ∷ [])
                else hear schema intents said extract noted)
        by_intents true _ _ _ = inl refl
        by_intents false true _ _ = inl refl
        by_intents false false true _ = inl refl
        by_intents false false false noted = hear-Settled noted

  -- After any utterance, either the status is terminal, or the engine waits for a confirmation, or
  -- its pending question is the first field that is still open, none if there is none, and then
  -- the status is no longer in progress.
  pub apply_utterance-Settled :
      (read_intents : String → List String)
      (extract : QualificationField → String → Option FieldValue) (s : QualificationSnapshot)
      (said : String)
      → Settled (apply_utterance schema read_intents extract s said)
  unfolding apply_utterance
  apply_utterance-Settled read_intents extract s said =
      by_end (is_terminal s.status) (said =ˢ "") refl
    where
      by_end :
          (over silent : Bool)
          → is_terminal s.status ≡ over
          → Settled (
              if over
              then (s, [])
              else if silent
              then finish schema (s, [])
              else hear_intents schema (read_intents said) said (λ f. extract f said) s)
      by_end true _ ends = inl ends
      by_end false true _ = inr (finish-IsAsking (s, []))
      by_end false false _ = hear_intents-Settled (read_intents said) said (λ f. extract f said) s
