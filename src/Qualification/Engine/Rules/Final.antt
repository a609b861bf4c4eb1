-- ===== src/Qualification/Engine/Rules/Final.antt =====
-- A call that ended stays ended, and a request not to be called is honoured.
use ai_receptionist.Base.{
  ◌≡◌, ◌≢◌, refl, ap, ◌∙◌, String, true, false, List, [], ◌∷◌, Option, arith, eq_iff, includes,
}
use ai_receptionist.Qualification.Snapshot.{
  QualificationField, QualificationSchema, FieldValue, do_not_call, QualificationSnapshot,
  is_terminal, close,
}
use ai_receptionist.Qualification.Engine.{hear_intents, apply_utterance}

module _ (schema : QualificationSchema) (read_intents : String → List String)
    (extract : QualificationField → String → Option FieldValue) where
  -- A conversation, utterance by utterance.
  unfoldable pub converse : QualificationSnapshot → List String → QualificationSnapshot
  converse s [] = s
  converse s (said ∷ later) = converse (apply_utterance schema read_intents extract s said).0 later

  apply-ended :
      (s : QualificationSnapshot) (said : String)
      → is_terminal s.status ≡ true
      → (apply_utterance schema read_intents extract s said).0 ≡ s
  unfolding apply_utterance
  apply-ended s said over = rw over refl

  converse-ended :
      (s : QualificationSnapshot) (later : List String)
      → is_terminal s.status ≡ true
      → converse s later ≡ s
  unfolding converse
  converse-ended s [] over = refl
  converse-ended s (said ∷ later) over =
      ap (λ t. converse t later) (apply-ended s said over) ∙ converse-ended s later over

  apply-do_not_call :
      (s : QualificationSnapshot) (said : String)
      → is_terminal s.status ≡ false
      → said ≢ ""
      → includes (read_intents said) "do_not_call" ≡ true
      → (apply_utterance schema read_intents extract s said).0 ≡ close s do_not_call
  unfolding apply_utterance hear_intents
  apply-do_not_call s said going spoken stop = ground (arith, eq_iff said "")

  -- An utterance that the language pack reads as a request not to be called, in whatever state of
  -- a call that is not over, closes it as `do_not_call`, whatever else the utterance says, and
  -- nothing said later changes anything.
  pub do_not_call_is_final :
      (s : QualificationSnapshot) (said : String) (later : List String)
      → is_terminal s.status ≡ false
      → said ≢ ""
      → includes (read_intents said) "do_not_call" ≡ true
      → converse s (said ∷ later) ≡ close s do_not_call
  unfolding converse close
  do_not_call_is_final s said later going spoken stop =
      ap (λ t. converse t later) (apply-do_not_call s said going spoken stop)
      ∙ converse-ended (close s do_not_call) later refl
