-- ===== src/Qualification/Engine.antt =====
-- packages/qualification/engine.ts: `applyUtterance`. What a language pack reads out of a text, and
-- `extractValue` over it, are parameters here; the trimmed utterance is an argument.
pub mod Rules
use ai_receptionist.Base.{
  ℕ, suc, ◌+◌, max, String, Bool, true, false, not, ◌&&◌, ◌||◌, List, [], ◌∷◌, ◌++◌, Option, none,
  some, leb, ltb, find, keep, includes, is_some, length, Dict, lookup, insert, delete, or_else,
  if◌then◌else◌, ◌=ˢ◌,
}
use ai_receptionist.Qualification.Snapshot.{
  FieldType, energy_or_money, money, capacity_kw, phone, pincode, text, time, QualificationField,
  QualificationSchema, ValueUnit, FieldValue, QualificationStatus, in_progress, complete,
  do_not_call, wrong_number, callback_requested, QualificationSnapshot, QualificationEvent,
  captured, confirmation_requested, confirmed, rejected, unknown, intent, completed, Progress, push,
  is_terminal, close, field_by_id, attempts_of, add_once, bump_attempt, apply_disqualifier,
  next_field, id_of,
}

abbrev pub confirmation_threshold : ℕ
confirmation_threshold = 80

abbrev pub is_verbatim_type : FieldType → Bool
is_verbatim_type text = true
is_verbatim_type time = true
is_verbatim_type _ = false

-- `RESTATABLE_FIELD_TYPES`
abbrev pub is_restatable : FieldType → Bool
is_restatable money = true
is_restatable energy_or_money = true
is_restatable capacity_kw = true
is_restatable phone = true
is_restatable pincode = true
is_restatable _ = false

abbrev pub is_energy_or_money : FieldType → Bool
is_energy_or_money energy_or_money = true
is_energy_or_money _ = false

unfoldable pub is_verbatim_field : QualificationField → Bool
is_verbatim_field field = is_verbatim_type field.kind && not field.confirm

abbrev pub set_field : String → FieldValue → QualificationSnapshot → QualificationSnapshot
set_field id v s = record s { fields = insert id v s.fields }

abbrev pub release : QualificationSnapshot → QualificationSnapshot
release s = record s { awaiting_confirmation_field_id = none }

abbrev pub without : String → List String → List String
without id ids = keep (λ i. not (i =ˢ id)) ids

unfoldable pub has_unit : QualificationSnapshot → String → Bool
has_unit s id = elim (lookup id s.fields) [ none ↦ false | some v ↦ is_some v.unit ]

-- `snapshot.fields[id]?.value ?? ""`
abbrev pub value_of : QualificationSnapshot → String → String
value_of s id = elim (lookup id s.fields) [ none ↦ "" | some v ↦ v.value ]

-- What a pending confirmation leads to: `applyUtterance` returns, or goes on with the utterance
-- spent (`true`) or not.
pub data Answer : Type 0 where
  returns : Progress → Answer
  goes_on : Progress → Bool → Answer

abbrev pub unless_terminal : Progress → Bool → Answer
unless_terminal (s, events) consumed =
    if is_terminal s.status then returns (s, events) else goes_on (s, events) consumed

-- After a bump: ask again, or release when the attempts are used up.
unfoldable pub ask_again : QualificationField → String → Progress → Progress
ask_again field value (s, events) =
    if leb field.max_attempts (attempts_of s field.id)
    then (release s, events)
    else (s, events ++ confirmation_requested field.id value ∷ [])

-- The energy case's bump: there the field is no longer unresolved either.
unfoldable pub ask_unit_again : QualificationField → Progress → Progress
ask_unit_again field (s, events) =
    if leb field.max_attempts (attempts_of s field.id)
    then (record (release s) { unresolved = without field.id s.unresolved }, events)
    else (s, events ++ confirmation_requested field.id (value_of s field.id) ∷ [])

-- An amount whose unit is now known.
unfoldable pub clarify : QualificationField → FieldValue → Progress → Answer
clarify field v (s, events) =
    goes_on
      (apply_disqualifier field (
        release (
            set_field field.id (record v { confirmed = true; confidence = max v.confidence 90 }) s),
        events ++ confirmed field.id ∷ [],
      ))
      true

unfoldable pub clarify_with : QualificationField → Option FieldValue → Progress → Answer
clarify_with field none p = goes_on p true
clarify_with field (some v) p = clarify field v p

abbrev pub affirm_value : String → QualificationSnapshot → QualificationSnapshot
affirm_value id s = elim (lookup id s.fields) [
  | none ↦ s
  | some v ↦ set_field id (record v { confirmed = true; confidence = max v.confidence 95 }) s
]

unfoldable pub affirm : QualificationField → Progress → Answer
affirm field (s, events) =
    unless_terminal
      (apply_disqualifier field
        (release (affirm_value field.id s), events ++ confirmed field.id ∷ []))
      true

unfoldable pub correct : QualificationField → FieldValue → Progress → Answer
correct field v (s, events) =
    let noted : Progress = (
      set_field field.id v s,
      events ++ rejected field.id ∷ captured field.id v.value v.confidence ∷ [],
    ) in
    if field.confirm || ltb v.confidence confirmation_threshold
    then goes_on (ask_again field v.value (bump_attempt field noted)) true
    else unless_terminal (apply_disqualifier field (release noted.0, noted.1)) true

-- "No", with no correction offered.
unfoldable pub deny : QualificationField → Progress → Answer
deny field (s, events) =
    goes_on
      (bump_attempt field (
        release (record s { fields = delete field.id s.fields }),
        events ++ rejected field.id ∷ [],
      ))
      true

-- Neither yes nor no.
unfoldable pub move_on : QualificationField → Progress → Answer
move_on field (s, events) =
    if not field.confirm
    then unless_terminal (apply_disqualifier field (release s, events)) false
    else goes_on (ask_again field (value_of s field.id) (bump_attempt field (s, events))) true

abbrev pub confirm_unlisted : String → Bool → Progress → Answer
confirm_unlisted id yes_ (s, events) =
    if yes_
    then goes_on (release (affirm_value id s), events ++ confirmed id ∷ []) true
    else goes_on (s, events) true

abbrev pub unit_of : Option FieldValue → Option ValueUnit
unit_of none = none
unit_of (some v) = v.unit

-- A value that was neither affirmed nor clarified: corrected, denied, or passed over.
unfoldable pub revise : QualificationField → Bool → Option FieldValue → Progress → Answer
revise field denied corrected p = elim corrected [
  | some v ↦ correct field v p
  | none ↦ if denied then deny field p else move_on field p
]

-- The ladder over a pending confirmation; `extracted` is what the utterance reads as for the field.
unfoldable pub answer_confirmation :
    QualificationField → Bool → Bool → Option FieldValue → Progress → Answer
answer_confirmation field affirmed denied extracted p =
    let id = field.id in
    let energy = is_energy_or_money field.kind in
    let yes_ = affirmed && not denied in
    let clarified = if energy then extracted else none in
    if is_some (unit_of clarified) && not (has_unit p.0 id)
    then clarify_with field clarified p
    else if yes_ && (not energy || has_unit p.0 id)
    then affirm field p
    else if energy && (yes_ && (is_some (lookup id p.0.fields) && not (has_unit p.0 id)))
    then goes_on (ask_unit_again field (bump_attempt field p)) true
    else revise field denied (if denied || is_restatable field.kind then extracted else none) p

-- `captureField` found a value.
unfoldable pub capture : QualificationField → FieldValue → Progress → Progress
capture field v (s, events) =
    let s' = record (set_field field.id v s) { unresolved = without field.id s.unresolved } in
    let events' = events ++ captured field.id v.value v.confidence ∷ [] in
    if ((field.confirm || ltb v.confidence confirmation_threshold) && not (is_verbatim_field field))
      && not v.unknown
    then (
      record s' { awaiting_confirmation_field_id = some field.id },
      events' ++ confirmation_requested field.id v.value ∷ [],
    )
    else apply_disqualifier field (s', events')

abbrev pub unknown_value : String → FieldValue
unknown_value said = record {
  value = "";
  raw = said;
  confidence = 0;
  confirmed = false;
  unit = none;
  unknown = true;
}

unfoldable pub answer_unknown : QualificationField → String → Progress → Progress
answer_unknown field said (s, events) = (
  record (set_field field.id (unknown_value said) s) {
    unresolved = add_once field.required field.id s.unresolved;
  },
  events ++ unknown field.id ∷ [],
)

-- The pending question gets the utterance.
unfoldable pub answer_question :
    QualificationField → Bool → String → Option FieldValue → Progress → Answer
answer_question field dont_know said extracted p =
    if dont_know then goes_on (answer_unknown field said p) false else elim extracted [
      | none ↦ goes_on (bump_attempt field p) false
      | some v ↦ unless_terminal (capture field v p) false
    ]

abbrev pub is_in_progress : QualificationStatus → Bool
is_in_progress in_progress = true
is_in_progress _ = false

module _ (schema : QualificationSchema) where
  -- Too many unresolved fields call for a person; then the next question is chosen.
  unfoldable pub call_human : Progress → Progress
  call_human (s, events) =
      if leb schema.max_unresolved_fields (length s.unresolved)
      then (record s { human_requested = true }, events)
      else (s, events)

  unfoldable pub ask_next : Option QualificationField → Progress → Progress
  ask_next (some f) (s, events) = (record s { pending_field_id = some f.id }, events)
  ask_next none (s, events) =
      if is_in_progress s.status
      then (record s { pending_field_id = none; status = complete }, events ++ completed ∷ [])
      else (record s { pending_field_id = none }, events)

  unfoldable pub choose_next : Progress → Progress
  choose_next p =
      if is_some p.0.awaiting_confirmation_field_id then p else ask_next (next_field schema p.0) p

  unfoldable pub finish : Progress → Progress
  finish p = choose_next (call_human p)

  module _ (intents : List String) (said : String)
      (extract : QualificationField → Option FieldValue) where
    unfoldable pub confirm_pending : String → Progress → Answer
    confirm_pending id p = elim (field_by_id schema id) [
      | none ↦ confirm_unlisted id (includes intents "affirm" && not (includes intents "deny")) p
      | some field ↦
          answer_confirmation field (includes intents "affirm") (includes intents "deny")
            (extract field) p
    ]

    unfoldable pub answer_pending : String → Progress → Answer
    answer_pending id p = elim (field_by_id schema id) [
      | none ↦ goes_on p false
      | some field ↦ answer_question field (includes intents "dont_know") said (extract field) p
    ]

    -- A released confirmation gives the utterance to the next question.
    abbrev pub repoint : Progress → Progress
    repoint (s, events) = (record s { pending_field_id = id_of (next_field schema s) }, events)

    abbrev pub finish_answer : Answer → Progress
    finish_answer (returns p) = p
    finish_answer (goes_on p consumed) = finish p

    unfoldable pub to_question : Progress → Progress
    to_question p =
        if is_some p.0.awaiting_confirmation_field_id then finish p else elim p.0.pending_field_id [
          | none ↦ finish p
          | some id ↦ finish_answer (answer_pending id p)
        ]

    abbrev pub after_confirmation : Answer → Progress
    after_confirmation (returns p) = p
    after_confirmation (goes_on p true) = finish p
    after_confirmation (goes_on p false) =
        to_question (if is_some p.0.awaiting_confirmation_field_id then p else repoint p)

    -- Part 2 on: the utterance answers a pending confirmation, or the pending question.
    unfoldable pub hear : Progress → Progress
    hear p = elim p.0.awaiting_confirmation_field_id [
      | some id ↦ after_confirmation (confirm_pending id p)
      | none ↦ to_question p
    ]

    -- Part 1: what the caller wants of the call itself comes first.
    unfoldable pub hear_intents : QualificationSnapshot → Progress
    hear_intents s =
        let human = includes intents "human" in
        let noted : Progress =
          if human then (record s { human_requested = true }, intent "human" ∷ []) else (s, []) in
        if includes intents "do_not_call"
        then (close s do_not_call, intent "do_not_call" ∷ [])
        else if includes intents "wrong_number"
        then (close s wrong_number, intent "wrong_number" ∷ [])
        else if includes intents "call_back_later"
        then (close noted.0 callback_requested, noted.1 ++ intent "call_back_later" ∷ [])
        else hear noted

  unfoldable pub apply_utterance :
      (String → List String)
      → (QualificationField → String → Option FieldValue)
      → QualificationSnapshot
      → String
      → Progress
  apply_utterance read_intents extract previous said =
      if is_terminal previous.status
      then (previous, [])
      else if said =ˢ ""
      then finish (previous, [])
      else hear_intents (read_intents said) said (λ f. extract f said) previous
