-- ===== src/Qualification/Snapshot.antt =====
-- packages/qualification/schema.ts and engine.ts: the schema, the snapshot of one call, and the
-- small operations on it. Confidences are whole hundredths.
use ai_receptionist.Base.{
  ℕ, suc, String, Bool, true, false, not, ◌&&◌, List, [], ◌∷◌, ◌++◌, Option, none, some, leb, find,
  includes, is_some, Dict, lookup, insert, or_else, if◌then◌else◌, ◌=ˢ◌,
}

pub data FieldType : Type 0 where
  enum boolean money energy_or_money capacity_kw phone pincode name text time : FieldType

-- An option of an enum field; the keyword lists of all its languages, in order.
pub record QualificationOption : Type 0 where
  pub value : String
  pub keywords : Dict (List String)

pub record DisqualifyWhen : Type 0 where
  pub equals : List String
  pub reason : String

pub record SkipWhen : Type 0 where
  pub field : String
  pub equals : List String

pub record QualificationField : Type 0 where
  pub id : String
  -- `type`
  pub kind : FieldType
  pub required : Bool
  pub options : Option (List QualificationOption)
  pub questions : Dict String
  pub confirm_prompts : Option (Dict String)
  pub confirm : Bool
  pub disqualify_when : Option DisqualifyWhen
  pub skip_when : Option SkipWhen
  pub max_attempts : ℕ

pub record QualificationSchema : Type 0 where
  pub version : String
  pub language : String
  pub fields : List QualificationField
  pub max_unresolved_fields : ℕ

pub data ValueUnit : Type 0 where
  inr kwh kw : ValueUnit

pub record FieldValue : Type 0 where
  pub value : String
  pub raw : String
  pub confidence : ℕ
  pub confirmed : Bool
  pub unit : Option ValueUnit
  pub unknown : Bool

pub data QualificationStatus : Type 0 where
  in_progress complete disqualified do_not_call wrong_number callback_requested :
      QualificationStatus

pub record QualificationSnapshot : Type 0 where
  pub fields : Dict FieldValue
  pub attempts : Dict ℕ
  pub status : QualificationStatus
  pub disqualified_reason : Option String
  pub pending_field_id : Option String
  pub awaiting_confirmation_field_id : Option String
  pub human_requested : Bool
  pub unresolved : List String

abbrev pub empty_snapshot : QualificationSnapshot
empty_snapshot = record {
  fields = [];
  attempts = [];
  status = in_progress;
  disqualified_reason = none;
  pending_field_id = none;
  awaiting_confirmation_field_id = none;
  human_requested = false;
  unresolved = [];
}

pub data QualificationEvent : Type 0 where
  captured : String → String → ℕ → QualificationEvent
  confirmation_requested : String → String → QualificationEvent
  confirmed rejected unknown unresolved : String → QualificationEvent
  retry : String → ℕ → QualificationEvent
  disqualified_by : String → String → QualificationEvent
  intent : String → QualificationEvent
  completed : QualificationEvent

-- The snapshot that is being changed, and the events so far.
abbrev pub Progress : Type 0
Progress = QualificationSnapshot × List QualificationEvent

abbrev pub push : QualificationEvent → Progress → Progress
push e (s, events) = (s, events ++ e ∷ [])

abbrev pub is_terminal : QualificationStatus → Bool
is_terminal in_progress = false
is_terminal complete = false
is_terminal _ = true

unfoldable pub close : QualificationSnapshot → QualificationStatus → QualificationSnapshot
close s status = record s {
  status = status;
  pending_field_id = none;
  awaiting_confirmation_field_id = none;
}

unfoldable pub field_by_id : QualificationSchema → String → Option QualificationField
field_by_id schema id = find (λ f. f.id =ˢ id) schema.fields

unfoldable pub attempts_of : QualificationSnapshot → String → ℕ
attempts_of s id = or_else (lookup id s.attempts) 0

-- `snapshot.fields[id] !== undefined && !snapshot.fields[id].unknown`
unfoldable pub is_answered : QualificationSnapshot → String → Bool
is_answered s id = elim (lookup id s.fields) [ none ↦ false | some v ↦ not v.unknown ]

abbrev pub add_once : Bool → String → List String → List String
add_once wanted id ids = if wanted && not (includes ids id) then ids ++ id ∷ [] else ids

unfoldable pub bump_attempt : QualificationField → Progress → Progress
bump_attempt field (s, events) =
    let attempt = suc (attempts_of s field.id) in
    let counted = record s { attempts = insert field.id attempt s.attempts } in
    let answered = is_answered s field.id in
    if leb field.max_attempts attempt
    then (
      record counted {
        unresolved = add_once (field.required && not answered) field.id s.unresolved;
      },
      (if answered then events else events ++ unresolved field.id ∷ []),
    )
    else (counted, events ++ retry field.id attempt ∷ [])

abbrev pub disqualify : String → String → Progress → Progress
disqualify id reason (s, events) = (
  record s {
    status = disqualified;
    disqualified_reason = some reason;
    pending_field_id = none;
    awaiting_confirmation_field_id = none;
  },
  events ++ disqualified_by id reason ∷ [],
)

-- `applyDisqualifier` with a field.
unfoldable pub apply_disqualifier : QualificationField → Progress → Progress
apply_disqualifier field (s, events) = elim field.disqualify_when [
  | none ↦ (s, events)
  | some rule ↦ elim (lookup field.id s.fields) [
    | none ↦ (s, events)
    | some v ↦
        if not v.unknown && includes rule.equals v.value
        then disqualify field.id rule.reason (s, events)
        else (s, events)
  ]
]

unfoldable pub is_skipped : QualificationSnapshot → Option SkipWhen → Bool
is_skipped s none = false
is_skipped s (some w) = elim (lookup w.field s.fields) [
  | none ↦ false
  | some gate ↦ includes w.equals gate.value
]

-- The tests of one round of `nextField`.
unfoldable pub is_open : QualificationSnapshot → QualificationField → Bool
is_open s field =
    not (is_some (lookup field.id s.fields))
    && (not (includes s.unresolved field.id)
        && (not (leb field.max_attempts (attempts_of s field.id))
            && not (is_skipped s field.skip_when)))

unfoldable pub next_field : QualificationSchema → QualificationSnapshot → Option QualificationField
next_field schema s = find (is_open s) schema.fields

abbrev pub id_of : Option QualificationField → Option String
id_of none = none
id_of (some f) = some f.id
