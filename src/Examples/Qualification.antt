-- ===== src/Examples/Qualification.antt =====
-- Properties of the qualification engine at concrete input: one question, for a name.
use ai_receptionist.Base.{
  ◌=ˢ◌, ℕ, String, true, false, List, [], ◌∷◌, Option, none, some, if◌then◌else◌,
}
use ai_receptionist.Qualification.Snapshot.{
  QualificationField, QualificationSchema, FieldValue, empty_snapshot, name,
}
use ai_receptionist.Qualification.Schema.{SchemaParse, success}
use ai_receptionist.Qualification.Engine.{apply_utterance}
use ai_receptionist.Qualification.Engine.Rules.Asked.{Settled, apply_utterance-Settled}

abbrev name_field : QualificationField
name_field = record {
  id = "name";
  kind = name;
  required = true;
  options = none;
  questions = ("en", "your name?") ∷ [];
  confirm_prompts = some (("en", "is that right?") ∷ []);
  confirm = true;
  disqualify_when = none;
  skip_when = none;
  max_attempts = 2;
}

abbrev name_schema : QualificationSchema
name_schema = record {
  version = "1";
  language = "en";
  fields = name_field ∷ [];
  max_unresolved_fields = 2;
}

abbrev read_intents : String → List String
read_intents said = if said =ˢ "stop calling" then "do_not_call" ∷ [] else []

abbrev read_name : QualificationField → String → Option FieldValue
read_name field said = some (record {
  value = said;
  raw = said;
  confidence = 60;
  confirmed = false;
  unit = none;
  unknown = false;
})

apply_utterance-Settled_example :
    Settled name_schema (apply_utterance name_schema read_intents read_name empty_snapshot "asha")
apply_utterance-Settled_example =
    apply_utterance-Settled name_schema read_intents read_name empty_snapshot "asha"

abbrev parsed_schema : ℕ → SchemaParse
parsed_schema raw = success name_schema
