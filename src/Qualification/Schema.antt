-- ===== src/Qualification/Schema.antt =====
-- packages/qualification/schema.ts: the cross-checks that load a schema. `safeParse` of the schema is
-- zod's, and is a parameter: it gives the parsed schema, or how many issues it found.
pub mod Loaded
use ai_receptionist.Base.{
  ℕ, zero, suc, String, Bool, true, false, not, ◌&&◌, ◌||◌, List, [], ◌∷◌, ◌++◌, Option, none, some,
  is_some, map, includes, Dict, lookup, if◌then◌else◌, ◌=ˢ◌,
}
use ai_receptionist.Qualification.Snapshot.{
  FieldType, enum, boolean, QualificationField, QualificationOption, SkipWhen, QualificationSchema,
}

-- One constructor for each message, with the ids that the message names.
pub data SchemaError : Type 0 where
  schema_issue : SchemaError
  duplicate_id no_question needs_options has_options no_confirm_prompt cannot_disqualify :
      String → SchemaError
  unknown_gate : String → String → SchemaError

pub data ParseResult : Type 0 where
  ok : QualificationSchema → ParseResult
  rejected : List SchemaError → ParseResult

pub data SchemaParse : Type 0 where
  success : QualificationSchema → SchemaParse
  failure : ℕ → SchemaParse

abbrev pub error_if : Bool → SchemaError → List SchemaError
error_if b e = if b then e ∷ [] else []

abbrev pub is_enum : FieldType → Bool
is_enum enum = true
is_enum _ = false

abbrev pub is_boolean : FieldType → Bool
is_boolean boolean = true
is_boolean _ = false

-- `!text?.[lang]`: no text, no entry, or an empty one
unfoldable pub lacks : Option (Dict String) → String → Bool
lacks none lang = true
lacks (some text) lang = elim (lookup lang text) [ none ↦ true | some s ↦ s =ˢ "" ]

-- `!field.options || field.options.length === 0`
abbrev pub has_no_option : Option (List QualificationOption) → Bool
has_no_option none = true
has_no_option (some []) = true
has_no_option (some (o ∷ os)) = false

unfoldable pub field_errors : String → List String → QualificationField → List SchemaError
field_errors lang ids f =
    error_if (includes ids f.id) (duplicate_id f.id)
    ++ (error_if (lacks (some f.questions) lang) (no_question f.id)
        ++ (error_if (is_enum f.kind && has_no_option f.options) (needs_options f.id)
            ++ (error_if (not (is_enum f.kind) && is_some f.options) (has_options f.id)
                ++ (error_if (f.confirm && lacks f.confirm_prompts lang) (no_confirm_prompt f.id)
                    ++ error_if
                        (is_some f.disqualify_when
                          && (not (is_enum f.kind) && not (is_boolean f.kind)))
                        (cannot_disqualify f.id)))))

-- The first loop, with the set of the ids seen.
unfoldable pub fields_errors : String → List String → List QualificationField → List SchemaError
fields_errors lang ids [] = []
fields_errors lang ids (f ∷ fs) = field_errors lang ids f ++ fields_errors lang (f.id ∷ ids) fs

unfoldable pub gate_errors : List String → QualificationField → List SchemaError
gate_errors ids f = elim f.skip_when [
  | none ↦ []
  | some gate ↦ error_if (not (includes ids gate.field)) (unknown_gate f.id gate.field)
]

-- The second loop.
unfoldable pub gates_errors : List String → List QualificationField → List SchemaError
gates_errors ids [] = []
gates_errors ids (f ∷ fs) = gate_errors ids f ++ gates_errors ids fs

abbrev pub ids_of : List QualificationField → List String
ids_of fs = map (λ f. f.id) fs

unfoldable pub schema_errors : QualificationSchema → List SchemaError
schema_errors s = fields_errors s.language [] s.fields ++ gates_errors (ids_of s.fields) s.fields

abbrev pub issues : ℕ → List SchemaError
issues zero = []
issues (suc n) = schema_issue ∷ issues n

abbrev accept_if_none : QualificationSchema → List SchemaError → ParseResult
accept_if_none s [] = ok s
accept_if_none s (e ∷ es) = rejected (e ∷ es)

unfoldable pub parse_qualification_schema {ℓ} :
    {Raw : Type ℓ} → (Raw → SchemaParse) → Raw → ParseResult
parse_qualification_schema safe_parse raw = elim (safe_parse raw) [
  | failure n ↦ rejected (issues n)
  | success s ↦ accept_if_none s (schema_errors s)
]
