-- ===== src/Qualification/Schema/Loaded.antt =====
-- What a schema that was loaded guarantees to the engine.
use mathlib.Core.List.{Memᴰ}
use ai_receptionist.Base.{
  ◌≡◌, refl, subst, sym, is_some, String, Bool, true, false, not, ◌&&◌, List, [], ◌∷◌, some, arith,
  eq_refl, append-eq-nil, find, includes, ◌=ˢ◌,
}
use ai_receptionist.Qualification.Snapshot.{QualificationField, QualificationSchema, field_by_id}
use ai_receptionist.Qualification.Schema.{
  SchemaError, duplicate_id, no_question, needs_options, has_options, no_confirm_prompt, error_if,
  is_enum, has_no_option, lacks, accept_if_none, rejected, issues, SchemaParse, success, failure,
  ok, field_errors, fields_errors, schema_errors, parse_qualification_schema,
}

error_if-none : (b : Bool) (e : SchemaError) → error_if b e ≡ [] → b ≡ false
error_if-none true e h = absurd (ground arith)
error_if-none false e h = refl

-- What a field that passes has: it is new, and can be asked and confirmed in the language.
abbrev Passes : String → List String → QualificationField → Type 0
Passes lang ids f =
    (includes ids f.id ≡ false)
    × (lacks (some f.questions) lang ≡ false)
    × ((f.confirm && lacks f.confirm_prompts lang) ≡ false)

field_errors-Passes :
    (lang : String) (ids : List String) (f : QualificationField)
    → field_errors lang ids f ≡ []
    → Passes lang ids f
unfolding field_errors
field_errors-Passes lang ids f h =
    let (new, h1) = append-eq-nil (error_if (includes ids f.id) (duplicate_id f.id)) _ h in
    let (asked, h2) =
      append-eq-nil (error_if (lacks (some f.questions) lang) (no_question f.id)) _ h1 in
    let (_, h3) =
      append-eq-nil (error_if (is_enum f.kind && has_no_option f.options) (needs_options f.id)) _
        h2 in
    let (_, h4) =
      append-eq-nil (error_if (not (is_enum f.kind) && is_some f.options) (has_options f.id)) _
        h3 in
    let (prompted, _) =
      append-eq-nil (error_if (f.confirm && lacks f.confirm_prompts lang) (no_confirm_prompt f.id))
        _ h4 in
    (error_if-none _ _ new, error_if-none _ _ asked, error_if-none _ _ prompted)

fields_errors-Passes :
    (lang : String) (ids : List String) (fs : List QualificationField) (f : QualificationField)
    → fields_errors lang ids fs ≡ []
    → Memᴰ f fs
    → Passes lang ids f
unfolding fields_errors
fields_errors-Passes lang ids [] f h m = elim m [ ]
fields_errors-Passes lang ids (x ∷ fs) f h (Memᴰ.head e) =
    subst (Passes lang ids) (sym e)
      (field_errors-Passes lang ids x (append-eq-nil (field_errors lang ids x) _ h).0)
fields_errors-Passes lang ids (x ∷ fs) f h (Memᴰ.tail m) =
    let (new, asked, prompted) =
      fields_errors-Passes lang (x.id ∷ ids) fs f (append-eq-nil (field_errors lang ids x) _ h).1
        m in
    (ground arith, asked, prompted)

fields_errors-find :
    (lang : String) (ids : List String) (fs : List QualificationField) (f : QualificationField)
    → fields_errors lang ids fs ≡ []
    → Memᴰ f fs
    → find (λ g. g.id =ˢ f.id) fs ≡ some f
unfolding fields_errors
fields_errors-find lang ids [] f h m = elim m [ ]
fields_errors-find lang ids (x ∷ fs) f h (Memᴰ.head e) =
    subst (λ y. find (λ g. g.id =ˢ y.id) (x ∷ fs) ≡ some y) (sym e) (ground (arith, eq_refl x.id))
fields_errors-find lang ids (x ∷ fs) f h (Memᴰ.tail m) =
    let rest = (append-eq-nil (field_errors lang ids x) _ h).1 in
    ground (
      arith,
      (fields_errors-Passes lang (x.id ∷ ids) fs f rest m).0,
      fields_errors-find lang (x.id ∷ ids) fs f rest m,
    )

accepted :
    {Raw : Type 0} (safe_parse : Raw → SchemaParse) (raw : Raw) (s : QualificationSchema)
    → parse_qualification_schema safe_parse raw ≡ ok s
    → schema_errors s ≡ []
unfolding parse_qualification_schema
accepted safe_parse raw s h = go (safe_parse raw) h
  where
    by_errors :
        (u : QualificationSchema) (es : List SchemaError)
        → schema_errors u ≡ es
        → accept_if_none u es ≡ ok s
        → schema_errors s ≡ []
    by_errors u [] e h = ground arith
    by_errors u (x ∷ es) e h = absurd (ground arith)

    go :
        (r : SchemaParse)
        → elim r [
          | failure n ↦ rejected (issues n)
          | success u ↦ accept_if_none u (schema_errors u)
        ]
          ≡ ok s
        → schema_errors s ≡ []
    go (failure n) h = absurd (ground arith)
    go (success u) h = by_errors u (schema_errors u) refl h

-- In a schema that was loaded, the engine finds every field by its id, and has a question for it,
-- and a confirmation prompt where it confirms, in the schema's language.
pub parse_qualification_schema-fields :
    {Raw : Type 0} (safe_parse : Raw → SchemaParse) (raw : Raw) (s : QualificationSchema)
    (f : QualificationField)
    → parse_qualification_schema safe_parse raw ≡ ok s
    → Memᴰ f s.fields
    → (field_by_id s f.id ≡ some f)
      × (lacks (some f.questions) s.language ≡ false)
      × ((f.confirm && lacks f.confirm_prompts s.language) ≡ false)
unfolding field_by_id schema_errors
parse_qualification_schema-fields safe_parse raw s f h m =
    let clean =
      (append-eq-nil (fields_errors s.language [] s.fields) _ (accepted safe_parse raw s h)).0 in
    let (_, asked, prompted) = fields_errors-Passes s.language [] s.fields f clean m in
    (fields_errors-find s.language [] s.fields f clean m, asked, prompted)
