-- ===== src/Negotiation/Catalog/Loaded.antt =====
-- What a catalog that was loaded guarantees.
use mathlib.Core.List.{Memᴰ}
use ai_receptionist.Base.{
  ◌≡◌, refl, sym, subst, String, Bool, true, false, List, [], ◌∷◌, arith, append-eq-nil, includes,
}
use ai_receptionist.Negotiation.Policy.{missing}
use ai_receptionist.Negotiation.Objections.{Objection, ObjectionCatalog}
use ai_receptionist.Negotiation.Catalog.{
  CatalogError, duplicate_objection, no_cues, CatalogParse, parsed, unparsed, loaded, refused,
  report_if, lacks_cues, objection_errors, objections_errors, catalog_issues, load_if_none,
  parse_objection_catalog,
}

report_if-none : (b : Bool) (e : CatalogError) → report_if b e ≡ [] → b ≡ false
report_if-none true e h = absurd (ground arith)
report_if-none false e h = refl

-- The objection can be heard, and answered, in the language.
abbrev pub IsUsable : String → Objection → Type 0
IsUsable lang o = (lacks_cues o.cues lang ≡ false) × (missing o.acknowledge lang ≡ false)

objections_errors-IsUsable :
    (lang : String) (ids : List String) (os : List Objection) (o : Objection)
    → objections_errors lang ids os ≡ []
    → Memᴰ o os
    → IsUsable lang o
unfolding objections_errors objection_errors
objections_errors-IsUsable lang ids [] o h m = elim m [ ]
objections_errors-IsUsable lang ids (x ∷ os) o h (Memᴰ.head e) =
    let (h1, _) = append-eq-nil (objection_errors lang ids x) _ h in
    let (_, h2) = append-eq-nil (report_if (includes ids x.id) (duplicate_objection x.id)) _ h1 in
    let (heard, answered) =
      append-eq-nil (report_if (lacks_cues x.cues lang) (no_cues x.id)) _ h2 in
    subst (IsUsable lang) (sym e) (report_if-none _ _ heard, report_if-none _ _ answered)
objections_errors-IsUsable lang ids (x ∷ os) o h (Memᴰ.tail m) =
    objections_errors-IsUsable lang (x.id ∷ ids) os o
      (append-eq-nil (objection_errors lang ids x) _ h).1 m

clean_if_loaded :
    (u c : ObjectionCatalog) (es : List CatalogError)
    → objections_errors u.language [] u.objections ≡ es
    → load_if_none u es ≡ loaded c
    → objections_errors c.language [] c.objections ≡ []
clean_if_loaded u c [] e h = ground arith
clean_if_loaded u c (x ∷ es) e h = absurd (ground arith)

clean_if_parsed :
    (r : CatalogParse) (c : ObjectionCatalog)
    → elim r [
      | unparsed n ↦ refused (catalog_issues n)
      | parsed u ↦ load_if_none u (objections_errors u.language [] u.objections)
    ]
      ≡ loaded c
    → objections_errors c.language [] c.objections ≡ []
clean_if_parsed (unparsed n) c h = absurd (ground arith)
clean_if_parsed (parsed u) c h = clean_if_loaded u c _ refl h

-- In a catalog that was loaded, every objection has cues to recognise it and an acknowledgement to
-- answer with, in the catalog's language.
pub parse_objection_catalog-IsUsable :
    {Raw : Type 0} (safe_parse : Raw → CatalogParse) (raw : Raw) (c : ObjectionCatalog)
    (o : Objection)
    → parse_objection_catalog safe_parse raw ≡ loaded c
    → Memᴰ o c.objections
    → IsUsable c.language o
unfolding parse_objection_catalog
parse_objection_catalog-IsUsable safe_parse raw c o h m =
    objections_errors-IsUsable c.language [] c.objections o (clean_if_parsed (safe_parse raw) c h) m
