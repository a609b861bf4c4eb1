-- ===== src/Negotiation/Catalog.antt =====
-- packages/negotiation/objections.ts: the cross-checks that load a catalog of objections. `safeParse`
-- is zod's, and is a parameter: it gives the parsed catalog, or how many issues it found.
pub mod Loaded
use ai_receptionist.Base.{
  ℕ, zero, suc, String, Bool, true, false, List, [], ◌∷◌, ◌++◌, Option, none, some, includes, Dict,
  lookup, if◌then◌else◌,
}
use ai_receptionist.Negotiation.Policy.{missing}
use ai_receptionist.Negotiation.Objections.{Objection, ObjectionCatalog}

-- One constructor for each message, with the id that the message names.
pub data CatalogError : Type 0 where
  catalog_issue : CatalogError
  duplicate_objection no_cues no_acknowledgement : String → CatalogError

pub data CatalogParseResult : Type 0 where
  loaded : ObjectionCatalog → CatalogParseResult
  refused : List CatalogError → CatalogParseResult

pub data CatalogParse : Type 0 where
  parsed : ObjectionCatalog → CatalogParse
  unparsed : ℕ → CatalogParse

abbrev pub report_if : Bool → CatalogError → List CatalogError
report_if b e = if b then e ∷ [] else []

-- `!cues[lang]?.length`
unfoldable pub lacks_cues : Dict (List String) → String → Bool
lacks_cues cues lang = elim (lookup lang cues) [ none ↦ true | some phrases ↦ is_empty phrases ]
  where
    is_empty : List String → Bool
    is_empty [] = true
    is_empty (c ∷ cs) = false

unfoldable pub objection_errors : String → List String → Objection → List CatalogError
objection_errors lang ids o =
    report_if (includes ids o.id) (duplicate_objection o.id)
    ++ (report_if (lacks_cues o.cues lang) (no_cues o.id)
        ++ report_if (missing o.acknowledge lang) (no_acknowledgement o.id))

-- The loop, with the set of the ids seen.
unfoldable pub objections_errors : String → List String → List Objection → List CatalogError
objections_errors lang ids [] = []
objections_errors lang ids (o ∷ os) =
    objection_errors lang ids o ++ objections_errors lang (o.id ∷ ids) os

abbrev pub catalog_issues : ℕ → List CatalogError
catalog_issues zero = []
catalog_issues (suc n) = catalog_issue ∷ catalog_issues n

abbrev pub load_if_none : ObjectionCatalog → List CatalogError → CatalogParseResult
load_if_none c [] = loaded c
load_if_none c (e ∷ es) = refused (e ∷ es)

unfoldable pub parse_objection_catalog {ℓ} :
    {Raw : Type ℓ} → (Raw → CatalogParse) → Raw → CatalogParseResult
parse_objection_catalog safe_parse raw = elim (safe_parse raw) [
  | unparsed n ↦ refused (catalog_issues n)
  | parsed c ↦ load_if_none c (objections_errors c.language [] c.objections)
]
