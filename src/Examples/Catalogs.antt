-- ===== src/Examples/Catalogs.antt =====
-- A property of a loaded catalog at concrete input: one objection, to the price.
use ai_receptionist.Base.{ℕ, false, [], ◌∷◌, none}
use ai_receptionist.Negotiation.Objections.{Objection, ObjectionCatalog}
use ai_receptionist.Negotiation.Catalog.{CatalogParse, parsed}

abbrev too_expensive : Objection
too_expensive = record {
  id = "price";
  cues = ("en", "too expensive" ∷ []) ∷ [];
  acknowledge = ("en", "I understand") ∷ [];
  evidence = [];
  follow_up = none;
  escalate_after = 2;
  ends_qualification = false;
}

abbrev price_catalog : ObjectionCatalog
price_catalog = record { version = "1"; language = "en"; objections = too_expensive ∷ [] }

abbrev parse_any : ℕ → CatalogParse
parse_any raw = parsed price_catalog
