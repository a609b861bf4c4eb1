-- ===== src/Negotiation/Objections.antt =====
-- packages/negotiation/objections.ts: recognising what a caller objects to, and counting it. The
-- text tests, `normalizeForMatching` (Unicode) and the built-in `includes`, are parameters.
use ai_receptionist.Base.{
  ℕ, suc, String, Bool, List, [], ◌∷◌, Option, none, some, ltb, keep, find, Dict, lookup, insert,
  or_else, if◌then◌else◌, ◌=ˢ◌,
}

pub record Objection : Type 0 where
  pub id : String
  pub cues : Dict (List String)
  pub acknowledge : Dict String
  pub evidence : List String
  pub follow_up : Option (Dict String)
  pub escalate_after : ℕ
  pub ends_qualification : Bool

pub record ObjectionCatalog : Type 0 where
  pub version : String
  pub language : String
  pub objections : List Objection

pub record ObjectionMatch : Type 0 where
  pub objection : Objection
  pub cue : String
  pub language : String

abbrev pub ObjectionHistory : Type 0
ObjectionHistory = Dict ℕ

-- `recordObjections`: one more for each match.
unfoldable pub record_objections : ObjectionHistory → List ObjectionMatch → ObjectionHistory
record_objections history [] = history
record_objections history (m ∷ ms) =
    record_objections
      (insert m.objection.id (suc (or_else (lookup m.objection.id history) 0)) history) ms

unfoldable pub exhausted_objections : ObjectionHistory → ObjectionCatalog → List Objection
exhausted_objections history catalog =
    keep (λ o. ltb o.escalate_after (or_else (lookup o.id history) 0)) catalog.objections

module _ (normalize_for_matching : String → String) (contains : String → String → Bool) where
  -- The inner loop over the languages of one objection, up to its `break`.
  unfoldable pub first_hit : String → Objection → Dict (List String) → Option ObjectionMatch
  first_hit normalized o [] = none
  first_hit normalized o ((language, cues) ∷ rest) =
      elim (find (λ cue. contains normalized (normalize_for_matching cue)) cues) [
        | some cue ↦ some (record { objection = o; cue = cue; language = language })
        | none ↦ first_hit normalized o rest
      ]

  unfoldable pub hits : String → List Objection → List ObjectionMatch
  hits normalized [] = []
  hits normalized (o ∷ os) = elim (first_hit normalized o o.cues) [
    | some m ↦ m ∷ hits normalized os
    | none ↦ hits normalized os
  ]

  unfoldable pub match_objections : String → ObjectionCatalog → List ObjectionMatch
  match_objections utterance catalog =
      let normalized = normalize_for_matching utterance in
      if normalized =ˢ "" then [] else hits normalized catalog.objections
