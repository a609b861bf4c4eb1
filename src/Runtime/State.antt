-- ===== src/Runtime/State.antt =====
-- packages/runtime/conversation-state.ts: the working memory of one conversation. The checks of the zod
-- schemas are a parameter, the test `is_valid`; what fails it is `none`, the ZodError of `parse`.
pub mod Merge
pub mod Precedence
pub mod Store
use ai_receptionist.Base.{
  ℕ, ltb, length, drop, map, String, Bool, true, false, ◌||◌, ◌=ˢ◌, not, List, [], ◌∷◌, Option,
  none, some, is_some, or_else, Dict, lookup, insert, delete, if◌then◌else◌,
}

abbrev pub max_slots : ℕ
max_slots = 24

pub data EscalationReason : Type 0 where
  explicit_human_request : EscalationReason
  repeated_misunderstanding : EscalationReason
  unsupported_request : EscalationReason
  sensitive_situation : EscalationReason
  action_failed : EscalationReason
  low_confidence : EscalationReason

pub record PendingConfirmation : Type 0 where
  pub tool_name : String
  pub arguments : Dict String
  pub requested_at : String

pub data ToolStatus : Type 0 where
  succeeded : ToolStatus
  failed : ToolStatus
  rejected : ToolStatus

pub record LastToolIntent : Type 0 where
  pub name : String
  pub correlation_id : String
  pub status : ToolStatus
  pub at : String

pub record ResponseLanguage : Type 0 where
  pub tag : String
  pub mixed : Bool

pub data EscalationStatus : Type 0 where
  no_escalation : EscalationStatus
  requested : EscalationStatus
  triggered : EscalationStatus

pub record Escalation : Type 0 where
  pub status : EscalationStatus
  pub reason : Option EscalationReason
  pub at : Option String

pub record Summary : Type 0 where
  pub text : String
  pub through_message_count : ℕ
  pub updated_at : Option String

pub record ConversationState : Type 0 where
  pub intent : Option String
  pub slots : Dict String
  pub qualification : Dict String
  pub pending_confirmation : Option PendingConfirmation
  pub workflow_step : Option String
  pub last_tool_intent : Option LastToolIntent
  pub escalation : Escalation
  pub summary : Summary
  pub messages_observed : ℕ
  pub unanswered_streak : ℕ
  pub turn_count : ℕ
  pub response_language : Option ResponseLanguage

abbrev pub empty_conversation_state : ConversationState
empty_conversation_state = record {
  intent = none;
  slots = [];
  qualification = [];
  pending_confirmation = none;
  workflow_step = none;
  last_tool_intent = none;
  escalation = record { status = no_escalation; reason = none; at = none };
  summary = record { text = ""; through_message_count = 0; updated_at = none };
  messages_observed = 0;
  unanswered_streak = 0;
  turn_count = 0;
  response_language = none;
}

-- `none` for a field that the patch leaves out, `some none` for null.
pub record ConversationStatePatch : Type 0 where
  pub intent : Option (Option String)
  pub slots : Option (Dict (Option String))
  pub qualification : Option (Dict (Option String))
  pub pending_confirmation : Option (Option PendingConfirmation)
  pub workflow_step : Option (Option String)
  pub last_tool_intent : Option (Option LastToolIntent)
  pub escalation : Option Escalation
  pub summary : Option Summary
  pub messages_observed : Option ℕ
  pub unanswered_streak : Option ℕ
  pub turn_count : Option ℕ
  pub response_language : Option (Option ResponseLanguage)

-- A patch that changes nothing.
abbrev pub no_change : ConversationStatePatch
no_change = record {
  intent = none;
  slots = none;
  qualification = none;
  pending_confirmation = none;
  workflow_step = none;
  last_tool_intent = none;
  escalation = none;
  summary = none;
  messages_observed = none;
  unanswered_streak = none;
  turn_count = none;
  response_language = none;
}

abbrev pub keys {ℓ} : {V : Type ℓ} → Dict V → List String
keys dict = map (λ entry. entry.0) dict

-- One entry of a patch: null deletes the key.
abbrev pub merge_entry : Dict String → String → Option String → Dict String
merge_entry next key none = delete key next
merge_entry next key (some value) = insert key value next

-- The loop over the entries of a patch.
unfoldable pub merge_entries : Dict String → Dict (Option String) → Dict String
merge_entries next [] = next
merge_entries next ((key, value) ∷ patch) = merge_entries (merge_entry next key value) patch

-- The loop that deletes the keys beyond the limit.
unfoldable pub delete_keys : List String → Dict String → Dict String
delete_keys [] next = next
delete_keys (key ∷ extra) next = delete_keys extra (delete key next)

unfoldable pub bounded : ℕ → Dict String → Dict String
bounded limit next =
    if ltb limit (length (keys next)) then delete_keys (drop limit (keys next)) next else next

-- `mergeRecord`
unfoldable pub merge_record : Dict String → Option (Dict (Option String)) → ℕ → Dict String
merge_record base none limit = base
merge_record base (some patch) limit = bounded limit (merge_entries base patch)

-- `applyStatePatch`, of a patch that its schema accepts.
unfoldable pub patched : ConversationState → ConversationStatePatch → ConversationState
patched state patch = record {
  intent = or_else patch.intent state.intent;
  slots = merge_record state.slots patch.slots max_slots;
  qualification = merge_record state.qualification patch.qualification max_slots;
  pending_confirmation = or_else patch.pending_confirmation state.pending_confirmation;
  workflow_step = or_else patch.workflow_step state.workflow_step;
  last_tool_intent = or_else patch.last_tool_intent state.last_tool_intent;
  escalation = or_else patch.escalation state.escalation;
  summary = or_else patch.summary state.summary;
  messages_observed = or_else patch.messages_observed state.messages_observed;
  unanswered_streak = or_else patch.unanswered_streak state.unanswered_streak;
  turn_count = or_else patch.turn_count state.turn_count;
  response_language = or_else patch.response_language state.response_language;
}

-- `applyStatePatch`
unfoldable pub apply_state_patch :
    (ConversationStatePatch → Bool)
    → ConversationState
    → ConversationStatePatch
    → Option ConversationState
apply_state_patch is_valid_patch state patch =
    if is_valid_patch patch then some (patched state patch) else none

abbrev pub has_keys : Dict String → Bool
has_keys dict = ltb 0 (length (keys dict))

abbrev pub is_escalating : EscalationStatus → Bool
is_escalating no_escalation = false
is_escalating _ = true

-- `hasStateContent`
unfoldable pub has_state_content : ConversationState → Bool
has_state_content state =
    is_some state.intent
    || (has_keys state.slots
        || (has_keys state.qualification
            || (is_some state.pending_confirmation
                || (is_some state.workflow_step || is_escalating state.escalation.status))))

pub record Row : Type 0 where
  pub business_id : String
  pub state : ConversationState

-- `InMemoryConversationStateStore.load`, which parses what it finds.
unfoldable pub load :
    (ConversationState → Bool) → Dict Row → String → String → Option ConversationState
load is_valid rows conversation_id business_id = elim (lookup conversation_id rows) [
  | none ↦ none
  | some row ↦
      if not (row.business_id =ˢ business_id)
      then none
      else if is_valid row.state
      then some row.state
      else none
]

-- `InMemoryConversationStateStore.save`, `none` where it throws.
unfoldable pub save :
    (ConversationState → Bool) → Dict Row → String → String → ConversationState → Option (Dict Row)
save is_valid rows conversation_id business_id state =
    let written =
      if is_valid state
      then some (insert conversation_id (record { business_id = business_id; state = state }) rows)
      else none in
    elim (lookup conversation_id rows) [
      | none ↦ written
      | some existing ↦ if not (existing.business_id =ˢ business_id) then none else written
    ]
