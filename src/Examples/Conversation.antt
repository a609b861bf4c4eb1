-- ===== src/Examples/Conversation.antt =====
-- The state of a conversation and a turn with a tool, at concrete input.
use ai_receptionist.Base.{
  ℕ, ◌==◌, ◌*◌, ◌≤◌, ◌≡◌, ◌≢◌, ◌↔◌, refl, ap, false≢true, String, Bool, true, false, ◌=ˢ◌, List, [],
  ◌∷◌, ◌++◌, Option, none, some, or_else, Dict, lookup, insert, if◌then◌else◌, arith, length,
}
use ai_receptionist.Runtime.State.{
  ConversationState, ConversationStatePatch, Row, empty_conversation_state, rejected, succeeded,
  no_change, merge_record, apply_state_patch, patched, save,
}
use ai_receptionist.Runtime.State.Merge.{
  HasUniqueKeys, IsBoundedState, apply_state_patch-IsBoundedState,
}
use ai_receptionist.Runtime.State.Precedence.{merge_record_keeps_known}
use ai_receptionist.Runtime.Tools.{
  ToolExecutionOutcome, LlmToolCall, ControlledToolDefinition, ToolRegistry, ToolIntent, allowed,
  denied, confirmation_required, authorize_known, rejection_result, to_tool_intent, intent_for,
  execute_intent, authorize_intent,
}
use ai_receptionist.Runtime.Tools.Authorized.{IsPermitted, authorize_intent_iff}
use ai_receptionist.Runtime.Turn.{
  Turn, TurnInput, authorize, refuse_intent, run_intent, state_after, handle_intent, handle_call,
  handle_calls, refuse_extra, handle_round, tool_rounds, run_tools,
}
use ai_receptionist.Runtime.Turn.Once.{IsSound, run_tools-IsSound}
use ai_receptionist.Runtime.Turn.Confirmation.{asked_then_allowed}

abbrev known_slots : Dict String
known_slots = ("name", "Asha") ∷ ("city", "Pune") ∷ []

abbrev new_slots : Dict (Option String)
new_slots = ("email", some "a@b") ∷ ("city", none) ∷ []

unique_known : HasUniqueKeys known_slots
unfolding lookup
unique_known = (refl, (refl, tt))

unique_new : HasUniqueKeys new_slots
unfolding lookup
unique_new = (refl, (refl, tt))

has_name : lookup "name" known_slots ≡ some "Asha"
unfolding lookup
has_name = refl

merge_record_keeps_known_example :
    lookup "name" (merge_record known_slots (some new_slots) 2)
    ≡ or_else (lookup "name" new_slots) (some "Asha")
merge_record_keeps_known_example =
    merge_record_keeps_known 2 "name" "Asha" known_slots new_slots unique_known unique_new
      (omega arith) has_name

abbrev accept_all : {A : Type 0} → A → Bool
accept_all _ = true

abbrev started : ConversationState
started = record empty_conversation_state { slots = known_slots }

abbrev new_email : ConversationStatePatch
new_email = record no_change { slots = some new_slots }

started_bounded : IsBoundedState started
started_bounded = ((unique_known, omega arith), (tt, omega arith))

accepted : apply_state_patch accept_all started new_email ≡ some (patched started new_email)
unfolding apply_state_patch
accepted = refl

apply_state_patch-IsBoundedState_example : IsBoundedState (patched started new_email)
apply_state_patch-IsBoundedState_example =
    apply_state_patch-IsBoundedState accept_all started (patched started new_email) new_email
      started_bounded accepted

abbrev other_row : Row
other_row = record { business_id = "b2"; state = empty_conversation_state }

abbrev stored : Dict Row
stored = ("c2", other_row) ∷ []

saved :
    save accept_all stored "c1" "b1" started
    ≡ some (insert "c1" (record { business_id = "b1"; state = started }) stored)
unfolding save lookup
saved = refl

other_known : lookup "c2" stored ≡ some other_row
unfolding lookup
other_known = refl

abbrev first_tenant : String
first_tenant = "b1"

not_theirs : other_row.business_id ≢ first_tenant
not_theirs e = false≢true (ap (λ id. id =ˢ first_tenant) e)

-- A tool that cancels a visit, and asks first.
abbrev cancels : String → ConversationState → Option ToolExecutionOutcome
cancels args state = some (record {
  ok = true;
  summary = "cancelled";
  claims_permitted = some ("cancelled" ∷ []);
  state_patch = none;
  error = none;
})

abbrev cancel_visit : ControlledToolDefinition String
cancel_visit = record { args_schema = some; requires_confirmation = true; precondition = none }

abbrev tools : ToolRegistry String
tools = record {
  definition = λ name. if name =ˢ "cancel" then some cancel_visit else none;
  executor = λ name. if name =ˢ "cancel" then some cancels else none;
  bound_names = "cancel" ∷ [];
}

abbrev yes_turn : TurnInput String
yes_turn = record {
  slice = λ n text. text;
  text_length = λ text. 10;
  parse_arguments = λ call. call.arguments_text;
  idempotency_key_for = λ turn name args. name;
  fresh_id = λ turn round name. name;
  pending_arguments = λ args. [];
  is_valid_patch = accept_all;
  detects = λ message. message =ˢ "yes";
  registry = tools;
  offered = "cancel" ∷ [];
  channel_allows = true;
  user_message = "yes";
  turn_id = "t";
  now = "now";
  max_intents_per_round = 3;
  max_tool_rounds = 2;
}

abbrev cancel_call : LlmToolCall
cancel_call = record { id = "1"; name = some "cancel"; arguments_text = some "{}" }

abbrev cancel_intent : ToolIntent String
cancel_intent = record {
  id = "1";
  name = "cancel";
  arguments = "{}";
  correlation_id = "t";
  idempotency_key = "cancel";
  round = 0;
}

abbrev fresh_turn : Turn
fresh_turn = record {
  state = empty_conversation_state;
  executed_keys = [];
  tool_results = [];
  actions = [];
  committed = false;
}

-- After the first attempt the confirmation is pending.
abbrev asked_turn : Turn
asked_turn = record fresh_turn {
  state = record empty_conversation_state {
    pending_confirmation =
        some (record { tool_name = "cancel"; arguments = []; requested_at = "now" });
  };
  tool_results =
      record {
        intent_id = "1";
        name = "cancel";
        status = rejected;
        summary = "Ask the visitor to confirm before this action can run.";
        claims_permitted = [];
        state_patch = none;
        rejection = some confirmation_required;
        error = none;
      }
      ∷ [];
}

authorize_intent_iff_example :
    (authorize_intent yes_turn.detects tools
        ("cancel" ∷ [])
        true
        "yes"
        cancel_intent
        empty_conversation_state
        []
      ≡ allowed)
    ↔ ((def : ControlledToolDefinition String) × (tools.definition "cancel" ≡ some def)
        × IsPermitted yes_turn.detects tools
            ("cancel" ∷ [])
            true
            "yes"
            cancel_intent
            empty_conversation_state
            []
            def)
authorize_intent_iff_example =
    authorize_intent_iff yes_turn.detects tools ("cancel" ∷ []) true "yes" cancel_intent
      empty_conversation_state []

asked :
    authorize yes_turn cancel_intent fresh_turn
    ≡ denied confirmation_required "Ask the visitor to confirm before this action can run."
unfolding authorize_intent authorize_known
asked = refl

handled : handle_intent yes_turn cancel_intent fresh_turn ≡ some asked_turn
unfolding handle_intent refuse_intent authorize_intent authorize_known apply_state_patch patched
    merge_record rejection_result
handled = refl

asked_then_allowed_example : authorize yes_turn cancel_intent asked_turn ≡ allowed
asked_then_allowed_example =
    asked_then_allowed yes_turn cancel_intent fresh_turn asked_turn cancel_visit
      "Ask the visitor to confirm before this action can run." refl asked refl handled refl

-- The model calls the tool twice in its first round.
abbrev calls_twice : ℕ → Turn → List LlmToolCall
calls_twice round turn = if round == 0 then cancel_call ∷ cancel_call ∷ [] else []

-- The turn runs to its end, and the visit is cancelled though the visitor was never asked.
abbrev cancelled_turn : Turn
cancelled_turn = record {
  state = record empty_conversation_state {
    last_tool_intent =
        some (record { name = "cancel"; correlation_id = "t"; status = succeeded; at = "now" });
  };
  executed_keys = "cancel" ∷ [];
  tool_results =
      asked_turn.tool_results
      ++ record {
        intent_id = "1";
        name = "cancel";
        status = succeeded;
        summary = "cancelled";
        claims_permitted = "cancelled" ∷ [];
        state_patch = none;
        rejection = none;
        error = none;
      }
        ∷ [];
  actions =
      record {
        name = "cancel";
        status = succeeded;
        claims_permitted = "cancelled" ∷ [];
        summary = "cancelled";
      }
      ∷ [];
  committed = true;
}

ended : run_tools yes_turn calls_twice empty_conversation_state ≡ some cancelled_turn
unfolding run_tools tool_rounds handle_round handle_calls handle_call handle_intent refuse_extra
    refuse_intent run_intent state_after to_tool_intent intent_for authorize_intent authorize_known
    execute_intent apply_state_patch patched merge_record rejection_result
ended = refl

run_tools-IsSound_example :
    IsSound yes_turn cancelled_turn × (length cancelled_turn.actions ≤ 2 * 3)
run_tools-IsSound_example =
    run_tools-IsSound yes_turn calls_twice empty_conversation_state cancelled_turn ended
