-- ===== src/Runtime/Turn.antt =====
-- packages/runtime/agent-runtime.ts: the loop of one turn over the model's tool calls. What the model
-- asks for in each round is a parameter, as are the parts of the tool boundary that Tools has as
-- parameters; a turn that ends with an exception is `none`.
pub mod Once
pub mod Confirmation
use ai_receptionist.Base.{
  ℕ, zero, suc, ◌+◌, length, take, drop, String, Bool, true, false, ◌&&◌, ◌||◌, ◌==◌, ◌=ˢ◌, List,
  [], ◌∷◌, ◌++◌, Option, none, some, or_else, Dict, includes, if◌then◌else◌,
}
use ai_receptionist.Runtime.State.{
  ConversationState, ConversationStatePatch, PendingConfirmation, LastToolIntent, ToolStatus,
  succeeded, failed, rejected, no_change, apply_state_patch,
}
use ai_receptionist.Runtime.Tools.{
  ToolRejectionReason, confirmation_required, budget_exhausted, ToolAuthorization, allowed, denied,
  ToolResult, ToolExecutionOutcome, LlmToolCall, ToolRegistry, ToolIntent, Converted, converted,
  unusable, rejected_call, to_tool_intent, authorize_intent, execute_intent, rejection_result,
}

-- A tool that ran.
pub record ActionRecord : Type 0 where
  pub name : String
  pub status : ToolStatus
  pub claims_permitted : List String
  pub summary : String

pub record Turn : Type 0 where
  pub state : ConversationState
  pub executed_keys : List String
  pub tool_results : List ToolResult
  pub actions : List ActionRecord
  pub committed : Bool

-- What one turn is given, beside the model's calls.
pub record TurnInput (Args : Type 0) : Type 0 where
  pub slice : ℕ → String → String
  pub text_length : String → ℕ
  pub parse_arguments : LlmToolCall → Option Args
  pub idempotency_key_for : String → String → Args → String
  pub fresh_id : String → ℕ → String → String
  pub pending_arguments : Args → Dict String
  pub is_valid_patch : ConversationStatePatch → Bool
  pub detects : String → Bool
  pub registry : ToolRegistry Args
  pub offered : List String
  pub channel_allows : Bool
  pub user_message : String
  pub turn_id : String
  pub now : String
  pub max_intents_per_round : ℕ
  pub max_tool_rounds : ℕ

abbrev pub is_succeeded : ToolStatus → Bool
is_succeeded succeeded = true
is_succeeded _ = false

abbrev pub asks_confirmation : ToolRejectionReason → Bool
asks_confirmation confirmation_required = true
asks_confirmation _ = false

abbrev pub add_result : ToolResult → Turn → Turn
add_result result turn = record turn { tool_results = turn.tool_results ++ result ∷ [] }

-- The confirmation that is pending is one of this tool.
abbrev pub awaits : String → Option PendingConfirmation → Bool
awaits name none = false
awaits name (some pending) = pending.tool_name =ˢ name

module _ {Args : Type 0} (input : TurnInput Args) where
  abbrev pub convert : LlmToolCall → ℕ → Converted Args
  convert call round =
      to_tool_intent input.slice input.text_length input.parse_arguments input.idempotency_key_for
        input.fresh_id input.registry call input.turn_id round

  abbrev pub authorize : ToolIntent Args → Turn → ToolAuthorization
  authorize intent turn =
      authorize_intent input.detects input.registry input.offered input.channel_allows
        input.user_message intent turn.state turn.executed_keys

  abbrev pub execute : ToolIntent Args → Turn → ToolResult
  execute intent turn =
      execute_intent input.slice intent
        (or_else (input.registry.executor intent.name) (λ args state. none)) turn.state

  -- The patch that remembers which tool waits for a yes.
  abbrev pub ask_patch : ToolIntent Args → ConversationStatePatch
  ask_patch intent = record no_change {
    pending_confirmation = some (
        some (record {
          tool_name = intent.name;
          arguments = input.pending_arguments intent.arguments;
          requested_at = input.now;
        }));
  }

  -- The branch of an intent that is not allowed.
  unfoldable pub refuse_intent : ToolIntent Args → ToolRejectionReason → String → Turn → Option Turn
  refuse_intent intent reason message turn =
      let refused = add_result (rejection_result intent reason message) turn in
      if asks_confirmation reason
      then elim (apply_state_patch input.is_valid_patch turn.state (ask_patch intent)) [
        | none ↦ none
        | some state ↦ some (record refused { state = state })
      ]
      else some refused

  -- The patch after a tool ran.
  abbrev pub ran_patch : ToolIntent Args → ToolResult → ConversationState → ConversationStatePatch
  ran_patch intent result state = record no_change {
    last_tool_intent = some (
        some (record {
          name = intent.name;
          correlation_id = intent.correlation_id;
          status = result.status;
          at = input.now;
        }));
    pending_confirmation =
        if is_succeeded result.status && awaits intent.name state.pending_confirmation
        then some none
        else none;
  }

  -- The state after a tool ran: the result's own patch first.
  unfoldable pub state_after :
      ToolIntent Args → ToolResult → ConversationState → Option ConversationState
  state_after intent result state =
      let own : Option ConversationState = elim result.state_patch [
        | none ↦ some state
        | some patch ↦ apply_state_patch input.is_valid_patch state patch
      ] in
      elim own [
        | none ↦ none
        | some next ↦ apply_state_patch input.is_valid_patch next (ran_patch intent result next)
      ]

  abbrev pub action_of : ToolIntent Args → ToolResult → ActionRecord
  action_of intent result = record {
    name = intent.name;
    status = if is_succeeded result.status then succeeded else failed;
    claims_permitted = result.claims_permitted;
    summary = result.summary;
  }

  -- The branch of an intent that is allowed.
  unfoldable pub run_intent : ToolIntent Args → Turn → Option Turn
  run_intent intent turn =
      let result = execute intent turn in
      elim (state_after intent result turn.state) [
        | none ↦ none
        | some state ↦ some (record {
          state = state;
          executed_keys = intent.idempotency_key ∷ turn.executed_keys;
          tool_results = turn.tool_results ++ result ∷ [];
          actions = action_of intent result ∷ turn.actions;
          committed = is_succeeded result.status || turn.committed;
        })
      ]

  unfoldable pub handle_intent : ToolIntent Args → Turn → Option Turn
  handle_intent intent turn = elim (authorize intent turn) [
    | allowed ↦ run_intent intent turn
    | denied reason message ↦ refuse_intent intent reason message turn
  ]

  -- One round of the loop over the accepted calls.
  unfoldable pub handle_call : ℕ → LlmToolCall → Turn → Option Turn
  handle_call round call turn = elim (convert call round) [
    | unusable result ↦ some (add_result result turn)
    | converted intent ↦ handle_intent intent turn
  ]

  unfoldable pub handle_calls : ℕ → List LlmToolCall → Turn → Option Turn
  handle_calls round [] turn = some turn
  handle_calls round (call ∷ calls) turn = elim (handle_call round call turn) [
    | none ↦ none
    | some next ↦ handle_calls round calls next
  ]

  -- The calls beyond the limit of the round.
  unfoldable pub refuse_extra : List LlmToolCall → Turn → Turn
  refuse_extra [] turn = turn
  refuse_extra (extra ∷ calls) turn = refuse_extra calls (
      add_result
        (rejected_call input.slice extra budget_exhausted
          "Too many actions requested at once; only the first few were considered.")
        turn)

  unfoldable pub handle_round : ℕ → List LlmToolCall → Turn → Option Turn
  handle_round round calls turn =
      handle_calls round (take input.max_intents_per_round calls)
        (refuse_extra (drop input.max_intents_per_round calls) turn)

  -- The loop over the rounds that offer tools, of which `left` are left; in the last round no tools are
  -- offered, and the loop ends.
  unfoldable pub tool_rounds : (ℕ → Turn → List LlmToolCall) → ℕ → ℕ → Turn → Option Turn
  tool_rounds model_calls zero round turn = some turn
  tool_rounds model_calls (suc left) round turn =
      let calls = model_calls round turn in
      if length calls == 0 || length input.offered == 0
      then some turn
      else elim (handle_round round calls turn) [
        | none ↦ none
        | some next ↦ tool_rounds model_calls left (round + 1) next
      ]

  unfoldable pub run_tools : (ℕ → Turn → List LlmToolCall) → ConversationState → Option Turn
  run_tools model_calls state = tool_rounds model_calls input.max_tool_rounds 0 (record {
    state = state;
    executed_keys = [];
    tool_results = [];
    actions = [];
    committed = false;
  })
