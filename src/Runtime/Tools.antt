-- ===== src/Runtime/Tools.antt =====
-- packages/runtime/tools/boundary.ts: from a tool call of the model to its result. Arguments are a type
-- of their own; the parts of the turn's context that no step changes belong to the functions of the
-- registry, so that a precondition and an executor read the state alone. `slice` cuts a text to a
-- length and `text_length` measures it. Two messages are shortened, and the fields `data` and
-- `escalation` of a result, which are passed through, are left out.
pub mod Authorized
pub mod Offered
use ai_receptionist.Base.{
  ℕ, ltb, length, ◌==◌, String, Bool, true, false, ◌&&◌, ◌||◌, ◌=ˢ◌, not, List, [], ◌∷◌, Option,
  none, some, is_some, or_else, includes, keep, any, if◌then◌else◌,
}
use ai_receptionist.Runtime.State.{
  ConversationState, ConversationStatePatch, PendingConfirmation, ToolStatus, succeeded, failed,
  rejected,
}

pub data ToolRejectionReason : Type 0 where
  unknown_tool : ToolRejectionReason
  not_granted : ToolRejectionReason
  channel_disallowed : ToolRejectionReason
  invalid_arguments : ToolRejectionReason
  duplicate : ToolRejectionReason
  confirmation_required : ToolRejectionReason
  precondition_failed : ToolRejectionReason
  budget_exhausted : ToolRejectionReason
  not_bound : ToolRejectionReason

pub data ToolAuthorization : Type 0 where
  allowed : ToolAuthorization
  denied : ToolRejectionReason → String → ToolAuthorization

pub record ToolResult : Type 0 where
  pub intent_id : String
  pub name : String
  pub status : ToolStatus
  pub summary : String
  pub claims_permitted : List String
  pub state_patch : Option ConversationStatePatch
  pub rejection : Option ToolRejectionReason
  pub error : Option String

pub record ToolExecutionOutcome : Type 0 where
  pub ok : Bool
  pub summary : String
  pub claims_permitted : Option (List String)
  pub state_patch : Option ConversationStatePatch
  pub error : Option String

-- A call of the model: its name where that is a text, its arguments as a text where they are one.
pub record LlmToolCall : Type 0 where
  pub id : String
  pub name : Option String
  pub arguments_text : Option String

module _ (Args : Type 0) where
  pub record ControlledToolDefinition : Type 0 where
    pub args_schema : Args → Option Args
    pub requires_confirmation : Bool
    pub precondition : Option (ConversationState → Option String)

  -- `none` where an executor throws.
  pub record ToolRegistry : Type 0 where
    pub definition : String → Option ControlledToolDefinition
    pub executor : String → Option (Args → ConversationState → Option ToolExecutionOutcome)
    pub bound_names : List String

  pub record ToolIntent : Type 0 where
    pub id : String
    pub name : String
    pub arguments : Args
    pub correlation_id : String
    pub idempotency_key : String
    pub round : ℕ

  pub data Converted : Type 0 where
    converted : ToolIntent → Converted
    unusable : ToolResult → Converted

-- `[...new Set(names)]`
abbrev pub distinct : List String → List String
distinct [] = []
distinct (name ∷ names) = name ∷ keep (λ other. not (name =ˢ other)) (distinct names)

-- The names of the descriptors, whether they were withheld, and the names that the state gates.
pub record SelectedTools : Type 0 where
  pub descriptors : List String
  pub downgraded : Bool
  pub gated : List String

-- `relevant && !relevant.includes(name) && ...`
abbrev pub is_irrelevant : Option (List String) → ConversationState → String → Bool
is_irrelevant none state name = false
is_irrelevant (some relevant) state name =
    not (includes relevant name)
    && not (elim state.pending_confirmation [
      | none ↦ false
      | some pending ↦ pending.tool_name =ˢ name
    ])

-- The reason that a precondition gives against the tool, none where it has no precondition.
abbrev pub unmet_precondition :
    {Args : Type 0} → ControlledToolDefinition Args → ConversationState → Option String
unmet_precondition def state = elim def.precondition [ none ↦ none | some check ↦ check state ]

-- An empty reason refuses nothing where the action is authorized, though the tool is not offered.
abbrev pub refusal : Option String → Option String
refusal none = none
refusal (some reason) = if reason =ˢ "" then none else some reason

module _ {Args : Type 0} (sort : List String → List String) (registry : ToolRegistry Args)
    (relevant : Option (List String)) (state : ConversationState) where
  -- The tests of the loop that gate a name; every bound name has a definition.
  unfoldable pub is_gated : String → Bool
  is_gated name = is_irrelevant relevant state name || elim (registry.definition name) [
    | none ↦ false
    | some def ↦ is_some (unmet_precondition def state)
  ]

  -- `selectTools`; `relevant` is what the selection gives for the intent of the state, if it has one.
  unfoldable pub select_tools : List String → Bool → Bool → SelectedTools
  select_tools granted_ids channel_allows provider_supports =
      let granted =
        sort (keep (λ name. includes registry.bound_names name) (distinct granted_ids)) in
      let descriptors =
        keep (λ name. not (is_gated name) && is_some (registry.definition name)) granted in
      let gated = keep is_gated granted in
      if length granted == 0 || not channel_allows
      then record { descriptors = []; downgraded = false; gated = [] }
      else if not provider_supports
      then record { descriptors = []; downgraded = ltb 0 (length descriptors); gated = gated }
      else record { descriptors = descriptors; downgraded = false; gated = gated }

-- `rejected`
abbrev pub rejected_call :
    (ℕ → String → String) → LlmToolCall → ToolRejectionReason → String → ToolResult
rejected_call slice call reason message = record {
  intent_id = call.id;
  name = elim call.name [ none ↦ "unknown" | some name ↦ slice 64 name ];
  status = rejected;
  summary = message;
  claims_permitted = [];
  state_patch = none;
  rejection = some reason;
  error = none;
}

module _ {Args : Type 0} (slice : ℕ → String → String) (text_length : String → ℕ)
    (parse_arguments : LlmToolCall → Option Args)
    (idempotency_key_for : String → String → Args → String)
    (fresh_id : String → ℕ → String → String) (registry : ToolRegistry Args) where
  -- `toToolIntent`, once the definition is known.
  unfoldable pub intent_for :
      LlmToolCall → String → String → ℕ → ControlledToolDefinition Args → Converted Args
  intent_for call name turn_id round def = elim (parse_arguments call) [
    | none ↦
        unusable
          (rejected_call slice call invalid_arguments "Arguments were not a valid JSON object.")
    | some raw ↦ elim (def.args_schema raw) [
      | none ↦ unusable (rejected_call slice call invalid_arguments "Invalid arguments")
      | some args ↦ converted (record {
        id = if call.id =ˢ "" then fresh_id turn_id round name else call.id;
        name = name;
        arguments = args;
        correlation_id = turn_id;
        idempotency_key = idempotency_key_for turn_id name args;
        round = round;
      })
    ]
  ]

  -- `toToolIntent`
  unfoldable pub to_tool_intent : LlmToolCall → String → ℕ → Converted Args
  to_tool_intent call turn_id round =
      let name = or_else call.name "" in
      elim (registry.definition name) [
        | none ↦ unusable (rejected_call slice call unknown_tool "not an available action")
        | some def ↦
            let usable = intent_for call name turn_id round def in
            elim call.arguments_text [
              | none ↦ usable
              | some text ↦
                  if ltb 4000 (text_length text)
                  then unusable (rejected_call slice call invalid_arguments "Arguments too large.")
                  else usable
            ]
      ]

-- A confirmation of this tool is pending, and the visitor has just said yes.
abbrev pub is_confirmed : (String → Bool) → String → String → Option PendingConfirmation → Bool
is_confirmed detects name user_message none = false
is_confirmed detects name user_message (some pending) =
    pending.tool_name =ˢ name && detects user_message

module _ {Args : Type 0} (detects : String → Bool) (registry : ToolRegistry Args)
    (offered : List String) (channel_allows : Bool) (user_message : String) where
  -- `authorizeIntent`, once the definition is known.
  unfoldable pub authorize_known :
      ControlledToolDefinition Args
      → ToolIntent Args
      → ConversationState
      → List String
      → ToolAuthorization
  authorize_known def intent state executed_keys =
      if not (includes offered intent.name)
      then denied not_granted "This action is not available to this agent."
      else if not channel_allows
      then denied channel_disallowed "Actions cannot be executed on this channel."
      else if includes executed_keys intent.idempotency_key
      then denied duplicate "This exact action already ran this turn; reuse its result."
      else if not (is_some (registry.executor intent.name))
      then denied not_bound "This action is not enabled here."
      else elim (refusal (unmet_precondition def state)) [
        | some unmet ↦ denied precondition_failed unmet
        | none ↦
            if def.requires_confirmation
              && not (is_confirmed detects intent.name user_message state.pending_confirmation)
            then denied confirmation_required
                "Ask the visitor to confirm before this action can run."
            else allowed
      ]

  -- `authorizeIntent`
  unfoldable pub authorize_intent :
      ToolIntent Args → ConversationState → List String → ToolAuthorization
  authorize_intent intent state executed_keys = elim (registry.definition intent.name) [
    | none ↦ denied unknown_tool "Unknown action."
    | some def ↦ authorize_known def intent state executed_keys
  ]

-- `executeIntent`
unfoldable pub execute_intent :
    {Args : Type 0}
    → (ℕ → String → String)
    → ToolIntent Args
    → (Args → ConversationState → Option ToolExecutionOutcome)
    → ConversationState
    → ToolResult
execute_intent slice intent executor state = elim (executor intent.arguments state) [
  | none ↦ record {
    intent_id = intent.id;
    name = intent.name;
    status = failed;
    summary =
        "The action could not be completed. Tell the visitor honestly that it did not go through.";
    claims_permitted = [];
    state_patch = none;
    rejection = none;
    error = some "EXECUTION_ERROR";
  }
  | some outcome ↦ record {
    intent_id = intent.id;
    name = intent.name;
    status = if outcome.ok then succeeded else failed;
    summary = slice 600 outcome.summary;
    claims_permitted = if outcome.ok then or_else outcome.claims_permitted [] else [];
    state_patch = outcome.state_patch;
    rejection = none;
    error = outcome.error;
  }
]

-- `rejectionResult`
unfoldable pub rejection_result :
    {Args : Type 0} → ToolIntent Args → ToolRejectionReason → String → ToolResult
rejection_result intent reason message = record {
  intent_id = intent.id;
  name = intent.name;
  status = rejected;
  summary = message;
  claims_permitted = [];
  state_patch = none;
  rejection = some reason;
  error = none;
}
