-- ===== src/Runtime/Tools/Authorized.antt =====
-- `authorizeIntent`: when an intent of the model may run.
use ai_receptionist.Base.{
  ◌≡◌, ◌↔◌, ◌⊎◌, inl, inr, refl, ap, String, Bool, true, false, ◌=ˢ◌, List, Option, none, some,
  is_some, includes, arith, eq_iff, Option-cases, Bool-cases,
}
use ai_receptionist.Runtime.State.{ConversationState, PendingConfirmation}
use ai_receptionist.Runtime.Tools.{
  ControlledToolDefinition, ToolRegistry, ToolIntent, allowed, unmet_precondition, refusal,
  is_confirmed, authorize_known, authorize_intent,
}

-- A confirmation of this very tool is pending, and the visitor has said yes.
abbrev pub IsConfirmed : (String → Bool) → String → String → Option PendingConfirmation → Type 0
IsConfirmed detects name user_message pending_confirmation =
    (pending : PendingConfirmation) × (pending_confirmation ≡ some pending)
    × (pending.tool_name ≡ name)
    × (detects user_message ≡ true)

is_confirmed_iff :
    (detects : String → Bool) (name user_message : String) (o : Option PendingConfirmation)
    → (is_confirmed detects name user_message o ≡ true) ↔ IsConfirmed detects name user_message o
is_confirmed_iff detects name user_message none =
    ((λ h. absurd (ground arith)), (λ (p, e, same, said). absurd (ground arith)))
is_confirmed_iff detects name user_message (some pending) = (
  (λ h. (pending, refl, ground (arith, eq_iff pending.tool_name name), ground arith)),
  (λ (p, e, same, said).
      let here : pending ≡ p = ground arith in
      let named : (pending.tool_name =ˢ name) ≡ true =
        ground (arith, eq_iff pending.tool_name name, ap (λ c. c.tool_name) here, same) in
      ground (arith, named, said)),
)

module _ {Args : Type 0} (detects : String → Bool) (registry : ToolRegistry Args)
    (offered : List String) (channel_allows : Bool) (user_message : String)
    (intent : ToolIntent Args) (state : ConversationState) (executed_keys : List String) where
  -- What the application demands of an intent.
  abbrev pub IsPermitted : ControlledToolDefinition Args → Type 0
  IsPermitted def =
      (includes offered intent.name ≡ true)
      × (channel_allows ≡ true)
      × (includes executed_keys intent.idempotency_key ≡ false)
      × (is_some (registry.executor intent.name) ≡ true)
      × (refusal (unmet_precondition def state) ≡ none)
      × ((def.requires_confirmation ≡ false)
          ⊎ IsConfirmed detects intent.name user_message state.pending_confirmation)

  authorize_known_sound :
      (def : ControlledToolDefinition Args)
      → authorize_known detects registry offered channel_allows user_message def intent state
          executed_keys
        ≡ allowed
      → IsPermitted def
  unfolding authorize_known
  authorize_known_sound def h = (
    ground arith,
    ground arith,
    ground arith,
    ground arith,
    ground arith,
    elim (Bool-cases def.requires_confirmation) [
      | inl needed ↦ inr (
          (is_confirmed_iff detects intent.name user_message state.pending_confirmation).0
            (ground arith))
      | inr free ↦ inl free
    ],
  )

  authorize_known_complete :
      (def : ControlledToolDefinition Args)
      → IsPermitted def
      → authorize_known detects registry offered channel_allows user_message def intent state
          executed_keys
        ≡ allowed
  unfolding authorize_known
  authorize_known_complete def (a, b, c, d, e, inl free) = ground arith
  authorize_known_complete def (a, b, c, d, e, inr said) =
      let heard : is_confirmed detects intent.name user_message state.pending_confirmation ≡ true =
        (is_confirmed_iff detects intent.name user_message state.pending_confirmation).1 said in
      ground arith

  -- An intent of the model is allowed exactly when its tool is defined, offered to the agent, bound to an
  -- executor and its precondition gives no reason against it (but an empty one), the channel allows actions, the same action has not run this
  -- turn, and, where the tool needs a confirmation, one of this very tool is pending and the visitor's
  -- message is a yes.
  pub authorize_intent_iff :
      (authorize_intent detects registry offered channel_allows user_message intent state
          executed_keys
        ≡ allowed)
      ↔ ((def : ControlledToolDefinition Args) × (registry.definition intent.name ≡ some def)
          × IsPermitted def)
  unfolding authorize_intent
  authorize_intent_iff = (
    (λ h. elim (Option-cases (registry.definition intent.name)) [
      | inl unknown ↦ absurd (ground arith)
      | inr (def, known) ↦ (def, known, authorize_known_sound def (ground arith))
    ]),
    (λ (def, known, ok). ground (arith, known, authorize_known_complete def ok)),
  )
