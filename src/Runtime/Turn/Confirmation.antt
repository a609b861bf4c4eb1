-- ===== src/Runtime/Turn/Confirmation.antt =====
-- What a confirmation is worth in the tool loop of a turn.
use ai_receptionist.Base.{
  ◌≡◌, inl, inr, refl, sym, ap, ◌∙◌, String, true, false, none, some, is_some, includes, arith,
  Bool-cases,
}
use ai_receptionist.Runtime.State.{PendingConfirmation, apply_state_patch, patched}
use ai_receptionist.Runtime.Tools.{
  ControlledToolDefinition, allowed, denied, confirmation_required, unmet_precondition, refusal,
  ToolIntent, authorize_intent, authorize_known, rejection_result,
}
use ai_receptionist.Runtime.Tools.Authorized.{authorize_intent_iff}
use ai_receptionist.Runtime.Turn.{
  Turn, TurnInput, add_result, authorize, refuse_intent, handle_intent, ask_patch,
}

module _ {Args : Type 0} (input : TurnInput Args) where
  asked_known :
      (intent : ToolIntent Args) (turn : Turn) (def : ControlledToolDefinition Args)
      (message : String)
      → authorize_known input.detects input.registry input.offered input.channel_allows
          input.user_message def intent turn.state turn.executed_keys
        ≡ denied confirmation_required message
      → (includes input.offered intent.name ≡ true)
        × (input.channel_allows ≡ true)
        × (includes turn.executed_keys intent.idempotency_key ≡ false)
        × (is_some (input.registry.executor intent.name) ≡ true)
  unfolding authorize_known
  asked_known intent turn def message h = (ground arith, ground arith, ground arith, ground arith)

  asked_after :
      (intent : ToolIntent Args) (turn after : Turn) (message : String)
      → refuse_intent input intent confirmation_required message turn ≡ some after
      → (after.executed_keys ≡ turn.executed_keys)
        × ((pending : PendingConfirmation) × (after.state.pending_confirmation ≡ some pending)
            × (pending.tool_name ≡ intent.name))
  unfolding refuse_intent apply_state_patch patched
  asked_after intent turn after message h =
      elim (Bool-cases (input.is_valid_patch (ask_patch input intent))) [
        | inl valid ↦
            let asked : Turn =
              record (add_result (rejection_result intent confirmation_required message) turn) {
                state = patched turn.state (ask_patch input intent);
              } in
            let here : asked ≡ after = ground arith in
            (
              ap (λ t. t.executed_keys) (sym here),
              (_, ap (λ t. t.state.pending_confirmation) (sym here), refl),
            )
        | inr bad ↦ absurd (ground arith)
      ]

  -- Where an intent was refused because its tool needs a confirmation, and the visitor's message of this
  -- very turn reads as a yes, the same intent is allowed when the model repeats it within the turn, though
  -- the visitor has not been asked.
  pub asked_then_allowed :
      (intent : ToolIntent Args) (turn after : Turn) (def : ControlledToolDefinition Args)
      (message : String)
      → input.registry.definition intent.name ≡ some def
      → authorize input intent turn ≡ denied confirmation_required message
      → input.detects input.user_message ≡ true
      → handle_intent input intent turn ≡ some after
      → unmet_precondition def after.state ≡ none
      → authorize input intent after ≡ allowed
  unfolding handle_intent authorize_intent
  asked_then_allowed intent turn after def message known asked said h met =
      let (offered, open_channel, fresh, bound) =
        asked_known intent turn def message (ground arith) in
      let (same, (pending, waits, named)) = asked_after intent turn after message (ground arith) in
      (authorize_intent_iff input.detects input.registry input.offered input.channel_allows
          input.user_message intent after.state after.executed_keys).1
        (
          def,
          known,
          (
            offered,
            open_channel,
            ap (λ keys. includes keys intent.idempotency_key) same ∙ fresh,
            bound,
            ap refusal met,
            inr (pending, waits, named, said),
          ),
        )
