-- ===== src/Runtime/Turn/Once.antt =====
-- What the tool loop of a turn keeps: every action ran once, with leave, and claims only what succeeded.
use ai_receptionist.Base.{
  ℕ, zero, suc, ◌+◌, ◌*◌, ◌≤◌, ◌≡◌, ◌⊎◌, inl, inr, refl, ap, subst, String, true, false, ◌||◌, ◌==◌,
  List, [], ◌∷◌, ◌++◌, Option, none, some, some-injective, is_some, or_else, includes, arith,
  Option-cases, Bool-cases, length, take, drop, All,
}
use ai_receptionist.Runtime.State.{ConversationState, succeeded}
use ai_receptionist.Runtime.Tools.{
  ToolAuthorization, allowed, denied, ToolRejectionReason, ToolExecutionOutcome, LlmToolCall,
  ToolIntent, Converted, converted, unusable, execute_intent,
}
use ai_receptionist.Runtime.Tools.Authorized.{authorize_intent_iff}
use ai_receptionist.Runtime.Turn.{
  ActionRecord, Turn, TurnInput, is_succeeded, add_result, convert, authorize, execute,
  refuse_intent, state_after, action_of, run_intent, handle_intent, handle_call, handle_calls,
  refuse_extra, handle_round, tool_rounds, run_tools,
}

-- No action stands twice.
abbrev pub IsDistinct : List String → Type 0
IsDistinct [] = Unit
IsDistinct (key ∷ executed) = (includes executed key ≡ false) × IsDistinct executed

module _ {Args : Type 0} (input : TurnInput Args) where
  -- The action was offered, on a channel that allows it, by a tool with an executor, and claims nothing
  -- unless it succeeded.
  abbrev pub IsLegitimate : ActionRecord → Type 0
  IsLegitimate action =
      (includes input.offered action.name ≡ true)
      × (input.channel_allows ≡ true)
      × (is_some (input.registry.executor action.name) ≡ true)
      × ((action.status ≡ succeeded) ⊎ (action.claims_permitted ≡ []))

  abbrev pub IsSound : Turn → Type 0
  IsSound turn =
      IsDistinct turn.executed_keys
      × (length turn.actions ≡ length turn.executed_keys)
      × All IsLegitimate turn.actions

  execute_claims :
      (intent : ToolIntent Args) (turn : Turn)
      → ((action_of input intent (execute input intent turn)).status ≡ succeeded)
        ⊎ ((execute input intent turn).claims_permitted ≡ [])
  unfolding execute_intent
  execute_claims intent turn = by_outcome (
      or_else (input.registry.executor intent.name) (λ args state. none) intent.arguments
        turn.state)
    where
      by_outcome :
          (o : Option ToolExecutionOutcome)
          → ((action_of input intent
                (execute_intent input.slice intent (λ args state. o) turn.state)).status
              ≡ succeeded)
            ⊎ ((execute_intent input.slice intent (λ args state. o) turn.state).claims_permitted
                ≡ [])
      by_outcome none = inr refl
      by_outcome (some outcome) = elim (Bool-cases outcome.ok) [
        | inl fine ↦ inl (ground arith)
        | inr bad ↦ inr (ground arith)
      ]

  -- The turn is still sound, with at most `n` more actions.
  abbrev Adds : ℕ → Turn → Turn → Type 0
  Adds n turn after = IsSound after × (length after.actions ≤ length turn.actions + n)

  -- What running an allowed intent adds to the turn.
  run_intent-keeps :
      (intent : ToolIntent Args) (turn after : Turn)
      → authorize input intent turn ≡ allowed
      → IsSound turn
      → run_intent input intent turn ≡ some after
      → Adds 1 turn after
  unfolding run_intent
  run_intent-keeps intent turn after ok (distinct, count, legitimate) h =
      by_state (state_after input intent (execute input intent turn) turn.state) h
    where
      by_state :
          (o : Option ConversationState)
          → (elim o [
            | none ↦ none
            | some state ↦ some (record {
              state = state;
              executed_keys = intent.idempotency_key ∷ turn.executed_keys;
              tool_results = turn.tool_results ++ execute input intent turn ∷ [];
              actions = action_of input intent (execute input intent turn) ∷ turn.actions;
              committed = is_succeeded (execute input intent turn).status || turn.committed;
            })
          ])
            ≡ some after
          → Adds 1 turn after
      by_state none e = absurd (ground arith)
      by_state (some state) e =
          let (def, known, (offered, open_channel, fresh, bound, met, confirmed)) =
            (authorize_intent_iff input.detects input.registry input.offered input.channel_allows
                input.user_message intent turn.state turn.executed_keys).0
              ok in
          let here = some-injective _ _ e in
          subst (Adds 1 turn) here (
            (
              (fresh, distinct),
              omega (arith, count),
              ((offered, open_channel, bound, execute_claims intent turn), legitimate),
            ),
            omega arith,
          )

  refuse_intent-keeps :
      (intent : ToolIntent Args) (reason : ToolRejectionReason) (message : String)
      (turn after : Turn)
      → IsSound turn
      → refuse_intent input intent reason message turn ≡ some after
      → Adds 1 turn after
  unfolding refuse_intent
  refuse_intent-keeps intent reason message turn after sound h =
      let executed : turn.executed_keys ≡ after.executed_keys = ground arith in
      let acted : turn.actions ≡ after.actions = ground arith in
      (
        subst
            (λ keys.
              IsDistinct keys
              × (length after.actions ≡ length keys)
              × All IsLegitimate after.actions)
            executed
            (subst
              (λ actions.
                IsDistinct turn.executed_keys
                × (length actions ≡ length turn.executed_keys)
                × All IsLegitimate actions)
              acted sound),
        omega (arith, ap length acted),
      )

  handle_intent-keeps :
      (intent : ToolIntent Args) (turn after : Turn)
      → IsSound turn
      → handle_intent input intent turn ≡ some after
      → Adds 1 turn after
  unfolding handle_intent
  handle_intent-keeps intent turn after sound h =
      by_authorization (authorize input intent turn) refl h
    where
      by_authorization :
          (a : ToolAuthorization)
          → authorize input intent turn ≡ a
          → (elim a [
            | allowed ↦ run_intent input intent turn
            | denied reason message ↦ refuse_intent input intent reason message turn
          ])
            ≡ some after
          → Adds 1 turn after
      by_authorization allowed ok e = run_intent-keeps intent turn after ok sound e
      by_authorization (denied reason message) ok e =
          refuse_intent-keeps intent reason message turn after sound e

  handle_call-keeps :
      (round : ℕ) (call : LlmToolCall) (turn after : Turn)
      → IsSound turn
      → handle_call input round call turn ≡ some after
      → Adds 1 turn after
  unfolding handle_call
  handle_call-keeps round call turn after sound h = by_conversion (convert input call round) h
    where
      by_conversion :
          (c : Converted Args)
          → (elim c [
            | unusable result ↦ some (add_result result turn)
            | converted intent ↦ handle_intent input intent turn
          ])
            ≡ some after
          → Adds 1 turn after
      by_conversion (unusable result) e =
          subst (Adds 1 turn) (some-injective _ _ e) (sound, omega arith)
      by_conversion (converted intent) e = handle_intent-keeps intent turn after sound e

  handle_calls-keeps :
      (round : ℕ) (calls : List LlmToolCall) (turn after : Turn)
      → IsSound turn
      → handle_calls input round calls turn ≡ some after
      → Adds (length calls) turn after
  unfolding handle_calls
  handle_calls-keeps round [] turn after sound h =
      subst (Adds 0 turn) (some-injective _ _ h) (sound, omega arith)
  handle_calls-keeps round (call ∷ calls) turn after sound h =
      elim (Option-cases (handle_call input round call turn)) [
        | inl thrown ↦ absurd (ground arith)
        | inr (next, e) ↦
            let (sound2, few) = handle_call-keeps round call turn next sound e in
            let (sound3, few3) = handle_calls-keeps round calls next after sound2 (ground arith) in
            (sound3, omega arith)
      ]

  refuse_extra-keeps :
      (calls : List LlmToolCall) (turn : Turn)
      → IsSound turn
      → Adds 0 turn (refuse_extra input calls turn)
  unfolding refuse_extra
  refuse_extra-keeps [] turn sound = (sound, omega arith)
  refuse_extra-keeps (call ∷ calls) turn sound = refuse_extra-keeps calls (add_result _ turn) sound

  length-take-le : (n : ℕ) (calls : List LlmToolCall) → length (take n calls) ≤ n
  length-take-le zero calls = omega arith
  length-take-le (suc n) [] = omega arith
  length-take-le (suc n) (call ∷ calls) = omega (arith, length-take-le n calls)

  handle_round-keeps :
      (round : ℕ) (calls : List LlmToolCall) (turn after : Turn)
      → IsSound turn
      → handle_round input round calls turn ≡ some after
      → Adds input.max_intents_per_round turn after
  unfolding handle_round
  handle_round-keeps round calls turn after sound h =
      let (sound2, few) = refuse_extra-keeps (drop input.max_intents_per_round calls) turn sound in
      let (sound3, few3) =
        handle_calls-keeps round (take input.max_intents_per_round calls)
          (refuse_extra input (drop input.max_intents_per_round calls) turn) after sound2 h in
      (sound3, omega (arith, few, few3, length-take-le input.max_intents_per_round calls))

  tool_rounds-keeps :
      (model_calls : ℕ → Turn → List LlmToolCall) (left round : ℕ) (turn after : Turn)
      → IsSound turn
      → tool_rounds input model_calls left round turn ≡ some after
      → Adds (left * input.max_intents_per_round) turn after
  unfolding tool_rounds
  tool_rounds-keeps model_calls zero round turn after sound h =
      subst (Adds (0 * input.max_intents_per_round) turn) (some-injective _ _ h)
        (sound, omega arith)
  tool_rounds-keeps model_calls (suc left) round turn after sound h =
      elim (Bool-cases (length (model_calls round turn) == 0 || length input.offered == 0)) [
        | inl done ↦
            let same : turn ≡ after = ground arith in
            subst (Adds (suc left * input.max_intents_per_round) turn) same (sound, omega arith)
        | inr more ↦ elim (Option-cases (handle_round input round (model_calls round turn) turn)) [
          | inl thrown ↦ absurd (ground arith)
          | inr (next, e) ↦
              let (sound2, few) =
                handle_round-keeps round (model_calls round turn) turn next sound e in
              let (sound3, few3) =
                tool_rounds-keeps model_calls left (round + 1) next after sound2 (ground arith) in
              (sound3, grind (arith, few, few3))
        ]
      ]

  -- Whatever the model asks for, when the tool loop of a turn ends, each action that ran was offered, on a
  -- channel that allows actions, by a tool with an executor; it claims nothing unless it succeeded; no
  -- action with the same idempotency key ran twice; and at most `max_intents_per_round` ran in each of
  -- the `max_tool_rounds` rounds.
  pub run_tools-IsSound :
      (model_calls : ℕ → Turn → List LlmToolCall) (state : ConversationState) (after : Turn)
      → run_tools input model_calls state ≡ some after
      → IsSound after × (length after.actions ≤ input.max_tool_rounds * input.max_intents_per_round)
  unfolding run_tools
  run_tools-IsSound model_calls state after h =
      let (sound, few) =
        tool_rounds-keeps model_calls input.max_tool_rounds 0
          (record {
            state = state;
            executed_keys = [];
            tool_results = [];
            actions = [];
            committed = false;
          })
          after (tt, refl, tt) h in
      (sound, omega (arith, few))
