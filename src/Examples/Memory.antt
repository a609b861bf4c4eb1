-- ===== src/Examples/Memory.antt =====
-- Properties of the conversation's memory at concrete input.
use Prim.Native.String as Native
use ai_receptionist.Base.{
  ℕ, zero, suc, ◌≤◌, ◌≡◌, refl, String, Bool, true, false, List, [], ◌∷◌, Option, none, some,
  length, drop, leb, arith,
}
use ai_receptionist.Runtime.Text.{units}
use ai_receptionist.Runtime.State.{
  Summary, ConversationState, ConversationStatePatch, empty_conversation_state,
}
use ai_receptionist.Runtime.Memory.{ChatMessage, EscalationDecision, MemoryUpdate, update_memory}
use ai_receptionist.Runtime.Memory.Recap.{IsRecap}
use ai_receptionist.Runtime.Memory.Folded.{IsTiled, update_memory-IsTiled}

abbrev text_length : String → ℕ
text_length t = length (units t)

abbrev first : ℕ → String → String
first zero t = ""
first (suc n) (Native.[]) = ""
first (suc n) (Native.◌∷◌ c t) = Native.◌∷◌ c (first n t)

first-le : (n : ℕ) (t : String) → text_length (first n t) ≤ n
unfolding units
first-le zero t = omega arith
first-le (suc n) (Native.[]) = omega arith
first-le (suc n) (Native.◌∷◌ c t) = omega (arith, first-le n t)

abbrev unchanged : String → String
unchanged t = t

abbrev is_short : Option Summary → Bool
is_short none = true
is_short (some summary) = leb (text_length summary.text) 1200

abbrev is_valid : ConversationStatePatch → Bool
is_valid patch = is_short patch.summary

abbrev said : String → ChatMessage
said content = record { is_user = true; content = content }

abbrev transcript : List ChatMessage
transcript = said "hi" ∷ said "a" ∷ said "b" ∷ said "c" ∷ said "d" ∷ said "e" ∷ []

abbrev before : ConversationState
before = record empty_conversation_state {
  summary = record { text = "Visitor: hi"; through_message_count = 1; updated_at = none };
  messages_observed = 6;
}

abbrev no_escalation_now : EscalationDecision
no_escalation_now = record { escalate = false; reason = none }

update_memory-IsTiled_example :
    (u : MemoryUpdate) × (update_memory text_length first unchanged unchanged is_valid before
        (drop 1 transcript)
        1
        no_escalation_now
        false
        "now"
      ≡ some u)
    × IsTiled transcript before.summary (u.state.summary, u.folded_messages)
    × IsRecap text_length first unchanged unchanged before.summary.text u.folded_messages
        u.state.summary.text
    × (text_length u.state.summary.text ≤ 1200)
    × (u.state.messages_observed ≡ 8)
unfolding units
update_memory-IsTiled_example =
    update_memory-IsTiled text_length first unchanged unchanged is_valid transcript 1 before 1
      no_escalation_now false "now" first-le (λ summary h k. ground (arith, h)) (omega arith) refl
      (omega arith) (omega arith)
