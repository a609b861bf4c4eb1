-- ===== src/Runtime/Memory.antt =====
-- packages/runtime/memory-manager.ts: what leaves the recent window is folded into the summary. The text
-- operations of JavaScript are parameters (`slice n` keeps the first n characters), and so are
-- sanitizeForMemory, a row of regular expressions, and the zod schema of patches.
pub mod Recap
pub mod Folded
use Prim.Native.String as Native
use ai_receptionist.Base.{
  ℕ, ◌+◌, ◌-◌, max, leb, ltb, length, take, drop, map, keep, String, Bool, true, false, ◌&&◌, ◌||◌,
  not, ◌=ˢ◌, List, [], ◌∷◌, Option, none, some, if◌then◌else◌,
}
use ai_receptionist.Runtime.State.{
  EscalationReason, EscalationStatus, triggered, Escalation, Summary, ConversationState,
  ConversationStatePatch, no_change, apply_state_patch,
}

pub record ChatMessage : Type 0 where
  pub is_user : Bool
  pub content : String

pub record EscalationDecision : Type 0 where
  pub escalate : Bool
  pub reason : Option EscalationReason

abbrev pub refresh_min_messages : ℕ
refresh_min_messages = 4

abbrev pub max_summary_chars : ℕ
max_summary_chars = 1200

-- `combined.join("\n")`
unfoldable pub join_lines : List String → String
join_lines [] = ""
join_lines (l ∷ []) = l
join_lines (l ∷ m ∷ lines) = Native.◌++◌ l (Native.◌++◌ "\n" (join_lines (m ∷ lines)))

abbrev pub is_triggered : EscalationStatus → Bool
is_triggered triggered = true
is_triggered _ = false

pub record MemoryUpdate : Type 0 where
  pub state : ConversationState
  pub folded_messages : List ChatMessage

abbrev pub next_escalation : EscalationDecision → String → Escalation → Escalation
next_escalation decision now e =
    if decision.escalate && not (is_triggered e.status)
    then record { status = triggered; reason = decision.reason; at = some now }
    else e

-- Whether so many messages are folded.
abbrev pub folds : ℕ → String → Bool
folds foldable text = leb refresh_min_messages foldable || (ltb 0 foldable && text =ˢ "")

abbrev pub memory_patch :
    ConversationState → EscalationDecision → Bool → String → ℕ → Summary → ConversationStatePatch
memory_patch state decision unanswered now before summary = record no_change {
  summary = some summary;
  messages_observed = some (before + 2);
  turn_count = some (state.turn_count + 1);
  unanswered_streak = some (if unanswered then state.unanswered_streak + 1 else 0);
  escalation = some (next_escalation decision now state.escalation);
}

abbrev pub with_folded : List ChatMessage → Option ConversationState → Option MemoryUpdate
with_folded older none = none
with_folded older (some next) = some (record { state = next; folded_messages = older })

module _ (text_length : String → ℕ) (slice : ℕ → String → String)
    (sanitize trim : String → String) where
  abbrev pub shortened : ℕ → String → String
  shortened limit content =
      if ltb limit (text_length content)
      then Native.◌++◌ (slice (limit - 1) content) "..."
      else content

  unfoldable pub memory_line : ChatMessage → String
  memory_line m =
      if m.is_user
      then Native.◌++◌ "Visitor: " (shortened 160 (sanitize m.content))
      else Native.◌++◌ "Assistant: " (shortened 120 (sanitize m.content))

  -- The loop that drops the oldest lines.
  unfoldable pub drop_old_lines : ℕ → List String → List String
  drop_old_lines limit [] = []
  drop_old_lines limit (l ∷ []) = l ∷ []
  drop_old_lines limit (l ∷ m ∷ lines) =
      let later = drop_old_lines limit (m ∷ lines) in
      if ltb limit (text_length (join_lines (l ∷ m ∷ lines))) then later else l ∷ m ∷ lines

  unfoldable pub fold_summary : String → List ChatMessage → ℕ → String
  fold_summary previous older limit =
      let combined =
        drop_old_lines limit (keep (λ l. not (l =ˢ "")) (trim previous ∷ map memory_line older)) in
      let folded = join_lines combined in
      if ltb limit (text_length folded) then slice limit folded else folded

  -- The summary after a turn, with the messages folded into it; `before` messages precede the turn.
  unfoldable pub next_summary :
      Summary → List ChatMessage → ℕ → ℕ → String → Summary × List ChatMessage
  next_summary summary history before recent_window now =
      let window_start = before - recent_window in
      let fetch_start = before - length history in
      let fold_from = max summary.through_message_count fetch_start in
      let older = take (window_start - fold_from) (drop (fold_from - fetch_start) history) in
      if folds (window_start - fold_from) summary.text
      then (
        record {
          text = fold_summary summary.text older max_summary_chars;
          through_message_count = window_start;
          updated_at = some now;
        },
        older,
      )
      else (summary, [])

  -- The rest of `updateMemory`, with `before` messages before the turn; `none` where the patch is not
  -- valid.
  unfoldable pub update_after :
      (ConversationStatePatch → Bool)
      → ConversationState
      → List ChatMessage
      → ℕ
      → EscalationDecision
      → Bool
      → String
      → ℕ
      → Option MemoryUpdate
  update_after is_valid_patch state history recent_window decision unanswered now before =
      let (summary, older) = next_summary state.summary history before recent_window now in
      let patch = memory_patch state decision unanswered now before summary in
      with_folded older (apply_state_patch is_valid_patch state patch)

  unfoldable pub update_memory :
      (ConversationStatePatch → Bool)
      → ConversationState
      → List ChatMessage
      → ℕ
      → EscalationDecision
      → Bool
      → String
      → Option MemoryUpdate
  update_memory is_valid_patch state history recent_window decision unanswered now =
      update_after is_valid_patch state history recent_window decision unanswered now
        (max state.messages_observed (length history))
