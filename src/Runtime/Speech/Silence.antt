-- ===== src/Runtime/Speech/Silence.antt =====
-- When nothing new is heard: in a round that offers tools, before its commit; and once the stream is
-- revoked.
use ai_receptionist.Base.{
  ℕ, ◌≡◌, refl, sym, ◌∙◌, Bool, true, false, false≢true, ◌&&◌, ◌||◌, List, [], ◌∷◌, Option, none,
  some, Dict, leb, ltb, length, All, if◌then◌else◌,
}
use ai_receptionist.Runtime.Text.{Units}
use ai_receptionist.Runtime.Turn.{ActionRecord}
use ai_receptionist.Runtime.Assembler.{SentenceAssembler}
use ai_receptionist.Runtime.Validator.{
  ValidationViolation, ChannelProfile, Patterns, validate_segment,
}
use ai_receptionist.Runtime.Speech.{
  SpeechRetractReason, SafeSpeechStream, text, not_text, SpeechCall, begun, received, ended, failed,
  committed, revoked_for, truncated_for, retract, begin_round, fail_round, revoke, truncate,
  reject_segment, add_segment, emit_segment, accept, accept_segments, with_assembler, read_delta,
  finish_round, on_delta, end_round, perform, perform_all, tool_call, stream_failed,
  segment_rejected, said_text,
}

module _ (P : SafeSpeechStream → Type 0) where
  pub kept-if :
      (b : Bool) (x y : SafeSpeechStream)
      → (b ≡ true → P x)
      → (b ≡ false → P y)
      → P (if b then x else y)
  kept-if true x y h k = h refl
  kept-if false x y h k = k refl

  pub kept-with :
      (s : SafeSpeechStream) (f : SentenceAssembler → SafeSpeechStream)
      (a : Option SentenceAssembler)
      → P s
      → ((b : SentenceAssembler) → P (f b))
      → P (with_assembler s f a)
  kept-with s f none h k = h
  kept-with s f (some a) h k = k a

-- In a round that offers tools, with `heard` released before.
abbrev IsHeldRound : List Units → SafeSpeechStream → Type 0
IsHeldRound heard s = (s.round_held ≡ true) × (s.released_segments ≡ heard)

-- Neither a commit nor the start of a round without tools.
abbrev pub is_quiet : SpeechCall → Bool
is_quiet committed = false
is_quiet (begun offers_tools) = offers_tools
is_quiet _ = true

module _ (lower_case : Units → Units) (patterns : Patterns) (configured : Dict (List Units))
    (channel : ChannelProfile) where
  module _ (heard : List Units) where
    retract-IsHeldRound :
        (r : SpeechRetractReason) (s : SafeSpeechStream)
        → IsHeldRound heard s
        → IsHeldRound heard (retract r s)
    unfolding retract
    retract-IsHeldRound r s h =
        kept-if (IsHeldRound heard) (leb (length s.held_segments) 0) _ _ (λ _. h) (λ _. h)

    emit_segment-IsHeldRound :
        (limit : ℕ) (prior said : Units) (s : SafeSpeechStream)
        → IsHeldRound heard s
        → IsHeldRound heard (emit_segment limit prior said s)
    unfolding emit_segment add_segment
    emit_segment-IsHeldRound limit prior said s (held, same) =
        kept-if (IsHeldRound heard) (ltb limit _) _ _ (λ _. (held, same))
          (λ _.
            kept-if (IsHeldRound heard) s.round_held _ _ (λ _. (held, same))
              (λ e. absurd (false≢true (sym e ∙ held))))

    reject_segment-IsHeldRound :
        (v : List ValidationViolation) (s : SafeSpeechStream)
        → IsHeldRound heard s
        → IsHeldRound heard (reject_segment v s)
    unfolding reject_segment revoke
    reject_segment-IsHeldRound v s h =
        kept-if (IsHeldRound heard) (leb 1 (length s.released_segments)) _ _
          (λ _. retract-IsHeldRound segment_rejected _ h)
          (λ _.
            kept-if (IsHeldRound heard) s.revoked _ _ (λ _. h)
              (λ _. retract-IsHeldRound segment_rejected _ h))

    accept-IsHeldRound :
        (actions : List ActionRecord) (candidate : Units) (s : SafeSpeechStream)
        → IsHeldRound heard s
        → IsHeldRound heard (accept lower_case patterns configured channel actions candidate s)
    unfolding accept
    accept-IsHeldRound actions candidate s h =
        kept-if (IsHeldRound heard) (s.revoked || s.capped) _ _ (λ _. h)
          (λ _.
            kept-if (IsHeldRound heard)
              (validate_segment patterns configured channel actions candidate (said_text s)).ok _ _
              (λ _. emit_segment-IsHeldRound _ _ _ s h) (λ _. reject_segment-IsHeldRound _ s h))

    accept_segments-IsHeldRound :
        (actions : List ActionRecord) (candidates : List Units) (s : SafeSpeechStream)
        → IsHeldRound heard s
        → IsHeldRound heard
            (accept_segments lower_case patterns configured channel actions candidates s)
    unfolding accept_segments
    accept_segments-IsHeldRound actions [] s h = h
    accept_segments-IsHeldRound actions (candidate ∷ candidates) s h =
        accept_segments-IsHeldRound actions candidates _ (accept-IsHeldRound actions candidate s h)

    perform-IsHeldRound :
        (c : SpeechCall) (s : SafeSpeechStream)
        → is_quiet c ≡ true
        → IsHeldRound heard s
        → IsHeldRound heard (perform lower_case patterns configured channel c s)
    unfolding perform begin_round fail_round revoke truncate on_delta end_round read_delta
        finish_round
    perform-IsHeldRound (begun offers_tools) s q h =
        kept-if (IsHeldRound heard) s.revoked _ _ (λ _. h) (λ _. (q, h.1))
    perform-IsHeldRound (received actions not_text) s q h = h
    perform-IsHeldRound (received actions (text delta)) s q h =
        kept-with (IsHeldRound heard) s _ s.assembler h (λ a.
          kept-if (IsHeldRound heard) s.revoked _ _ (λ _. h)
            (λ _. accept_segments-IsHeldRound actions _ _ h))
    perform-IsHeldRound (ended actions tool_calls) s q h =
        kept-with (IsHeldRound heard) s _ s.assembler h (λ a.
          kept-if (IsHeldRound heard) s.revoked _ _ (λ _. h)
            (λ _.
              kept-if (IsHeldRound heard) (leb 1 tool_calls && s.round_held) _ _
                (λ _. retract-IsHeldRound tool_call _ h)
                (λ _. accept_segments-IsHeldRound actions _ _ h)))
    perform-IsHeldRound failed s q h = retract-IsHeldRound stream_failed _ h
    perform-IsHeldRound committed s q h = absurd (false≢true q)
    perform-IsHeldRound (revoked_for reason retract_reason) s q h =
        kept-if (IsHeldRound heard) s.revoked _ _ (λ _. h) (λ _. retract-IsHeldRound _ _ h)
    perform-IsHeldRound (truncated_for reason) s q h = retract-IsHeldRound stream_failed _ h

    perform_all-IsHeldRound :
        (calls : List SpeechCall) (s : SafeSpeechStream)
        → All (λ c. is_quiet c ≡ true) calls
        → IsHeldRound heard s
        → IsHeldRound heard (perform_all lower_case patterns configured channel calls s)
    unfolding perform_all
    perform_all-IsHeldRound [] s q h = h
    perform_all-IsHeldRound (c ∷ calls) s (q, qs) h =
        perform_all-IsHeldRound calls _ qs (perform-IsHeldRound c s q h)

  -- In a round that offers tools, nothing new is heard before a commit, whatever else the turn does: a tool
  -- call, a failure, a rejected segment or another round with tools.
  pub heard_after_commit_only :
      (calls : List SpeechCall) (s : SafeSpeechStream)
      → s.round_held ≡ true
      → All (λ c. is_quiet c ≡ true) calls
      → (perform_all lower_case patterns configured channel calls s).released_segments
        ≡ s.released_segments
  heard_after_commit_only calls s held quiet =
      (perform_all-IsHeldRound s.released_segments calls s quiet (held, refl)).1
