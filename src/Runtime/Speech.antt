-- ===== src/Runtime/Speech.antt =====
-- packages/runtime/speech-stream.ts: what of one turn the caller hears, and when. The sink is a log of
-- its events, the newest first. Without the turn's id, the details of violations and the time marks.
pub mod Caller
pub mod Silence
pub mod Final
pub mod Turn
use ai_receptionist.Base.{
  ℕ, ◌+◌, ◌-◌, ltb, leb, length, Bool, true, false, ◌&&◌, ◌||◌, not, List, [], ◌∷◌, ◌++◌, Option,
  none, some, is_some, or_else, Dict, if◌then◌else◌,
}
use ai_receptionist.Runtime.Text.{Units, is_empty, join}
use ai_receptionist.Runtime.Turn.{ActionRecord}
use ai_receptionist.Runtime.Assembler.{SentenceAssembler, new_assembler, push, flush}
use ai_receptionist.Runtime.Validator.{
  ValidationViolation, max_length, transform, ChannelProfile, Patterns, SegmentVerdict,
  validate_segment,
}

pub data SpeechRetractReason : Type 0 where
  tool_call : SpeechRetractReason
  segment_rejected : SpeechRetractReason
  reply_rejected : SpeechRetractReason
  stream_failed : SpeechRetractReason
  provider_failed : SpeechRetractReason
  cancelled : SpeechRetractReason

pub data SpeechFallbackReason : Type 0 where
  provider_cannot_stream : SpeechFallbackReason
  pending_confirmation : SpeechFallbackReason
  on_segment_rejected : SpeechFallbackReason
  on_reply_rejected : SpeechFallbackReason
  on_stream_failed : SpeechFallbackReason
  on_provider_failed : SpeechFallbackReason

pub data SpeechStreamEvent : Type 0 where
  -- `index`, `text`, `held`
  segment : ℕ → Units → Bool → SpeechStreamEvent
  release : SpeechStreamEvent
  retract_held : SpeechRetractReason → SpeechStreamEvent

pub record SafeSpeechStream : Type 0 where
  pub assembler : Option SentenceAssembler
  pub round_held : Bool
  pub round_produced_text : Bool
  pub held_segments : List Units
  pub released_segments : List Units
  pub revoked : Bool
  pub capped : Bool
  pub emitted : ℕ
  pub retracted : ℕ
  pub tool_retractions : ℕ
  pub truncated_flag : Bool
  pub fallback : Option SpeechFallbackReason
  pub violations : List ValidationViolation
  pub sink : List SpeechStreamEvent

abbrev pub new_stream : SafeSpeechStream
new_stream = record {
  assembler = none;
  round_held = false;
  round_produced_text = false;
  held_segments = [];
  released_segments = [];
  revoked = false;
  capped = false;
  emitted = 0;
  retracted = 0;
  tool_retractions = 0;
  truncated_flag = false;
  fallback = none;
  violations = [];
  sink = [];
}

abbrev pub reason_to_retract : SpeechFallbackReason → SpeechRetractReason
reason_to_retract on_segment_rejected = segment_rejected
reason_to_retract on_reply_rejected = reply_rejected
reason_to_retract on_stream_failed = stream_failed
reason_to_retract on_provider_failed = provider_failed
reason_to_retract provider_cannot_stream = cancelled
reason_to_retract pending_confirmation = cancelled

-- `this.fallback ??= reason`
abbrev pub first_reason :
    Option SpeechFallbackReason → SpeechFallbackReason → Option SpeechFallbackReason
first_reason none reason = some reason
first_reason (some earlier) reason = some earlier

abbrev pub default_min_segment_chars : ℕ
default_min_segment_chars = 12

unfoldable pub retract : SpeechRetractReason → SafeSpeechStream → SafeSpeechStream
retract reason s = if leb (length s.held_segments) 0 then s else record s {
  retracted = s.retracted + length s.held_segments;
  held_segments = [];
  sink = retract_held reason ∷ s.sink;
}

unfoldable pub begin_round : Bool → SafeSpeechStream → SafeSpeechStream
begin_round offers_tools s = if s.revoked then s else record s {
  assembler = some (new_assembler default_min_segment_chars);
  round_held = offers_tools;
  round_produced_text = false;
}

unfoldable pub fail_round : SafeSpeechStream → SafeSpeechStream
fail_round s = retract stream_failed (record s { assembler = none })

-- With whether anything was released.
unfoldable pub commit : SafeSpeechStream → SafeSpeechStream × Bool
commit s =
    let nothing = s.revoked || leb (length s.held_segments) 0 in
    let released = record s {
      released_segments = s.released_segments ++ s.held_segments;
      held_segments = [];
      sink = release ∷ s.sink;
    } in
    (if nothing then s else released, not nothing)

unfoldable pub revoke :
    SpeechFallbackReason → Option SpeechRetractReason → SafeSpeechStream → SafeSpeechStream
revoke reason retract_reason s =
    if s.revoked
    then s
    else retract (or_else retract_reason (reason_to_retract reason))
        (record s { revoked = true; assembler = none; fallback = first_reason s.fallback reason })

abbrev pub note_reason :
    Option SpeechFallbackReason → Option SpeechFallbackReason → Option SpeechFallbackReason
note_reason earlier none = earlier
note_reason earlier (some reason) = first_reason earlier reason

unfoldable pub truncate : Option SpeechFallbackReason → SafeSpeechStream → SafeSpeechStream
truncate reason s = retract stream_failed (record s {
  truncated_flag = true;
  fallback = note_reason s.fallback reason;
  revoked = true;
  assembler = none;
})

pub record SpeechStreamOutcome : Type 0 where
  pub attempted : Bool
  pub streamed : Bool
  pub fallback_reason : Option SpeechFallbackReason
  pub segments_emitted : ℕ
  pub segments_released : ℕ
  pub segments_retracted : ℕ
  pub tool_rounds_retracted : ℕ
  pub truncated : Bool

unfoldable pub outcome : SafeSpeechStream → SpeechStreamOutcome
outcome s = record {
  attempted = true;
  streamed = leb 1 (length s.released_segments);
  fallback_reason = s.fallback;
  segments_emitted = s.emitted;
  segments_released = length s.released_segments;
  segments_retracted = s.retracted;
  tool_rounds_retracted = s.tool_retractions;
  truncated = s.truncated_flag;
}

-- A verdict that is not `ok`: nothing more is said in this turn.
unfoldable pub reject_segment : List ValidationViolation → SafeSpeechStream → SafeSpeechStream
reject_segment violations s =
    let noted = record s { violations = s.violations ++ violations } in
    if leb 1 (length s.released_segments)
    then retract segment_rejected (record noted {
      truncated_flag = true;
      revoked = true;
      fallback = first_reason s.fallback on_segment_rejected;
      assembler = none;
    })
    else revoke on_segment_rejected none noted

-- A valid segment that fits.
unfoldable pub add_segment : Units → SafeSpeechStream → SafeSpeechStream
add_segment said s =
    if s.round_held
    then record s {
      emitted = s.emitted + 1;
      held_segments = s.held_segments ++ said ∷ [];
      sink = segment s.emitted said true ∷ s.sink;
    }
    else record s {
      emitted = s.emitted + 1;
      released_segments = s.released_segments ++ said ∷ [];
      sink = segment s.emitted said false ∷ s.sink;
    }

-- A valid segment, with the text said before it.
unfoldable pub emit_segment : ℕ → Units → Units → SafeSpeechStream → SafeSpeechStream
emit_segment max_reply_chars prior said s =
    let size = if is_empty prior then length said else length prior + 1 + length said in
    if ltb max_reply_chars size
    then record s {
      capped = true;
      violations = s.violations ++ record { kind = max_length; repairable = transform } ∷ [];
    }
    else add_segment said s

-- What the model's stream delivers; only texts matter here.
pub data LlmDelta : Type 0 where
  text : Units → LlmDelta
  not_text : LlmDelta

pub data SpeechCall : Type 0 where
  begun : Bool → SpeechCall
  received : List ActionRecord → LlmDelta → SpeechCall
  ended : List ActionRecord → ℕ → SpeechCall
  failed : SpeechCall
  committed : SpeechCall
  revoked_for : SpeechFallbackReason → Option SpeechRetractReason → SpeechCall
  truncated_for : Option SpeechFallbackReason → SpeechCall

-- Nothing happens without an assembler.
abbrev pub with_assembler :
    SafeSpeechStream
    → (SentenceAssembler → SafeSpeechStream)
    → Option SentenceAssembler
    → SafeSpeechStream
with_assembler s f none = s
with_assembler s f (some a) = f a

abbrev pub said_text : SafeSpeechStream → Units
said_text s = join (s.released_segments ++ s.held_segments)

module _ (lower_case : Units → Units) (patterns : Patterns) (configured : Dict (List Units))
    (channel : ChannelProfile) where
  unfoldable pub accept : List ActionRecord → Units → SafeSpeechStream → SafeSpeechStream
  accept actions candidate s =
      let prior = said_text s in
      let verdict = validate_segment patterns configured channel actions candidate prior in
      if s.revoked || s.capped
      then s
      else if verdict.ok
      then emit_segment channel.max_reply_chars prior verdict.segment s
      else reject_segment verdict.violations s

  unfoldable pub accept_segments :
      List ActionRecord → List Units → SafeSpeechStream → SafeSpeechStream
  accept_segments actions [] s = s
  accept_segments actions (candidate ∷ candidates) s =
      accept_segments actions candidates (accept actions candidate s)

  -- The rest of `onDelta` and of `endRound`, with the round's assembler.
  unfoldable pub read_delta :
      List ActionRecord → Units → SafeSpeechStream → SentenceAssembler → SafeSpeechStream
  read_delta actions delta s a =
      let (read, candidates) = push lower_case delta a in
      if s.revoked
      then s
      else accept_segments actions candidates (record s {
        assembler = some read;
        round_produced_text = s.round_produced_text || not (is_empty delta);
      })

  unfoldable pub finish_round :
      List ActionRecord → ℕ → SafeSpeechStream → SentenceAssembler → SafeSpeechStream
  finish_round actions tool_calls s a =
      let flushed = accept_segments actions (flush a).1 s in
      if s.revoked
      then s
      else if leb 1 tool_calls && s.round_held
      then retract tool_call (record s {
        assembler = none;
        tool_retractions =
            if leb 1 (length s.held_segments) then s.tool_retractions + 1 else s.tool_retractions;
      })
      else record flushed { assembler = none }

  unfoldable pub on_delta : List ActionRecord → LlmDelta → SafeSpeechStream → SafeSpeechStream
  on_delta actions not_text s = s
  on_delta actions (text delta) s = with_assembler s (read_delta actions delta s) s.assembler

  unfoldable pub end_round : List ActionRecord → ℕ → SafeSpeechStream → SafeSpeechStream
  end_round actions tool_calls s = with_assembler s (finish_round actions tool_calls s) s.assembler

  -- One call of the turn's loop, and many.
  unfoldable pub perform : SpeechCall → SafeSpeechStream → SafeSpeechStream
  perform (begun offers_tools) s = begin_round offers_tools s
  perform (received actions delta) s = on_delta actions delta s
  perform (ended actions tool_calls) s = end_round actions tool_calls s
  perform failed s = fail_round s
  perform committed s = (commit s).0
  perform (revoked_for reason retract_reason) s = revoke reason retract_reason s
  perform (truncated_for reason) s = truncate reason s

  unfoldable pub perform_all : List SpeechCall → SafeSpeechStream → SafeSpeechStream
  perform_all [] s = s
  perform_all (c ∷ calls) s = perform_all calls (perform c s)
