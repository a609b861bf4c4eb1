-- ===== src/Runtime/Speech/Turn.antt =====
-- Streamed speech over all the calls of a turn.
use ai_receptionist.Base.{
  ℕ, ◌+◌, ◌≤◌, ◌≡◌, refl, ap, inl, inr, ◌&&◌, ◌||◌, List, [], ◌∷◌, ◌++◌, Option, none, some, Dict,
  leb, length, length-append, arith,
}
use ai_receptionist.Runtime.Text.{Units, join}
use ai_receptionist.Runtime.Turn.{ActionRecord}
use ai_receptionist.Runtime.Assembler.{SentenceAssembler, push, flush}
use ai_receptionist.Runtime.Validator.{ChannelProfile, Patterns}
use ai_receptionist.Runtime.Speech.{
  SpeechStreamEvent, SafeSpeechStream, new_stream, text, not_text, SpeechCall, begun, received,
  ended, failed, committed, revoked_for, truncated_for, begin_round, fail_round, commit, revoke,
  truncate, with_assembler, read_delta, finish_round, on_delta, end_round, perform, perform_all,
  tool_call, stream_failed, outcome,
}
use ai_receptionist.Runtime.Speech.Caller.{
  hears, join-spaced, spaced-append, IsPassedLog, nothing_new, released_next, actions_of,
  candidates_of, IsSound, IsSound-if, retract-IsSound, accept_segments-IsSound,
}

module _ (lower_case : Units → Units) (patterns : Patterns) (configured : Dict (List Units))
    (channel : ChannelProfile) where
  -- What a call keeps, given the actions and sentences it has and the log before it.
  abbrev IsGood :
      List ActionRecord → List Units → List SpeechStreamEvent → SafeSpeechStream → Type 0
  IsGood actions candidates past s = IsSound patterns configured channel actions candidates past s

  commit-IsSound :
      (actions : List ActionRecord) (candidates : List Units) (past : List SpeechStreamEvent)
      (s : SafeSpeechStream)
      → IsGood actions candidates past s
      → IsGood actions candidates past (commit s).0
  unfolding commit
  commit-IsSound actions candidates past s (heard, count, fits, log) =
      IsSound-if patterns configured channel actions candidates past
        (s.revoked || leb (length s.held_segments) 0) _ _ (λ _. (heard, count, fits, log))
        (λ _. (
          ap (λ p. (p.0 ++ p.1, [])) heard,
          omega (arith, count, length-append s.released_segments s.held_segments),
          omega (arith, fits, spaced-append s.released_segments s.held_segments),
          released_next log,
        ))

  read_delta-IsSound :
      (actions : List ActionRecord) (past : List SpeechStreamEvent) (delta : Units)
      (s : SafeSpeechStream) (a : SentenceAssembler)
      → IsGood actions (push lower_case delta a).1 past s
      → IsGood actions
          (push lower_case delta a).1
          past
          (read_delta lower_case patterns configured channel actions delta s a)
  unfolding read_delta
  read_delta-IsSound actions past delta s a h =
      let candidates = (push lower_case delta a).1 in
      IsSound-if patterns configured channel actions candidates past s.revoked _ _ (λ _. h)
        (λ _.
          accept_segments-IsSound patterns configured channel actions candidates past lower_case
            candidates _ (λ c m. m) h)

  finish_round-IsSound :
      (actions : List ActionRecord) (past : List SpeechStreamEvent) (tool_calls : ℕ)
      (s : SafeSpeechStream) (a : SentenceAssembler)
      → IsGood actions (flush a).1 past s
      → IsGood actions
          (flush a).1
          past
          (finish_round lower_case patterns configured channel actions tool_calls s a)
  unfolding finish_round
  finish_round-IsSound actions past tool_calls s a h =
      let candidates = (flush a).1 in
      IsSound-if patterns configured channel actions candidates past s.revoked _ _ (λ _. h)
        (λ _.
          IsSound-if patterns configured channel actions candidates past
            (leb 1 tool_calls && s.round_held) _ _
            (λ _. retract-IsSound patterns configured channel actions candidates past tool_call _ h)
            (λ _.
              accept_segments-IsSound patterns configured channel actions candidates past lower_case
                candidates _ (λ c m. m) h))

  on_delta-IsSound :
      (actions : List ActionRecord) (past : List SpeechStreamEvent) (delta : Units)
      (s : SafeSpeechStream) (a : Option SentenceAssembler)
      → let candidates = candidates_of lower_case (received actions (text delta)) a in
        IsGood actions candidates past s
        → IsGood actions candidates past
            (with_assembler s (read_delta lower_case patterns configured channel actions delta s) a)
  on_delta-IsSound actions past delta s none h = h
  on_delta-IsSound actions past delta s (some a) h = read_delta-IsSound actions past delta s a h

  end_round-IsSound :
      (actions : List ActionRecord) (past : List SpeechStreamEvent) (tool_calls : ℕ)
      (s : SafeSpeechStream) (a : Option SentenceAssembler)
      → let candidates = candidates_of lower_case (ended actions tool_calls) a in
        IsGood actions candidates past s
        → IsGood actions candidates past (
            with_assembler s
              (finish_round lower_case patterns configured channel actions tool_calls s)
              a)
  end_round-IsSound actions past tool_calls s none h = h
  end_round-IsSound actions past tool_calls s (some a) h =
      finish_round-IsSound actions past tool_calls s a h

  perform-IsSound :
      (c : SpeechCall) (past : List SpeechStreamEvent) (s : SafeSpeechStream)
      → IsGood (actions_of c) (candidates_of lower_case c s.assembler) past s
      → IsGood
          (actions_of c)
          (candidates_of lower_case c s.assembler)
          past
          (perform lower_case patterns configured channel c s)
  unfolding perform begin_round fail_round revoke truncate on_delta end_round
  perform-IsSound (begun offers_tools) past s h =
      IsSound-if patterns configured channel [] [] past s.revoked _ _ (λ _. h) (λ _. h)
  perform-IsSound (received actions not_text) past s h = h
  perform-IsSound (received actions (text delta)) past s h =
      on_delta-IsSound actions past delta s s.assembler h
  perform-IsSound (ended actions tool_calls) past s h =
      end_round-IsSound actions past tool_calls s s.assembler h
  perform-IsSound failed past s h =
      retract-IsSound patterns configured channel [] [] past stream_failed _ h
  perform-IsSound committed past s h = commit-IsSound [] [] past s h
  perform-IsSound (revoked_for reason retract_reason) past s h =
      IsSound-if patterns configured channel [] [] past s.revoked _ _ (λ _. h)
        (λ _. retract-IsSound patterns configured channel [] [] past _ _ h)
  perform-IsSound (truncated_for reason) past s h =
      retract-IsSound patterns configured channel [] [] past stream_failed _ h

  -- What holds between two calls.
  abbrev IsBetween : SafeSpeechStream → Type 0
  IsBetween s = IsGood [] [] s.sink s

  -- One call, with what it says.
  perform-IsGood :
      (c : SpeechCall) (s : SafeSpeechStream)
      → IsBetween s
      → IsGood
          (actions_of c)
          (candidates_of lower_case c s.assembler)
          s.sink
          (perform lower_case patterns configured channel c s)
  perform-IsGood c s (heard, count, fits, log) =
      perform-IsSound c s.sink s (heard, count, fits, nothing_new)

  perform_all-IsBetween :
      (calls : List SpeechCall) (s : SafeSpeechStream)
      → IsBetween s
      → IsBetween (perform_all lower_case patterns configured channel calls s)
  unfolding perform_all
  perform_all-IsBetween [] s h = h
  perform_all-IsBetween (c ∷ calls) s h =
      let (heard, count, fits, log) = perform-IsGood c s h in
      perform_all-IsBetween calls _ (heard, count, fits, nothing_new)

  -- The stream after some calls of a turn.
  abbrev pub turn_stream : List SpeechCall → SafeSpeechStream
  turn_stream calls = perform_all lower_case patterns configured channel calls new_stream

  turn_stream-IsBetween : (calls : List SpeechCall) → IsBetween (turn_stream calls)
  turn_stream-IsBetween calls =
      perform_all-IsBetween calls new_stream (refl, refl, omega arith, nothing_new)

  -- Whatever the turn does, a caller who follows the sink's events has heard exactly the released segments
  -- and waits for exactly the held ones, and the outcome counts them: each segment that was emitted is
  -- released, held or retracted.
  pub caller_hears_released :
      (calls : List SpeechCall)
      → (hears (turn_stream calls).sink
          ≡ ((turn_stream calls).released_segments, (turn_stream calls).held_segments))
        × ((outcome (turn_stream calls)).segments_emitted
            ≡ (outcome (turn_stream calls)).segments_released
              + length (turn_stream calls).held_segments
              + (outcome (turn_stream calls)).segments_retracted)
  unfolding outcome
  caller_hears_released calls =
      let (heard, count, fits, log) = turn_stream-IsBetween calls in (heard, count)

  -- After whatever calls of a turn, the next call adds to the sink's log only segments that passed: each
  -- is a sentence that the assembler made in this call, let through by the validator with the actions
  -- that this call handed over, after all that was said before it, as the validator hands it back. A
  -- call that hands over no text emits none.
  pub segments-IsPassedLog :
      (calls : List SpeechCall) (c : SpeechCall)
      → IsPassedLog patterns configured channel
          (actions_of c)
          (candidates_of lower_case c (turn_stream calls).assembler)
          (turn_stream calls).sink
          (perform lower_case patterns configured channel c (turn_stream calls)).sink
  segments-IsPassedLog calls c =
      let (heard, count, fits, log) =
        perform-IsGood c (turn_stream calls) (turn_stream-IsBetween calls) in
      log

  -- What the caller hears in one turn exceeds the channel's limit by one character at most.
  pub heard-le-limit :
      (calls : List SpeechCall)
      → length (join (turn_stream calls).released_segments) ≤ channel.max_reply_chars + 1
  unfolding join
  heard-le-limit calls =
      let (heard, count, fits, log) = turn_stream-IsBetween calls in
      elim (join-spaced (turn_stream calls).released_segments) [
        | inl e ↦ omega (arith, ap (λ ts. length (join ts)) e)
        | inr e ↦ omega (arith, e, fits)
      ]
