-- ===== src/Examples/Speech.antt =====
-- Properties of streamed speech at concrete input.
use ai_receptionist.Base.{
  ◌≡◌, refl, ◌≤◌, ◌+◌, List, [], ◌∷◌, Bool, true, false, none, ◌==◌, if◌then◌else◌, length, lookup,
  arith,
}
use ai_receptionist.Runtime.Text.{
  Units, units, is_space, trim, trim_start, trim_end, starts_with, has_part, join, normalize,
  words_from,
}
use ai_receptionist.Runtime.Assembler.{
  new_assembler, next_boundary, stream, push, flush, assemble, take_sentence, boundary_from,
  judge_run, is_abbreviation, last_word, opens_word, next_visible, newline_run, abbreviations,
}
use ai_receptionist.Runtime.Assembler.Complete.{stream-normalize}
use ai_receptionist.Runtime.Assembler.Done.{IsDone, push_all, push_all-IsDone}
use ai_receptionist.Runtime.Validator.{
  Patterns, ChannelProfile, has_leak, leak_markers, detect_action_claims, claims_in, sentence_claim,
  normalized_phrases, enforced_claim_kinds, permitted_claim_kinds, is_unsupported, validate_reply,
  validate_segment,
}
use ai_receptionist.Runtime.Validator.Verdicts.{stripped_text_unjudged}
use ai_receptionist.Runtime.Validator.Limits.{reply-le-max}
use ai_receptionist.Runtime.Speech.{
  SafeSpeechStream, new_stream, SpeechCall, begun, received, ended, committed, text,
  on_reply_rejected, begin_round, revoke, truncate, perform, perform_all, outcome,
}
use ai_receptionist.Runtime.Speech.Caller.{hears, IsPassedLog, candidates_of}
use ai_receptionist.Runtime.Speech.Turn.{
  caller_hears_released, segments-IsPassedLog, heard-le-limit,
}
use ai_receptionist.Runtime.Speech.Silence.{heard_after_commit_only}
use ai_receptionist.Runtime.Speech.Final.{IsOver, nothing_after_end}

abbrev as_is : Units → Units
as_is said = said

abbrev deltas : List Units
deltas = units "It costs Rs. 2,00" ∷ units "0 a month.  Shall " ∷ units "I? Yes" ∷ []

cut_apart :
    stream as_is (new_assembler 12) deltas
    ≡ units "It costs Rs. 2,000 a month." ∷ units "Shall I? Yes" ∷ []
unfolding stream push flush assemble take_sentence next_boundary boundary_from judge_run
    is_abbreviation last_word opens_word next_visible newline_run abbreviations units is_space
    normalize join words_from
cut_apart = refl

stream-normalize_example :
    join (stream as_is (new_assembler 12) deltas)
    ≡ normalize (units "It costs Rs. 2,000 a month.  Shall I? Yes")
unfolding units
stream-normalize_example = stream-normalize as_is 12 deltas

push_all-IsDone_example : IsDone as_is (push_all as_is deltas (new_assembler 12))
push_all-IsDone_example = push_all-IsDone as_is 12 deltas

-- Patterns that know one claim and the asterisks of bold text.
abbrev without_stars : Units → Units
without_stars [] = []
without_stars (c ∷ cs) = if c == 42 then without_stars cs else c ∷ without_stars cs

abbrev booking_claim : Units → Bool
booking_claim sentence = has_part sentence (units "is booked")

abbrev patterns : Patterns
patterns = record {
  split_sentences = λ reply. reply ∷ [];
  is_negated = λ sentence. false;
  normalize_for_matching = as_is;
  claim_patterns = ("appointment.book", booking_claim) ∷ [];
  has_markdown = λ reply. has_part reply (42 ∷ []);
  strip_markdown = without_stars;
  is_wrong_language = λ reply. false;
}

abbrev phone : ChannelProfile
phone = record { max_reply_chars = 40; supports_markdown = false }

-- A claim that the validator knows, and the same claim in bold.
claim_found : detect_action_claims patterns [] (units "It is booked.") ≡ "appointment.book" ∷ []
unfolding detect_action_claims claims_in sentence_claim normalized_phrases enforced_claim_kinds
    has_part starts_with units lookup
claim_found = refl

stripped_text_unjudged_example :
    ((validate_reply patterns [] phone [] (units "It is **booked**.")).needs_regeneration ≡ false)
    × ((validate_reply patterns [] phone [] (units "It is **booked**.")).reply
        ≡ units "It is booked.")
    × ((validate_segment patterns [] phone [] (units "It is **booked**.") []).ok ≡ true)
    × ((validate_segment patterns [] phone [] (units "It is **booked**.") []).segment
        ≡ units "It is booked.")
unfolding units is_space trim trim_start trim_end has_leak leak_markers has_part starts_with
    detect_action_claims claims_in sentence_claim normalized_phrases enforced_claim_kinds
    permitted_claim_kinds is_unsupported lookup
stripped_text_unjudged_example =
    stripped_text_unjudged patterns [] phone [] (units "It is **booked**.") refl refl refl refl refl
      (omega arith)

reply-le-max_example :
    length
      (validate_reply patterns [] phone []
        (units "Yes. It is open until six on all working days.")).reply
    ≤ 40
reply-le-max_example =
    reply-le-max patterns [] phone [] (units "Yes. It is open until six on all working days.")

-- A round with tools whose text is committed, then a plain round that ends in a claim.
abbrev calls : List SpeechCall
calls =
    begun true
    ∷ received [] (text (units "We open at nine. Shall "))
    ∷ ended [] 0
    ∷ committed
    ∷ begun false
    ∷ received [] (text (units "That is all. It is booked. "))
    ∷ []

abbrev spoken : SafeSpeechStream
spoken = perform_all as_is patterns [] phone calls new_stream

caller_hears_released_example :
    (hears spoken.sink ≡ (spoken.released_segments, spoken.held_segments))
    × ((outcome spoken).segments_emitted
        ≡ (outcome spoken).segments_released
          + length spoken.held_segments
          + (outcome spoken).segments_retracted)
caller_hears_released_example = caller_hears_released as_is patterns [] phone calls

abbrev first_calls : List SpeechCall
first_calls = begun true ∷ received [] (text (units "We open at nine. Shall ")) ∷ []

abbrev first_spoken : SafeSpeechStream
first_spoken = perform_all as_is patterns [] phone first_calls new_stream

segments-IsPassedLog_example :
    IsPassedLog patterns [] phone []
      (candidates_of as_is (ended [] 0) first_spoken.assembler)
      first_spoken.sink
      (perform as_is patterns [] phone (ended [] 0) first_spoken).sink
segments-IsPassedLog_example = segments-IsPassedLog as_is patterns [] phone first_calls (ended [] 0)

heard-le-limit_example : length (join spoken.released_segments) ≤ 41
heard-le-limit_example = heard-le-limit as_is patterns [] phone calls

abbrev held_round : SafeSpeechStream
held_round = begin_round true new_stream

heard_after_commit_only_example :
    (perform_all as_is patterns [] phone
      (received [] (text (units "I will book that. ")) ∷ ended [] 1 ∷ [])
      held_round).released_segments
    ≡ held_round.released_segments
unfolding begin_round
heard_after_commit_only_example =
    heard_after_commit_only as_is patterns [] phone
      (received [] (text (units "I will book that. ")) ∷ ended [] 1 ∷ []) held_round refl
      (refl, (refl, tt))

nothing_after_end_example :
    IsOver []
      (revoke on_reply_rejected none held_round).sink
      (perform_all as_is patterns [] phone calls (revoke on_reply_rejected none held_round))
    × IsOver []
        (truncate none held_round).sink
        (perform_all as_is patterns [] phone calls (truncate none held_round))
unfolding begin_round
nothing_after_end_example =
    nothing_after_end as_is patterns [] phone calls on_reply_rejected none none held_round refl
