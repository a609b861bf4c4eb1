-- ===== src/Runtime/Speech/Final.antt =====
-- A stream that was revoked or cut short is over for its turn.
use ai_receptionist.Base.{
  ◌≡◌, refl, sym, ap, ◌⊎◌, inl, inr, or_else, Bool, true, false, false≢true, ◌||◌, List, [], ◌∷◌,
  Option, none, Dict, leb, length, arith, if◌then◌else◌,
}
use ai_receptionist.Runtime.Text.{Units}
use ai_receptionist.Runtime.Validator.{ChannelProfile, Patterns}
use ai_receptionist.Runtime.Speech.{
  SpeechRetractReason, SpeechFallbackReason, SpeechStreamEvent, SafeSpeechStream, text, not_text,
  SpeechCall, begun, received, ended, failed, committed, revoked_for, truncated_for,
  reason_to_retract, first_reason, retract, begin_round, fail_round, commit, revoke, truncate,
  read_delta, finish_round, on_delta, end_round, perform, perform_all, stream_failed,
}
use ai_receptionist.Runtime.Speech.Silence.{kept-with}

-- Revoked, with nothing held back, and these segments heard and events sent.
abbrev pub IsOver : List Units → List SpeechStreamEvent → SafeSpeechStream → Type 0
IsOver heard log s =
    (s.revoked ≡ true) × (s.held_segments ≡ []) × (s.released_segments ≡ heard) × (s.sink ≡ log)

module _ (heard : List Units) (log : List SpeechStreamEvent) where
  IsOver-if :
      (b : Bool) (x y : SafeSpeechStream)
      → b ≡ true
      → IsOver heard log x
      → IsOver heard log (if b then x else y)
  IsOver-if true x y e h = h
  IsOver-if false x y e h = absurd (false≢true e)

  retract-IsOver :
      (r : SpeechRetractReason) (s : SafeSpeechStream)
      → IsOver heard log s
      → IsOver heard log (retract r s)
  unfolding retract
  retract-IsOver r s (over, held, same, sent) =
      IsOver-if (leb (length s.held_segments) 0) _ _ (ap (λ h. leb (length h) 0) held)
        (over, held, same, sent)

  commit-IsOver : (s : SafeSpeechStream) → IsOver heard log s → IsOver heard log (commit s).0
  unfolding commit
  commit-IsOver s (over, held, same, sent) =
      IsOver-if (s.revoked || leb (length s.held_segments) 0) _ _ (ground (arith, over))
        (over, held, same, sent)

module _ (lower_case : Units → Units) (patterns : Patterns) (configured : Dict (List Units))
    (channel : ChannelProfile) where
  module _ (heard : List Units) (log : List SpeechStreamEvent) where
    perform-IsOver :
        (c : SpeechCall) (s : SafeSpeechStream)
        → IsOver heard log s
        → IsOver heard log (perform lower_case patterns configured channel c s)
    unfolding perform begin_round fail_round revoke truncate on_delta end_round read_delta
        finish_round
    perform-IsOver (begun offers_tools) s h = IsOver-if heard log s.revoked _ _ h.0 h
    perform-IsOver (received actions not_text) s h = h
    perform-IsOver (received actions (text delta)) s h =
        kept-with (IsOver heard log) s _ s.assembler h
          (λ a. IsOver-if heard log s.revoked _ _ h.0 h)
    perform-IsOver (ended actions tool_calls) s h =
        kept-with (IsOver heard log) s _ s.assembler h
          (λ a. IsOver-if heard log s.revoked _ _ h.0 h)
    perform-IsOver failed s h = retract-IsOver heard log stream_failed _ h
    perform-IsOver committed s h = commit-IsOver heard log s h
    perform-IsOver (revoked_for reason retract_reason) s h = IsOver-if heard log s.revoked _ _ h.0 h
    perform-IsOver (truncated_for reason) s (over, held, same, sent) =
        retract-IsOver heard log stream_failed _ (refl, held, same, sent)

    perform_all-IsOver :
        (calls : List SpeechCall) (s : SafeSpeechStream)
        → IsOver heard log s
        → IsOver heard log (perform_all lower_case patterns configured channel calls s)
    unfolding perform_all
    perform_all-IsOver [] s h = h
    perform_all-IsOver (c ∷ calls) s h = perform_all-IsOver calls _ (perform-IsOver c s h)

  retracted-IsOver :
      (r : SpeechRetractReason) (s : SafeSpeechStream)
      → s.revoked ≡ true
      → IsOver s.released_segments (retract r s).sink (retract r s)
  unfolding retract
  retracted-IsOver r s over = elim (held_cases s.held_segments) [
    | inl e ↦ (ground (arith, over, e), ground (arith, e), ground (arith, e), refl)
    | inr e ↦ (ground (arith, over, e), ground (arith, e), ground (arith, e), refl)
  ]
    where
      held_cases : (held : List Units) → (held ≡ []) ⊎ (leb (length held) 0 ≡ false)
      held_cases [] = inl refl
      held_cases (t ∷ ts) = inr (ground arith)

  -- After a revocation or a cut nothing more is heard or sent in this turn, whatever it still calls: the
  -- segments heard by then stand, and the sink gets no further event.
  pub nothing_after_end :
      (calls : List SpeechCall) (reason : SpeechFallbackReason)
      (retract_reason : Option SpeechRetractReason) (cause : Option SpeechFallbackReason)
      (s : SafeSpeechStream)
      → s.revoked ≡ false
      → IsOver s.released_segments (revoke reason retract_reason s).sink (
          perform_all lower_case patterns configured channel calls (revoke reason retract_reason s))
        × IsOver s.released_segments
            (truncate cause s).sink
            (perform_all lower_case patterns configured channel calls (truncate cause s))
  unfolding revoke truncate
  nothing_after_end calls reason retract_reason cause s live = (
    perform_all-IsOver s.released_segments _ calls _ (revoked_now s.revoked live),
    perform_all-IsOver s.released_segments _ calls _ (retracted-IsOver stream_failed _ refl),
  )
    where
      marked : SafeSpeechStream
      marked = record s {
        revoked = true;
        assembler = none;
        fallback = first_reason s.fallback reason;
      }

      revoked_now :
          (b : Bool)
          → b ≡ false
          → IsOver s.released_segments
              (if b
                then s
                else retract (or_else retract_reason (reason_to_retract reason)) marked).sink
              (if b then s else retract (or_else retract_reason (reason_to_retract reason)) marked)
      revoked_now true e = absurd (false≢true (sym e))
      revoked_now false e = retracted-IsOver _ marked refl
