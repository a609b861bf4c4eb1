-- ===== src/Runtime/Speech/Caller.antt =====
-- What the caller hears, told by the events of the sink alone.
use mathlib.Core.List.{Memᴰ}
use ai_receptionist.Base.{
  ℕ, ◌+◌, ◌≤◌, ◌≡◌, refl, sym, ap, subst, ◌⊎◌, inl, inr, Bool, true, false, ◌||◌, List, [], ◌∷◌,
  ◌++◌, Dict, ltb, leb, length, length-append, if◌then◌else◌, arith, Option, some,
}
use ai_receptionist.Runtime.Text.{Units, is_empty, join, trim}
use ai_receptionist.Runtime.Turn.{ActionRecord}
use ai_receptionist.Runtime.Assembler.{SentenceAssembler, push, flush}
use ai_receptionist.Runtime.Validator.{
  ChannelProfile, Patterns, after_prior, strip_unfit, validate_segment,
}
use ai_receptionist.Runtime.Validator.Verdicts.{is_sayable, validate_segment-ok}
use ai_receptionist.Runtime.Speech.{
  SpeechRetractReason, SpeechStreamEvent, segment, release, retract_held, SafeSpeechStream,
  said_text, retract, revoke, reject_segment, add_segment, emit_segment, accept, accept_segments,
  segment_rejected, SpeechCall, received, ended, text,
}

-- What was heard and what waits, after the events of a log.
abbrev pub hears : List SpeechStreamEvent → List Units × List Units
hears [] = ([], [])
hears (segment index said true ∷ log) =
    let (heard, waits) = hears log in (heard, waits ++ said ∷ [])
hears (segment index said false ∷ log) =
    let (heard, waits) = hears log in (heard ++ said ∷ [], waits)
hears (release ∷ log) = let (heard, waits) = hears log in (heard ++ waits, [])
hears (retract_held reason ∷ log) = let (heard, waits) = hears log in (heard, [])

-- The length of texts with a space after each.
abbrev pub spaced : List Units → ℕ
spaced [] = 0
spaced (t ∷ ts) = length t + 1 + spaced ts

pub spaced-append : (ts us : List Units) → spaced (ts ++ us) ≡ spaced ts + spaced us
spaced-append [] us = omega arith
spaced-append (t ∷ ts) us = omega (arith, spaced-append ts us)

pub join-spaced : (ts : List Units) → (ts ≡ []) ⊎ (length (join ts) + 1 ≡ spaced ts)
unfolding join
join-spaced [] = inl refl
join-spaced (t ∷ []) = inr (omega arith)
join-spaced (t ∷ u ∷ ts) = elim (join-spaced (u ∷ ts)) [
  | inl e ↦ absurd (cc)
  | inr e ↦ inr (omega (arith, e, length-append t (32 ∷ join (u ∷ ts))))
]

-- The actions that a call hands to the validator.
abbrev pub actions_of : SpeechCall → List ActionRecord
actions_of (received actions delta) = actions
actions_of (ended actions tool_calls) = actions
actions_of _ = []

-- The sentences that the assembler makes in a call.
abbrev pub candidates_of : (Units → Units) → SpeechCall → Option SentenceAssembler → List Units
candidates_of lower_case (received actions (text delta)) (some a) = (push lower_case delta a).1
candidates_of lower_case (ended actions tool_calls) (some a) = (flush a).1
candidates_of lower_case _ _ = []

-- What one call says, given the actions it hands over, the sentences it makes and the log before it.
module _ (patterns : Patterns) (configured : Dict (List Units)) (channel : ChannelProfile)
    (actions : List ActionRecord) (candidates : List Units) (past : List SpeechStreamEvent) where
  -- One of the sentences, which the validator lets through after `prior` with these actions, is said
  -- as the validator hands it back.
  abbrev pub IsPassed : Units → Units → Type 0
  IsPassed prior said =
      (candidate : Units) × Memᴰ candidate candidates
      × (is_sayable patterns configured channel actions (after_prior (trim prior) (trim candidate))
          ≡ true)
      × (said ≡ strip_unfit patterns configured channel actions (trim candidate))

  -- Each segment of the log that is later than `past` passed after all that was said before it.
  pub data IsPassedLog : List SpeechStreamEvent → Type 0 where
    nothing_new : IsPassedLog past
    said_next :
        {log : List SpeechStreamEvent} (index : ℕ) (said : Units) (held : Bool)
        → IsPassed (join ((hears log).0 ++ (hears log).1)) said
        → IsPassedLog log
        → IsPassedLog (segment index said held ∷ log)
    released_next : {log : List SpeechStreamEvent} → IsPassedLog log → IsPassedLog (release ∷ log)
    retracted_next :
        {log : List SpeechStreamEvent} (reason : SpeechRetractReason)
        → IsPassedLog log
        → IsPassedLog (retract_held reason ∷ log)

  -- The stream's fields are what the sink's events tell, within the limit.
  abbrev pub IsSound : SafeSpeechStream → Type 0
  IsSound s =
      (hears s.sink ≡ (s.released_segments, s.held_segments))
      × (s.emitted ≡ length s.released_segments + length s.held_segments + s.retracted)
      × (spaced s.released_segments + spaced s.held_segments ≤ channel.max_reply_chars + 2)
      × IsPassedLog s.sink

  pub IsSound-if :
      (b : Bool) (x y : SafeSpeechStream)
      → (b ≡ true → IsSound x)
      → (b ≡ false → IsSound y)
      → IsSound (if b then x else y)
  IsSound-if true x y h k = h refl
  IsSound-if false x y h k = k refl

  ok-IsPassed :
      (candidate prior : Units)
      → Memᴰ candidate candidates
      → (validate_segment patterns configured channel actions candidate prior).ok ≡ true
      → IsPassed prior
          (validate_segment patterns configured channel actions candidate prior).segment
  unfolding validate_segment
  ok-IsPassed candidate prior made e =
      let whole = validate_segment-ok patterns configured channel actions candidate prior in
      (candidate, made, ground (arith, e, whole), ground (arith, e, whole))

  pub retract-IsSound :
      (r : SpeechRetractReason) (s : SafeSpeechStream) → IsSound s → IsSound (retract r s)
  unfolding retract
  retract-IsSound r s (heard, count, fits, passed) =
      IsSound-if (leb (length s.held_segments) 0) _ _ (λ _. (heard, count, fits, passed))
        (λ _. (
          ap (λ p. (p.0, [])) heard,
          omega (arith, count),
          omega (arith, fits),
          retracted_next r passed,
        ))

  add_segment-IsSound :
      (said : Units) (s : SafeSpeechStream)
      → IsPassed (said_text s) said
      → spaced s.released_segments + spaced s.held_segments + (length said + 1)
        ≤ channel.max_reply_chars + 2
      → IsSound s
      → IsSound (add_segment said s)
  unfolding add_segment
  add_segment-IsSound said s passed room (heard, count, fits, log) =
      IsSound-if s.round_held _ _
        (λ _. (
          ap (λ p. (p.0, p.1 ++ said ∷ [])) heard,
          omega (arith, count, length-append s.held_segments (said ∷ [])),
          omega (arith, room, spaced-append s.held_segments (said ∷ [])),
          said_next s.emitted said true passed_now log,
        ))
        (λ _. (
          ap (λ p. (p.0 ++ said ∷ [], p.1)) heard,
          omega (arith, count, length-append s.released_segments (said ∷ [])),
          omega (arith, room, spaced-append s.released_segments (said ∷ [])),
          said_next s.emitted said false passed_now log,
        ))
    where
      passed_now : IsPassed (join ((hears s.sink).0 ++ (hears s.sink).1)) said
      passed_now = subst (λ p. IsPassed (join (p.0 ++ p.1)) said) (sym heard) passed

  emit_segment-IsSound :
      (said : Units) (s : SafeSpeechStream)
      → IsPassed (said_text s) said
      → IsSound s
      → IsSound (emit_segment channel.max_reply_chars (said_text s) said s)
  unfolding emit_segment
  emit_segment-IsSound said s passed (heard, count, fits, log) =
      IsSound-if _ _ _ (λ _. (heard, count, fits, log))
        (λ e. add_segment-IsSound said s passed (room e) (heard, count, fits, log))
    where
      so_far : List Units
      so_far = s.released_segments ++ s.held_segments

      empty : (t : Units) → is_empty t ≡ true → length t ≡ 0
      empty [] k = refl
      empty (c ∷ cs) k = cc

      room :
          ltb channel.max_reply_chars (
              if is_empty (said_text s)
              then length said
              else length (said_text s) + 1 + length said)
            ≡ false
          → spaced s.released_segments + spaced s.held_segments + (length said + 1)
            ≤ channel.max_reply_chars + 2
      room e = grind (
        arith,
        join-spaced so_far,
        spaced-append s.released_segments s.held_segments,
        e,
        empty (said_text s),
        ap spaced,
      )

  reject_segment-IsSound : (v : _) (s : SafeSpeechStream) → IsSound s → IsSound (reject_segment v s)
  unfolding reject_segment revoke
  reject_segment-IsSound v s h =
      IsSound-if (leb 1 (length s.released_segments)) _ _
        (λ _. retract-IsSound segment_rejected _ h)
        (λ _. IsSound-if s.revoked _ _ (λ _. h) (λ _. retract-IsSound segment_rejected _ h))

  module _ (lower_case : Units → Units) where
    accept-IsSound :
        (candidate : Units) (s : SafeSpeechStream)
        → Memᴰ candidate candidates
        → IsSound s
        → IsSound (accept lower_case patterns configured channel actions candidate s)
    unfolding accept
    accept-IsSound candidate s made h =
        IsSound-if (s.revoked || s.capped) _ _ (λ _. h)
          (λ _.
            IsSound-if _ _ _
              (λ e. emit_segment-IsSound _ s (ok-IsPassed candidate (said_text s) made e) h)
              (λ _. reject_segment-IsSound _ s h))

    pub accept_segments-IsSound :
        (now : List Units) (s : SafeSpeechStream)
        → ((candidate : Units) → Memᴰ candidate now → Memᴰ candidate candidates)
        → IsSound s
        → IsSound (accept_segments lower_case patterns configured channel actions now s)
    unfolding accept_segments
    accept_segments-IsSound [] s made h = h
    accept_segments-IsSound (candidate ∷ now) s made h =
        accept_segments-IsSound now _ (λ c m. made c (Memᴰ.tail m))
          (accept-IsSound candidate s (made candidate (Memᴰ.head refl)) h)
