-- ===== src/Voice/Endpointer/Signals.antt =====
-- Starts and ends of speech alternate and name true intervals of the stream.
use ai_receptionist.Base.{
  ℕ, ◌+◌, ◌≤◌, ◌≡◌, ◌⊎◌, Bool, true, false, List, [], ◌∷◌, Option, none, some,
}
use ai_receptionist.Voice.Endpointer.{
  EndpointerConfig, EndpointerSignal, speech_start, speech_end, Endpointer,
}

module _ (config : EndpointerConfig) where
  -- The signals from `last` on, the time of the last signal, with the caller speaking or not. No
  -- two starts or ends follow each other, a start is never before the last end, and an end tells
  -- how long the speech was since its start, at least `min_speech_ms`.
  abbrev pub Alternate : Bool → ℕ → List EndpointerSignal → Type 0
  Alternate speaking last [] = Unit
  Alternate false last (speech_start at ∷ rest) = (last ≤ at) × Alternate true at rest
  Alternate true last (speech_end at ms ∷ rest) =
      (last + ms ≡ at) × (config.min_speech_ms ≤ ms) × Alternate false at rest
  Alternate true last (speech_start at ∷ rest) = ⊥
  Alternate false last (speech_end at ms ∷ rest) = ⊥

  -- What the endpointer's counters mean, after a last signal at `last`.
  abbrev IsTracked : Bool → ℕ → Endpointer → Type 0
  IsTracked true last s =
      (s.speaking ≡ true)
      × (last ≡ s.speech_start_ms)
      × (s.speech_start_ms + config.min_speech_ms + s.silence_run_ms ≤ s.stream_ms)
  IsTracked false last s =
      (s.speaking ≡ false)
      × (last ≤ s.stream_ms)
      × ((s.speech_run_ms ≡ 0)
          ⊎ ((s.speech_start_ms + s.speech_run_ms ≡ s.stream_ms) × (last ≤ s.speech_start_ms)))

  abbrev Follows : Bool → ℕ → Endpointer × Option EndpointerSignal → Type 0
  Follows speaking last (s, none) = IsTracked speaking last s
  Follows speaking last (s, some (speech_start at)) =
      (speaking ≡ false) × (last ≤ at) × IsTracked true at s
  Follows speaking last (s, some (speech_end at ms)) =
      (speaking ≡ true) × (last + ms ≡ at) × (config.min_speech_ms ≤ ms) × IsTracked false at s
