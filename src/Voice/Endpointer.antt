-- ===== src/Voice/Endpointer.antt =====
-- packages/voice/endpointer.ts: when the caller starts and stops speaking. A frame is given by its
-- duration (`audioDurationMs`) and its loudness (`pcm16Rms`), here whole numbers.
pub mod Signals
use ai_receptionist.Base.{
  ℕ, zero, ◌+◌, ◌-◌, Bool, true, false, List, [], ◌∷◌, Option, none, some, leb, if◌then◌else◌, ◌==◌,
}

pub record EndpointerConfig : Type 0 where
  pub sample_rate : ℕ
  pub speech_threshold : ℕ
  pub min_speech_ms : ℕ
  pub end_hangover_ms : ℕ

pub data EndpointerSignal : Type 0 where
  speech_start : ℕ → EndpointerSignal
  -- `atMs`, `speechMs`
  speech_end : ℕ → ℕ → EndpointerSignal

pub record Endpointer : Type 0 where
  pub speaking : Bool
  pub speech_run_ms : ℕ
  pub silence_run_ms : ℕ
  pub speech_start_ms : ℕ
  pub stream_ms : ℕ

abbrev pub new_endpointer : Endpointer
new_endpointer = record {
  speaking = false;
  speech_run_ms = 0;
  silence_run_ms = 0;
  speech_start_ms = 0;
  stream_ms = 0;
}

-- The stream time goes on.
abbrev pub reset : Endpointer → Endpointer
reset s = record s { speaking = false; speech_run_ms = 0; silence_run_ms = 0 }

unfoldable pub current_speech_ms : Endpointer → ℕ
current_speech_ms s = if s.speaking then s.stream_ms - s.speech_start_ms else s.speech_run_ms

module _ (config : EndpointerConfig) where
  -- A frame while nobody is speaking; `s` has the stream time of before.
  unfoldable pub push_silent : ℕ → Bool → Endpointer → Endpointer × Option EndpointerSignal
  push_silent frame_ms is_speech s =
      let start = if s.speech_run_ms == 0 then s.stream_ms else s.speech_start_ms in
      let run = s.speech_run_ms + frame_ms in
      let stream = s.stream_ms + frame_ms in
      if is_speech
      then (if leb config.min_speech_ms run
          then (
            record s {
              speaking = true;
              speech_run_ms = run;
              silence_run_ms = 0;
              speech_start_ms = start;
              stream_ms = stream;
            },
            some (speech_start start),
          )
          else (
            record s { speech_run_ms = run; speech_start_ms = start; stream_ms = stream },
            none,
          ))
      else (record s { speech_run_ms = 0; stream_ms = stream }, none)

  -- A frame while the caller is speaking.
  unfoldable pub push_speaking : ℕ → Bool → Endpointer → Endpointer × Option EndpointerSignal
  push_speaking frame_ms is_speech s =
      let stream = s.stream_ms + frame_ms in
      let silence = s.silence_run_ms + frame_ms in
      let end_at = stream - silence in
      if is_speech
      then (record s { silence_run_ms = 0; stream_ms = stream }, none)
      else if leb config.end_hangover_ms silence
      then (
        reset (record s { silence_run_ms = silence; stream_ms = stream }),
        some (speech_end end_at (end_at - s.speech_start_ms)),
      )
      else (record s { silence_run_ms = silence; stream_ms = stream }, none)

  -- One frame: its duration and its loudness.
  unfoldable pub push : ℕ → ℕ → Endpointer → Endpointer × Option EndpointerSignal
  push frame_ms rms s =
      let is_speech = leb config.speech_threshold rms in
      if s.speaking then push_speaking frame_ms is_speech s else push_silent frame_ms is_speech s

  abbrev pub add_signal : Option EndpointerSignal → List EndpointerSignal → List EndpointerSignal
  add_signal none signals = signals
  add_signal (some e) signals = e ∷ signals

  -- The signals of a stream of frames.
  unfoldable pub signals : Endpointer → List (ℕ × ℕ) → List EndpointerSignal
  signals s [] = []
  signals s ((frame_ms, rms) ∷ frames) =
      let (s', e) = push frame_ms rms s in add_signal e (signals s' frames)
