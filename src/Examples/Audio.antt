-- ===== src/Examples/Audio.antt =====
-- Companding and the audio queue at concrete input.
use ai_receptionist.Base.{ℕ, ◌≤◌, ◌<◌, ◌≡◌, List, [], ◌∷◌, map, All, length, arith}
use ai_receptionist.Voice.Audio.{mulaw_to_pcm16, pcm16_to_mulaw}
use ai_receptionist.Voice.Audio.Codec.{restored, pcm16_round_trip}
use ai_receptionist.Voice.Audio.Queue.{new_queue}
use ai_receptionist.Voice.Audio.Queue.Parts.{flat}
use ai_receptionist.Voice.Audio.Queue.Fifo.{
  Op, pushed, drained, FifoRun, fifo_of, run, queue_refines_fifo,
}

abbrev frame : List ℕ
frame = 0 ∷ 127 ∷ 128 ∷ 255 ∷ []

bytes_of_frame : All (λ b. b < 256) frame
bytes_of_frame = (omega arith, (omega arith, (omega arith, (omega arith, tt))))

pcm16_round_trip_example : pcm16_to_mulaw (mulaw_to_pcm16 frame) ≡ map restored frame
pcm16_round_trip_example = pcm16_round_trip frame bytes_of_frame

-- Five bytes into a queue of four: the oldest chunk goes.
abbrev overfull : List Op
overfull = pushed (1 ∷ 2 ∷ []) ∷ pushed (3 ∷ 4 ∷ 5 ∷ []) ∷ drained ∷ pushed (6 ∷ []) ∷ []

queue_refines_fifo_example :
    FifoRun 4 overfull
      (record { waiting = []; lost = 0 })
      (run overfull (new_queue 4)).1
      (fifo_of (run overfull (new_queue 4)).0)
    × ((run overfull (new_queue 4)).0.bytes ≡ length (flat (run overfull (new_queue 4)).0.chunks))
    × ((run overfull (new_queue 4)).0.bytes ≤ 4)
queue_refines_fifo_example = queue_refines_fifo 4 overfull
