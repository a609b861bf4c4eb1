-- ===== src/Voice/Audio/Queue.antt =====
-- packages/voice/audio.ts: BoundedAudioQueue, a queue of chunks of bytes with a ceiling.
pub mod Parts
pub mod Fifo
use ai_receptionist.Base.{
  ℕ, zero, suc, ◌+◌, ◌-◌, List, [], ◌∷◌, ◌++◌, drop, length, leb, ltb, ◌==◌, if◌then◌else◌,
}

-- The constructor refuses `max_bytes` 0.
pub record BoundedAudioQueue : Type 0 where
  pub max_bytes : ℕ
  pub chunks : List (List ℕ)
  pub bytes : ℕ
  pub dropped : ℕ

unfoldable pub new_queue : ℕ → BoundedAudioQueue
new_queue max_bytes = record { max_bytes = max_bytes; chunks = []; bytes = 0; dropped = 0 }

-- The loop that drops the oldest chunks: the chunks, their bytes, and the dropped bytes so far.
unfoldable pub drop_oldest : ℕ → List (List ℕ) → ℕ → ℕ → List (List ℕ) × ℕ × ℕ
drop_oldest max_bytes [] bytes dropped = ([], bytes, dropped)
drop_oldest max_bytes (head ∷ chunks) bytes dropped =
    let rest = drop_oldest max_bytes chunks (bytes - length head) (dropped + length head) in
    if ltb max_bytes bytes then rest else (head ∷ chunks, bytes, dropped)

-- The newest tail of an oversized chunk, and the bytes dropped from it.
unfoldable pub trim_chunk : ℕ → List ℕ → List ℕ × ℕ
trim_chunk max_bytes chunk =
    if ltb max_bytes (length chunk)
    then (drop (length chunk - max_bytes) chunk, length chunk - max_bytes)
    else (chunk, 0)

-- `push`
unfoldable pub push : List ℕ → BoundedAudioQueue → BoundedAudioQueue
push chunk q =
    let (kept, cut) = trim_chunk q.max_bytes chunk in
    let (chunks, bytes, dropped) =
      drop_oldest q.max_bytes (q.chunks ++ kept ∷ []) (q.bytes + length kept) (q.dropped + cut) in
    if length chunk == 0 then q else record q { chunks = chunks; bytes = bytes; dropped = dropped }

-- `drain`: what it returns, and the queue then.
unfoldable pub drain : BoundedAudioQueue → List (List ℕ) × BoundedAudioQueue
drain q = (q.chunks, record q { chunks = []; bytes = 0 })

-- `clear`
unfoldable pub clear : BoundedAudioQueue → BoundedAudioQueue
clear q = record q { chunks = []; bytes = 0 }
