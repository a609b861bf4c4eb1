-- ===== src/Voice/Audio/Queue/Fifo.antt =====
-- BoundedAudioQueue as a FIFO of bytes that forgets its oldest bytes when it is full.
use ai_receptionist.Base.{
  ℕ, ◌+◌, ◌≤◌, ◌<◌, ◌≡◌, ◌⊎◌, inl, inr, refl, sym, ap, ◌∙◌, subst, Bool, true, false, List, [], ◌∷◌,
  ◌++◌, append_assoc, append-nil, length, length-append, ◌==◌, if◌then◌else◌, arith,
}
use ai_receptionist.Voice.Audio.Queue.{
  BoundedAudioQueue, new_queue, drop_oldest, trim_chunk, push, drain, clear,
}
use ai_receptionist.Voice.Audio.Queue.Parts.{
  flat, flat-append, Leaves, drop_oldest-Leaves, Cuts, trim_chunk-Cuts, append-split,
}

pub data Op : Type 0 where
  pushed : List ℕ → Op
  drained : Op
  cleared : Op

-- The abstract view: the bytes that wait, and how many were dropped for lack of room.
pub record Fifo : Type 0 where
  pub waiting : List ℕ
  pub lost : ℕ

-- What an operation may do to the FIFO, with the bytes it delivers: a push appends, and drops from the
-- front only where there is no room for all.
pub data FifoStep (max_bytes : ℕ) : Op → Fifo → List ℕ → Fifo → Type 0 where
  appended :
      {chunk old after : List ℕ} {n m : ℕ} (gone : List ℕ)
      → old ++ chunk ≡ gone ++ after
      → length after ≤ max_bytes
      → m ≡ n + length gone
      → (gone ≡ []) ⊎ (max_bytes < length (old ++ chunk))
      → FifoStep max_bytes
          (pushed chunk)
          (record { waiting = old; lost = n })
          []
          (record { waiting = after; lost = m })
  delivered :
      {old : List ℕ} {n : ℕ}
      → FifoStep max_bytes drained
          (record { waiting = old; lost = n })
          old
          (record { waiting = []; lost = n })
  forgotten :
      {old : List ℕ} {n : ℕ}
      → FifoStep max_bytes cleared
          (record { waiting = old; lost = n })
          []
          (record { waiting = []; lost = n })

-- The queue's operation, with what it hands over.
abbrev pub perform : Op → BoundedAudioQueue → BoundedAudioQueue × List ℕ
perform (pushed chunk) q = (push chunk q, [])
perform drained q = ((drain q).1, flat (drain q).0)
perform cleared q = (clear q, [])

abbrev pub fifo_of : BoundedAudioQueue → Fifo
fifo_of q = record { waiting = flat q.chunks; lost = q.dropped }

-- `size` counts the bytes that wait, and they fit.
abbrev pub IsWithin : BoundedAudioQueue → Type 0
IsWithin q = (q.bytes ≡ length (flat q.chunks)) × (q.bytes ≤ q.max_bytes)

-- A push of a chunk that is not empty.
abbrev Pushes : BoundedAudioQueue → List ℕ → List (List ℕ) × ℕ × ℕ → Type 0
Pushes q chunk (after, size, count) =
    (gone : List ℕ) × (flat q.chunks ++ chunk ≡ gone ++ flat after)
    × (size ≡ length (flat after))
    × (size ≤ q.max_bytes)
    × (count ≡ q.dropped + length gone)
    × ((gone ≡ []) ⊎ (q.max_bytes < length (flat q.chunks ++ chunk)))

whole :
    (q : BoundedAudioQueue) (kept : List ℕ) → flat (q.chunks ++ kept ∷ []) ≡ flat q.chunks ++ kept
whole q kept = flat-append q.chunks (kept ∷ []) ∙ ap (λ xs. flat q.chunks ++ xs) (append-nil kept)

grown :
    (q : BoundedAudioQueue) (kept : List ℕ)
    → q.bytes ≡ length (flat q.chunks)
    → q.bytes + length kept ≡ length (flat (q.chunks ++ kept ∷ []))
grown q kept size =
    omega (arith, ap length (whole q kept), length-append (flat q.chunks) kept, size)

-- What the loop drops after a push, seen from before the push.
Leaves-Pushes :
    (q : BoundedAudioQueue) (chunk kept : List ℕ) (cut : ℕ) (r : List (List ℕ) × ℕ × ℕ)
    → IsWithin q
    → Cuts q.max_bytes chunk (kept, cut)
    → Leaves q.max_bytes (flat q.chunks ++ kept) (q.bytes + length kept) (q.dropped + cut) r
    → Pushes q chunk r
Leaves-Pushes q chunk kept cut (after, n, count) (size, fits) (inl (same, none_cut))
      (gone, parts, size2, fits2, count_eq, why) =
    (
      gone,
      ap (λ c. flat q.chunks ++ c) same ∙ parts,
      size2,
      fits2,
      omega (arith, count_eq, none_cut),
      grind (arith, why, same, length-append (flat q.chunks) chunk),
    )
Leaves-Pushes q chunk kept cut (after, n, count) (size, fits)
      (inr (front, cut_parts, cut_eq, big, full)) (gone, parts, size2, fits2, count_eq, why) =
    let (xs, left, right) = append-split (flat q.chunks) kept gone (flat after) parts (
      omega (
        arith,
        length-append (flat q.chunks) kept,
        length-append gone (flat after),
        ap length parts,
        full,
        size2,
        fits2,
      )) in
    (
      flat q.chunks ++ (front ++ xs),
      ap (λ c. flat q.chunks ++ c) (cut_parts ∙ ap (λ ys. front ++ ys) right)
          ∙ regroup (flat q.chunks) front xs (flat after),
      size2,
      fits2,
      omega (
        arith,
        count_eq,
        cut_eq,
        ap length left,
        length-append (flat q.chunks) xs,
        length-append (flat q.chunks) (front ++ xs),
        length-append front xs,
      ),
      inr (omega (arith, length-append (flat q.chunks) chunk)),
    )
  where
    regroup : (a b c d : List ℕ) → a ++ (b ++ (c ++ d)) ≡ (a ++ (b ++ c)) ++ d
    regroup a b c d =
        ap (λ ys. a ++ ys) (sym (append_assoc b c d)) ∙ sym (append_assoc a (b ++ c) d)

empty_chunk : (chunk : List ℕ) → (length chunk == 0) ≡ true → chunk ≡ []
empty_chunk [] h = refl
empty_chunk (x ∷ chunk) h = absurd (ground arith)

-- A push keeps the order of the bytes, drops from the front only, counts what it drops, and drops
-- nothing where there is room.
push-Pushes :
    (q : BoundedAudioQueue) (chunk : List ℕ)
    → IsWithin q
    → Pushes q chunk ((push chunk q).chunks, (push chunk q).bytes, (push chunk q).dropped)
unfolding push
push-Pushes q chunk within = by_size (length chunk == 0) refl
  where
    pushed_chunk : BoundedAudioQueue
    pushed_chunk =
        let (kept, cut) = trim_chunk q.max_bytes chunk in
        let (chunks, bytes, dropped) =
          drop_oldest q.max_bytes (q.chunks ++ kept ∷ []) (q.bytes + length kept)
            (q.dropped + cut) in
        record q { chunks = chunks; bytes = bytes; dropped = dropped }

    by_size :
        (b : Bool)
        → (length chunk == 0) ≡ b
        → Pushes q chunk (
          (if◌then◌else◌ {A = BoundedAudioQueue} b q pushed_chunk).chunks,
          (if◌then◌else◌ {A = BoundedAudioQueue} b q pushed_chunk).bytes,
          (if◌then◌else◌ {A = BoundedAudioQueue} b q pushed_chunk).dropped,
        )
    by_size true none = (
      [],
      ap (λ c. flat q.chunks ++ c) (empty_chunk chunk none) ∙ append-nil (flat q.chunks),
      within.0,
      within.1,
      omega arith,
      inl refl,
    )
    by_size false full =
        let (kept, cut) = trim_chunk q.max_bytes chunk in
        Leaves-Pushes q chunk kept cut
          (drop_oldest q.max_bytes (q.chunks ++ kept ∷ []) (q.bytes + length kept)
            (q.dropped + cut))
          within (trim_chunk-Cuts q.max_bytes chunk)
          (subst
            (λ old. Leaves q.max_bytes old (q.bytes + length kept) (q.dropped + cut) (
              drop_oldest q.max_bytes (q.chunks ++ kept ∷ []) (q.bytes + length kept)
                (q.dropped + cut)))
            (whole q kept)
            (drop_oldest-Leaves q.max_bytes (q.chunks ++ kept ∷ []) (q.bytes + length kept)
              (q.dropped + cut) (grown q kept within.0)))

push-max_bytes : (q : BoundedAudioQueue) (chunk : List ℕ) → (push chunk q).max_bytes ≡ q.max_bytes
unfolding push
push-max_bytes q chunk = ground arith

perform-FifoStep :
    (op : Op) (q : BoundedAudioQueue)
    → IsWithin q
    → FifoStep q.max_bytes op (fifo_of q) (perform op q).1 (fifo_of (perform op q).0)
      × IsWithin (perform op q).0
      × ((perform op q).0.max_bytes ≡ q.max_bytes)
unfolding drain clear
perform-FifoStep (pushed chunk) q within =
    let (gone, parts, size, fits, count, why) = push-Pushes q chunk within in
    (
      FifoStep.appended gone parts (omega (arith, size, fits)) count why,
      (size, omega (arith, fits, push-max_bytes q chunk)),
      push-max_bytes q chunk,
    )
perform-FifoStep drained q within = (FifoStep.delivered, (refl, omega arith), refl)
perform-FifoStep cleared q within = (FifoStep.forgotten, (refl, omega arith), refl)

-- A sequence of operations, with all that they deliver.
pub data FifoRun (max_bytes : ℕ) : List Op → Fifo → List ℕ → Fifo → Type 0 where
  stopped : {f : Fifo} → FifoRun max_bytes [] f [] f
  followed :
      {op : Op} {ops : List Op} {f g h : Fifo} {out outs : List ℕ}
      → FifoStep max_bytes op f out g
      → FifoRun max_bytes ops g outs h
      → FifoRun max_bytes (op ∷ ops) f (out ++ outs) h

abbrev pub run : List Op → BoundedAudioQueue → BoundedAudioQueue × List ℕ
run [] q = (q, [])
run (op ∷ ops) q = ((run ops (perform op q).0).0, (perform op q).1 ++ (run ops (perform op q).0).1)

run-FifoRun :
    (ops : List Op) (q : BoundedAudioQueue)
    → IsWithin q
    → FifoRun q.max_bytes ops (fifo_of q) (run ops q).1 (fifo_of (run ops q).0)
      × IsWithin (run ops q).0
      × ((run ops q).0.max_bytes ≡ q.max_bytes)
run-FifoRun [] q within = (FifoRun.stopped, within, refl)
run-FifoRun (op ∷ ops) q within =
    let (step, within2, same) = perform-FifoStep op q within in
    let (steps, within3, same2) = run-FifoRun ops (perform op q).0 within2 in
    (
      FifoRun.followed step (
          subst
            (λ n.
              FifoRun n ops (fifo_of (perform op q).0) (run ops (perform op q).0).1
                (fifo_of (run ops (perform op q).0).0))
            same steps),
      within3,
      same2 ∙ same,
    )

-- Under any sequence of operations a new queue behaves as a FIFO of bytes: bytes are delivered in the
-- order in which they were pushed, each at most once, and only the oldest are dropped, counted, and
-- only when there is no room for all; `size` is the number of bytes that wait, never above the ceiling.
pub queue_refines_fifo :
    (max_bytes : ℕ) (ops : List Op)
    → FifoRun max_bytes ops
        (record { waiting = []; lost = 0 })
        (run ops (new_queue max_bytes)).1
        (fifo_of (run ops (new_queue max_bytes)).0)
      × ((run ops (new_queue max_bytes)).0.bytes
          ≡ length (flat (run ops (new_queue max_bytes)).0.chunks))
      × ((run ops (new_queue max_bytes)).0.bytes ≤ max_bytes)
unfolding new_queue
queue_refines_fifo max_bytes ops =
    let (steps, (size, fits), same) = run-FifoRun ops (new_queue max_bytes) (refl, omega arith) in
    (steps, size, omega (arith, fits, same))
