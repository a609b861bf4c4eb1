-- ===== src/Voice/Audio/Queue/Parts.antt =====
-- The chunks of BoundedAudioQueue as bytes: what the loop of a push drops, and what is cut from a chunk.
use ai_receptionist.Base.{
  ℕ, zero, suc, ◌+◌, ◌-◌, ◌≤◌, ◌<◌, ◌≡◌, ◌⊎◌, inl, inr, refl, sym, ap, ◌∙◌, Bool, true, false, List,
  [], ◌∷◌, ◌++◌, append_assoc, take, drop, length, length-append, ltb, if◌then◌else◌, arith,
}
use ai_receptionist.Voice.Audio.Queue.{drop_oldest, trim_chunk}

abbrev pub flat : List (List ℕ) → List ℕ
flat [] = []
flat (c ∷ chunks) = c ++ flat chunks

pub flat-append : (xs ys : List (List ℕ)) → flat (xs ++ ys) ≡ flat xs ++ flat ys
flat-append [] ys = refl
flat-append (x ∷ xs) ys =
    ap (λ zs. x ++ zs) (flat-append xs ys) ∙ sym (append_assoc x (flat xs) (flat ys))

pub take-drop :
    (n : ℕ) (xs : List ℕ) → n ≤ length xs → (take n xs ++ drop n xs ≡ xs) × (length (take n xs) ≡ n)
take-drop zero xs le = (refl, refl)
take-drop (suc n) [] le = absurd (omega arith)
take-drop (suc n) (x ∷ xs) le =
    let (same, long) = take-drop n xs (omega arith) in (ap (λ ys. x ∷ ys) same, omega arith)

-- What the loop leaves is the end of what there was.
abbrev pub Leaves : ℕ → List ℕ → ℕ → ℕ → List (List ℕ) × ℕ × ℕ → Type 0
Leaves max_bytes old bytes dropped (after, size, count) =
    (gone : List ℕ) × (old ≡ gone ++ flat after)
    × (size ≡ length (flat after))
    × (size ≤ max_bytes)
    × (count ≡ dropped + length gone)
    × ((gone ≡ []) ⊎ (max_bytes < bytes))

pub drop_oldest-Leaves :
    (max_bytes : ℕ) (chunks : List (List ℕ)) (bytes dropped : ℕ)
    → bytes ≡ length (flat chunks)
    → Leaves max_bytes (flat chunks) bytes dropped (drop_oldest max_bytes chunks bytes dropped)
unfolding drop_oldest
drop_oldest-Leaves max_bytes [] bytes dropped e = ([], refl, e, omega arith, omega arith, inl refl)
drop_oldest-Leaves max_bytes (head ∷ chunks) bytes dropped e = by_room (ltb max_bytes bytes) refl (
    drop_oldest-Leaves max_bytes chunks (bytes - length head) (dropped + length head)
      (omega (arith, length-append head (flat chunks))))
  where
    by_room :
        (b : Bool)
        → ltb max_bytes bytes ≡ b
        → Leaves max_bytes
            (flat chunks)
            (bytes - length head)
            (dropped + length head)
            (drop_oldest max_bytes chunks (bytes - length head) (dropped + length head))
        → Leaves max_bytes (head ++ flat chunks) bytes dropped (
            if b
            then drop_oldest max_bytes chunks (bytes - length head) (dropped + length head)
            else (head ∷ chunks, bytes, dropped))
    by_room true full (gone, parts, size, fits, count, why) = (
      head ++ gone,
      ap (λ xs. head ++ xs) parts ∙ sym (append_assoc head gone _),
      size,
      fits,
      omega (arith, count, length-append head gone),
      inr (ground arith),
    )
    by_room false full later = ([], refl, e, ground arith, omega arith, inl refl)

-- What is cut from the front of a chunk: nothing, or so much that the rest fills the queue.
abbrev pub Cuts : ℕ → List ℕ → List ℕ × ℕ → Type 0
Cuts max_bytes chunk (kept, cut) =
    ((chunk ≡ kept) × (cut ≡ 0))
    ⊎ ((gone : List ℕ) × (chunk ≡ gone ++ kept)
        × (cut ≡ length gone)
        × (max_bytes < length chunk)
        × (length kept ≡ max_bytes))

pub trim_chunk-Cuts :
    (max_bytes : ℕ) (chunk : List ℕ) → Cuts max_bytes chunk (trim_chunk max_bytes chunk)
unfolding trim_chunk
trim_chunk-Cuts max_bytes chunk = by_size (ltb max_bytes (length chunk)) refl
  where
    over : ℕ
    over = length chunk - max_bytes

    by_size :
        (b : Bool)
        → ltb max_bytes (length chunk) ≡ b
        → Cuts max_bytes chunk (if b then (drop over chunk, over) else (chunk, 0))
    by_size true big =
        let (same, long) = take-drop over chunk (omega arith) in
        inr (
          take over chunk,
          sym same,
          sym long,
          ground arith,
          ground (arith, length-append (take over chunk) (drop over chunk), ap length same, long),
        )
    by_size false small = inl (refl, refl)

-- Where two ways to split a list meet.
pub append-split :
    (ws bs cs ds : List ℕ)
    → ws ++ bs ≡ cs ++ ds
    → length ws ≤ length cs
    → (xs : List ℕ) × (cs ≡ ws ++ xs) × (bs ≡ xs ++ ds)
append-split [] bs cs ds e le = (cs, refl, e)
append-split (a ∷ ws) bs [] ds e le = absurd (omega arith)
append-split (a ∷ ws) bs (c ∷ cs) ds e le =
    let same : a ≡ c = cc in
    let rest : ws ++ bs ≡ cs ++ ds = cc in
    let (xs, left, right) = append-split ws bs cs ds rest (omega arith) in (xs, cc, right)
