-- ===== src/Runtime/Memory/Recap.antt =====
-- packages/runtime/memory-manager.ts, foldSummary: which lines the summary keeps, told without its loop.
use ai_receptionist.Base.{
  ℕ, ◌≤◌, ◌<◌, ◌≡◌, refl, ap, ◌⊎◌, inl, inr, String, Bool, true, false, not, List, [], ◌∷◌, ◌++◌,
  length, keep, map, ltb, if◌then◌else◌, ◌=ˢ◌, arith,
}
use ai_receptionist.Runtime.Memory.{
  ChatMessage, join_lines, memory_line, drop_old_lines, fold_summary,
}

module _ (text_length : String → ℕ) (slice : ℕ → String → String)
    (sanitize trim : String → String) where
  -- With any of the dropped lines the text from there on would be too long.
  abbrev pub IsCut : ℕ → List String → List String → Type 0
  IsCut limit [] kept = Unit
  IsCut limit (l ∷ dropped) kept =
      (limit < text_length (join_lines (l ∷ dropped ++ kept))) × IsCut limit dropped kept

  -- The lines are those dropped and then those kept: not more are dropped than must be, the last line
  -- never, and what is kept fits or is one line.
  abbrev pub IsSplit : ℕ → List String → List String → List String → Type 0
  IsSplit limit lines dropped kept =
      (lines ≡ dropped ++ kept)
      × IsCut limit dropped kept
      × ((dropped ≡ []) ⊎ (1 ≤ length kept))
      × ((length kept ≤ 1) ⊎ (text_length (join_lines kept) ≤ limit))

  -- The text is that of the kept lines, cut at the limit.
  abbrev pub IsShortened : ℕ → List String → String → Type 0
  IsShortened limit lines text =
      (dropped : List String) × (kept : List String) × IsSplit limit lines dropped kept
      × (text ≡ (
          if ltb limit (text_length (join_lines kept))
          then slice limit (join_lines kept)
          else join_lines kept))

  -- The lines of a summary: the earlier text, then one for each message, without empty ones.
  abbrev pub recap_lines : String → List ChatMessage → List String
  recap_lines old messages =
      keep (λ l. not (l =ˢ ""))
        (trim old ∷ map (memory_line text_length slice sanitize trim) messages)

  -- The summary's text after these messages were folded into it.
  abbrev pub IsRecap : String → List ChatMessage → String → Type 0
  IsRecap old [] text = text ≡ old
  IsRecap old (m ∷ messages) text = IsShortened 1200 (recap_lines old (m ∷ messages)) text

  drop_old_lines-IsSplit :
      (limit : ℕ) (lines : List String)
      → (dropped : List String) × IsSplit limit lines dropped
          (drop_old_lines text_length slice sanitize trim limit lines)
  unfolding drop_old_lines
  drop_old_lines-IsSplit limit [] = ([], (refl, tt, inl refl, inl (omega arith)))
  drop_old_lines-IsSplit limit (l ∷ []) = ([], (refl, tt, inl refl, inl (omega arith)))
  drop_old_lines-IsSplit limit (l ∷ m ∷ lines) =
      by_length _ refl (drop_old_lines-IsSplit limit (m ∷ lines)) (longer m lines)
    where
      later : List String
      later = drop_old_lines text_length slice sanitize trim limit (m ∷ lines)

      longer :
          (first : String) (rest : List String)
          → 1 ≤ length (drop_old_lines text_length slice sanitize trim limit (first ∷ rest))
      longer first [] = omega arith
      longer first (next ∷ rest) = ground (arith, longer next rest)

      by_length :
          (b : Bool)
          → ltb limit (text_length (join_lines (l ∷ m ∷ lines))) ≡ b
          → (dropped : List String) × IsSplit limit (m ∷ lines) dropped later
          → 1 ≤ length later
          → (dropped : List String) × IsSplit limit
              (l ∷ m ∷ lines)
              dropped
              (if b then later else l ∷ m ∷ lines)
      by_length false fits h some_left = ([], (refl, tt, inl refl, inr (ground (arith, fits))))
      by_length true long (dropped, (parts, cut, last, fits)) some_left =
          let too_long : limit < text_length (join_lines (l ∷ dropped ++ later)) =
            rw (← parts) (ground (arith, long)) in
          (l ∷ dropped, (ap (λ ls. l ∷ ls) parts, (too_long, cut), inr some_left, fits))

  pub fold_summary-IsRecap :
      (old : String) (messages : List ChatMessage)
      → 1 ≤ length messages
      → IsRecap old messages (fold_summary text_length slice sanitize trim old messages 1200)
  unfolding fold_summary
  fold_summary-IsRecap old [] some_left = absurd (omega (arith, some_left))
  fold_summary-IsRecap old (m ∷ messages) some_left =
      let lines = recap_lines old (m ∷ messages) in
      let (dropped, split) = drop_old_lines-IsSplit 1200 lines in
      (dropped, drop_old_lines text_length slice sanitize trim 1200 lines, split, refl)
