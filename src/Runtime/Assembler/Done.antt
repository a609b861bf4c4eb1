-- ===== src/Runtime/Assembler/Done.antt =====
-- The loop of a push ends for want of a boundary, not of fuel.
use ai_receptionist.Base.{
  ℕ, zero, suc, ◌≤◌, ◌≡◌, refl, ap, ◌⊎◌, inl, inr, List, [], ◌∷◌, ◌++◌, length, drop, arith,
}
use ai_receptionist.Runtime.Text.{Units}
use ai_receptionist.Runtime.Assembler.{
  Boundary, no_boundary, wait, ends_at, SentenceAssembler, new_assembler, boundary_from,
  next_boundary, take_sentence, assemble, push,
}
use ai_receptionist.Runtime.Assembler.Cuts.{next_boundary-IsCut, IsCut-parts}

take_sentence-buffer :
    (n : ℕ) (s : SentenceAssembler) → (take_sentence n s).0.buffer ≡ drop n s.buffer
unfolding take_sentence
take_sentence-buffer n s = ground arith

module _ (lower_case : Units → Units) where
  -- No sentence is left in the buffer that the text so far can end.
  abbrev pub IsDone : SentenceAssembler → Type 0
  IsDone s =
      (next_boundary lower_case s.buffer ≡ no_boundary) ⊎ (next_boundary lower_case s.buffer ≡ wait)

  IsDone-empty : (s : SentenceAssembler) → length s.buffer ≤ 0 → IsDone s
  unfolding next_boundary boundary_from
  IsDone-empty s le = inl (rw (empty s.buffer le) refl)
    where
      empty : (t : Units) → length t ≤ 0 → t ≡ []
      empty [] h = refl
      empty (c ∷ cs) h = absurd (omega arith)

  assemble-IsDone :
      (n : ℕ) (s : SentenceAssembler) → length s.buffer ≤ n → IsDone (assemble lower_case n s).0
  unfolding assemble
  assemble-IsDone zero s le = IsDone-empty s le
  assemble-IsDone (suc n) s le =
      by_boundary (next_boundary lower_case s.buffer) refl
        (λ end. assemble-IsDone n (take_sentence end s).0)
    where
      by_boundary :
          (b : Boundary)
          → next_boundary lower_case s.buffer ≡ b
          → ((end : ℕ)
              → length (take_sentence end s).0.buffer ≤ n
              → IsDone (assemble lower_case n (take_sentence end s).0).0)
          → IsDone
              (elim b as (λ _. SentenceAssembler × List Units) [
                | no_boundary ↦ (s, [])
                | wait ↦ (s, [])
                | ends_at end ↦
                    let (s1, first) = take_sentence end s in
                    let (s2, more) = assemble lower_case n s1 in (s2, first ++ more)
              ]).0
      by_boundary no_boundary e later = inl e
      by_boundary wait e later = inr e
      by_boundary (ends_at end) e later =
          let (parts, split, less) =
            IsCut-parts end s.buffer (next_boundary-IsCut lower_case s.buffer end e) in
          later end (omega (arith, less, le, ap length (take_sentence-buffer end s)))

  push-IsDone :
      (delta : Units) (s : SentenceAssembler) → IsDone s → IsDone (push lower_case delta s).0
  unfolding push
  push-IsDone [] s h = h
  push-IsDone (c ∷ cs) s h =
      assemble-IsDone _ (record s { buffer = s.buffer ++ c ∷ cs }) (omega arith)

  abbrev pub push_all : List Units → SentenceAssembler → SentenceAssembler
  push_all [] s = s
  push_all (delta ∷ deltas) s = push_all deltas (push lower_case delta s).0

  push_all-kept :
      (deltas : List Units) (s : SentenceAssembler) → IsDone s → IsDone (push_all deltas s)
  push_all-kept [] s h = h
  push_all-kept (delta ∷ deltas) s h =
      push_all-kept deltas (push lower_case delta s).0 (push-IsDone delta s h)

  -- After any deltas the buffer holds no sentence whose end is already decided: the loop of a push never
  -- runs out of fuel.
  pub push_all-IsDone :
      (min_segment_chars : ℕ) (deltas : List Units)
      → IsDone (push_all deltas (new_assembler min_segment_chars))
  push_all-IsDone min_segment_chars deltas =
      push_all-kept deltas (new_assembler min_segment_chars)
        (IsDone-empty (new_assembler min_segment_chars) (omega arith))
