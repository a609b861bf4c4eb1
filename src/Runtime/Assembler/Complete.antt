-- ===== src/Runtime/Assembler/Complete.antt =====
-- The segments of a stream are its text: nothing is dropped, added or reordered, however the stream is
-- cut into deltas. And the loop of a push ends by itself.
use ai_receptionist.Base.{
  ℕ, zero, suc, ◌+◌, ◌≡◌, refl, sym, ap, ◌∙◌, subst, inl, inr, Bool, true, false, false≢true,
  Option, none, some, List, [], ◌∷◌, ◌++◌, append_assoc, append-nil, length, take, drop,
  if◌then◌else◌, ltb, arith, All, All-append,
}
use ai_receptionist.Runtime.Text.{Units, is_empty, join, normalize}
use ai_receptionist.Runtime.Text.Words.{
  glue, IsFilled, glue_assoc, glue-filled, join-append, IsSplit, normalize-split,
}
use ai_receptionist.Runtime.Assembler.{
  Boundary, no_boundary, wait, ends_at, SentenceAssembler, new_assembler, next_boundary, merge_held,
  take_sentence, assemble, push, filled, flush, stream,
}
use ai_receptionist.Runtime.Assembler.Cuts.{IsCut, next_boundary-IsCut, IsCut-parts}

abbrev pub short : Option Units → Units
short none = []
short (some t) = t

-- What is held back is never empty.
abbrev pub IsHeldWell : Option Units → Type 0
IsHeldWell none = Unit
IsHeldWell (some t) = IsFilled t

abbrev pub whole : List Units → Units
whole [] = []
whole (delta ∷ deltas) = delta ++ whole deltas

IsSplit-longer : (s t u : Units) → IsSplit s t → IsSplit s (t ++ u)
IsSplit-longer s t u (inl (c, v, e, h)) = inl (c, v ++ u, ap (λ w. w ++ u) e, h)
IsSplit-longer s t u (inr cut) = inr cut

merge_held-glue :
    (held : Option Units) (sentence : Units)
    → IsHeldWell held
    → IsFilled sentence
    → merge_held held sentence ≡ glue (short held) sentence
merge_held-glue none sentence h k = refl
merge_held-glue (some t) sentence h k = sym (glue-filled t sentence h k)

merge_held-IsFilled :
    (held : Option Units) (sentence : Units)
    → IsHeldWell held
    → IsFilled sentence
    → IsFilled (merge_held held sentence)
merge_held-IsFilled none sentence h k = k
merge_held-IsFilled (some []) sentence h k = absurd (false≢true (sym h))
merge_held-IsFilled (some (c ∷ cs)) sentence h k = refl

-- What is left of the stream's text after some segments, whatever comes later.
abbrev pub Says : SentenceAssembler → SentenceAssembler × List Units → Type 0
Says s (s', out) =
    ((future : Units)
      → glue (short s.held) (normalize (s.buffer ++ future))
        ≡ glue (join out) (glue (short s'.held) (normalize (s'.buffer ++ future))))
    × IsHeldWell s'.held
    × All IsFilled out

take_sentence-Says :
    (n : ℕ) (s : SentenceAssembler)
    → IsHeldWell s.held
    → IsCut n s.buffer
    → Says s (take_sentence n s)
unfolding take_sentence join
take_sentence-Says n s h cut =
    by_size (is_empty sentence) (ltb (length merged) s.min_segment_chars) refl
  where
    sentence : Units
    sentence = normalize (take n s.buffer)

    merged : Units
    merged = merge_held s.held sentence

    after : Units → Units
    after future = normalize (drop n s.buffer ++ future)

    cut_text : (future : Units) → normalize (s.buffer ++ future) ≡ glue sentence (after future)
    cut_text future =
        let (parts, split, less) = IsCut-parts n s.buffer cut in
        ap (λ t. normalize (t ++ future)) parts
        ∙ ap normalize (append_assoc (take n s.buffer) (drop n s.buffer) future)
        ∙ normalize-split (take n s.buffer) (drop n s.buffer ++ future)
            (IsSplit-longer (take n s.buffer) (drop n s.buffer) future split)

    merges :
        (future : Units)
        → is_empty sentence ≡ false
        → glue (short s.held) (normalize (s.buffer ++ future)) ≡ glue merged (after future)
    merges future k =
        ap (glue (short s.held)) (cut_text future)
        ∙ sym (glue_assoc (short s.held) sentence (after future))
        ∙ ap (λ t. glue t (after future)) (sym (merge_held-glue s.held sentence h k))

    nothing :
        (future : Units) → is_empty sentence ≡ true → normalize (s.buffer ++ future) ≡ after future
    nothing future k = cut_text future ∙ ap (λ t. glue t (after future)) (empty sentence k)
      where
        empty : (t : Units) → is_empty t ≡ true → t ≡ []
        empty [] e = refl
        empty (c ∷ cs) e = absurd (false≢true e)

    by_size :
        (none_there short_one : Bool)
        → is_empty sentence ≡ none_there
        → Says s (
            if◌then◌else◌ {A = SentenceAssembler × List Units} none_there
              (record s { buffer = drop n s.buffer }, [])
              (if◌then◌else◌ {A = SentenceAssembler × List Units} short_one
                (record s { buffer = drop n s.buffer; held = some merged }, [])
                (
                  record s { buffer = drop n s.buffer; held = none; segments = s.segments + 1 },
                  merged ∷ [],
                )))
    by_size true b k = ((λ future. ap (glue (short s.held)) (nothing future k)), h, tt)
    by_size false true k =
        ((λ future. merges future k), merge_held-IsFilled s.held sentence h k, tt)
    by_size false false k =
        ((λ future. merges future k), tt, (merge_held-IsFilled s.held sentence h k, tt))

-- A stage after another.
Says-then :
    (s s1 s2 : SentenceAssembler) (first more : List Units)
    → Says s (s1, first)
    → Says s1 (s2, more)
    → Says s (s2, first ++ more)
Says-then s s1 s2 first more (here, h1, f1) (later, h2, f2) = (
  λ future.
      here future
      ∙ ap (glue (join first)) (later future)
      ∙ sym (glue_assoc (join first) (join more) _)
      ∙ ap (λ t. glue t (glue (short s2.held) (normalize (s2.buffer ++ future))))
          (sym (join-append first more f1 f2)),
  h2,
  All-append IsFilled first more f1 f2,
)

Says-nothing : (s : SentenceAssembler) → IsHeldWell s.held → Says s (s, [])
unfolding join
Says-nothing s h = ((λ future. refl), h, tt)

module _ (lower_case : Units → Units) where
  assemble-Says :
      (n : ℕ) (s : SentenceAssembler) → IsHeldWell s.held → Says s (assemble lower_case n s)
  unfolding assemble
  assemble-Says zero s h = Says-nothing s h
  assemble-Says (suc n) s h =
      by_boundary (next_boundary lower_case s.buffer) refl
        (λ end. assemble-Says n (take_sentence end s).0)
    where
      by_boundary :
          (b : Boundary)
          → next_boundary lower_case s.buffer ≡ b
          → ((end : ℕ)
              → IsHeldWell (take_sentence end s).0.held
              → Says (take_sentence end s).0 (assemble lower_case n (take_sentence end s).0))
          → Says s (elim b as (λ _. SentenceAssembler × List Units) [
            | no_boundary ↦ (s, [])
            | wait ↦ (s, [])
            | ends_at end ↦
                let (s1, first) = take_sentence end s in
                let (s2, more) = assemble lower_case n s1 in (s2, first ++ more)
          ])
      by_boundary no_boundary e later = Says-nothing s h
      by_boundary wait e later = Says-nothing s h
      by_boundary (ends_at end) e later =
          let here = take_sentence-Says end s h (next_boundary-IsCut lower_case s.buffer end e) in
          Says-then s (take_sentence end s).0 (assemble lower_case n (take_sentence end s).0).0
            (take_sentence end s).1 (assemble lower_case n (take_sentence end s).0).1 here
            (later end here.1)

  push-Says :
      (delta : Units) (s : SentenceAssembler)
      → IsHeldWell s.held
      → Says (record s { buffer = s.buffer ++ delta }) (push lower_case delta s)
  unfolding push
  push-Says [] s h =
      subst (λ t. Says (record s { buffer = t }) (s, [])) (sym (append-nil s.buffer))
        (Says-nothing s h)
  push-Says (c ∷ cs) s h = assemble-Says _ (record s { buffer = s.buffer ++ c ∷ cs }) h

  filled-IsFilled : (t : Units) → All IsFilled (filled (some t)) × (join (filled (some t)) ≡ t)
  unfolding join
  filled-IsFilled [] = (tt, refl)
  filled-IsFilled (c ∷ cs) = ((refl, tt), refl)

  filled-short :
      (held : Option Units) → All IsFilled (filled held) × (join (filled held) ≡ short held)
  unfolding join
  filled-short none = (tt, refl)
  filled-short (some t) = filled-IsFilled t

  -- What a stream's end flushes is all that was left.
  flush_lem :
      (s : SentenceAssembler)
      → (join (flush s).1 ≡ glue (short s.held) (normalize s.buffer)) × All IsFilled (flush s).1
  unfolding flush join
  flush_lem s = by_rest (filled-short s.held) (filled-IsFilled (normalize s.buffer))
    where
      merged : Units
      merged = join (filled s.held ++ filled (some (normalize s.buffer)))

      kept :
          (text : Units) (r : SentenceAssembler × List Units)
          → (r.1 ≡ (if is_empty text then [] else text ∷ []))
          → (join r.1 ≡ text) × All IsFilled r.1
      kept [] r e = rw (e) (refl, tt)
      kept (c ∷ cs) r e = rw (e) (refl, (refl, tt))

      by_rest :
          All IsFilled (filled s.held) × (join (filled s.held) ≡ short s.held)
          → All IsFilled (filled (some (normalize s.buffer)))
            × (join (filled (some (normalize s.buffer))) ≡ normalize s.buffer)
          → (join (flush s).1 ≡ glue (short s.held) (normalize s.buffer)) × All IsFilled (flush s).1
      by_rest (f, e) (g, k) =
          let (same, all) = kept merged (flush s) (ground arith) in
          (
            same
                ∙ join-append (filled s.held) (filled (some (normalize s.buffer))) f g
                ∙ ap (λ t. glue t (join (filled (some (normalize s.buffer))))) e
                ∙ ap (glue (short s.held)) k,
            all,
          )

  stream_lem :
      (s : SentenceAssembler) (deltas : List Units)
      → IsHeldWell s.held
      → (join (stream lower_case s deltas)
          ≡ glue (short s.held) (normalize (s.buffer ++ whole deltas)))
        × All IsFilled (stream lower_case s deltas)
  unfolding stream
  stream_lem s [] h =
      let (e, f) = flush_lem s in
      (e ∙ ap (λ t. glue (short s.held) (normalize t)) (sym (append-nil s.buffer)), f)
  stream_lem s (delta ∷ deltas) h =
      let (says, h1, f1) = push-Says delta s h in
      let s1 : SentenceAssembler = (push lower_case delta s).0 in
      let out : List Units = (push lower_case delta s).1 in
      let (e, f2) = stream_lem s1 deltas h1 in
      (
        join-append out (stream lower_case s1 deltas) f1 f2
            ∙ ap (glue (join out)) e
            ∙ sym (says (whole deltas))
            ∙ ap (λ t. glue (short s.held) (normalize t))
                (append_assoc s.buffer delta (whole deltas)),
        All-append IsFilled out (stream lower_case s1 deltas) f1 f2,
      )

  -- The segments of a stream that ends normally, joined with single spaces, are the whole text with its
  -- white space normalized.
  pub stream-normalize :
      (min_segment_chars : ℕ) (deltas : List Units)
      → join (stream lower_case (new_assembler min_segment_chars) deltas) ≡ normalize (whole deltas)
  stream-normalize min_segment_chars deltas =
      (stream_lem (new_assembler min_segment_chars) deltas tt).0
