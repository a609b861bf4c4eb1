-- ===== src/Runtime/Text/Words.antt =====
-- A text without needless white space, in parts: where it is cut at white space, its words are those
-- of the parts.
use ai_receptionist.Base.{
  ℕ, ◌≡◌, refl, sym, ap, ◌∙◌, ◌⊎◌, inl, inr, Bool, true, false, false≢true, List, [], ◌∷◌, ◌++◌,
  append_assoc, append-nil, All, All-append,
}
use ai_receptionist.Runtime.Text.{Units, is_space, is_empty, join, add_word, words_from, normalize}

-- Two texts with a space between them, where both have something.
abbrev pub glue : Units → Units → Units
glue [] t = t
glue (c ∷ cs) [] = c ∷ cs
glue (c ∷ cs) (d ∷ ds) = (c ∷ cs) ++ 32 ∷ d ∷ ds

abbrev pub IsFilled : Units → Type 0
IsFilled t = is_empty t ≡ false

pub glue-nil : (t : Units) → glue t [] ≡ t
glue-nil [] = refl
glue-nil (c ∷ cs) = refl

pub glue_assoc : (s t u : Units) → glue (glue s t) u ≡ glue s (glue t u)
glue_assoc [] t u = refl
glue_assoc (c ∷ cs) [] u = refl
glue_assoc (c ∷ cs) (d ∷ ds) [] = refl
glue_assoc (c ∷ cs) (d ∷ ds) (e ∷ es) = append_assoc (c ∷ cs) (32 ∷ d ∷ ds) (32 ∷ e ∷ es)

glue-long : (s t u : Units) → IsFilled t → (s ++ 32 ∷ t) ++ u ≡ s ++ 32 ∷ (t ++ u)
glue-long s t u h = append_assoc s (32 ∷ t) u

join-IsFilled : (t : Units) (ts : List Units) → IsFilled t → IsFilled (join (t ∷ ts))
unfolding join
join-IsFilled [] ts h = absurd (false≢true (sym h))
join-IsFilled (c ∷ cs) [] h = refl
join-IsFilled (c ∷ cs) (u ∷ ts) h = refl

pub glue-filled : (s t : Units) → IsFilled s → IsFilled t → glue s t ≡ s ++ 32 ∷ t
glue-filled [] t h k = absurd (false≢true (sym h))
glue-filled (c ∷ cs) [] h k = absurd (false≢true (sym k))
glue-filled (c ∷ cs) (d ∷ ds) h k = refl

pub join-cons :
    (t : Units) (ts : List Units) → All IsFilled (t ∷ ts) → join (t ∷ ts) ≡ glue t (join ts)
unfolding join
join-cons t [] (h, hs) = sym (glue-nil t)
join-cons t (u ∷ ts) (h, (k, hs)) = sym (glue-filled t (join (u ∷ ts)) h (join-IsFilled u ts k))

pub join-append :
    (ts us : List Units)
    → All IsFilled ts
    → All IsFilled us
    → join (ts ++ us) ≡ glue (join ts) (join us)
unfolding join
join-append [] us h k = refl
join-append (t ∷ ts) us (h, hs) k =
    join-cons t (ts ++ us) (h, All-append IsFilled ts us hs k)
    ∙ ap (glue t) (join-append ts us hs k)
    ∙ sym (glue_assoc t (join ts) (join us))
    ∙ ap (λ s. glue s (join us)) (sym (join-cons t ts (h, hs)))

add_word-IsFilled : (w : Units) (ws : List Units) → All IsFilled ws → All IsFilled (add_word w ws)
add_word-IsFilled [] ws h = h
add_word-IsFilled (c ∷ cs) ws h = (refl, h)

words_from-IsFilled : (w t : Units) → All IsFilled (words_from w t)
unfolding words_from
words_from-IsFilled w [] = add_word-IsFilled w [] tt
words_from-IsFilled w (c ∷ cs) =
    elim (is_space c)
      as (λ b.
        All IsFilled
          (elim b [ true ↦ add_word w (words_from [] cs) | false ↦ words_from (w ++ c ∷ []) cs ])) [
            | true ↦ add_word-IsFilled w (words_from [] cs) (words_from-IsFilled [] cs)
            | false ↦ words_from-IsFilled (w ++ c ∷ []) cs
          ]

add_word-append : (w : Units) (ws vs : List Units) → add_word w (ws ++ vs) ≡ add_word w ws ++ vs
add_word-append [] ws vs = refl
add_word-append (c ∷ cs) ws vs = refl

-- A text that is cut before white space.
words_from-append :
    (w s t : Units) (c : ℕ)
    → is_space c ≡ true
    → words_from w (s ++ c ∷ t) ≡ words_from w s ++ words_from [] t
unfolding words_from
words_from-append w [] t c h = rw (words_from, h) (add_word-append w [] (words_from [] t))
words_from-append w (d ∷ ds) t c h =
    by_space (is_space d) (words_from-append [] ds t c h) (words_from-append (w ++ d ∷ []) ds t c h)
  where
    by_space :
        (b : Bool)
        → words_from [] (ds ++ c ∷ t) ≡ words_from [] ds ++ words_from [] t
        → words_from (w ++ d ∷ []) (ds ++ c ∷ t) ≡ words_from (w ++ d ∷ []) ds ++ words_from [] t
        → elim b [
          | true ↦ add_word w (words_from [] (ds ++ c ∷ t))
          | false ↦ words_from (w ++ d ∷ []) (ds ++ c ∷ t)
        ]
          ≡ elim b [ true ↦ add_word w (words_from [] ds) | false ↦ words_from (w ++ d ∷ []) ds ]
            ++ words_from [] t
    by_space true e k = ap (add_word w) e ∙ add_word-append w (words_from [] ds) (words_from [] t)
    by_space false e k = k

-- Cut at white space: it starts the second part or ends the first.
abbrev pub IsSplit : Units → Units → Type 0
IsSplit s t =
    ((c : ℕ) × (u : Units) × (t ≡ c ∷ u) × (is_space c ≡ true))
    ⊎ ((c : ℕ) × (u : Units) × (s ≡ u ++ c ∷ []) × (is_space c ≡ true))

words-space : (c : ℕ) (t : Units) → is_space c ≡ true → words_from [] (c ∷ t) ≡ words_from [] t
unfolding words_from
words-space c t h = words_from-append [] [] t c h

words-split :
    (s t : Units) → IsSplit s t → words_from [] (s ++ t) ≡ words_from [] s ++ words_from [] t
unfolding words_from
words-split s t (inl (c, u, e, h)) =
    ap (λ v. words_from [] (s ++ v)) e
    ∙ words_from-append [] s u c h
    ∙ ap (λ ws. words_from [] s ++ ws) (sym (ap (words_from []) e ∙ words-space c u h))
words-split s t (inr (c, u, e, h)) =
    ap (λ v. words_from [] (v ++ t)) e
    ∙ ap (words_from []) (append_assoc u (c ∷ []) t)
    ∙ words_from-append [] u t c h
    ∙ ap (λ ws. ws ++ words_from [] t) (sym (ap (words_from []) e ∙ last))
  where
    last : words_from [] (u ++ c ∷ []) ≡ words_from [] u
    last = words_from-append [] u [] c h ∙ append-nil (words_from [] u)

pub normalize-split :
    (s t : Units) → IsSplit s t → normalize (s ++ t) ≡ glue (normalize s) (normalize t)
unfolding normalize
normalize-split s t h =
    ap join (words-split s t h)
    ∙ join-append (words_from [] s) (words_from [] t) (words_from-IsFilled [] s)
        (words_from-IsFilled [] t)
