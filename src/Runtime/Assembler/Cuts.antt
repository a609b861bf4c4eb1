-- ===== src/Runtime/Assembler/Cuts.antt =====
-- Where the assembler cuts its buffer: at white space, and never before the first character.
use ai_receptionist.Base.{
  ℕ, ◌+◌, ◌≤◌, ◌≡◌, refl, sym, ap, ◌∙◌, subst, inl, inr, Bool, true, false, [], ◌∷◌, ◌++◌,
  append_assoc, append-nil, length, length-append, take, drop, arith, Bool-cases,
}
use ai_receptionist.Runtime.Text.{Units, is_space}
use ai_receptionist.Runtime.Text.Words.{IsSplit}
use ai_receptionist.Runtime.Assembler.{
  wait, ends_at, is_terminator, is_newline, newline_run, Judgement, sentence_ends, undecided,
  goes_on, judge_run, boundary_from, next_boundary,
}

ends_at-injective : {m n : ℕ} → ends_at m ≡ ends_at n → m ≡ n
ends_at-injective e = cc

-- `n` characters may be cut from a text.
abbrev pub IsCut : ℕ → Units → Type 0
IsCut n text = (s : Units) × (t : Units) × (text ≡ s ++ t) × (length s ≡ n) × IsSplit s t × (1 ≤ n)

newline-space : (c : ℕ) → is_newline c ≡ true → is_space c ≡ true
unfolding is_space
newline-space c e = let same : 10 ≡ c = ground arith in subst (λ d. is_space d ≡ true) same refl

newlines-split :
    (c : ℕ) (rest : Units)
    → is_newline c ≡ true
    → (u : Units) × (d : ℕ) × (v : Units) × (c ∷ rest ≡ (u ++ d ∷ []) ++ v)
      × (is_newline d ≡ true)
      × (length (u ++ d ∷ []) ≡ newline_run (c ∷ rest))
unfolding newline_run
newlines-split c [] e = ([], c, [], refl, e, ground arith)
newlines-split c (d ∷ rest) e = elim (Bool-cases (is_newline d)) [
  | inl next ↦
      let (u, l, v, parts, last, long) = newlines-split d rest next in
      (c ∷ u, l, v, ap (λ t. c ∷ t) parts, last, ground (arith, long))
  | inr other ↦ ([], c, d ∷ rest, refl, e, ground arith)
]

module _ (lower_case : Units → Units) where
  judge-space :
      (before run : Units) (c : ℕ) (rest : Units)
      → judge_run lower_case before run (c ∷ rest) ≡ sentence_ends
      → (is_space c ≡ true) × (1 ≤ length run)
  unfolding judge_run
  judge-space before [] c rest e = cc
  judge-space before (r ∷ run) c rest e = (ground arith, omega arith)

  boundary_from-IsCut :
      (before run rest : Units) (n : ℕ)
      → boundary_from lower_case before run rest ≡ ends_at n
      → IsCut n ((before ++ run) ++ rest)
  unfolding boundary_from
  boundary_from-IsCut before [] [] n e = cc
  boundary_from-IsCut before (r ∷ run) [] n e = cc
  boundary_from-IsCut before run (c ∷ rest) n e =
      by_case (is_terminator c) (judge_run lower_case before run (c ∷ rest)) (is_newline c) refl
        refl e (boundary_from-IsCut before (run ++ c ∷ []) rest n)
        (boundary_from-IsCut ((before ++ run) ++ c ∷ []) [] rest n)
    where
      text : Units
      text = (before ++ run) ++ c ∷ rest

      longer : ((before ++ run) ++ c ∷ []) ++ rest ≡ text
      longer = append_assoc (before ++ run) (c ∷ []) rest

      at_space : (is_space c ≡ true) × (1 ≤ length run) → IsCut (length (before ++ run)) text
      at_space (h, some_run) = (
        before ++ run,
        c ∷ rest,
        refl,
        refl,
        inl (c, rest, refl, h),
        omega (arith, length-append before run),
      )

      at_newline :
          (u : Units) × (d : ℕ) × (v : Units) × (c ∷ rest ≡ (u ++ d ∷ []) ++ v)
            × (is_newline d ≡ true)
            × (length (u ++ d ∷ []) ≡ newline_run (c ∷ rest))
          → IsCut (length (before ++ run) + newline_run (c ∷ rest)) text
      at_newline (u, d, v, parts, h, long) = (
        (before ++ run) ++ (u ++ d ∷ []),
        v,
        ap (λ t. (before ++ run) ++ t) parts ∙ sym (append_assoc (before ++ run) (u ++ d ∷ []) v),
        omega (arith, length-append (before ++ run) (u ++ d ∷ []), long),
        inr (
          d,
          (before ++ run) ++ u,
          sym (append_assoc (before ++ run) u (d ∷ [])),
          newline-space d h,
        ),
        omega (arith, length-append u (d ∷ []), long),
      )

      by_case :
          (stop : Bool) (j : Judgement) (newline : Bool)
          → judge_run lower_case before run (c ∷ rest) ≡ j
          → is_newline c ≡ newline
          → elim stop [
            | true ↦ boundary_from lower_case before (run ++ c ∷ []) rest
            | false ↦ elim j [
              | sentence_ends ↦ ends_at (length (before ++ run))
              | undecided ↦ wait
              | goes_on ↦ elim newline [
                | true ↦ ends_at (length (before ++ run) + newline_run (c ∷ rest))
                | false ↦ boundary_from lower_case ((before ++ run) ++ c ∷ []) [] rest
              ]
            ]
          ]
            ≡ ends_at n
          → (boundary_from lower_case before (run ++ c ∷ []) rest ≡ ends_at n
              → IsCut n ((before ++ (run ++ c ∷ [])) ++ rest))
          → (boundary_from lower_case ((before ++ run) ++ c ∷ []) [] rest ≡ ends_at n
              → IsCut n ((((before ++ run) ++ c ∷ []) ++ []) ++ rest))
          → IsCut n text
      by_case true j newline je ne e in_run after =
          subst (IsCut n) (ap (λ t. t ++ rest) (sym (append_assoc before run (c ∷ []))) ∙ longer)
            (in_run e)
      by_case false sentence_ends newline je ne e in_run after =
          subst (λ k. IsCut k text) (ends_at-injective e)
            (at_space (judge-space before run c rest je))
      by_case false undecided newline je ne e in_run after = cc
      by_case false goes_on true je ne e in_run after =
          subst (λ k. IsCut k text) (ends_at-injective e) (at_newline (newlines-split c rest ne))
      by_case false goes_on false je ne e in_run after =
          subst (IsCut n) (ap (λ t. t ++ rest) (append-nil ((before ++ run) ++ c ∷ [])) ∙ longer)
            (after e)

  pub next_boundary-IsCut :
      (text : Units) (n : ℕ) → next_boundary lower_case text ≡ ends_at n → IsCut n text
  unfolding next_boundary
  next_boundary-IsCut text n e = boundary_from-IsCut [] [] text n e

take-append : (s t : Units) → take (length s) (s ++ t) ≡ s
take-append [] t = refl
take-append (c ∷ s) t = ap (λ u. c ∷ u) (take-append s t)

drop-append : (s t : Units) → drop (length s) (s ++ t) ≡ t
drop-append [] t = refl
drop-append (c ∷ s) t = drop-append s t

-- A cut text in its two parts.
pub IsCut-parts :
    (n : ℕ) (text : Units)
    → IsCut n text
    → (text ≡ take n text ++ drop n text)
      × IsSplit (take n text) (drop n text)
      × (length (drop n text) + 1 ≤ length text)
IsCut-parts n text (s, t, parts, long, split, some_text) = (
  parts ∙ ap (λ u. u ++ t) (sym first) ∙ ap (λ u. take n text ++ u) (sym rest),
  subst (λ u. IsSplit u (drop n text)) (sym first) (subst (IsSplit s) (sym rest) split),
  omega (arith, ap length parts, length-append s t, long, some_text, ap length rest),
)
  where
    first : take n text ≡ s
    first = subst (λ k. take k text ≡ s) long (ap (take (length s)) parts ∙ take-append s t)

    rest : drop n text ≡ t
    rest = subst (λ k. drop k text ≡ t) long (ap (drop (length s)) parts ∙ drop-append s t)
