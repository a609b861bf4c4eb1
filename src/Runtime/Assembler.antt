-- ===== src/Runtime/Assembler.antt =====
-- packages/runtime/response-assembler.ts: sentences out of a stream of text. `lower_case` is
-- JavaScript's `toLowerCase`, a parameter.
pub mod Cuts
pub mod Complete
pub mod Done
use ai_receptionist.Base.{
  ℕ, zero, suc, ◌+◌, Bool, true, false, ◌&&◌, ◌||◌, List, [], ◌∷◌, ◌++◌, Option, none, some, leb,
  ltb, ◌==◌, any, length, take, drop, if◌then◌else◌,
}
use ai_receptionist.Runtime.Text.{Units, units, is_space, is_empty, same_text, join, normalize}

pub data Boundary : Type 0 where
  no_boundary : Boundary
  wait : Boundary
  ends_at : ℕ → Boundary

pub record SentenceAssembler : Type 0 where
  pub buffer : Units
  pub held : Option Units
  pub segments : ℕ
  pub min_segment_chars : ℕ

abbrev pub new_assembler : ℕ → SentenceAssembler
new_assembler min_segment_chars = record {
  buffer = [];
  held = none;
  segments = 0;
  min_segment_chars = min_segment_chars;
}

-- `.`, `?`, `!` and the dandas.
abbrev pub is_terminator : ℕ → Bool
is_terminator c = any (λ t. t == c) (46 ∷ 63 ∷ 33 ∷ 2404 ∷ 2405 ∷ [])

abbrev pub is_newline : ℕ → Bool
is_newline c = c == 10

-- `/[0-9₹$€£]/`
abbrev pub is_digit_or_currency : ℕ → Bool
is_digit_or_currency c = (leb 48 c && leb c 57) || any (λ s. s == c) (8377 ∷ 36 ∷ 8364 ∷ 163 ∷ [])

abbrev pub is_lower_latin : ℕ → Bool
is_lower_latin c = leb 97 c && leb c 122

abbrev pub is_letter : ℕ → Bool
is_letter c = (leb 65 c && leb c 90) || is_lower_latin c

-- What a word may follow: white space, an opening bracket or quote, a comma, a colon or semicolon.
unfoldable pub opens_word : ℕ → Bool
opens_word c = is_space c || any (λ s. s == c) (40 ∷ 44 ∷ 59 ∷ 58 ∷ 34 ∷ 39 ∷ 8220 ∷ 8216 ∷ [])

abbrev pub is_single_letter : Units → Bool
is_single_letter (c ∷ []) = is_letter c
is_single_letter _ = false

unfoldable pub abbreviations : List Units
abbreviations =
    units "rs"
    ∷ units "inr"
    ∷ units "mr"
    ∷ units "mrs"
    ∷ units "ms"
    ∷ units "dr"
    ∷ units "no"
    ∷ units "nos"
    ∷ units "vs"
    ∷ units "approx"
    ∷ units "st"
    ∷ units "sr"
    ∷ units "jr"
    ∷ units "sq"
    ∷ units "ft"
    ∷ units "kg"
    ∷ units "km"
    ∷ units "hrs"
    ∷ units "min"
    ∷ units "max"
    ∷ units "dept"
    ∷ units "govt"
    ∷ units "pvt"
    ∷ units "ltd"
    ∷ units "co"
    ∷ units "ph"
    ∷ units "tel"
    ∷ units "mob"
    ∷ units "రూ"
    ∷ units "శ్రీ"
    ∷ units "డా"
    ∷ []

-- The word at the end of a text, after the letters of the one that goes on.
unfoldable pub last_word : Units → Units → Units
last_word word [] = word
last_word word (c ∷ cs) = if opens_word c then last_word [] cs else last_word (word ++ c ∷ []) cs

-- The first character that is not white space.
unfoldable pub next_visible : Units → Option ℕ
next_visible [] = none
next_visible (c ∷ cs) = if is_space c then next_visible cs else some c

unfoldable pub newline_run : Units → ℕ
newline_run [] = 0
newline_run (c ∷ cs) = let rest = newline_run cs in if is_newline c then suc rest else 0

-- What becomes of one run of terminators.
pub data Judgement : Type 0 where
  sentence_ends : Judgement
  undecided : Judgement
  goes_on : Judgement

abbrev pub merge_held : Option Units → Units → Units
merge_held none sentence = sentence
merge_held (some short) sentence = short ++ 32 ∷ sentence

-- The loop's body from the boundary on: what is taken from the buffer, and the segment it makes.
unfoldable pub take_sentence : ℕ → SentenceAssembler → SentenceAssembler × List Units
take_sentence end s =
    let sentence = normalize (take end s.buffer) in
    let rest = record s { buffer = drop end s.buffer } in
    let merged = merge_held s.held sentence in
    if is_empty sentence
    then (rest, [])
    else if ltb (length merged) s.min_segment_chars
    then (record rest { held = some merged }, [])
    else (record rest { held = none; segments = s.segments + 1 }, merged ∷ [])

abbrev pub filled : Option Units → List Units
filled none = []
filled (some []) = []
filled (some (c ∷ cs)) = (c ∷ cs) ∷ []

unfoldable pub flush : SentenceAssembler → SentenceAssembler × List Units
flush s =
    let merged = join (filled s.held ++ filled (some (normalize s.buffer))) in
    let spent = record s { buffer = []; held = none } in
    if is_empty merged
    then (spent, [])
    else (record spent { segments = s.segments + 1 }, merged ∷ [])

module _ (lower_case : Units → Units) where
  -- `before` is the text up to the dot.
  unfoldable pub is_abbreviation : Units → Bool
  is_abbreviation before =
      let word = last_word [] before in
      if is_empty word
      then false
      else if is_single_letter word
      then true
      else any (λ a. same_text a (lower_case word)) abbreviations

  abbrev pub judge_next : Option ℕ → Judgement
  judge_next none = undecided
  judge_next (some c) =
      if is_digit_or_currency c || is_lower_latin c then goes_on else sentence_ends

  -- A run after which `rest`, which is not empty, follows: the body of the loop over the matches.
  unfoldable pub judge_run : Units → Units → Units → Judgement
  judge_run before [] rest = goes_on
  judge_run before run [] = undecided
  judge_run before run (c ∷ rest) =
      if is_space c
      then (if same_text run (46 ∷ [])
          then (if is_abbreviation before then goes_on else judge_next (next_visible (c ∷ rest)))
          else sentence_ends)
      else goes_on

  -- The matches of `TERMINATOR` in turn: `run` is the run of terminators just before the rest, and
  -- `before` all that precedes it.
  unfoldable pub boundary_from : Units → Units → Units → Boundary
  boundary_from before [] [] = no_boundary
  boundary_from before (_ ∷ _) [] = wait
  boundary_from before run (c ∷ rest) = elim (is_terminator c) [
    | true ↦ boundary_from before (run ++ c ∷ []) rest
    | false ↦ elim (judge_run before run (c ∷ rest)) [
      | sentence_ends ↦ ends_at (length (before ++ run))
      | undecided ↦ wait
      | goes_on ↦ elim (is_newline c) [
        | true ↦ ends_at (length (before ++ run) + newline_run (c ∷ rest))
        | false ↦ boundary_from ((before ++ run) ++ c ∷ []) [] rest
      ]
    ]
  ]

  -- `nextBoundary`
  unfoldable pub next_boundary : Units → Boundary
  next_boundary text = boundary_from [] [] text

  -- The loop of `push`: on fuel, with the buffer's length enough.
  unfoldable pub assemble : ℕ → SentenceAssembler → SentenceAssembler × List Units
  assemble zero s = (s, [])
  assemble (suc n) s = elim (next_boundary s.buffer) [
    | no_boundary ↦ (s, [])
    | wait ↦ (s, [])
    | ends_at end ↦
        let (s1, first) = take_sentence end s in
        let (s2, more) = assemble n s1 in (s2, first ++ more)
  ]

  unfoldable pub push : Units → SentenceAssembler → SentenceAssembler × List Units
  push [] s = (s, [])
  push delta s = let text = s.buffer ++ delta in assemble (length text) (record s { buffer = text })

  -- A stream that ends normally: its deltas one by one, then the rest.
  unfoldable pub stream : SentenceAssembler → List Units → List Units
  stream s [] = (flush s).1
  stream s (delta ∷ deltas) = let (s', out) = push delta s in out ++ stream s' deltas
