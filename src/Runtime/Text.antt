-- ===== src/Runtime/Text.antt =====
-- What packages/runtime uses of JavaScript's texts, here lists of their UTF-16 code units. White
-- space is what `\s` matches and `trim` removes.
pub mod Words
use Prim.Native.String as Native
use Prim.Native.Char.{code}
use ai_receptionist.Base.{
  ℕ, String, Bool, true, false, ◌&&◌, ◌||◌, not, List, [], ◌∷◌, ◌++◌, leb, ◌==◌, any, if◌then◌else◌,
}

abbrev pub Units : Type 0
Units = List ℕ

-- The code units of a text of the source; all lie in the first plane.
unfoldable pub units : String → Units
units (Native.[]) = []
units (Native.◌∷◌ c s) = code c ∷ units s

unfoldable pub is_space : ℕ → Bool
is_space c =
    (leb 9 c && leb c 13)
    || (leb 8192 c && leb c 8202)
    || any (λ s. s == c) (32 ∷ 160 ∷ 5760 ∷ 8232 ∷ 8233 ∷ 8239 ∷ 8287 ∷ 12288 ∷ 65279 ∷ [])

abbrev pub is_empty : Units → Bool
is_empty [] = true
is_empty (_ ∷ _) = false

abbrev pub same_text : Units → Units → Bool
same_text [] [] = true
same_text (c ∷ cs) (d ∷ ds) = (c == d) && same_text cs ds
same_text _ _ = false

unfoldable pub trim_start : Units → Units
trim_start [] = []
trim_start (c ∷ cs) = if is_space c then trim_start cs else c ∷ cs

-- White space at the end is kept until something follows it.
unfoldable pub trim_end : Units → Units
trim_end [] = []
trim_end (c ∷ cs) = let rest = trim_end cs in if is_space c && is_empty rest then [] else c ∷ rest

-- `text.trim()`
unfoldable pub trim : Units → Units
trim text = trim_end (trim_start text)

unfoldable pub starts_with : Units → Units → Bool
starts_with text [] = true
starts_with [] (p ∷ part) = false
starts_with (c ∷ cs) (p ∷ part) = (c == p) && starts_with cs part

-- `text.includes(part)`
unfoldable pub has_part : Units → Units → Bool
has_part [] part = starts_with [] part
has_part (c ∷ cs) part = starts_with (c ∷ cs) part || has_part cs part

-- `texts.join(" ")`
unfoldable pub join : List Units → Units
join [] = []
join (t ∷ []) = t
join (t ∷ u ∷ texts) = t ++ 32 ∷ join (u ∷ texts)

abbrev pub add_word : Units → List Units → List Units
add_word [] words = words
add_word (c ∷ cs) words = (c ∷ cs) ∷ words

-- The words of a text, after the letters of the one that goes on.
unfoldable pub words_from : Units → Units → List Units
words_from word [] = add_word word []
words_from word (c ∷ cs) = elim (is_space c) [
  | true ↦ add_word word (words_from [] cs)
  | false ↦ words_from (word ++ c ∷ []) cs
]

-- `text.replace(/\s+/g, " ").trim()`: the words, one space between them.
unfoldable pub normalize : Units → Units
normalize text = join (words_from [] text)
