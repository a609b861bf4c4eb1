-- ===== src/Runtime/Validator/Limits.antt =====
-- How long a validated reply can be.
use ai_receptionist.Base.{
  ℕ, zero, suc, ◌+◌, ◌≤◌, ◌≡◌, refl, true, List, [], ◌∷◌, Option, none, some, Dict, length, take,
  arith, Bool-cases, inl, inr,
}
use ai_receptionist.Runtime.Text.{Units, is_empty, trim, trim_start, trim_end}
use ai_receptionist.Runtime.Turn.{ActionRecord}
use ai_receptionist.Runtime.Validator.{
  ChannelProfile, Patterns, sentence_boundary, cut_at, trim_to_sentence_boundary, strip_unfit,
  validate_reply,
}

trim_start-le : (t : Units) → length (trim_start t) ≤ length t
unfolding trim_start
trim_start-le [] = omega arith
trim_start-le (c ∷ cs) = ground (arith, trim_start-le cs)

trim_end-le : (t : Units) → length (trim_end t) ≤ length t
unfolding trim_end
trim_end-le [] = omega arith
trim_end-le (c ∷ cs) = ground (arith, trim_end-le cs)

trim-le : (t : Units) → length (trim t) ≤ length t
unfolding trim
trim-le t = omega (arith, trim_end-le (trim_start t), trim_start-le t)

take-le : (n : ℕ) (t : Units) → (length (take n t) ≤ n) × (length (take n t) ≤ length t)
take-le zero t = (omega arith, omega arith)
take-le (suc n) [] = (omega arith, omega arith)
take-le (suc n) (c ∷ t) = let (a, b) = take-le n t in (omega arith, omega arith)

cut_at-le :
    (boundary : Option ℕ) (limit : ℕ) (head : Units)
    → length (cut_at boundary limit head) ≤ length head
cut_at-le none limit head = trim-le head
cut_at-le (some at) limit head =
    ground (arith, trim-le head, trim-le (take (at + 1) head), (take-le (at + 1) head).1)

trim_to_sentence_boundary-le :
    (text : Units) (limit : ℕ) → length (trim_to_sentence_boundary text limit) ≤ limit
unfolding trim_to_sentence_boundary
trim_to_sentence_boundary-le text limit =
    let head = take limit text in
    ground (arith, cut_at-le (sentence_boundary head) limit head, (take-le limit text).0)

-- A reply is never longer than its channel allows, whatever the model wrote.
pub reply-le-max :
    (patterns : Patterns) (configured : Dict (List Units)) (channel : ChannelProfile)
    (actions : List ActionRecord) (raw : Units)
    → length (validate_reply patterns configured channel actions raw).reply
      ≤ channel.max_reply_chars
unfolding validate_reply
reply-le-max patterns configured channel actions raw = elim (Bool-cases (is_empty (trim raw))) [
  | inl none_there ↦ ground (arith, empty (trim raw) none_there)
  | inr some_text ↦ ground (
    arith,
    trim_to_sentence_boundary-le (strip_unfit patterns configured channel actions (trim raw))
        channel.max_reply_chars,
  )
]
  where
    empty : (t : Units) → is_empty t ≡ true → t ≡ []
    empty [] e = refl
    empty (c ∷ cs) e = cc
