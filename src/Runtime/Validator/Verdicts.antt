-- ===== src/Runtime/Validator/Verdicts.antt =====
-- What a verdict of the response validator says of the text.
use ai_receptionist.Base.{
  ◌≤◌, ◌≡◌, refl, ◌∙◌, Bool, true, false, ◌&&◌, ◌||◌, not, List, [], ◌∷◌, ◌++◌, String, Dict, any,
  length, arith,
}
use ai_receptionist.Runtime.Text.{Units, is_empty, trim, trim_start, trim_end}
use ai_receptionist.Runtime.Turn.{ActionRecord}
use ai_receptionist.Runtime.Validator.{
  ValidationViolation, unsupported_action_claim, instruction_leak, markdown_not_supported,
  max_length, regenerate, transform, ChannelProfile, Patterns, is_transform, is_regenerate,
  permitted_claim_kinds, has_leak, leak_violations, is_unsupported, claim_violations,
  trim_to_sentence_boundary, detect_action_claims, strip_unfit, markdown_violations,
  content_violations, after_prior, validate_segment, length_violations, language_violations,
  validate_reply,
}

module _ {ℓ} {A : Type ℓ} where
  any-append : (p : A → Bool) (xs ys : List A) → any p (xs ++ ys) ≡ (any p xs || any p ys)
  any-append p [] ys = refl
  any-append p (x ∷ xs) ys = ground (arith, any-append p xs ys)

claims-any :
    (p : ValidationViolation → Bool) (permitted claims : List String)
    → p (record { kind = unsupported_action_claim; repairable = regenerate }) ≡ true
    → any p (claim_violations permitted claims) ≡ any (is_unsupported permitted) claims
unfolding claim_violations
claims-any p permitted [] e = refl
claims-any p permitted (c ∷ claims) e = ground (arith, claims-any p permitted claims e)

leak-any :
    (p : ValidationViolation → Bool) (text : Units)
    → p (record { kind = instruction_leak; repairable = regenerate }) ≡ true
    → any p (leak_violations text) ≡ has_leak text
unfolding leak_violations
leak-any p text e = ground (arith, e)

module _ (patterns : Patterns) (configured : Dict (List Units)) (channel : ChannelProfile)
    (actions : List ActionRecord) where
  -- A text that leaks no instruction and claims nothing that no action permits.
  abbrev pub is_sayable : Units → Bool
  is_sayable text =
      not (has_leak text)
      && not (
          any (is_unsupported (permitted_claim_kinds actions))
            (detect_action_claims patterns configured text))

  content-any :
      (p : ValidationViolation → Bool) (text : Units)
      → p (record { kind = instruction_leak; repairable = regenerate }) ≡ true
      → p (record { kind = unsupported_action_claim; repairable = regenerate }) ≡ true
      → any p (content_violations patterns configured channel actions text) ≡ not (is_sayable text)
  unfolding content_violations
  content-any p text e k =
      let permitted = permitted_claim_kinds actions in
      let claims = detect_action_claims patterns configured text in
      ground (
        arith,
        any-append p (leak_violations text) (claim_violations permitted claims),
        leak-any p text e,
        claims-any p permitted claims k,
      )

  markdown-any :
      (p : ValidationViolation → Bool) (text : Units)
      → p (record { kind = markdown_not_supported; repairable = transform }) ≡ false
      → any p (markdown_violations patterns configured channel actions text) ≡ false
  unfolding markdown_violations
  markdown-any p text e = ground (arith, e)

  length-any :
      (p : ValidationViolation → Bool) (text : Units)
      → p (record { kind = max_length; repairable = transform }) ≡ false
      → any p (length_violations patterns configured channel actions text) ≡ false
  unfolding length_violations
  length-any p text e = ground (arith, e)

  -- When a segment may be said: it is not blank, and with all that was said before it, it leaks nothing
  -- and claims nothing that no action of the turn permits.
  pub validate_segment-ok :
      (candidate prior_text : Units)
      → (validate_segment patterns configured channel actions candidate prior_text).ok ≡ (
          not (is_empty (trim candidate))
          && is_sayable (after_prior (trim prior_text) (trim candidate)))
  unfolding validate_segment
  validate_segment-ok candidate prior_text =
      let text = after_prior (trim prior_text) (trim candidate) in
      ground (
        arith,
        any-append (λ v. not (is_transform v.repairable))
            (content_violations patterns configured channel actions text)
            (markdown_violations patterns configured channel actions (trim candidate)),
        content-any (λ v. not (is_transform v.repairable)) text refl refl,
        markdown-any (λ v. not (is_transform v.repairable)) (trim candidate) refl,
      )

  -- When a reply is sent back to the model: it is blank, or its text as the model wrote it is not
  -- sayable or in the wrong language.
  pub validate_reply-needs_regeneration :
      (raw : Units)
      → (validate_reply patterns configured channel actions raw).needs_regeneration ≡ (
          is_empty (trim raw)
          || (not (is_sayable (trim raw)) || patterns.is_wrong_language (trim raw)))
  unfolding validate_reply
  validate_reply-needs_regeneration raw =
      let text = trim raw in
      let content = content_violations patterns configured channel actions text in
      let language : List ValidationViolation =
        language_violations patterns configured channel actions text in
      let marks = markdown_violations patterns configured channel actions text in
      let lengths =
        length_violations patterns configured channel actions
          (strip_unfit patterns configured channel actions text) in
      ground (
        arith,
        any-append (λ v. is_regenerate v.repairable) content (language ++ (marks ++ lengths)),
        any-append (λ v. is_regenerate v.repairable) language (marks ++ lengths),
        any-append (λ v. is_regenerate v.repairable) marks lengths,
        content-any (λ v. is_regenerate v.repairable) text refl refl,
        markdown-any (λ v. is_regenerate v.repairable) text refl,
        length-any (λ v. is_regenerate v.repairable)
            (strip_unfit patterns configured channel actions text) refl,
      )

  -- A reply and its first segment are judged as the model wrote them and said without their markdown: if
  -- the raw text is sayable and in the right language, and the stripped text is short enough, the stripped
  -- text is said, whatever it claims or leaks.
  pub stripped_text_unjudged :
      (raw : Units)
      → is_empty (trim raw) ≡ false
      → is_sayable (trim raw) ≡ true
      → patterns.is_wrong_language (trim raw) ≡ false
      → channel.supports_markdown ≡ false
      → patterns.has_markdown (trim raw) ≡ true
      → length (patterns.strip_markdown (trim raw)) ≤ channel.max_reply_chars
      → ((validate_reply patterns configured channel actions raw).needs_regeneration ≡ false)
        × ((validate_reply patterns configured channel actions raw).reply
            ≡ patterns.strip_markdown (trim raw))
        × ((validate_segment patterns configured channel actions raw []).ok ≡ true)
        × ((validate_segment patterns configured channel actions raw []).segment
            ≡ patterns.strip_markdown (trim raw))
  unfolding validate_reply validate_segment trim_to_sentence_boundary strip_unfit trim trim_start
      trim_end
  stripped_text_unjudged raw some_text sayable language plain marked fits = (
    validate_reply-needs_regeneration raw ∙ ground (arith, some_text, sayable, language),
    ground (arith, some_text, plain, marked, fits),
    validate_segment-ok raw [] ∙ ground (arith, some_text, sayable),
    ground (arith, some_text, plain, marked),
  )
