-- ===== src/Qualification/Engine/Rules/Returns.antt =====
-- When `applyUtterance` returns early: only with an ended call.
use ai_receptionist.Base.{◌≡◌, String, Bool, true, false, Option, none, some, arith, if◌then◌else◌}
use ai_receptionist.Qualification.Snapshot.{QualificationField, FieldValue, Progress, is_terminal}
use ai_receptionist.Qualification.Engine.{
  Answer, returns, goes_on, unless_terminal, answer_confirmation, answer_question, clarify_with,
  clarify, affirm, correct, deny, move_on, revise,
}

-- Only an ended call makes `applyUtterance` return early.
unfoldable pub EndsIfReturns : Answer → Type 0
EndsIfReturns a = (p : Progress) → a ≡ returns p → is_terminal p.0.status ≡ true

unless_terminal-EndsIfReturns : (p : Progress) (c : Bool) → EndsIfReturns (unless_terminal p c)
unfolding EndsIfReturns
unless_terminal-EndsIfReturns p c q e = ground arith

revise-EndsIfReturns :
    (f : QualificationField) (denied : Bool) (o : Option FieldValue) (p : Progress)
    → EndsIfReturns (revise f denied o p)
unfolding EndsIfReturns revise correct deny move_on
revise-EndsIfReturns f denied o p q e = ground arith

pub EndsIfReturns-if :
    (b : Bool) (x y : Answer)
    → EndsIfReturns x
    → EndsIfReturns y
    → EndsIfReturns (if b then x else y)
EndsIfReturns-if true x y h k = h
EndsIfReturns-if false x y h k = k

clarify_with-EndsIfReturns :
    (f : QualificationField) (o : Option FieldValue) (p : Progress)
    → EndsIfReturns (clarify_with f o p)
unfolding EndsIfReturns clarify_with clarify
clarify_with-EndsIfReturns f none p q e = ground arith
clarify_with-EndsIfReturns f (some v) p q e = ground arith

affirm-EndsIfReturns : (f : QualificationField) (p : Progress) → EndsIfReturns (affirm f p)
unfolding affirm
affirm-EndsIfReturns f p = unless_terminal-EndsIfReturns _ true

pub goes_on-EndsIfReturns : (p : Progress) (c : Bool) → EndsIfReturns (goes_on p c)
unfolding EndsIfReturns
goes_on-EndsIfReturns p c q e = ground arith

pub answer_confirmation-EndsIfReturns :
    (f : QualificationField) (a d : Bool) (o : Option FieldValue) (p : Progress)
    → EndsIfReturns (answer_confirmation f a d o p)
unfolding answer_confirmation
answer_confirmation-EndsIfReturns f a d o p =
    EndsIfReturns-if _ _ _ (clarify_with-EndsIfReturns f _ p) (
      EndsIfReturns-if _ _ _ (affirm-EndsIfReturns f p)
        (EndsIfReturns-if _ _ _ (goes_on-EndsIfReturns _ true) (revise-EndsIfReturns f d _ p)))

pub answer_question-EndsIfReturns :
    (f : QualificationField) (d : Bool) (said : String) (o : Option FieldValue) (p : Progress)
    → EndsIfReturns (answer_question f d said o p)
unfolding EndsIfReturns answer_question
answer_question-EndsIfReturns f d said o p q e = ground arith
