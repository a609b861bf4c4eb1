-- ===== src/Qualification/Disposition.antt =====
-- packages/qualification/disposition.ts: the business outcome of a call. The reason's texts are
-- constructors of their own, with what they quote; an appointment id "" counts as none where the
-- source tests it.
pub mod Outcomes
use ai_receptionist.Base.{
  ℕ, String, Bool, true, false, not, ◌&&◌, ◌||◌, List, [], ◌∷◌, Option, none, some, if◌then◌else◌,
  ◌=ˢ◌, ◌==◌,
}
use ai_receptionist.Qualification.Snapshot.{
  QualificationSnapshot, QualificationStatus, complete, disqualified, callback_requested,
  wrong_number, do_not_call,
}

pub data CallDisposition : Type 0 where
  was_qualified not_qualified wants_callback not_interested was_wrong_number language_barrier :
      CallDisposition
  wants_no_calls appointment_booked escalated_to_human no_outcome : CallDisposition

pub record DispositionInput : Type 0 where
  pub snapshot : QualificationSnapshot
  pub appointment_id : Option String
  pub transferred : Bool
  pub escalation_requested : Bool
  pub turns : ℕ

pub data Reason : Type 0 where
  not_to_be_contacted not_the_contact handed_over later person_requested : Reason
  no_exchange nothing_collected ended_early : Reason
  disqualified_for : String → Reason
  unresolved_fields : List String → Reason

pub record DispositionResult : Type 0 where
  pub disposition : CallDisposition
  pub reason : Option Reason
  pub escalated : Bool
  pub do_not_call : Bool
  pub appointment_id : Option String

abbrev pub is_do_not_call : QualificationStatus → Bool
is_do_not_call do_not_call = true
is_do_not_call _ = false

-- A text that is not empty is true.
abbrev pub is_truthy : Option String → Bool
is_truthy none = false
is_truthy (some id) = not (id =ˢ "")

abbrev pub disqualified_reason : Option String → Option Reason
disqualified_reason none = none
disqualified_reason (some r) = some (disqualified_for r)

abbrev pub incomplete_reason : List String → Reason
incomplete_reason [] = ended_early
incomplete_reason (id ∷ ids) = unresolved_fields (id ∷ ids)

abbrev pub no_fields {ℓ} : {A : Type ℓ} → List A → Bool
no_fields [] = true
no_fields (x ∷ xs) = false

unfoldable pub is_escalated : DispositionInput → Bool
is_escalated i = i.transferred || (i.escalation_requested || i.snapshot.human_requested)

-- From the test of `turns` to the end.
unfoldable pub of_conversation : DispositionInput → CallDisposition × Option Reason
of_conversation i =
    if i.turns == 0 then (no_outcome, some no_exchange) else of_status i.snapshot.status
  where
    of_status : QualificationStatus → CallDisposition × Option Reason
    of_status complete = (was_qualified, none)
    of_status _ =
        if no_fields i.snapshot.fields
        then (no_outcome, some nothing_collected)
        else (not_qualified, some (incomplete_reason i.snapshot.unresolved))

-- The chain of early returns after the two statuses that come first.
unfoldable pub of_events : DispositionInput → CallDisposition × Option Reason
of_events i =
    if is_truthy i.appointment_id
    then (appointment_booked, none)
    else if i.transferred
    then (escalated_to_human, some handed_over)
    else of_status i.snapshot.status
  where
    of_status : QualificationStatus → CallDisposition × Option Reason
    of_status callback_requested = (wants_callback, some later)
    of_status disqualified = (not_qualified, disqualified_reason i.snapshot.disqualified_reason)
    of_status _ =
        if is_escalated i then (escalated_to_human, some person_requested) else of_conversation i

unfoldable pub disposition_of :
    DispositionInput → QualificationStatus → CallDisposition × Option Reason
disposition_of i do_not_call = (wants_no_calls, some not_to_be_contacted)
disposition_of i wrong_number = (was_wrong_number, some not_the_contact)
disposition_of i _ = of_events i

unfoldable pub compute_disposition : DispositionInput → DispositionResult
compute_disposition i =
    let found = disposition_of i i.snapshot.status in
    record {
      disposition = found.0;
      reason = found.1;
      escalated = is_escalated i;
      do_not_call = is_do_not_call i.snapshot.status;
      appointment_id = i.appointment_id;
    }
