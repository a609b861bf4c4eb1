-- ===== src/Qualification/Disposition/Outcomes.antt =====
-- When each outcome is computed.
use ai_receptionist.Base.{◌≡◌, ◌≢◌, ◌↔◌, true, false, arith}
use ai_receptionist.Qualification.Snapshot.{complete, wrong_number, do_not_call}
use ai_receptionist.Qualification.Disposition.{
  was_qualified, wants_no_calls, appointment_booked, not_interested, language_barrier,
  DispositionInput, is_truthy, is_escalated, of_conversation, of_events, disposition_of,
  compute_disposition,
}

-- A call counts as qualified exactly if the qualification is complete, no appointment was booked,
-- no person was involved or asked for, and there was at least one turn.
pub qualified_iff :
    (i : DispositionInput)
    → ((compute_disposition i).disposition ≡ was_qualified) ↔ (
        (i.snapshot.status ≡ complete)
        × (is_truthy i.appointment_id ≡ false)
        × (is_escalated i ≡ false)
        × (i.turns ≢ 0))
unfolding compute_disposition disposition_of of_events of_conversation is_escalated
qualified_iff i = ground arith

-- A booked appointment is the outcome exactly if the input names one, unless the caller asked not
-- to be called or the number was wrong, which come first.
pub appointment_booked_iff :
    (i : DispositionInput)
    → ((compute_disposition i).disposition ≡ appointment_booked) ↔ (
        (is_truthy i.appointment_id ≡ true)
        × (i.snapshot.status ≢ do_not_call)
        × (i.snapshot.status ≢ wrong_number))
unfolding compute_disposition disposition_of of_events of_conversation
appointment_booked_iff i = ground arith

-- Whatever else happened on the call, a request not to be called is the outcome exactly if the
-- qualification closed with it, and then, and only then, the result carries the flag.
pub do_not_call_wins :
    (i : DispositionInput)
    → (((compute_disposition i).disposition ≡ wants_no_calls) ↔ (i.snapshot.status ≡ do_not_call))
      × (((compute_disposition i).do_not_call ≡ true) ↔ (i.snapshot.status ≡ do_not_call))
unfolding compute_disposition disposition_of of_events of_conversation
do_not_call_wins i = ground arith

-- Two outcomes of the type are never computed: not interested, and language barrier.
pub two_outcomes_unused :
    (i : DispositionInput)
    → ((compute_disposition i).disposition ≢ not_interested)
      × ((compute_disposition i).disposition ≢ language_barrier)
unfolding compute_disposition disposition_of of_events of_conversation
two_outcomes_unused i = ground arith
