-- ===== src/Examples/Dispositions.antt =====
-- Properties of the computed outcome at concrete input: a call with everything answered.
use ai_receptionist.Base.{false, none}
use ai_receptionist.Qualification.Snapshot.{complete, empty_snapshot}
use ai_receptionist.Qualification.Disposition.{DispositionInput}

abbrev answered_call : DispositionInput
answered_call = record {
  snapshot = record empty_snapshot { status = complete };
  appointment_id = none;
  transferred = false;
  escalation_requested = false;
  turns = 3;
}
