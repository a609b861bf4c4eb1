-- ===== src/Examples/Outreach.antt =====
-- Properties of reminders and campaigns at concrete input.
use ai_receptionist.Base.{
  ℕ, String, ◌≡◌, refl, ◌≤◌, ◌+◌, Bool, true, false, if◌then◌else◌, ◌=ˢ◌, List, [], ◌∷◌, Option,
  none, some, All, length, arith,
}
use ai_receptionist.Scheduling.Status.{confirmed}
use ai_receptionist.Scheduling.Reminders.{
  email, scheduled, AppointmentReminder, RemindedAppointment, ReminderRun, ReminderState,
  process_runs, new_reminder,
}
use ai_receptionist.Scheduling.Reminders.Life.{IsTimely, reminder-life}
use ai_receptionist.Campaigns.{ClaimedContact, DialResult, accepted, dispatch}
use ai_receptionist.Campaigns.Dispatch.{IsBatch, dispatch-IsBatch}

abbrev row : AppointmentReminder
row = record {
  id = 1;
  appointment_id = "a";
  business_id = "b";
  channel = email;
  send_at = 1000;
  status = scheduled;
  attempts = 0;
}

abbrev visit : RemindedAppointment
visit = record {
  status = confirmed;
  starts_at = some 9000000;
  visitor_email = "v@example.com";
  visitor_phone = "";
}

abbrev run_at : ℕ → Bool → ReminderRun
run_at now delivers = record {
  now = now;
  appointment = some (some visit);
  supports = λ channel. true;
  delivers = delivers;
  writes = true;
}

-- The first delivery fails, the second comes before the backoff is over, the third is delivered.
abbrev runs : List ReminderRun
runs = run_at 2000 false ∷ run_at 3000 true ∷ run_at 700000 true ∷ run_at 800000 true ∷ []

abbrev reminded : ReminderState
reminded = process_runs runs (new_reminder row)

reminder-life_example :
    (reminded.row.attempts ≤ 3)
    × (length reminded.messages ≤ 1)
    × All IsTimely reminded.messages
    × (reminded.sent_count ≡ length reminded.messages)
    × (reminded.sent_count + reminded.skipped_count + reminded.failed_count ≤ reminded.row.attempts)
reminder-life_example = reminder-life row runs refl

abbrev contact : String → ClaimedContact
contact id = record {
  id = id;
  business_id = "b";
  campaign_id = "c";
  customer_id = id;
  agent_id = "g";
  agent_version_id = "v";
  from_number = "1";
  to_number = "2";
  attempt = 1;
}

-- The dialer throws for the second contact.
abbrev leave : ClaimedContact → Option Bool
leave c = some true

abbrev dial : ClaimedContact → Option DialResult
dial c = if c.id =ˢ "x" then some (accepted "p") else none

abbrev settles : ClaimedContact → DialResult → Bool
settles c r = true

abbrev batch : List ClaimedContact
batch = contact "x" ∷ contact "y" ∷ []

abbrev claim : ℕ → Option (List ClaimedContact)
claim limit = some batch

dispatch-IsBatch_example :
    IsBatch leave dial settles "b" "c" batch
      (record { claimed = 2; accepted_count = 0; uncertain_count = 0 })
      (dispatch leave dial settles "b" "c" claim 10)
dispatch-IsBatch_example =
    dispatch-IsBatch leave dial settles "b" "c" batch claim 10 refl refl (omega arith) (omega arith)
      refl
