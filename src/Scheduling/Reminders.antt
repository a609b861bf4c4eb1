-- ===== src/Scheduling/Reminders.antt =====
-- packages/scheduling/reminder-service.ts and the reminder methods of
-- packages/scheduling/scheduling-repository.ts, for one row of the table over its runs: each run claims the
-- row if it is due (supabase/migrations/0008_appointments.sql) and processes it. What the other services
-- answer in a run is given with the run. Without texts of errors and analytics.
pub mod Life
use ai_receptionist.Base.{
  ℕ, ◌+◌, leb, ltb, String, Bool, true, false, ◌&&◌, ◌||◌, not, ◌=ˢ◌, List, [], ◌∷◌, Option, none,
  some, if◌then◌else◌,
}
use ai_receptionist.Scheduling.Status.{AppointmentStatus, is_live}

pub data ReminderChannel : Type 0 where
  sms : ReminderChannel
  whatsapp : ReminderChannel
  email : ReminderChannel

pub data ReminderStatus : Type 0 where
  scheduled : ReminderStatus
  sent : ReminderStatus
  failed : ReminderStatus
  cancelled : ReminderStatus

pub record AppointmentReminder : Type 0 where
  pub id : ℕ
  pub appointment_id : String
  pub business_id : String
  pub channel : ReminderChannel
  pub send_at : ℕ
  pub status : ReminderStatus
  pub attempts : ℕ

-- What is read of an appointment; a start that cannot be parsed is `none`.
pub record RemindedAppointment : Type 0 where
  pub status : AppointmentStatus
  pub starts_at : Option ℕ
  pub visitor_email : String
  pub visitor_phone : String

-- What a run finds: `appointment` is `none` where the query throws, `delivers` whether the settings are
-- read and the provider answers (one that throws is taken as not having sent), `writes` whether the database takes the update of the row.
pub record ReminderRun : Type 0 where
  pub now : ℕ
  pub appointment : Option (Option RemindedAppointment)
  pub supports : ReminderChannel → Bool
  pub delivers : Bool
  pub writes : Bool

-- A message that was sent: when, for which due time, about what.
pub record ReminderMessage : Type 0 where
  pub at : ℕ
  pub due_at : ℕ
  pub about : RemindedAppointment

pub record ReminderState : Type 0 where
  pub row : AppointmentReminder
  pub messages : List ReminderMessage
  pub sent_count : ℕ
  pub skipped_count : ℕ
  pub failed_count : ℕ

abbrev pub max_attempts : ℕ
max_attempts = 3

-- Ten minutes.
abbrev pub retry_backoff_ms : ℕ
retry_backoff_ms = 600000

abbrev pub is_scheduled : ReminderStatus → Bool
is_scheduled scheduled = true
is_scheduled _ = false

abbrev pub destination : ReminderChannel → RemindedAppointment → String
destination email a = a.visitor_email
destination sms a = a.visitor_phone
destination whatsapp a = a.visitor_phone

abbrev pub has_started : Option ℕ → ℕ → Bool
has_started none now = false
has_started (some start) now = leb start now

-- An update that the database may not take; the failure is only logged.
abbrev pub written : Bool → AppointmentReminder → AppointmentReminder → AppointmentReminder
written true new old = new
written false new old = old

unfoldable pub mark_sent : Bool → AppointmentReminder → AppointmentReminder
mark_sent writes row = written writes (record row { status = sent }) row

unfoldable pub requeue_reminder : Bool → ℕ → AppointmentReminder → AppointmentReminder
requeue_reminder writes send_at row =
    written writes (record row { status = scheduled; send_at = send_at }) row

-- The row that `claim_due_reminders` hands out.
unfoldable pub claim_reminder : AppointmentReminder → AppointmentReminder
claim_reminder row = record row { status = failed; attempts = row.attempts + 1 }

unfoldable pub fail_delivery : ReminderRun → ReminderState → ReminderState
fail_delivery run s =
    if ltb s.row.attempts max_attempts
    then record s {
      failed_count = s.failed_count + 1;
      row = requeue_reminder run.writes (run.now + retry_backoff_ms) s.row;
    }
    else record s { failed_count = s.failed_count + 1 }

-- The `try` block; `due_at` is when the row was due.
unfoldable pub deliver : ReminderRun → ℕ → RemindedAppointment → ReminderState → ReminderState
deliver run due_at appointment s =
    if run.delivers
    then record s {
      sent_count = s.sent_count + 1;
      row = mark_sent run.writes s.row;
      messages = record { at = run.now; due_at = due_at; about = appointment } ∷ s.messages;
    }
    else fail_delivery run s

-- The body of the loop for an appointment that was found.
unfoldable pub remind : ReminderRun → ℕ → RemindedAppointment → ReminderState → ReminderState
remind run due_at appointment s =
    if not (is_live appointment.status) || has_started appointment.starts_at run.now
    then record s { skipped_count = s.skipped_count + 1; row = mark_sent run.writes s.row }
    else if destination s.row.channel appointment =ˢ "" || not (run.supports s.row.channel)
    then record s { failed_count = s.failed_count + 1 }
    else deliver run due_at appointment s

-- Where the query throws, the run ends and the row stays claimed.
unfoldable pub process_reminder :
    ReminderRun → ℕ → Option (Option RemindedAppointment) → ReminderState → ReminderState
process_reminder run due_at none s = s
process_reminder run due_at (some none) s = record s {
  skipped_count = s.skipped_count + 1;
  row = mark_sent run.writes s.row;
}
process_reminder run due_at (some (some appointment)) s = remind run due_at appointment s

-- One run of `processDue`.
unfoldable pub process_due : ReminderRun → ReminderState → ReminderState
process_due run s =
    if is_scheduled s.row.status && leb s.row.send_at run.now
    then process_reminder run s.row.send_at run.appointment
        (record s { row = claim_reminder s.row })
    else s

unfoldable pub process_runs : List ReminderRun → ReminderState → ReminderState
process_runs [] s = s
process_runs (run ∷ runs) s = process_runs runs (process_due run s)

abbrev pub new_reminder : AppointmentReminder → ReminderState
new_reminder row = record {
  row = row;
  messages = [];
  sent_count = 0;
  skipped_count = 0;
  failed_count = 0;
}
