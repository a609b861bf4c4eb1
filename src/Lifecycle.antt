-- ===== src/Lifecycle.antt =====
-- packages/lifecycle: appointments on the day and after it. The table of appointments is keyed by id;
-- failures of the database and the sending of messages are left out, and the caches of the sweep, which
-- repeat what they hold, too.
pub mod Sweep
pub mod Stale
use ai_receptionist.Base.{
  ℕ, ◌+◌, ◌*◌, ◌≡◌, String, Bool, true, false, not, leb, ltb, List, [], ◌∷◌, map, keep, take,
  Option, none, some, is_some, or_else, Dict, lookup, insert, if◌then◌else◌, sort_by, ◌&&◌,
}
use ai_receptionist.Scheduling.Status.{
  AppointmentStatus, pending, confirmed, checked_in, running_late, in_progress, cancelled,
  completed, no_show, status_in, can_transition, terminal_statuses, sweepable_statuses,
}

-- `ends_at` is `none` where the text is no date.
pub record Appointment : Type 0 where
  pub id : String
  pub business_id : String
  pub status : AppointmentStatus
  pub ends_at : Option ℕ

pub record NoShowSettings : Type 0 where
  pub auto_no_show_enabled : Bool
  pub no_show_grace_minutes : ℕ

pub data BusinessEventType : Type 0 where
  appointment_checked_in : BusinessEventType
  appointment_completed : BusinessEventType
  appointment_no_show : BusinessEventType

-- `STATUS_EVENTS`
abbrev pub status_event : AppointmentStatus → Option BusinessEventType
status_event checked_in = some appointment_checked_in
status_event completed = some appointment_completed
status_event no_show = some appointment_no_show
status_event _ = none

-- The table, whose reminders were cancelled, who was thanked, and the events, latest first.
pub record World : Type 0 where
  pub appointments : Dict Appointment
  pub reminders_cancelled : List String
  pub thanked : List String
  pub events : List (String × BusinessEventType)

-- `updateAppointmentStatus`, `none` where it throws.
unfoldable pub update_appointment_status : String → AppointmentStatus → World → Option World
update_appointment_status id to world = elim (lookup id world.appointments) [
  | none ↦ none
  | some row ↦
      some
        (record world { appointments = insert id (record row { status = to }) world.appointments })
]

-- What follows the write: reminders, the thank-you and the event.
unfoldable pub after_transition : Appointment → AppointmentStatus → World → World
after_transition appointment to world = record world {
  reminders_cancelled =
      if status_in to terminal_statuses
      then appointment.id ∷ world.reminders_cancelled
      else world.reminders_cancelled;
  thanked = if status_in to (completed ∷ []) then appointment.id ∷ world.thanked else world.thanked;
  events = elim (status_event to) [
    | none ↦ world.events
    | some event ↦ (appointment.id, event) ∷ world.events
  ];
}

-- `transition`; `appointment` is as its caller read it.
unfoldable pub transition : Appointment → AppointmentStatus → World → Option World
transition appointment to world =
    if can_transition appointment.status to
    then elim (update_appointment_status appointment.id to world) [
      | none ↦ none
      | some written ↦ some (after_transition appointment to written)
    ]
    else none

-- `isNoShowOverdue`
unfoldable pub is_no_show_overdue : Appointment → NoShowSettings → ℕ → Bool
is_no_show_overdue appointment settings now =
    if not settings.auto_no_show_enabled
    then false
    else if not (status_in appointment.status sweepable_statuses)
    then false
    else elim appointment.ends_at [
      | none ↦ false
      | some ends_at ↦ leb (ends_at + settings.no_show_grace_minutes * 60000) now
    ]

pub record SweepResult : Type 0 where
  pub swept_count : ℕ
  pub skipped : ℕ
  pub failed : ℕ

module _ (get_settings : String → NoShowSettings) (has_business : String → Bool) (now : ℕ) where
  abbrev pub count_failed : SweepResult × World → SweepResult × World
  count_failed (result, world) = (record result { failed = result.failed + 1 }, world)

  -- One candidate of the sweep.
  unfoldable pub sweep_one : Appointment → SweepResult × World → SweepResult × World
  sweep_one appointment (result, world) =
      if not (is_no_show_overdue appointment (get_settings appointment.business_id) now)
      then (record result { skipped = result.skipped + 1 }, world)
      else if not (has_business appointment.business_id)
      then count_failed (result, world)
      else elim (transition appointment no_show world) [
        | none ↦ count_failed (result, world)
        | some after ↦ (record result { swept_count = result.swept_count + 1 }, after)
      ]

  -- The loop over the candidates.
  unfoldable pub sweep_loop : List Appointment → SweepResult × World → SweepResult × World
  sweep_loop [] s = s
  sweep_loop (appointment ∷ candidates) s = sweep_loop candidates (sweep_one appointment s)

  abbrev pub has_ended : Appointment → Bool
  has_ended appointment = elim appointment.ends_at [ none ↦ false | some ends_at ↦ ltb ends_at now ]

  -- `listOverdueLiveAppointments`
  unfoldable pub list_overdue : ℕ → World → List Appointment
  list_overdue batch_size world = take batch_size (
      sort_by (λ a. or_else a.ends_at 0)
        (keep (λ a. status_in a.status sweepable_statuses && has_ended a)
          (map (λ row. row.1) world.appointments)))

  -- `sweep`
  unfoldable pub sweep : ℕ → World → SweepResult × World
  sweep batch_size world =
      sweep_loop (list_overdue batch_size world)
        (record { swept_count = 0; skipped = 0; failed = 0 }, world)
