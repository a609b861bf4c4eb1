-- ===== src/Examples/Lifecycle.antt =====
-- The no-show sweep at concrete input.
use ai_receptionist.Base.{
  ◌≡◌, refl, String, Bool, true, List, map, [], ◌∷◌, some, Dict, lookup, sort_by, insert_by, All,
  length,
}
use ai_receptionist.Scheduling.Status.{
  AppointmentStatus, pending, checked_in, confirmed, completed, no_show, can_transition, status_in,
  status_eq, AppointmentStatus-discrete,
}
use ai_receptionist.Lifecycle.{Appointment, NoShowSettings, World, list_overdue, sweep}
use ai_receptionist.Lifecycle.Sweep.{SweptOnly, handled, sweep-SweptOnly, pending_batch_blocks}
use ai_receptionist.Lifecycle.Stale.{requests, last_allowed, stale_requests_overwrite}

abbrev opted_in : String → NoShowSettings
opted_in business_id = record { auto_no_show_enabled = true; no_show_grace_minutes = 30 }

abbrev listed : String → Bool
listed business_id = true

abbrev visit : String → AppointmentStatus → Appointment
visit id status = record { id = id; business_id = "b"; status = status; ends_at = some 1000 }

abbrev table : Dict Appointment → World
table appointments = record {
  appointments = appointments;
  reminders_cancelled = [];
  thanked = [];
  events = [];
}

abbrev two_visits : World
two_visits = table (("x", visit "x" confirmed) ∷ ("y", visit "y" completed) ∷ [])

sweep-SweptOnly_example :
    SweptOnly opted_in listed 9000000
      (list_overdue opted_in listed 9000000 100 two_visits)
      "x"
      two_visits.appointments
      (sweep opted_in listed 9000000 100 two_visits).1.appointments
    × (handled (sweep opted_in listed 9000000 100 two_visits).0
        ≡ length (list_overdue opted_in listed 9000000 100 two_visits))
sweep-SweptOnly_example = sweep-SweptOnly opted_in listed 9000000 100 two_visits "x"

abbrev waiting : World
waiting = table (("x", visit "x" pending) ∷ ("y", visit "y" confirmed) ∷ [])

-- The batch has room for one.
waiting_batch : All (λ a. a.status ≡ pending) (list_overdue opted_in listed 9000000 1 waiting)
unfolding list_overdue sort_by insert_by status_in status_eq AppointmentStatus-discrete
waiting_batch = (refl, tt)

pending_batch_blocks_example : (sweep opted_in listed 9000000 1 waiting).1 ≡ waiting
pending_batch_blocks_example = pending_batch_blocks opted_in listed 9000000 1 waiting waiting_batch

stored : lookup "y" two_visits.appointments ≡ some (visit "y" completed)
unfolding lookup
stored = refl

-- All read it as confirmed, and it was completed since. The second request is refused.
abbrev asked_for : List AppointmentStatus
asked_for = checked_in ∷ pending ∷ no_show ∷ []

stale_requests_overwrite_example :
    ((requests (visit "y" confirmed) asked_for two_visits).0
      ≡ map (can_transition confirmed) asked_for)
    × (lookup "y" (requests (visit "y" confirmed) asked_for two_visits).1.appointments
        ≡ some (visit "y" (last_allowed confirmed completed asked_for)))
stale_requests_overwrite_example =
    stale_requests_overwrite (visit "y" confirmed) (visit "y" completed) asked_for two_visits stored
