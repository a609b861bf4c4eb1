-- ===== src/Scheduling/Status.antt =====
-- packages/scheduling/appointment-state.ts: the state machine of an appointment.
pub mod Lifetime
use ai_receptionist.Base.{Bool, true, false, ◌||◌, List, [], ◌∷◌, any, holds}

pub data AppointmentStatus : Type 0 where
  pending confirmed checked_in running_late in_progress cancelled completed no_show :
      AppointmentStatus

unfoldable pub AppointmentStatus-discrete : Discrete AppointmentStatus
AppointmentStatus-discrete = hlevel

-- `a === b`
unfoldable pub status_eq : AppointmentStatus → AppointmentStatus → Bool
unfolding AppointmentStatus-discrete
status_eq a b = holds (AppointmentStatus-discrete a b)

unfoldable pub status_in : AppointmentStatus → List AppointmentStatus → Bool
unfolding status_eq
status_in s l = any (λ t. status_eq t s) l

-- `TRANSITIONS`
unfoldable pub transitions : AppointmentStatus → List AppointmentStatus
transitions pending = confirmed ∷ cancelled ∷ []
transitions confirmed =
    checked_in ∷ running_late ∷ in_progress ∷ completed ∷ cancelled ∷ no_show ∷ []
transitions running_late = checked_in ∷ in_progress ∷ completed ∷ cancelled ∷ no_show ∷ []
transitions checked_in = in_progress ∷ completed ∷ cancelled ∷ []
transitions in_progress = completed ∷ cancelled ∷ []
transitions cancelled = []
transitions completed = []
transitions no_show = []

abbrev pub active_statuses : List AppointmentStatus
active_statuses = pending ∷ confirmed ∷ checked_in ∷ running_late ∷ in_progress ∷ []

abbrev pub terminal_statuses : List AppointmentStatus
terminal_statuses = cancelled ∷ completed ∷ no_show ∷ []

abbrev pub sweepable_statuses : List AppointmentStatus
sweepable_statuses = pending ∷ confirmed ∷ running_late ∷ []

unfoldable pub can_transition : AppointmentStatus → AppointmentStatus → Bool
unfolding status_in transitions
can_transition from to = status_in to (transitions from)

unfoldable pub is_live : AppointmentStatus → Bool
unfolding status_eq
is_live s = status_eq s pending || status_eq s confirmed || status_eq s running_late

unfoldable pub is_in_flight : AppointmentStatus → Bool
unfolding status_eq
is_in_flight s = status_eq s checked_in || status_eq s running_late || status_eq s in_progress
