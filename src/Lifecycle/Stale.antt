-- ===== src/Lifecycle/Stale.antt =====
-- packages/lifecycle/lifecycle-service.ts: transitions by callers who read the appointment earlier, as the
-- sweep and the dashboard do.
use ai_receptionist.Base.{
  ◌≡◌, refl, Bool, true, false, List, [], ◌∷◌, Option, none, some, lookup, lookup-insert, eq_refl,
  map, arith, if◌then◌else◌, Bool-cases, inl, inr,
}
use ai_receptionist.Scheduling.Status.{AppointmentStatus, can_transition}
use ai_receptionist.Lifecycle.{
  Appointment, World, update_appointment_status, after_transition, transition,
}

-- A request that throws changes nothing.
abbrev pub answered : World → Option World → Bool × World
answered world none = (false, world)
answered world (some after) = (true, after)

-- Callers who all read the same appointment ask, one after the other, for these statuses: which of them
-- succeed, and the table after.
abbrev pub requests : Appointment → List AppointmentStatus → World → List Bool × World
requests appointment [] world = ([], world)
requests appointment (to ∷ tos) world =
    let (fine, after) = answered world (transition appointment to world) in
    let (later, last) = requests appointment tos after in (fine ∷ later, last)

-- The last of the statuses that the transition table allows from the one that was read, else the
-- stored one.
abbrev pub last_allowed :
    AppointmentStatus → AppointmentStatus → List AppointmentStatus → AppointmentStatus
last_allowed read stored [] = stored
last_allowed read stored (to ∷ tos) =
    last_allowed read (if can_transition read to then to else stored) tos

-- One request, by the status that was read alone.
transition-answered :
    (appointment row : Appointment) (to : AppointmentStatus) (world : World)
    → lookup appointment.id world.appointments ≡ some row
    → let (fine, after) = answered world (transition appointment to world) in
      (fine ≡ can_transition appointment.status to)
      × (lookup appointment.id after.appointments
          ≡ some (record row {
            status = if can_transition appointment.status to then to else row.status;
          }))
unfolding transition update_appointment_status after_transition
transition-answered appointment row to world known =
    elim (Bool-cases (can_transition appointment.status to)) [
      | inr illegal ↦ rw illegal (refl, known)
      | inl legal ↦
          let found =
            lookup-insert appointment.id appointment.id (record row { status = to })
              world.appointments in
          rw (legal, known) (refl, ground (arith, found, eq_refl appointment.id))
    ]

-- A transition looks at the status its caller read and never at the stored one. Of any number of callers
-- who read the same appointment of the table before the first of them writes, exactly those succeed
-- whose status is a legal transition from the one that was read, and the last of these is what is
-- stored, whatever the stored status was and whether or not it follows from those in between.
pub stale_requests_overwrite :
    (appointment row : Appointment) (tos : List AppointmentStatus) (world : World)
    → lookup appointment.id world.appointments ≡ some row
    → ((requests appointment tos world).0 ≡ map (can_transition appointment.status) tos)
      × (lookup appointment.id (requests appointment tos world).1.appointments
          ≡ some (record row { status = last_allowed appointment.status row.status tos }))
stale_requests_overwrite appointment row [] world known = (refl, known)
stale_requests_overwrite appointment row (to ∷ tos) world known =
    let (fine, stored) = transition-answered appointment row to world known in
    let (later, last) =
      stale_requests_overwrite appointment
        (record row { status = if can_transition appointment.status to then to else row.status })
        tos (answered world (transition appointment to world)).1 stored in
    (rw (fine, later) refl, last)
