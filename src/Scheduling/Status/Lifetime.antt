-- ===== src/Scheduling/Status/Lifetime.antt =====
-- What the transition table of an appointment guarantees over its whole life.
use ai_receptionist.Base.{
  ℕ, ◌+◌, ◌≤◌, ◌<◌, ◌≡◌, refl, ◌↔◌, ◌⊎◌, Bool, true, false, not, List, [], ◌∷◌, arith, length,
}
use ai_receptionist.Scheduling.Status.{
  AppointmentStatus, pending, confirmed, checked_in, running_late, in_progress, cancelled,
  completed, no_show, status_in, active_statuses, terminal_statuses, sweepable_statuses,
  can_transition, is_live, is_in_flight,
}

-- The statuses after the first one of a life, each by one legal transition.
pub data Life : AppointmentStatus → List AppointmentStatus → AppointmentStatus → Type 0 where
  ended : {s : AppointmentStatus} → Life s [] s
  moved :
      {s t u : AppointmentStatus} {l : List AppointmentStatus}
      → can_transition s t ≡ true
      → Life t l u
      → Life s (t ∷ l) u

-- How many transitions are left at most.
left : AppointmentStatus → ℕ
left pending = 5
left confirmed = 4
left running_late = 3
left checked_in = 2
left in_progress = 1
left _ = 0

left_falls : (s t : AppointmentStatus) → can_transition s t ≡ true → left t < left s
unfolding left can_transition
left_falls s t h = ground arith

Life-length :
    {s u : AppointmentStatus} {l : List AppointmentStatus} → Life s l u → length l + left u ≤ left s
Life-length ended = omega arith
Life-length (moved {s} {t} h r) = omega (arith, left_falls s t h, Life-length r)

left_max : (s : AppointmentStatus) → left s ≤ 5
unfolding left
left_max s = ground arith

-- An appointment, whatever its status, makes at most five legal transitions in the rest of its life.
pub Life-length-le :
    {s u : AppointmentStatus} {l : List AppointmentStatus} → Life s l u → length l ≤ 5
Life-length-le {s} r = omega (arith, Life-length r, left_max s)

-- A status has no legal transition at all exactly when it is one of the terminal ones; and exactly
-- the statuses that are not terminal are active, that is, hold their time slot.
pub terminal_iff_stuck :
    (s : AppointmentStatus)
    → ((status_in s terminal_statuses ≡ true)
        ↔ ((t : AppointmentStatus) → can_transition s t ≡ false))
      × (status_in s active_statuses ≡ not (status_in s terminal_statuses))
unfolding can_transition status_in
terminal_iff_stuck pending = (((λ h. ground arith), (λ h. ground (arith, h cancelled))), refl)
terminal_iff_stuck confirmed = (((λ h. ground arith), (λ h. ground (arith, h cancelled))), refl)
terminal_iff_stuck checked_in = (((λ h. ground arith), (λ h. ground (arith, h cancelled))), refl)
terminal_iff_stuck running_late = (((λ h. ground arith), (λ h. ground (arith, h cancelled))), refl)
terminal_iff_stuck in_progress = (((λ h. ground arith), (λ h. ground (arith, h cancelled))), refl)
terminal_iff_stuck cancelled = (((λ h t. refl), (λ h. refl)), refl)
terminal_iff_stuck completed = (((λ h t. refl), (λ h. refl)), refl)
terminal_iff_stuck no_show = (((λ h t. refl), (λ h. refl)), refl)

abbrev pub Arrived : AppointmentStatus → Type 0
Arrived s = (s ≡ checked_in) ⊎ ((s ≡ in_progress) ⊎ (s ≡ completed))

-- `Arrived`, and what it may become
settled : AppointmentStatus → Bool
settled checked_in = true
settled in_progress = true
settled completed = true
settled cancelled = true
settled _ = false

settled_stays :
    (s t : AppointmentStatus) → settled s ≡ true → can_transition s t ≡ true → settled t ≡ true
unfolding settled can_transition
settled_stays s t h k = ground arith

Life-settled :
    {s u : AppointmentStatus} {l : List AppointmentStatus}
    → settled s ≡ true
    → Life s l u
    → settled u ≡ true
Life-settled h ended = h
Life-settled h (moved {s} {t} k r) = Life-settled (settled_stays s t h k) r

-- A visitor who was checked in, is being seen or was seen never becomes a no-show, by no sequence
-- of legal transitions.
pub Arrived-never_no_show :
    {s : AppointmentStatus} {l : List AppointmentStatus} → Arrived s → ¬ Life s l no_show
unfolding settled
Arrived-never_no_show a r = ground (arith, Life-settled (ground arith) r)

-- The visitor can still change an appointment (it is live) exactly when it is active and the
-- visitor has not arrived, and each such appointment may be cancelled. The day-of statuses are the
-- active ones but pending and confirmed.
pub live_in_flight_cover :
    (s : AppointmentStatus)
    → ((is_live s ≡ false) ⊎ (can_transition s cancelled ≡ true))
      × (is_live s ≡ status_in s sweepable_statuses)
      × ((status_in s active_statuses ≡ true) ↔ ((is_live s ≡ true) ⊎ (is_in_flight s ≡ true)))
unfolding is_live is_in_flight can_transition status_in
live_in_flight_cover s = ground arith

-- Of the statuses that the no-show sweep may act on, pending is the one, and the only one, from
-- which no_show is not a legal transition.
pub sweepable_but_stuck_iff :
    (s : AppointmentStatus)
    → ((status_in s sweepable_statuses ≡ true) × (can_transition s no_show ≡ false)) ↔ (s ≡ pending)
unfolding can_transition status_in
sweepable_but_stuck_iff s = ground arith
