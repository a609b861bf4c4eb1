-- ===== src/Scheduling/Reminders/Life.antt =====
-- A reminder over all its runs.
use ai_receptionist.Base.{
  ℕ, ◌+◌, ◌≤◌, ◌≡◌, refl, ◌⊎◌, inl, inr, Bool, true, false, ◌&&◌, ◌||◌, not, List, [], ◌∷◌, Option,
  none, some, All, length, leb, ltb, if◌then◌else◌, arith,
}
use ai_receptionist.Scheduling.Status.{is_live}
use ai_receptionist.Scheduling.Reminders.{
  AppointmentReminder, RemindedAppointment, ReminderRun, ReminderMessage, ReminderState,
  max_attempts, is_scheduled, has_started, mark_sent, requeue_reminder, claim_reminder,
  fail_delivery, deliver, remind, process_reminder, process_due, process_runs, new_reminder,
}

-- A message was due, and its appointment was still to come.
abbrev pub IsTimely : ReminderMessage → Type 0
IsTimely m =
    (m.due_at ≤ m.at)
    × (is_live m.about.status ≡ true)
    × (has_started m.about.starts_at m.at ≡ false)

-- A row that is not being delivered: while it waits for another attempt, no message was sent.
abbrev IsKept : ReminderState → Type 0
IsKept s =
    (s.row.attempts ≤ max_attempts)
    × ((is_scheduled s.row.status ≡ false)
        ⊎ ((s.row.attempts + 1 ≤ max_attempts) × (length s.messages ≡ 0)))
    × (length s.messages ≤ 1)
    × (s.sent_count ≡ length s.messages)
    × (s.sent_count + s.skipped_count + s.failed_count ≤ s.row.attempts)
    × All IsTimely s.messages

-- A row that was just claimed.
abbrev IsClaimed : ReminderState → Type 0
IsClaimed s =
    (s.row.attempts ≤ max_attempts)
    × (is_scheduled s.row.status ≡ false)
    × (length s.messages ≡ 0)
    × (s.sent_count ≡ 0)
    × (s.sent_count + s.skipped_count + s.failed_count + 1 ≤ s.row.attempts)
    × All IsTimely s.messages

IsKept-if :
    (b : Bool) (x y : ReminderState)
    → (b ≡ true → IsKept x)
    → (b ≡ false → IsKept y)
    → IsKept (if b then x else y)
IsKept-if true x y h k = h refl
IsKept-if false x y h k = k refl

fail_delivery-IsKept :
    (run : ReminderRun) (s : ReminderState) → IsClaimed s → IsKept (fail_delivery run s)
unfolding fail_delivery requeue_reminder
fail_delivery-IsKept run s (few, claimed, quiet, none_sent, counts, timely) =
    IsKept-if (ltb s.row.attempts max_attempts) _ _ (λ e. by_write run.writes e)
      (λ e. (few, inl claimed, omega arith, omega arith, omega arith, timely))
  where
    by_write :
        (b : Bool)
        → ltb s.row.attempts max_attempts ≡ true
        → IsKept (record s {
          failed_count = s.failed_count + 1;
          row = requeue_reminder b (run.now + 600000) s.row;
        })
    by_write true e =
        (few, inr (ground arith, quiet), omega arith, omega arith, omega arith, timely)
    by_write false e = (few, inl claimed, omega arith, omega arith, omega arith, timely)

-- A claimed row whose processing ends in one more counted outcome without a message.
skipped-IsKept :
    (run : ReminderRun) (s : ReminderState)
    → IsClaimed s
    → IsKept (record s { skipped_count = s.skipped_count + 1; row = mark_sent run.writes s.row })
unfolding mark_sent
skipped-IsKept run s (few, claimed, quiet, none_sent, counts, timely) = by_write run.writes
  where
    by_write :
        (b : Bool)
        → IsKept (record s { skipped_count = s.skipped_count + 1; row = mark_sent b s.row })
    by_write true = (few, inl refl, omega arith, omega arith, omega arith, timely)
    by_write false = (few, inl claimed, omega arith, omega arith, omega arith, timely)

deliver-IsKept :
    (run : ReminderRun) (due_at : ℕ) (a : RemindedAppointment) (s : ReminderState)
    → IsTimely (record { at = run.now; due_at = due_at; about = a })
    → IsClaimed s
    → IsKept (deliver run due_at a s)
unfolding deliver mark_sent
deliver-IsKept run due_at a s in_time (few, claimed, quiet, none_sent, counts, timely) =
    IsKept-if run.delivers _ _ (λ _. by_write run.writes)
      (λ _. fail_delivery-IsKept run s (few, claimed, quiet, none_sent, counts, timely))
  where
    by_write :
        (b : Bool)
        → IsKept (record s {
          sent_count = s.sent_count + 1;
          row = mark_sent b s.row;
          messages = record { at = run.now; due_at = due_at; about = a } ∷ s.messages;
        })
    by_write true = (few, inl refl, omega arith, omega arith, omega arith, (in_time, timely))
    by_write false = (few, inl claimed, omega arith, omega arith, omega arith, (in_time, timely))

remind-IsKept :
    (run : ReminderRun) (due_at : ℕ) (a : RemindedAppointment) (s : ReminderState)
    → due_at ≤ run.now
    → IsClaimed s
    → IsKept (remind run due_at a s)
unfolding remind
remind-IsKept run due_at a s due (few, claimed, quiet, none_sent, counts, timely) =
    IsKept-if (not (is_live a.status) || has_started a.starts_at run.now) _ _
      (λ _. skipped-IsKept run s (few, claimed, quiet, none_sent, counts, timely))
      (λ ahead.
        IsKept-if _ _ _ (λ _. (few, inl claimed, omega arith, omega arith, omega arith, timely))
          (λ _.
            deliver-IsKept run due_at a s (due, ground (arith, ahead), ground (arith, ahead))
              (few, claimed, quiet, none_sent, counts, timely)))

process_reminder-IsKept :
    (run : ReminderRun) (due_at : ℕ) (a : Option (Option RemindedAppointment)) (s : ReminderState)
    → due_at ≤ run.now
    → IsClaimed s
    → IsKept (process_reminder run due_at a s)
unfolding process_reminder
process_reminder-IsKept run due_at none s due (few, claimed, quiet, none_sent, counts, timely) =
    (few, inl claimed, omega arith, omega arith, omega arith, timely)
process_reminder-IsKept run due_at (some none) s due h = skipped-IsKept run s h
process_reminder-IsKept run due_at (some (some a)) s due h = remind-IsKept run due_at a s due h

process_due-IsKept : (run : ReminderRun) (s : ReminderState) → IsKept s → IsKept (process_due run s)
unfolding process_due claim_reminder
process_due-IsKept run s (few, waits, once, sent_all, counts, timely) =
    IsKept-if (is_scheduled s.row.status && leb s.row.send_at run.now) _ _
      (λ due.
        process_reminder-IsKept run s.row.send_at run.appointment _ (ground (arith, due))
          (claim_of due waits))
      (λ _. (few, waits, once, sent_all, counts, timely))
  where
    claim_of :
        (is_scheduled s.row.status && leb s.row.send_at run.now) ≡ true
        → (is_scheduled s.row.status ≡ false)
          ⊎ ((s.row.attempts + 1 ≤ max_attempts) × (length s.messages ≡ 0))
        → IsClaimed (record s { row = claim_reminder s.row })
    claim_of due (inl other) = absurd (ground (arith, due, other))
    claim_of due (inr (left, quiet)) = (left, refl, quiet, omega arith, omega arith, timely)

process_runs-IsKept :
    (runs : List ReminderRun) (s : ReminderState) → IsKept s → IsKept (process_runs runs s)
unfolding process_runs
process_runs-IsKept [] s h = h
process_runs-IsKept (run ∷ runs) s h =
    process_runs-IsKept runs (process_due run s) (process_due-IsKept run s h)

-- Over all its runs, whatever the database, the channel and the provider answer, a new reminder is
-- attempted three times at most and sent once at most, only when due and for an appointment that is live
-- and has not started; each attempt is counted once at most, and what counts as sent was sent.
pub reminder-life :
    (row : AppointmentReminder) (runs : List ReminderRun)
    → row.attempts ≡ 0
    → ((process_runs runs (new_reminder row)).row.attempts ≤ 3)
      × (length (process_runs runs (new_reminder row)).messages ≤ 1)
      × All IsTimely (process_runs runs (new_reminder row)).messages
      × ((process_runs runs (new_reminder row)).sent_count
          ≡ length (process_runs runs (new_reminder row)).messages)
      × ((process_runs runs (new_reminder row)).sent_count
            + (process_runs runs (new_reminder row)).skipped_count
            + (process_runs runs (new_reminder row)).failed_count
          ≤ (process_runs runs (new_reminder row)).row.attempts)
reminder-life row runs fresh =
    let (few, waits, once, sent_all, counts, timely) =
      process_runs-IsKept runs (new_reminder row)
        (omega arith, inr (omega arith, refl), omega arith, refl, omega arith, tt) in
    (few, once, timely, sent_all, counts)
