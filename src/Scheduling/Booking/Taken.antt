-- ===== src/Scheduling/Booking/Taken.antt =====
-- What happens to an agreed time on the hour that is taken before the booking.
use ai_receptionist.Base.{
  ℕ, String, ◌≡◌, refl, ap, ◌∙◌, true, false, ◌||◌, List, [], ◌∷◌, ◌++◌, Bool, All, keep, ◌⊎◌, ◌≢◌,
  Option, some, arith, eq_iff,
}
use ai_receptionist.Scheduling.Availability.{TimeSlot}
use ai_receptionist.Scheduling.Booking.{
  BookingDraft, BookingAction, book, is_blank, is_candidate, resolve_at, resolve_slot, commit_slot,
  picked_slot, is_none_missing, missing_fields, step_with, next_step, slot_date, slot_hour,
  slot_minute,
}

module _ (wall_clock : ℕ → ℕ) (date_text : ℕ → String) (time_text : ℕ → ℕ → String)
    (parse_time : String → Option (ℕ × Option ℕ)) where
  same_hour-is_candidate :
      (draft : BookingDraft) (other : TimeSlot) (hour : ℕ)
      → slot_date wall_clock date_text time_text parse_time other ≡ draft.date
      → slot_hour wall_clock date_text time_text parse_time other ≡ hour
      → is_candidate wall_clock date_text time_text parse_time draft hour (some 0) other ≡ true
  unfolding is_candidate
  same_hour-is_candidate draft other hour same_day same_hour = ground (
    arith,
    same_hour,
    eq_iff (slot_date wall_clock date_text time_text parse_time other) draft.date,
    same_day,
  )

  other_hour-is_candidate :
      (draft : BookingDraft) (other : TimeSlot) (hour : ℕ)
      → is_blank draft.date ≡ false
      → (slot_date wall_clock date_text time_text parse_time other ≢ draft.date)
        ⊎ (slot_hour wall_clock date_text time_text parse_time other ≢ hour)
      → is_candidate wall_clock date_text time_text parse_time draft hour (some 0) other ≡ false
  unfolding is_candidate
  other_hour-is_candidate draft other hour dated elsewhere = ground (
    arith,
    dated,
    elsewhere,
    eq_iff (slot_date wall_clock date_text time_text parse_time other) draft.date,
  )

  -- The slot is not open at the hour of the one agreed to.
  abbrev pub IsElsewhere : TimeSlot → TimeSlot → Type 0
  IsElsewhere agreed s =
      (slot_date wall_clock date_text time_text parse_time s
        ≢ slot_date wall_clock date_text time_text parse_time agreed)
      ⊎ (slot_hour wall_clock date_text time_text parse_time s
          ≢ slot_hour wall_clock date_text time_text parse_time agreed)

  -- What is not a candidate at the head of the list is passed over.
  keep-later :
      (p : TimeSlot → Bool) (earlier slots : List TimeSlot)
      → All (λ s. p s ≡ false) earlier
      → keep p (earlier ++ slots) ≡ keep p slots
  keep-later p [] slots h = refl
  keep-later p (s ∷ earlier) slots (out, h) = rw out (keep-later p earlier slots h)

  elsewhere-All :
      (draft : BookingDraft) (agreed : TimeSlot) (earlier : List TimeSlot)
      → is_blank (slot_date wall_clock date_text time_text parse_time agreed) ≡ false
      → All (IsElsewhere agreed) earlier
      → All
          (λ s.
            is_candidate wall_clock date_text time_text parse_time
              (commit_slot wall_clock date_text time_text parse_time draft agreed)
              (slot_hour wall_clock date_text time_text parse_time agreed)
              (some 0)
              s
            ≡ false)
          earlier
  unfolding commit_slot
  elsewhere-All draft agreed [] dated h = tt
  elsewhere-All draft agreed (s ∷ earlier) dated (out, h) = (
    other_hour-is_candidate (commit_slot wall_clock date_text time_text parse_time draft agreed) s _
        dated out,
    elsewhere-All draft agreed earlier dated h,
  )

  resolve_at-first :
      (draft : BookingDraft) (other : TimeSlot) (earlier rest : List TimeSlot) (want : ℕ × Option ℕ)
      → is_blank draft.date ≡ false
      → All
          (λ s.
            is_candidate wall_clock date_text time_text parse_time draft want.0 want.1 s ≡ false)
          earlier
      → is_candidate wall_clock date_text time_text parse_time draft want.0 want.1 other ≡ true
      → resolve_at wall_clock date_text time_text parse_time draft (earlier ++ other ∷ rest) want
        ≡ some other
  unfolding resolve_at
  resolve_at-first draft other earlier rest (h, m) dated out fits =
      rw
        (
          dated,
          keep-later (is_candidate wall_clock date_text time_text parse_time draft h m) earlier
              (other ∷ rest) out,
          fits,
        )
        refl

  resolve_slot-first :
      (draft : BookingDraft) (other : TimeSlot) (earlier rest : List TimeSlot) (want : ℕ × Option ℕ)
      → is_blank draft.time ≡ false
      → parse_time draft.time ≡ some want
      → is_blank draft.date ≡ false
      → All
          (λ s.
            is_candidate wall_clock date_text time_text parse_time draft want.0 want.1 s ≡ false)
          earlier
      → is_candidate wall_clock date_text time_text parse_time draft want.0 want.1 other ≡ true
      → resolve_slot wall_clock date_text time_text parse_time draft (earlier ++ other ∷ rest)
        ≡ some other
  unfolding resolve_slot
  resolve_slot-first draft other earlier rest want written parsed dated out fits =
      rw (written, parsed) (resolve_at-first draft other earlier rest want dated out fits)

  picked_slot-resolved :
      (action : BookingAction) (draft : BookingDraft) (other : TimeSlot) (slots : List TimeSlot)
      → resolve_slot wall_clock date_text time_text parse_time draft slots ≡ some other
      → picked_slot wall_clock date_text time_text parse_time action draft slots ≡ some other
  unfolding picked_slot
  picked_slot-resolved action draft other slots resolved = rw (resolved) refl

  booked_at_once :
      (action : BookingAction) (draft : BookingDraft) (other : TimeSlot) (slots : List TimeSlot)
      → draft.time_committed ≡ true
      → is_none_missing (missing_fields draft true) ≡ true
      → resolve_slot wall_clock date_text time_text parse_time draft slots ≡ some other
      → next_step wall_clock date_text time_text parse_time action false draft slots
        ≡ book (commit_slot wall_clock date_text time_text parse_time draft other) other
  unfolding next_step step_with commit_slot missing_fields
  booked_at_once action draft other slots committed known resolved =
      let agreed : (action.books || action.commits || draft.time_committed) ≡ true =
        ground (arith, committed) in
      rw (picked_slot-resolved action draft other slots resolved, agreed, known) refl

  -- An agreed time on the hour, which the parser reads back as that hour and zero minutes, is looked up
  -- again by its day and hour alone. For a visitor without an appointment whose draft is else
  -- complete, the first slot of that hour among the open ones, wherever it stands, is booked as if it
  -- had been agreed to, whatever is said in this turn: where the agreed slot is taken, another one.
  pub taken_time_replaced :
      (action : BookingAction) (draft : BookingDraft) (agreed other : TimeSlot)
      (earlier rest : List TimeSlot)
      → slot_minute wall_clock date_text time_text parse_time agreed ≡ 0
      → parse_time (time_text (slot_hour wall_clock date_text time_text parse_time agreed) 0)
        ≡ some (slot_hour wall_clock date_text time_text parse_time agreed, some 0)
      → is_blank (time_text (slot_hour wall_clock date_text time_text parse_time agreed) 0) ≡ false
      → is_blank (slot_date wall_clock date_text time_text parse_time agreed) ≡ false
      → All (IsElsewhere agreed) earlier
      → slot_date wall_clock date_text time_text parse_time other
        ≡ slot_date wall_clock date_text time_text parse_time agreed
      → slot_hour wall_clock date_text time_text parse_time other
        ≡ slot_hour wall_clock date_text time_text parse_time agreed
      → is_none_missing (missing_fields draft true) ≡ true
      → next_step wall_clock date_text time_text parse_time action false
          (commit_slot wall_clock date_text time_text parse_time draft agreed)
          (earlier ++ other ∷ rest)
        ≡ book (commit_slot wall_clock date_text time_text parse_time draft other) other
  unfolding commit_slot missing_fields
  taken_time_replaced action draft agreed other earlier rest sharp parsed written dated elsewhere
        same_day same_hour known =
      booked_at_once action committed other (earlier ++ other ∷ rest) refl known (
        resolve_slot-first committed other earlier rest
          (slot_hour wall_clock date_text time_text parse_time agreed, some 0)
          (ap (λ m. is_blank (time_text hour m)) sharp ∙ written)
          (ap (λ m. parse_time (time_text hour m)) sharp ∙ parsed) dated
          (elsewhere-All draft agreed earlier dated elsewhere)
          (same_hour-is_candidate committed other _ same_day same_hour))
    where
      committed : BookingDraft
      committed = commit_slot wall_clock date_text time_text parse_time draft agreed

      hour : ℕ
      hour = slot_hour wall_clock date_text time_text parse_time agreed
