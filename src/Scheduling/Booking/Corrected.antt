-- ===== src/Scheduling/Booking/Corrected.antt =====
-- A corrected day or time is not booked before the visitor agrees again.
use ai_receptionist.Base.{
  ℕ, String, ◌≡◌, refl, Bool, true, false, ◌&&◌, ◌||◌, List, Option, none, some, ◌=ˢ◌,
  if◌then◌else◌, arith,
}
use ai_receptionist.Scheduling.Availability.{TimeSlot}
use ai_receptionist.Scheduling.Booking.{
  BookingDraft, BookingDraftPatch, BookingAction, ask, merge_draft, picked_slot, committed_draft,
  missing_fields, step_with, next_step,
}

merge_draft-committed :
    (trim : String → String) (draft : BookingDraft) (patch : BookingDraftPatch)
    → patch.time_committed ≡ none
    → ((merge_draft trim draft patch).date =ˢ draft.date
        && (merge_draft trim draft patch).time =ˢ draft.time)
      ≡ false
    → (merge_draft trim draft patch).time_committed ≡ false
unfolding merge_draft
merge_draft-committed trim draft patch e changed = ground (arith, e, changed)

module _ (wall_clock : ℕ → ℕ) (date_text : ℕ → String) (time_text : ℕ → ℕ → String)
    (parse_time : String → Option (ℕ × Option ℕ)) where
  uncommitted-ask :
      (action : BookingAction) (existing : Bool) (draft : BookingDraft) (slots : List TimeSlot)
      → (action.books || action.commits) ≡ false
      → draft.time_committed ≡ false
      → next_step wall_clock date_text time_text parse_time action existing draft slots
        ≡ ask draft (missing_fields draft false)
  unfolding next_step step_with
  uncommitted-ask action existing draft slots silent loose =
      by_picked (picked_slot wall_clock date_text time_text parse_time action draft slots)
        (action.books || action.commits || draft.time_committed) (ground (arith, silent, loose))
    where
      unslotted :
          (b : Bool) (o : Option TimeSlot)
          → b ≡ false
          → step_with existing draft (if b then o else none)
            ≡ ask draft (missing_fields draft false)
      unslotted true o e = cc
      unslotted false o e = refl

      by_picked :
          (o : Option TimeSlot) (agreed : Bool)
          → agreed ≡ false
          → step_with existing
              (committed_draft wall_clock date_text time_text parse_time agreed draft o)
              (if (committed_draft wall_clock date_text time_text parse_time agreed draft
                  o).time_committed
                then o
                else none)
            ≡ ask draft (missing_fields draft false)
      by_picked o true a = cc
      by_picked none false a = unslotted draft.time_committed none loose
      by_picked (some s) false a = unslotted draft.time_committed (some s) loose

  -- After a message that changes the draft's day or time, nothing is booked in the turn unless the visitor
  -- agrees in it: whatever is open, the turn asks for what is missing, the time among it.
  pub corrected_time_unbooked :
      (trim : String → String) (action : BookingAction) (existing : Bool) (draft : BookingDraft)
      (patch : BookingDraftPatch) (slots : List TimeSlot)
      → (action.books || action.commits) ≡ false
      → patch.time_committed ≡ none
      → ((merge_draft trim draft patch).date =ˢ draft.date
          && (merge_draft trim draft patch).time =ˢ draft.time)
        ≡ false
      → next_step wall_clock date_text time_text parse_time action existing
          (merge_draft trim draft patch)
          slots
        ≡ ask (merge_draft trim draft patch) (missing_fields (merge_draft trim draft patch) false)
  corrected_time_unbooked trim action existing draft patch slots silent plain changed =
      uncommitted-ask action existing (merge_draft trim draft patch) slots silent
        (merge_draft-committed trim draft patch plain changed)
