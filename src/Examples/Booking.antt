-- ===== src/Examples/Booking.antt =====
-- Properties of bookings at concrete input: the zone is UTC, and the texts of days and times are written
-- for the few that occur.
use ai_receptionist.Base.{
  ℕ, String, ◌≡◌, refl, ◌||◌, true, false, [], ◌∷◌, Option, none, some, ◌=ˢ◌, ◌==◌, if◌then◌else◌,
  inr, arith,
}
use mathlib.Core.List.{Memᴰ}
use ai_receptionist.Scheduling.Timezone.{date_in_tz, minutes_in_tz}
use ai_receptionist.Scheduling.Availability.{TimeSlot}
use ai_receptionist.Scheduling.Booking.{
  BookingDraft, BookingDraftPatch, BookingAction, book, ask, empty_draft, merge_draft, resolve_slot,
  picked_slot, commit_slot, is_none_missing, missing_fields, step_with, next_step,
}
use ai_receptionist.Scheduling.Booking.Agreed.{next_step-IsAgreed}
use ai_receptionist.Scheduling.Booking.Corrected.{corrected_time_unbooked}
use ai_receptionist.Scheduling.Booking.Taken.{taken_time_replaced}

abbrev utc : ℕ → ℕ
utc at = at

abbrev date_text : ℕ → String
date_text day = if day == 20000 then "2024-10-04" else "2024-10-05"

abbrev time_text : ℕ → ℕ → String
time_text hour minute = if minute == 0 then "10:00" else "10:30"

abbrev parse_time : String → Option (ℕ × Option ℕ)
parse_time time =
    if time =ˢ "10:00"
    then some (10, some 0)
    else if time =ˢ "10:30"
    then some (10, some 30)
    else none

-- Ten o'clock and half past ten of the same day.
abbrev ten : TimeSlot
ten = record {
  staff_id = "s";
  staff_name = "Sam";
  starts_at = 1728036000000;
  ends_at = 1728037800000;
}

abbrev half_past : TimeSlot
half_past = record {
  staff_id = "s";
  staff_name = "Sam";
  starts_at = 1728037800000;
  ends_at = 1728039600000;
}

abbrev known : BookingDraft
known = record empty_draft { service = "cut"; name = "Ana"; phone = "5550100" }

abbrev silent : BookingAction
silent = record { books = false; commits = false; slot_number = 0 }

-- Half past eight of that day.
abbrev early : TimeSlot
early = record {
  staff_id = "s";
  staff_name = "Sam";
  starts_at = 1728030600000;
  ends_at = 1728032400000;
}

taken_time_replaced_example :
    next_step utc date_text time_text parse_time silent false
      (commit_slot utc date_text time_text parse_time known ten)
      (early ∷ half_past ∷ [])
    ≡ book (commit_slot utc date_text time_text parse_time known half_past) half_past
unfolding date_in_tz minutes_in_tz missing_fields
taken_time_replaced_example =
    taken_time_replaced utc date_text time_text parse_time silent known ten half_past (early ∷ [])
      [] refl refl refl refl (inr (omega arith), tt) refl refl refl

abbrev agreeing : BookingAction
agreeing = record { books = true; commits = false; slot_number = 1 }

next_step-IsAgreed_example :
    Memᴰ ten (ten ∷ half_past ∷ [])
    × ((true || false || false) ≡ true)
    × (commit_slot utc date_text time_text parse_time known ten
        ≡ commit_slot utc date_text time_text parse_time known ten)
    × ((false
          || is_none_missing
              (missing_fields (commit_slot utc date_text time_text parse_time known ten) true))
        ≡ true)
unfolding next_step step_with picked_slot resolve_slot missing_fields commit_slot
next_step-IsAgreed_example =
    next_step-IsAgreed utc date_text time_text parse_time agreeing false known
      (commit_slot utc date_text time_text parse_time known ten) (ten ∷ half_past ∷ []) ten refl

abbrev same_text : String → String
same_text s = s

abbrev later : BookingDraftPatch
later = record {
  service = none;
  date = none;
  time = some "10:30";
  name = none;
  email = none;
  phone = none;
  notes = none;
  time_committed = none;
}

abbrev agreed_ten : BookingDraft
agreed_ten = record known { date = "2024-10-04"; time = "10:00"; time_committed = true }

corrected_time_unbooked_example :
    next_step utc date_text time_text parse_time silent false
      (merge_draft same_text agreed_ten later)
      (ten ∷ half_past ∷ [])
    ≡ ask
        (merge_draft same_text agreed_ten later)
        (missing_fields (merge_draft same_text agreed_ten later) false)
unfolding merge_draft
corrected_time_unbooked_example =
    corrected_time_unbooked utc date_text time_text parse_time same_text silent false agreed_ten
      later (ten ∷ half_past ∷ []) refl refl refl
