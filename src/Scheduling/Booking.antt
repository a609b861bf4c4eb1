-- ===== src/Scheduling/Booking.antt =====
-- packages/scheduling/booking-draft.ts, and the decision of packages/scheduling/booking-orchestrator.ts on
-- what to do with a draft, from where it looks for a slot on: before that, a visitor with an appointment
-- who names its very time is answered that nothing changes. The zone's clock is a parameter (see Timezone), as are JavaScript's `trim`,
-- the texts of a date and of a time of day, and the reading of the latter (a minute that is not a number
-- is `none`, as is an hour that is not finite).
pub mod Agreed
pub mod Corrected
pub mod Taken
use ai_receptionist.Base.{
  ℕ, suc, ◌-◌, ◌/◌, ◌%◌, String, Bool, true, false, ◌&&◌, ◌||◌, not, List, [], ◌∷◌, ◌++◌, Option,
  none, some, is_some, or_else, leb, ◌==◌, ◌=ˢ◌, any, keep, length, get_elem?, if◌then◌else◌,
}
use ai_receptionist.Scheduling.Timezone.{date_in_tz, minutes_in_tz}
use ai_receptionist.Scheduling.Availability.{TimeSlot}

pub record BookingDraft : Type 0 where
  pub service : String
  pub date : String
  pub time : String
  pub name : String
  pub email : String
  pub phone : String
  pub notes : String
  pub time_committed : Bool

abbrev pub empty_draft : BookingDraft
empty_draft = record {
  service = "";
  date = "";
  time = "";
  name = "";
  email = "";
  phone = "";
  notes = "";
  time_committed = false;
}

pub record BookingDraftPatch : Type 0 where
  pub service : Option String
  pub date : Option String
  pub time : Option String
  pub name : Option String
  pub email : Option String
  pub phone : Option String
  pub notes : Option String
  pub time_committed : Option Bool

pub data MissingField : Type 0 where
  service_missing : MissingField
  time_missing : MissingField
  name_missing : MissingField
  contact_missing : MissingField

abbrev pub is_blank : String → Bool
is_blank t = t =ˢ ""

-- One round of the loop of `mergeDraft`, after the trim.
abbrev pub newer : String → Option String → String
newer old none = old
newer old (some value) = if is_blank value then old else value

abbrev pub trimmed : (String → String) → Option String → Option String
trimmed trim none = none
trimmed trim (some value) = some (trim value)

unfoldable pub merge_draft : (String → String) → BookingDraft → BookingDraftPatch → BookingDraft
merge_draft trim draft patch =
    let date = newer draft.date (trimmed trim patch.date) in
    let time = newer draft.time (trimmed trim patch.time) in
    let time_changed = not (date =ˢ draft.date) || not (time =ˢ draft.time) in
    record {
      service = newer draft.service (trimmed trim patch.service);
      date = date;
      time = time;
      name = newer draft.name (trimmed trim patch.name);
      email = newer draft.email (trimmed trim patch.email);
      phone = newer draft.phone (trimmed trim patch.phone);
      notes = newer draft.notes (trimmed trim patch.notes);
      time_committed =
          or_else patch.time_committed (if time_changed then false else draft.time_committed);
    }

unfoldable pub has_draft_content : Option BookingDraft → Bool
has_draft_content none = false
has_draft_content (some draft) = not (
    is_blank draft.service
    && is_blank draft.date
    && is_blank draft.time
    && is_blank draft.name
    && is_blank draft.email
    && is_blank draft.phone)

abbrev pub missing_if : Bool → MissingField → List MissingField
missing_if true field = field ∷ []
missing_if false field = []

unfoldable pub missing_fields : BookingDraft → Bool → List MissingField
missing_fields draft has_committed_slot =
    missing_if (is_blank draft.service) service_missing
    ++ (missing_if (not has_committed_slot) time_missing
        ++ (missing_if (is_blank draft.name) name_missing
            ++ missing_if (is_blank draft.phone && is_blank draft.email) contact_missing))

-- `candidates[0] ?? null`
abbrev pub first_slot : List TimeSlot → Option TimeSlot
first_slot [] = none
first_slot (s ∷ slots) = some s

abbrev pub first_of : Option TimeSlot → Option TimeSlot → Option TimeSlot
first_of (some s) other = some s
first_of none other = other

-- The engine is called, or the visitor is asked for what is missing.
pub data BookingStep : Type 0 where
  book : BookingDraft → TimeSlot → BookingStep
  ask : BookingDraft → List MissingField → BookingStep

-- How the turn reads the visitor: `action.action === "book"`, words of commitment, and the number of a
-- slot.
pub record BookingAction : Type 0 where
  pub books : Bool
  pub commits : Bool
  pub slot_number : ℕ

abbrev pub minute_matches : Option ℕ → ℕ → Bool
minute_matches none minute = false
minute_matches (some want) minute = want == 0 || minute == want

abbrev pub is_none_missing : List MissingField → Bool
is_none_missing [] = true
is_none_missing (_ ∷ _) = false

unfoldable pub step_with : Bool → BookingDraft → Option TimeSlot → BookingStep
step_with existing draft none = ask draft (missing_fields draft false)
step_with existing draft (some slot) =
    if existing || is_none_missing (missing_fields draft true)
    then book draft slot
    else ask draft (missing_fields draft true)

module _ (wall_clock : ℕ → ℕ) (date_text : ℕ → String) (time_text : ℕ → ℕ → String)
    (parse_time : String → Option (ℕ × Option ℕ)) where
  abbrev pub slot_date : TimeSlot → String
  slot_date slot = date_text (date_in_tz wall_clock slot.starts_at)

  -- `localHourMinute`
  abbrev pub slot_hour : TimeSlot → ℕ
  slot_hour slot = minutes_in_tz wall_clock slot.starts_at / 60

  abbrev pub slot_minute : TimeSlot → ℕ
  slot_minute slot = minutes_in_tz wall_clock slot.starts_at % 60

  unfoldable pub is_candidate : BookingDraft → ℕ → Option ℕ → TimeSlot → Bool
  is_candidate draft want_hour want_minute slot =
      (is_blank draft.date || slot_date slot =ˢ draft.date)
      && (slot_hour slot == want_hour && minute_matches want_minute (slot_minute slot))

  -- `days.size > 1`
  unfoldable pub has_many_days : List TimeSlot → Bool
  has_many_days [] = false
  has_many_days (s ∷ slots) = any (λ t. not (slot_date t =ˢ slot_date s)) slots

  unfoldable pub resolve_at : BookingDraft → List TimeSlot → ℕ × Option ℕ → Option TimeSlot
  resolve_at draft slots (want_hour, want_minute) =
      let candidates = keep (is_candidate draft want_hour want_minute) slots in
      if is_blank draft.date && has_many_days candidates then none else first_slot candidates

  unfoldable pub resolve_slot : BookingDraft → List TimeSlot → Option TimeSlot
  resolve_slot draft slots =
      if is_blank draft.time
      then none
      else elim (parse_time draft.time) [ none ↦ none | some want ↦ resolve_at draft slots want ]

  unfoldable pub commit_slot : BookingDraft → TimeSlot → BookingDraft
  commit_slot draft slot = record draft {
    date = slot_date slot;
    time = time_text (slot_hour slot) (slot_minute slot);
    time_committed = true;
  }

  -- The slot that the visitor points at, if any.
  unfoldable pub picked_slot : BookingAction → BookingDraft → List TimeSlot → Option TimeSlot
  picked_slot action draft slots = first_of (resolve_slot draft slots) (
      if is_blank draft.time && (leb 1 action.slot_number && leb action.slot_number (length slots))
      then get_elem? slots (action.slot_number - 1)
      else none)

  abbrev pub committed_draft : Bool → BookingDraft → Option TimeSlot → BookingDraft
  committed_draft agreed draft none = draft
  committed_draft agreed draft (some slot) = if agreed then commit_slot draft slot else draft

  -- What the turn does with the draft, for a visitor who has an appointment or not.
  unfoldable pub next_step : BookingAction → Bool → BookingDraft → List TimeSlot → BookingStep
  next_step action existing draft slots =
      let picked = picked_slot action draft slots in
      let agreed = action.books || action.commits || draft.time_committed in
      let next = committed_draft agreed draft picked in
      step_with existing next (if next.time_committed then picked else none)
