-- ===== src/Scheduling/Booking/Agreed.antt =====
-- What is booked was open and agreed to.
use ai_receptionist.Base.{
  ℕ, zero, suc, ◌-◌, String, ◌≡◌, refl, sym, ap, ◌∙◌, subst, ◌⊎◌, inl, inr, Bool, true, false, ◌&&◌,
  ◌||◌, List, [], ◌∷◌, Option, none, some, some-injective, leb, length, get_elem?, keep-Memᴰ,
  if◌then◌else◌, arith,
}
use mathlib.Core.List.{Memᴰ}
use ai_receptionist.Scheduling.Availability.{TimeSlot}
use ai_receptionist.Scheduling.Booking.{
  BookingDraft, BookingAction, book, ask, is_blank, first_slot, first_of, is_candidate, resolve_at,
  resolve_slot, commit_slot, picked_slot, committed_draft, is_none_missing, missing_fields,
  step_with, next_step,
}

get_elem?-Memᴰ :
    (slots : List TimeSlot) (i : ℕ) (s : TimeSlot) → get_elem? slots i ≡ some s → Memᴰ s slots
get_elem?-Memᴰ [] i s e = cc
get_elem?-Memᴰ (t ∷ slots) zero s e = Memᴰ.head (sym (some-injective _ _ e))
get_elem?-Memᴰ (t ∷ slots) (suc i) s e = Memᴰ.tail (get_elem?-Memᴰ slots i s e)

first_slot-Memᴰ : (slots : List TimeSlot) (s : TimeSlot) → first_slot slots ≡ some s → Memᴰ s slots
first_slot-Memᴰ [] s e = cc
first_slot-Memᴰ (t ∷ slots) s e = Memᴰ.head (sym (some-injective _ _ e))

if_none :
    (b : Bool) (o : Option TimeSlot) (s : TimeSlot) → (if b then none else o) ≡ some s → o ≡ some s
if_none true o s e = cc
if_none false o s e = e

if_some :
    (b : Bool) (o : Option TimeSlot) (s : TimeSlot) → (if b then o else none) ≡ some s → o ≡ some s
if_some true o s e = e
if_some false o s e = cc

module _ (existing : Bool) (draft booked : BookingDraft) (slot : TimeSlot) where
  step_booked :
      (s : TimeSlot)
      → step_with existing draft (some s) ≡ book booked slot
      → (booked ≡ draft)
        × (s ≡ slot)
        × ((existing || is_none_missing (missing_fields draft true)) ≡ true)
  unfolding step_with
  step_booked s e = by_missing (existing || is_none_missing (missing_fields draft true)) refl e
    where
      by_missing :
          (b : Bool)
          → (existing || is_none_missing (missing_fields draft true)) ≡ b
          → (if b then book draft s else ask draft (missing_fields draft true)) ≡ book booked slot
          → (booked ≡ draft)
            × (s ≡ slot)
            × ((existing || is_none_missing (missing_fields draft true)) ≡ true)
      by_missing true h k = (cc, cc, h)
      by_missing false h k = cc

  step_without_slot :
      (b : Bool) (o : Option TimeSlot)
      → (b ≡ false) ⊎ (o ≡ none)
      → step_with existing draft (if b then o else none) ≡ book booked slot
      → ⊥
  unfolding step_with
  step_without_slot true o (inl f) e = cc
  step_without_slot true o (inr n) e = cc
  step_without_slot false o h e = cc

module _ (wall_clock : ℕ → ℕ) (date_text : ℕ → String) (time_text : ℕ → ℕ → String)
    (parse_time : String → Option (ℕ × Option ℕ)) where
  resolve_at-Memᴰ :
      (draft : BookingDraft) (slots : List TimeSlot) (want : ℕ × Option ℕ) (s : TimeSlot)
      → resolve_at wall_clock date_text time_text parse_time draft slots want ≡ some s
      → Memᴰ s slots
  unfolding resolve_at
  resolve_at-Memᴰ draft slots (h, m) s e =
      keep-Memᴰ (is_candidate wall_clock date_text time_text parse_time draft h m) s slots
        (first_slot-Memᴰ _ s (if_none _ _ s e))

  resolve_slot-Memᴰ :
      (draft : BookingDraft) (slots : List TimeSlot) (s : TimeSlot)
      → resolve_slot wall_clock date_text time_text parse_time draft slots ≡ some s
      → Memᴰ s slots
  unfolding resolve_slot
  resolve_slot-Memᴰ draft slots s e = by_time (parse_time draft.time) (if_none _ _ s e)
    where
      by_time :
          (want : Option (ℕ × Option ℕ))
          → elim want as (λ _. Option TimeSlot) [
            | none ↦ none
            | some w ↦ resolve_at wall_clock date_text time_text parse_time draft slots w
          ]
            ≡ some s
          → Memᴰ s slots
      by_time none k = cc
      by_time (some w) k = resolve_at-Memᴰ draft slots w s k

  picked_slot-Memᴰ :
      (action : BookingAction) (draft : BookingDraft) (slots : List TimeSlot) (s : TimeSlot)
      → picked_slot wall_clock date_text time_text parse_time action draft slots ≡ some s
      → Memᴰ s slots
  unfolding picked_slot
  picked_slot-Memᴰ action draft slots s e =
      by_resolved (resolve_slot wall_clock date_text time_text parse_time draft slots) refl e
    where
      by_resolved :
          (o : Option TimeSlot)
          → resolve_slot wall_clock date_text time_text parse_time draft slots ≡ o
          → first_of o (
              if is_blank draft.time
                && (leb 1 action.slot_number && leb action.slot_number (length slots))
              then get_elem? slots (action.slot_number - 1)
              else none)
            ≡ some s
          → Memᴰ s slots
      by_resolved none o k = get_elem?-Memᴰ slots (action.slot_number - 1) s (if_some _ _ s k)
      by_resolved (some t) o k = resolve_slot-Memᴰ draft slots s (o ∙ k)

  -- A slot is booked only if it is one of the open slots, the visitor agreed (now, or before to the draft's
  -- time), the draft that is booked names this slot's day and time, and nothing is missing, unless an
  -- existing appointment is moved.
  pub next_step-IsAgreed :
      (action : BookingAction) (existing : Bool) (draft booked : BookingDraft)
      (slots : List TimeSlot) (slot : TimeSlot)
      → next_step wall_clock date_text time_text parse_time action existing draft slots
        ≡ book booked slot
      → Memᴰ slot slots
        × ((action.books || action.commits || draft.time_committed) ≡ true)
        × (booked ≡ commit_slot wall_clock date_text time_text parse_time draft slot)
        × ((existing || is_none_missing (missing_fields booked true)) ≡ true)
  unfolding next_step commit_slot
  next_step-IsAgreed action existing draft booked slots slot e =
      by_picked (picked_slot wall_clock date_text time_text parse_time action draft slots)
        (action.books || action.commits || draft.time_committed) refl refl e
    where
      by_picked :
          (o : Option TimeSlot) (agreed : Bool)
          → picked_slot wall_clock date_text time_text parse_time action draft slots ≡ o
          → (action.books || action.commits || draft.time_committed) ≡ agreed
          → step_with existing
              (committed_draft wall_clock date_text time_text parse_time agreed draft o)
              (if (committed_draft wall_clock date_text time_text parse_time agreed draft
                  o).time_committed
                then o
                else none)
            ≡ book booked slot
          → Memᴰ slot slots
            × ((action.books || action.commits || draft.time_committed) ≡ true)
            × (booked ≡ commit_slot wall_clock date_text time_text parse_time draft slot)
            × ((existing || is_none_missing (missing_fields booked true)) ≡ true)
      by_picked none agreed o a k =
          absurd
            (step_without_slot existing draft booked slot draft.time_committed none (inr refl) k)
      by_picked (some s) true o a k =
          let (same, there, known) =
            step_booked existing (commit_slot wall_clock date_text time_text parse_time draft s)
              booked slot s k in
          (
            picked_slot-Memᴰ action draft slots slot (o ∙ ap some there),
            a,
            same ∙ ap (commit_slot wall_clock date_text time_text parse_time draft) there,
            subst (λ d. (existing || is_none_missing (missing_fields d true)) ≡ true) (sym same)
                known,
          )
      by_picked (some s) false o a k = absurd (
          step_without_slot existing draft booked slot draft.time_committed (some s)
            (inl (ground (arith, a))) k)
