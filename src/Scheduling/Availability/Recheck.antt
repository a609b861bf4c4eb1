-- ===== src/Scheduling/Availability/Recheck.antt =====
-- `isSlotAvailable`, the check of one slot before it is booked.
use mathlib.Core.List.{Memᴰ}
use ai_receptionist.Base.{
  ℕ, ◌≡◌, sym, subst, ◌∙◌, String, true, arith, All-Memᴰ, keep-Memᴰ, any-Memᴰ, ◌=ˢ◌, ◌==◌, ◌&&◌,
  eq_iff,
}
use ai_receptionist.Scheduling.Availability.{
  StaffMember, AvailabilityInput, generate_slots, proposal, is_slot_available,
}
use ai_receptionist.Scheduling.Availability.Openings.{IsSlotOf}
use ai_receptionist.Scheduling.Availability.Sound.{IsBookable, slots-IsBookable}

-- Where `isSlotAvailable` accepts a proposed slot, a listed member of staff with the proposed id can be
-- booked at the proposed start, within the proposed times.
pub accepted_slot-IsBookable :
    (wall_clock : ℕ → ℕ) (input : AvailabilityInput) (staff_id : String) (starts_at ends_at : ℕ)
    → is_slot_available wall_clock input staff_id starts_at ends_at ≡ true
    → (m : StaffMember) × Memᴰ m input.staff
      × (m.id ≡ staff_id)
      × IsBookable wall_clock (proposal input staff_id starts_at ends_at) starts_at m
unfolding is_slot_available
accepted_slot-IsBookable wall_clock input staff_id starts_at ends_at h =
    let asked = proposal input staff_id starts_at ends_at in
    let (s, i, found) =
      any-Memᴰ (λ s. (s.starts_at == starts_at) && (s.staff_id =ˢ staff_id))
        (generate_slots wall_clock asked) h in
    let (m, bookable, id_eq, name_eq, ends_eq) =
      All-Memᴰ (IsSlotOf wall_clock asked (IsBookable wall_clock asked))
        (generate_slots wall_clock asked) s (slots-IsBookable wall_clock asked) i in
    let at : s.starts_at ≡ starts_at = ground arith in
    (
      m,
      keep-Memᴰ (λ c. c.id =ˢ staff_id) m input.staff bookable.1,
      sym id_eq ∙ grind (arith, eq_iff),
      subst (λ t. IsBookable wall_clock asked t m) at bookable,
    )
