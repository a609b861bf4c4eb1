-- ===== src/Scheduling/Availability/Openings.antt =====
-- The openings collected from the staff: who is free at a start, and one opening for each start.
use ai_receptionist.Base.{
  ℕ, zero, suc, ◌+◌, ◌%◌, ◌≡◌, refl, subst, Bool, true, false, List, [], ◌∷◌, ◌++◌, arith, length,
  get_elem?, or_else, All, All-append, if◌then◌else◌, ◌==◌,
}
use ai_receptionist.Scheduling.Availability.{
  StaffMember, TimeSlot, AvailabilityInput, Opening, add_candidate, add_starts, includes_day,
  slot_ms, member_starts, add_members, add_days, pick_candidate, round_robin,
}

-- Everyone listed in the opening is free at its start.
abbrev pub Holds {ℓ} : (ℕ → StaffMember → Type ℓ) → Opening → Type ℓ
Holds Q o = All (Q o.at) (o.first ∷ o.more)

get_elem?-All {ℓ} :
    (Q : StaffMember → Type ℓ) (d : StaffMember) (ms : List StaffMember) (i : ℕ)
    → Q d
    → All Q ms
    → Q (or_else (get_elem? ms i) d)
get_elem?-All Q d [] i q h = q
get_elem?-All Q d (m ∷ ms) zero q (p, h) = p
get_elem?-All Q d (m ∷ ms) (suc i) q (p, h) = get_elem?-All Q d ms i q h

module _ {ℓ} (Q : ℕ → StaffMember → Type ℓ) where
  pub add_candidate-Holds :
      (m : StaffMember) (start : ℕ) (os : List Opening)
      → Q start m
      → All (Holds Q) os
      → All (Holds Q) (add_candidate m start os)
  unfolding add_candidate
  add_candidate-Holds m start [] q h = ((q, tt), tt)
  add_candidate-Holds m start (o ∷ os) q ((first, more), h) =
      by_start (o.at == start) refl (add_candidate-Holds m start os q h)
    where
      by_start :
          (b : Bool)
          → (o.at == start) ≡ b
          → All (Holds Q) (add_candidate m start os)
          → All (Holds Q) (
              if b then record o { more = o.more ++ m ∷ [] } ∷ os else o ∷ add_candidate m start os)
      by_start true e later =
          let here : start ≡ o.at = ground arith in
          ((first, All-append (Q o.at) o.more (m ∷ []) more (subst (λ t. Q t m) here q, tt)), h)
      by_start false e later = ((first, more), later)

  pub add_starts-Holds :
      (m : StaffMember) (starts : List ℕ) (os : List Opening)
      → All (λ s. Q s m) starts
      → All (Holds Q) os
      → All (Holds Q) (add_starts m starts os)
  unfolding add_starts
  add_starts-Holds m [] os q h = h
  add_starts-Holds m (s ∷ starts) os (p, q) h =
      add_starts-Holds m starts (add_candidate m s os) q (add_candidate-Holds m s os p h)

  pub pick_candidate-Holds : (rr : ℕ) (o : Opening) → Holds Q o → Q o.at (pick_candidate rr o)
  unfolding pick_candidate
  pick_candidate-Holds rr o (p, h) =
      get_elem?-All (Q o.at) o.first (o.first ∷ o.more) (rr % suc (length o.more)) p (p, h)

module _ (wall_clock : ℕ → ℕ) (input : AvailabilityInput) where
  -- The slot is one of a member of staff who is free at its start.
  abbrev pub IsSlotOf {ℓ} : (ℕ → StaffMember → Type ℓ) → TimeSlot → Type ℓ
  IsSlotOf Q s =
      (m : StaffMember) × Q s.starts_at m
      × (s.staff_id ≡ m.id)
      × (s.staff_name ≡ m.name)
      × (s.ends_at ≡ s.starts_at + slot_ms wall_clock input)

  module _ {ℓ} (Q : ℕ → StaffMember → Type ℓ) where
    pub add_members-Holds :
        (earliest latest day : ℕ) (staff : List StaffMember) (os : List Opening)
        → All (λ m. All (λ s. Q s m) (member_starts wall_clock input earliest latest day m)) staff
        → All (Holds Q) os
        → All (Holds Q) (add_members wall_clock input earliest latest day staff os)
    unfolding add_members
    add_members-Holds earliest latest day [] os q h = h
    add_members-Holds earliest latest day (m ∷ staff) os (p, q) h =
        add_members-Holds earliest latest day staff
          (add_starts m (member_starts wall_clock input earliest latest day m) os) q
          (add_starts-Holds Q m (member_starts wall_clock input earliest latest day m) os p h)

    pub add_days-Holds :
        (n earliest latest day : ℕ) (staff : List StaffMember) (os : List Opening)
        → ((d : ℕ)
            → includes_day input.settings.holidays d ≡ false
            → All
                (λ m. All (λ s. Q s m) (member_starts wall_clock input earliest latest d m))
                staff)
        → All (Holds Q) os
        → All (Holds Q) (add_days wall_clock input n earliest latest day staff os)
    unfolding add_days
    add_days-Holds zero earliest latest day staff os q h = h
    add_days-Holds (suc n) earliest latest day staff os q h =
        add_days-Holds n earliest latest (day + 1) staff
          (if includes_day input.settings.holidays day
            then os
            else add_members wall_clock input earliest latest day staff os)
          q (by_holiday (includes_day input.settings.holidays day) refl)
      where
        by_holiday :
            (b : Bool)
            → includes_day input.settings.holidays day ≡ b
            → All
                (Holds Q)
                (if b then os else add_members wall_clock input earliest latest day staff os)
        by_holiday true e = h
        by_holiday false e = add_members-Holds earliest latest day staff os (q day e) h

    pub round_robin-IsSlotOf :
        (left rr : ℕ) (os : List Opening)
        → All (Holds Q) os
        → All (IsSlotOf Q) (round_robin wall_clock input left rr os)
    unfolding round_robin
    round_robin-IsSlotOf zero rr os h = tt
    round_robin-IsSlotOf (suc left) rr [] h = tt
    round_robin-IsSlotOf (suc left) rr (o ∷ os) (p, h) = (
      (pick_candidate rr o, pick_candidate-Holds Q rr o p, refl, refl, refl),
      round_robin-IsSlotOf left (rr + 1) os h,
    )
