-- ===== src/Scheduling/Availability/Order.antt =====
-- One opening for each start, and a start once entered stays.
use mathlib.Core.List.{Memᴰ}
use ai_receptionist.Base.{
  ℕ, zero, suc, ◌+◌, ◌≤◌, ◌<◌, ◌≡◌, ◌≢◌, refl, sym, subst, ◌∙◌, ap, Bool, true, false, List, [],
  ◌∷◌, ◌++◌, arith, length, All, if◌then◌else◌, ◌==◌, IsDistinctBy, IsAscending,
}
use ai_receptionist.Scheduling.Availability.{
  StaffMember, TimeSlot, AvailabilityInput, Opening, add_candidate, add_starts, includes_day,
  member_starts, add_members, add_days, round_robin,
}

-- One opening for each start.
abbrev pub IsUnique : List Opening → Type 0
IsUnique os = IsDistinctBy (λ o. o.at) os

add_candidate-away :
    (t : ℕ) (m : StaffMember) (start : ℕ) (os : List Opening)
    → t ≢ start
    → All (λ o. t ≢ o.at) os
    → All (λ o. t ≢ o.at) (add_candidate m start os)
unfolding add_candidate
add_candidate-away t m start [] ne h = (ne, tt)
add_candidate-away t m start (o ∷ os) ne (p, h) =
    elim (o.at == start)
      as (λ b.
        All (λ q. t ≢ q.at)
          (if b then record o { more = o.more ++ m ∷ [] } ∷ os else o ∷ add_candidate m start os)) [
            | true ↦ (p, h)
            | false ↦ (p, add_candidate-away t m start os ne h)
          ]

add_candidate-IsUnique :
    (m : StaffMember) (start : ℕ) (os : List Opening)
    → IsUnique os
    → IsUnique (add_candidate m start os)
unfolding add_candidate
add_candidate-IsUnique m start [] h = (tt, tt)
add_candidate-IsUnique m start (o ∷ os) (away, h) =
    by_start (o.at == start) refl (add_candidate-IsUnique m start os h)
  where
    by_start :
        (b : Bool)
        → (o.at == start) ≡ b
        → IsUnique (add_candidate m start os)
        → IsUnique
            (if b then record o { more = o.more ++ m ∷ [] } ∷ os else o ∷ add_candidate m start os)
    by_start true e later = (away, h)
    by_start false e later = (add_candidate-away o.at m start os (ground arith) away, later)

add_starts-IsUnique :
    (m : StaffMember) (starts : List ℕ) (os : List Opening)
    → IsUnique os
    → IsUnique (add_starts m starts os)
unfolding add_starts
add_starts-IsUnique m [] os h = h
add_starts-IsUnique m (s ∷ starts) os h =
    add_starts-IsUnique m starts (add_candidate m s os) (add_candidate-IsUnique m s os h)

-- Some opening starts there.
abbrev pub Offers : ℕ → List Opening → Type 0
Offers start os = (o : Opening) × Memᴰ o os × (o.at ≡ start)

Offers-later : (t : ℕ) (o : Opening) (os : List Opening) → Offers t os → Offers t (o ∷ os)
Offers-later t o os (p, m, e) = (p, Memᴰ.tail m, e)

add_candidate-Offers-here :
    (m : StaffMember) (start : ℕ) (os : List Opening) → Offers start (add_candidate m start os)
unfolding add_candidate
add_candidate-Offers-here m start [] = (_, Memᴰ.head refl, refl)
add_candidate-Offers-here m start (o ∷ os) =
    by_start (o.at == start) refl (add_candidate-Offers-here m start os)
  where
    by_start :
        (b : Bool)
        → (o.at == start) ≡ b
        → Offers start (add_candidate m start os)
        → Offers start
            (if b then record o { more = o.more ++ m ∷ [] } ∷ os else o ∷ add_candidate m start os)
    by_start true e later = (_, Memᴰ.head refl, ground arith)
    by_start false e later = Offers-later start o (add_candidate m start os) later

add_candidate-Offers :
    (t : ℕ) (m : StaffMember) (start : ℕ) (os : List Opening)
    → Offers t os
    → Offers t (add_candidate m start os)
unfolding add_candidate
add_candidate-Offers t m start [] (p, i, e) = elim i [ ]
add_candidate-Offers t m start (o ∷ os) h =
    by_start (o.at == start) h (add_candidate-Offers t m start os)
  where
    by_start :
        (b : Bool)
        → Offers t (o ∷ os)
        → (Offers t os → Offers t (add_candidate m start os))
        → Offers t
            (if b then record o { more = o.more ++ m ∷ [] } ∷ os else o ∷ add_candidate m start os)
    by_start true (p, Memᴰ.head s, e) later = (_, Memᴰ.head refl, sym (ap (λ q. q.at) s) ∙ e)
    by_start true (p, Memᴰ.tail i, e) later = (p, Memᴰ.tail i, e)
    by_start false (p, Memᴰ.head s, e) later = (p, Memᴰ.head s, e)
    by_start false (p, Memᴰ.tail i, e) later =
        Offers-later t o (add_candidate m start os) (later (p, i, e))

add_starts-Offers :
    (t : ℕ) (m : StaffMember) (starts : List ℕ) (os : List Opening)
    → Offers t os
    → Offers t (add_starts m starts os)
unfolding add_starts
add_starts-Offers t m [] os h = h
add_starts-Offers t m (s ∷ starts) os h =
    add_starts-Offers t m starts (add_candidate m s os) (add_candidate-Offers t m s os h)

Memᴰ-add_starts-Offers :
    (t : ℕ) (m : StaffMember) (starts : List ℕ) (os : List Opening)
    → Memᴰ t starts
    → Offers t (add_starts m starts os)
unfolding add_starts
Memᴰ-add_starts-Offers t m [] os i = elim i [ ]
Memᴰ-add_starts-Offers t m (s ∷ starts) os (Memᴰ.head e) =
    add_starts-Offers t m starts (add_candidate m s os)
      (subst (λ u. Offers u (add_candidate m s os)) (sym e) (add_candidate-Offers-here m s os))
Memᴰ-add_starts-Offers t m (s ∷ starts) os (Memᴰ.tail i) =
    Memᴰ-add_starts-Offers t m starts (add_candidate m s os) i

module _ (wall_clock : ℕ → ℕ) (input : AvailabilityInput) where
  -- What the loops over staff and days keep, as every round adds starts only.
  module _ {ℓ} (P : List Opening → Type ℓ)
      (keeps : (m : StaffMember) (starts : List ℕ) (os : List Opening)
        → P os
        → P (add_starts m starts os)) where
    add_members-keeps :
        (earliest latest day : ℕ) (staff : List StaffMember) (os : List Opening)
        → P os
        → P (add_members wall_clock input earliest latest day staff os)
    unfolding add_members
    add_members-keeps earliest latest day [] os h = h
    add_members-keeps earliest latest day (m ∷ staff) os h =
        add_members-keeps earliest latest day staff
          (add_starts m (member_starts wall_clock input earliest latest day m) os)
          (keeps m (member_starts wall_clock input earliest latest day m) os h)

    add_days-keeps :
        (n earliest latest day : ℕ) (staff : List StaffMember) (os : List Opening)
        → P os
        → P (add_days wall_clock input n earliest latest day staff os)
    unfolding add_days
    add_days-keeps zero earliest latest day staff os h = h
    add_days-keeps (suc n) earliest latest day staff os h =
        add_days-keeps n earliest latest (day + 1) staff
          (if includes_day input.settings.holidays day
            then os
            else add_members wall_clock input earliest latest day staff os)
          (elim (includes_day input.settings.holidays day)
            as (λ b.
              P (if b then os else add_members wall_clock input earliest latest day staff os)) [
                | true ↦ h
                | false ↦ add_members-keeps earliest latest day staff os h
              ])

  pub add_days-IsUnique :
      (n earliest latest day : ℕ) (staff : List StaffMember) (os : List Opening)
      → IsUnique os
      → IsUnique (add_days wall_clock input n earliest latest day staff os)
  add_days-IsUnique = add_days-keeps IsUnique add_starts-IsUnique

  Memᴰ-add_members-Offers :
      (t earliest latest day : ℕ) (m : StaffMember) (staff : List StaffMember) (os : List Opening)
      → Memᴰ m staff
      → Memᴰ t (member_starts wall_clock input earliest latest day m)
      → Offers t (add_members wall_clock input earliest latest day staff os)
  unfolding add_members
  Memᴰ-add_members-Offers t earliest latest day m [] os i k = elim i [ ]
  Memᴰ-add_members-Offers t earliest latest day m (c ∷ staff) os (Memᴰ.head e) k =
      add_members-keeps (Offers t) (add_starts-Offers t) earliest latest day staff
        (add_starts c (member_starts wall_clock input earliest latest day c) os)
        (Memᴰ-add_starts-Offers t c (member_starts wall_clock input earliest latest day c) os
          (subst (λ x. Memᴰ t (member_starts wall_clock input earliest latest day x)) e k))
  Memᴰ-add_members-Offers t earliest latest day m (c ∷ staff) os (Memᴰ.tail i) k =
      Memᴰ-add_members-Offers t earliest latest day m staff
        (add_starts c (member_starts wall_clock input earliest latest day c) os) i k

  pub Memᴰ-add_days-Offers :
      (n k t earliest latest day : ℕ) (m : StaffMember) (staff : List StaffMember)
      (os : List Opening)
      → k < n
      → includes_day input.settings.holidays (day + k) ≡ false
      → Memᴰ m staff
      → Memᴰ t (member_starts wall_clock input earliest latest (day + k) m)
      → Offers t (add_days wall_clock input n earliest latest day staff os)
  unfolding add_days
  Memᴰ-add_days-Offers zero k t earliest latest day m staff os lt works i s = absurd (omega arith)
  Memᴰ-add_days-Offers (suc n) zero t earliest latest day m staff os lt works i s =
      let z : day + 0 ≡ day = omega arith in
      add_days-keeps (Offers t) (add_starts-Offers t) n earliest latest (day + 1) staff
        (if includes_day input.settings.holidays day
          then os
          else add_members wall_clock input earliest latest day staff os)
        (subst
          (λ b.
            Offers t (if b then os else add_members wall_clock input earliest latest day staff os))
          (sym (subst (λ d. includes_day input.settings.holidays d ≡ false) z works))
          (Memᴰ-add_members-Offers t earliest latest day m staff os i
            (subst (λ d. Memᴰ t (member_starts wall_clock input earliest latest d m)) z s)))
  Memᴰ-add_days-Offers (suc n) (suc k) t earliest latest day m staff os lt works i s =
      let e : day + suc k ≡ day + 1 + k = omega arith in
      Memᴰ-add_days-Offers n k t earliest latest (day + 1) m staff
        (if includes_day input.settings.holidays day
          then os
          else add_members wall_clock input earliest latest day staff os)
        (omega arith) (subst (λ d. includes_day input.settings.holidays d ≡ false) e works) i
        (subst (λ d. Memᴰ t (member_starts wall_clock input earliest latest d m)) e s)

  round_robin-after :
      (left rr t : ℕ) (os : List Opening)
      → All (λ o. t < o.at) os
      → All (λ s. t < s.starts_at) (round_robin wall_clock input left rr os)
  unfolding round_robin
  round_robin-after zero rr t os h = tt
  round_robin-after (suc left) rr t [] h = tt
  round_robin-after (suc left) rr t (o ∷ os) (p, h) = (p, round_robin-after left (rr + 1) t os h)

  pub round_robin-IsAscending :
      (left rr : ℕ) (os : List Opening)
      → IsAscending (λ o. o.at) os
      → IsAscending (λ s. s.starts_at) (round_robin wall_clock input left rr os)
  unfolding round_robin
  round_robin-IsAscending zero rr os h = tt
  round_robin-IsAscending (suc left) rr [] h = tt
  round_robin-IsAscending (suc left) rr (o ∷ os) (p, h) =
      (round_robin-after left (rr + 1) o.at os p, round_robin-IsAscending left (rr + 1) os h)

  pub length-round_robin :
      (left rr : ℕ) (os : List Opening) → length (round_robin wall_clock input left rr os) ≤ left
  unfolding round_robin
  length-round_robin zero rr os = omega arith
  length-round_robin (suc left) rr [] = omega arith
  length-round_robin (suc left) rr (o ∷ os) = omega (arith, length-round_robin left (rr + 1) os)

  -- A slot for every opening, unless the limit cuts it off.
  pub round_robin-Offers :
      (left rr t : ℕ) (os : List Opening)
      → length (round_robin wall_clock input left rr os) < left
      → Offers t os
      → (s : TimeSlot) × Memᴰ s (round_robin wall_clock input left rr os) × (s.starts_at ≡ t)
  unfolding round_robin
  round_robin-Offers zero rr t os lt h = absurd (omega arith)
  round_robin-Offers (suc left) rr t [] lt (o, i, e) = elim i [ ]
  round_robin-Offers (suc left) rr t (o ∷ os) lt (p, Memᴰ.head s, e) =
      (_, Memᴰ.head refl, sym (ap (λ q. q.at) s) ∙ e)
  round_robin-Offers (suc left) rr t (o ∷ os) lt (p, Memᴰ.tail i, e) =
      let (s, j, f) = round_robin-Offers left (rr + 1) t os (omega arith) (p, i, e) in
      (s, Memᴰ.tail j, f)
