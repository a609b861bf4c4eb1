-- ===== src/Scheduling/Availability/Complete.antt =====
-- `generateSlots`: the order and number of the slots, and that a start that can be booked is offered.
use mathlib.Core.List.{Memᴰ}
use ai_receptionist.Base.{
  ℕ, suc, ◌+◌, ◌-◌, ◌*◌, ◌≤◌, ◌<◌, ◌≡◌, sym, subst, true, false, List, [], Option, none, some,
  arith, length, All, Memᴰ-keep, keep, sort_by, IsAscending, Memᴰ-sort_by, sort_by-IsAscending,
}
use ai_receptionist.Scheduling.Timezone.{date_in_tz, zoned_time_to_utc}
use ai_receptionist.Scheduling.Availability.{
  StaffMember, TimeSlot, AvailabilityInput, includes_day, slot_ms, buffer_ms, in_hour_range,
  is_open_start, starts_between, member_starts, round_robin, openings_between, search_window,
  generate_slots, parse_busy, day_starts, day_fuel,
}
use ai_receptionist.Scheduling.Availability.Parts.{
  LeavesFree, LeavesFree-overlaps_any, Memᴰ-day_starts, day_fuel-gt,
}
use ai_receptionist.Scheduling.Availability.Order.{
  IsUnique, Offers, add_days-IsUnique, Memᴰ-add_days-Offers, round_robin-IsAscending,
  length-round_robin, round_robin-Offers,
}
use ai_receptionist.Scheduling.Availability.Sound.{WorksFrom, busy_of}

module _ (wall_clock : ℕ → ℕ) (input : AvailabilityInput) where
  openings_between-IsUnique :
      (earliest latest : ℕ) → IsUnique (openings_between wall_clock input earliest latest)
  unfolding openings_between
  openings_between-IsUnique earliest latest =
      add_days-IsUnique wall_clock input
        (suc (date_in_tz wall_clock latest) - date_in_tz wall_clock earliest) earliest latest
        (date_in_tz wall_clock earliest) (keep (λ m. m.is_active) input.staff) [] tt

  -- `generateSlots` returns at most `limit` slots, and each starts strictly later than the one before:
  -- a start at which several members are free is offered once.
  pub slots-IsAscending :
      IsAscending (λ s. s.starts_at) (generate_slots wall_clock input)
      × (length (generate_slots wall_clock input) ≤ input.limit)
  unfolding generate_slots
  slots-IsAscending = by_window (search_window wall_clock input input.from_time input.to_time)
    where
      slots : Option (ℕ × ℕ) → List TimeSlot
      slots o = elim o [
        | none ↦ []
        | some (earliest, latest) ↦
            round_robin wall_clock input input.limit 0
              (sort_by (λ o. o.at) (openings_between wall_clock input earliest latest))
      ]

      by_window :
          (o : Option (ℕ × ℕ))
          → IsAscending (λ s. s.starts_at) (slots o) × (length (slots o) ≤ input.limit)
      by_window none = (tt, omega arith)
      by_window (some (earliest, latest)) =
          let os = sort_by (λ o. o.at) (openings_between wall_clock input earliest latest) in
          (
            round_robin-IsAscending wall_clock input input.limit 0 os (
                sort_by-IsAscending (λ o. o.at) (openings_between wall_clock input earliest latest)
                  (openings_between-IsUnique earliest latest)),
            length-round_robin wall_clock input input.limit 0 os,
          )

  member_starts-WorksFrom :
      (earliest latest day : ℕ) (m : StaffMember) (opens closes : ℕ × ℕ)
      → WorksFrom wall_clock input m day opens closes
      → member_starts wall_clock input earliest latest day m
        ≡ starts_between wall_clock input earliest latest day m (some opens) (some closes)
  unfolding member_starts
  member_starts-WorksFrom earliest latest day m opens closes (hours, on, works, p, q) = ground arith

  -- The loop over the day enters a start of the day's grid.
  CanStart-Memᴰ :
      (earliest latest day k open_h open_m close_h close_m : ℕ) (m : StaffMember)
      → 0 < slot_ms wall_clock input
      → WorksFrom wall_clock input m day (open_h, open_m) (close_h, close_m)
      → zoned_time_to_utc wall_clock day open_h open_m
          + k * slot_ms wall_clock input
          + slot_ms wall_clock input
        ≤ zoned_time_to_utc wall_clock day close_h close_m
      → is_open_start wall_clock input earliest latest
          (parse_busy (buffer_ms wall_clock input) (busy_of wall_clock input m))
          (zoned_time_to_utc wall_clock day open_h open_m + k * slot_ms wall_clock input)
        ≡ true
      → Memᴰ
          (zoned_time_to_utc wall_clock day open_h open_m + k * slot_ms wall_clock input)
          (member_starts wall_clock input earliest latest day m)
  unfolding starts_between
  CanStart-Memᴰ earliest latest day k open_h open_m close_h close_m m pos works fits ok =
      let open_ms = zoned_time_to_utc wall_clock day open_h open_m in
      let close_ms = zoned_time_to_utc wall_clock day close_h close_m in
      let slot = slot_ms wall_clock input in
      let test =
        is_open_start wall_clock input earliest latest
          (parse_busy (buffer_ms wall_clock input) (busy_of wall_clock input m)) in
      subst (Memᴰ (open_ms + k * slot))
        (sym
          (member_starts-WorksFrom earliest latest day m (open_h, open_m) (close_h, close_m) works))
        (Memᴰ-keep test (open_ms + k * slot)
          (day_starts (day_fuel slot close_ms open_ms) slot close_ms open_ms) ok
          (Memᴰ-day_starts (day_fuel slot close_ms open_ms) k slot close_ms open_ms
            (day_fuel-gt k slot close_ms open_ms pos fits) fits))

  Memᴰ-openings_between :
      (earliest latest day start : ℕ) (m : StaffMember)
      → date_in_tz wall_clock earliest ≤ day
      → day ≤ date_in_tz wall_clock latest
      → includes_day input.settings.holidays day ≡ false
      → Memᴰ m input.staff
      → m.is_active ≡ true
      → Memᴰ start (member_starts wall_clock input earliest latest day m)
      → Offers start (openings_between wall_clock input earliest latest)
  unfolding openings_between
  Memᴰ-openings_between earliest latest day start m from_day to_day workday i active j =
      let first = date_in_tz wall_clock earliest in
      let e : day ≡ first + (day - first) = omega arith in
      Memᴰ-add_days-Offers wall_clock input (suc (date_in_tz wall_clock latest) - first)
        (day - first) start earliest latest first m (keep (λ c. c.is_active) input.staff) []
        (omega arith) (subst (λ d. includes_day input.settings.holidays d ≡ false) e workday)
        (Memᴰ-keep (λ c. c.is_active) m input.staff active i)
        (subst (λ d. Memᴰ start (member_starts wall_clock input earliest latest d m)) e j)

  generate_slots-eq :
      (earliest latest : ℕ)
      → search_window wall_clock input input.from_time input.to_time ≡ some (earliest, latest)
      → generate_slots wall_clock input
        ≡ round_robin wall_clock input input.limit 0
            (sort_by (λ o. o.at) (openings_between wall_clock input earliest latest))
  unfolding generate_slots
  generate_slots-eq earliest latest window = ground (arith, window)

  -- The member can start at `start`, which is on the grid of a day that the search covers.
  pub record IsFree (earliest latest start : ℕ) (m : StaffMember) : Type 0 where
    pub day : ℕ
    pub round : ℕ
    pub opens : ℕ × ℕ
    pub closes : ℕ × ℕ
    pub listed : Memᴰ m input.staff
    pub active : m.is_active ≡ true
    pub workday : includes_day input.settings.holidays day ≡ false
    pub not_before : date_in_tz wall_clock earliest ≤ day
    pub not_after : day ≤ date_in_tz wall_clock latest
    pub works : WorksFrom wall_clock input m day opens closes
    pub on_grid :
        start ≡ zoned_time_to_utc wall_clock day opens.0 opens.1 + round * slot_ms wall_clock input
    pub fits : start + slot_ms wall_clock input ≤ zoned_time_to_utc wall_clock day closes.0 closes.1
    pub after : earliest ≤ start
    pub before : start + slot_ms wall_clock input ≤ latest
    pub in_hours : in_hour_range wall_clock input input.local_hour_range start ≡ true
    pub leaves_free :
        All
          (LeavesFree (buffer_ms wall_clock input) start (start + slot_ms wall_clock input))
          (busy_of wall_clock input m)

  IsFree-is_open_start :
      (earliest latest start : ℕ) (m : StaffMember)
      → IsFree earliest latest start m
      → is_open_start wall_clock input earliest latest
          (parse_busy (buffer_ms wall_clock input) (busy_of wall_clock input m))
          start
        ≡ true
  unfolding is_open_start
  IsFree-is_open_start earliest latest start m h = ground (
    arith,
    h.after,
    h.before,
    h.in_hours,
    LeavesFree-overlaps_any (buffer_ms wall_clock input) start (start + slot_ms wall_clock input)
        (busy_of wall_clock input m) h.leaves_free,
  )

  IsFree-member_starts :
      (earliest latest start : ℕ) (m : StaffMember)
      → 0 < slot_ms wall_clock input
      → (h : IsFree earliest latest start m)
      → Memᴰ start (member_starts wall_clock input earliest latest h.day m)
  IsFree-member_starts earliest latest start m pos h =
      subst (λ t. Memᴰ t (member_starts wall_clock input earliest latest h.day m)) (sym h.on_grid)
        (CanStart-Memᴰ earliest latest h.day h.round h.opens.0 h.opens.1 h.closes.0 h.closes.1 m pos
          h.works
          (subst
            (λ t.
              t + slot_ms wall_clock input
              ≤ zoned_time_to_utc wall_clock h.day h.closes.0 h.closes.1)
            h.on_grid h.fits)
          (subst
            (λ t.
              is_open_start wall_clock input earliest latest
                (parse_busy (buffer_ms wall_clock input) (busy_of wall_clock input m)) t
              ≡ true)
            h.on_grid (IsFree-is_open_start earliest latest start m h)))

  -- Where the slots last some time and the limit does not cut the list off, `generateSlots` offers
  -- every start of the search window at which an active member of staff can take one: on the grid of
  -- slots from the opening time of a working day, done by closing time, inside the caller's hours and
  -- clear of the member's busy times with their buffer.
  pub free_start_offered :
      (earliest latest start : ℕ) (m : StaffMember)
      → search_window wall_clock input input.from_time input.to_time ≡ some (earliest, latest)
      → 0 < slot_ms wall_clock input
      → length (generate_slots wall_clock input) < input.limit
      → IsFree earliest latest start m
      → (s : TimeSlot) × Memᴰ s (generate_slots wall_clock input) × (s.starts_at ≡ start)
  free_start_offered earliest latest start m window pos room h =
      let os = openings_between wall_clock input earliest latest in
      let e = generate_slots-eq earliest latest window in
      let (o, i, at) =
        Memᴰ-openings_between earliest latest h.day start m h.not_before h.not_after h.workday
          h.listed h.active (IsFree-member_starts earliest latest start m pos h) in
      subst (λ slots. (s : TimeSlot) × Memᴰ s slots × (s.starts_at ≡ start)) (sym e)
        (round_robin-Offers wall_clock input input.limit 0 start (sort_by (λ q. q.at) os)
          (subst (λ slots. length slots < input.limit) e room)
          (o, Memᴰ-sort_by (λ q. q.at) o os i, at))
