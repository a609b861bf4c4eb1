-- ===== src/Scheduling/Availability/Sound.antt =====
-- `generateSlots`: each slot can be booked.
use mathlib.Core.List.{Memᴰ}
use ai_receptionist.Base.{
  ℕ, suc, ◌+◌, ◌-◌, ◌*◌, ◌≤◌, ◌≡◌, refl, Bool, true, false, List, [], Option, none, some, arith,
  All, Memᴰ-All, All-kept, All-Memᴰ, keep-Memᴰ, keep, if◌then◌else◌, lookup, or_else, sort_by,
  All-sort_by,
}
use ai_receptionist.Scheduling.Timezone.{date_in_tz, zoned_time_to_utc}
use ai_receptionist.Scheduling.Availability.{
  DayHours, StaffMember, BusyInterval, AvailabilityInput, includes_day, slot_ms, buffer_ms,
  in_hour_range, is_open_start, starts_between, hours_on, member_starts, round_robin,
  openings_between, search_window, generate_slots, parse_busy, overlaps_any, day_starts, day_fuel,
}
use ai_receptionist.Scheduling.Availability.Parts.{
  LeavesFree, overlaps_any-LeavesFree, day_starts-All,
}
use ai_receptionist.Scheduling.Availability.Openings.{
  IsSlotOf, Holds, add_days-Holds, round_robin-IsSlotOf,
}

module _ (wall_clock : ℕ → ℕ) (input : AvailabilityInput) where
  abbrev pub busy_of : StaffMember → List BusyInterval
  busy_of m = or_else (lookup m.id input.busy_by_staff) []

  -- The hours the member works on the day.
  abbrev pub WorksFrom : StaffMember → ℕ → (ℕ × ℕ) → (ℕ × ℕ) → Type 0
  WorksFrom m day opens closes =
      (hours : DayHours) × (hours_on wall_clock input day m ≡ some hours)
      × (hours.closed ≡ false)
      × (hours.open_at ≡ some opens)
      × (hours.close_at ≡ some closes)

  -- The slot from `start` lies within the limits of the settings and of the caller.
  abbrev pub IsInWindow : ℕ → Type 0
  IsInWindow start =
      (from_time to_time : ℕ) × (input.from_time ≡ some from_time)
      × (input.to_time ≡ some to_time)
      × (from_time ≤ start)
      × (input.now + input.settings.min_notice_minutes * 60000 ≤ start)
      × (start + slot_ms wall_clock input ≤ to_time)
      × (start + slot_ms wall_clock input ≤ input.now + input.settings.max_advance_days * 86400000)

  -- The member can be booked from `start` on.
  abbrev pub IsBookable : ℕ → StaffMember → Type 0
  IsBookable start m =
      (m.is_active ≡ true)
      × Memᴰ m input.staff
      × IsInWindow start
      × (in_hour_range wall_clock input input.local_hour_range start ≡ true)
      × All (LeavesFree (buffer_ms wall_clock input) start (start + slot_ms wall_clock input))
          (busy_of m)
      × ((day : ℕ) × (open_h open_m close_h close_m : ℕ) × (includes_day input.settings.holidays day
            ≡ false)
          × WorksFrom m day (open_h, open_m) (close_h, close_m)
          × (zoned_time_to_utc wall_clock day open_h open_m ≤ start)
          × (start + slot_ms wall_clock input ≤ zoned_time_to_utc wall_clock day close_h close_m))

  -- A start the loop over the day accepts for the member.
  abbrev CanStart : ℕ → ℕ → ℕ → StaffMember → ℕ → Type 0
  CanStart earliest latest day m start =
      (open_h open_m close_h close_m : ℕ) × WorksFrom m day (open_h, open_m) (close_h, close_m)
      × (zoned_time_to_utc wall_clock day open_h open_m ≤ start)
      × (start + slot_ms wall_clock input ≤ zoned_time_to_utc wall_clock day close_h close_m)
      × (is_open_start wall_clock input earliest latest
            (parse_busy (buffer_ms wall_clock input) (busy_of m)) start
          ≡ true)

  starts_between-CanStart :
      (earliest latest day start : ℕ) (m : StaffMember) (hours : DayHours)
      → hours_on wall_clock input day m ≡ some hours
      → hours.closed ≡ false
      → Memᴰ start
          (starts_between wall_clock input earliest latest day m hours.open_at hours.close_at)
      → CanStart earliest latest day m start
  unfolding starts_between
  starts_between-CanStart earliest latest day start m hours on works i =
      by_clock hours.open_at hours.close_at refl refl i
    where
      by_clock :
          (opens closes : Option (ℕ × ℕ))
          → hours.open_at ≡ opens
          → hours.close_at ≡ closes
          → Memᴰ start (starts_between wall_clock input earliest latest day m opens closes)
          → CanStart earliest latest day m start
      by_clock none closes p q k = elim k [ ]
      by_clock (some (open_h, open_m)) none p q k = elim k [ ]
      by_clock (some (open_h, open_m)) (some (close_h, close_m)) p q k =
          let open_ms = zoned_time_to_utc wall_clock day open_h open_m in
          let close_ms = zoned_time_to_utc wall_clock day close_h close_m in
          let test =
            is_open_start wall_clock input earliest latest
              (parse_busy (buffer_ms wall_clock input) (busy_of m)) in
          let slot = slot_ms wall_clock input in
          let starts = day_starts (day_fuel slot close_ms open_ms) slot close_ms open_ms in
          let (lo, hi) =
            All-Memᴰ (λ s. (open_ms ≤ s) × (s + slot ≤ close_ms)) starts start
              (day_starts-All (day_fuel slot close_ms open_ms) slot close_ms open_ms)
              (keep-Memᴰ test start starts k) in
          (
            open_h,
            open_m,
            close_h,
            close_m,
            (hours, on, works, p, q),
            lo,
            hi,
            All-Memᴰ (λ s. test s ≡ true) (keep test starts) start (All-kept test starts) k,
          )

  member_starts-CanStart :
      (earliest latest day start : ℕ) (m : StaffMember)
      → Memᴰ start (member_starts wall_clock input earliest latest day m)
      → CanStart earliest latest day m start
  unfolding member_starts
  member_starts-CanStart earliest latest day start m i =
      by_hours (hours_on wall_clock input day m) refl i
    where
      by_closed :
          (hours : DayHours) (b : Bool)
          → hours_on wall_clock input day m ≡ some hours
          → hours.closed ≡ b
          → Memᴰ start (
              if b
              then []
              else starts_between wall_clock input earliest latest day m hours.open_at
                  hours.close_at)
          → CanStart earliest latest day m start
      by_closed hours true on e k = elim k [ ]
      by_closed hours false on e k =
          starts_between-CanStart earliest latest day start m hours on e k

      by_hours :
          (o : Option DayHours)
          → hours_on wall_clock input day m ≡ o
          → Memᴰ start (elim o [
            | none ↦ []
            | some hours ↦
                if hours.closed
                then []
                else starts_between wall_clock input earliest latest day m hours.open_at
                    hours.close_at
          ])
          → CanStart earliest latest day m start
      by_hours none e k = elim k [ ]
      by_hours (some hours) e k = by_closed hours hours.closed e refl k

  pub search_window-IsInWindow :
      (earliest latest start : ℕ)
      → search_window wall_clock input input.from_time input.to_time ≡ some (earliest, latest)
      → earliest ≤ start
      → start + slot_ms wall_clock input ≤ latest
      → IsInWindow start
  unfolding search_window
  search_window-IsInWindow earliest latest start e lo hi =
      by_times input.from_time input.to_time refl refl e
    where
      by_times :
          (x y : Option ℕ)
          → input.from_time ≡ x
          → input.to_time ≡ y
          → search_window wall_clock input x y ≡ some (earliest, latest)
          → IsInWindow start
      by_times none y p q r = absurd (ground arith)
      by_times (some a) none p q r = absurd (ground arith)
      by_times (some a) (some b) p q r =
          (a, b, p, q, ground arith, ground arith, ground arith, ground arith)

  is_open_start_sound :
      (earliest latest start : ℕ) (m : StaffMember)
      → is_open_start wall_clock input earliest latest
          (parse_busy (buffer_ms wall_clock input) (busy_of m))
          start
        ≡ true
      → (earliest ≤ start)
        × (start + slot_ms wall_clock input ≤ latest)
        × (in_hour_range wall_clock input input.local_hour_range start ≡ true)
        × (overlaps_any start
              (start + slot_ms wall_clock input)
              (parse_busy (buffer_ms wall_clock input) (busy_of m))
            ≡ false)
  unfolding is_open_start
  is_open_start_sound earliest latest start m h =
      (ground arith, ground arith, ground arith, ground arith)

  CanStart-IsBookable :
      (earliest latest day start : ℕ) (m : StaffMember)
      → search_window wall_clock input input.from_time input.to_time ≡ some (earliest, latest)
      → includes_day input.settings.holidays day ≡ false
      → Memᴰ m (keep (λ c. c.is_active) input.staff)
      → CanStart earliest latest day m start
      → IsBookable start m
  CanStart-IsBookable earliest latest day start m window workday i
        (oh, om, ch, cm, works, lo, hi, ok) =
      let (after, before, range, free) = is_open_start_sound earliest latest start m ok in
      (
        All-Memᴰ (λ c. c.is_active ≡ true) (keep (λ c. c.is_active) input.staff) m
            (All-kept (λ c. c.is_active) input.staff) i,
        keep-Memᴰ (λ c. c.is_active) m input.staff i,
        search_window-IsInWindow earliest latest start window after before,
        range,
        Memᴰ-All (LeavesFree (buffer_ms wall_clock input) start (start + slot_ms wall_clock input))
            (busy_of m)
            (λ b j.
              overlaps_any-LeavesFree (buffer_ms wall_clock input) start
                (start + slot_ms wall_clock input) b (busy_of m) free j),
        (day, oh, om, ch, cm, workday, works, lo, hi),
      )

  openings_between-IsBookable :
      (earliest latest : ℕ)
      → search_window wall_clock input input.from_time input.to_time ≡ some (earliest, latest)
      → All (Holds IsBookable) (openings_between wall_clock input earliest latest)
  unfolding openings_between
  openings_between-IsBookable earliest latest window =
      add_days-Holds wall_clock input IsBookable
        (suc (date_in_tz wall_clock latest) - date_in_tz wall_clock earliest) earliest latest
        (date_in_tz wall_clock earliest) (keep (λ m. m.is_active) input.staff) []
        (λ day workday.
          Memᴰ-All
            (λ m. All (λ s. IsBookable s m) (member_starts wall_clock input earliest latest day m))
            (keep (λ m. m.is_active) input.staff)
            (λ m i.
              Memᴰ-All (λ s. IsBookable s m) (member_starts wall_clock input earliest latest day m)
                (λ s j.
                  CanStart-IsBookable earliest latest day s m window workday i
                    (member_starts-CanStart earliest latest day s m j))))
        tt

  -- Every slot that `generateSlots` returns belongs to a listed, active member of staff, whose id and
  -- name it carries, lasts one slot duration, and can be booked: it respects the minimum notice, the
  -- maximum advance, the caller's window and hour range, lies within the member's open hours of a day
  -- that is no holiday, and overlaps none of the member's busy times with the buffer on both sides.
  pub slots-IsBookable :
      All (IsSlotOf wall_clock input IsBookable) (generate_slots wall_clock input)
  unfolding generate_slots
  slots-IsBookable = by_window (search_window wall_clock input input.from_time input.to_time) refl
    where
      by_window :
          (o : Option (ℕ × ℕ))
          → search_window wall_clock input input.from_time input.to_time ≡ o
          → All (IsSlotOf wall_clock input IsBookable) (elim o [
            | none ↦ []
            | some (earliest, latest) ↦
                round_robin wall_clock input input.limit 0
                  (sort_by (λ o. o.at) (openings_between wall_clock input earliest latest))
          ])
      by_window none e = tt
      by_window (some (earliest, latest)) e =
          round_robin-IsSlotOf wall_clock input IsBookable input.limit 0
            (sort_by (λ o. o.at) (openings_between wall_clock input earliest latest))
            (All-sort_by (λ o. o.at) (Holds IsBookable)
              (openings_between wall_clock input earliest latest)
              (openings_between-IsBookable earliest latest e))
