-- ===== src/Scheduling/Availability.antt =====
-- packages/scheduling/availability.ts: the open slots of the staff. The zone's clock is a parameter
-- (see Timezone); `Date.parse` and the split of a text "HH:MM" give `none` where they give NaN, and
-- an hour range of the caller is compared in minutes.
pub mod Parts
pub mod Openings
pub mod Order
pub mod Sound
pub mod Complete
pub mod Recheck
use ai_receptionist.Base.{
  ℕ, zero, suc, ◌+◌, ◌-◌, ◌*◌, ◌/◌, ◌%◌, min, max, String, Bool, true, false, not, ◌&&◌, ◌||◌, List,
  [], ◌∷◌, ◌++◌, Option, none, some, leb, ltb, ◌==◌, any, keep, length, get_elem?, Dict, lookup,
  or_else, if◌then◌else◌, ◌=ˢ◌, sort_by,
}
use ai_receptionist.Scheduling.Timezone.{
  day_ms, zoned_time_to_utc, date_in_tz, weekday_in_tz, minutes_in_tz,
}

pub record DayHours : Type 0 where
  pub open_at : Option (ℕ × ℕ)
  pub close_at : Option (ℕ × ℕ)
  pub closed : Bool

-- By weekday.
abbrev pub BusinessHours : Type 0
BusinessHours = ℕ → Option DayHours

pub record StaffMember : Type 0 where
  pub id : String
  pub name : String
  pub working_hours : Option BusinessHours
  pub is_active : Bool

pub record BusyInterval : Type 0 where
  pub starts : Option ℕ
  pub ends : Option ℕ

pub record SchedulingSettings : Type 0 where
  pub slot_duration_minutes : ℕ
  pub buffer_minutes : ℕ
  pub min_notice_minutes : ℕ
  pub max_advance_days : ℕ
  pub holidays : List ℕ

pub record TimeSlot : Type 0 where
  pub staff_id : String
  pub staff_name : String
  pub starts_at : ℕ
  pub ends_at : ℕ

pub record AvailabilityInput : Type 0 where
  pub settings : SchedulingSettings
  pub business_hours : BusinessHours
  pub staff : List StaffMember
  pub busy_by_staff : Dict (List BusyInterval)
  pub from_time : Option ℕ
  pub to_time : Option ℕ
  pub now : ℕ
  pub local_hour_range : Option (ℕ × ℕ)
  pub limit : ℕ

pub record Interval : Type 0 where
  pub start : ℕ
  pub stop : ℕ

-- The `map` of `parseBusy`, `none` where its `filter` drops the interval.
unfoldable pub parse_interval : ℕ → BusyInterval → Option Interval
parse_interval buffer_ms b = elim b.starts [
  | none ↦ none
  | some s ↦ elim b.ends [
    | none ↦ none
    | some e ↦ some (record { start = s - buffer_ms; stop = e + buffer_ms })
  ]
]

abbrev pub cons_some : Option Interval → List Interval → List Interval
cons_some none busy = busy
cons_some (some i) busy = i ∷ busy

unfoldable pub parsed_busy : ℕ → List BusyInterval → List Interval
parsed_busy buffer_ms [] = []
parsed_busy buffer_ms (b ∷ busy) =
    cons_some (parse_interval buffer_ms b) (parsed_busy buffer_ms busy)

unfoldable pub parse_busy : ℕ → List BusyInterval → List Interval
parse_busy buffer_ms busy = sort_by (λ b. b.start) (parsed_busy buffer_ms busy)

unfoldable pub overlaps_any : ℕ → ℕ → List Interval → Bool
overlaps_any start stop [] = false
overlaps_any start stop (b ∷ busy) =
    let later = overlaps_any start stop busy in
    if leb stop b.start then false else if ltb start b.stop then true else later

-- The loop over the starts of one day: on fuel, with `day_fuel` enough.
unfoldable pub day_starts : ℕ → ℕ → ℕ → ℕ → List ℕ
day_starts zero slot_ms close start = []
day_starts (suc n) slot_ms close start = elim (leb (start + slot_ms) close) [
  | true ↦ start ∷ day_starts n slot_ms close (start + slot_ms)
  | false ↦ []
]

unfoldable pub day_fuel : ℕ → ℕ → ℕ → ℕ
day_fuel slot_ms close start = (close - start) / slot_ms + 1

-- A start, and those who are free then, in order; never empty.
pub record Opening : Type 0 where
  pub at : ℕ
  pub first : StaffMember
  pub more : List StaffMember

-- `list.push(member); byStart.set(start, list)`
unfoldable pub add_candidate : StaffMember → ℕ → List Opening → List Opening
add_candidate member start [] = record { at = start; first = member; more = [] } ∷ []
add_candidate member start (o ∷ openings) =
    let rest = add_candidate member start openings in
    if o.at == start then record o { more = o.more ++ member ∷ [] } ∷ openings else o ∷ rest

unfoldable pub add_starts : StaffMember → List ℕ → List Opening → List Opening
add_starts member [] openings = openings
add_starts member (s ∷ starts) openings = add_starts member starts (add_candidate member s openings)

abbrev pub includes_day : List ℕ → ℕ → Bool
includes_day days day = any (λ d. d == day) days

-- `candidates[rr % candidates.length]`
unfoldable pub pick_candidate : ℕ → Opening → StaffMember
pick_candidate rr o = or_else (get_elem? (o.first ∷ o.more) (rr % suc (length o.more))) o.first

module _ (wall_clock : ℕ → ℕ) (input : AvailabilityInput) where
  abbrev pub slot_ms : ℕ
  slot_ms = input.settings.slot_duration_minutes * 60000

  abbrev pub buffer_ms : ℕ
  buffer_ms = input.settings.buffer_minutes * 60000

  unfoldable pub in_hour_range : Option (ℕ × ℕ) → ℕ → Bool
  in_hour_range none start = true
  in_hour_range (some (start_hour, end_hour)) start =
      let minutes = minutes_in_tz wall_clock start in
      not (ltb minutes (start_hour * 60) || leb (end_hour * 60) minutes)

  -- The `continue`s of the innermost loop.
  unfoldable pub is_open_start : ℕ → ℕ → List Interval → ℕ → Bool
  is_open_start earliest latest busy start =
      not (ltb start earliest || ltb latest (start + slot_ms))
      && (in_hour_range input.local_hour_range start
          && not (overlaps_any start (start + slot_ms) busy))

  -- The starts of one member between two clock times of one day.
  unfoldable pub starts_between : ℕ → ℕ → ℕ → StaffMember → Option (ℕ × ℕ) → Option (ℕ × ℕ) → List ℕ
  starts_between earliest latest day member (some (open_h, open_m)) (some (close_h, close_m)) =
      let open_ms = zoned_time_to_utc wall_clock day open_h open_m in
      let close_ms = zoned_time_to_utc wall_clock day close_h close_m in
      keep
        (is_open_start earliest latest
          (parse_busy buffer_ms (or_else (lookup member.id input.busy_by_staff) [])))
        (day_starts (day_fuel slot_ms close_ms open_ms) slot_ms close_ms open_ms)
  starts_between earliest latest day member _ _ = []

  unfoldable pub hours_on : ℕ → StaffMember → Option DayHours
  hours_on day member =
      or_else member.working_hours input.business_hours
        (weekday_in_tz wall_clock (zoned_time_to_utc wall_clock day 12 0))

  -- One round of the loop over the staff.
  unfoldable pub member_starts : ℕ → ℕ → ℕ → StaffMember → List ℕ
  member_starts earliest latest day member = elim (hours_on day member) [
    | none ↦ []
    | some hours ↦
        if hours.closed
        then []
        else starts_between earliest latest day member hours.open_at hours.close_at
  ]

  unfoldable pub add_members : ℕ → ℕ → ℕ → List StaffMember → List Opening → List Opening
  add_members earliest latest day [] openings = openings
  add_members earliest latest day (m ∷ staff) openings =
      add_members earliest latest day staff
        (add_starts m (member_starts earliest latest day m) openings)

  -- The loop over the days, from `day` on, of which `n` are left.
  unfoldable pub add_days : ℕ → ℕ → ℕ → ℕ → List StaffMember → List Opening → List Opening
  add_days zero earliest latest day staff openings = openings
  add_days (suc n) earliest latest day staff openings = add_days n earliest latest (day + 1) staff (
      if includes_day input.settings.holidays day
      then openings
      else add_members earliest latest day staff openings)

  -- The loop over the sorted starts, of which `left` may still be returned.
  unfoldable pub round_robin : ℕ → ℕ → List Opening → List TimeSlot
  round_robin zero rr openings = []
  round_robin (suc left) rr [] = []
  round_robin (suc left) rr (o ∷ openings) =
      let member = pick_candidate rr o in
      record {
        staff_id = member.id;
        staff_name = member.name;
        starts_at = o.at;
        ends_at = o.at + slot_ms;
      }
      ∷ round_robin left (rr + 1) openings

  unfoldable pub openings_between : ℕ → ℕ → List Opening
  openings_between earliest latest =
      let first_day = date_in_tz wall_clock earliest in
      let last_day = date_in_tz wall_clock latest in
      add_days (suc last_day - first_day) earliest latest first_day
        (keep (λ m. m.is_active) input.staff) []

  -- The search window, `none` where the source returns no slot at once.
  unfoldable pub search_window : Option ℕ → Option ℕ → Option (ℕ × ℕ)
  search_window (some from_time) (some to_time) =
      let earliest = max from_time (input.now + input.settings.min_notice_minutes * 60000) in
      let latest = min to_time (input.now + input.settings.max_advance_days * 86400000) in
      if leb latest earliest then none else some (earliest, latest)
  search_window _ _ = none

  unfoldable pub generate_slots : List TimeSlot
  generate_slots = elim (search_window input.from_time input.to_time) [
    | none ↦ []
    | some (earliest, latest) ↦
        round_robin input.limit 0 (sort_by (λ o. o.at) (openings_between earliest latest))
  ]

-- The input of the search that `isSlotAvailable` makes; the proposed times are as the caller gives them.
abbrev pub proposal : AvailabilityInput → String → ℕ → ℕ → AvailabilityInput
proposal input staff_id starts_at ends_at = record input {
  staff = keep (λ m. m.id =ˢ staff_id) input.staff;
  from_time = some starts_at;
  to_time = some ends_at;
  limit = 5;
  local_hour_range = none;
}

-- `isSlotAvailable`
unfoldable pub is_slot_available : (ℕ → ℕ) → AvailabilityInput → String → ℕ → ℕ → Bool
is_slot_available wall_clock input staff_id starts_at ends_at =
    any (λ s. (s.starts_at == starts_at) && (s.staff_id =ˢ staff_id))
      (generate_slots wall_clock (proposal input staff_id starts_at ends_at))
