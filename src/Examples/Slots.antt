-- ===== src/Examples/Slots.antt =====
-- Slots, their check, and the zone's clock at concrete input: 20 days after 1970-01-01, a Wednesday,
-- five and a half hours ahead of UTC.
use mathlib.Core.List.{Memᴰ}
use ai_receptionist.Base.{
  ℕ, ◌+◌, ◌-◌, ◌*◌, ◌/◌, ◌<◌, ◌≡◌, refl, sym, subst, lookup, sort_by, insert_by, true, false, List,
  [], ◌∷◌, none, some, inr, length, All, arith,
}
use ai_receptionist.Scheduling.Timezone.{
  day_ms, date_in_tz, minutes_in_tz, zoned_time_to_utc, weekday_in_tz, minus_offset,
}
use ai_receptionist.Scheduling.Timezone.RoundTrip.{
  changing_clock, naive_time, zoned_time_round_trip, skipped_time_before_change,
}
use ai_receptionist.Scheduling.Availability.{
  BusinessHours, StaffMember, TimeSlot, AvailabilityInput, generate_slots, search_window,
  is_slot_available, round_robin, openings_between, add_days, add_members, add_starts,
  member_starts, hours_on, starts_between, day_starts, day_fuel, is_open_start, in_hour_range,
  add_candidate, overlaps_any, parse_busy, parse_interval, parsed_busy, pick_candidate,
}
use ai_receptionist.Scheduling.Availability.Openings.{IsSlotOf}
use ai_receptionist.Scheduling.Availability.Sound.{IsBookable, slots-IsBookable}
use ai_receptionist.Scheduling.Availability.Complete.{free_start_offered, IsFree}

abbrev kolkata : ℕ → ℕ
kolkata at = at / 1000 * 1000 + 19800000

abbrev office_hours : BusinessHours
office_hours weekday =
    some (record { open_at = some (9, 0); close_at = some (12, 0); closed = false })

abbrev asha : StaffMember
asha = record { id = "a"; name = "Asha"; working_hours = none; is_active = true }

abbrev ravi : StaffMember
ravi = record { id = "r"; name = "Ravi"; working_hours = none; is_active = true }

-- 20 days after 1970-01-01, at 09:00 on the zone's clock.
abbrev nine : ℕ
nine = 20 * day_ms + 32400000 - 19800000

-- Asha is busy from 09:30 to 10:00.
abbrev request : AvailabilityInput
request = record {
  settings = record {
    slot_duration_minutes = 60;
    buffer_minutes = 0;
    min_notice_minutes = 60;
    max_advance_days = 30;
    holidays = 21 ∷ [];
  };
  business_hours = office_hours;
  staff = asha ∷ ravi ∷ [];
  busy_by_staff =
      ("a", record { starts = some (nine + 1800000); ends = some (nine + 3600000) } ∷ []) ∷ [];
  from_time = some (20 * day_ms);
  to_time = some (22 * day_ms);
  now = 19 * day_ms;
  local_hour_range = none;
  limit = 10;
}

abbrev slot : StaffMember → ℕ → TimeSlot
slot m at = record { staff_id = m.id; staff_name = m.name; starts_at = at; ends_at = at + 3600000 }

abbrev offered : List TimeSlot
offered = slot ravi nine ∷ slot ravi (nine + 3600000) ∷ slot asha (nine + 7200000) ∷ []

generate_slots_test : generate_slots kolkata request ≡ offered
unfolding generate_slots search_window round_robin sort_by openings_between add_days date_in_tz
    add_members add_starts member_starts hours_on starts_between day_starts day_fuel
    zoned_time_to_utc minus_offset is_open_start in_hour_range lookup insert_by add_candidate
    overlaps_any parse_busy parse_interval parsed_busy pick_candidate minutes_in_tz weekday_in_tz
generate_slots_test = refl

slots-IsBookable_example :
    All (IsSlotOf kolkata request (IsBookable kolkata request)) (generate_slots kolkata request)
slots-IsBookable_example = slots-IsBookable kolkata request

ravi-IsFree : IsFree kolkata request (20 * day_ms) (22 * day_ms) (nine + 3600000) ravi
unfolding date_in_tz zoned_time_to_utc hours_on minus_offset in_hour_range lookup
ravi-IsFree = record {
  day = 20;
  round = 1;
  opens = (9, 0);
  closes = (12, 0);
  listed = Memᴰ.tail (Memᴰ.head refl);
  active = refl;
  workday = refl;
  not_before = omega arith;
  not_after = omega arith;
  works = (_, refl, refl, refl, refl);
  on_grid = refl;
  fits = omega arith;
  after = omega arith;
  before = omega arith;
  in_hours = refl;
  leaves_free = tt;
}

requested_window :
    search_window kolkata request (some (20 * day_ms)) (some (22 * day_ms))
    ≡ some (20 * day_ms, 22 * day_ms)
unfolding search_window
requested_window = refl

three_slots : length (generate_slots kolkata request) < 10
three_slots = subst (λ slots. length slots < 10) (sym generate_slots_test) (omega arith)

free_start_offered_example :
    (s : TimeSlot) × Memᴰ s (generate_slots kolkata request) × (s.starts_at ≡ nine + 3600000)
free_start_offered_example =
    free_start_offered kolkata request (20 * day_ms) (22 * day_ms) (nine + 3600000) ravi
      requested_window (omega arith) three_slots ravi-IsFree

ravi_at_ten_accepted :
    is_slot_available kolkata request "r" (nine + 3600000) (nine + 7200000) ≡ true
unfolding is_slot_available generate_slots search_window round_robin sort_by openings_between
    add_days date_in_tz add_members add_starts member_starts hours_on starts_between day_starts
    day_fuel zoned_time_to_utc minus_offset is_open_start in_hour_range lookup insert_by
    add_candidate overlaps_any parse_busy parse_interval parsed_busy pick_candidate minutes_in_tz
    weekday_in_tz
ravi_at_ten_accepted = refl

-- Five hours behind UTC, then four: 02:00 to 03:00 on day 20 is skipped, at 07:00 in UTC.
abbrev new_york_change : ℕ
new_york_change = 20 * day_ms + 25200000

zoned_time_round_trip_example :
    (date_in_tz
        (changing_clock new_york_change 68400 72000)
        (zoned_time_to_utc (changing_clock new_york_change 68400 72000) 20 9 30)
      ≡ 20)
    × (minutes_in_tz
          (changing_clock new_york_change 68400 72000)
          (zoned_time_to_utc (changing_clock new_york_change 68400 72000) 20 9 30)
        ≡ 570)
zoned_time_round_trip_example =
    zoned_time_round_trip new_york_change 68400 72000 20 9 30 (omega arith) (omega arith)
      (omega arith) (omega arith) (omega arith) (inr (omega arith))

skipped_time_before_change_example :
    (zoned_time_to_utc (changing_clock new_york_change 68400 72000) 20 2 30 < new_york_change)
    × (changing_clock new_york_change 68400 72000
          (zoned_time_to_utc (changing_clock new_york_change 68400 72000) 20 2 30)
        < naive_time 20 2 30)
skipped_time_before_change_example =
    skipped_time_before_change new_york_change 68400 72000 20 2 30 (omega arith) (omega arith)
      (omega arith) (omega arith) (omega arith)
