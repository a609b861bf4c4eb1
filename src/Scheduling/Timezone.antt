-- ===== src/Scheduling/Timezone.antt =====
-- packages/scheduling/timezone.ts: instants are milliseconds since 1970 and a calendar date is its
-- number of days since then (YYYY-MM-DD texts sort in the same order). `wall_clock` is what Intl
-- reports: the instant at which a clock in UTC shows what the zone's clock shows now, in whole
-- seconds. Instants lie far enough from 1970 that no difference is negative.
pub mod RoundTrip
use ai_receptionist.Base.{ℕ, ◌+◌, ◌-◌, ◌*◌, ◌/◌, ◌%◌}

abbrev pub day_ms : ℕ
day_ms = 86400000

module _ (wall_clock : ℕ → ℕ) where
  -- `naive - timezoneOffsetMs(at)`
  unfoldable pub minus_offset : ℕ → ℕ → ℕ
  minus_offset naive at = naive + at / 1000 * 1000 - wall_clock at

  -- `zonedTimeToUtc`, in its two passes.
  unfoldable pub zoned_time_to_utc : ℕ → ℕ → ℕ → ℕ
  zoned_time_to_utc date hour minute =
      let naive = date * day_ms + (hour * 60 + minute) * 60000 in
      minus_offset naive (minus_offset naive naive)

  -- `dateStringInTz`
  unfoldable pub date_in_tz : ℕ → ℕ
  date_in_tz at = wall_clock at / day_ms

  -- `weekdayInTz`, from Sunday as 0; day 0 was a Thursday.
  unfoldable pub weekday_in_tz : ℕ → ℕ
  weekday_in_tz at = (date_in_tz at + 4) % 7

  -- `hourInTz`, counted in minutes.
  unfoldable pub minutes_in_tz : ℕ → ℕ
  minutes_in_tz at = wall_clock at % day_ms / 60000
