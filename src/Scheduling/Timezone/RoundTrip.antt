-- ===== src/Scheduling/Timezone/RoundTrip.antt =====
-- `zonedTimeToUtc` in a zone whose clock changes at most once near the date. An offset is counted in
-- seconds from 24 hours behind UTC, so that it is never negative.
use ai_receptionist.Base.{
  ℕ, ◌+◌, ◌-◌, ◌*◌, ◌/◌, ◌%◌, ◌≤◌, ◌<◌, ◌≡◌, ◌⊎◌, inl, inr, arith, if◌then◌else◌, ltb, Bool-cases,
  subst, sym, ap, ◌∙◌,
}
use ai_receptionist.Scheduling.Timezone.{
  day_ms, minus_offset, zoned_time_to_utc, date_in_tz, minutes_in_tz,
}

-- What the zone's clock shows, with the offset `early` before the change and `late` from it on.
abbrev pub changing_clock : ℕ → ℕ → ℕ → ℕ → ℕ
changing_clock change early late at =
    at / 1000 * 1000 + (if ltb at change then early else late) * 1000 - day_ms

-- A wall-clock time as an instant of a clock in UTC.
abbrev pub naive_time : ℕ → ℕ → ℕ → ℕ
naive_time date hour minute = date * day_ms + (hour * 60 + minute) * 60000

module _ (change early late : ℕ) where
  minus_offset-early :
      (n at : ℕ)
      → at < change
      → day_ms ≤ at / 1000 * 1000
      → minus_offset (changing_clock change early late) n at ≡ n + day_ms - early * 1000
  unfolding minus_offset
  minus_offset-early n at lt far = ground arith

  minus_offset-late :
      (n at : ℕ)
      → change ≤ at
      → day_ms ≤ at / 1000 * 1000
      → minus_offset (changing_clock change early late) n at ≡ n + day_ms - late * 1000
  unfolding minus_offset
  minus_offset-late n at le far = ground arith

  module _ (n : ℕ) (early_le : early ≤ 172800) (late_le : late ≤ 172800)
      (far : 4 * day_ms ≤ n) where
    first_guess-cases :
        ((n < change)
          × (minus_offset (changing_clock change early late) n n ≡ n + day_ms - early * 1000))
        ⊎ ((change ≤ n)
            × (minus_offset (changing_clock change early late) n n ≡ n + day_ms - late * 1000))
    first_guess-cases = elim (Bool-cases (ltb n change)) [
      | inl lt ↦ inl (ground arith, minus_offset-early n n (ground arith) (ground arith))
      | inr ge ↦ inr (ground arith, minus_offset-late n n (ground arith) (ground arith))
    ]

    -- The second guess rests on the side of the change on which the first one lies.
    second_guess-cases :
        (x : ℕ)
        → 2 * day_ms ≤ x
        → ((x < change)
            × (minus_offset (changing_clock change early late) n x ≡ n + day_ms - early * 1000))
          ⊎ ((change ≤ x)
              × (minus_offset (changing_clock change early late) n x ≡ n + day_ms - late * 1000))
    second_guess-cases x enough = elim (Bool-cases (ltb x change)) [
      | inl lt ↦ inl (ground arith, minus_offset-early n x (ground arith) (ground arith))
      | inr ge ↦ inr (ground arith, minus_offset-late n x (ground arith) (ground arith))
    ]

    shows-early :
        n % 1000 ≡ 0
        → n + day_ms < change + early * 1000
        → changing_clock change early late (n + day_ms - early * 1000) ≡ n
    shows-early whole lt = ground arith

    shows-late :
        n % 1000 ≡ 0
        → change + late * 1000 ≤ n + day_ms
        → changing_clock change early late (n + day_ms - late * 1000) ≡ n
    shows-late whole le = ground arith

    -- Outside the hour that the change skips, the clock shows the time that was asked for.
    two_passes-shows :
        n % 1000 ≡ 0
        → (n + day_ms < change + early * 1000) ⊎ (change + late * 1000 ≤ n + day_ms)
        → changing_clock change early late (
            minus_offset
              (changing_clock change early late)
              n
              (minus_offset (changing_clock change early late) n n))
          ≡ n
    two_passes-shows whole shown =
        by_second (minus_offset (changing_clock change early late) n n)
          (ground (arith, first_guess-cases)) (ground (arith, first_guess-cases))
      where
        by_second :
            (x : ℕ)
            → 2 * day_ms ≤ x
            → (x ≡ n + day_ms - early * 1000) ⊎ (x ≡ n + day_ms - late * 1000)
            → changing_clock change early late (minus_offset (changing_clock change early late) n x)
              ≡ n
        by_second x enough side = elim (second_guess-cases x enough) [
          | inl (lt, e) ↦ ap (changing_clock change early late) e ∙ shows-early whole (ground arith)
          | inr (ge, e) ↦ ap (changing_clock change early late) e ∙ shows-late whole (ground arith)
        ]

-- In a zone whose offset changes at most once near the date, `zonedTimeToUtc` gives an instant whose
-- date and time of day in the zone are the ones it was given, unless the change skips them.
pub zoned_time_round_trip :
    (change early late date hour minute : ℕ)
    → early ≤ 172800
    → late ≤ 172800
    → 4 ≤ date
    → hour < 24
    → minute < 60
    → (naive_time date hour minute + day_ms < change + early * 1000)
      ⊎ (change + late * 1000 ≤ naive_time date hour minute + day_ms)
    → (date_in_tz
          (changing_clock change early late)
          (zoned_time_to_utc (changing_clock change early late) date hour minute)
        ≡ date)
      × (minutes_in_tz
            (changing_clock change early late)
            (zoned_time_to_utc (changing_clock change early late) date hour minute)
          ≡ hour * 60 + minute)
unfolding zoned_time_to_utc date_in_tz minutes_in_tz
zoned_time_round_trip change early late date hour minute early_le late_le far hour_lt minute_lt
      shown =
    let shows =
      two_passes-shows change early late (naive_time date hour minute) early_le late_le
        (omega arith) (omega arith) shown in
    (ap (λ t. t / day_ms) shows ∙ omega arith, ap (λ t. t % day_ms / 60000) shows ∙ omega arith)

-- Behind UTC, `zonedTimeToUtc` gives an instant before the change for a time of day that the change
-- skips, and a clock time earlier than the one asked for is shown then.
pub skipped_time_before_change :
    (change early late date hour minute : ℕ)
    → early ≤ 86400
    → late ≤ 86400
    → 4 ≤ date
    → change + early * 1000 ≤ naive_time date hour minute + day_ms
    → naive_time date hour minute + day_ms < change + late * 1000
    → (zoned_time_to_utc (changing_clock change early late) date hour minute < change)
      × (changing_clock change early late
            (zoned_time_to_utc (changing_clock change early late) date hour minute)
          < naive_time date hour minute)
unfolding zoned_time_to_utc
skipped_time_before_change change early late date hour minute early_le late_le far skipped_from
      skipped_to =
    let n = naive_time date hour minute in
    let first : minus_offset clock n n ≡ n + day_ms - early * 1000 =
      minus_offset-early change early late n n (omega arith) (omega arith) in
    let second =
      minus_offset-late change early late n (minus_offset clock n n) (omega arith) (omega arith) in
    let whole : n % 1000 ≡ 0 = omega arith in
    let earlier : n + day_ms - late * 1000 < change = omega arith in
    (
      subst (λ t. t < change) (sym second) earlier,
      subst (λ t. clock t < n) (sym second) (ground arith),
    )
  where
    clock : ℕ → ℕ
    clock = changing_clock change early late
