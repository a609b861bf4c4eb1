-- ===== src/Scheduling/Availability/Parts.antt =====
-- The loop over the starts of a day, and the test for overlaps.
use mathlib.Core.List.{Memᴰ}
use ai_receptionist.Base.{
  ℕ, zero, suc, ◌+◌, ◌-◌, ◌*◌, ◌≤◌, ◌<◌, ◌≡◌, refl, sym, ap, ◌∙◌, subst, ◌⊎◌, inl, inr, Bool, true,
  false, List, [], ◌∷◌, Option, none, some, arith, leb, ltb, All, All-map, All-Memᴰ,
  sort_by-IsSorted, All-sort_by, IsSorted, Memᴰ-sort_by, Bool-cases,
}
use ai_receptionist.Scheduling.Availability.{
  BusyInterval, Interval, parse_interval, cons_some, parsed_busy, parse_busy, overlaps_any,
  day_starts, day_fuel,
}

pub day_starts-All :
    (n slot_ms close start : ℕ)
    → All (λ s. (start ≤ s) × (s + slot_ms ≤ close)) (day_starts n slot_ms close start)
unfolding day_starts
day_starts-All zero slot_ms close start = tt
day_starts-All (suc n) slot_ms close start =
    by_test (leb (start + slot_ms) close) refl (day_starts-All n slot_ms close (start + slot_ms))
  where
    by_test :
        (b : Bool)
        → leb (start + slot_ms) close ≡ b
        → All
            (λ s. (start + slot_ms ≤ s) × (s + slot_ms ≤ close))
            (day_starts n slot_ms close (start + slot_ms))
        → All
            (λ s. (start ≤ s) × (s + slot_ms ≤ close))
            (elim b [ true ↦ start ∷ day_starts n slot_ms close (start + slot_ms) | false ↦ [] ])
    by_test true e later =
        ((omega arith, ground arith), All-map (λ s (lo, hi). (omega arith, hi)) _ later)
    by_test false e later = tt

-- With fuel for `k` rounds, the k-th start is among them where the slot still fits.
pub Memᴰ-day_starts :
    (n k slot_ms close start : ℕ)
    → k < n
    → start + k * slot_ms + slot_ms ≤ close
    → Memᴰ (start + k * slot_ms) (day_starts n slot_ms close start)
unfolding day_starts
Memᴰ-day_starts zero k slot_ms close start lt fits = absurd (omega arith)
Memᴰ-day_starts (suc n) zero slot_ms close start lt fits =
    let here : true ≡ leb (start + slot_ms) close = ground arith in
    subst
      (λ b.
        Memᴰ (start + 0 * slot_ms)
          (elim b [ true ↦ start ∷ day_starts n slot_ms close (start + slot_ms) | false ↦ [] ]))
      here (Memᴰ.head (omega arith))
Memᴰ-day_starts (suc n) (suc k) slot_ms close start lt fits =
    let here : true ≡ leb (start + slot_ms) close = grind arith in
    let later = Memᴰ-day_starts n k slot_ms close (start + slot_ms) (omega arith) (grind arith) in
    let e : start + slot_ms + k * slot_ms ≡ start + suc k * slot_ms = grind arith in
    subst
      (λ b.
        Memᴰ (start + suc k * slot_ms)
          (elim b [ true ↦ start ∷ day_starts n slot_ms close (start + slot_ms) | false ↦ [] ]))
      here (Memᴰ.tail (subst (λ x. Memᴰ x (day_starts n slot_ms close (start + slot_ms))) e later))

pub day_fuel-gt :
    (k slot_ms close start : ℕ)
    → 0 < slot_ms
    → start + k * slot_ms + slot_ms ≤ close
    → k < day_fuel slot_ms close start
unfolding day_fuel
day_fuel-gt k slot_ms close start pos fits = grind arith

-- Two spans of time that do not overlap.
abbrev pub Apart : ℕ → ℕ → Interval → Type 0
Apart start stop b = (stop ≤ b.start) ⊎ (b.stop ≤ start)

abbrev pub LeavesFreeAt : ℕ → ℕ → ℕ → Option ℕ → Option ℕ → Type 0
LeavesFreeAt buffer_ms start stop (some s) (some e) =
    (stop ≤ s - buffer_ms) ⊎ (e + buffer_ms ≤ start)
LeavesFreeAt buffer_ms start stop _ _ = Unit

-- A busy time that can be read, with the buffer on both sides, does not overlap.
abbrev pub LeavesFree : ℕ → ℕ → ℕ → BusyInterval → Type 0
LeavesFree buffer_ms start stop b = LeavesFreeAt buffer_ms start stop b.starts b.ends

overlaps_any-All :
    (start stop : ℕ) (busy : List Interval)
    → IsSorted (λ b. b.start) busy
    → overlaps_any start stop busy ≡ false
    → All (Apart start stop) busy
unfolding overlaps_any
overlaps_any-All start stop [] sorted h = tt
overlaps_any-All start stop (b ∷ busy) (low, sorted) h = elim (Bool-cases (leb stop b.start)) [
  | inl past ↦ (inl (ground arith), All-map (λ c le. inl (ground arith)) busy low)
  | inr before ↦ elim (Bool-cases (ltb start b.stop)) [
    | inl hit ↦ absurd (ground arith)
    | inr done ↦ (inr (ground arith), overlaps_any-All start stop busy sorted (ground arith))
  ]
]

All-overlaps_any :
    (start stop : ℕ) (busy : List Interval)
    → All (Apart start stop) busy
    → overlaps_any start stop busy ≡ false
unfolding overlaps_any
All-overlaps_any start stop [] h = refl
All-overlaps_any start stop (b ∷ busy) (p, h) = ground (arith, All-overlaps_any start stop busy h)

Memᴰ-parsed_busy :
    (buffer_ms : ℕ) (i : Interval) (b : BusyInterval) (busy : List BusyInterval)
    → Memᴰ b busy
    → parse_interval buffer_ms b ≡ some i
    → Memᴰ i (parsed_busy buffer_ms busy)
unfolding parsed_busy
Memᴰ-parsed_busy buffer_ms i b [] m p = elim m [ ]
Memᴰ-parsed_busy buffer_ms i b (c ∷ busy) (Memᴰ.head h) p =
    subst (λ o. Memᴰ i (cons_some o (parsed_busy buffer_ms busy)))
      (sym p ∙ ap (parse_interval buffer_ms) h) (Memᴰ.head refl)
Memᴰ-parsed_busy buffer_ms i b (c ∷ busy) (Memᴰ.tail m) p =
    later (parse_interval buffer_ms c) (Memᴰ-parsed_busy buffer_ms i b busy m p)
  where
    later :
        (o : Option Interval)
        → Memᴰ i (parsed_busy buffer_ms busy)
        → Memᴰ i (cons_some o (parsed_busy buffer_ms busy))
    later none k = k
    later (some j) k = Memᴰ.tail k

-- What the test for overlaps means for the intervals as they were given.
pub overlaps_any-LeavesFree :
    (buffer_ms start stop : ℕ) (b : BusyInterval) (busy : List BusyInterval)
    → overlaps_any start stop (parse_busy buffer_ms busy) ≡ false
    → Memᴰ b busy
    → LeavesFree buffer_ms start stop b
unfolding parse_busy parse_interval
overlaps_any-LeavesFree buffer_ms start stop b busy h m = by_times b.starts b.ends refl refl
  where
    apart : (i : Interval) → parse_interval buffer_ms b ≡ some i → Apart start stop i
    apart i read =
        All-Memᴰ (Apart start stop) (parse_busy buffer_ms busy) i
          (overlaps_any-All start stop (parse_busy buffer_ms busy)
            (sort_by-IsSorted (λ c. c.start) (parsed_busy buffer_ms busy)) h)
          (Memᴰ-sort_by (λ c. c.start) i (parsed_busy buffer_ms busy)
            (Memᴰ-parsed_busy buffer_ms i b busy m read))

    by_times : (x y : Option ℕ) → b.starts ≡ x → b.ends ≡ y → LeavesFreeAt buffer_ms start stop x y
    by_times none y p q = tt
    by_times (some s) none p q = tt
    by_times (some s) (some e) p q =
        apart (record { start = s - buffer_ms; stop = e + buffer_ms }) (ground arith)

parse_interval-Apart :
    (buffer_ms start stop : ℕ) (b : BusyInterval) (i : Interval)
    → LeavesFree buffer_ms start stop b
    → parse_interval buffer_ms b ≡ some i
    → Apart start stop i
unfolding parse_interval
parse_interval-Apart buffer_ms start stop b i free e = by_times b.starts b.ends free e
  where
    by_times :
        (x y : Option ℕ)
        → LeavesFreeAt buffer_ms start stop x y
        → parse_interval buffer_ms (record { starts = x; ends = y }) ≡ some i
        → Apart start stop i
    by_times none y k e = absurd (ground arith)
    by_times (some s) none k e = absurd (ground arith)
    by_times (some s) (some t) k e =
        let here : record { start = s - buffer_ms; stop = t + buffer_ms } ≡ i = ground arith in
        subst (Apart start stop) here k

parsed_busy-All :
    (buffer_ms start stop : ℕ) (busy : List BusyInterval)
    → All (LeavesFree buffer_ms start stop) busy
    → All (Apart start stop) (parsed_busy buffer_ms busy)
unfolding parsed_busy
parsed_busy-All buffer_ms start stop [] h = tt
parsed_busy-All buffer_ms start stop (b ∷ busy) (p, h) =
    by_interval (parse_interval buffer_ms b) refl (parsed_busy-All buffer_ms start stop busy h)
  where
    by_interval :
        (o : Option Interval)
        → parse_interval buffer_ms b ≡ o
        → All (Apart start stop) (parsed_busy buffer_ms busy)
        → All (Apart start stop) (cons_some o (parsed_busy buffer_ms busy))
    by_interval none e later = later
    by_interval (some i) e later = (parse_interval-Apart buffer_ms start stop b i p e, later)

pub LeavesFree-overlaps_any :
    (buffer_ms start stop : ℕ) (busy : List BusyInterval)
    → All (LeavesFree buffer_ms start stop) busy
    → overlaps_any start stop (parse_busy buffer_ms busy) ≡ false
unfolding parse_busy
LeavesFree-overlaps_any buffer_ms start stop busy h =
    All-overlaps_any start stop (parse_busy buffer_ms busy) (
      All-sort_by (λ c. c.start) (Apart start stop) (parsed_busy buffer_ms busy)
        (parsed_busy-All buffer_ms start stop busy h))
