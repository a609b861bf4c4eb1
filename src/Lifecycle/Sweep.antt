-- ===== src/Lifecycle/Sweep.antt =====
-- The no-show sweep and the transition it makes.
use mathlib.Core.List.{Memᴰ}
use ai_receptionist.Base.{
  ℕ, ◌+◌, ◌≡◌, ◌⊎◌, inl, inr, refl, sym, ap, ◌∙◌, subst, String, Bool, true, false, ◌=ˢ◌, List, [],
  ◌∷◌, some, some-injective, Dict, lookup, lookup-insert, arith, eq_iff, Option-cases, Bool-cases,
  All, length,
}
use ai_receptionist.Scheduling.Status.{
  pending, no_show, status_in, can_transition, transitions, status_eq,
}
use ai_receptionist.Lifecycle.{
  Appointment, NoShowSettings, World, SweepResult, update_appointment_status, after_transition,
  transition, is_no_show_overdue, sweep_one, sweep_loop, list_overdue, sweep,
}

abbrev pub handled : SweepResult → ℕ
handled result = result.swept_count + result.skipped + result.failed

module _ (get_settings : String → NoShowSettings) (has_business : String → Bool) (now : ℕ) where
  -- The row is as it was, or is that of an overdue candidate, now a no-show.
  abbrev pub SweptOnly : List Appointment → String → Dict Appointment → Dict Appointment → Type 0
  SweptOnly candidates id before after =
      (lookup id after ≡ lookup id before)
      ⊎ ((a : Appointment) × Memᴰ a candidates
          × (a.id ≡ id)
          × (is_no_show_overdue a (get_settings a.business_id) now ≡ true)
          × (can_transition a.status no_show ≡ true)
          × ((row : Appointment) × (lookup id before ≡ some row)
              × (lookup id after ≡ some (record row { status = no_show }))))

  sweep_one-SweptOnly :
      (a : Appointment) (s : SweepResult × World) (id : String)
      → SweptOnly
          (a ∷ [])
          id
          s.1.appointments
          (sweep_one get_settings has_business now a s).1.appointments
  unfolding sweep_one transition update_appointment_status after_transition
  sweep_one-SweptOnly a (result, world) id =
      elim (Bool-cases (is_no_show_overdue a (get_settings a.business_id) now)) [
        | inr early ↦ inl (ground arith)
        | inl due ↦ elim (Bool-cases (has_business a.business_id)) [
          | inr unknown ↦ inl (ground arith)
          | inl listed ↦ elim (Bool-cases (can_transition a.status no_show)) [
            | inr illegal ↦ inl (ground arith)
            | inl legal ↦ elim (Option-cases (lookup a.id world.appointments)) [
              | inl gone ↦ inl (ground arith)
              | inr (row, known) ↦
                  let found =
                    lookup-insert a.id id (record row { status = no_show }) world.appointments in
                  elim (Bool-cases (a.id =ˢ id)) [
                    | inr other ↦ inl (ground (arith, found))
                    | inl met ↦
                        let same : a.id ≡ id = ground (arith, eq_iff a.id id) in
                        inr (
                          a,
                          Memᴰ.head refl,
                          same,
                          due,
                          legal,
                          (
                            row,
                            subst (λ i. lookup i world.appointments ≡ some row) same known,
                            ground (arith, found, met),
                          ),
                        )
                  ]
            ]
          ]
        ]
      ]

  SweptOnly-trans :
      (a : Appointment) (candidates : List Appointment) (id : String) (x y z : Dict Appointment)
      → SweptOnly (a ∷ []) id x y
      → SweptOnly candidates id y z
      → SweptOnly (a ∷ candidates) id x z
  SweptOnly-trans a candidates id x y z (inl e) (inl f) = inl (f ∙ e)
  SweptOnly-trans a candidates id x y z (inl e)
        (inr (c, i, same, due, legal, (row, before, after))) =
      inr (c, Memᴰ.tail i, same, due, legal, (row, sym e ∙ before, after))
  SweptOnly-trans a candidates id x y z (inr (c, i, same, due, legal, (row, before, after)))
        (inl f) =
      inr (c, first i, same, due, legal, (row, before, f ∙ after))
    where
      first : Memᴰ c (a ∷ []) → Memᴰ c (a ∷ candidates)
      first (Memᴰ.head e) = Memᴰ.head e
      first (Memᴰ.tail j) = elim j [ ]
  SweptOnly-trans a candidates id x y z (inr (c, i, same, due, legal, (row, before, after)))
        (inr (d, j, same2, due2, legal2, (row2, before2, after2))) =
      let here : record row { status = no_show } ≡ row2 =
        some-injective _ _ (sym after ∙ before2) in
      inr (
        d,
        Memᴰ.tail j,
        same2,
        due2,
        legal2,
        (
          row,
          before,
          after2 ∙ ap (λ (r : Appointment). some (record r { status = no_show })) (sym here),
        ),
      )

  sweep_loop-SweptOnly :
      (candidates : List Appointment) (s : SweepResult × World) (id : String)
      → SweptOnly candidates id s.1.appointments
          (sweep_loop get_settings has_business now candidates s).1.appointments
  unfolding sweep_loop
  sweep_loop-SweptOnly [] s id = inl refl
  sweep_loop-SweptOnly (a ∷ candidates) s id =
      let next = sweep_one get_settings has_business now a s in
      SweptOnly-trans a candidates id s.1.appointments next.1.appointments
        (sweep_loop get_settings has_business now candidates next).1.appointments
        (sweep_one-SweptOnly a s id) (sweep_loop-SweptOnly candidates next id)

  sweep_one-handled :
      (a : Appointment) (s : SweepResult × World)
      → handled (sweep_one get_settings has_business now a s).0 ≡ handled s.0 + 1
  unfolding sweep_one
  sweep_one-handled a (result, world) = ground arith

  sweep_loop-handled :
      (candidates : List Appointment) (s : SweepResult × World)
      → handled (sweep_loop get_settings has_business now candidates s).0
        ≡ handled s.0 + length candidates
  unfolding sweep_loop
  sweep_loop-handled [] s = omega arith
  sweep_loop-handled (a ∷ candidates) s = omega (
    arith,
    sweep_one-handled a s,
    sweep_loop-handled candidates (sweep_one get_settings has_business now a s),
  )

  -- The sweep accounts for each appointment that the query returned as swept, skipped or failed, and
  -- changes no row of the table but to mark as a no-show one whose candidate was overdue by its
  -- business's grace period, in a status from which a no-show is a legal transition.
  pub sweep-SweptOnly :
      (batch_size : ℕ) (world : World) (id : String)
      → SweptOnly
          (list_overdue get_settings has_business now batch_size world)
          id
          world.appointments
          (sweep get_settings has_business now batch_size world).1.appointments
        × (handled (sweep get_settings has_business now batch_size world).0
            ≡ length (list_overdue get_settings has_business now batch_size world))
  unfolding sweep
  sweep-SweptOnly batch_size world id =
      let start : SweepResult × World =
        (record { swept_count = 0; skipped = 0; failed = 0 }, world) in
      (
        sweep_loop-SweptOnly (list_overdue get_settings has_business now batch_size world) start id,
        omega (
          arith,
          sweep_loop-handled (list_overdue get_settings has_business now batch_size world) start,
        ),
      )

  sweep_one-pending :
      (a : Appointment) (s : SweepResult × World)
      → a.status ≡ pending
      → (sweep_one get_settings has_business now a s).1 ≡ s.1
  unfolding sweep_one transition can_transition transitions status_in status_eq
  sweep_one-pending a (result, world) h =
      let illegal : can_transition a.status no_show ≡ false =
        ap (λ t. can_transition t no_show) h in
      ground (arith, illegal)

  sweep_loop-pending :
      (candidates : List Appointment) (s : SweepResult × World)
      → All (λ a. a.status ≡ pending) candidates
      → (sweep_loop get_settings has_business now candidates s).1 ≡ s.1
  unfolding sweep_loop
  sweep_loop-pending [] s h = refl
  sweep_loop-pending (a ∷ candidates) s (p, h) =
      sweep_loop-pending candidates (sweep_one get_settings has_business now a s) h
      ∙ sweep_one-pending a s p

  -- Where the overdue appointments of a batch are all pending, the sweep changes nothing: neither the
  -- table nor reminders, messages and events.
  pub pending_batch_blocks :
      (batch_size : ℕ) (world : World)
      → All (λ a. a.status ≡ pending) (list_overdue get_settings has_business now batch_size world)
      → (sweep get_settings has_business now batch_size world).1 ≡ world
  unfolding sweep
  pending_batch_blocks batch_size world h =
      sweep_loop-pending (list_overdue get_settings has_business now batch_size world)
        (record { swept_count = 0; skipped = 0; failed = 0 }, world) h
