-- ===== src/Voice/CallStore/Idempotent.antt =====
-- What the provider may do twice: create a call, flush events, report an outcome.
use ai_receptionist.Base.{
  ℕ, ◌≡◌, refl, sym, ap, subst, ◌∙◌, String, true, false, ◌||◌, List, [], ◌∷◌, ◌++◌, none, some,
  inl, inr, arith, eq_iff, eq_refl, All, Dict, lookup, insert, lookup-insert, or_else,
  if◌then◌else◌, ◌==◌, Bool-cases,
}
use ai_receptionist.Voice.CallStore.{
  NewCall, CallRecord, done, has_provider_id, has_seq, add_new, CallStore, find_by_provider_id,
  scoped, created_call, create_or_get_call, append_events, record_outcome,
}

module _ {ℓ} {A : Type ℓ} where
  has_seq-append :
      (n : ℕ) (l : List (ℕ × A)) (e : ℕ × A) → has_seq n (l ++ e ∷ []) ≡ (has_seq n l || (e.0 == n))
  has_seq-append n [] e = ground arith
  has_seq-append n (x ∷ l) e = ground (arith, has_seq-append n l e)

  has_seq-add_new :
      (n : ℕ) (l es : List (ℕ × A)) → has_seq n l ≡ true → has_seq n (add_new l es) ≡ true
  unfolding add_new
  has_seq-add_new n l [] h = h
  has_seq-add_new n l (e ∷ es) h = elim (Bool-cases (has_seq e.0 l)) [
    | inl there ↦ rw there (has_seq-add_new n l es h)
    | inr gone ↦ rw gone (has_seq-add_new n (l ++ e ∷ []) es (ground (arith, has_seq-append n l e)))
  ]

  has_seq-stored :
      (e : ℕ × A) (l : List (ℕ × A)) → has_seq e.0 (if has_seq e.0 l then l else l ++ e ∷ []) ≡ true
  has_seq-stored e l = ground (arith, has_seq-append e.0 l e)

  -- Every event of a batch is there after the batch.
  has_seq-All : (l es : List (ℕ × A)) → All (λ e. has_seq e.0 (add_new l es) ≡ true) es
  unfolding add_new
  has_seq-All l [] = tt
  has_seq-All l (e ∷ es) =
      let stored : List (ℕ × A) = if has_seq e.0 l then l else l ++ e ∷ [] in
      (has_seq-add_new e.0 stored es (has_seq-stored e l), has_seq-All stored es)

  add_new-known : (l es : List (ℕ × A)) → All (λ e. has_seq e.0 l ≡ true) es → add_new l es ≡ l
  unfolding add_new
  add_new-known l [] h = refl
  add_new-known l (e ∷ es) (known, rest) = rw known (add_new-known l es rest)

  add_new-add_new : (l es : List (ℕ × A)) → add_new (add_new l es) es ≡ add_new l es
  add_new-add_new l es = add_new-known (add_new l es) es (has_seq-All l es)

  insert-known : (id : String) (v : A) (m : Dict A) → lookup id m ≡ some v → insert id v m ≡ m
  unfolding lookup insert
  insert-known id v [] h = ground arith
  insert-known id v ((here, w) ∷ m) h = ground (arith, insert-known id v m)

module _ (Event Turn Finalization Outcome : Type 0) where
  abbrev Store : Type 0
  Store = CallStore Event Turn Finalization Outcome

  flushed : String → List (ℕ × Event) → Store → Store
  flushed call_id events s = record s {
    events = insert call_id (add_new (or_else (lookup call_id s.events) []) events) s.events;
  }

  flushed-flushed :
      (call_id : String) (events : List (ℕ × Event)) (s : Store)
      → flushed call_id events (flushed call_id events s) ≡ flushed call_id events s
  unfolding flushed
  flushed-flushed call_id events s =
      let old = or_else (lookup call_id s.events) [] in
      let stored : lookup call_id (insert call_id (add_new old events) s.events)
          ≡ some (add_new old events) =
        ground (
          arith,
          lookup-insert call_id call_id (add_new old events) s.events,
          eq_iff call_id call_id,
        ) in
      ap (λ m. record s { events = m })
        (ap
            (λ l.
              insert call_id (add_new (or_else l []) events)
                (insert call_id (add_new old events) s.events))
            stored
          ∙ ap (λ l. insert call_id l (insert call_id (add_new old events) s.events))
              (add_new-add_new old events)
          ∙ insert-known call_id (add_new old events) (insert call_id (add_new old events) s.events)
              stored)

  append_events-done :
      (call_id business_id : String) (events : List (ℕ × Event)) (s t : Store)
      → append_events Event Turn Finalization Outcome call_id business_id events s ≡ done t
      → t ≡ flushed call_id events s
  unfolding append_events scoped flushed
  append_events-done call_id business_id events s t h = ground arith

  append_events-again :
      (call_id business_id : String) (events : List (ℕ × Event)) (s t : Store)
      → append_events Event Turn Finalization Outcome call_id business_id events s ≡ done t
      → append_events Event Turn Finalization Outcome call_id business_id events
          (flushed call_id events s)
        ≡ done (flushed call_id events (flushed call_id events s))
  unfolding append_events scoped flushed
  append_events-again call_id business_id events s t h = ground arith

  -- A batch of events that was stored may be flushed again, as after a lost answer: the second time
  -- succeeds and changes nothing.
  pub append_events_twice :
      (call_id business_id : String) (events : List (ℕ × Event)) (s t : Store)
      → append_events Event Turn Finalization Outcome call_id business_id events s ≡ done t
      → append_events Event Turn Finalization Outcome call_id business_id events t ≡ done t
  append_events_twice call_id business_id events s t h =
      let e = append_events-done call_id business_id events s t h in
      ap (append_events Event Turn Finalization Outcome call_id business_id events) e
      ∙ append_events-again call_id business_id events s t h
      ∙ ap done (flushed-flushed call_id events s ∙ sym e)

  -- The first outcome of a call stays: after a report that succeeded, the stored outcome is the one
  -- that was there before, or else the reported one.
  pub record_outcome_first :
      (call_id business_id : String) (outcome : Outcome) (s t : Store)
      → record_outcome Event Turn Finalization Outcome call_id business_id outcome s ≡ done t
      → lookup call_id t.outcomes ≡ some (or_else (lookup call_id s.outcomes) outcome)
  unfolding record_outcome scoped
  record_outcome_first call_id business_id outcome s t h =
      ground (arith, lookup-insert call_id call_id outcome s.outcomes, eq_iff call_id call_id)

  find-insert :
      (provider provider_call_id id : String) (c : CallRecord) (calls : Dict CallRecord)
      → find_by_provider_id provider provider_call_id calls ≡ none
      → has_provider_id provider provider_call_id c ≡ true
      → find_by_provider_id provider provider_call_id (insert id c calls) ≡ some c
  unfolding find_by_provider_id insert
  find-insert provider provider_call_id id c [] gone h = ground arith
  find-insert provider provider_call_id id c ((here, d) ∷ calls) gone h =
      ground (arith, find-insert provider provider_call_id id c calls)

  create_or_get_call-known :
      (id correlation_id : String) (input : NewCall) (s : Store) (c : CallRecord)
      → find_by_provider_id input.provider input.provider_call_id s.calls ≡ some c
      → create_or_get_call Event Turn Finalization Outcome id correlation_id input s
        ≡ (s, (c, false))
  unfolding create_or_get_call
  create_or_get_call-known id correlation_id input s c e = ground arith

  find-created :
      (id correlation_id : String) (input : NewCall) (s : Store)
      → find_by_provider_id input.provider input.provider_call_id
          (create_or_get_call Event Turn Finalization Outcome id correlation_id input s).0.calls
        ≡ some (create_or_get_call Event Turn Finalization Outcome id correlation_id input s).1.0
  unfolding create_or_get_call
  find-created id correlation_id input s = ground (
    arith,
    eq_refl input.provider,
    eq_refl input.provider_call_id,
    find-insert input.provider input.provider_call_id id (created_call id correlation_id input)
        s.calls,
  )

  -- The provider may report a call twice: the second creation, by the same provider and provider's
  -- id, whatever else it says, changes nothing and returns the call of the first.
  pub create_or_get_call_twice :
      (id correlation_id id' correlation_id' : String) (input again : NewCall) (s : Store)
      → again.provider ≡ input.provider
      → again.provider_call_id ≡ input.provider_call_id
      → create_or_get_call Event Turn Finalization Outcome id' correlation_id' again
          (create_or_get_call Event Turn Finalization Outcome id correlation_id input s).0
        ≡ (
          (create_or_get_call Event Turn Finalization Outcome id correlation_id input s).0,
          (
            (create_or_get_call Event Turn Finalization Outcome id correlation_id input s).1.0,
            false,
          ),
        )
  create_or_get_call_twice id correlation_id id' correlation_id' input again s p q =
      let made = create_or_get_call Event Turn Finalization Outcome id correlation_id input s in
      create_or_get_call-known id' correlation_id' again made.0 made.1.0 (
        subst (λ x. find_by_provider_id x again.provider_call_id made.0.calls ≡ some made.1.0)
          (sym p)
          (subst (λ x. find_by_provider_id input.provider x made.0.calls ≡ some made.1.0) (sym q)
            (find-created id correlation_id input s)))
