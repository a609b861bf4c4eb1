-- ===== src/Workflow/Run/Life.antt =====
-- A run over all its attempts: the first by the dispatch, the others by the cron worker.
use ai_receptionist.Base.{
  ℕ, zero, suc, ◌+◌, ◌≤◌, ◌<◌, ◌≡◌, ◌≢◌, refl, ap, ◌∙◌, ◌⊎◌, inl, inr, String, Bool, true, List, [],
  ◌∷◌, ◌++◌, none, some, arith, All, Option, take, drop, length, if◌then◌else◌, append-nil,
  Bool-cases,
}
use ai_receptionist.Workflow.Run.{
  WorkflowStep, WorkflowRun, running, succeeded, failed, dead_letter, WorkflowStepLog, Attempt,
  is_due, execute_run, retry_run,
}
use ai_receptionist.Workflow.Run.Steps.{
  succeeded_ids, step_ids, succeeded_ids-append, steps_loop-Ends,
}

abbrev pub With : Type 0
With = WorkflowRun × List WorkflowStepLog

-- The steps that are done, and those that come next.
take-nil : (n : ℕ) → take {A = WorkflowStep} n [] ≡ []
take-nil zero = refl
take-nil (suc n) = refl

suc_add : (n k : ℕ) → suc n + k ≡ suc (n + k)
suc_add n k = omega arith

take-add :
    (n k : ℕ) (l : List WorkflowStep)
    → step_ids (take n l) ++ step_ids (take k (drop n l)) ≡ step_ids (take (n + k) l)
take-add zero k l = ap (λ m. step_ids (take m l)) (zero_add k)
  where
    zero_add : (m : ℕ) → m ≡ 0 + m
    zero_add m = omega arith
take-add (suc n) k [] = rw (take-nil, take-nil)
take-add (suc n) k (x ∷ l) = rw (suc_add, take-add n k l)

length-drop : (n : ℕ) (l : List WorkflowStep) → n ≤ length l → length (drop n l) + n ≡ length l
length-drop zero l h = omega arith
length-drop (suc n) [] h = absurd (omega arith)
length-drop (suc n) (x ∷ l) h = omega (arith, length-drop n l (omega arith))

module _ (registered : String → Bool) (run_action : ℕ → WorkflowStep → ℕ → Attempt) where
  -- One visit of the cron worker, with the time and the steps that the workflow then has, if it and the
  -- event are found.
  retry_due : ℕ × Option (List WorkflowStep) → With → With
  retry_due (now, found) (run, log) =
      let (run', more) = retry_run registered run_action now found run in
      if is_due now run then (run', log ++ more) else (run, log)

  pub visits : List (ℕ × Option (List WorkflowStep)) → With → With
  visits [] s = s
  visits (visit ∷ later) s = visits later (retry_due visit s)

  -- From the creation of the run: the first execution at `start`, then the visits.
  pub life : ℕ → List WorkflowStep → List (ℕ × Option (List WorkflowStep)) → WorkflowRun → With
  life start steps times run = visits times (execute_run registered run_action start steps run)

  -- A row as `createRun` inserts it.
  abbrev pub IsNew : WorkflowRun → Type 0
  IsNew run = (run.attempt ≡ 0) × (run.current_step ≡ 0)

  retry_due_settled :
      (visit : ℕ × Option (List WorkflowStep)) (run : WorkflowRun) (log : List WorkflowStepLog)
      → run.status ≢ failed
      → retry_due visit (run, log) ≡ (run, log)
  unfolding retry_due is_due
  retry_due_settled (now, found) run log h = ground arith

  -- A run that is not waiting for a retry, in particular one that has succeeded or is a dead
  -- letter, is never touched again: no visit changes it or logs anything.
  pub visits_settled :
      (times : List (ℕ × Option (List WorkflowStep))) (run : WorkflowRun)
      (log : List WorkflowStepLog)
      → run.status ≢ failed
      → visits times (run, log) ≡ (run, log)
  unfolding visits
  visits_settled [] run log h = refl
  visits_settled (visit ∷ later) run log h =
      ap (visits later) (retry_due_settled visit run log h) ∙ visits_settled later run log h

  module _ (steps : List WorkflowStep) where
    -- What holds of a run between two visits.
    pub record IsConsistent (s : With) : Type 0 where
      pub fits : s.0.current_step ≤ length steps
      pub logged : succeeded_ids s.1 ≡ step_ids (take s.0.current_step steps)
      pub settled :
          ((s.0.status ≡ succeeded) × (s.0.current_step ≡ length steps))
          ⊎ (((s.0.status ≡ failed) × (s.0.attempt < s.0.max_attempts))
              ⊎ (s.0.status ≡ dead_letter))
      pub attempts : (s.0.attempt ≤ s.0.max_attempts) ⊎ (s.0.attempt ≡ 1)

    execute_run-IsConsistent :
        (now : ℕ) (run : WorkflowRun) (log : List WorkflowStepLog)
        → run.current_step ≤ length steps
        → succeeded_ids log ≡ step_ids (take run.current_step steps)
        → (run.attempt ≡ 0) ⊎ (run.attempt < run.max_attempts)
        → IsConsistent (
          (execute_run registered run_action now steps run).0,
          log ++ (execute_run registered run_action now steps run).1,
        )
    unfolding execute_run
    execute_run-IsConsistent now run log fits logged budget =
        let e =
          steps_loop-Ends registered run_action now (run.attempt + 1) run.current_step
            (drop run.current_step steps)
            (record run { status = running; attempt = run.attempt + 1 }) refl in
        let whole = length-drop run.current_step steps fits in
        record {
          fits = omega (arith, e.here, e.fits);
          logged =
              rw (e.here, succeeded_ids-append, logged, e.logged)
                (take-add run.current_step e.advanced steps);
          settled = ground (arith, e.outcome, e.kept, e.here);
          attempts = ground (arith, e.kept, budget);
        }

    due_budget :
        (now : ℕ) (run : WorkflowRun) (log : List WorkflowStepLog)
        → IsConsistent (run, log)
        → is_due now run ≡ true
        → run.attempt < run.max_attempts
    unfolding is_due
    due_budget now run log c h = ground (arith, c.settled)

    -- The visit finds the same steps, or none.
    abbrev pub IsUnchanged : ℕ × Option (List WorkflowStep) → Type 0
    IsUnchanged (now, found) = (found ≡ none) ⊎ (found ≡ some steps)

    retry_due-IsConsistent :
        (visit : ℕ × Option (List WorkflowStep)) (s : With)
        → IsUnchanged visit
        → IsConsistent s
        → IsConsistent (retry_due visit s)
    unfolding retry_due retry_run
    retry_due-IsConsistent (now, found) (run, log) same c = elim (Bool-cases (is_due now run)) [
      | inr early ↦ rw early c
      | inl due ↦ rw due (by_found found same (due_budget now run log c due))
    ]
      where
        by_found :
            (steps_now : Option (List WorkflowStep))
            → IsUnchanged (now, steps_now)
            → run.attempt < run.max_attempts
            → IsConsistent (
              (retry_run registered run_action now steps_now run).0,
              log ++ (retry_run registered run_action now steps_now run).1,
            )
        by_found steps_now (inr e) budget =
            rw e (execute_run-IsConsistent now run log c.fits c.logged (inr budget))
        by_found steps_now (inl e) budget = rw e (record {
          fits = c.fits;
          logged = rw append-nil c.logged;
          settled = inr (inr refl);
          attempts = c.attempts;
        })

    visits-IsConsistent :
        (times : List (ℕ × Option (List WorkflowStep))) (s : With)
        → All IsUnchanged times
        → IsConsistent s
        → IsConsistent (visits times s)
    unfolding visits
    visits-IsConsistent [] s same c = c
    visits-IsConsistent (visit ∷ later) s (found, same) c =
        visits-IsConsistent later (retry_due visit s) same (retry_due-IsConsistent visit s found c)

    -- Over the whole life of a run whose workflow keeps its steps or is deleted, whatever the executors
    -- do and whenever the cron worker comes: the steps logged as succeeded are exactly the first
    -- `current_step` ones, each once and in order (so no retry repeats a step that is done); the run
    -- has succeeded with all steps done, or waits with attempts left, or is a dead letter; and it was
    -- attempted at most `max_attempts` times, or once. (The worker reads the steps anew on each visit;
    -- an edit of the steps between two attempts is not covered.)
    pub life-IsConsistent :
        (start : ℕ) (times : List (ℕ × Option (List WorkflowStep))) (run : WorkflowRun)
        → IsNew run
        → All IsUnchanged times
        → IsConsistent (life start steps times run)
    unfolding life
    life-IsConsistent start times run (fresh, first) same =
        visits-IsConsistent times _ same
          (execute_run-IsConsistent start run [] (omega (arith, first)) (rw first refl) (inl fresh))
