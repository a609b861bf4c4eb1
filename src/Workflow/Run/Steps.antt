-- ===== src/Workflow/Run/Steps.antt =====
-- What one attempt of a run logs, and where it leaves the run.
use ai_receptionist.Base.{
  ℕ, zero, suc, ◌+◌, ◌≤◌, ◌<◌, ◌≡◌, refl, ◌⊎◌, inl, inr, String, Bool, false, List, [], ◌∷◌, ◌++◌,
  map, none, some, arith, take, keep, length, Bool-cases,
}
use ai_receptionist.Workflow.Run.{
  WorkflowStep, WorkflowRun, succeeded, failed, dead_letter, WorkflowStepLog, Attempt, fulfilled,
  rejected, timed_out, StepOutcome, step_ok, step_error, run_backoff_ms, retry_attempts, log_entry,
  log_first, step_loop, execute_step, after_step, steps_loop,
}

-- The ids of the steps that were logged as succeeded.
abbrev pub succeeded_ids : List WorkflowStepLog → List String
succeeded_ids log = map (λ l. WorkflowStepLog.step_id l) (keep (λ l. WorkflowStepLog.done l) log)

abbrev pub step_ids : List WorkflowStep → List String
step_ids steps = map (λ s. WorkflowStep.id s) steps

pub succeeded_ids-append :
    (log rest : List WorkflowStepLog)
    → succeeded_ids (log ++ rest) ≡ succeeded_ids log ++ succeeded_ids rest
succeeded_ids-append [] rest = refl
succeeded_ids-append (l ∷ log) rest = ground (arith, succeeded_ids-append log rest)

module _ (registered : String → Bool) (run_action : ℕ → WorkflowStep → ℕ → Attempt) where
  abbrev Logged : WorkflowStep → StepOutcome × List WorkflowStepLog → Type 0
  Logged step (step_ok, log) = succeeded_ids log ≡ step.id ∷ []
  Logged step (step_error e uncertain, log) = succeeded_ids log ≡ []

  Logged-log_first :
      (step : WorkflowStep) (attempt n : ℕ) (r : StepOutcome × List WorkflowStepLog)
      → Logged step r
      → Logged step (log_first (log_entry step attempt false n) r)
  Logged-log_first step attempt n (step_ok, log) h = h
  Logged-log_first step attempt n (step_error e u, log) h = h

  step_loop-Logged :
      (attempt : ℕ) (step : WorkflowStep) (left n : ℕ) (e : String)
      → Logged step (step_loop registered run_action attempt step left n e)
  unfolding step_loop
  step_loop-Logged attempt step zero n e = refl
  step_loop-Logged attempt step (suc left) n e =
      by_end (run_action attempt step n) refl (step_loop-Logged attempt step left (suc n))
    where
      by_end :
          (a : Attempt)
          → run_action attempt step n ≡ a
          → ((e' : String)
              → Logged step (step_loop registered run_action attempt step left (suc n) e'))
          → Logged step (step_loop registered run_action attempt step (suc left) n e)
      by_end fulfilled q ih = rw (q, step_loop) refl
      by_end (timed_out x) q ih = rw (q, step_loop) refl
      by_end (rejected x) q ih = rw (q, step_loop) (Logged-log_first step attempt n _ (ih x))

  execute_step-Logged :
      (step : WorkflowStep) (attempt : ℕ)
      → Logged step (execute_step registered run_action step attempt)
  unfolding execute_step
  execute_step-Logged step attempt = elim (Bool-cases (registered step.action)) [
    | inl there ↦ rw there (step_loop-Logged attempt step (retry_attempts step.retry) 1 "")
    | inr absent ↦ rw absent refl
  ]

  -- Where an attempt leaves a run whose steps from `index` on are `steps`.
  pub record Ends (now attempt index : ℕ) (steps : List WorkflowStep) (row : WorkflowRun)
      (after : WorkflowRun) (log : List WorkflowStepLog) : Type 0 where
    pub advanced : ℕ
    pub here : after.current_step ≡ index + advanced
    pub fits : advanced ≤ length steps
    pub logged : succeeded_ids log ≡ step_ids (take advanced steps)
    pub kept :
        (after.attempt ≡ row.attempt)
        × (after.max_attempts ≡ row.max_attempts)
        × (after.id ≡ row.id)
        × (after.workflow_id ≡ row.workflow_id)
        × (after.event_id ≡ row.event_id)
    pub outcome :
        ((after.status ≡ succeeded) × (advanced ≡ length steps))
        ⊎ (((after.status ≡ failed)
              × (attempt < row.max_attempts)
              × (after.next_attempt_at ≡ some (now + run_backoff_ms attempt)))
            ⊎ ((after.status ≡ dead_letter) × (after.next_attempt_at ≡ none)))

  module _ (now attempt : ℕ) where
    Ends-later :
        (index : ℕ) (step : WorkflowStep) (steps : List WorkflowStep) (row after : WorkflowRun)
        (log rest : List WorkflowStepLog)
        → succeeded_ids log ≡ step.id ∷ []
        → Ends now attempt (suc index) steps (record row { current_step = suc index }) after rest
        → Ends now attempt index (step ∷ steps) row after (log ++ rest)
    Ends-later index step steps row after log rest one e = record {
      advanced = suc e.advanced;
      here = omega (arith, e.here);
      fits = omega (arith, e.fits);
      logged = rw (succeeded_ids-append log rest, one, e.logged);
      kept = e.kept;
      outcome = ground (arith, e.outcome);
    }

    Ends-after_step :
        (index : ℕ) (step : WorkflowStep) (steps : List WorkflowStep) (row : WorkflowRun)
        (r : StepOutcome × List WorkflowStepLog) (later : WorkflowRun × List WorkflowStepLog)
        → row.current_step ≡ index
        → Logged step r
        → Ends now attempt
            (suc index)
            steps
            (record row { current_step = suc index })
            later.0
            later.1
        → Ends now attempt index
            (step ∷ steps)
            row
            (after_step registered run_action now attempt index row r later).0
            (after_step registered run_action now attempt index row r later).1
    Ends-after_step index step steps row (step_ok, log) (after, rest) e h ih =
        Ends-later index step steps row after log rest h ih
    Ends-after_step index step steps row (step_error x u, log) later e h ih = record {
      advanced = 0;
      here = omega arith;
      fits = omega arith;
      logged = h;
      kept = (refl, refl, refl, refl, refl);
      outcome = ground arith;
    }

    pub steps_loop-Ends :
        (index : ℕ) (steps : List WorkflowStep) (row : WorkflowRun)
        → row.current_step ≡ index
        → Ends now attempt index steps row
            (steps_loop registered run_action now attempt index steps row).0
            (steps_loop registered run_action now attempt index steps row).1
    unfolding steps_loop
    steps_loop-Ends index [] row e = record {
      advanced = 0;
      here = omega arith;
      fits = omega arith;
      logged = refl;
      kept = (refl, refl, refl, refl, refl);
      outcome = inl (refl, refl);
    }
    steps_loop-Ends index (step ∷ steps) row e =
        Ends-after_step index step steps row (execute_step registered run_action step attempt) _ e
          (execute_step-Logged step attempt)
          (steps_loop-Ends (suc index) steps (record row { current_step = suc index }) refl)
