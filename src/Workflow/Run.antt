-- ===== src/Workflow/Run.antt =====
-- packages/workflows/engine.ts, executeStep and executeRun: one attempt of one run. The row is what
-- the store holds of the run after each `updateRun`; the log is what `appendLog` wrote, in order.
-- An executor with its timeout is a parameter: it ends fulfilled, rejected or timed out. The calls
-- of the store are taken to succeed, and one reading of the clock serves one attempt.
pub mod Steps
pub mod Life
use ai_receptionist.Base.{
  ℕ, zero, suc, ◌+◌, ◌-◌, ◌*◌, ◌^◌, min, String, Bool, true, false, ◌&&◌, ◌||◌, not, List, [], ◌∷◌,
  ◌++◌, Option, none, some, leb, drop, if◌then◌else◌,
}

pub record StepRetry : Type 0 where
  pub max_attempts : ℕ
  pub backoff_ms : ℕ

pub record WorkflowStep : Type 0 where
  pub id : String
  pub action : String
  pub retry : Option StepRetry

pub data WorkflowRunStatus : Type 0 where
  pending running succeeded failed skipped dead_letter : WorkflowRunStatus

pub record WorkflowRun : Type 0 where
  pub id : String
  pub workflow_id : String
  pub business_id : String
  pub event_id : String
  pub status : WorkflowRunStatus
  pub attempt : ℕ
  pub max_attempts : ℕ
  pub next_attempt_at : Option ℕ
  pub current_step : ℕ
  pub error : String
  pub finished_at : Option ℕ

-- A log entry: `done` where the source has "succeeded" and "failed".
pub record WorkflowStepLog : Type 0 where
  pub step_id : String
  pub attempt : ℕ
  pub done : Bool
  pub step_attempt : ℕ

-- How an executor under `withTimeout` ends.
pub data Attempt : Type 0 where
  fulfilled : Attempt
  rejected timed_out : String → Attempt

-- What `executeStep` returns.
pub data StepOutcome : Type 0 where
  step_ok : StepOutcome
  step_error : String → Bool → StepOutcome

-- `runBackoffMs`, for an attempt from 1 on.
unfoldable pub run_backoff_ms : ℕ → ℕ
run_backoff_ms attempt = min (5 * 60000 * 3 ^ (attempt - 1)) (6 * 3600000)

abbrev pub retry_attempts : Option StepRetry → ℕ
retry_attempts none = 1
retry_attempts (some r) = r.max_attempts

abbrev pub log_entry : WorkflowStep → ℕ → Bool → ℕ → WorkflowStepLog
log_entry step attempt done step_attempt = record {
  step_id = step.id;
  attempt = attempt;
  done = done;
  step_attempt = step_attempt;
}

abbrev pub log_first :
    WorkflowStepLog → StepOutcome × List WorkflowStepLog → StepOutcome × List WorkflowStepLog
log_first entry (outcome, log) = (outcome, entry ∷ log)

-- `claimDueRuns`: a failed run whose time has come.
abbrev pub is_failed : WorkflowRunStatus → Bool
is_failed failed = true
is_failed _ = false

unfoldable pub is_due : ℕ → WorkflowRun → Bool
is_due now run =
    is_failed run.status && elim run.next_attempt_at [ none ↦ false | some t ↦ leb t now ]

module _ (registered : String → Bool) (run_action : ℕ → WorkflowStep → ℕ → Attempt) where
  -- The loop over the attempts of one step.
  unfoldable pub step_loop : ℕ → WorkflowStep → ℕ → ℕ → String → StepOutcome × List WorkflowStepLog
  step_loop run_attempt step zero step_attempt last_error = (step_error last_error false, [])
  step_loop run_attempt step (suc left) step_attempt last_error =
      elim (run_action run_attempt step step_attempt) [
        | fulfilled ↦ (step_ok, log_entry step run_attempt true step_attempt ∷ [])
        | timed_out e ↦ (step_error e true, log_entry step run_attempt false step_attempt ∷ [])
        | rejected e ↦
            log_first (log_entry step run_attempt false step_attempt)
              (step_loop run_attempt step left (suc step_attempt) e)
      ]

  unfoldable pub execute_step : WorkflowStep → ℕ → StepOutcome × List WorkflowStepLog
  execute_step step run_attempt =
      if registered step.action
      then step_loop run_attempt step (retry_attempts step.retry) 1 ""
      else (step_error "no executor registered" false, log_entry step run_attempt false 0 ∷ [])

  abbrev pub stop_run : ℕ → ℕ → ℕ → String → Bool → WorkflowRun → WorkflowRun
  stop_run now attempt index error exhausted row = record row {
    status = if exhausted then dead_letter else failed;
    current_step = index;
    error = error;
    next_attempt_at = if exhausted then none else some (now + run_backoff_ms attempt);
    finished_at = if exhausted then some now else row.finished_at;
  }

  abbrev pub finish_run : ℕ → WorkflowRun → WorkflowRun
  finish_run now row = record row {
    status = succeeded;
    error = "";
    next_attempt_at = none;
    finished_at = some now;
  }

  -- After one step: on with what the later steps give, or stop here.
  abbrev pub after_step :
      ℕ
      → ℕ
      → ℕ
      → WorkflowRun
      → StepOutcome × List WorkflowStepLog
      → WorkflowRun × List WorkflowStepLog
      → WorkflowRun × List WorkflowStepLog
  after_step now attempt index row (step_ok, log) (row', rest) = (row', log ++ rest)
  after_step now attempt index row (step_error error uncertain, log) later =
      (stop_run now attempt index error (uncertain || leb row.max_attempts attempt) row, log)

  -- The loop over the steps that are left, `index` being the first one's.
  unfoldable pub steps_loop :
      ℕ → ℕ → ℕ → List WorkflowStep → WorkflowRun → WorkflowRun × List WorkflowStepLog
  steps_loop now attempt index [] row = (finish_run now row, [])
  steps_loop now attempt index (step ∷ steps) row =
      after_step now attempt index row (execute_step step attempt)
        (steps_loop now attempt (suc index) steps (record row { current_step = suc index }))

  unfoldable pub execute_run :
      ℕ → List WorkflowStep → WorkflowRun → WorkflowRun × List WorkflowStepLog
  execute_run now steps run =
      let attempt = run.attempt + 1 in
      steps_loop now attempt run.current_step (drop run.current_step steps)
        (record run { status = running; attempt = attempt })

  -- `processDue` for one claimed run, with the steps of its workflow if that and the event are found.
  unfoldable pub retry_run :
      ℕ → Option (List WorkflowStep) → WorkflowRun → WorkflowRun × List WorkflowStepLog
  retry_run now none run = (
    record run {
      status = dead_letter;
      error = "workflow or event no longer exists";
      finished_at = some now;
    },
    [],
  )
  retry_run now (some steps) run = execute_run now steps run
