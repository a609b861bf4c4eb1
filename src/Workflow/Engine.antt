-- ===== src/Workflow/Engine.antt =====
-- packages/workflows/engine.ts, dispatch and startRun, over the table of runs and the log. The
-- conditions of a workflow (`eventMatches`), the executors and fresh ids are parameters; one reading
-- of the clock serves one dispatch, and the calls of the store are taken to succeed.
pub mod Delivery
use ai_receptionist.Base.{
  ℕ, String, Bool, true, false, not, ◌&&◌, List, [], ◌∷◌, ◌++◌, Option, none, some, any,
  if◌then◌else◌, ◌=ˢ◌,
}
use ai_receptionist.Workflow.Run.{
  WorkflowStep, WorkflowRun, pending, skipped, WorkflowStepLog, Attempt, execute_run,
}

pub record WorkflowDefinition : Type 0 where
  pub id : String
  pub business_id : String
  pub steps : List WorkflowStep

-- The table of runs, and the log.
abbrev pub RunStore : Type 0
RunStore = List WorkflowRun × List WorkflowStepLog

-- Whether the table has a row for (workflow, event); the table's unique constraint allows one.
unfoldable pub has_run : String → String → List WorkflowRun → Bool
has_run workflow_id event_id runs =
    any (λ r. (r.workflow_id =ˢ workflow_id) && (r.event_id =ˢ event_id)) runs

module _ (registered : String → Bool)
    (run_action : WorkflowDefinition → ℕ → WorkflowStep → ℕ → Attempt)
    (event_matches : String → WorkflowDefinition → Bool) (fresh : RunStore → String)
    (max_run_attempts now : ℕ) where
  -- The row that `createRun` inserts.
  abbrev pub inserted_run : WorkflowDefinition → String → String → WorkflowRun
  inserted_run workflow event_id id = record {
    id = id;
    workflow_id = workflow.id;
    business_id = workflow.business_id;
    event_id = event_id;
    status = pending;
    attempt = 0;
    max_attempts = max_run_attempts;
    next_attempt_at = none;
    current_step = 0;
    error = "";
    finished_at = none;
  }

  -- The store's `createRun`, by its contract: nothing where the unique constraint is violated.
  unfoldable pub create_run : WorkflowDefinition → String → RunStore → Option WorkflowRun
  create_run workflow event_id s =
      if has_run workflow.id event_id s.0
      then none
      else some (inserted_run workflow event_id (fresh s))

  -- What becomes of a run that was just created.
  unfoldable pub first_execution : WorkflowDefinition → String → WorkflowRun → RunStore
  first_execution workflow event_id run =
      let (row, log) = execute_run registered (run_action workflow) now workflow.steps run in
      if event_matches event_id workflow
      then (row ∷ [], log)
      else (record run { status = skipped; finished_at = some now } ∷ [], [])

  -- Where no run was created, another delivery of the event has it.
  unfoldable pub after_create :
      WorkflowDefinition → String → RunStore → Option WorkflowRun → RunStore
  after_create workflow event_id s none = s
  after_create workflow event_id s (some run) =
      let (row, log) = first_execution workflow event_id run in (s.0 ++ row, s.1 ++ log)

  unfoldable pub start_run : WorkflowDefinition → String → RunStore → RunStore
  start_run workflow event_id s = after_create workflow event_id s (create_run workflow event_id s)

  -- `dispatch`, with the enabled workflows that the store lists for the event.
  unfoldable pub dispatch : List WorkflowDefinition → String → RunStore → RunStore
  dispatch [] event_id s = s
  dispatch (workflow ∷ workflows) event_id s =
      dispatch workflows event_id (start_run workflow event_id s)
