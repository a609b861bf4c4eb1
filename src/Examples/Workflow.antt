-- ===== src/Examples/Workflow.antt =====
-- Properties of a workflow run at concrete input: two steps, the second failing on the first attempt.
use ai_receptionist.Base.{
  ℕ, refl, String, Bool, true, List, [], ◌∷◌, Option, none, some, inl, inr, ltb, if◌then◌else◌,
  ◌=ˢ◌, ◌&&◌,
}
use ai_receptionist.Workflow.Run.{WorkflowStep, WorkflowRun, pending, Attempt, fulfilled, rejected}
use ai_receptionist.Workflow.Run.Life.{IsConsistent, life, life-IsConsistent}

abbrev two_steps : List WorkflowStep
two_steps =
    record { id = "email"; action = "send"; retry = none }
    ∷ record { id = "crm"; action = "sync"; retry = none }
    ∷ []

abbrev new_run : WorkflowRun
new_run = record {
  id = "r";
  workflow_id = "w";
  business_id = "b";
  event_id = "e";
  status = pending;
  attempt = 0;
  max_attempts = 3;
  next_attempt_at = none;
  current_step = 0;
  error = "";
  finished_at = none;
}

abbrev any_action : String → Bool
any_action action = true

-- The second step is rejected on the first attempt of the run.
abbrev flaky : ℕ → WorkflowStep → ℕ → Attempt
flaky run_attempt step step_attempt =
    if (step.action =ˢ "sync") && ltb run_attempt 2 then rejected "offline" else fulfilled

-- The workflow is found twice, then it is gone.
abbrev three_visits : List (ℕ × Option (List WorkflowStep))
three_visits = (2000, some two_steps) ∷ (400000, some two_steps) ∷ (500000, none) ∷ []

life-IsConsistent_example :
    IsConsistent any_action flaky two_steps
      (life any_action flaky 1000 two_steps three_visits new_run)
life-IsConsistent_example =
    life-IsConsistent any_action flaky two_steps 1000 three_visits new_run (refl, refl)
      (inr refl, (inr refl, (inl refl, tt)))
