-- ===== src/Examples/Delivery.antt =====
-- Properties of the delivery of events at concrete input: one workflow with one step.
use ai_receptionist.Base.{ℕ, ◌≡◌, String, Bool, true, List, [], ◌∷◌, none}
use ai_receptionist.Workflow.Run.{WorkflowStep, Attempt, fulfilled}
use ai_receptionist.Workflow.Engine.{WorkflowDefinition, RunStore, dispatch}
use ai_receptionist.Workflow.Engine.Delivery.{dispatch_all, redelivery_idle}

abbrev thank_you : WorkflowDefinition
thank_you = record {
  id = "w";
  business_id = "b";
  steps = record { id = "email"; action = "send"; retry = none } ∷ [];
}

abbrev every_action : String → Bool
every_action action = true

abbrev succeeds : WorkflowDefinition → ℕ → WorkflowStep → ℕ → Attempt
succeeds workflow run_attempt step step_attempt = fulfilled

abbrev always_matches : String → WorkflowDefinition → Bool
always_matches event_id workflow = true

abbrev new_id : RunStore → String
new_id s = "r"

-- What happens between the two deliveries: another event.
abbrev other_event : List (ℕ × String × List WorkflowDefinition)
other_event = (1500, "f", thank_you ∷ []) ∷ []

abbrev delivered : RunStore
delivered =
    dispatch_all every_action succeeds always_matches new_id 3 other_event
      (dispatch every_action succeeds always_matches new_id 3 1000 (thank_you ∷ []) "e" ([], []))

redelivery_idle_example :
    dispatch every_action succeeds always_matches new_id 3 2000 (thank_you ∷ []) "e" delivered
    ≡ delivered
redelivery_idle_example =
    redelivery_idle every_action succeeds always_matches new_id 3 1000 2000 (thank_you ∷ []) "e"
      other_event ([], [])
