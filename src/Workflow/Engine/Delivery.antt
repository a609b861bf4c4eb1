-- ===== src/Workflow/Engine/Delivery.antt =====
-- An event may be delivered more than once.
use ai_receptionist.Base.{
  none, some, ℕ, suc, ◌+◌, ◌≡◌, refl, ap, ◌∙◌, String, Bool, true, false, ◌||◌, List, [], ◌∷◌, ◌++◌,
  arith, eq_refl, Bool-cases, inl, inr, All-map, All, drop,
}
use ai_receptionist.Workflow.Run.{
  WorkflowStep, WorkflowRun, running, WorkflowStepLog, Attempt, StepOutcome, step_ok, step_error,
  after_step, execute_step, steps_loop, execute_run,
}
use ai_receptionist.Workflow.Engine.{
  WorkflowDefinition, RunStore, has_run, inserted_run, create_run, after_create, first_execution,
  start_run, dispatch,
}

-- Two rows of the same run of the same event.
abbrev SameRun : WorkflowRun → WorkflowRun → Type 0
SameRun r q = (r.workflow_id ≡ q.workflow_id) × (r.event_id ≡ q.event_id)

module _ (registered : String → Bool) (run_action : ℕ → WorkflowStep → ℕ → Attempt) where
  after_step-SameRun :
      (now attempt index : ℕ) (row : WorkflowRun) (o : StepOutcome × List WorkflowStepLog)
      (later : WorkflowRun × List WorkflowStepLog)
      → SameRun later.0 row
      → SameRun (after_step registered run_action now attempt index row o later).0 row
  after_step-SameRun now attempt index row (step_ok, log) (row', rest) same = same
  after_step-SameRun now attempt index row (step_error error uncertain, log) later same =
      (refl, refl)

  steps_loop-SameRun :
      (now attempt index : ℕ) (steps : List WorkflowStep) (row : WorkflowRun)
      → SameRun (steps_loop registered run_action now attempt index steps row).0 row
  unfolding steps_loop
  steps_loop-SameRun now attempt index [] row = (refl, refl)
  steps_loop-SameRun now attempt index (step ∷ steps) row =
      after_step-SameRun now attempt index row (execute_step registered run_action step attempt) _
        (steps_loop-SameRun now attempt (suc index) steps (record row { current_step = suc index }))

  execute_run-SameRun :
      (now : ℕ) (steps : List WorkflowStep) (run : WorkflowRun)
      → SameRun (execute_run registered run_action now steps run).0 run
  unfolding execute_run
  execute_run-SameRun now steps run =
      steps_loop-SameRun now (run.attempt + 1) run.current_step (drop run.current_step steps)
        (record run { status = running; attempt = run.attempt + 1 })

module _ (registered : String → Bool)
    (run_action : WorkflowDefinition → ℕ → WorkflowStep → ℕ → Attempt)
    (event_matches : String → WorkflowDefinition → Bool) (fresh : RunStore → String)
    (max_run_attempts now : ℕ) where
  start : WorkflowDefinition → String → RunStore → RunStore
  start = start_run registered run_action event_matches fresh max_run_attempts now

  deliver : List WorkflowDefinition → String → RunStore → RunStore
  deliver = dispatch registered run_action event_matches fresh max_run_attempts now

  has_run-append :
      (w e : String) (xs ys : List WorkflowRun)
      → has_run w e (xs ++ ys) ≡ (has_run w e xs || has_run w e ys)
  unfolding has_run
  has_run-append w e [] ys = ground arith
  has_run-append w e (x ∷ xs) ys = ground (arith, has_run-append w e xs ys)

  first_execution-has_run :
      (w : WorkflowDefinition) (e : String) (run : WorkflowRun)
      → run.workflow_id ≡ w.id
      → run.event_id ≡ e
      → has_run w.id e
          (first_execution registered run_action event_matches fresh max_run_attempts now w e run).0
        ≡ true
  unfolding first_execution has_run
  first_execution-has_run w e run p q =
      let (same, same') = execute_run-SameRun registered (run_action w) now w.steps run in
      ground (arith, same, same', p, q, eq_refl w.id, eq_refl e)

  -- What a started run leaves in the store, where there was no such run.
  abbrev added : WorkflowDefinition → String → RunStore → RunStore
  added w e s =
      let (row, log) =
        first_execution registered run_action event_matches fresh max_run_attempts now w e (
          inserted_run registered run_action event_matches fresh max_run_attempts now w e
            (fresh s)) in
      (s.0 ++ row, s.1 ++ log)

  create_run-known :
      (w : WorkflowDefinition) (e : String) (s : RunStore)
      → has_run w.id e s.0 ≡ true
      → create_run registered run_action event_matches fresh max_run_attempts now w e s ≡ none
  unfolding create_run
  create_run-known w e s h = rw h refl

  create_run-unknown :
      (w : WorkflowDefinition) (e : String) (s : RunStore)
      → has_run w.id e s.0 ≡ false
      → create_run registered run_action event_matches fresh max_run_attempts now w e s
        ≡ some (
            inserted_run registered run_action event_matches fresh max_run_attempts now w e
              (fresh s))
  unfolding create_run
  create_run-unknown w e s h = rw h refl

  start-known :
      (w : WorkflowDefinition) (e : String) (s : RunStore)
      → has_run w.id e s.0 ≡ true
      → start w e s ≡ s
  unfolding start start_run after_create
  start-known w e s h =
      ap (after_create registered run_action event_matches fresh max_run_attempts now w e s)
        (create_run-known w e s h)

  start-unknown :
      (w : WorkflowDefinition) (e : String) (s : RunStore)
      → has_run w.id e s.0 ≡ false
      → start w e s ≡ added w e s
  unfolding start start_run after_create
  start-unknown w e s h =
      ap (after_create registered run_action event_matches fresh max_run_attempts now w e s)
        (create_run-unknown w e s h)

  has_run-added :
      (x y e : String) (w : WorkflowDefinition) (s : RunStore)
      → has_run x y s.0 ≡ true
      → has_run x y (added w e s).0 ≡ true
  has_run-added x y e w s h = rw (has_run-append, h) refl

  has_run-start :
      (x y e : String) (w : WorkflowDefinition) (s : RunStore)
      → has_run x y s.0 ≡ true
      → has_run x y (start w e s).0 ≡ true
  has_run-start x y e w s h = elim (Bool-cases (has_run w.id e s.0)) [
    | inl known ↦ rw (start-known w e s known) h
    | inr unknown ↦ rw (start-unknown w e s unknown) (has_run-added x y e w s h)
  ]

  start-has_run :
      (w : WorkflowDefinition) (e : String) (s : RunStore) → has_run w.id e (start w e s).0 ≡ true
  start-has_run w e s = elim (Bool-cases (has_run w.id e s.0)) [
    | inl known ↦ rw (start-known w e s known) known
    | inr unknown ↦
        let run =
          inserted_run registered run_action event_matches fresh max_run_attempts now w e
            (fresh s) in
        rw
          (
            start-unknown w e s unknown,
            has_run-append,
            unknown,
            first_execution-has_run w e run refl refl,
          )
          refl
  ]

  has_run-deliver :
      (x y e : String) (ws : List WorkflowDefinition) (s : RunStore)
      → has_run x y s.0 ≡ true
      → has_run x y (deliver ws e s).0 ≡ true
  unfolding deliver dispatch start
  has_run-deliver x y e [] s h = h
  has_run-deliver x y e (w ∷ ws) s h =
      has_run-deliver x y e ws (start w e s) (has_run-start x y e w s h)

  deliver-All :
      (ws : List WorkflowDefinition) (e : String) (s : RunStore)
      → All (λ w. has_run w.id e (deliver ws e s).0 ≡ true) ws
  unfolding deliver dispatch start
  deliver-All [] e s = tt
  deliver-All (w ∷ ws) e s = (
    has_run-deliver w.id e e ws (start w e s) (start-has_run w e s),
    deliver-All ws e (start w e s),
  )

  deliver-known :
      (ws : List WorkflowDefinition) (e : String) (s : RunStore)
      → All (λ w. has_run w.id e s.0 ≡ true) ws
      → deliver ws e s ≡ s
  unfolding deliver dispatch start
  deliver-known [] e s h = refl
  deliver-known (w ∷ ws) e s (known, rest) =
      ap (deliver ws e) (start-known w e s known) ∙ deliver-known ws e s rest

module _ (registered : String → Bool)
    (run_action : WorkflowDefinition → ℕ → WorkflowStep → ℕ → Attempt)
    (event_matches : String → WorkflowDefinition → Bool) (fresh : RunStore → String)
    (max_run_attempts : ℕ) where
  -- Deliveries one after the other: the time, the event, and the workflows enabled then.
  unfoldable pub dispatch_all : List (ℕ × String × List WorkflowDefinition) → RunStore → RunStore
  dispatch_all [] s = s
  dispatch_all ((now, e, ws) ∷ more) s =
      dispatch_all more
        (dispatch registered run_action event_matches fresh max_run_attempts now ws e s)

  dispatch_all-All :
      (ws : List WorkflowDefinition) (e : String)
      (deliveries : List (ℕ × String × List WorkflowDefinition)) (s : RunStore)
      → All (λ w. has_run w.id e s.0 ≡ true) ws
      → All (λ w. has_run w.id e (dispatch_all deliveries s).0 ≡ true) ws
  unfolding dispatch_all deliver
  dispatch_all-All ws e [] s h = h
  dispatch_all-All ws e ((now, e', ws') ∷ more) s h = dispatch_all-All ws e more _ (
      All-map
        (λ w known.
          has_run-deliver registered run_action event_matches fresh max_run_attempts now w.id e e'
            ws' s known)
        ws h)

  -- Where the store keeps its contract (`createRun` gives no second run of a workflow for an event), an
  -- event that is delivered again to workflows to which it was delivered before changes nothing at
  -- all, whatever was delivered in between and whenever it comes: no run is added or executed again,
  -- and no action is performed, so that nothing is logged.
  pub redelivery_idle :
      (now later : ℕ) (ws : List WorkflowDefinition) (e : String)
      (between : List (ℕ × String × List WorkflowDefinition)) (s : RunStore)
      → let after =
          dispatch_all between
            (dispatch registered run_action event_matches fresh max_run_attempts now ws e s) in
        dispatch registered run_action event_matches fresh max_run_attempts later ws e after ≡ after
  unfolding deliver
  redelivery_idle now later ws e between s =
      deliver-known registered run_action event_matches fresh max_run_attempts later ws e _ (
        dispatch_all-All ws e between _
          (deliver-All registered run_action event_matches fresh max_run_attempts now ws e s))
