-- ===== src/Workflows/Runs.antt =====
-- The loop of executeWorkflow with what it stores (backend/internal/gateway/router.go), and the
-- rows of workflow_runs (CreateWorkflowRun and CompleteWorkflowRun in
-- backend/internal/storage/store.go).
use ai_aggregator.Prelude.{
  ℕ, suc, ◌+◌, Bool, true, false, String, Option, none, some, List, [], ◌∷◌, ◌++◌, if◌then◌else◌,
}
use ai_aggregator.Prelude.Json.{Json, obj, field, end}
use ai_aggregator.Float.{Float}
use ai_aggregator.Routing.Registry.{Store, Router}
use ai_aggregator.Workflows.{
  Step, State, StepRecord, Services, produced, broke, plain, perform, completed_record,
  failed_record, state_json,
}

-- A row of workflow_runs with its steps.
pub record Run : Type 0 where
  pub id : String
  pub workflow_id : String
  pub user_id : String
  pub workspace_id : String
  pub agent_session_id : String
  pub status : String
  pub output : Json
  pub total_cost : ℕ
  pub steps : List StepRecord

-- How the loop ends.
pub data Stop : Type 0 where
  finished : (state : State) (total : ℕ) → Stop
  step_failed : (name message : String) → Stop
  record_failed : Stop

-- CreateWorkflowRun: the row as the database makes it.
abbrev pub create_workflow_run :
    (id workflow_id user_id workspace_id agent_session_id : String) → Run
create_workflow_run id workflow_id user_id workspace_id agent_session_id = record {
  id = id;
  workflow_id = workflow_id;
  user_id = user_id;
  workspace_id = workspace_id;
  agent_session_id = agent_session_id;
  status = "running";
  output = obj end;
  total_cost = 0;
  steps = [];
}

-- CompleteWorkflowRun: whether it succeeded.
unfoldable pub complete_workflow_run : (fails : Bool) → String → Json → ℕ → Run → Bool × Run
complete_workflow_run fails status output total run =
    if fails
    then (false, run)
    else (true, record run { status = status; output = output; total_cost = total })

-- RecordWorkflowRunStep
abbrev pub add_step : StepRecord → Run → Run
add_step rec run = record run { steps = run.steps ++ rec ∷ [] }

module _ (services : Services) (record_fails : ℕ → Bool) (fl : Float) (db : Store fl.F)
    (r : Router fl.F) where
  -- The loop, from the step `i` with the total so far.
  unfoldable pub run_steps : ℕ → List Step → State → ℕ → Run → Stop × Run
  run_steps i [] s total run = (finished s total, run)
  run_steps i (step ∷ rest) s total run = elim (perform services fl db r i step s) [
    | broke message ↦ if record_fails i then (record_failed, run) else (
      step_failed step.name message,
      add_step (failed_record services fl db r step message s) run,
    )
    | produced output cost s' ↦
        let later =
          run_steps (suc i) rest s' (total + cost)
            (add_step (completed_record services fl db r step output cost s') run) in
        if record_fails i then (record_failed, run) else later
  ]

  -- What executeWorkflow does after the loop: the error, `none` for no error, and the row.
  abbrev pub complete_loop : (complete_fails : Bool) → Stop × Run → Option Stop × Run
  complete_loop complete_fails (finished s total, run) =
      let (completed, done) =
        complete_workflow_run complete_fails "completed" (state_json s) total run in
      (if completed then none else some record_failed, done)
  complete_loop complete_fails (step_failed name message, run) =
      (some (step_failed name message), run)
  complete_loop complete_fails (record_failed, run) = (some record_failed, run)

  -- executeWorkflow
  unfoldable pub execute_workflow :
      (complete_fails : Bool) → List Step → Json → Run → Option Stop × Run
  unfolding run_steps complete_workflow_run
  execute_workflow complete_fails steps input run =
      complete_loop complete_fails (run_steps 0 steps (("input", plain input) ∷ []) 0 run)

  -- The end of userRunWorkflow: a run that failed is completed with the cost that its row was
  -- created with. `error_json` is the text of the error.
  abbrev pub complete_run :
      (fail_fails : Bool) (error_json : Stop → Json) (created_cost : ℕ)
      → Option Stop × Run
      → Option Stop × Run
  complete_run fail_fails error_json created_cost (none, run) = (none, run)
  complete_run fail_fails error_json created_cost (some stop, run) = (
    some stop,
    (complete_workflow_run fail_fails "failed" (obj (field "error" (error_json stop) end))
        created_cost run).1,
  )

  unfoldable pub run_workflow :
      (complete_fails fail_fails : Bool) (error_json : Stop → Json)
      → List Step
      → Json
      → Run
      → Option Stop × Run
  unfolding execute_workflow
  run_workflow complete_fails fail_fails error_json steps input run =
      complete_run fail_fails error_json run.total_cost
        (execute_workflow complete_fails steps input run)
