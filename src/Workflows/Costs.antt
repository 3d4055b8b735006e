-- ===== src/Workflows/Costs.antt =====
-- The row of a run (executeWorkflow and userRunWorkflow in backend/internal/gateway/router.go).
use ai_aggregator.Prelude.{
  ℕ, ◌≡◌, ◌∙◌, ap, Bool, false, String, Option, none, some, List, [], ◌∷◌, ◌++◌,
}
use ai_aggregator.Prelude.Json.{Json, obj, field, end}
use ai_aggregator.Float.{Float}
use ai_aggregator.Routing.Registry.{Store, Router}
use ai_aggregator.Workflows.{Step, State, StepRecord, Services, plain, state_json}
use ai_aggregator.Workflows.Runs.{
  Run, Stop, finished, step_failed, record_failed, complete_workflow_run, complete_loop,
  complete_run, run_steps, execute_workflow, run_workflow,
}
use ai_aggregator.Workflows.Semantics.{
  Means, Refines, no_record_failed, run_steps-Refines, add_total_zero, with_steps,
}

module _ (services : Services) (fl : Float) (db : Store fl.F) (r : Router fl.F)
    (record_fails : ℕ → Bool) (error_json : Stop → Json) (steps : List Step) (input : Json)
    (run : Run) where
  abbrev pub start_state : State
  start_state = ("input", plain input) ∷ []

  -- What run_workflow returns and stores, by the meaning of the steps.
  pub data IsRun : Option Stop × Run → Type 0 where
    succeeded :
        (recs : List StepRecord) (last : State) (total : ℕ)
        → Means services fl db r 0 steps start_state recs (finished last total)
        → IsRun (
          none,
          record run {
            status = "completed";
            output = state_json last;
            total_cost = total;
            steps = run.steps ++ recs;
          },
        )
    stopped :
        (recs : List StepRecord) (name message : String)
        → Means services fl db r 0 steps start_state recs (step_failed name message)
        → IsRun (
          some (step_failed name message),
          record run {
            status = "failed";
            output = obj (field "error" (error_json (step_failed name message)) end);
            steps = run.steps ++ recs;
          },
        )

  -- The rest of userRunWorkflow after the loop.
  abbrev after_loop : Stop × Run → Option Stop × Run
  after_loop p =
      complete_run services record_fails fl db r false error_json run.total_cost
        (complete_loop services record_fails fl db r false p)

  from_stop :
      (recs : List StepRecord) (stop : Stop)
      → Means services fl db r 0 steps start_state recs stop
      → IsRun (after_loop (stop, with_steps recs run))
  unfolding complete_workflow_run
  from_stop recs (finished last total) m = succeeded recs last total m
  from_stop recs (step_failed name message) m = stopped recs name message m
  from_stop recs record_failed m = absurd (no_record_failed m)

  from_loop :
      (recs : List StepRecord) (stop : Stop)
      → Means services fl db r 0 steps start_state recs stop
      → run_steps services record_fails fl db r 0 steps start_state 0 run
        ≡ (stop, with_steps recs run)
      → IsRun (run_workflow services record_fails fl db r false false error_json steps input run)
  unfolding run_workflow execute_workflow
  from_loop recs stop m e = rw e (from_stop recs stop m)

  -- Where every row can be written, a run of a workflow is its meaning. If the steps run to the
  -- end, the row is completed with the final state, all records in order and the sum of their
  -- costs. If a step fails, nothing after it runs, the row is failed with the records up to it,
  -- and its cost stays what the row was created with, whatever the steps before it cost.
  pub run_workflow-IsRun :
      ((i : ℕ) → record_fails i ≡ false)
      → IsRun (run_workflow services record_fails fl db r false false error_json steps input run)
  run_workflow-IsRun ok =
      let m : Refines services fl db r record_fails ok 0 steps start_state 0 run =
        run_steps-Refines services fl db r record_fails ok 0 steps start_state 0 run in
      from_loop m.recs m.stop m.means
        (m.runs ∙ ap (λ stop. (stop, with_steps m.recs run)) (add_total_zero m.stop))
