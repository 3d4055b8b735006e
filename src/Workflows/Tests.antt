-- ===== src/Workflows/Tests.antt =====
-- Runs of workflows and deliveries of webhooks, and their laws applied there.
use ai_aggregator.Prelude.{
  ℕ, zero, suc, ◌≡◌, refl, false, String, Option, none, some, List, [], ◌∷◌,
}
use ai_aggregator.Prelude.Int.{pos}
use ai_aggregator.Prelude.Json.{Json, str, obj, end}
use ai_aggregator.Routing.Tests.{whole, db, router}
use ai_aggregator.Chat.{reached}
use ai_aggregator.Workflows.{Step, Services, Reply, execute_builtin_tool, perform}
use ai_aggregator.Workflows.Runs.{
  Run, Stop, create_workflow_run, run_workflow, run_steps, execute_workflow, complete_workflow_run,
  step_failed,
}
use ai_aggregator.Prelude.Text.{trim_space}
use ai_aggregator.Http.{Ctx, no_locals, no_body}
use ai_aggregator.Workflows.Handlers.{
  Calls, Rows, RunRequest, get_workflow, admit_run, user_run_workflow, user_get_workflow,
}
use ai_aggregator.Workflows.Owners.{IsRunBy, user_run_workflow-IsRunBy}
use ai_aggregator.Workflows.Costs.{IsRun, run_workflow-IsRun}
use ai_aggregator.Workflows.Webhooks.{
  Post, unreachable, answered, IsDelivery, nothing_yet, deliver_workflow_webhook, deliver_from,
  deliver_workflow_webhook-IsDelivery,
}

abbrev step : String → String → String → Step
step name step_type tool_id = record {
  id = name;
  step_order = pos 1;
  name = name;
  step_type = step_type;
  model_id = "m1";
  tool_id = tool_id;
  prompt_template = "";
}

abbrev reply : Reply
reply = record { content = "hello"; usage = some (2, 3); usage_json = obj end }

abbrev services : Services
services = record {
  chat = λ _ _ _ _. reached reply;
  to_text = λ _. "json";
  replace_all = λ s _ _. s;
  order = λ ks. ks;
  pricing = λ _. none;
  error_text = λ _. "no route";
}

abbrev run : Run
run = create_workflow_run "r1" "w1" "u1" "" ""

-- A prompt step that costs, then a tool that does not exist.
abbrev steps : List Step
steps = step "first" "prompt" "" ∷ step "second" "tool" "hammer" ∷ []

abbrev error_json : Stop → Json
error_json stop = str "error"

abbrev ran : Option Stop × Run
ran = run_workflow services (λ _. false) whole db router false false error_json steps (obj end) run

-- Without the prompt step, which calls a model.
abbrev tools_ran : Option Stop × Run
tools_ran =
    run_workflow services (λ _. false) whole db router false false error_json
      (step "first" "tool" "" ∷ step "second" "tool" "hammer" ∷ []) (obj end) run

run_tests :
    (tools_ran.0 ≡ some (step_failed "second" "unsupported tool: hammer"))
    × (tools_ran.1.status ≡ "failed")
unfolding run_workflow execute_workflow run_steps complete_workflow_run perform execute_builtin_tool
run_tests = (refl, refl)

run_workflow-IsRun_example :
    IsRun services whole db router (λ _. false) error_json steps (obj end) run ran
run_workflow-IsRun_example =
    run_workflow-IsRun services whole db router (λ _. false) error_json steps (obj end) run
      (λ i. refl)

-- One lost request, then an answer 204.
abbrev post : ℕ → Post
post (suc zero) = unreachable "timeout"
post _ = answered 204 "ok"

deliver_tests : (deliver_workflow_webhook (λ _. "HTTP error") post (pos 0)).1 ≡ 2
unfolding deliver_workflow_webhook deliver_from
deliver_tests = refl

deliver_workflow_webhook-IsDelivery_example :
    IsDelivery
      (λ _. "HTTP error")
      post
      3
      1
      2
      nothing_yet
      (deliver_workflow_webhook (λ _. "HTTP error") post (pos 0))
deliver_workflow_webhook-IsDelivery_example =
    deliver_workflow_webhook-IsDelivery (λ _. "HTTP error") post (pos 0)

abbrev calls : Calls
calls = record {
  parse_uri = λ _. some ("https", "example.org");
  to_lower = λ s. s;
  members = record { rows = []; fails = λ _ _. false };
  step_name = λ _. "Step";
  workflow_json = λ wf. str wf.id;
  session_json = λ s. str s.id;
  run_json = λ r. str r.id;
  error_text = λ _. "error";
  new_id = "r1";
  workflow_fails = false;
  session_fails = false;
  create_fails = false;
  touch_fails = false;
  delivery_fails = false;
  read_fails = false;
  complete_fails = false;
  fail_fails = false;
  record_fails = λ _. false;
}

-- A workflow of u1 and a request by the caller of the context.
abbrev rows : Rows
rows = record {
  workflows =
      record {
        id = "w1";
        user_id = "u1";
        workspace_id = "";
        name = "W";
        status = "active";
        steps = step "first" "tool" "" ∷ [];
      }
      ∷ [];
  sessions = [];
  runs = [];
  deliveries = [];
}

abbrev by : String → Ctx
by user_id = record {
  authorization = "";
  request_id = "q1";
  locals = record no_locals { user_id = some user_id };
  status = 200;
  headers = [];
  body = no_body;
}

abbrev asked : Option RunRequest
asked =
    some (record { input = obj end; callback_url = "https://example.org"; agent_session_id = "" })

-- The owner runs it, and another user does not; but any user reads it.
handler_tests :
    ((user_run_workflow calls services whole db router "w1" asked (by "u1") rows).ctx.status ≡ 201)
    × ((user_run_workflow calls services whole db router "w1" asked (by "u2") rows).ctx.status
        ≡ 404)
    × ((user_get_workflow calls "w1" (by "u2") rows).ctx.status ≡ 200)
unfolding user_run_workflow user_get_workflow get_workflow admit_run run_workflow execute_workflow
    run_steps complete_workflow_run perform execute_builtin_tool trim_space
handler_tests = (refl, refl, refl)

user_run_workflow-IsRunBy_example :
    IsRunBy calls services whole db router "w1" "u1" rows
      (user_run_workflow calls services whole db router "w1" asked (by "u1") rows)
user_run_workflow-IsRunBy_example =
    user_run_workflow-IsRunBy calls services whole db router "w1" (by "u1") rows asked
