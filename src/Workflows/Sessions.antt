-- ===== src/Workflows/Sessions.antt =====
-- The handlers that make workflows and agent sessions and close sessions: userCreateWorkflow,
-- userCreateAgentSession and userCloseAgentSession (backend/internal/gateway/router.go), with
-- CreateWorkflow, CreateAgentSession and CloseAgentSession (backend/internal/storage/store.go).
-- Metadata, descriptions and configurations are left out.
use ai_aggregator.Prelude.{
  ℕ, zero, suc, Bool, true, false, ◌||◌, ◌&&◌, not, String, Option, none, some, List, [], ◌∷◌,
  if◌then◌else◌, str_eq,
}
use ai_aggregator.Prelude.Int.{ℤ, pos}
use ai_aggregator.Prelude.Text.{trim_space}
use ai_aggregator.Http.{value, Handler, answer, error_response, local_string}
use ai_aggregator.Auth.{get_user_id}
use ai_aggregator.Workflows.{Step}
use ai_aggregator.Workflows.Handlers.{
  Workflow, AgentSession, Rows, Calls, is_session_of, get_workflow, may_write, denied,
}

-- A step of the request.
pub record StepRequest : Type 0 where
  pub name : String
  pub step_order : ℤ
  pub step_type : String
  pub model_id : String
  pub tool_id : String
  pub prompt_template : String

pub record WorkflowRequest : Type 0 where
  pub name : String
  pub workspace_id : String
  pub steps : List StepRequest

pub record SessionRequest : Type 0 where
  pub name : String
  pub workflow_id : String
  pub workspace_id : String

-- defaultGuardrailValue
abbrev pub default_guardrail_value : (value fallback : String) → String
default_guardrail_value given fallback =
    let v = trim_space given in if str_eq v "" then fallback else v

-- firstNonZero
abbrev pub first_non_zero : ℤ → ℤ → ℤ
first_non_zero (pos zero) fallback = fallback
first_non_zero given fallback = given

-- The rest of a handler behind the check of "workflows:write", `none` for an error.
abbrev behind_write : Option Bool → Handler Rows → Handler Rows
behind_write none next c rows =
    answer 400 (error_response "invalid_request" "invalid workspace_id") c rows
behind_write (some allowed) next c rows =
    if allowed then next c rows else answer 403 (error_response "permission_denied" denied) c rows

abbrev is_empty : List StepRequest → Bool
is_empty [] = true
is_empty _ = false

module _ (calls : Calls) where
  -- The checked step at the index `i` of the request, as the database stores it; `step_id` is the
  -- id of its row.
  abbrev pub step_of : (step_id : ℕ → String) → ℕ → StepRequest → Step
  step_of step_id i s = record {
    id = step_id i;
    step_order = first_non_zero s.step_order (pos (suc i));
    name = default_guardrail_value s.name (calls.step_name (suc i));
    step_type = default_guardrail_value s.step_type "prompt";
    model_id = s.model_id;
    tool_id = s.tool_id;
    prompt_template = s.prompt_template;
  }

  unfoldable pub steps_of : (step_id : ℕ → String) → ℕ → List StepRequest → List Step
  steps_of step_id i [] = []
  steps_of step_id i (s ∷ rest) = step_of step_id i s ∷ steps_of step_id (suc i) rest

  -- CreateWorkflow in userCreateWorkflow, behind the guards. `order` is the database's ORDER BY
  -- step_order, by which the steps are read later.
  abbrev store_workflow :
      (step_id : ℕ → String) (order : List Step → List Step) (user_id workspace_id : String)
      → WorkflowRequest
      → Handler Rows
  store_workflow step_id order user_id workspace_id req c rows =
      let wf : Workflow = record {
        id = calls.new_id;
        user_id = user_id;
        workspace_id = workspace_id;
        name = trim_space req.name;
        status = "active";
        steps = order (steps_of step_id 0 req.steps);
      } in
      if calls.create_fails
      then answer 500 (error_response "internal_server_error" "failed to create workflow") c rows
      else answer 201
          (value (calls.workflow_json (record wf { steps = steps_of step_id 0 req.steps }))) c
          (record rows { workflows = wf ∷ rows.workflows })

  -- userCreateWorkflow; no request where the body cannot be read.
  unfoldable pub user_create_workflow :
      (step_id : ℕ → String) (order : List Step → List Step) → Option WorkflowRequest → Handler Rows
  unfolding steps_of
  user_create_workflow step_id order none c rows =
      answer 400 (error_response "invalid_request" "invalid request body") c rows
  user_create_workflow step_id order (some req) c rows =
      let asked = trim_space req.workspace_id in
      let workspace_id = if str_eq asked "" then local_string c.locals.workspace_id else asked in
      let next = store_workflow step_id order (get_user_id c) workspace_id req in
      if str_eq (trim_space req.name) "" || is_empty req.steps
      then answer 400 (error_response "invalid_request" "name and steps are required") c rows
      else if str_eq workspace_id ""
      then next c rows
      else behind_write (may_write calls workspace_id (get_user_id c)) next c rows

  -- CreateAgentSession in userCreateAgentSession, behind the guards.
  abbrev store_session : (user_id workspace_id workflow_id name : String) → Handler Rows
  store_session user_id workspace_id workflow_id name c rows =
      let session : AgentSession = record {
        id = calls.new_id;
        user_id = user_id;
        workspace_id = workspace_id;
        workflow_id = workflow_id;
        name = name;
        status = "active";
        last_run_id = "";
      } in
      if calls.create_fails
      then answer 500 (error_response "internal_server_error" "failed to create agent session") c
          rows
      else answer 201 (value (calls.session_json session)) c
          (record rows { sessions = session ∷ rows.sessions })

  abbrev session_in : (user_id workspace_id workflow_id name : String) → Handler Rows
  session_in user_id workspace_id workflow_id name c rows =
      let next = store_session user_id workspace_id workflow_id name in
      if str_eq workspace_id ""
      then next c rows
      else behind_write (may_write calls workspace_id user_id) next c rows

  abbrev session_for :
      Option Workflow → (user_id workspace_id workflow_id name : String) → Handler Rows
  session_for none user_id workspace_id workflow_id name c rows =
      answer 404 (error_response "not_found" "workflow not found") c rows
  session_for (some wf) user_id workspace_id workflow_id name c rows =
      if not (str_eq wf.user_id "") && not (str_eq wf.user_id user_id)
      then answer 404 (error_response "not_found" "workflow not found") c rows
      else session_in user_id (if str_eq workspace_id "" then wf.workspace_id else workspace_id)
          workflow_id name c rows

  -- userCreateAgentSession; no request where the body cannot be read.
  unfoldable pub user_create_agent_session : Option SessionRequest → Handler Rows
  unfolding get_workflow
  user_create_agent_session none c rows =
      answer 400 (error_response "invalid_request" "invalid request body") c rows
  user_create_agent_session (some req) c rows =
      let name = trim_space req.name in
      let workflow_id = trim_space req.workflow_id in
      let workspace_id = trim_space req.workspace_id in
      if str_eq name ""
      then answer 400 (error_response "invalid_request" "name is required") c rows
      else if str_eq workflow_id ""
      then session_in (get_user_id c) workspace_id workflow_id name c rows
      else session_for (get_workflow calls workflow_id rows) (get_user_id c) workspace_id
          workflow_id name c rows

  -- CloseAgentSession: the row that it returns, and the rows.
  unfoldable pub close_agent_session :
      (session_id user_id : String) → List AgentSession → Option AgentSession × List AgentSession
  close_agent_session session_id user_id [] = (none, [])
  close_agent_session session_id user_id (s ∷ rest) =
      let (found, rows) = close_agent_session session_id user_id rest in
      if is_session_of session_id user_id s
      then (some (record s { status = "closed" }), record s { status = "closed" } ∷ rows)
      else (found, s ∷ rows)

  -- userCloseAgentSession
  unfoldable pub user_close_agent_session : String → Handler Rows
  unfolding close_agent_session
  user_close_agent_session session_id c rows =
      if calls.session_fails
      then answer 404 (error_response "not_found" "agent session not found") c rows
      else let (found, sessions) = close_agent_session session_id (get_user_id c) rows.sessions in
        elim found [
          | none ↦
              answer 404 (error_response "not_found" "agent session not found") c
                (record rows { sessions = sessions })
          | some session ↦
              answer 200 (value (calls.session_json session)) c
                (record rows { sessions = sessions })
        ]
