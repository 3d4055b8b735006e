-- ===== src/Workflows/Handlers.antt =====
-- The handlers of workflows and agent sessions: userRunWorkflow, recordWorkflowWebhook,
-- userCreateWorkflow, userGetWorkflow, userCreateAgentSession and userCloseAgentSession
-- (backend/internal/gateway/router.go), with their queries (backend/internal/storage/store.go).
-- Metadata, configurations and times are left out; the delivery that recordWorkflowWebhook starts
-- in the background is that of Webhooks.
use Prim.Native.String
use ai_aggregator.Prelude.{
  ℕ, Bool, false, ◌&&◌, ◌||◌, not, String, Option, none, some, List, [], ◌∷◌, map, if◌then◌else◌,
  str_eq,
}
use ai_aggregator.Prelude.Int.{ℤ, pos}
use ai_aggregator.Prelude.Text.{trim_space}
use ai_aggregator.Prelude.Json.{Json, null, str}
use ai_aggregator.Http.{value, Handler, answer, error_response}
use ai_aggregator.Auth.{get_user_id}
use ai_aggregator.Access.{Members, workspace_member_has_permission}
use ai_aggregator.Float.{Float}
use ai_aggregator.Routing.Registry.{Store, Router}
use ai_aggregator.Workflows.{Step, Services}
use ai_aggregator.Workflows.Runs.{Run, Stop, create_workflow_run, run_workflow}

-- storage.Workflow, with its steps in their order.
pub record Workflow : Type 0 where
  pub id : String
  pub user_id : String
  pub workspace_id : String
  pub name : String
  pub status : String
  pub steps : List Step

pub record AgentSession : Type 0 where
  pub id : String
  pub user_id : String
  pub workspace_id : String
  pub workflow_id : String
  pub name : String
  pub status : String
  pub last_run_id : String

pub record WebhookDelivery : Type 0 where
  pub workflow_id : String
  pub run_id : String
  pub callback_url : String
  pub event_type : String
  pub status : String
  pub max_attempts : ℤ

-- The tables, the newest row first.
pub record Rows : Type 0 where
  pub workflows : List Workflow
  pub sessions : List AgentSession
  pub runs : List Run
  pub deliveries : List WebhookDelivery

-- What the handlers call: url.ParseRequestURI (scheme and host), strings.ToLower, the members
-- of the workspaces, fmt.Sprintf("Step %d", n), the JSON of results, the text of an error, the
-- id of a new row, and which calls of the store fail.
pub record Calls : Type 0 where
  pub parse_uri : String → Option (String × String)
  pub to_lower : String → String
  pub members : Members
  pub step_name : ℕ → String
  pub workflow_json : Workflow → Json
  pub session_json : AgentSession → Json
  pub run_json : Run → Json
  pub error_text : Stop → String
  pub new_id : String
  pub workflow_fails : Bool
  pub session_fails : Bool
  pub create_fails : Bool
  pub touch_fails : Bool
  pub delivery_fails : Bool
  pub read_fails : Bool
  pub complete_fails : Bool
  pub fail_fails : Bool
  pub record_fails : ℕ → Bool

abbrev find_workflow_row : String → List Workflow → Option Workflow
find_workflow_row id [] = none
find_workflow_row id (wf ∷ rest) = if str_eq wf.id id then some wf else find_workflow_row id rest

-- id = $1 AND user_id = NULLIF($2, '')
abbrev pub is_session_of : (session_id user_id : String) → AgentSession → Bool
is_session_of session_id user_id s =
    str_eq s.id session_id && not (str_eq user_id "") && str_eq s.user_id user_id

abbrev find_session : (session_id user_id : String) → List AgentSession → Option AgentSession
find_session session_id user_id [] = none
find_session session_id user_id (s ∷ rest) =
    if is_session_of session_id user_id s then some s else find_session session_id user_id rest

-- The body of userRunWorkflow's request.
pub record RunRequest : Type 0 where
  pub input : Json
  pub callback_url : String
  pub agent_session_id : String

-- The guards' result: an answer, or the workflow and the trimmed fields.
pub data Admission : Type 0 where
  refused : ℕ → (code message : String) → Admission
  admitted : Workflow → (input : Json) (callback_url agent_session_id : String) → Admission

abbrev pub denied : String
denied = "user does not have workflows:write permission for the workspace"

module _ (calls : Calls) where
  -- validWebhookCallbackURL
  abbrev pub valid_webhook_callback_url : String → Bool
  valid_webhook_callback_url raw = elim (calls.parse_uri raw) [
    | none ↦ false
    | some (scheme, host) ↦ not (str_eq host "") && (str_eq scheme "http" || str_eq scheme "https")
  ]

  -- GetWorkflow
  unfoldable pub get_workflow : String → Rows → Option Workflow
  get_workflow id rows = if calls.workflow_fails then none else find_workflow_row id rows.workflows

  -- GetAgentSession
  unfoldable pub get_agent_session : (session_id user_id : String) → Rows → Option AgentSession
  get_agent_session session_id user_id rows =
      if calls.session_fails then none else find_session session_id user_id rows.sessions

  -- The permission "workflows:write", `none` for an error.
  abbrev pub may_write : (workspace_id user_id : String) → Option Bool
  may_write workspace_id user_id =
      workspace_member_has_permission calls.to_lower calls.members workspace_id user_id
        "workflows:write"

  -- The check of the session.
  abbrev pub admit_session : Option AgentSession → Workflow → Admission → Admission
  admit_session none wf after = refused 404 "not_found" "agent session not found"
  admit_session (some session) wf after =
      if not (str_eq session.status "active")
      then refused 400 "invalid_request" "agent session is not active"
      else if not (str_eq session.workflow_id "") && not (str_eq session.workflow_id wf.id)
      then refused 400 "invalid_request" "agent session is bound to a different workflow"
      else after

  abbrev pub admit_member : Option Bool → Admission → Admission
  admit_member none after = refused 400 "invalid_request" "invalid workflow workspace"
  admit_member (some allowed) after =
      if allowed then after else refused 403 "permission_denied" denied

  -- The guards for a workflow that was found.
  abbrev pub admit_workflow : (user_id : String) → Workflow → RunRequest → Rows → Admission
  admit_workflow user_id wf req rows =
      let session_id = trim_space req.agent_session_id in
      let go = admitted wf req.input (trim_space req.callback_url) session_id in
      let by_session =
        if str_eq session_id ""
        then go
        else admit_session (get_agent_session session_id user_id rows) wf go in
      if not (str_eq wf.user_id "") && not (str_eq wf.user_id user_id)
      then refused 404 "not_found" "workflow not found"
      else if str_eq wf.workspace_id ""
      then by_session
      else admit_member (may_write wf.workspace_id user_id) by_session

  -- The guards of userRunWorkflow; no request where the body cannot be read.
  unfoldable pub admit_run : (id user_id : String) → Option RunRequest → Rows → Admission
  unfolding get_workflow get_agent_session
  admit_run id user_id none rows = refused 400 "invalid_request" "invalid request body"
  admit_run id user_id (some req) rows =
      let url = trim_space req.callback_url in
      if not (str_eq url "") && not (valid_webhook_callback_url url)
      then refused 400 "invalid_request" "callback_url must be an http or https URL"
      else elim (get_workflow id rows) [
        | none ↦ refused 404 "not_found" "workflow not found"
        | some wf ↦ admit_workflow user_id wf req rows
      ]

  -- recordWorkflowWebhook
  abbrev pub record_workflow_webhook :
      (run_id workflow_id callback_url event : String) → Rows → Rows
  record_workflow_webhook run_id workflow_id callback_url event rows =
      if str_eq callback_url "" then rows else if calls.delivery_fails then rows else record rows {
        deliveries =
            record {
              workflow_id = workflow_id;
              run_id = run_id;
              callback_url = callback_url;
              event_type = String.◌++◌ "workflow.run." event;
              status = "recorded";
              max_attempts = pos 3;
            }
            ∷ rows.deliveries;
      }

  -- TouchAgentSessionRun
  abbrev pub touch_session : (session_id run_id : String) → AgentSession → AgentSession
  touch_session session_id run_id s =
      if str_eq s.id session_id then record s { last_run_id = run_id } else s

  abbrev pub touch_agent_session_run : (session_id run_id : String) → Rows → Rows
  touch_agent_session_run session_id run_id rows =
      if str_eq session_id ""
      then rows
      else if calls.touch_fails
      then rows
      else record rows { sessions = map (touch_session session_id run_id) rows.sessions }

  -- The end of userRunWorkflow, after the run.
  abbrev pub finish_run :
      (wf : Workflow) (callback_url session_id : String) → Option Stop × Run → Handler Rows
  finish_run wf callback_url session_id (some stop, run) c rows =
      answer 500 (error_response "workflow_failed" (calls.error_text stop)) c
        (record_workflow_webhook run.id wf.id callback_url "failed" rows)
  finish_run wf callback_url session_id (none, run) c rows =
      answer 201 (value (if calls.read_fails then null else calls.run_json run)) c (
        record_workflow_webhook run.id wf.id callback_url "completed"
          (touch_agent_session_run session_id run.id rows))

  module _ (services : Services) (fl : Float) (db : Store fl.F) (r : Router fl.F) where
    -- The run of an admitted workflow: what executeWorkflow and the call of CompleteWorkflowRun
    -- after a failure make of its row.
    abbrev pub ran :
        (user_id : String) → Workflow → Json → (session_id : String) → Option Stop × Run
    ran user_id wf input session_id =
        run_workflow services calls.record_fails fl db r calls.complete_fails calls.fail_fails
          (λ stop. str (calls.error_text stop)) wf.steps input
          (create_workflow_run calls.new_id wf.id user_id wf.workspace_id session_id)

    -- userRunWorkflow, with the id of the path.
    unfoldable pub user_run_workflow : String → Option RunRequest → Handler Rows
    unfolding admit_run
    user_run_workflow id req c rows = elim (admit_run id (get_user_id c) req rows) [
      | refused status code message ↦ answer status (error_response code message) c rows
      | admitted wf input callback_url session_id ↦
          if calls.create_fails
          then answer 500 (error_response "internal_server_error" "failed to create workflow run") c
              rows
          else let result = ran (get_user_id c) wf input session_id in
            finish_run wf callback_url session_id result c
              (record rows { runs = result.1 ∷ rows.runs })
    ]

  -- userGetWorkflow: it does not look at the caller.
  unfoldable pub user_get_workflow : String → Handler Rows
  unfolding get_workflow
  user_get_workflow id c rows = elim (get_workflow id rows) [
    | none ↦ answer 404 (error_response "not_found" "workflow not found") c rows
    | some wf ↦ answer 200 (value (calls.workflow_json wf)) c rows
  ]
