-- ===== src/Workflows.antt =====
-- Workflows: executeWorkflow, executePromptWorkflowStep, executeBuiltinTool and
-- renderWorkflowTemplate (backend/internal/gateway/router.go), with RecordWorkflowRunStep and
-- CompleteWorkflowRun (backend/internal/storage/store.go). Latencies and traces are left out.
use Prim.Native.String
use ai_aggregator.Prelude.{
  ℕ, suc, ◌+◌, ◌≡◌, Bool, true, false, ◌||◌, String, Option, none, some, List, [], ◌∷◌, ◌++◌, map,
  any, if◌then◌else◌, str_eq, lookup,
}
use ai_aggregator.Prelude.Int.{ℤ}
use ai_aggregator.Prelude.Text.{trim_space}
use ai_aggregator.Prelude.Json.{Json, null, str, arr, obj, Items, nil, cons, Fields, end, field}
use ai_aggregator.Float.{Float}
use ai_aggregator.Routing.Registry.{Adapter, Store, Router}
use ai_aggregator.Routing.Selection.{Routed, ok, err, model_not_found, no_available_provider, route}
use ai_aggregator.Billing.{Pricing, calculate_cost}
use ai_aggregator.Chat.{Attempt, failed, reached, Usage, prompt_tokens, completion_tokens}
pub mod Semantics
pub mod Webhooks
pub mod Runs
pub mod Handlers
pub mod Sessions
mod Owners
mod Costs
mod Tests

-- storage.WorkflowStep.
pub record Step : Type 0 where
  pub id : String
  pub step_order : ℤ
  pub name : String
  pub step_type : String
  pub model_id : String
  pub tool_id : String
  pub prompt_template : String

-- A value in the map `state`: `cyclic` is one that contains that map itself, which json.Marshal
-- refuses.
pub data Value : Type 0 where
  plain : Json → Value
  cyclic : Value

-- The map `state`, each key once.
abbrev pub State : Type 0
State = List (String × Value)

-- state[key] = value
abbrev pub set : String → Value → State → State
set key v [] = (key, v) ∷ []
set key v (pair ∷ rest) = if str_eq key pair.0 then (key, v) ∷ rest else pair ∷ set key v rest

abbrev pub is_cyclic : Value → Bool
is_cyclic (plain v) = false
is_cyclic cyclic = true

abbrev pub json_of : Value → Json
json_of (plain v) = v
json_of cyclic = null

abbrev pub fields_of : State → Fields
fields_of [] = end
fields_of ((key, v) ∷ rest) = field key (json_of v) (fields_of rest)

-- mustJSONBytes: an empty object where json.Marshal fails.
abbrev pub value_json : Value → Json
value_json (plain v) = v
value_json cyclic = obj end

abbrev pub has_cycle : State → Bool
has_cycle s = any (λ (pair : String × Value). is_cyclic pair.1) s

abbrev pub state_json : State → Json
state_json s = if has_cycle s then obj end else obj (fields_of s)

-- The input of a step, {"state": state}: by the time it is marshalled the map has the step's own
-- result.
abbrev pub input_json : State → Json
input_json s = if has_cycle s then obj end else obj (field "state" (obj (fields_of s)) end)

-- storage.WorkflowRunStep.
pub record StepRecord : Type 0 where
  pub workflow_step_id : String
  pub step_order : ℤ
  pub name : String
  pub step_type : String
  pub status : String
  pub input : Json
  pub output : Json
  pub cost : ℕ
  pub error_message : String

-- provider.ChatResponse: the content of its first choice, where that is a string, its usage and the
-- JSON of the usage.
pub record Reply : Type 0 where
  pub content : String
  pub usage : Usage
  pub usage_json : Json

-- What the steps call: ChatCompletion at each step, json.Marshal to a text, strings.ReplaceAll
-- (text, old, new), the order in which Go walks a map, the prices of a model, and the error of
-- Route as a text.
pub record Services : Type 0 where
  pub chat : ℕ → Adapter → (upstream_model prompt : String) → Attempt Reply
  pub to_text : Json → String
  pub replace_all : String → String → String → String
  pub order : List String → List String
  pub pricing : String → Pricing
  pub error_text : String → String

-- The output of a step, its cost and the map after it; or its error.
pub data Performed : Type 0 where
  produced : Value → ℕ → State → Performed
  broke : (message : String) → Performed

abbrev key_items : List String → Items
key_items [] = nil
key_items (k ∷ ks) = cons (str k) (key_items ks)

abbrev pub keys : State → List String
keys s = map (λ (pair : String × Value). pair.0) s

module _ (services : Services) where
  abbrev echo_of : Option Value → State → Value
  echo_of none s =
      plain (
        obj
          (field "echo" null (field "state_keys" (arr (key_items (services.order (keys s)))) end)))
  echo_of (some (plain v)) s =
      plain
        (obj (field "echo" v (field "state_keys" (arr (key_items (services.order (keys s)))) end)))
  echo_of (some cyclic) s = cyclic

  -- executeBuiltinTool
  unfoldable pub execute_builtin_tool : String → State → Attempt Value
  execute_builtin_tool tool_id s =
      if str_eq tool_id "" || str_eq tool_id "echo"
      then reached (echo_of (lookup "last" s) s)
      else failed (String.◌++◌ "unsupported tool: " tool_id)

  -- json.Marshal(state[key]) as a text, empty where it fails.
  abbrev marshal_text : Option Value → String
  marshal_text none = services.to_text null
  marshal_text (some (plain v)) = services.to_text v
  marshal_text (some cyclic) = ""

  -- renderWorkflowTemplate
  unfoldable pub render_workflow_template : String → State → String
  render_workflow_template template s =
      let t = if str_eq (trim_space template) "" then "{{input}}" else template in
      services.replace_all (services.replace_all t "{{input}}" (marshal_text (lookup "input" s)))
        "{{last}}" (marshal_text (lookup "last" s))

  -- state[step.Name] = output; state["last"] = output
  abbrev pub keep_output : String → Value → State → State
  keep_output name output s = set "last" output (set name output s)

  module _ (fl : Float) (db : Store fl.F) (r : Router fl.F) where
    -- The model of a prompt step.
    abbrev pub model_of : Step → String
    model_of step = let m = trim_space step.model_id in if str_eq m "" then "qwen-turbo" else m

    abbrev pub reply_json : String → Reply → Json
    reply_json model_id reply = obj (
        field "model" (str model_id)
          (field "content" (str reply.content) (field "usage" reply.usage_json end)))

    -- executePromptWorkflowStep; the registry that Route refreshes is the same at each step, since
    -- the rows of the store do not change meanwhile.
    unfoldable pub execute_prompt_workflow_step : ℕ → Step → State → Attempt (Value × ℕ)
    execute_prompt_workflow_step i step s =
        let model_id = model_of step in
        elim (route fl db model_id r).0 [
          | err e ↦ failed (services.error_text model_id)
          | ok (adapter, upstream_model) ↦
              elim (services.chat i adapter upstream_model
                (render_workflow_template step.prompt_template s)) [
                  | failed message ↦ failed message
                  | reached reply ↦
                      let (_, charged) =
                        calculate_cost (services.pricing model_id) (prompt_tokens reply.usage)
                          (completion_tokens reply.usage) in
                      reached (plain (reply_json model_id reply), charged)
                ]
        ]

    -- The switch of executeWorkflow.
    unfoldable pub perform : ℕ → Step → State → Performed
    perform i step s =
        if str_eq step.step_type "prompt"
        then elim (execute_prompt_workflow_step i step s) [
          | failed message ↦ broke message
          | reached (output, cost) ↦ produced output cost (keep_output step.name output s)
        ]
        else if str_eq step.step_type "tool"
        then elim (execute_builtin_tool step.tool_id s) [
          | failed message ↦ broke message
          | reached output ↦ produced output 0 (keep_output step.name output s)
        ]
        else produced cyclic 0 (set step.name cyclic s)

    abbrev pub completed_record : Step → Value → ℕ → State → StepRecord
    completed_record step output cost s = record {
      workflow_step_id = step.id;
      step_order = step.step_order;
      name = step.name;
      step_type = step.step_type;
      status = "completed";
      input = input_json s;
      output = value_json output;
      cost = cost;
      error_message = "";
    }

    abbrev pub failed_record : Step → String → State → StepRecord
    failed_record step message s = record {
      workflow_step_id = step.id;
      step_order = step.step_order;
      name = step.name;
      step_type = step.step_type;
      status = "failed";
      input = input_json s;
      output = obj end;
      cost = 0;
      error_message = message;
    }
