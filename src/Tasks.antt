-- ===== src/Tasks.antt =====
-- The engine of asynchronous tasks (backend/internal/task/engine.go), with CreateTask,
-- UpdateTaskStatus and GetPendingTasks (backend/internal/storage/store.go). A round of a worker and
-- a submission are one step each. The tasks are in the order of their creation.
use ai_aggregator.Prelude.{
  ℕ, suc, zero, ◌≡◌, Bool, true, false, ◌&&◌, ◌||◌, String, Option, none, some, List, [], ◌∷◌, ◌++◌,
  if◌then◌else◌, str_eq, lookup,
}
use ai_aggregator.Prelude.Json.{Json, obj, field, end, Fields, null}
use ai_aggregator.Routing.Registry.{Adapter, Router, ModelEntry}
use ai_aggregator.Routing.Selection.{Routed, ok, err, get_adapter, get_model}
mod Starvation
mod Statuses
mod Tests

-- storage.TaskRecord, without the parameters and the cost.
pub record Task : Type 0 where
  pub external_id : String
  pub user_id : String
  pub model_id : String
  pub provider_id : String
  pub upstream_task_id : String
  pub status : String
  pub result : Option Json
  pub is_completed : Bool

-- provider.AsyncTaskResult.
pub record TaskResult : Type 0 where
  pub status : String
  pub output : Option Json
  pub usage : Json
  pub error : Option Json

-- status IN ('pending', 'submitted', 'processing')
abbrev pub is_pending : Task → Bool
is_pending t =
    str_eq t.status "pending" || str_eq t.status "submitted" || str_eq t.status "processing"

abbrev pub filter : (Task → Bool) → List Task → List Task
filter p [] = []
filter p (t ∷ ts) = let rest = filter p ts in if p t then t ∷ rest else rest

abbrev pub take : ℕ → List Task → List Task
take zero ts = []
take (suc n) [] = []
take (suc n) (t ∷ ts) = t ∷ take n ts

-- GetPendingTasks, the oldest first.
unfoldable pub get_pending_tasks : ℕ → List Task → List Task
get_pending_tasks limit ts = take limit (filter is_pending ts)

-- CreateTask: whether it succeeded.
unfoldable pub create_task : (fails : Bool) → Task → List Task → Bool × List Task
create_task fails t ts = if fails then (false, ts) else (true, ts ++ t ∷ [])

abbrev pub or_result : Option Json → Option Json → Option Json
or_result none old = old
or_result (some new) old = some new

abbrev pub update_task : (external_id status : String) → Option Json → Task → Task
update_task external_id status result t =
    if str_eq t.external_id external_id
    then record t {
      status = status;
      result = or_result result t.result;
      is_completed =
          if str_eq status "completed" || str_eq status "failed" then true else t.is_completed;
    }
    else t

abbrev pub update_all : (external_id status : String) → Option Json → List Task → List Task
update_all external_id status result [] = []
update_all external_id status result (t ∷ ts) =
    update_task external_id status result t ∷ update_all external_id status result ts

-- UpdateTaskStatus; its error is only logged.
unfoldable pub update_task_status :
    (fails : Bool) → (external_id status : String) → Option Json → List Task → List Task
update_task_status fails external_id status result ts =
    if fails then ts else update_all external_id status result ts

-- The services of the engine: strings.ToUpper and strings.ToLower, PollTask, CreateImage and
-- CreateVideo of an adapter (`none` for an error), and the updates that fail.
pub record Services : Type 0 where
  pub to_upper : String → String
  pub to_lower : String → String
  pub poll_task : Adapter → String → Option TaskResult
  pub create_image : Adapter → String → Option String
  pub create_video : Adapter → String → Option String
  pub name : Adapter → String
  pub update_fails : Task → Bool

module _ (services : Services) where
  -- normalizeTaskStatus
  unfoldable pub normalize_task_status : String → String
  normalize_task_status status =
      let s = services.to_upper status in
      if str_eq s "SUCCEEDED" || str_eq s "SUCCESS" || str_eq s "COMPLETED"
      then "completed"
      else if str_eq s "FAILED" || str_eq s "ERROR"
      then "failed"
      else if str_eq s "RUNNING" || str_eq s "PROCESSING"
      then "processing"
      else if str_eq s "PENDING" || str_eq s "SUBMITTED"
      then "submitted"
      else services.to_lower status

  -- The result that pollTasks stores: nil where the provider sent no data.
  abbrev pub result_data : TaskResult → Option Json
  result_data r = elim r.output [
    | none ↦ none
    | some d ↦
        let error : Fields = elim r.error [ none ↦ end | some e ↦ field "error" e end ] in
        some (obj (field "data" d (field "usage" r.usage error)))
  ]

  -- What a poll of a task asks to store: nothing where the adapter is missing, the poll fails or
  -- the status is not final.
  unfoldable pub poll : {F : Type 0} → Router F → Task → Option (String × Option Json)
  poll r t = elim (get_adapter r t.provider_id) [
    | none ↦ none
    | some a ↦ elim (services.poll_task a t.upstream_task_id) [
      | none ↦ none
      | some res ↦
          let status = normalize_task_status res.status in
          if str_eq status "completed" || str_eq status "failed"
          then some (status, result_data res)
          else none
    ]
  ]

  unfoldable pub poll_each : {F : Type 0} → Router F → List Task → List Task → List Task
  poll_each r [] ts = ts
  poll_each r (t ∷ rest) ts = elim (poll r t) [
    | none ↦ poll_each r rest ts
    | some (status, result) ↦
        poll_each r rest
          (update_task_status (services.update_fails t) t.external_id status result ts)
  ]

  -- pollTasks
  unfoldable pub poll_tasks : {F : Type 0} → Router F → (query_fails : Bool) → List Task → List Task
  poll_tasks r query_fails ts = if query_fails then ts else poll_each r (get_pending_tasks 5 ts) ts

  -- getModelModality
  abbrev pub model_modality : {F : Type 0} → Router F → String → String
  model_modality r model_id = elim (get_model r model_id) [
    | none ↦ "unknown"
    | some e ↦ e.model.modality
  ]

  -- The upstream task that Submit creates.
  abbrev pub create_upstream : (modality : String) → Adapter → String → Option String
  create_upstream modality a upstream_model =
      if str_eq modality "image"
      then services.create_image a upstream_model
      else if str_eq modality "video"
      then services.create_video a upstream_model
      else none

  -- Submit: the external id, or `none` for an error. `routed` is what Route answers.
  unfoldable pub submit :
      {F : Type 0}
      → Router F
      → (create_fails : Bool) → (external_id user_id model_id : String) → Routed (Adapter × String)
      → List Task
      → Option String × List Task
  submit r create_fails external_id user_id model_id (err _) ts = (none, ts)
  submit r create_fails external_id user_id model_id (ok (a, upstream_model)) ts =
      elim (create_upstream (model_modality r model_id) a upstream_model) [
        | none ↦ (none, ts)
        | some upstream_id ↦
            let (created, ts') =
              create_task create_fails
                (record {
                  external_id = external_id;
                  user_id = user_id;
                  model_id = model_id;
                  provider_id = services.name a;
                  upstream_task_id = upstream_id;
                  status = "submitted";
                  result = none;
                  is_completed = false;
                })
                ts in
            (if created then some external_id else none, ts')
      ]
