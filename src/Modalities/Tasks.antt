-- ===== src/Modalities/Tasks.antt =====
-- Images and videos, which are tasks: handleCreateImage, handleCreateVideo and handleGetAsyncTask
-- (backend/internal/gateway/router.go), with GetTask (backend/internal/storage/store.go).
use Prim.Native.String
use ai_aggregator.Prelude.{
  Bool, ◌||◌, not, String, Option, none, some, List, [], ◌∷◌, if◌then◌else◌, str_eq,
}
use ai_aggregator.Prelude.Int.{pos, leb_ℤ}
use ai_aggregator.Prelude.Json.{Json, null, str, obj, field, end}
use ai_aggregator.Http.{value, Ctx, Handler, Outcome, answer, error_response}
use ai_aggregator.Auth.{get_user_id}
use ai_aggregator.Routing.Registry.{Adapter, Router}
use ai_aggregator.Routing.Selection.{Routed}
use ai_aggregator.Tasks.{Task, submit}
use ai_aggregator.Tasks
use ai_aggregator.Providers.Tasks.{ImageRequest, VideoRequest}

-- GetTask, where the query succeeds.
unfoldable pub get_task : (external_id : String) → List Task → Option Task
get_task external_id [] = none
get_task external_id (t ∷ ts) =
    if str_eq t.external_id external_id then some t else get_task external_id ts

abbrev unavailable : Handler (List Task)
unavailable c ts =
    answer 503 (error_response "service_unavailable" "task engine is not available") c ts

abbrev invalid : String → Handler (List Task)
invalid message c ts = answer 400 (error_response "invalid_request" message) c ts

abbrev not_found : Handler (List Task)
not_found c ts = answer 404 (error_response "not_found" "task not found") c ts

-- The defaults of handleCreateImage.
abbrev pub with_defaults : ImageRequest → ImageRequest
with_defaults req = record req {
  n = if leb_ℤ req.n (pos 0) then pos 1 else req.n;
  size = if str_eq req.size "" then "1024*1024" else req.size;
}

-- The JSON of a task.
abbrev pub task_json : Task → Json
task_json t =
    let result : Json = elim t.result [ none ↦ null | some v ↦ v ] in
    obj (
      field "id" (str t.external_id) (
        field "object" (str "async_task") (
          field "status" (str t.status) (
            field "model" (str t.model_id)
              (field "provider" (str t.provider_id) (field "result" result end))))))

-- What Submit needs: the services of the engine, whether the row can be written, the new id, what
-- Route returns, and the text of an error. A request is its parameters.
module _ {F : Type 0} (services : Tasks.Services) (r : Router F) (create_fails : Bool)
    (external_id : String) (routed : Routed (Adapter × String)) (submit_error : String) where
  abbrev submitted : (what model : String) → Option String × List Task → Ctx → Outcome (List Task)
  submitted what model (none, ts) c =
      answer 502
        (error_response "provider_error" (
          String.◌++◌ "failed to submit "
            (String.◌++◌ what (String.◌++◌ " generation: " submit_error))))
        c ts
  submitted what model (some id, ts) c =
      answer 202
        (value (
          obj (
            field "id" (str id) (
              field "object" (str "async_task")
                (field "status" (str "submitted") (field "model" (str model) end))))))
        c ts

  abbrev pub submit_for : (what model prompt : String) → Handler (List Task)
  submit_for what model prompt c ts =
      if str_eq model "" || str_eq prompt ""
      then invalid "model and prompt are required" c ts
      else submitted what model
          (submit services r create_fails external_id (get_user_id c) model routed ts) c

  -- handleCreateImage; no request where the body cannot be read. The parameters, with their
  -- defaults, go to the adapter inside Submit.
  unfoldable pub handle_create_image :
      (has_engine : Bool) → Option ImageRequest → Handler (List Task)
  unfolding submit
  handle_create_image has_engine req c ts = if not has_engine then unavailable c ts else elim req [
    | none ↦ invalid "invalid request body" c ts
    | some q ↦ submit_for "image" (with_defaults q).model (with_defaults q).prompt c ts
  ]

  -- handleCreateVideo
  unfoldable pub handle_create_video :
      (has_engine : Bool) → Option VideoRequest → Handler (List Task)
  unfolding submit
  handle_create_video has_engine req c ts = if not has_engine then unavailable c ts else elim req [
    | none ↦ invalid "invalid request body" c ts
    | some q ↦ submit_for "video" q.model q.prompt c ts
  ]

-- handleGetAsyncTask
unfoldable pub handle_get_async_task :
    (has_engine : Bool) → (task_id : String) → Handler (List Task)
unfolding get_task
handle_get_async_task has_engine task_id c ts =
    if not has_engine
    then unavailable c ts
    else if str_eq task_id ""
    then invalid "task id is required" c ts
    else elim (get_task task_id ts) [
      | none ↦ not_found c ts
      | some t ↦
          if str_eq t.user_id (get_user_id c)
          then answer 200 (value (task_json t)) c ts
          else not_found c ts
    ]
