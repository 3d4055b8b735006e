-- ===== src/Providers/Tasks.antt =====
-- Images and videos of DashScope, which are tasks: CreateImage, CreateVideo, PollTask and
-- mapTaskStatus (backend/internal/provider/dashscope.go).
use Prim.Native.String
use ai_aggregator.Prelude.{Bool, true, false, String, none, List, ◌∷◌, if◌then◌else◌, str_eq}
use ai_aggregator.Prelude.Int.{ℤ, pos, ltb_ℤ}
use ai_aggregator.Prelude.Json.{Json, null, num, str, obj, Fields, end, field}
use ai_aggregator.Tasks.{TaskResult}
use ai_aggregator.Providers.{Result, ok, error}
use ai_aggregator.Providers.DashScope.{
  TaskReply, DashScopeAdapter, headers, native_url, parse_error, accepted, decoded, post,
}

pub record ImageRequest : Type 0 where
  pub model : String
  pub prompt : String
  pub n : ℤ
  pub size : String

pub record VideoRequest : Type 0 where
  pub model : String
  pub prompt : String
  pub image_url : String
  pub duration : ℤ
  pub resolution : String

-- AsyncTaskResponse without its time.
pub record AsyncTaskResponse : Type 0 where
  pub id : String
  pub status : String
  pub model : String

abbrev field_if : Bool → String → Json → Fields → Fields
field_if true key v rest = field key v rest
field_if false key v rest = rest

module _ (d : DashScopeAdapter) (decimal : ℤ → String) where
  -- mapTaskStatus
  unfoldable pub map_task_status : String → String
  map_task_status status =
      let s = d.to_upper status in
      if str_eq s "PENDING"
      then "pending"
      else if str_eq s "RUNNING"
      then "processing"
      else if str_eq s "SUCCEEDED"
      then "completed"
      else if str_eq s "FAILED"
      then "failed"
      else d.to_lower status

  abbrev async_headers : List (String × String)
  async_headers = ("X-DashScope-Async", "enable") ∷ headers d

  -- The task that was made.
  abbrev pub created : (model : String) → Result TaskReply → Result AsyncTaskResponse
  created model (error m) = error m
  created model (ok reply) =
      ok (record { id = reply.task_id; status = map_task_status reply.task_status; model = model })

  abbrev submit_task :
      (path model : String) → (input parameters : Fields) → Result AsyncTaskResponse
  submit_task path model input parameters = created model (
      decoded d d.decode_task (
        accepted d "do request: " (
          post d (native_url d path) async_headers (
            d.to_text (
              obj (
                field "model" (str model)
                  (field "input" (obj input) (field "parameters" (obj parameters) end))))))))

  -- CreateImage
  unfoldable pub create_image : ImageRequest → Result AsyncTaskResponse
  unfolding map_task_status parse_error
  create_image req =
      submit_task "/api/v1/services/aigc/text2image/image-synthesis" req.model
        (field "prompt" (str req.prompt) end)
        (field "n" (num (decimal req.n)) (field "size" (str req.size) end))

  -- CreateVideo
  unfoldable pub create_video : VideoRequest → Result AsyncTaskResponse
  unfolding map_task_status parse_error
  create_video req =
      submit_task "/api/v1/services/aigc/video-generation/generation" req.model
        (field "prompt" (str req.prompt) (
          field_if (if str_eq req.image_url "" then false else true) "image_url" (str req.image_url)
            end))
        (field_if (ltb_ℤ (pos 0) req.duration) "duration" (num (decimal req.duration)) (
          field_if (if str_eq req.resolution "" then false else true) "resolution"
            (str req.resolution) end))

  -- The result of a poll; the error of a failed task is never filled in.
  abbrev pub result_of : TaskReply → TaskResult
  result_of reply =
      let status = map_task_status reply.task_status in
      let completed = str_eq status "completed" in
      record {
        status = status;
        output = if completed then reply.results else none;
        usage = if completed then reply.usage else null;
        error = none;
      }

  abbrev polled : Result TaskReply → Result TaskResult
  polled (error m) = error m
  polled (ok reply) = ok (result_of reply)

  -- PollTask
  unfoldable pub poll_task : (upstream_task_id : String) → Result TaskResult
  unfolding map_task_status parse_error
  poll_task upstream_task_id = polled (
      decoded d d.decode_task (
        accepted d "do request: " (
          d.send (record {
            method = "GET";
            url = native_url d (String.◌++◌ "/api/v1/tasks/" upstream_task_id);
            headers = headers d;
            body = "";
          }))))
