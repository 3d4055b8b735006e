-- ===== src/Providers/DashScope.antt =====
-- The adapter for DashScope (backend/internal/provider/dashscope.go): chats, streams, embeddings,
-- transcription, speech and the check of health. The form of an audio file is a parameter.
use Prim.Native.String
use ai_aggregator.Prelude.{
  ℕ, Bool, true, not, String, Option, none, some, List, [], ◌∷◌, if◌then◌else◌, str_eq, leb, ◌==◌,
}
use ai_aggregator.Prelude.Text.{has_prefix}
use ai_aggregator.Prelude.Json.{Json, str, obj, Fields, end, field}
use ai_aggregator.Providers.{
  ChatRequest, ChatResponse, StreamChunk, Result, ok, error, HttpRequest, HttpResponse, bad_request,
  unreachable, answered, prefixed,
}
use ai_aggregator.Providers.Events.{Codec, read_events}

-- The struct that an error is decoded into: the code and the message of "error", and those of the
-- native format.
pub record ErrorReply : Type 0 where
  pub error_field : Option (String × String)
  pub code : String
  pub message : String

-- The struct of a transcription.
pub record Transcription : Type 0 where
  pub text : String
  pub output_text : String
  pub sentence : String
  pub transcript : String
  pub result_text : String

-- output.task_id and output.task_status; a poll has the URLs of its results, as JSON, and the
-- usage besides.
pub record TaskReply : Type 0 where
  pub task_id : String
  pub task_status : String
  pub results : Option Json
  pub usage : Json

-- The adapter and what it calls: json.Marshal, decoding, the lines of a body, the exchange, "%d",
-- strings.ToUpper and strings.ToLower, strings.Contains, strings.Replace with the limit 1, and
-- strings.TrimRight with "/".
pub record DashScopeAdapter : Type 0 where
  pub name : String
  pub base_url : String
  pub api_key : String
  pub to_text : Json → String
  pub marshal_chat : ChatRequest → Result String
  pub decode_chat : String → Option ChatResponse
  pub decode_embedding : String → Option Json
  pub decode_error : String → Option ErrorReply
  pub decode_task : String → Option TaskReply
  pub decode_text : String → Option Transcription
  pub decode_audio : String → Option String
  pub decode_failure : String → String
  pub codec : Codec
  pub lines : String → List String
  pub send : HttpRequest → HttpResponse
  pub digits : ℕ → String
  pub to_upper : String → String
  pub to_lower : String → String
  pub contains : String → String → Bool
  pub replace_first : String → String → String → String
  pub trim_slashes : String → String

module _ (d : DashScopeAdapter) where
  -- setHeaders
  abbrev pub headers : List (String × String)
  headers =
      ("Content-Type", "application/json") ∷ ("Authorization", String.◌++◌ "Bearer " d.api_key) ∷ []

  -- nativeURL
  abbrev pub native_url : String → String
  native_url path =
      if d.contains d.base_url "/compatible-mode/v1"
      then d.replace_first d.base_url "/compatible-mode/v1" path
      else String.◌++◌ (d.trim_slashes d.base_url) path

  abbrev with_status : ℕ → String → String
  with_status status body =
      String.◌++◌ "upstream error (status " (String.◌++◌ (d.digits status) (String.◌++◌ "): " body))

  abbrev with_code : (code message : String) → String
  with_code code message =
      String.◌++◌ "upstream error: [" (String.◌++◌ code (String.◌++◌ "] " message))

  -- parseError
  unfoldable pub parse_error : ℕ → String → String
  parse_error status body = elim (d.decode_error body) [
    | none ↦ with_status status body
    | some reply ↦ elim reply.error_field [
      | some (code, message) ↦ with_code code message
      | none ↦
          if str_eq reply.code ""
          then with_status status body
          else with_code reply.code reply.message
    ]
  ]

  -- An answered exchange, its content type and body; any status but 200 is an error. `what` is
  -- the text before the client's own error.
  abbrev pub accepted : (what : String) → HttpResponse → Result (String × String)
  accepted what (bad_request m) = error (prefixed "create request: " m)
  accepted what (unreachable m) = error (prefixed what m)
  accepted what (answered status content_type body) =
      if status == 200 then ok (content_type, body) else error (parse_error status body)

  abbrev pub decoded : {A : Type 0} → (String → Option A) → Result (String × String) → Result A
  decoded decode (error m) = error m
  decoded decode (ok (content_type, body)) = elim (decode body) [
    | none ↦ error (prefixed "decode response: " (d.decode_failure body))
    | some reply ↦ ok reply
  ]

  abbrev pub post :
      (url : String) → (headers : List (String × String)) → (body : String) → HttpResponse
  post url hs body = d.send (record { method = "POST"; url = url; headers = hs; body = body })

  -- ChatCompletion
  unfoldable pub chat_completion : ChatRequest → Result ChatResponse
  unfolding parse_error
  chat_completion req = elim (d.marshal_chat req) [
    | error m ↦ error (prefixed "marshal request: " m)
    | ok body ↦
        decoded d.decode_chat
          (accepted "do request: " (post (String.◌++◌ d.base_url "/chat/completions") headers body))
  ]

  abbrev chunks_of : Result (String × String) → Result (List StreamChunk)
  chunks_of (error m) = error m
  chunks_of (ok (content_type, body)) = ok (read_events d.codec (d.lines body))

  -- ChatCompletionStream: the request, which it marks as a stream, and the chunks that it sends.
  unfoldable pub chat_completion_stream : ChatRequest → ChatRequest × Result (List StreamChunk)
  unfolding parse_error read_events
  chat_completion_stream req =
      let marked : ChatRequest = record req { stream = true } in
      (
        marked,
        elim (d.marshal_chat marked) [
          | error m ↦ error (prefixed "marshal request: " m)
          | ok body ↦ chunks_of (
              accepted "do stream request: "
                (post (String.◌++◌ d.base_url "/chat/completions") headers body))
        ],
      )

  -- CreateEmbedding, for a body that was marshalled.
  unfoldable pub create_embedding : Json → Result Json
  unfolding parse_error
  create_embedding req = decoded d.decode_embedding (
      accepted "do request: " (post (String.◌++◌ d.base_url "/embeddings") headers (d.to_text req)))

  abbrev pub text_of : Transcription → Result String
  text_of t =
      if not (str_eq t.text "")
      then ok t.text
      else if not (str_eq t.output_text "")
      then ok t.output_text
      else if not (str_eq t.transcript "")
      then ok t.transcript
      else if not (str_eq t.sentence "")
      then ok t.sentence
      else if not (str_eq t.result_text "")
      then ok t.result_text
      else error "decode response: missing transcription text"

  abbrev transcribed : Result Transcription → Result String
  transcribed (error m) = error m
  transcribed (ok t) = text_of t

  -- TranscribeAudio, with the content type and the body of the form, or the error of writing it.
  unfoldable pub transcribe_audio : (form : Result (String × String)) → Result String
  unfolding parse_error
  transcribe_audio (error m) = error m
  transcribe_audio (ok (content_type, body)) = transcribed (
      decoded d.decode_text (
        accepted "do request: " (
          post (native_url "/api/v1/services/audio/asr/transcription")
            (("Authorization", String.◌++◌ "Bearer " d.api_key)
              ∷ ("Content-Type", content_type)
              ∷ [])
            body)))

  -- contentTypeForAudioFormat
  abbrev pub content_type_for_audio_format : String → String
  content_type_for_audio_format format =
      let f = d.to_lower format in
      if str_eq f "wav"
      then "audio/wav"
      else if str_eq f "opus"
      then "audio/opus"
      else if str_eq f "aac"
      then "audio/aac"
      else if str_eq f "flac"
      then "audio/flac"
      else "audio/mpeg"

  abbrev spoken : (format : String) → Result (String × String) → Result (String × String)
  spoken format (error m) = error m
  spoken format (ok (content_type, body)) =
      let as_is = ok (
        body,
        if str_eq content_type "" then content_type_for_audio_format format else content_type,
      ) in
      if has_prefix content_type "application/json"
      then elim (d.decode_audio body) [
        | none ↦ as_is
        | some audio ↦ if str_eq audio "" then as_is else ok (audio, "text/plain")
      ]
      else as_is

  -- SynthesizeSpeech: the audio and its type. `speed` is the field of a positive speed.
  unfoldable pub synthesize_speech :
      (model input voice format : String) → (speed : Option Json) → Result (String × String)
  unfolding parse_error
  synthesize_speech model input voice format speed =
      let rest : Fields = elim speed [ none ↦ end | some v ↦ field "speed" v end ] in
      spoken format (
        accepted "do request: " (
          post (native_url "/api/v1/services/audio/tts/speech-synthesizer") headers (
            d.to_text (
              obj (
                field "model" (str model) (
                  field "input" (obj (field "text" (str input) end)) (
                    field "parameters"
                      (obj (field "voice" (str voice) (field "response_format" (str format) rest)))
                      end)))))))

  -- HealthCheck: the error, `none` for none
  unfoldable pub health_check : Option String
  health_check =
      elim (d.send (record {
        method = "GET";
        url = String.◌++◌ d.base_url "/models";
        headers = headers;
        body = "";
      })) [
        | bad_request m ↦ some (prefixed "create health check request: " m)
        | unreachable m ↦ some (prefixed "health check failed: " m)
        | answered status content_type body ↦
            if leb 500 status
            then some (String.◌++◌ "health check: upstream returned " (d.digits status))
            else none
      ]
