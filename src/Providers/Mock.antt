-- ===== src/Providers/Mock.antt =====
-- The adapter for development (backend/internal/provider/mock.go).
use Prim.Native.String
use ai_aggregator.Prelude.{
  Bool, false, String, Option, none, some, List, [], ◌∷◌, any, if◌then◌else◌, str_eq,
}
use ai_aggregator.Prelude.Int.{pos}
use ai_aggregator.Prelude.Text.{trim_space}
use ai_aggregator.Prelude.Json.{num, str, obj, end, field}
use ai_aggregator.Tasks.{TaskResult}
use ai_aggregator.Providers.{
  plain, ChatRequest, Usage, Choice, ChatResponse, StreamChunk, Result, ok, error,
}
use ai_aggregator.Providers.Tasks.{ImageRequest, VideoRequest, AsyncTaskResponse}

-- NewMockAdapterWithName: the name.
abbrev pub mock_name : String → String
mock_name name = if str_eq name "" then "mock" else name

abbrev mock_usage : Option Usage
mock_usage =
    some (record { prompt_tokens = pos 10; completion_tokens = pos 20; total_tokens = pos 30 })

abbrev delta : (text : String) → (finish_reason : Option String) → List Choice
delta text finish_reason =
    record {
      index = 0;
      message = none;
      delta = some (record { role = "assistant"; content = plain text });
      finish_reason = finish_reason;
    }
    ∷ []

abbrev chunk_of : (model : String) → (usage : Option Usage) → List Choice → StreamChunk
chunk_of model usage choices = record {
  id = "chatcmpl-mock-stream-001";
  model = model;
  choices = choices;
  usage = usage;
}

-- The chunks of the texts: the last one ends the stream and has the usage.
abbrev pub mock_chunks : (model : String) → List String → List StreamChunk
mock_chunks model [] = []
mock_chunks model (text ∷ []) = chunk_of model mock_usage (delta text (some "stop")) ∷ []
mock_chunks model (text ∷ next ∷ rest) =
    chunk_of model none (delta text none) ∷ mock_chunks model (next ∷ rest)

-- The adapter's name; `env` is os.Getenv and `split` is strings.Split at commas.
module _ (env : String → String) (split : String → List String) (name : String) where
  abbrev is_named : (variable : String) → Bool
  is_named variable =
      let raw = env variable in
      if str_eq raw "" then false else any (λ item. str_eq (trim_space item) name) (split raw)

  -- shouldFail and shouldFailHealth
  unfoldable pub should_fail : Bool
  should_fail = is_named "MOCK_FAIL_PROVIDER_IDS"

  unfoldable pub should_fail_health : Bool
  should_fail_health = is_named "MOCK_FAIL_HEALTH_PROVIDER_IDS"

  abbrev forced : {A : Type 0} → String → Result A
  forced what = error (String.◌++◌ "mock provider " (String.◌++◌ name what))

  -- ChatCompletion
  unfoldable pub chat_completion : ChatRequest → Result ChatResponse
  unfolding should_fail
  chat_completion req =
      if should_fail
      then forced " forced failure"
      else ok (record {
        id = "chatcmpl-mock-001";
        model = req.model;
        choices =
            record {
              index = 0;
              message = some (record {
                role = "assistant";
                content = plain (
                    String.◌++◌ "Mock response from model " (
                      String.◌++◌ req.model
                        ". This is a simulated reply for development purposes."));
              });
              delta = none;
              finish_reason = some "stop";
            }
            ∷ [];
        usage = mock_usage;
      })

  -- ChatCompletionStream
  unfoldable pub chat_completion_stream : ChatRequest → Result (List StreamChunk)
  unfolding should_fail
  chat_completion_stream req =
      if should_fail
      then forced " forced stream failure"
      else ok (
          mock_chunks req.model (
            "Mock " ∷ "response " ∷ "from " ∷ "model " ∷ req.model ∷ ". " ∷ "This " ∷ "is "
            ∷ "simulated." ∷ []))

  -- CreateImage, CreateVideo and PollTask
  unfoldable pub create_image : ImageRequest → Result AsyncTaskResponse
  create_image req = ok (record { id = "mock-img-task-001"; status = "PENDING"; model = req.model })

  unfoldable pub create_video : VideoRequest → Result AsyncTaskResponse
  create_video req = ok (record { id = "mock-vid-task-001"; status = "PENDING"; model = req.model })

  unfoldable pub poll_task : (upstream_task_id : String) → Result TaskResult
  poll_task upstream_task_id = ok (record {
    status = "SUCCEEDED";
    output = some (obj (field "url" (str "https://example.com/mock-output.png") end));
    usage = obj (field "image_count" (num "1") end);
    error = none;
  })

  -- TranscribeAudio and SynthesizeSpeech
  unfoldable pub transcribe_audio : Result String
  transcribe_audio = ok "This is a mock transcription result for development purposes."

  unfoldable pub synthesize_speech : Result (String × String)
  synthesize_speech = ok ("MOCK_AUDIO_DATA", "audio/mpeg")

  -- HealthCheck: the error, `none` for none
  unfoldable pub health_check : Option String
  unfolding should_fail_health
  health_check =
      if should_fail_health
      then some (String.◌++◌ "mock provider " (String.◌++◌ name " forced health failure"))
      else none
