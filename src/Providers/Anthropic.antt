-- ===== src/Providers/Anthropic.antt =====
-- The adapter for Anthropic's API (backend/internal/provider/anthropic.go).
use Prim.Native.String
use ai_aggregator.Prelude.{
  ℕ, Bool, false, ◌&&◌, ◌||◌, not, String, Option, none, some, List, [], ◌∷◌, if◌then◌else◌, str_eq,
  leb, ltb,
}
use ai_aggregator.Prelude.Int.{ℤ, pos, ltb_ℤ, ◌+ℤ◌}
use ai_aggregator.Prelude.Json.{
  Json, bool, num, str, arr, obj, Items, nil, cons, Fields, end, field,
}
use ai_aggregator.Providers.{
  Part, Content, plain, parts, other, ChatMessage, ChatRequest, Choice, ChatResponse, StreamChunk,
  Result, ok, error, HttpRequest, HttpResponse, bad_request, unreachable, answered, prefixed,
  unsupported,
}

-- The struct that a response is decoded into.
pub record AnthropicReply : Type 0 where
  pub id : String
  pub stop_reason : String
  pub content : List Part
  pub input_tokens : ℤ
  pub output_tokens : ℤ

-- The adapter and what it calls: json.Marshal to a text, decoding of a response and of an error
-- (type and message), the exchange, and "%d". `unencoded` is the error of decoding.
pub record AnthropicAdapter : Type 0 where
  pub name : String
  pub base_url : String
  pub api_key : String
  pub version : String
  pub to_text : Json → String
  pub decode : String → Option AnthropicReply
  pub decode_error : String → Option (String × String)
  pub unencoded : String → String
  pub send : HttpRequest → HttpResponse
  pub decimal : ℤ → String
  pub digits : ℕ → String

-- The text of the parts, joined.
abbrev pub parts_text : List Part → String
parts_text [] = ""
parts_text (p ∷ ps) = if str_eq p.text "" then parts_text ps else String.◌++◌ p.text (parts_text ps)

abbrev text_parts : List Part → Items
text_parts [] = nil
text_parts (p ∷ ps) =
    let rest = text_parts ps in
    if str_eq p.kind "text"
    then cons (obj (field "type" (str "text") (field "text" (str p.text) end))) rest
    else rest

abbrev or_text : Items → String → Json
or_text nil text = str text
or_text (cons v vs) text = arr (cons v vs)

-- The text of the parts of an answer, those of the type "text".
abbrev pub reply_text : List Part → String
reply_text [] = ""
reply_text (p ∷ ps) =
    let rest = reply_text ps in
    if str_eq p.kind "text" && not (str_eq p.text "") then String.◌++◌ p.text rest else rest

-- strings.Join(parts, "\n")
abbrev pub join_lines : List String → String
join_lines [] = ""
join_lines (s ∷ []) = s
join_lines (s ∷ t ∷ rest) = String.◌++◌ s (String.◌++◌ "\n" (join_lines (t ∷ rest)))

-- mapAnthropicStopReason
abbrev pub map_anthropic_stop_reason : String → String
map_anthropic_stop_reason reason =
    if str_eq reason "end_turn" || str_eq reason "stop_sequence"
    then "stop"
    else if str_eq reason "max_tokens"
    then "length"
    else if str_eq reason "tool_use"
    then "tool_calls"
    else if str_eq reason ""
    then "stop"
    else reason

abbrev optional : String → Option Json → Fields → Fields
optional key none rest = rest
optional key (some v) rest = field key v rest

abbrev max_tokens_of : Option ℤ → ℤ
max_tokens_of none = pos 1024
max_tokens_of (some n) = if ltb_ℤ (pos 0) n then n else pos 1024

module _ (a : AnthropicAdapter) where
  -- chatContentToText
  unfoldable pub chat_content_to_text : Content → String
  chat_content_to_text (plain s) = s
  chat_content_to_text (parts ps) = parts_text ps
  chat_content_to_text (other v) = a.to_text v

  -- anthropicContent
  unfoldable pub anthropic_content : Content → Json
  unfolding chat_content_to_text
  anthropic_content (plain s) = str s
  anthropic_content (parts ps) = or_text (text_parts ps) (chat_content_to_text (parts ps))
  anthropic_content (other v) = str (chat_content_to_text (other v))

  -- The loop of toAnthropicRequest: the texts of the system and the other messages. What has
  -- another role is dropped.
  abbrev pub system_parts : List ChatMessage → List String
  system_parts [] = []
  system_parts (m ∷ ms) =
      let rest = system_parts ms in
      if str_eq m.role "system" then chat_content_to_text m.content ∷ rest else rest

  abbrev pub spoken : List ChatMessage → Items
  spoken [] = nil
  spoken (m ∷ ms) =
      let rest = spoken ms in
      if str_eq m.role "assistant" || str_eq m.role "user"
      then cons
          (obj (field "role" (str m.role) (field "content" (anthropic_content m.content) end))) rest
      else rest

  abbrev system_field : List String → Fields → Fields
  system_field [] rest = rest
  system_field (s ∷ ss) rest = field "system" (str (join_lines (s ∷ ss))) rest

  -- toAnthropicRequest
  unfoldable pub to_anthropic_request : ChatRequest → (stream : Bool) → Json
  unfolding anthropic_content chat_content_to_text
  to_anthropic_request req stream = obj (
      field "model" (str req.model) (
        field "max_tokens" (num (a.decimal (max_tokens_of req.max_tokens))) (
          field "messages" (arr (spoken req.messages)) (
            field "stream" (bool stream) (
              system_field (system_parts req.messages) (
                optional "temperature" req.temperature
                  (optional "top_p" req.top_p (optional "stop_sequences" req.stop end))))))))

  -- setHeaders
  abbrev headers : List (String × String)
  headers =
      ("Content-Type", "application/json")
      ∷ ("x-api-key", a.api_key)
      ∷ ("anthropic-version", a.version)
      ∷ []

  abbrev with_status : ℕ → String → String
  with_status status body =
      String.◌++◌ "anthropic upstream error (status "
        (String.◌++◌ (a.digits status) (String.◌++◌ "): " body))

  -- parseError
  unfoldable pub parse_error : ℕ → String → String
  parse_error status body = elim (a.decode_error body) [
    | none ↦ with_status status body
    | some (kind, message) ↦
        if str_eq message ""
        then with_status status body
        else String.◌++◌ "anthropic upstream error: [" (String.◌++◌ kind (String.◌++◌ "] " message))
  ]

  -- The response that ChatCompletion returns.
  abbrev pub response_of : (model : String) → AnthropicReply → ChatResponse
  response_of model out = record {
    id = out.id;
    model = model;
    choices =
        record {
          index = 0;
          message = some (record { role = "assistant"; content = plain (reply_text out.content) });
          delta = none;
          finish_reason = some (map_anthropic_stop_reason out.stop_reason);
        }
        ∷ [];
    usage = some (record {
      prompt_tokens = out.input_tokens;
      completion_tokens = out.output_tokens;
      total_tokens = out.input_tokens +ℤ out.output_tokens;
    });
  }

  abbrev read_reply : (model body : String) → Option AnthropicReply → Result ChatResponse
  read_reply model body none = error (prefixed "decode anthropic response: " (a.unencoded body))
  read_reply model body (some out) = ok (response_of model out)

  abbrev read_response : (model : String) → HttpResponse → Result ChatResponse
  read_response model (bad_request m) = error (prefixed "create anthropic request: " m)
  read_response model (unreachable m) = error (prefixed "do anthropic request: " m)
  read_response model (answered status content_type body) =
      if ltb status 200 || leb 300 status
      then error (parse_error status body)
      else read_reply model body (a.decode body)

  -- ChatCompletion
  unfoldable pub chat_completion : ChatRequest → Result ChatResponse
  unfolding to_anthropic_request parse_error
  chat_completion req = read_response req.model (
      a.send (record {
        method = "POST";
        url = String.◌++◌ a.base_url "/messages";
        headers = headers;
        body = a.to_text (to_anthropic_request req false);
      }))

  -- The content of the first choice's message, where it is a string.
  abbrev pub first_content : List Choice → String
  first_content [] = ""
  first_content (c ∷ cs) = elim c.message [
    | none ↦ ""
    | some m ↦ elim m.content [ plain s ↦ s | parts _ ↦ "" | other _ ↦ "" ]
  ]

  -- What the goroutine of ChatCompletionStream sends.
  abbrev pub chunks_of : ChatResponse → List StreamChunk
  chunks_of resp =
      record {
        id = resp.id;
        model = resp.model;
        choices =
            record {
              index = 0;
              message = none;
              delta =
                  some
                    (record { role = "assistant"; content = plain (first_content resp.choices) });
              finish_reason = none;
            }
            ∷ [];
        usage = none;
      }
      ∷ record {
        id = resp.id;
        model = resp.model;
        choices =
            record { index = 0; message = none; delta = none; finish_reason = some "stop" } ∷ [];
        usage = resp.usage;
      }
      ∷ []

  abbrev pub streamed : Result ChatResponse → Result (List StreamChunk)
  streamed (error m) = error m
  streamed (ok resp) = ok (chunks_of resp)

  -- ChatCompletionStream
  unfoldable pub chat_completion_stream : ChatRequest → Result (List StreamChunk)
  unfolding chat_completion
  chat_completion_stream req = streamed (chat_completion (record req { stream = false }))

  -- HealthCheck: the error, `none` for none
  unfoldable pub health_check : Option String
  unfolding chat_completion
  health_check =
      elim (chat_completion (record {
        model = "claude-3-haiku-20240307";
        messages = record { role = "user"; content = plain "ping" } ∷ [];
        stream = false;
        temperature = none;
        max_tokens = some (pos 1);
        top_p = none;
        stop = none;
      })) [ ok resp ↦ none | error m ↦ some m ]

  -- CreateImage, CreateVideo, PollTask, CreateEmbedding, TranscribeAudio and SynthesizeSpeech, by
  -- the name of the operation.
  unfoldable pub unsupported_operation : {A : Type 0} → (op : String) → Result A
  unsupported_operation op = unsupported a.name op
