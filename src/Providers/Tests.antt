-- ===== src/Providers/Tests.antt =====
-- Runs of the adapters, and their laws applied there.
use ai_aggregator.Prelude.{
  ◌≡◌, refl, true, false, String, none, some, [], ◌∷◌, ◌++◌, if◌then◌else◌, str_eq,
}
use ai_aggregator.Prelude.Int.{pos}
use ai_aggregator.Prelude.Json.{null}
use ai_aggregator.Providers.{plain, other, ChatRequest, StreamChunk, answered}
use ai_aggregator.Providers.Anthropic.{
  AnthropicAdapter, chat_completion, chat_completion_stream, chat_content_to_text, system_parts,
}
use ai_aggregator.Providers.Events.{Codec, read_events, relay_lines}
use ai_aggregator.Providers.Replay.{Streams, chat_completion_stream-Streams, IsReread, read-relay}

abbrev adapter : AnthropicAdapter
adapter = record {
  name = "anthropic";
  base_url = "https://example.org";
  api_key = "k";
  version = "v";
  to_text = λ _. "json";
  decode = λ _. some (record {
    id = "m1";
    stop_reason = "max_tokens";
    content = record { kind = "text"; text = "cut" } ∷ [];
    input_tokens = pos 3;
    output_tokens = pos 1;
  });
  decode_error = λ _. none;
  unencoded = λ _. "error";
  send = λ _. answered 200 "" "body";
  decimal = λ _. "1";
  digits = λ _. "1";
}

abbrev request : ChatRequest
request = record {
  model = "claude";
  messages =
      record { role = "system"; content = plain "be brief" }
      ∷ record { role = "tool"; content = other null }
      ∷ [];
  stream = true;
  temperature = none;
  max_tokens = none;
  top_p = none;
  stop = none;
}

anthropic_tests : system_parts adapter request.messages ≡ "be brief" ∷ []
unfolding chat_content_to_text
anthropic_tests = refl

chat_completion_stream-Streams_example :
    Streams
      (chat_completion adapter (record request { stream = false }))
      (chat_completion_stream adapter request)
chat_completion_stream-Streams_example = chat_completion_stream-Streams adapter request

-- A chunk of a choice and one of a usage; the third cannot be marshalled.
abbrev delta_chunk : StreamChunk
delta_chunk = record {
  id = "a";
  model = "m";
  choices =
      record {
        index = 0;
        message = none;
        delta = some (record { role = "assistant"; content = plain "hi" });
        finish_reason = none;
      }
      ∷ [];
  usage = none;
}

abbrev usage_chunk : StreamChunk
usage_chunk = record {
  id = "b";
  model = "m";
  choices = [];
  usage = some (record { prompt_tokens = pos 3; completion_tokens = pos 1; total_tokens = pos 4 });
}

abbrev broken_chunk : StreamChunk
broken_chunk = record { id = "c"; model = "m"; choices = []; usage = none }

abbrev codec : Codec
codec = record {
  marshal = λ chunk. if str_eq chunk.id "c" then none else some chunk.id;
  unmarshal = λ text.
      if str_eq text "a"
      then some delta_chunk
      else if str_eq text "b"
      then some usage_chunk
      else none;
}

delta_back : IsReread codec delta_chunk
delta_back text e = let same : ◌≡◌ {A = String} "a" text = cc in rw (← same) (refl, refl)

usage_back : IsReread codec usage_chunk
usage_back text e = let same : ◌≡◌ {A = String} "b" text = cc in rw (← same) (refl, refl)

broken_back : IsReread codec broken_chunk
broken_back text e = cc

read-relay_example :
    read_events codec
      (relay_lines codec (delta_chunk ∷ broken_chunk ∷ usage_chunk ∷ []) ++ "data: c" ∷ [])
    ≡ delta_chunk ∷ usage_chunk ∷ []
read-relay_example =
    read-relay codec (delta_chunk ∷ broken_chunk ∷ usage_chunk ∷ []) ("data: c" ∷ [])
      (delta_back, (broken_back, (usage_back, tt)))
