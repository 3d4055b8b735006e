-- ===== src/Modalities.antt =====
-- Embeddings, speech, transcription, images and videos: handleEmbeddings, handleSpeech,
-- handleTranscribe, handleCreateImage, handleCreateVideo and handleGetAsyncTask
-- (backend/internal/gateway/router.go). Latencies, previews and times are left out.
pub mod Tasks
mod Metering
mod Tests
use Prim.Native.String
use ai_aggregator.Prelude.{
  ℕ, suc, ◌+◌, ◌≡◌, Bool, true, false, ◌||◌, not, String, Option, none, some, List, [], ◌∷◌,
  if◌then◌else◌, str_eq,
}
use ai_aggregator.Prelude.Int.{ℤ, pos}
use ai_aggregator.Prelude.Text.{trim_space}
use ai_aggregator.Prelude.Json.{Json, str, obj, field, end}
use ai_aggregator.Http.{Body, value, Ctx, Handler, Outcome, answer, error_response, local_string}
use ai_aggregator.RateLimit.Tokens.{Counters, enforce_token_limit}
use ai_aggregator.Routing.Selection.{RouteEntry, Routed, ok, err}
use ai_aggregator.Billing.{UsageRecord, calculate_cost}
use ai_aggregator.Chat.{
  Attempt, failed, reached, Usage, prompt_tokens, World, Services, Request, record_fallback_log,
  settle, first_provider,
}
use ai_aggregator.Chat.Completions.{rune_count}

-- provider.EmbeddingResponse: its usage and its JSON.
pub record EmbeddingResponse : Type 0 where
  pub usage : Usage
  pub body : Json

module _ (redis : Counters) (services : Services redis.Counter) (req : Request) where
  open redis use {Counter}

  -- The usage record of the handlers.
  abbrev pub metered_record :
      (provider_id : String) (input_tokens output_tokens : ℕ) → (costs : ℕ × ℕ) → Ctx → UsageRecord
  metered_record provider_id input_tokens output_tokens (upstream, charged) c = record {
    request_id = req.request_id;
    user_id = req.user_id;
    workspace_id = local_string c.locals.workspace_id;
    project_id = local_string c.locals.project_id;
    model_id = req.requested_model;
    provider_id = provider_id;
    input_tokens = input_tokens;
    output_tokens = output_tokens;
    is_stream = false;
    upstream_cost = upstream;
    charged_cost = charged;
  }

  -- What follows a call that succeeds: the token limit, the bill, the log and the answer.
  unfoldable pub serve_metered :
      (first : String)
      → ℕ
      → RouteEntry
      → (input_tokens output_tokens : ℕ) → (costs : ℕ × ℕ) → Body
      → Handler (World Counter)
  serve_metered first i route input_tokens output_tokens costs body c w =
      let (limited, c', counter') =
        enforce_token_limit redis services.counter_broken services.now services.default_tpm
          (pos (input_tokens + output_tokens)) c w.counter in
      let w' = record w { counter = counter' } in
      if limited
      then record { error = none; ctx = c'; world = w' }
      else answer 200 body c' (
          settle redis services req first i route
            (metered_record route.provider_id input_tokens output_tokens costs c) w')

  -- The loop over the routes, which the three handlers have alike; at its end no log is written.
  module _ {R : Type 0} (call : ℕ → RouteEntry → Attempt R)
      (serve : ℕ → RouteEntry → R → Handler (World Counter)) where
    abbrev pub all_failed : String → Handler (World Counter)
    all_failed message c w =
        answer 502
          (error_response "provider_unavailable" (String.◌++◌ "all providers failed: " message)) c w

    abbrev pub next_route :
        RouteEntry → List RouteEntry → String → Handler (World Counter) → Handler (World Counter)
    next_route route [] message continue = all_failed message
    next_route route (next ∷ _) message continue =
        λ c w. continue c (record_fallback_log redis services req route next w)

    abbrev pub by_attempt :
        ℕ
        → RouteEntry
        → List RouteEntry
        → Attempt R
        → Handler (World Counter)
        → Handler (World Counter)
    by_attempt i route rest (failed message) continue = next_route route rest message continue
    by_attempt i route rest (reached r) continue = serve i route r

    unfoldable pub try_metered : ℕ → List RouteEntry → Handler (World Counter)
    try_metered i [] =
        λ c w. answer 502 (error_response "provider_unavailable" "all providers failed") c w
    try_metered i (route ∷ rest) =
        let continue = try_metered (suc i) rest in by_attempt i route rest (call i route) continue

  abbrev pub no_provider : Handler (World Counter)
  no_provider c w =
      answer 404
        (error_response "model_not_found"
          (String.◌++◌ "no available provider for model: " req.requested_model))
        c w

  -- The rest of a handler behind RouteAll.
  abbrev pub with_routes :
      Routed (List RouteEntry)
      → (List RouteEntry → Handler (World Counter))
      → Handler (World Counter)
  with_routes (err e) next = no_provider
  with_routes (ok []) next = no_provider
  with_routes (ok (route ∷ rest)) next = next (route ∷ rest)

  abbrev pub serve_embedding :
      (first : String) → ℕ → RouteEntry → EmbeddingResponse → Handler (World Counter)
  serve_embedding first i route resp =
      let tokens = prompt_tokens resp.usage in
      serve_metered first i route tokens 0 (calculate_cost services.pricing tokens 0)
        (value resp.body)

  -- handleEmbeddings, for a body that could be read: whether it has an input. A call is given the
  -- upstream model of its route.
  unfoldable pub handle_embeddings :
      (has_input : Bool)
      → Routed (List RouteEntry)
      → (ℕ → RouteEntry → Attempt EmbeddingResponse)
      → Handler (World Counter)
  unfolding try_metered serve_metered
  handle_embeddings has_input routes call c w =
      if str_eq req.requested_model "" || not has_input
      then answer 400 (error_response "invalid_request" "model and input are required") c w
      else with_routes routes
          (λ rs. try_metered call (serve_embedding (first_provider redis services req rs)) 0 rs) c w

  abbrev pub serve_speech :
      (first input : String) → ℕ → RouteEntry → String → Handler (World Counter)
  serve_speech first input i route audio =
      let chars = rune_count input in
      serve_metered first i route 0 chars (calculate_cost services.pricing 0 chars)
        (value (str audio))

  -- handleSpeech, for a body that could be read. The audio stands as a text.
  unfoldable pub handle_speech :
      (input : String)
      → Routed (List RouteEntry)
      → (ℕ → RouteEntry → Attempt String)
      → Handler (World Counter)
  unfolding try_metered serve_metered
  handle_speech input routes call c w =
      if str_eq req.requested_model "" || str_eq (trim_space input) ""
      then answer 400 (error_response "invalid_request" "model and input are required") c w
      else with_routes routes
          (λ rs. try_metered call (serve_speech (first_provider redis services req rs) input) 0 rs)
          c w

  abbrev pub serve_transcript : (first : String) → ℕ → RouteEntry → String → Handler (World Counter)
  serve_transcript first i route text =
      serve_metered first i route 0 (rune_count text) (0, 0)
        (value (obj (field "text" (str text) end)))

  -- handleTranscribe: whether the form has a file, and whether it could be opened. The usage has no
  -- costs. The reader of the file, which the routes share, is left out.
  unfoldable pub handle_transcribe :
      (has_file opened : Bool)
      → Routed (List RouteEntry)
      → (ℕ → RouteEntry → Attempt String)
      → Handler (World Counter)
  unfolding try_metered serve_metered
  handle_transcribe has_file opened routes call c w =
      if str_eq req.requested_model ""
      then answer 400 (error_response "invalid_request" "model is required") c w
      else if not has_file
      then answer 400 (error_response "invalid_request" "multipart file field is required") c w
      else if not opened
      then answer 400 (error_response "invalid_request" "failed to open uploaded file") c w
      else with_routes routes
          (λ rs. try_metered call (serve_transcript (first_provider redis services req rs)) 0 rs) c
          w
