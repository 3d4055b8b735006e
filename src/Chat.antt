-- ===== src/Chat.antt =====
-- The completion of chats over several providers: handleNonStreamChat, handleStreamChat and the
-- logs that they write (backend/internal/gateway/router.go). Metrics, previews, latencies and the
-- log of the process are left out.
use Prim.Native.String
use ai_aggregator.Prelude.{
  ℕ, suc, ◌+◌, ◌≡◌, Bool, true, false, String, Option, none, some, List, [], ◌∷◌, if◌then◌else◌,
  str_eq,
}
use ai_aggregator.Prelude.Int.{ℤ, pos}
use ai_aggregator.Prelude.Json.{Json}
use ai_aggregator.Http.{Ctx, Handler, Outcome, answer, respond, error_body, value, local_string}
use ai_aggregator.RateLimit.Tokens.{Counters, enforce_token_limit}
use ai_aggregator.Routing.Selection.{RouteEntry}
use ai_aggregator.Billing.{
  Pricing, Faults, UsageRecord, Accounts, calculate_cost, record_usage_and_billing,
}
mod Records
pub use Records.*
mod Fallback
mod Settlement
mod Streaming
mod StreamBills
pub mod Completions
mod Admission
pub mod Tests

module _ (redis : Counters) (services : Services redis.Counter) (req : Request) where
  open redis use {Counter}

  -- recordRequestLog
  unfoldable pub record_request_log : RequestLog → World Counter → World Counter
  record_request_log l w =
      if str_eq l.request_id ""
      then w
      else if services.log_fails
      then w
      else record w { request_logs = l ∷ w.request_logs }

  -- recordFallbackLog
  unfoldable pub record_fallback_log : (from to : RouteEntry) → World Counter → World Counter
  record_fallback_log from to w =
      if str_eq req.request_id "" then w else if services.log_fails then w else record w {
        fallback_logs =
            record {
              request_id = req.request_id;
              model_id = req.requested_model;
              from_provider_id = from.provider_id;
              to_provider_id = to.provider_id;
            }
            ∷ w.fallback_logs;
      }

  -- respondChatError
  unfoldable pub respond_chat_error :
      (provider_id : String)
      → ℕ
      → (code kind message : String) → (fallback_count : ℕ) → Handler (World Counter)
  respond_chat_error provider_id status code kind message fallback_count c w =
      answer status (error_body kind code message) c (
        record_request_log
          (record {
            request_id = req.request_id;
            user_id = req.user_id;
            model_id = req.requested_model;
            provider_id = provider_id;
            final_provider_id = "";
            credential_scope = "";
            credential_key_id = "";
            status_code = status;
            error_code = code;
            input_tokens = 0;
            output_tokens = 0;
            charged_cost = 0;
            upstream_cost = 0;
            fallback_count = fallback_count;
          })
          w)

  -- The loop over the routes that both handlers have: `call` is the provider's method at an
  -- attempt, and `serve` what follows a call that succeeds.
  module _ {R : Type 0} (call : ℕ → RouteEntry → Attempt R)
      (serve : ℕ → RouteEntry → R → Handler (World Counter)) where
    abbrev pub after_failure :
        ℕ
        → RouteEntry
        → List RouteEntry
        → String
        → Handler (World Counter)
        → Handler (World Counter)
    after_failure i route [] message continue =
        respond_chat_error route.provider_id 502 "provider_unavailable" "provider_error"
          (String.◌++◌ "all providers failed: " message) i
    after_failure i route (next ∷ _) message continue =
        λ c w. continue c (record_fallback_log route next w)

    unfoldable pub try_routes : ℕ → List RouteEntry → Handler (World Counter)
    try_routes i [] =
        respond_chat_error "" 502 "no_available_provider" "routing_error" "no providers available" 0
    try_routes i (route ∷ rest) =
        let continue = try_routes (suc i) rest in
        elim (call i route) [
          | failed message ↦ after_failure i route rest message continue
          | reached r ↦ serve i route r
        ]

  -- The usage record of a request that a provider served.
  abbrev pub usage_record : (provider_name : String) → Usage → Bool → Ctx → UsageRecord
  usage_record provider_name usage is_stream c =
      let (upstream, charged) =
        calculate_cost services.pricing (prompt_tokens usage) (completion_tokens usage) in
      record {
        request_id = req.request_id;
        user_id = req.user_id;
        workspace_id = local_string c.locals.workspace_id;
        project_id = local_string c.locals.project_id;
        model_id = req.requested_model;
        provider_id = provider_name;
        input_tokens = prompt_tokens usage;
        output_tokens = completion_tokens usage;
        is_stream = is_stream;
        upstream_cost = upstream;
        charged_cost = charged;
      }

  -- The billing and the log of a request that a provider served.
  unfoldable pub settle :
      (first : String) → ℕ → RouteEntry → UsageRecord → World Counter → World Counter
  settle first i route r w =
      record_request_log
        (record {
          request_id = req.request_id;
          user_id = req.user_id;
          model_id = req.requested_model;
          provider_id = first;
          final_provider_id = route.provider_id;
          credential_scope = route.credential_scope;
          credential_key_id = route.credential_key_id;
          status_code = 200;
          error_code = "";
          input_tokens = r.input_tokens;
          output_tokens = r.output_tokens;
          charged_cost = r.charged_cost;
          upstream_cost = r.upstream_cost;
          fallback_count = i;
        })
        (record w { accounts = record_usage_and_billing services.faults r w.accounts })

  -- A response of ChatCompletion: the token limit, the bill, the log and the answer.
  unfoldable pub serve_response :
      (first : String) → ℕ → RouteEntry → ChatResponse → Handler (World Counter)
  serve_response first i route resp c w =
      let tokens = prompt_tokens resp.usage + completion_tokens resp.usage in
      let (limited, c', counter') =
        enforce_token_limit redis services.counter_broken services.now services.default_tpm
          (pos tokens) c w.counter in
      let w' = record w { counter = counter' } in
      if limited
      then record { error = none; ctx = c'; world = w' }
      else answer 200 (value (resp.body req.requested_model)) c'
          (settle first i route (usage_record resp.name resp.usage false c) w')

  -- A stream of ChatCompletionStream: it goes on after the handler has returned.
  unfoldable pub serve_stream : ℕ → RouteEntry → String × List Chunk → Handler (World Counter)
  serve_stream i route (name, chunks) c w = record {
    error = none;
    ctx = record c { status = 200 };
    world = record w {
      streams =
          record { chunks = chunks; route = route; provider_name = name; fallback_count = i }
          ∷ w.streams;
    };
  }

  abbrev pub first_provider : List RouteEntry → String
  first_provider [] = ""
  first_provider (route ∷ _) = route.provider_id

  -- handleNonStreamChat; a call is given the upstream model of its route.
  unfoldable pub handle_non_stream_chat :
      (ℕ → RouteEntry → Attempt ChatResponse) → List RouteEntry → Handler (World Counter)
  handle_non_stream_chat chat routes =
      try_routes chat (serve_response (first_provider routes)) 0 routes

  -- handleStreamChat
  unfoldable pub handle_stream_chat :
      (ℕ → RouteEntry → Attempt (String × List Chunk)) → List RouteEntry → Handler (World Counter)
  handle_stream_chat chat routes = try_routes chat serve_stream 0 routes
