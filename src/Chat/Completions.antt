-- ===== src/Chat/Completions.antt =====
-- handleChatCompletions with the estimate of a request's tokens
-- (backend/internal/gateway/router.go); the audit row of a blocked request is left out.
use Prim.Native.String
use ai_aggregator.Prelude.{
  ℕ, suc, ◌+◌, ◌/◌, Bool, true, false, String, Option, none, some, List, [], ◌∷◌, if◌then◌else◌,
  ltb, leb, length, str_eq,
}
use ai_aggregator.Prelude.Int.{ℤ, pos, ltb_ℤ, ◌+ℤ◌}
use ai_aggregator.Prelude.Json.{Json, str, arr, obj, Items, nil, cons, get, as_string}
use ai_aggregator.Float.{Float}
use ai_aggregator.Http.{Handler, local_string}
use ai_aggregator.RateLimit.Tokens.{Counters, enforce_token_limit}
use ai_aggregator.Guardrails.{Message, Patterns, GuardrailPolicy, screen}
use ai_aggregator.Routing.Registry.{Store, Router}
use ai_aggregator.Routing.Selection.{RouteEntry, ok, err, route_all_for_request}
use ai_aggregator.Billing.{Faults, get_user_balance}
use ai_aggregator.Chat.{
  Attempt, failed, reached, World, Services, Request, ChatResponse, Chunk, respond_chat_error,
  handle_non_stream_chat, handle_stream_chat,
}

-- provider.ChatRequest, the fields that the gateway reads.
pub record ChatRequest : Type 0 where
  pub model : String
  pub messages : List Message
  pub max_tokens : Option ℤ
  pub stream : Bool

-- len([]rune(s))
abbrev pub rune_count : String → ℕ
rune_count String.[] = 0
rune_count (String.◌∷◌ ch s) = suc (rune_count s)

-- The number of runes of chatContentText for a part of a list, and for a content: `marshal` is
-- json.Marshal, for what is neither a string nor a list.
abbrev part_runes : Json → ℕ
part_runes (str s) = rune_count s
part_runes (obj fs) =
    let text : ℕ = elim (get "text" fs) [
      | none ↦ 0
      | some v ↦ elim (as_string v) [ none ↦ 0 | some s ↦ rune_count s ]
    ] in
    let image : ℕ = elim (get "image_url" fs) [ none ↦ 0 | some _ ↦ rune_count " image_url " ] in
    text + image
part_runes _ = 0

abbrev parts_runes : Items → ℕ
parts_runes nil = 0
parts_runes (cons part parts) = part_runes part + parts_runes parts

unfoldable pub content_runes : (marshal : Json → String) → Json → ℕ
content_runes marshal (str s) = rune_count s
content_runes marshal (arr parts) = parts_runes parts
content_runes marshal v = rune_count (marshal v)

abbrev all_runes : (marshal : Json → String) → List Message → ℕ
all_runes marshal [] = 0
all_runes marshal (m ∷ ms) = content_runes marshal m.content + all_runes marshal ms

abbrev output_budget : Option ℤ → ℤ
output_budget none = pos 256
output_budget (some n) = if ltb_ℤ (pos 0) n then n else pos 256

-- estimateChatRequestTokens
unfoldable pub estimate_chat_request_tokens : (marshal : Json → String) → ChatRequest → ℤ
estimate_chat_request_tokens marshal r =
    let quarter = all_runes marshal r.messages / 4 in
    let prompt = if ltb quarter (length r.messages) then length r.messages else quarter in
    pos prompt +ℤ output_budget r.max_tokens

-- The providers' methods, given the request's messages.
pub record Providers : Type 0 where
  pub chat : List Message → ℕ → RouteEntry → Attempt ChatResponse
  pub chat_stream : List Message → ℕ → RouteEntry → Attempt (String × List Chunk)

-- The parts of the gateway and what they meet during the request: the guardrail policies, whether
-- their results cannot be recorded, the queries that fail before the providers are called.
pub record Gateway (fl : Float) : Type 0 where
  pub db : Store fl.F
  pub router : Router fl.F
  pub patterns : Patterns
  pub policies : Option (List GuardrailPolicy)
  pub record_fails : Bool
  pub query_faults : Faults
  pub providers : Providers
  pub marshal : Json → String

module _ (redis : Counters) (services : Services redis.Counter) (fl : Float) (gw : Gateway fl)
    (request_id user_id : String) where
  open redis use {Counter}

  abbrev pub request : String → Request
  request model = record { request_id = request_id; user_id = user_id; requested_model = model }

  abbrev pub reject : String → ℕ → (code kind message : String) → Handler (World Counter)
  reject model status code kind message =
      respond_chat_error redis services (request model) "" status code kind message 0

  -- From the routing on.
  unfoldable pub dispatch : ChatRequest → List Message → Handler (World Counter)
  dispatch r ms c w =
      elim (route_all_for_request fl gw.db r.model user_id (local_string c.locals.workspace_id)
        gw.router).0 [
          | err _ ↦
              reject r.model 404 "model_not_found" "routing_error"
                (String.◌++◌ "no available provider for model: " r.model) c w
          | ok [] ↦
              reject r.model 404 "model_not_found" "routing_error"
                (String.◌++◌ "no available provider for model: " r.model) c w
          | ok (route ∷ rest) ↦
              let routes = route ∷ rest in
              if r.stream
              then handle_stream_chat redis services (request r.model) (gw.providers.chat_stream ms)
                  routes c w
              else handle_non_stream_chat redis services (request r.model) (gw.providers.chat ms)
                  routes c w
        ]

  -- The balance check; an error lets the request through.
  unfoldable pub check_balance : ChatRequest → List Message → Handler (World Counter)
  check_balance r ms c w = elim (get_user_balance gw.query_faults user_id w.accounts) [
    | none ↦ dispatch r ms c w
    | some b ↦
        if leb b 0
        then reject r.model 402 "insufficient_balance" "billing_error"
            "insufficient balance, please top up" c w
        else dispatch r ms c w
  ]

  -- The token limit of a stream, by the estimate.
  unfoldable pub check_tokens : ChatRequest → List Message → Handler (World Counter)
  check_tokens r ms c w =
      let (limited, c', counter') =
        enforce_token_limit redis services.counter_broken services.now services.default_tpm
          (estimate_chat_request_tokens gw.marshal (record r { messages = ms })) c w.counter in
      let w' = record w { counter = counter' } in
      if r.stream
      then if limited
        then record { error = none; ctx = c'; world = w' }
        else check_balance r ms c' w'
      else check_balance r ms c w

  abbrev pub screen_request : ChatRequest → Handler (World Counter)
  screen_request r c w =
      elim (screen gw.patterns gw.policies gw.record_fails (local_string c.locals.workspace_id)
        r.messages) [
          | none ↦
              reject r.model 400 "policy_violation" "policy_error"
                "request blocked by guardrail policy" c w
          | some ms ↦ check_tokens r ms c w
        ]

  abbrev pub has_messages : List Message → Bool
  has_messages [] = false
  has_messages (_ ∷ _) = true

  -- handleChatCompletions, by the result of parsing the body.
  unfoldable pub handle_chat_completions : Attempt ChatRequest → Handler (World Counter)
  handle_chat_completions (failed message) =
      reject "" 400 "invalid_request" "validation_error"
        (String.◌++◌ "invalid request body: " message)
  handle_chat_completions (reached r) =
      if str_eq r.model ""
      then reject "" 400 "invalid_request" "validation_error" "model field is required"
      else if has_messages r.messages
      then screen_request r
      else reject r.model 400 "invalid_request" "validation_error"
          "messages array is required and must not be empty"
