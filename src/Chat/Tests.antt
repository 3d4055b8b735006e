-- ===== src/Chat/Tests.antt =====
-- Runs of the chat handlers, and their laws applied to two providers of which the first fails.
use Prim.Native.String
use ai_aggregator.Prelude.{
  ℕ, zero, suc, ◌+◌, ◌≡◌, refl, true, false, String, none, some, [], ◌∷◌, ◌++◌, length, str_eq,
}
use ai_aggregator.Prelude.Int.{ℤ, pos, ◌+ℤ◌}
use ai_aggregator.Prelude.Json.{str}
use ai_aggregator.Http.{Ctx, Handler, no_locals, no_body}
use ai_aggregator.RateLimit.Tokens.{Counters}
use ai_aggregator.Guardrails.{Patterns}
use ai_aggregator.Routing.Registry.{mock}
use ai_aggregator.Routing.Selection.{RouteEntry}
use ai_aggregator.Routing.Tests.{whole, db, router}
use ai_aggregator.Billing.{Faults}
use ai_aggregator.Chat.{
  Attempt, failed, reached, World, Services, Request, ChatResponse, Stream, try_routes,
  serve_response, respond_chat_error, handle_non_stream_chat,
}
use ai_aggregator.Chat.Fallback.{
  none_left, next_fails, log_fallbacks, try_routes-serves, try_routes-exhausted,
}
use ai_aggregator.Chat.Settlement.{IsSettled, handle_non_stream_chat-IsSettled}
use ai_aggregator.Chat.Streaming.{
  receiving, done, Relay, Step, Steps, start, more, receive, relay, finish, settle_stream,
  Steps-unbilled,
}
use ai_aggregator.Chat.StreamBills.{
  IsLastUsage, said, IsBilled, Steps-IsBilled, HasEnded, Steps-HasEnded,
}
use ai_aggregator.Chat.Completions.{ChatRequest, Gateway, handle_chat_completions}
use ai_aggregator.Chat.Admission.{IsChat, handle_chat_completions-IsChat}

-- A counter that never expires.
abbrev pub counters : Counters
counters = record {
  Counter = ℤ;
  read = λ now c. c;
  incr_by = λ now n c. c +ℤ n;
  expire = λ now ttl c. c;
  read-incr_by = λ now n c. refl;
  read-expire = λ now ttl later c h k. refl;
}

abbrev sound : Faults
sound = record { usage = false; balance = false; transaction = false }

abbrev pub services : Services ℤ
services = record {
  faults = sound;
  log_fails = false;
  pricing = none;
  now = 0;
  default_tpm = pos 0;
  counter_broken = none;
}

abbrev pub req : Request
req = record { request_id = "r1"; user_id = "u1"; requested_model = "m1" }

abbrev pub entry : String → RouteEntry
entry id = record {
  adapter = mock id;
  upstream_model = "up";
  provider_id = id;
  credential_key_id = "";
  credential_scope = "env";
}

abbrev response : ChatResponse
response = record { name = "p2"; usage = some (100, 20); body = λ model. str model }

-- The first call fails, and each later one succeeds.
abbrev second : ℕ → RouteEntry → Attempt ChatResponse
second zero route = failed "down"
second (suc i) route = reached response

abbrev never : ℕ → RouteEntry → Attempt ChatResponse
never i route = failed "down"

abbrev pub world : World ℤ
world = record {
  accounts = record { balances = ("u1", 10000000) ∷ []; usage = []; transactions = [] };
  request_logs = [];
  fallback_logs = [];
  streams = [];
  counter = pos 0;
}

abbrev pub ctx : Ctx
ctx = record {
  authorization = "";
  request_id = "r1";
  locals = no_locals;
  status = 200;
  headers = [];
  body = no_body;
}

abbrev serve : ℕ → RouteEntry → ChatResponse → Handler (World ℤ)
serve = serve_response counters services req "p1"

try_routes-serves_example :
    try_routes counters services req second serve 0
      ((entry "p1" ∷ []) ++ entry "p2" ∷ entry "p3" ∷ [])
      ctx
      world
    ≡ serve
        (0 + length (entry "p1" ∷ []))
        (entry "p2")
        response
        ctx
        (log_fallbacks counters services req (entry "p1" ∷ []) (entry "p2") world)
try_routes-serves_example =
    try_routes-serves counters services req second serve 0 (entry "p1" ∷ []) (entry "p2")
      (entry "p3" ∷ []) response ctx world (next_fails "down" refl none_left) refl

try_routes-exhausted_example :
    try_routes counters services req never serve 0 ((entry "p1" ∷ []) ++ entry "p2" ∷ []) ctx world
    ≡ respond_chat_error counters services req "p2" 502 "provider_unavailable" "provider_error"
        (String.◌++◌ "all providers failed: " "down")
        (0 + length (entry "p1" ∷ []))
        ctx
        (log_fallbacks counters services req (entry "p1" ∷ []) (entry "p2") world)
try_routes-exhausted_example =
    try_routes-exhausted counters services req never serve 0 (entry "p1" ∷ []) (entry "p2") "down"
      ctx world (next_fails "down" refl none_left) refl

handle_non_stream_chat-IsSettled_example :
    IsSettled counters services req second ctx world
      (handle_non_stream_chat counters services req second (entry "p1" ∷ entry "p2" ∷ []) ctx world)
handle_non_stream_chat-IsSettled_example =
    handle_non_stream_chat-IsSettled counters services req second (entry "p1" ∷ entry "p2" ∷ []) ctx
      world

abbrev stream : Stream
stream = record {
  chunks = none ∷ some (7, 3) ∷ [];
  route = entry "p1";
  provider_name = "p1";
  fallback_count = 0;
}

abbrev streamed_world : World ℤ
streamed_world = settle_stream counters services req "p1" ctx stream (some (7, 3)) world

stream_run :
    Steps counters services req "p1" ctx stream
      (receiving (none ∷ some (7, 3) ∷ []) none true world)
      (done streamed_world)
stream_run = more (more (more (more (more start receive) relay) receive) relay) finish

streamed_last : IsLastUsage (none ∷ some (7, 3) ∷ []) 7 3
streamed_last = said (none ∷ []) [] 7 3 tt

Steps-IsBilled_example : IsBilled counters services req "p1" ctx stream 7 3 world streamed_world
Steps-IsBilled_example =
    Steps-IsBilled counters services req "p1" ctx stream (none ∷ some (7, 3) ∷ []) 7 3 world
      streamed_world streamed_last stream_run

no_more : (t : Relay ℤ) → ¬ Step counters services req "p1" ctx stream (done streamed_world) t
no_more t step = elim step [ ]

Steps-HasEnded_example :
    HasEnded counters services req "p1" ctx stream 7 3 world (done streamed_world)
Steps-HasEnded_example =
    Steps-HasEnded counters services req "p1" ctx stream (none ∷ some (7, 3) ∷ []) 7 3 world
      (done streamed_world) streamed_last stream_run no_more

Steps-unbilled_example :
    ¬ Steps counters services req "p1" ctx stream
      (receiving (some (7, 3) ∷ []) none false world)
      (done streamed_world)
Steps-unbilled_example =
    Steps-unbilled counters services req "p1" ctx stream (some (7, 3)) [] none world streamed_world

abbrev patterns : Patterns
patterns = record {
  emails = λ s. 0;
  phones = λ s. 0;
  cards = λ s. 0;
  hide_emails = λ s. s;
  hide_phones = λ s. s;
  hide_cards = λ s. s;
  to_lower = λ s. s;
  contains = str_eq;
}

abbrev gateway : Gateway whole
gateway = record {
  db = db;
  router = router;
  patterns = patterns;
  policies = some [];
  record_fails = false;
  query_faults = sound;
  providers = record { chat = λ ms. second; chat_stream = λ ms i route. failed "down" };
  marshal = λ v. "";
}

abbrev chat_request : ChatRequest
chat_request = record {
  model = "m1";
  messages = record { role = "user"; content = str "hello" } ∷ [];
  max_tokens = none;
  stream = false;
}

handle_chat_completions-IsChat_example :
    IsChat counters services whole gateway "r1" "u1" (reached chat_request) ctx world (
      handle_chat_completions counters services whole gateway "r1" "u1"
        (reached chat_request)
        ctx
        world)
handle_chat_completions-IsChat_example =
    handle_chat_completions-IsChat counters services whole gateway "r1" "u1" (reached chat_request)
      ctx world
