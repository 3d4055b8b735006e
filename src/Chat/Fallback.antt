-- ===== src/Chat/Fallback.antt =====
-- Which provider serves a chat, and what is logged about the others (handleNonStreamChat and
-- handleStreamChat in backend/internal/gateway/router.go).
use Prim.Native.String
use ai_aggregator.Prelude.{ℕ, suc, ◌+◌, ◌≡◌, refl, ◌∙◌, String, List, [], ◌∷◌, ◌++◌, length, arith}
use ai_aggregator.Http.{Ctx, Handler}
use ai_aggregator.RateLimit.Tokens.{Counters}
use ai_aggregator.Routing.Selection.{RouteEntry}
use ai_aggregator.Chat.{
  Attempt, failed, reached, World, Services, Request, record_fallback_log, respond_chat_error,
  try_routes,
}

plus_zero : (i : ℕ) → i + 0 ≡ i
plus_zero i = omega arith

plus_one : (i : ℕ) → i + 1 ≡ suc i
plus_one i = omega arith

shift : (i n : ℕ) → i + suc n ≡ suc i + n
shift i n = omega arith

module _ (redis : Counters) (services : Services redis.Counter) (req : Request) where
  open redis use {Counter}

  -- The fallback logs of routes that failed one after the other, up to the route `last`.
  abbrev pub log_fallbacks : List RouteEntry → RouteEntry → World Counter → World Counter
  log_fallbacks [] last w = w
  log_fallbacks (route ∷ []) last w = record_fallback_log redis services req route last w
  log_fallbacks (route ∷ next ∷ rest) last w =
      log_fallbacks (next ∷ rest) last (record_fallback_log redis services req route next w)

  module _ {R : Type 0} (call : ℕ → RouteEntry → Attempt R)
      (serve : ℕ → RouteEntry → R → Handler (World Counter)) where
    -- Each route fails at its attempt, the first of them at `i`.
    pub data AllFail : ℕ → List RouteEntry → Type 0 where
      none_left : {i : ℕ} → AllFail i []
      next_fails :
          {i : ℕ} {route : RouteEntry} {rest : List RouteEntry} (message : String)
          → call i route ≡ failed message
          → AllFail (suc i) rest
          → AllFail i (route ∷ rest)

    first_serves :
        (i : ℕ) (route : RouteEntry) (rest : List RouteEntry) (r : R) (c : Ctx) (w : World Counter)
        → call i route ≡ reached r
        → try_routes redis services req call serve i (route ∷ rest) c w ≡ serve i route r c w
    unfolding try_routes
    first_serves i route rest r c w h = rw (h, try_routes) refl

    first_fails :
        (i : ℕ) (route next : RouteEntry) (rest : List RouteEntry) (message : String) (c : Ctx)
        (w : World Counter)
        → call i route ≡ failed message
        → try_routes redis services req call serve i (route ∷ next ∷ rest) c w
          ≡ try_routes redis services req call serve
              (suc i)
              (next ∷ rest)
              c
              (record_fallback_log redis services req route next w)
    unfolding try_routes
    first_fails i route next rest message c w h = rw (h, try_routes) refl

    last_fails :
        (i : ℕ) (route : RouteEntry) (message : String) (c : Ctx) (w : World Counter)
        → call i route ≡ failed message
        → try_routes redis services req call serve i (route ∷ []) c w
          ≡ respond_chat_error redis services req route.provider_id 502 "provider_unavailable"
              "provider_error"
              (String.◌++◌ "all providers failed: " message)
              i
              c
              w
    unfolding try_routes
    last_fails i route message c w h = rw (h, try_routes) refl

    -- The first provider whose call succeeds serves the request, at its own index; the calls before
    -- it leave a fallback log each, from the provider that failed to the next one, and the
    -- providers after it play no part.
    pub try_routes-serves :
        (i : ℕ) (tried : List RouteEntry) (route : RouteEntry) (rest : List RouteEntry) (r : R)
        (c : Ctx) (w : World Counter)
        → AllFail i tried
        → call (i + length tried) route ≡ reached r
        → try_routes redis services req call serve i (tried ++ route ∷ rest) c w
          ≡ serve (i + length tried) route r c (log_fallbacks tried route w)
    try_routes-serves i [] route rest r c w none_left h =
        rw (plus_zero i) (first_serves i route rest r c w (rw (plus_zero i) at h))
    try_routes-serves i (t ∷ []) route rest r c w (next_fails message e none_left) h =
        first_fails i t route rest message c w e
        ∙ rw (plus_one i) (
            first_serves (suc i) route rest r c (record_fallback_log redis services req t route w)
              (rw (plus_one i) at h))
    try_routes-serves i (t ∷ t' ∷ ts) route rest r c w (next_fails message e fails) h =
        first_fails i t t' (ts ++ route ∷ rest) message c w e
        ∙ rw (shift i (suc (length ts))) (
            try_routes-serves (suc i) (t' ∷ ts) route rest r c
              (record_fallback_log redis services req t t' w) fails
              (rw (shift i (suc (length ts))) at h))

    -- Where every provider fails, the answer and its log are 502 with the last provider's name and
    -- its index as the number of fallbacks, and each of the others left a fallback log.
    pub try_routes-exhausted :
        (i : ℕ) (tried : List RouteEntry) (last : RouteEntry) (message : String) (c : Ctx)
        (w : World Counter)
        → AllFail i tried
        → call (i + length tried) last ≡ failed message
        → try_routes redis services req call serve i (tried ++ last ∷ []) c w
          ≡ respond_chat_error redis services req last.provider_id 502 "provider_unavailable"
              "provider_error"
              (String.◌++◌ "all providers failed: " message)
              (i + length tried)
              c
              (log_fallbacks tried last w)
    try_routes-exhausted i [] last message c w none_left h =
        rw (plus_zero i) (last_fails i last message c w (rw (plus_zero i) at h))
    try_routes-exhausted i (t ∷ []) last message c w (next_fails m e none_left) h =
        first_fails i t last [] m c w e
        ∙ rw (plus_one i) (
            last_fails (suc i) last message c (record_fallback_log redis services req t last w)
              (rw (plus_one i) at h))
    try_routes-exhausted i (t ∷ t' ∷ ts) last message c w (next_fails m e fails) h =
        first_fails i t t' (ts ++ last ∷ []) m c w e
        ∙ rw (shift i (suc (length ts))) (
            try_routes-exhausted (suc i) (t' ∷ ts) last message c
              (record_fallback_log redis services req t t' w) fails
              (rw (shift i (suc (length ts))) at h))
