-- ===== src/Chat/Settlement.antt =====
-- What a chat costs its user (handleNonStreamChat in backend/internal/gateway/router.go).
use ai_aggregator.Prelude.{
  ℕ, suc, ◌+◌, ◌≡◌, refl, ◌∙◌, ◌⊎◌, true, false, String, Option, List, [], ◌∷◌, inl, inr, arith,
  Bool-cases,
}
use ai_aggregator.Prelude.Int.{ℤ, pos}
use ai_aggregator.Http.{Ctx, Outcome}
use ai_aggregator.RateLimit.Tokens.{Counters, enforce_token_limit}
use ai_aggregator.Routing.Selection.{RouteEntry}
use ai_aggregator.Billing.{record_usage_and_billing}
use ai_aggregator.Chat.{
  Attempt, failed, reached, World, Services, Request, ChatResponse, prompt_tokens,
  completion_tokens, RequestLog, record_request_log, record_fallback_log, respond_chat_error,
  after_failure, try_routes, usage_record, settle, serve_response, first_provider,
  handle_non_stream_chat,
}

pub attempt-cases :
    {R : Type 0} (a : Attempt R) → ((m : String) × (a ≡ failed m)) ⊎ ((r : R) × (a ≡ reached r))
attempt-cases (failed m) = inl (m, refl)
attempt-cases (reached r) = inr (r, refl)

-- A request that is rejected is answered 429, and one that passes keeps its context.
module _ (redis : Counters) where
  open redis use {Counter}

  pub enforce-status :
      (broken : Option Counter) (now : ℕ) (default_tpm tokens : ℤ) (c : Ctx) (k : Counter)
      → (enforce_token_limit redis broken now default_tpm tokens c k).0 ≡ true
      → (enforce_token_limit redis broken now default_tpm tokens c k).1.status ≡ 429
  unfolding enforce_token_limit
  enforce-status broken now default_tpm tokens c k h = ground (arith, h)

module _ (redis : Counters) (services : Services redis.Counter) (req : Request) where
  open redis use {Counter}

  pub request_log-accounts :
      (l : RequestLog) (w : World Counter)
      → (record_request_log redis services req l w).accounts ≡ w.accounts
  unfolding record_request_log
  request_log-accounts l w = ground arith

  pub fallback_log-accounts :
      (from to : RouteEntry) (w : World Counter)
      → (record_fallback_log redis services req from to w).accounts ≡ w.accounts
  unfolding record_fallback_log
  fallback_log-accounts from to w = ground arith

  -- How the accounts `before` come out of a chat: untouched, where every provider failed (502) or
  -- one answered and the token limit rejected the request then (429); or billed once, for the
  -- tokens of the answer, with an answer 200.
  pub data IsSettled (chat : ℕ → RouteEntry → Attempt ChatResponse) (c : Ctx)
      (before : World Counter) (o : Outcome (World Counter)) : Type 0 where
    refused : o.ctx.status ≡ 502 → o.world.accounts ≡ before.accounts → IsSettled chat c before o
    limited :
        (i : ℕ) (route : RouteEntry) (resp : ChatResponse)
        → chat i route ≡ reached resp
        → o.ctx.status ≡ 429
        → o.world.accounts ≡ before.accounts
        → IsSettled chat c before o
    billed :
        (i : ℕ) (route : RouteEntry) (resp : ChatResponse)
        → chat i route ≡ reached resp
        → o.ctx.status ≡ 200
        → o.world.accounts
          ≡ record_usage_and_billing services.faults
              (usage_record redis services req resp.name resp.usage false c)
              before.accounts
        → IsSettled chat c before o

  module _ (chat : ℕ → RouteEntry → Attempt ChatResponse) (first : String) where
    serve-IsSettled :
        (i : ℕ) (route : RouteEntry) (resp : ChatResponse) (c : Ctx) (w : World Counter)
        → chat i route ≡ reached resp
        → IsSettled chat c w (serve_response redis services req first i route resp c w)
    unfolding serve_response settle
    serve-IsSettled i route resp c w h =
        let tokens = pos (prompt_tokens resp.usage + completion_tokens resp.usage) in
        elim (Bool-cases
          (enforce_token_limit redis services.counter_broken services.now services.default_tpm
            tokens c w.counter).0) [
              | inl over ↦
                  limited i route resp h
                    (rw over (
                      enforce-status redis services.counter_broken services.now services.default_tpm
                        tokens c w.counter over))
                    (rw over refl)
              | inr within ↦
                  billed i route resp h (rw within refl) (rw within (request_log-accounts _ _))
            ]

    -- A fallback log before changes nothing in how the accounts come out.
    earlier-IsSettled :
        (c : Ctx) (before w : World Counter) (o : Outcome (World Counter))
        → w.accounts ≡ before.accounts
        → IsSettled chat c w o
        → IsSettled chat c before o
    earlier-IsSettled c before w o e (refused s a) = refused s (a ∙ e)
    earlier-IsSettled c before w o e (limited i route resp h s a) = limited i route resp h s (a ∙ e)
    earlier-IsSettled c before w o e (billed i route resp h s a) =
        billed i route resp h s (rw e at a)

    failure-IsSettled :
        (i : ℕ) (route : RouteEntry) (rest : List RouteEntry) (message : String) (c : Ctx)
        (w : World Counter)
        → ((v : World Counter)
            → IsSettled chat c v (
                try_routes redis services req chat
                  (serve_response redis services req first)
                  (suc i)
                  rest
                  c
                  v))
        → IsSettled chat c w (
            after_failure redis services req chat
              (serve_response redis services req first)
              i
              route
              rest
              message
              (try_routes redis services req chat
                (serve_response redis services req first)
                (suc i)
                rest)
              c
              w)
    unfolding respond_chat_error
    failure-IsSettled i route [] message c w later = refused refl (request_log-accounts _ _)
    failure-IsSettled i route (next ∷ rest) message c w later =
        earlier-IsSettled c w (record_fallback_log redis services req route next w) _
          (fallback_log-accounts route next w)
          (later (record_fallback_log redis services req route next w))

    try_routes-IsSettled :
        (i : ℕ) (routes : List RouteEntry) (c : Ctx) (w : World Counter)
        → IsSettled chat c w (
            try_routes redis services req chat
              (serve_response redis services req first)
              i
              routes
              c
              w)
    unfolding try_routes respond_chat_error
    try_routes-IsSettled i [] c w = refused refl (request_log-accounts _ _)
    try_routes-IsSettled i (route ∷ rest) c w = elim (attempt-cases (chat i route)) [
      | inl (m, h) ↦
          rw (h, try_routes)
            (failure-IsSettled i route rest m c w (λ v. try_routes-IsSettled (suc i) rest c v))
      | inr (r, h) ↦ rw (h, try_routes) (serve-IsSettled i route r c w h)
    ]

  -- Whatever the providers, the services and the token counter do, handleNonStreamChat answers 502
  -- and bills nothing; or a provider answered and the token limit turns the answer into 429, and
  -- nothing is billed; or it answers 200 and runs recordUsageAndBilling exactly once, with the
  -- tokens of a provider's answer at the price of the model that the user named.
  pub handle_non_stream_chat-IsSettled :
      (chat : ℕ → RouteEntry → Attempt ChatResponse) (routes : List RouteEntry) (c : Ctx)
      (w : World Counter)
      → IsSettled chat c w (handle_non_stream_chat redis services req chat routes c w)
  unfolding handle_non_stream_chat
  handle_non_stream_chat-IsSettled chat routes c w =
      try_routes-IsSettled chat (first_provider redis services req routes) 0 routes c w
