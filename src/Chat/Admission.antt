-- ===== src/Chat/Admission.antt =====
-- Which chats reach a provider, and which are billed (handleChatCompletions in
-- backend/internal/gateway/router.go).
use ai_aggregator.Prelude.{
  ℕ, zero, suc, ◌≤◌, ◌≡◌, refl, ◌∙◌, ◌⊎◌, inl, inr, Bool, true, false, String, Option, none, some,
  List, [], ◌∷◌, if◌then◌else◌, leb, arith, Bool-cases, Option-cases, str_eq,
}
use ai_aggregator.Float.{Float}
use ai_aggregator.Http.{Ctx, Outcome, local_string}
use ai_aggregator.RateLimit.Tokens.{Counters, enforce_token_limit}
use ai_aggregator.Guardrails.{Message, screen}
use ai_aggregator.Routing.Selection.{RouteEntry, Routed, ok, err, route_all_for_request}
use ai_aggregator.Billing.{get_user_balance}
use ai_aggregator.Chat.{
  Attempt, failed, reached, World, Services, Request, Chunk, record_fallback_log,
  respond_chat_error, try_routes, serve_stream, handle_stream_chat,
}
use ai_aggregator.Chat.Settlement.{
  IsSettled, attempt-cases, handle_non_stream_chat-IsSettled, request_log-accounts,
  fallback_log-accounts,
}
use ai_aggregator.Chat.Completions.{
  ChatRequest, Gateway, request, reject, dispatch, check_balance, check_tokens, screen_request,
  has_messages, handle_chat_completions, estimate_chat_request_tokens,
}

if-cases :
    {A : Type 0} (P : A → Type 0) (b : Bool) (x y : A)
    → (b ≡ true → P x)
    → (b ≡ false → P y)
    → P (if b then x else y)
if-cases P true x y f g = f refl
if-cases P false x y f g = g refl

module _ (redis : Counters) (services : Services redis.Counter) (req : Request) where
  open redis use {Counter}

  stream-loop :
      (call : ℕ → RouteEntry → Attempt (String × List Chunk)) (i : ℕ) (routes : List RouteEntry)
      (c : Ctx) (w : World Counter)
      → (try_routes redis services req call
          (serve_stream redis services req)
          i
          routes
          c
          w).world.accounts
        ≡ w.accounts
  unfolding try_routes serve_stream respond_chat_error
  stream-loop call i [] c w = request_log-accounts redis services req _ w
  stream-loop call i (route ∷ []) c w = elim (attempt-cases (call i route)) [
    | inl (m, h) ↦ rw (h, try_routes) (request_log-accounts redis services req _ w)
    | inr (r, h) ↦ rw (h, try_routes) refl
  ]
  stream-loop call i (route ∷ next ∷ rest) c w = elim (attempt-cases (call i route)) [
    | inl (m, h) ↦
        rw (h, try_routes)
          (stream-loop call (suc i) (next ∷ rest) c
              (record_fallback_log redis services req route next w)
            ∙ fallback_log-accounts redis services req route next w)
    | inr (r, h) ↦ rw (h, try_routes) refl
  ]

-- The balance is positive, or could not be read.
pub data IsCovered : Option ℕ → Type 0 where
  unread : IsCovered none
  positive : (b : ℕ) → IsCovered (some (suc b))

IsCovered-of : (b : ℕ) → leb b 0 ≡ false → IsCovered (some b)
IsCovered-of zero h = absurd (true-false h)
  where
    true-false : true ≡ false → ⊥
    true-false e = cc
IsCovered-of (suc b) h = positive b

module _ (redis : Counters) (services : Services redis.Counter) (fl : Float) (gw : Gateway fl)
    (request_id user_id : String) where
  open redis use {Counter}

  -- How a chat ends: rejected, with no charge; as a stream, which is charged only when it is done;
  -- or handled by handleNonStreamChat, after the guardrails let its messages through and the
  -- balance was positive or could not be read.
  pub data IsChat (parsed : Attempt ChatRequest) (c : Ctx) (before : World Counter)
      (o : Outcome (World Counter)) : Type 0 where
    rejected : 400 ≤ o.ctx.status → o.world.accounts ≡ before.accounts → IsChat parsed c before o
    streamed :
        (r : ChatRequest)
        → parsed ≡ reached r
        → r.stream ≡ true
        → o.world.accounts ≡ before.accounts
        → IsChat parsed c before o
    settled :
        (r : ChatRequest) (ms : List Message)
        → parsed ≡ reached r
        → screen gw.patterns gw.policies gw.record_fails
            (local_string c.locals.workspace_id)
            r.messages
          ≡ some ms
        → IsCovered (get_user_balance gw.query_faults user_id before.accounts)
        → IsSettled redis services
            (request redis services fl gw request_id user_id r.model)
            (gw.providers.chat ms)
            c
            before
            o
        → IsChat parsed c before o

  reject-IsChat :
      (parsed : Attempt ChatRequest) (model : String) (status : ℕ) (code kind message : String)
      (c : Ctx) (w : World Counter)
      → 400 ≤ status
      → IsChat parsed c w
          (reject redis services fl gw request_id user_id model status code kind message c w)
  unfolding respond_chat_error
  reject-IsChat parsed model status code kind message c w h = rejected h (
      request_log-accounts redis services (request redis services fl gw request_id user_id model) _
        w)

  module _ (r : ChatRequest) (ms : List Message) where
    routed-cases :
        (o : Routed (List RouteEntry))
        → ((e : _) × (o ≡ err e))
          ⊎ ((o ≡ ok [])
              ⊎ ((route : RouteEntry) × (rest : List RouteEntry) × (o ≡ ok (route ∷ rest))))
    routed-cases (err e) = inl (e, refl)
    routed-cases (ok []) = inr (inl refl)
    routed-cases (ok (route ∷ rest)) = inr (inr (route, rest, refl))

    dispatch-stream :
        (c : Ctx) (w : World Counter)
        → r.stream ≡ true
        → (dispatch redis services fl gw request_id user_id r ms c w).world.accounts ≡ w.accounts
    unfolding dispatch handle_stream_chat respond_chat_error
    dispatch-stream c w h =
        elim (routed-cases
          (route_all_for_request fl gw.db r.model user_id (local_string c.locals.workspace_id)
            gw.router).0) [
              | inl (e, missing) ↦
                  rw (missing, dispatch) (request_log-accounts redis services _ _ w)
              | inr (inl nothing) ↦
                  rw (nothing, dispatch) (request_log-accounts redis services _ _ w)
              | inr (inr (route, rest, found)) ↦
                  rw (found, h, dispatch)
                    (stream-loop redis services
                      (request redis services fl gw request_id user_id r.model)
                      (gw.providers.chat_stream ms) 0 (route ∷ rest) c w)
            ]

    balance-stream :
        (c : Ctx) (w : World Counter)
        → r.stream ≡ true
        → (check_balance redis services fl gw request_id user_id r ms c w).world.accounts
          ≡ w.accounts
    unfolding check_balance respond_chat_error
    balance-stream c w h =
        elim (Option-cases (get_user_balance gw.query_faults user_id w.accounts)) [
          | inl unread_ ↦ rw (unread_, check_balance) (dispatch-stream c w h)
          | inr (b, found) ↦ elim (Bool-cases (leb b 0)) [
            | inl broke ↦
                rw (found, broke, check_balance) (request_log-accounts redis services _ _ w)
            | inr pays ↦ rw (found, pays, check_balance) (dispatch-stream c w h)
          ]
        ]

    module _ (parsed : Attempt ChatRequest) (c : Ctx) (w : World Counter)
        (read : parsed ≡ reached r)
        (screened : screen gw.patterns gw.policies gw.record_fails
            (local_string c.locals.workspace_id)
            r.messages
          ≡ some ms) where
      dispatch-plain :
          r.stream ≡ false
          → IsCovered (get_user_balance gw.query_faults user_id w.accounts)
          → IsChat parsed c w (dispatch redis services fl gw request_id user_id r ms c w)
      unfolding dispatch
      dispatch-plain h covered =
          elim (routed-cases
            (route_all_for_request fl gw.db r.model user_id (local_string c.locals.workspace_id)
              gw.router).0) [
                | inl (e, missing) ↦
                    rw (missing, dispatch)
                      (reject-IsChat parsed r.model 404 _ _ _ c w (omega arith))
                | inr (inl nothing) ↦
                    rw (nothing, dispatch)
                      (reject-IsChat parsed r.model 404 _ _ _ c w (omega arith))
                | inr (inr (route, rest, found)) ↦
                    rw (found, h, dispatch)
                      (settled r ms read screened covered (
                        handle_non_stream_chat-IsSettled redis services
                          (request redis services fl gw request_id user_id r.model)
                          (gw.providers.chat ms) (route ∷ rest) c w))
              ]

      balance-plain :
          r.stream ≡ false
          → IsChat parsed c w (check_balance redis services fl gw request_id user_id r ms c w)
      unfolding check_balance
      balance-plain h = elim (Option-cases (get_user_balance gw.query_faults user_id w.accounts)) [
        | inl unread_ ↦ rw (unread_, check_balance) (dispatch-plain h (rw unread_ unread))
        | inr (b, found) ↦ elim (Bool-cases (leb b 0)) [
          | inl broke ↦
              rw (found, broke, check_balance)
                (reject-IsChat parsed r.model 402 _ _ _ c w (omega arith))
          | inr pays ↦
              rw (found, pays, check_balance) (dispatch-plain h (rw found (IsCovered-of b pays)))
        ]
      ]

      tokens-IsChat :
          IsChat parsed c w (check_tokens redis services fl gw request_id user_id r ms c w)
      unfolding check_tokens
      tokens-IsChat =
          let estimate = estimate_chat_request_tokens gw.marshal (record r { messages = ms }) in
          let (limited_, c', k) =
            enforce_token_limit redis services.counter_broken services.now services.default_tpm
              estimate c w.counter in
          if-cases (IsChat parsed c w) r.stream _ _
            (λ streams.
              if-cases (IsChat parsed c w) limited_ _ _ (λ _. streamed r read streams refl)
                (λ _.
                  streamed r read streams (balance-stream c' (record w { counter = k }) streams)))
            balance-plain

  screen-IsChat :
      (parsed : Attempt ChatRequest) (r : ChatRequest) (c : Ctx) (w : World Counter)
      → parsed ≡ reached r
      → IsChat parsed c w (screen_request redis services fl gw request_id user_id r c w)
  screen-IsChat parsed r c w read =
      elim (Option-cases (
        screen gw.patterns gw.policies gw.record_fails (local_string c.locals.workspace_id)
          r.messages)) [
            | inl blocked ↦
                rw (blocked, screen_request)
                  (reject-IsChat parsed r.model 400 _ _ _ c w (omega arith))
            | inr (ms, passed) ↦
                rw (passed, screen_request) (tokens-IsChat r ms parsed c w read passed)
          ]

  -- Every chat ends in one of three ways. It is rejected with a status of 400 or more and no
  -- charge; or it asked for a stream, and nothing is charged before the stream is done; or its
  -- messages passed the guardrails, the balance was positive or unreadable, and handleNonStreamChat
  -- charged nothing or billed one answer of a provider.
  pub handle_chat_completions-IsChat :
      (parsed : Attempt ChatRequest) (c : Ctx) (w : World Counter)
      → IsChat parsed c w
          (handle_chat_completions redis services fl gw request_id user_id parsed c w)
  unfolding handle_chat_completions
  handle_chat_completions-IsChat (failed m) c w =
      reject-IsChat (failed m) "" 400 _ _ _ c w (omega arith)
  handle_chat_completions-IsChat (reached r) c w = elim (Bool-cases (str_eq r.model "")) [
    | inl unnamed ↦
        rw (unnamed, handle_chat_completions)
          (reject-IsChat (reached r) "" 400 _ _ _ c w (omega arith))
    | inr named ↦
        elim (Bool-cases (has_messages redis services fl gw request_id user_id r.messages)) [
          | inl asks ↦
              rw (named, asks, handle_chat_completions) (screen-IsChat (reached r) r c w refl)
          | inr silent ↦
              rw (named, silent, handle_chat_completions)
                (reject-IsChat (reached r) r.model 400 _ _ _ c w (omega arith))
        ]
  ]
