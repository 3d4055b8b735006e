-- ===== src/Modalities/Metering.antt =====
-- What embeddings, speech and transcription cost (backend/internal/gateway/router.go).
use ai_aggregator.Prelude.{
  ℕ, suc, ◌+◌, ◌≤◌, ◌≡◌, refl, ◌∙◌, inl, inr, Bool, true, not, ◌||◌, String, List, [], ◌∷◌,
  if-cases, str_eq, arith, Bool-cases,
}
use ai_aggregator.Prelude.Int.{pos}
use ai_aggregator.Prelude.Json.{str, obj, field, end}
use ai_aggregator.Chat.Completions.{rune_count}
use ai_aggregator.Http.{Body, value, Ctx, Handler, Outcome}
use ai_aggregator.RateLimit.Tokens.{Counters, enforce_token_limit}
use ai_aggregator.Routing.Selection.{RouteEntry, Routed, ok, err}
use ai_aggregator.Billing.{
  UsageRecord, Accounts, calculate_cost, record_usage, record_usage_and_billing,
}
use ai_aggregator.Chat.{
  Attempt, failed, reached, prompt_tokens, World, Services, Request, record_request_log,
  record_fallback_log, settle, first_provider,
}
use ai_aggregator.Modalities.{
  EmbeddingResponse, metered_record, serve_metered, next_route, by_attempt, try_metered,
  with_routes, handle_embeddings, handle_transcribe,
}

module _ (redis : Counters) (services : Services redis.Counter) (req : Request) where
  open redis use {Counter}

  log-accounts :
      (first : String) (i : ℕ) (route : RouteEntry) (r : UsageRecord) (w : World Counter)
      → (settle redis services req first i route r w).accounts
        ≡ record_usage_and_billing services.faults r w.accounts
  unfolding settle record_request_log
  log-accounts first i route r w = ground arith

  fallback-accounts :
      (from to : RouteEntry) (w : World Counter)
      → (record_fallback_log redis services req from to w).accounts ≡ w.accounts
  unfolding record_fallback_log
  fallback-accounts from to w = ground arith

  limit-status :
      (tokens : ℕ) (c : Ctx) (k : Counter)
      → (enforce_token_limit redis services.counter_broken services.now services.default_tpm
          (pos tokens)
          c
          k).0
        ≡ true
      → (enforce_token_limit redis services.counter_broken services.now services.default_tpm
          (pos tokens)
          c
          k).1.status
        ≡ 429
  unfolding enforce_token_limit
  limit-status tokens c k h = ground (arith, h)

  -- How the accounts come out of a request: untouched, with an error; or billed once, for the
  -- record that `bill` makes of the answer of a provider.
  pub data IsMetered {R : Type 0} (call : ℕ → RouteEntry → Attempt R)
      (bill : RouteEntry → R → UsageRecord) (before : World Counter)
      : Outcome (World Counter) → Type 0 where
    unbilled :
        (o : Outcome (World Counter))
        → 400 ≤ o.ctx.status
        → o.world.accounts ≡ before.accounts
        → IsMetered call bill before o
    billed :
        (i : ℕ) (route : RouteEntry) (r : R) (o : Outcome (World Counter))
        → call i route ≡ reached r
        → o.ctx.status ≡ 200
        → o.world.accounts ≡ record_usage_and_billing services.faults (bill route r) before.accounts
        → IsMetered call bill before o

  module _ {R : Type 0} (call : ℕ → RouteEntry → Attempt R) (input_tokens output_tokens : R → ℕ)
      (costs : R → ℕ × ℕ) (body : R → Body) (first : String) (c : Ctx) where
    abbrev bill : RouteEntry → R → UsageRecord
    bill route r =
        metered_record redis services req route.provider_id (input_tokens r) (output_tokens r)
          (costs r) c

    abbrev serve : ℕ → RouteEntry → R → Handler (World Counter)
    serve i route r =
        serve_metered redis services req first i route (input_tokens r) (output_tokens r) (costs r)
          (body r)

    serve-IsMetered :
        (i : ℕ) (route : RouteEntry) (r : R) (w : World Counter)
        → call i route ≡ reached r
        → IsMetered call bill w (serve i route r c w)
    unfolding serve_metered
    serve-IsMetered i route r w h =
        let tokens = input_tokens r + output_tokens r in
        if-cases (IsMetered call bill w)
          (enforce_token_limit redis services.counter_broken services.now services.default_tpm
            (pos tokens) c w.counter).0
          _ _ (λ over. unbilled _ (rw (limit-status tokens c w.counter over) (omega arith)) refl)
          (λ within. billed i route r _ h refl (log-accounts first i route (bill route r) _))

    -- A fallback log before changes nothing in how the accounts come out.
    earlier-IsMetered :
        (w v : World Counter) (o : Outcome (World Counter))
        → v.accounts ≡ w.accounts
        → IsMetered call bill v o
        → IsMetered call bill w o
    earlier-IsMetered w v o e (unbilled _ s a) = unbilled o s (a ∙ e)
    earlier-IsMetered w v o e (billed i route r _ h s a) = billed i route r o h s (rw e at a)

    failure-IsMetered :
        (i : ℕ) (route : RouteEntry) (rest : List RouteEntry) (message : String) (w : World Counter)
        → ((v : World Counter)
            → IsMetered call bill v (try_metered redis services req call serve (suc i) rest c v))
        → IsMetered call bill w (
            next_route redis services req call serve route rest message
              (try_metered redis services req call serve (suc i) rest)
              c
              w)
    failure-IsMetered i route [] message w later = unbilled _ (omega arith) refl
    failure-IsMetered i route (next ∷ rest) message w later =
        earlier-IsMetered w (record_fallback_log redis services req route next w) _
          (fallback-accounts route next w)
          (later (record_fallback_log redis services req route next w))

    attempted :
        (i : ℕ) (route : RouteEntry) (rest : List RouteEntry) (w : World Counter) (a : Attempt R)
        → call i route ≡ a
        → ((v : World Counter)
            → IsMetered call bill v (try_metered redis services req call serve (suc i) rest c v))
        → IsMetered call bill w (
            by_attempt redis services req call serve i route rest a
              (try_metered redis services req call serve (suc i) rest)
              c
              w)
    attempted i route rest w (failed message) h later =
        failure-IsMetered i route rest message w later
    attempted i route rest w (reached r) h later = serve-IsMetered i route r w h

    try_metered-IsMetered :
        (i : ℕ) (routes : List RouteEntry) (w : World Counter)
        → IsMetered call bill w (try_metered redis services req call serve i routes c w)
    unfolding try_metered
    try_metered-IsMetered i [] w = unbilled _ (omega arith) refl
    try_metered-IsMetered i (route ∷ rest) w =
        attempted i route rest w (call i route) refl (λ v. try_metered-IsMetered (suc i) rest v)

  with_routes-IsMetered :
      {R : Type 0} (call : ℕ → RouteEntry → Attempt R) (bill : RouteEntry → R → UsageRecord)
      (routes : Routed (List RouteEntry)) (next : List RouteEntry → Handler (World Counter))
      (c : Ctx) (w : World Counter)
      → ((rs : List RouteEntry) → IsMetered call bill w (next rs c w))
      → IsMetered call bill w (with_routes redis services req routes next c w)
  with_routes-IsMetered call bill (err e) next c w h = unbilled _ (omega arith) refl
  with_routes-IsMetered call bill (ok []) next c w h = unbilled _ (omega arith) refl
  with_routes-IsMetered call bill (ok (route ∷ rest)) next c w h = h (route ∷ rest)

  -- Whatever the providers and the token counter do, a request for embeddings is answered with an
  -- error and nothing is billed, or with 200 and recordUsageAndBilling runs exactly once, for the
  -- tokens that a provider reported, at the price of the model that the user named.
  pub handle_embeddings-IsMetered :
      (has_input : Bool) (routes : Routed (List RouteEntry))
      (call : ℕ → RouteEntry → Attempt EmbeddingResponse) (c : Ctx) (w : World Counter)
      → IsMetered call
          (λ route r.
            metered_record redis services req route.provider_id
              (prompt_tokens r.usage)
              0
              (calculate_cost services.pricing (prompt_tokens r.usage) 0)
              c)
          w
          (handle_embeddings redis services req has_input routes call c w)
  unfolding handle_embeddings
  handle_embeddings-IsMetered has_input routes call c w =
      if-cases (IsMetered call _ w) (str_eq req.requested_model "" || not has_input) _ _
        (λ _. unbilled _ (omega arith) refl)
        (λ _. with_routes-IsMetered call _ routes _ c w (λ rs.
          try_metered-IsMetered call (λ r. prompt_tokens r.usage) (λ _. 0)
            (λ r. calculate_cost services.pricing (prompt_tokens r.usage) 0) (λ r. value r.body)
            (first_provider redis services req rs) c 0 rs w))

  transcribe-IsMetered :
      (has_file opened : Bool) (routes : Routed (List RouteEntry))
      (call : ℕ → RouteEntry → Attempt String) (c : Ctx) (w : World Counter)
      → IsMetered call
          (λ route text.
            metered_record redis services req route.provider_id 0 (rune_count text) (0, 0) c)
          w
          (handle_transcribe redis services req has_file opened routes call c w)
  unfolding handle_transcribe
  transcribe-IsMetered has_file opened routes call c w =
      if-cases (IsMetered call _ w) (str_eq req.requested_model "") _ _
        (λ _. unbilled _ (omega arith) refl)
        (λ _.
          if-cases (IsMetered call _ w) (not has_file) _ _ (λ _. unbilled _ (omega arith) refl)
            (λ _.
              if-cases (IsMetered call _ w) (not opened) _ _ (λ _. unbilled _ (omega arith) refl)
                (λ _. with_routes-IsMetered call _ routes _ c w (λ rs.
                  try_metered-IsMetered call (λ _. 0) rune_count (λ _. (0, 0))
                    (λ text. value (obj (field "text" (str text) end)))
                    (first_provider redis services req rs) c 0 rs w))))

  -- A bill without a charge leaves the balances and the ledger as they were.
  free_bill :
      (r : UsageRecord) (a : Accounts)
      → r.charged_cost ≡ 0
      → ((record_usage_and_billing services.faults r a).balances ≡ a.balances)
        × ((record_usage_and_billing services.faults r a).transactions ≡ a.transactions)
  unfolding record_usage_and_billing record_usage
  free_bill r a e = elim (Bool-cases services.faults.usage) [
    | inl down ↦ rw down (refl, refl)
    | inr up ↦ rw (up, e) (refl, refl)
  ]

  free-IsMetered :
      {R : Type 0} (call : ℕ → RouteEntry → Attempt R) (bill : RouteEntry → R → UsageRecord)
      (w : World Counter) (o : Outcome (World Counter))
      → ((route : RouteEntry) (r : R) → (bill route r).charged_cost ≡ 0)
      → IsMetered call bill w o
      → (o.world.accounts.balances ≡ w.accounts.balances)
        × (o.world.accounts.transactions ≡ w.accounts.transactions)
  free-IsMetered call bill w o free (unbilled _ s a) = rw a (refl, refl)
  free-IsMetered call bill w o free (billed i route r _ h s a) =
      rw a (free_bill (bill route r) w.accounts (free route r))

  -- A transcription charges nobody: whatever comes of it, the balances and the ledger stay as they
  -- were.
  pub handle_transcribe-free :
      (has_file opened : Bool) (routes : Routed (List RouteEntry))
      (call : ℕ → RouteEntry → Attempt String) (c : Ctx) (w : World Counter)
      → let o = handle_transcribe redis services req has_file opened routes call c w in
        (o.world.accounts.balances ≡ w.accounts.balances)
        × (o.world.accounts.transactions ≡ w.accounts.transactions)
  handle_transcribe-free has_file opened routes call c w =
      free-IsMetered call
        (λ route text.
          metered_record redis services req route.provider_id 0 (rune_count text) (0, 0) c)
        w _ (λ route r. refl) (transcribe-IsMetered has_file opened routes call c w)
