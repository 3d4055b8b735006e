-- ===== src/Chat/StreamBills.antt =====
-- The bill of a stream (the goroutine of handleStreamChat in backend/internal/gateway/router.go,
-- with recordUsageAndBilling and recordRequestLog).
use ai_aggregator.Prelude.{
  ℕ, ◌≡◌, refl, true, false, String, none, some, List, [], ◌∷◌, ◌++◌, str_eq, All,
}
use ai_aggregator.Http.{Ctx, local_string}
use ai_aggregator.RateLimit.Tokens.{Counters}
use ai_aggregator.Billing.{UsageRecord, calculate_cost, record_usage_and_billing}
use ai_aggregator.Chat.{
  Usage, Chunk, World, Services, Request, Stream, RequestLog, record_request_log, settle,
}
use ai_aggregator.Chat.Settlement.{request_log-accounts}
use ai_aggregator.Chat.Streaming.{
  receiving, sending, done, Relay, note_usage, last_usage, settle_stream, Step, receive, relay,
  finish, Steps, Steps-LeadsTo, Steps-done,
}

-- The usage that a stream ends with: no chunk has one, or the given one stands in a chunk after
-- which none has any. Tokens that are nowhere given count as none.
pub data IsLastUsage : List Chunk → (input output : ℕ) → Type 0 where
  unsaid : (chunks : List Chunk) → All (λ ch. ch ≡ none) chunks → IsLastUsage chunks 0 0
  said :
      (before after : List Chunk) (input output : ℕ)
      → All (λ ch. ch ≡ none) after
      → IsLastUsage (before ++ some (input, output) ∷ after) input output

last_usage-quiet :
    (chunks : List Chunk) (u : Usage) → All (λ ch. ch ≡ none) chunks → last_usage chunks u ≡ u
last_usage-quiet [] u h = refl
last_usage-quiet (ch ∷ chunks) u (e, h) = rw (e, last_usage) (last_usage-quiet chunks u h)

last_usage-said :
    (before after : List Chunk) (t : ℕ × ℕ) (u : Usage)
    → All (λ ch. ch ≡ none) after
    → last_usage (before ++ some t ∷ after) u ≡ some t
last_usage-said [] after t u h = last_usage-quiet after (some t) h
last_usage-said (ch ∷ before) after t u h = last_usage-said before after t (note_usage ch u) h

module _ (redis : Counters) (services : Services redis.Counter) (req : Request) where
  open redis use {Counter}

  module _ (first : String) (c : Ctx) (s : Stream) where
    -- The usage row of a stream with these tokens, at the price of the model that the user named.
    abbrev pub stream_usage : (input output : ℕ) → UsageRecord
    stream_usage input output = record {
      request_id = req.request_id;
      user_id = req.user_id;
      workspace_id = local_string c.locals.workspace_id;
      project_id = local_string c.locals.project_id;
      model_id = req.requested_model;
      provider_id = s.provider_name;
      input_tokens = input;
      output_tokens = output;
      is_stream = true;
      upstream_cost = (calculate_cost services.pricing input output).0;
      charged_cost = (calculate_cost services.pricing input output).1;
    }

    -- The accounts are as after one run of recordUsageAndBilling for these tokens, and a request
    -- with an id has one more log, where logs can be written, a success of the stream's provider.
    pub record IsBilled (input output : ℕ) (w w' : World Counter) : Type 0 where
      pub accounts :
          w'.accounts
          ≡ record_usage_and_billing services.faults (stream_usage input output) w.accounts
      pub logged :
          str_eq req.request_id "" ≡ false
          → services.log_fails ≡ false
          → (l : RequestLog) × (w'.request_logs ≡ l ∷ w.request_logs)
            × (l.status_code ≡ 200)
            × (l.final_provider_id ≡ s.route.provider_id)
            × (l.input_tokens ≡ input)
            × (l.output_tokens ≡ output)
            × (l.charged_cost ≡ (calculate_cost services.pricing input output).1)

    settle-none :
        (w : World Counter) → IsBilled 0 0 w (settle_stream redis services req first c s none w)
    unfolding settle_stream settle record_request_log
    settle-none w = record {
      accounts = request_log-accounts redis services req _ _;
      logged = λ named up. rw (named, up) (_, refl, refl, refl, refl, refl, refl);
    }

    settle-some :
        (input output : ℕ) (w : World Counter)
        → IsBilled input output w
            (settle_stream redis services req first c s (some (input, output)) w)
    unfolding settle_stream settle record_request_log
    settle-some input output w = record {
      accounts = request_log-accounts redis services req _ _;
      logged = λ named up. rw (named, up) (_, refl, refl, refl, refl, refl, refl);
    }

    last-IsBilled :
        (chunks : List Chunk) (input output : ℕ) (w : World Counter)
        → IsLastUsage chunks input output
        → IsBilled input output w
            (settle_stream redis services req first c s (last_usage chunks none) w)
    last-IsBilled chunks _ _ w (unsaid _ quiet) =
        rw (last_usage-quiet chunks none quiet) (settle-none w)
    last-IsBilled _ input output w (said before after _ _ quiet) =
        rw (last_usage-said before after (input, output) none quiet) (settle-some input output w)

    -- A stream that is done was billed once, for the last usage that its provider sent, and for no
    -- tokens where it sent none; and it was logged once, where logs can be written.
    pub Steps-IsBilled :
        (chunks : List Chunk) (input output : ℕ) (w w' : World Counter)
        → IsLastUsage chunks input output
        → Steps redis services req first c s (receiving chunks none true w) (done w')
        → IsBilled input output w w'
    Steps-IsBilled chunks input output w w' last steps =
        rw (Steps-done redis services req first c s chunks w w' steps)
          (last-IsBilled chunks input output w last)

    -- A run that is at its end: the stream was billed, or the goroutine waits to send a chunk to a
    -- writer that has stopped, and nothing changed.
    pub data HasEnded (input output : ℕ) (w : World Counter) : Relay Counter → Type 0 where
      finished :
          (w' : World Counter) → IsBilled input output w w' → HasEnded input output w (done w')
      abandoned :
          (ch : Chunk) (rest : List Chunk) (u : Usage)
          → HasEnded input output w (sending ch rest u false w)

    -- Every run of a stream that no step can carry on has come to one of these two ends.
    pub Steps-HasEnded :
        (chunks : List Chunk) (input output : ℕ) (w : World Counter) (r : Relay Counter)
        → IsLastUsage chunks input output
        → Steps redis services req first c s (receiving chunks none true w) r
        → ((t : Relay Counter) → ¬ Step redis services req first c s r t)
        → HasEnded input output w r
    Steps-HasEnded chunks input output w (receiving [] u b v) last steps stop =
        absurd (stop _ finish)
    Steps-HasEnded chunks input output w (receiving (ch ∷ rest) u b v) last steps stop =
        absurd (stop _ receive)
    Steps-HasEnded chunks input output w (sending ch rest u true v) last steps stop =
        absurd (stop _ relay)
    Steps-HasEnded chunks input output w (sending ch rest u false v) last steps stop =
        let (_, same) =
          Steps-LeadsTo redis services req first c s (last_usage chunks none) w
            (receiving chunks none true w) (sending ch rest u false v) steps (refl, refl) in
        rw same (abandoned ch rest u)
    Steps-HasEnded chunks input output w (done w') last steps stop =
        finished w' (Steps-IsBilled chunks input output w w' last steps)
