-- ===== src/Chat/Streaming.antt =====
-- A stream under way: the goroutine of handleStreamChat (backend/internal/gateway/router.go) and
-- the writer of Proxy.RelayStream (backend/internal/stream/proxy.go), joined by an unbuffered
-- channel. The provider closes its channel after the last chunk.
use ai_aggregator.Prelude.{◌≡◌, refl, ◌∙◌, ap, Bool, true, false, String, none, some, List, [], ◌∷◌}
use ai_aggregator.Http.{Ctx}
use ai_aggregator.RateLimit.Tokens.{Counters}
use ai_aggregator.Chat.{Usage, Chunk, World, Services, Request, Stream, usage_record, settle}

-- finalUsage after a chunk.
abbrev pub note_usage : Chunk → Usage → Usage
note_usage none u = u
note_usage (some t) u = some t

-- The last usage among chunks.
abbrev pub last_usage : List Chunk → Usage → Usage
last_usage [] u = u
last_usage (ch ∷ rest) u = last_usage rest (note_usage ch u)

-- The goroutine waits for a chunk, waits for the writer to take one, or is done; `open` says
-- whether the writer still reads.
pub data Relay (K : Type 0) : Type 0 where
  receiving : (rest : List Chunk) (usage : Usage) (open_ : Bool) (w : World K) → Relay K
  sending : (ch : Chunk) (rest : List Chunk) (usage : Usage) (open_ : Bool) (w : World K) → Relay K
  done : (w : World K) → Relay K

module _ (redis : Counters) (services : Services redis.Counter) (req : Request) where
  open redis use {Counter}

  -- What the goroutine does once the provider's channel is closed.
  unfoldable pub settle_stream :
      (first : String) → Ctx → Stream → Usage → World Counter → World Counter
  settle_stream first c s usage w =
      settle redis services req first s.fallback_count s.route
        (usage_record redis services req s.provider_name usage true c) w

  module _ (first : String) (c : Ctx) (s : Stream) where
    -- A chunk that cannot be marshalled is skipped, and the writer goes on; one that cannot be
    -- flushed is its last.
    pub data Step : Relay Counter → Relay Counter → Type 0 where
      receive :
          {ch : Chunk} {rest : List Chunk} {u : Usage} {b : Bool} {w : World Counter}
          → Step (receiving (ch ∷ rest) u b w) (sending ch rest (note_usage ch u) b w)
      relay :
          {ch : Chunk} {rest : List Chunk} {u : Usage} {w : World Counter}
          → Step (sending ch rest u true w) (receiving rest u true w)
      flush_error :
          {ch : Chunk} {rest : List Chunk} {u : Usage} {w : World Counter}
          → Step (sending ch rest u true w) (receiving rest u false w)
      finish :
          {u : Usage} {b : Bool} {w : World Counter}
          → Step (receiving [] u b w) (done (settle_stream first c s u w))

    pub data Steps : Relay Counter → Relay Counter → Type 0 where
      start : {r : Relay Counter} → Steps r r
      more : {q r t : Relay Counter} → Steps q r → Step r t → Steps q t

    -- The states that lead to `w'` at the end, from the world `w`.
    abbrev pub LeadsTo : Usage → World Counter → Relay Counter → Type 0
    LeadsTo last w (receiving rest u b v) = (last_usage rest u ≡ last) × (v ≡ w)
    LeadsTo last w (sending ch rest u b v) = (last_usage rest u ≡ last) × (v ≡ w)
    LeadsTo last w (done v) = v ≡ settle_stream first c s last w

    Step-LeadsTo :
        (last : Usage) (w : World Counter) (q r : Relay Counter)
        → Step q r
        → LeadsTo last w q
        → LeadsTo last w r
    Step-LeadsTo last w _ _ receive h = h
    Step-LeadsTo last w _ _ relay h = h
    Step-LeadsTo last w _ _ flush_error h = h
    Step-LeadsTo last w _ _ (finish {u = u} {w = v}) (e, f) =
        ap (λ x. settle_stream first c s x v) e ∙ ap (settle_stream first c s last) f

    pub Steps-LeadsTo :
        (last : Usage) (w : World Counter) (q r : Relay Counter)
        → Steps q r
        → LeadsTo last w q
        → LeadsTo last w r
    Steps-LeadsTo last w q _ start h = h
    Steps-LeadsTo last w q _ (more {r = r} {t = t} steps step) h =
        Step-LeadsTo last w r t step (Steps-LeadsTo last w q r steps h)

    pub Steps-done :
        (chunks : List Chunk) (w w' : World Counter)
        → Steps (receiving chunks none true w) (done w')
        → w' ≡ settle_stream first c s (last_usage chunks none) w
    Steps-done chunks w w' steps =
        Steps-LeadsTo (last_usage chunks none) w (receiving chunks none true w) (done w') steps
          (refl, refl)

    -- The goroutine waits, with the world as it was.
    abbrev Waits : World Counter → Relay Counter → Type 0
    Waits w (receiving [] u b v) = ⊥
    Waits w (receiving (ch ∷ rest) u true v) = ⊥
    Waits w (receiving (ch ∷ rest) u false v) = v ≡ w
    Waits w (sending ch rest u true v) = ⊥
    Waits w (sending ch rest u false v) = v ≡ w
    Waits w (done v) = ⊥

    Step-Waits : (w : World Counter) (q r : Relay Counter) → Step q r → Waits w q → Waits w r
    Step-Waits w _ _ (receive {b = false}) h = h
    Step-Waits w _ _ (receive {b = true}) h = absurd h
    Step-Waits w _ _ relay h = absurd h
    Step-Waits w _ _ flush_error h = absurd h
    Step-Waits w _ _ finish h = absurd h

    Steps-Waits : (w : World Counter) (q r : Relay Counter) → Steps q r → Waits w q → Waits w r
    Steps-Waits w q _ start h = h
    Steps-Waits w q _ (more {r = r} {t = t} steps step) h =
        Step-Waits w r t step (Steps-Waits w q r steps h)

    -- Once the writer has stopped with a chunk still to come, as after a flush that failed, the
    -- stream is never done: whatever happens, nothing is billed and nothing is logged.
    pub Steps-unbilled :
        (ch : Chunk) (rest : List Chunk) (u : Usage) (w w' : World Counter)
        → ¬ Steps (receiving (ch ∷ rest) u false w) (done w')
    Steps-unbilled ch rest u w w' steps =
        Steps-Waits w (receiving (ch ∷ rest) u false w) (done w') steps refl
