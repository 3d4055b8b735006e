-- ===== src/RateLimit/Tokens.antt =====
-- CheckTokenLimit, IncrConcurrency and DecrConcurrency (backend/internal/ratelimit/limiter.go), and
-- enforceAPIKeyTokenLimit (backend/internal/gateway/router.go).
use ai_aggregator.Prelude.{
  ℕ, suc, ◌+◌, ◌≤◌, ◌<◌, ◌≡◌, ap, ◌∙◌, Bool, true, false, Option, none, some, List, [], ◌∷◌, arith,
  if◌then◌else◌, ◌||◌, str_eq,
}
use ai_aggregator.Prelude.Int.{ℤ, pos, leb_ℤ, ◌+ℤ◌, ◌-ℤ◌}
use ai_aggregator.Http.{error_body, Ctx, respond, local_string}

-- The counters of Redis, by the value that a key has at a time (0 if it is missing or expired).
-- A key on which EXPIRE was called lives until that time is over, and INCRBY keeps the expiry.
pub record Counters : Type 1 where
  pub Counter : Type 0
  pub read : ℕ → Counter → ℤ
  pub incr_by : ℕ → ℤ → Counter → Counter
  pub expire : ℕ → ℕ → Counter → Counter
  pub read-incr_by : (now : ℕ) (n : ℤ) (c : Counter) → read now (incr_by now n c) ≡ read now c +ℤ n
  pub read-expire :
      (now ttl later : ℕ) (c : Counter)
      → now ≤ later
      → later < now + ttl
      → read later (expire now ttl c) ≡ read now c

module _ (redis : Counters) where
  open redis use {Counter, read, incr_by, expire}

  abbrev tpm_limit : ℤ → ℤ → ℤ
  tpm_limit default_tpm limit = if leb_ℤ limit (pos 0) then default_tpm else limit

  -- CheckTokenLimit: whether the request may pass, whether there was an error, and the counter. A
  -- pipeline that fails leaves some counter `broken`. Times are in milliseconds.
  unfoldable pub check_token_limit :
      (broken : Option Counter) → ℕ → ℤ → (tokens limit : ℤ) → Counter → Bool × Bool × Counter
  check_token_limit broken now default_tpm tokens limit c =
      let max = tpm_limit default_tpm limit in
      if leb_ℤ max (pos 0) || leb_ℤ tokens (pos 0) then (true, false, c) else elim broken [
        | some c' ↦ (true, true, c')
        | none ↦
            let counted = incr_by now tokens c in
            (leb_ℤ (read now counted) max, false, expire now 120000 counted)
      ]

  -- enforceAPIKeyTokenLimit: whether the request was rejected, and the context.
  unfoldable pub enforce_token_limit :
      (broken : Option Counter) → ℕ → ℤ → ℤ → Ctx → Counter → Bool × Ctx × Counter
  unfolding check_token_limit
  enforce_token_limit broken now default_tpm tokens c counter =
      if str_eq (local_string c.locals.api_key_id) "" || leb_ℤ tokens (pos 0)
      then (false, c, counter)
      else let limit : ℤ = elim c.locals.rate_limit_tpm [ none ↦ pos 0 | some n ↦ n ] in
        let (allowed, failed, counter') =
          check_token_limit broken now default_tpm tokens limit counter in
        if failed || allowed then (false, c, counter') else (
          true,
          respond 429
              (error_body "rate_limit_exceeded" "tpm_limit"
                "rate limit exceeded (tokens per minute)")
              c,
          counter',
        )

  -- IncrConcurrency (the count is 0 for an error) and DecrConcurrency.
  unfoldable pub incr_concurrency : (broken : Option Counter) → ℕ → Counter → ℤ × Bool × Counter
  incr_concurrency (some c') now c = (pos 0, true, c')
  incr_concurrency none now c =
      let counted = incr_by now (pos 1) c in (read now counted, false, expire now 300000 counted)

  unfoldable pub decr_concurrency : (fails : Option Counter) → ℕ → Counter → Counter
  decr_concurrency (some c') now c = c'
  decr_concurrency none now c = incr_by now (pos 0 -ℤ pos 1) c

  -- Requests with a positive number of tokens, newest first, with their times.
  pub run_tokens : ℤ → ℤ → List (ℕ × ℕ) → Counter → Counter
  run_tokens default_tpm limit [] c = c
  run_tokens default_tpm limit ((t, n) ∷ rs) c =
      (check_token_limit none t default_tpm (pos (suc n)) limit
        (run_tokens default_tpm limit rs c)).2

  abbrev pub total : List (ℕ × ℕ) → ℕ
  total [] = 0
  total ((t, n) ∷ rs) = suc n + total rs

  -- The time of the newest request, or `start`.
  abbrev pub newest : ℕ → List (ℕ × ℕ) → ℕ
  newest start [] = start
  newest start ((t, _) ∷ _) = t

  -- Each request comes less than two minutes after the one before, the first of them after `start`.
  abbrev pub IsSteady : ℕ → List (ℕ × ℕ) → Type 0
  IsSteady start [] = Unit
  IsSteady start ((t, n) ∷ rs) =
      (newest start rs ≤ t) × (t < newest start rs + 120000) × IsSteady start rs

  some_tokens : (n : ℕ) → leb_ℤ (pos (suc n)) (pos 0) ≡ false
  some_tokens n = ground arith

  pos-add : (a b : ℕ) → pos a +ℤ pos b ≡ pos (a + b)
  unfolding ◌+ℤ◌
  pos-add a b = ground arith

  module _ (default_tpm limit : ℤ) (start : ℕ) (c : Counter)
      (max_pos : leb_ℤ (tpm_limit default_tpm limit) (pos 0) ≡ false)
      (fresh : (t : ℕ) → read t c ≡ pos 0) where
    check_token_limit-counts :
        (now n : ℕ) (s : Counter)
        → check_token_limit none now default_tpm (pos (suc n)) limit s ≡ (
          leb_ℤ (read now s +ℤ pos (suc n)) (tpm_limit default_tpm limit),
          false,
          expire now 120000 (incr_by now (pos (suc n)) s),
        )
    unfolding check_token_limit
    check_token_limit-counts now n s =
        rw (max_pos, some_tokens n, redis.read-incr_by now (pos (suc n)) s)

    run_tokens-cons :
        (t n : ℕ) (rs : List (ℕ × ℕ))
        → run_tokens default_tpm limit ((t, n) ∷ rs) c
          ≡ expire t 120000 (incr_by t (pos (suc n)) (run_tokens default_tpm limit rs c))
    unfolding run_tokens
    run_tokens-cons t n rs =
        ap (λ (r : Bool × Bool × Counter). r.2)
          (check_token_limit-counts t n (run_tokens default_tpm limit rs c))

    run_tokens-read :
        (rs : List (ℕ × ℕ)) (now : ℕ)
        → IsSteady start rs
        → newest start rs ≤ now
        → now < newest start rs + 120000
        → read now (run_tokens default_tpm limit rs c) ≡ pos (total rs)
    unfolding run_tokens
    run_tokens-read [] now h p q = fresh now
    run_tokens-read ((t, n) ∷ rs) now (after, soon, h) p q =
        let s = run_tokens default_tpm limit rs c in
        ap (read now) (run_tokens-cons t n rs)
        ∙ redis.read-expire t 120000 now (incr_by t (pos (suc n)) s) p q
        ∙ redis.read-incr_by t (pos (suc n)) s
        ∙ ap (λ (v : ℤ). v +ℤ pos (suc n)) (run_tokens-read rs t h after soon)
        ∙ pos-add (total rs) (suc n)
        ∙ ap pos (omega arith)

    -- The counter is no window: while each request of a key comes less than two minutes after the
    -- one before, a request passes exactly when its tokens and those of all requests before it
    -- since the counter was fresh stay within the limit, however long ago they came.
    pub check_token_limit-total :
        (rs : List (ℕ × ℕ)) (now n : ℕ)
        → IsSteady start ((now, n) ∷ rs)
        → (check_token_limit none now default_tpm
            (pos (suc n))
            limit
            (run_tokens default_tpm limit rs c)).0
          ≡ leb_ℤ (pos (total ((now, n) ∷ rs))) (tpm_limit default_tpm limit)
    check_token_limit-total rs now n (after, soon, h) =
        rw
          (
            check_token_limit-counts now n (run_tokens default_tpm limit rs c),
            run_tokens-read rs now h after soon,
            pos-add,
          )
          (ap (λ (k : ℕ). leb_ℤ (pos k) (tpm_limit default_tpm limit)) (omega arith))
