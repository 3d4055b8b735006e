-- ===== src/RateLimit.antt =====
-- Rate limiting: backend/internal/ratelimit/limiter.go. Redis is a parameter: its sorted sets and
-- counters, with the laws of the commands that the limiter calls.
pub mod Window
pub mod Retry
pub mod Tokens
mod Tests
use ai_aggregator.Prelude.{
  ℕ, suc, ◌+◌, ◌-◌, ◌*◌, ◌/◌, ◌%◌, ◌≤◌, ◌<◌, ◌≡◌, Bool, true, false, String, Option, none, some,
  List, [], ◌∷◌, if◌then◌else◌, ltb, leb, length, count, any, ◌==◌, not, ◌&&◌, str_eq,
}
use ai_aggregator.Prelude.Int.{ℤ, pos, ltb_ℤ, leb_ℤ, ◌-ℤ◌}
use ai_aggregator.Http.{Body, error_body, Ctx, Outcome, Handler, answer}

-- One member of a sorted set; the member text "<now>:<now % 1000000>" is told by its two numbers.
pub record Entry : Type 0 where
  pub score : ℕ
  pub member : ℕ × ℕ

abbrev pub is_member : ℕ × ℕ → Entry → Bool
is_member m e = e.member.0 == m.0 && e.member.1 == m.1

abbrev pub is_entry : ℕ → ℕ × ℕ → Entry → Bool
is_entry score m e = e.score == score && is_member m e

abbrev pub is_after : ℕ → Entry → Bool
is_after t e = ltb t e.score

abbrev pub filter_entries : (Entry → Bool) → List Entry → List Entry
filter_entries p [] = []
filter_entries p (e ∷ es) = if p e then e ∷ filter_entries p es else filter_entries p es

-- The sorted-set commands, by the entries that a set shows. ZADD of a member that is there
-- with that score changes nothing; of a new one it adds an entry. ZRANGE 0 0 gives the entry of
-- least score, or none.
pub record Redis : Type 1 where
  pub ZSet : Type 0
  pub entries : ZSet → List Entry
  pub zrem_range_by_score : ℕ → ZSet → ZSet
  pub zcard : ZSet → ℕ
  pub zadd : ℕ → ℕ × ℕ → ZSet → ZSet
  pub zrange_first : ZSet → Option Entry
  pub entries-zrem :
      (max : ℕ) (s : ZSet)
      → entries (zrem_range_by_score max s) ≡ filter_entries (is_after max) (entries s)
  pub zcard_lem : (s : ZSet) → zcard s ≡ length (entries s)
  pub entries-zadd_new :
      (score : ℕ) (m : ℕ × ℕ) (s : ZSet)
      → any (is_member m) (entries s) ≡ false
      → (p : Entry → Bool)
      → count p (entries (zadd score m s))
        ≡ count p (record { score = score; member = m } ∷ entries s)
  pub entries-zadd_old :
      (score : ℕ) (m : ℕ × ℕ) (s : ZSet)
      → any (is_entry score m) (entries s) ≡ true
      → (p : Entry → Bool) → count p (entries (zadd score m s)) ≡ count p (entries s)

-- time.Minute / time.Millisecond and the other durations, in milliseconds
abbrev pub minute : ℕ
minute = 60000

abbrev pub second : ℕ
second = 1000

abbrev pub member_at : ℕ → ℕ × ℕ
member_at now = (now, now % 1000000)

-- The answer of checkRPM.
pub record Check : Type 0 where
  pub allowed : Bool
  pub remaining : ℤ
  pub retry_after : ℕ

-- The retry of a rejected request: `now - oldest` where the set has an entry, kept between a
-- second and a minute, and five seconds where the lookup fails. The source adds a minute and takes
-- `now - windowStart`, which is a minute.
abbrev pub retry_of : ℕ → Option Entry → ℕ
retry_of now none = second * 5
retry_of now (some oldest) =
    let retry = now - oldest.score + minute - minute in
    if ltb retry second then second else if ltb minute retry then minute else retry

-- A clock before the epoch's first minute does not occur; `now - minute` then stops at 0.
module _ (redis : Redis) where
  open redis use {ZSet, entries, zrem_range_by_score, zcard, zadd, zrange_first}

  -- The commands of the pipeline: the count before this request, and the set after it.
  unfoldable pub pipeline : ℕ → ZSet → ℕ × ZSet
  pipeline now s =
      let live = zrem_range_by_score (now - minute) s in (zcard live, zadd now (member_at now) live)

  -- checkRPM. A pipeline that fails leaves some set `broken`; `range_fails` is an error of the
  -- later ZRANGE. The result is `none` for an error.
  unfoldable pub check_rpm :
      (broken : Option ZSet) (range_fails : Bool) → ℕ → ℤ → ZSet → Option Check × ZSet
  check_rpm (some s') range_fails now limit s = (none, s')
  check_rpm none range_fails now limit s =
      let (n, s') = pipeline now s in
      if leb_ℤ limit (pos n)
      then (
        some (record {
          allowed = false;
          remaining = pos 0;
          retry_after = retry_of now (if range_fails then none else zrange_first s');
        }),
        s',
      )
      else (some (record { allowed = true; remaining = limit -ℤ pos n; retry_after = 0 }), s')

  -- The key that a request is counted under: its API key, or else its user.
  abbrev pub limit_key : Ctx → Option String
  limit_key c = elim c.locals.api_key_id [ some k ↦ some k | none ↦ c.locals.user_id ]

  -- The override of the API key, where it is positive.
  abbrev pub limit_of : ℤ → Ctx → ℤ
  limit_of default_rpm c = elim c.locals.rate_limit_rpm [
    | none ↦ default_rpm
    | some override ↦ if ltb_ℤ (pos 0) override then override else default_rpm
  ]

  abbrev pub set_header : String → ℤ → Ctx → Ctx
  set_header k v c = record c { headers = (k, v) ∷ c.headers }

  -- The sets of all keys, beside the world of the handlers behind.
  abbrev pub Sets : Type 0
  Sets = String → ZSet

  abbrev pub update : Sets → String → ZSet → Sets
  update sets k s j = if str_eq k j then s else sets j

  -- What Middleware does with the result of checkRPM.
  unfoldable pub after_check :
      {W : Type 0} → ℤ → Handler (Sets × W) → Option Check → Handler (Sets × W)
  after_check limit next none c w = next c w
  after_check limit next (some check) c w =
      let c' =
        set_header "X-RateLimit-Remaining" check.remaining
          (set_header "X-RateLimit-Limit" limit c) in
      if check.allowed
      then next c' w
      else answer 429
          (error_body "rate_limit_exceeded" "rpm_limit" "rate limit exceeded (requests per minute)")
          (set_header "Retry-After" (pos (check.retry_after / second)) c') w

  -- Limiter.Middleware
  unfoldable pub rate_limit :
      {W : Type 0} (broken : Option ZSet) (range_fails : Bool) (now : ℕ) (default_rpm : ℤ)
      → Handler (Sets × W)
      → Handler (Sets × W)
  unfolding check_rpm pipeline after_check
  rate_limit broken range_fails now default_rpm next c (sets, w) = elim (limit_key c) [
    | none ↦ next c (sets, w)
    | some id ↦
        let limit = limit_of default_rpm c in
        let (check, s') = check_rpm broken range_fails now limit (sets id) in
        after_check limit next check c (update sets id s', w)
  ]
