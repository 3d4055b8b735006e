-- ===== src/RateLimit/Retry.antt =====
-- Requests in one millisecond, and the retry time of a rejected request
-- (backend/internal/ratelimit/limiter.go).
use ai_aggregator.Prelude.{
  ℕ, zero, suc, ◌+◌, ◌-◌, ◌*◌, ◌&&◌, ◌≤◌, ◌<◌, ◌≡◌, Bool, true, false, none, some, List, [], ◌∷◌,
  arith, count, any, ap, ◌∙◌,
}
use ai_aggregator.Prelude.Int.{ℤ, pos, leb_ℤ, ◌-ℤ◌}
use ai_aggregator.RateLimit.{
  Entry, is_member, is_entry, is_after, filter_entries, Redis, minute, second, member_at, retry_of,
  pipeline, check_rpm,
}
use ai_aggregator.RateLimit.Window.{count-filter, length-eq-count, entry_at, check_rpm-state}

any-of_count_pos : (p : Entry → Bool) (es : List Entry) → 0 < count p es → any p es ≡ true
any-of_count_pos p [] h = elim h [ ]
any-of_count_pos p (e ∷ es) h = ground (arith, any-of_count_pos p es)

module _ (redis : Redis) where
  open redis use {ZSet, entries, zrem_range_by_score, zcard, zadd}

  -- The set holds the one request at `now`.
  abbrev HoldsOne : ℕ → ZSet → Type 0
  HoldsOne now s = (p : Entry → Bool) → count p (entries s) ≡ count p (entry_at now ∷ [])

  live-HoldsOne :
      (now : ℕ) (s : ZSet)
      → 0 < now
      → HoldsOne now s
      → HoldsOne now (zrem_range_by_score (now - minute) s)
  unfolding entry_at
  live-HoldsOne now s started one p =
      rw
        (
          redis.entries-zrem (now - minute) s,
          count-filter p (is_after (now - minute)) (entries s),
          one (λ e. p e && is_after (now - minute) e),
        )
        (ground arith)

  pipeline-again :
      (now : ℕ) (s : ZSet)
      → 0 < now
      → HoldsOne now s
      → ((pipeline redis now s).0 ≡ 1) × HoldsOne now (pipeline redis now s).1
  unfolding pipeline entry_at
  pipeline-again now s started one =
      let live = zrem_range_by_score (now - minute) s in
      let held = live-HoldsOne now s started one in
      (
        redis.zcard_lem live ∙ length-eq-count (entries live) ∙ held (λ _. true),
        λ p.
            redis.entries-zadd_old now (member_at now) live
              (any-of_count_pos (is_entry now (member_at now)) (entries live)
                (omega (arith, held (is_entry now (member_at now)), entry_at-is_entry now)))
              p
            ∙ held p,
      )
    where
      entry_at-is_entry : (t : ℕ) → count (is_entry t (member_at t)) (entry_at t ∷ []) ≡ 1
      entry_at-is_entry t = ground arith

  pipeline-first :
      (now : ℕ) (s : ZSet) → 0 < now → entries s ≡ [] → HoldsOne now (pipeline redis now s).1
  unfolding pipeline entry_at
  pipeline-first now s started empty p =
      let live = zrem_range_by_score (now - minute) s in
      let bare : entries live ≡ [] =
        redis.entries-zrem (now - minute) s ∙ ap (filter_entries (is_after (now - minute))) empty in
      redis.entries-zadd_new now (member_at now) live (ap (any (is_member (member_at now))) bare) p
      ∙ ap (λ es. count p (entry_at now ∷ es)) bare

  -- The set after `n` requests at one time, from the set `s`.
  pub burst : ℤ → ℕ → ℕ → ZSet → ZSet
  burst limit now zero s = s
  burst limit now (suc n) s = (check_rpm redis none false now limit (burst limit now n s)).1

  burst-HoldsOne :
      (limit : ℤ) (now n : ℕ) (s : ZSet)
      → 0 < now
      → entries s ≡ []
      → HoldsOne now (burst limit now (suc n) s)
  unfolding burst
  burst-HoldsOne limit now zero s started empty =
      rw (check_rpm-state redis false now limit s) (pipeline-first now s started empty)
  burst-HoldsOne limit now (suc n) s started empty =
      let before = burst limit now (suc n) s in
      rw (check_rpm-state redis false now limit before)
        (pipeline-again now before started (burst-HoldsOne limit now n s started empty)).1

  -- All requests of a key in one millisecond are one member of its set: with a limit of two or
  -- more, after any number of them from an empty set, the next is still admitted.
  pub burst_admitted :
      (limit now n : ℕ) (s : ZSet)
      → 1 < limit
      → 0 < now
      → entries s ≡ []
      → (check_rpm redis none false now (pos limit) (burst (pos limit) now (suc n) s)).0
        ≡ some (record { allowed = true; remaining = pos limit -ℤ pos 1; retry_after = 0 })
  unfolding check_rpm
  burst_admitted limit now n s many started empty =
      let before = burst (pos limit) now (suc n) s in
      let (one, _) =
        pipeline-again now before started (burst-HoldsOne (pos limit) now n s started empty) in
      let room : leb_ℤ (pos limit) (pos 1) ≡ false = ground arith in rw (one, room)

-- The retry time of a rejected request is the age of the oldest entry. Where that age is a second
-- or more and under half a minute, the oldest entry is still in the window when that time is over.
pub retry_of_short :
    (now : ℕ) (oldest : Entry)
    → second ≤ now - oldest.score
    → 2 * (now - oldest.score) < minute
    → (retry_of now (some oldest) ≡ now - oldest.score)
      × (now + retry_of now (some oldest) < oldest.score + minute)
retry_of_short now oldest old young = ground arith
