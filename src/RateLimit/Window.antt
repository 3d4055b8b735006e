-- ===== src/RateLimit/Window.antt =====
-- checkRPM is a sliding window, as long as no two requests of a key fall into one millisecond
-- (backend/internal/ratelimit/limiter.go).
use mathlib.Core.Path.{fun_ext}
use ai_aggregator.Prelude.{
  ℕ, suc, ◌-◌, ◌≤◌, ◌<◌, ◌≡◌, refl, ap, ◌∙◌, Bool, true, false, none, some, List, [], ◌∷◌, map,
  arith, if◌then◌else◌, ltb, length, count, any, not, ◌&&◌, All,
}
use ai_aggregator.Prelude.Int.{ℤ, pos, leb_ℤ}
use ai_aggregator.RateLimit.{
  Entry, is_member, is_after, filter_entries, Redis, minute, member_at, pipeline, check_rpm,
}

-- Counting in a filtered list.
pub count-filter :
    (p q : Entry → Bool) (es : List Entry)
    → count p (filter_entries q es) ≡ count (λ e. p e && q e) es
count-filter p q [] = refl
count-filter p q (e ∷ es) = ground (arith, count-filter p q es)

pub length-eq-count : (es : List Entry) → length es ≡ count (λ _. true) es
length-eq-count [] = refl
length-eq-count (e ∷ es) = ap suc (length-eq-count es)

pub any-of_count : (p : Entry → Bool) (es : List Entry) → count p es ≡ 0 → any p es ≡ false
any-of_count p [] h = refl
any-of_count p (e ∷ es) h = ground (arith, any-of_count p es)

-- The entries of requests at the given times.
unfoldable pub entry_at : ℕ → Entry
entry_at t = record { score = t; member = member_at t }

abbrev recorded : List ℕ → List Entry
recorded ts = map entry_at ts

-- Times, newest first, no two alike.
abbrev pub IsHistory : List ℕ → Type 0
IsHistory [] = Unit
IsHistory (t ∷ ts) = All (λ u. u < t) ts × IsHistory ts

-- How many of the times lie after `cut`.
abbrev pub since : ℕ → List ℕ → ℕ
since cut ts = count (ltb cut) ts

count-recorded : (cut : ℕ) (ts : List ℕ) → count (is_after cut) (recorded ts) ≡ since cut ts
unfolding entry_at
count-recorded cut [] = refl
count-recorded cut (t ∷ ts) = ground (arith, count-recorded cut ts)

-- No earlier request has the member of a request at `now`.
not-member_at :
    (now : ℕ) (q : Entry → Bool) (ts : List ℕ)
    → All (λ u. u < now) ts
    → count (λ e. is_member (member_at now) e && q e) (recorded ts) ≡ 0
unfolding entry_at
not-member_at now q [] h = refl
not-member_at now q (t ∷ ts) h = ground (arith, not-member_at now q ts h.1)

module _ (redis : Redis) where
  open redis use {ZSet, entries, zrem_range_by_score, zcard, zadd}

  -- The set holds the requests of the history after `cut`, and no others.
  abbrev Holds : ℕ → List ℕ → ZSet → Type 0
  Holds cut ts s =
      (p : Entry → Bool) → count p (entries s) ≡ count (λ e. p e && is_after cut e) (recorded ts)

  narrow :
      (cut cut' : ℕ) (p : Entry → Bool)
      → cut ≤ cut'
      → (e : Entry) → ((p e && is_after cut' e) && is_after cut e) ≡ (p e && is_after cut' e)
  narrow cut cut' p h e = ground arith

  live-Holds :
      (cut cut' : ℕ) (ts : List ℕ) (s : ZSet)
      → cut ≤ cut'
      → Holds cut ts s
      → Holds cut' ts (zrem_range_by_score cut' s)
  live-Holds cut cut' ts s h holds p = rw (
    redis.entries-zrem cut' s,
    count-filter p (is_after cut') (entries s),
    holds (λ e. p e && is_after cut' e),
    fun_ext (narrow cut cut' p h),
  )

  pipeline-count :
      (cut now : ℕ) (ts : List ℕ) (s : ZSet)
      → cut ≤ now - minute
      → Holds cut ts s
      → (pipeline redis now s).0 ≡ since (now - minute) ts
  unfolding pipeline
  pipeline-count cut now ts s h holds =
      let live = zrem_range_by_score (now - minute) s in
      redis.zcard_lem live
      ∙ length-eq-count (entries live)
      ∙ live-Holds cut (now - minute) ts s h holds (λ _. true)
      ∙ count-recorded (now - minute) ts

  pipeline-Holds :
      (cut now : ℕ) (ts : List ℕ) (s : ZSet)
      → cut ≤ now - minute
      → All (λ u. u < now) ts
      → 0 < now
      → Holds cut ts s
      → Holds (now - minute) (now ∷ ts) (pipeline redis now s).1
  unfolding pipeline entry_at
  pipeline-Holds cut now ts s h later started holds p =
      let live = zrem_range_by_score (now - minute) s in
      let held = live-Holds cut (now - minute) ts s h holds in
      let fresh =
        any-of_count (is_member (member_at now)) (entries live) (
          held (is_member (member_at now))
          ∙ not-member_at now (is_after (now - minute)) ts later) in
      ground (arith, redis.entries-zadd_new now (member_at now) live fresh p, held p)

  -- The set after the requests of a history, from the set `s`.
  pub run_rpm : ℤ → List ℕ → ZSet → ZSet
  run_rpm limit [] s = s
  run_rpm limit (t ∷ ts) s = (check_rpm redis none false t limit (run_rpm limit ts s)).1

  -- Whether checkRPM admits a request at `now` after the requests of a history.
  pub admits : ℤ → ZSet → ℕ → List ℕ → Bool
  admits limit s now ts = elim (check_rpm redis none false now limit (run_rpm limit ts s)).0 [
    | none ↦ false
    | some check ↦ check.allowed
  ]

  pub check_rpm-state :
      (range_fails : Bool) (now : ℕ) (limit : ℤ) (s : ZSet)
      → (check_rpm redis none range_fails now limit s).1 ≡ (pipeline redis now s).1
  unfolding check_rpm
  check_rpm-state range_fails now limit s = ground arith

  -- The oldest time that the window of the newest request reaches back to.
  abbrev cut_of : List ℕ → ℕ
  cut_of [] = 0
  cut_of (t ∷ ts) = t - minute

  cut_of-le : (now : ℕ) (ts : List ℕ) → All (λ u. u < now) ts → cut_of ts ≤ now - minute
  cut_of-le now [] h = omega arith
  cut_of-le now (t ∷ ts) h = omega arith

  run_rpm-Holds :
      (limit : ℤ) (s : ZSet) (ts : List ℕ)
      → entries s ≡ []
      → IsHistory ts
      → All (λ u. 0 < u) ts
      → Holds (cut_of ts) ts (run_rpm limit ts s)
  unfolding run_rpm
  run_rpm-Holds limit s [] empty h started = λ p. rw empty
  run_rpm-Holds limit s (t ∷ ts) empty (later, h) (first, started) =
      rw (check_rpm-state false t limit (run_rpm limit ts s)) (
        pipeline-Holds (cut_of ts) t ts (run_rpm limit ts s) (cut_of-le t ts later) later first
          (run_rpm-Holds limit s ts empty h started))

  admits-pipeline :
      (limit : ℤ) (now : ℕ) (ts : List ℕ) (s : ZSet)
      → admits limit s now ts ≡ not (leb_ℤ limit (pos (pipeline redis now (run_rpm limit ts s)).0))
  unfolding admits check_rpm
  admits-pipeline limit now ts s = ground arith

  -- A request is admitted exactly when fewer than `limit` requests of the same key, admitted or
  -- not, came in the minute before it. The set is empty at first, times are in milliseconds,
  -- and no two requests share one.
  pub admits_iff_since :
      (limit : ℤ) (s : ZSet) (now : ℕ) (ts : List ℕ)
      → entries s ≡ []
      → IsHistory (now ∷ ts)
      → All (λ u. 0 < u) (now ∷ ts)
      → admits limit s now ts ≡ not (leb_ℤ limit (pos (since (now - minute) ts)))
  admits_iff_since limit s now ts empty (later, h) (first, started) =
      admits-pipeline limit now ts s
      ∙ ap (λ (n : ℕ). not (leb_ℤ limit (pos n)))
          (pipeline-count (cut_of ts) now ts (run_rpm limit ts s) (cut_of-le now ts later)
            (run_rpm-Holds limit s ts empty h started))

  -- The number of admitted requests of the history after `cut`.
  abbrev pub admitted_since : ℤ → ZSet → ℕ → List ℕ → ℕ
  admitted_since limit s cut [] = 0
  admitted_since limit s cut (t ∷ ts) =
      if ltb cut t && admits limit s t ts
      then suc (admitted_since limit s cut ts)
      else admitted_since limit s cut ts

  admitted_since-le :
      (limit : ℤ) (s : ZSet) (cut : ℕ) (ts : List ℕ) → admitted_since limit s cut ts ≤ since cut ts
  admitted_since-le limit s cut [] = omega arith
  admitted_since-le limit s cut (t ∷ ts) = ground (arith, admitted_since-le limit s cut ts)

  since_mono : (cut cut' : ℕ) (ts : List ℕ) → cut ≤ cut' → since cut' ts ≤ since cut ts
  since_mono cut cut' [] h = omega arith
  since_mono cut cut' (t ∷ ts) h = ground (arith, since_mono cut cut' ts h)

  admitted_since-le-limit :
      (limit : ℕ) (s : ZSet) (cut : ℕ) (ts : List ℕ)
      → entries s ≡ []
      → IsHistory ts
      → All (λ u. 0 < u) ts
      → cut_of ts ≤ cut
      → admitted_since (pos limit) s cut ts ≤ limit
  admitted_since-le-limit limit s cut [] empty h started within = omega arith
  admitted_since-le-limit limit s cut (t ∷ ts) empty (later, h) (first, started) within = ground (
    arith,
    admits_iff_since (pos limit) s t ts empty (later, h) (first, started),
    admitted_since-le (pos limit) s cut ts,
    since_mono (t - minute) cut ts within,
    admitted_since-le-limit limit s cut ts empty h started,
    cut_of-le t ts later,
  )

  -- In the minute up to a request at `now` at most `limit` requests of a key are admitted, that
  -- request included. The set is empty at first, and no two requests share a millisecond.
  pub admitted-le-limit :
      (limit : ℕ) (s : ZSet) (now : ℕ) (ts : List ℕ)
      → entries s ≡ []
      → IsHistory (now ∷ ts)
      → All (λ u. 0 < u) (now ∷ ts)
      → admitted_since (pos limit) s (now - minute) (now ∷ ts) ≤ limit
  admitted-le-limit limit s now ts empty h started =
      admitted_since-le-limit limit s (now - minute) (now ∷ ts) empty h started (omega arith)
