-- ===== src/RateLimit/Tests.antt =====
-- The limiter over a list for a sorted set and a pair for a counter, at concrete requests.
use ai_aggregator.Prelude.{
  ℕ, suc, ◌+◌, ◌-◌, ◌≤◌, ◌<◌, ◌≡◌, refl, Bool, true, false, Option, none, some, List, [], ◌∷◌,
  arith, if◌then◌else◌, length, count, any, ltb, not, String,
}
use ai_aggregator.Prelude.Int.{ℤ, pos, leb_ℤ, ◌+ℤ◌, ◌-ℤ◌}
use ai_aggregator.Http.{Ctx, Outcome, Handler, no_locals, no_body}
use ai_aggregator.RateLimit.{
  Entry, is_member, is_entry, is_after, filter_entries, Redis, minute, check_rpm, rate_limit,
}
use ai_aggregator.RateLimit.Window.{
  since, admits, admits_iff_since, admitted_since, admitted-le-limit,
}
use ai_aggregator.RateLimit.Retry.{burst, burst_admitted}
use ai_aggregator.RateLimit.Tokens.{
  Counters, check_token_limit, run_tokens, check_token_limit-total,
}

abbrev set_score : ℕ → ℕ × ℕ → List Entry → List Entry
set_score score m [] = []
set_score score m (e ∷ es) =
    (if is_member m e then record e { score = score } else e) ∷ set_score score m es

abbrev add_entry : ℕ → ℕ × ℕ → List Entry → List Entry
add_entry score m es =
    if any (is_member m) es
    then if any (is_entry score m) es then es else set_score score m es
    else record { score = score; member = m } ∷ es

abbrev first_entry : List Entry → Option Entry
first_entry [] = none
first_entry (e ∷ []) = some e
first_entry (e ∷ es) = first_entry es

any-is_member :
    (score : ℕ) (m : ℕ × ℕ) (es : List Entry)
    → any (is_entry score m) es ≡ true
    → any (is_member m) es ≡ true
any-is_member score m [] h = h
any-is_member score m (e ∷ es) h = ground (arith, any-is_member score m es)

add_entry-new :
    (score : ℕ) (m : ℕ × ℕ) (es : List Entry)
    → any (is_member m) es ≡ false
    → (p : Entry → Bool)
    → count p (add_entry score m es) ≡ count p (record { score = score; member = m } ∷ es)
add_entry-new score m es h p = rw h

add_entry-old :
    (score : ℕ) (m : ℕ × ℕ) (es : List Entry)
    → any (is_entry score m) es ≡ true
    → (p : Entry → Bool) → count p (add_entry score m es) ≡ count p es
add_entry-old score m es h p = rw (any-is_member score m es h, h)

abbrev list_redis : Redis
list_redis = record {
  ZSet = List Entry;
  entries = λ s. s;
  zrem_range_by_score = λ max s. filter_entries (is_after max) s;
  zcard = λ s. length s;
  zadd = add_entry;
  zrange_first = first_entry;
  entries-zrem = λ max s. refl;
  zcard_lem = λ s. refl;
  entries-zadd_new = add_entry-new;
  entries-zadd_old = add_entry-old;
}

abbrev history : List ℕ
history = 61500 ∷ 60500 ∷ 1000 ∷ []

admits_iff_since_example :
    admits list_redis (pos 2) [] 62000 history
    ≡ not (leb_ℤ (pos 2) (pos (since (62000 - minute) history)))
admits_iff_since_example =
    admits_iff_since list_redis (pos 2) [] 62000 history refl (omega arith) (omega arith)

admitted-le-limit_example :
    admitted_since list_redis (pos 2) [] (62000 - minute) (62000 ∷ history) ≤ 2
admitted-le-limit_example =
    admitted-le-limit list_redis 2 [] 62000 history refl (omega arith) (omega arith)

burst_admitted_example :
    (check_rpm list_redis none false 70000 (pos 2) (burst list_redis (pos 2) 70000 100 [])).0
    ≡ some (record { allowed = true; remaining = pos 2 -ℤ pos 1; retry_after = 0 })
burst_admitted_example = burst_admitted list_redis 2 70000 99 [] (omega arith) (omega arith) refl

abbrev oldest : Entry
oldest = record { score = 60000; member = (60000, 60000) }

-- A counter: its value, and the time up to which it lives.
abbrev read_pair : ℕ → ℤ × ℕ → ℤ
read_pair now (v, e) = if ltb now e then v else pos 0

read_pair-incr :
    (now : ℕ) (n : ℤ) (c : ℤ × ℕ)
    → read_pair now (read_pair now c +ℤ n, now + 1 + c.1) ≡ read_pair now c +ℤ n
read_pair-incr now n c = ground arith

read_pair-expire :
    (now ttl later : ℕ) (c : ℤ × ℕ)
    → now ≤ later
    → later < now + ttl
    → read_pair later (read_pair now c, now + ttl) ≡ read_pair now c
read_pair-expire now ttl later c p q = ground arith

abbrev pair_counters : Counters
pair_counters = record {
  Counter = ℤ × ℕ;
  read = read_pair;
  incr_by = λ now n c. (read_pair now c +ℤ n, now + 1 + c.1);
  expire = λ now ttl c. (read_pair now c, now + ttl);
  read-incr_by = read_pair-incr;
  read-expire = read_pair-expire;
}

abbrev zero_counter : ℤ × ℕ
zero_counter = (pos 0, 0)

zero_counter-fresh : (t : ℕ) → read_pair t zero_counter ≡ pos 0
zero_counter-fresh t = ground arith

-- 60 tokens each minute, with a limit of 100: the second request is rejected after a minute.
check_token_limit-total_example :
    (check_token_limit pair_counters none 160000
      (pos 0)
      (pos 60)
      (pos 100)
      (run_tokens pair_counters (pos 0) (pos 100) ((100000, 59) ∷ []) zero_counter)).0
    ≡ false
check_token_limit-total_example =
    check_token_limit-total pair_counters (pos 0) (pos 100) 100000 zero_counter refl
      zero_counter-fresh ((100000, 59) ∷ []) 160000 59 (omega arith)

abbrev request : Option String → Ctx
request key = record {
  authorization = "";
  request_id = "";
  locals = record no_locals { api_key_id = key };
  status = 200;
  headers = [];
  body = no_body;
}

abbrev counting : Handler ((String → List Entry) × ℕ)
counting c (sets, n) = record { error = none; ctx = c; world = (sets, suc n) }

-- A limit of 1: the first request runs the handler, a second is answered by 429, and a caller
-- without a key is not counted.
abbrev limited : Option String → (String → List Entry) × ℕ → Outcome ((String → List Entry) × ℕ)
limited key w = rate_limit list_redis none false 70000 (pos 1) counting (request key) w

rate_limit_tests :
    let first = limited (some "k") (λ _. [], 0) in
    let second_try = limited (some "k") first.world in
    (first.world.1 ≡ 1)
    × (second_try.world.1 ≡ 1)
    × (second_try.ctx.status ≡ 429)
    × ((limited none second_try.world).world.1 ≡ 2)
unfolding rate_limit
rate_limit_tests = (refl, refl, refl, refl)
