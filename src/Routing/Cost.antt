-- ===== src/Routing/Cost.antt =====
-- The strategy "cost" of sortCandidates (backend/internal/router/model_router.go), where the costs
-- are whole numbers.
use mathlib.Core.List.{Perm}
use ai_aggregator.Prelude.{
  ℕ, ◌+◌, ◌*◌, ◌≤◌, ◌<◌, ◌≡◌, refl, sym, ◌∙◌, ◌⊎◌, false, ◌||◌, not, String, some, List, [], ◌∷◌,
  All, arith, ltb, if◌then◌else◌, eq_iff,
}
use ai_aggregator.Prelude.Int.{pos, ltb_ℤ}
use ai_aggregator.Float.{Float}
use ai_aggregator.Routing.Sort.{IsSorted}
use ai_aggregator.Routing.Candidates.{
  Binding, Policy, Stat, cost_of, score, less_score, is_by_priority, ranking, sort_candidates,
}
use ai_aggregator.Routing.Order.{IsRanked, sort_candidates-IsSorted}

-- A float64 has 53 bits: whole numbers up to this are exact, and so are their sums and products
-- that are no larger.
abbrev pub exact_limit : ℕ
exact_limit = 9007199254740992

-- The comparison of two keys, with the priorities where they are equal.
keys-order :
    (m p n q : ℕ)
    → p < 1000
    → q < 1000
    → (if not (ltb (n * 1000 + q) (m * 1000 + p) || ltb (m * 1000 + p) (n * 1000 + q))
        then ltb_ℤ (pos q) (pos p)
        else ltb (n * 1000 + q) (m * 1000 + p))
      ≡ false
    → (m < n) ⊎ ((m ≡ n) × (p ≤ q))
keys-order m p n q hp hq h = ground arith

module _ (fl : Float) where
  open fl use {F, add, mul, of_ℤ, flt, feq, IsNumber}

  pub record IsExact : Type 0 where
    pub is_number : (a : ℕ) → a ≤ exact_limit → IsNumber (of_ℤ (pos a))
    pub add_exact :
        (a b : ℕ) → a + b ≤ exact_limit → add (of_ℤ (pos a)) (of_ℤ (pos b)) ≡ of_ℤ (pos (a + b))
    pub mul_exact :
        (a b : ℕ) → a * b ≤ exact_limit → mul (of_ℤ (pos a)) (of_ℤ (pos b)) ≡ of_ℤ (pos (a * b))
    pub flt_exact :
        (a b : ℕ) → a ≤ exact_limit → b ≤ exact_limit → flt (of_ℤ (pos a)) (of_ℤ (pos b)) ≡ ltb a b

  -- A binding with this cost multiplier and this priority, in range.
  pub record IsPriced (b : Binding F) (cost priority : ℕ) : Type 0 where
    pub multiplier : b.cost_multiplier ≡ of_ℤ (pos cost)
    pub rank : b.priority ≡ pos priority
    pub positive : 0 < cost
    pub cost_bound : cost ≤ 1000000
    pub priority_bound : priority < 1000

  abbrev pub HasPrice : Binding F → Type 0
  HasPrice b = (cost : ℕ) × (priority : ℕ) × IsPriced b cost priority

  -- The first is no dearer, and of two with one cost has no higher number as its priority.
  abbrev pub IsNoDearer : Binding F → Binding F → Type 0
  IsNoDearer a b = (m p n q : ℕ) → IsPriced a m p → IsPriced b n q → (m < n) ⊎ ((m ≡ n) × (p ≤ q))

  -- Each is no dearer than those after it.
  abbrev pub IsByCost : List (Binding F) → Type 0
  IsByCost [] = Unit
  IsByCost (b ∷ bs) = All (λ x. IsNoDearer b x) bs × IsByCost bs

  module _ (exact : IsExact) (policy : Policy F) (stats : List (String × Stat F))
      (by_cost : policy.strategy ≡ "cost") where
    feq_exact :
        (a b : ℕ)
        → a ≤ exact_limit
        → b ≤ exact_limit
        → feq (of_ℤ (pos a)) (of_ℤ (pos b)) ≡ not (ltb a b || ltb b a)
    feq_exact a b h k =
        fl.feq_def _ _ (exact.is_number a h) (exact.is_number b k)
        ∙ rw (exact.flt_exact a b h k, exact.flt_exact b a k h) refl

    cost-IsPriced : (b : Binding F) (m p : ℕ) → IsPriced b m p → cost_of fl b ≡ of_ℤ (pos m)
    cost-IsPriced b m p h =
        let positive = h.positive in
        let bound = h.cost_bound in
        rw
          (
            h.multiplier,
            exact.flt_exact m 0 (omega arith) (omega arith),
            feq_exact m 0 (omega arith) (omega arith),
          )
          (ground arith)

    score-IsPriced :
        (b : Binding F) (m p : ℕ)
        → IsPriced b m p
        → score fl policy stats b ≡ of_ℤ (pos (m * 1000 + p))
    unfolding score
    score-IsPriced b m p h =
        let positive = h.positive in
        let bound = h.cost_bound in
        let below = h.priority_bound in
        let strategy = (eq_iff policy.strategy "cost").1 by_cost in
        rw (score, strategy, cost-IsPriced b m p h, h.rank)
          (rw (exact.mul_exact m 1000 (omega arith)) (exact.add_exact (m * 1000) p (omega arith)))

    less-IsPriced :
        (a b : Binding F) (m p n q : ℕ)
        → IsPriced a m p
        → IsPriced b n q
        → less_score fl policy stats b a ≡ false
        → (m < n) ⊎ ((m ≡ n) × (p ≤ q))
    less-IsPriced a b m p n q h k less =
        let x = n * 1000 + q in
        let y = m * 1000 + p in
        let hc = h.cost_bound in
        let hp = h.priority_bound in
        let kc = k.cost_bound in
        let kp = k.priority_bound in
        let hx : x ≤ exact_limit = omega arith in
        let hy : y ≤ exact_limit = omega arith in
        keys-order m p n q hp kp (
          rw
            (
              score-IsPriced a m p h,
              score-IsPriced b n q k,
              h.rank,
              k.rank,
              feq_exact x y hx hy,
              exact.flt_exact x y hx hy,
            )
            at less)

    ranking-score :
        (a b : Binding F)
        → ranking fl (some policy) (some stats) a b ≡ less_score fl policy stats a b
    ranking-score a b =
        let scored : is_by_priority fl (some policy) ≡ false = rw by_cost refl in rw scored refl

    later-IsNoDearer :
        (x : Binding F) (ys : List (Binding F))
        → All (λ y. ranking fl (some policy) (some stats) y x ≡ false) ys
        → All (λ y. IsNoDearer x y) ys
    later-IsNoDearer x [] h = tt
    later-IsNoDearer x (y ∷ ys) (e, h) = (
      λ m p n q a b. less-IsPriced x y m p n q a b (sym (ranking-score y x) ∙ e),
      later-IsNoDearer x ys h,
    )

    sorted-IsByCost :
        (bs : List (Binding F)) → IsSorted (ranking fl (some policy) (some stats)) bs → IsByCost bs
    sorted-IsByCost [] h = tt
    sorted-IsByCost (b ∷ bs) (e, h) = (later-IsNoDearer b bs e, sorted-IsByCost bs h)

    priced-IsRanked :
        (bs : List (Binding F)) → All HasPrice bs → All (IsRanked fl (some policy) (some stats)) bs
    priced-IsRanked [] h = tt
    priced-IsRanked (b ∷ bs) ((m, p, priced), h) =
        let hc = priced.cost_bound in
        let hp = priced.priority_bound in
        let number : IsNumber (score fl policy stats b) =
          rw (score-IsPriced b m p priced) (exact.is_number (m * 1000 + p) (omega arith)) in
        (number, priced-IsRanked bs h)

    -- Under the strategy "cost", for bindings whose multipliers are whole numbers from 1 to 1000000
    -- and whose priorities are from 0 to 999, and where floats are exact on whole numbers up to
    -- 2^53, sortCandidates reorders the bindings so that each costs no more than those after it, and
    -- of two with one cost the lower priority number comes first.
    pub sort_candidates-IsByCost :
        (bs : List (Binding F))
        → All HasPrice bs
        → Perm (sort_candidates fl (some policy) (some stats) bs) bs
          × IsByCost (sort_candidates fl (some policy) (some stats) bs)
    sort_candidates-IsByCost bs h =
        let (perm, sorted) =
          sort_candidates-IsSorted fl (some policy) (some stats) bs (priced-IsRanked bs h) in
        (perm, sorted-IsByCost (sort_candidates fl (some policy) (some stats) bs) sorted)
