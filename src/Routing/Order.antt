-- ===== src/Routing/Order.antt =====
-- The order of the candidates of a model
-- (sortCandidates in backend/internal/router/model_router.go).
use mathlib.Core.List.{Perm}
use ai_aggregator.Prelude.{
  ◌≡◌, ◌∙◌, true, false, String, Option, none, some, List, All, arith, inl, inr, Bool-cases,
}
use ai_aggregator.Float.{Float}
use ai_aggregator.Routing.Sort.{IsSorted, IsWeakOrder, stable_sort-perm, stable_sort-IsSorted}
use ai_aggregator.Routing.Candidates.{
  Binding, Policy, Stat, less_priority, score, less_score, is_by_priority, ranking, sort_candidates,
}

less_priority-asym :
    {F : Type 0} (a b : Binding F) → less_priority a b ≡ true → less_priority b a ≡ false
less_priority-asym a b h = ground arith

less_priority-cotrans :
    {F : Type 0} (a b c : Binding F)
    → less_priority a b ≡ false
    → less_priority b c ≡ false
    → less_priority a c ≡ false
less_priority-cotrans a b c h k = ground arith

module _ (fl : Float) where
  open fl use {F, flt, feq, IsNumber}

  module _ (policy : Policy F) (stats : List (String × Stat F)) where
    -- The score is no NaN.
    abbrev pub IsScored : Binding F → Type 0
    IsScored b = IsNumber (score fl policy stats b)

    less_score-asym :
        (a b : Binding F)
        → IsScored a
        → IsScored b
        → less_score fl policy stats a b ≡ true
        → less_score fl policy stats b a ≡ false
    less_score-asym a b na nb h =
        let x = score fl policy stats a in
        let y = score fl policy stats b in
        ground (
          arith,
          fl.feq_def x y na nb,
          fl.feq_def y x nb na,
          fl.flt_asym x y na nb,
          fl.flt_asym y x nb na,
          less_priority-asym a b,
        )

    not-flt :
        (a b : Binding F)
        → IsScored a
        → IsScored b
        → less_score fl policy stats a b ≡ false
        → flt (score fl policy stats a) (score fl policy stats b) ≡ false
    not-flt a b na nb h =
        ground (arith, fl.feq_def (score fl policy stats a) (score fl policy stats b) na nb)

    prio-of_tie :
        (a b : Binding F)
        → IsScored a
        → IsScored b
        → flt (score fl policy stats b) (score fl policy stats a) ≡ false
        → less_score fl policy stats a b ≡ false
        → less_priority a b ≡ false
    prio-of_tie a b na nb back h = ground (
      arith,
      not-flt a b na nb h,
      fl.feq_def (score fl policy stats a) (score fl policy stats b) na nb,
    )

    less_score-cotrans :
        (a b c : Binding F)
        → IsScored a
        → IsScored b
        → IsScored c
        → less_score fl policy stats a b ≡ false
        → less_score fl policy stats b c ≡ false
        → less_score fl policy stats a c ≡ false
    less_score-cotrans a b c na nb nc h k =
        let x = score fl policy stats a in
        let y = score fl policy stats b in
        let z = score fl policy stats c in
        let xy = not-flt a b na nb h in
        let yz = not-flt b c nb nc k in
        let xz = fl.flt_cotrans x y z na nb nc xy yz in
        elim (Bool-cases (flt z x)) [
          | inl below ↦
              let apart : feq x z ≡ false = fl.feq_def x z na nc ∙ rw (xz, below) in rw (apart, xz)
          | inr tie ↦
              let yx = fl.flt_cotrans y z x nb nc na yz tie in
              let zy = fl.flt_cotrans z x y nc na nb tie xy in
              let same : feq x z ≡ true = fl.feq_def x z na nc ∙ rw (xz, tie) in
              rw same (
                less_priority-cotrans a b c (prio-of_tie a b na nb yx h)
                  (prio-of_tie b c nb nc zy k))
        ]

  -- What the order of the candidates needs: under a policy that scores, no score is NaN.
  abbrev pub IsRanked : Option (Policy F) → Option (List (String × Stat F)) → Binding F → Type 0
  IsRanked none stats b = Unit
  IsRanked (some p) none b = Unit
  IsRanked (some p) (some stats) b = IsNumber (score fl p stats b)

  ranking-IsWeakOrder :
      (policy : Option (Policy F)) (stats : Option (List (String × Stat F)))
      → IsWeakOrder (ranking fl policy stats) (IsRanked policy stats)
  ranking-IsWeakOrder none stats = record {
    asym = λ a b _ _ h. less_priority-asym a b h;
    cotrans = λ a b c _ _ _ h k. less_priority-cotrans a b c h k;
  }
  ranking-IsWeakOrder (some p) none = record {
    asym = λ a b _ _ h. less_priority-asym a b h;
    cotrans = λ a b c _ _ _ h k. less_priority-cotrans a b c h k;
  }
  ranking-IsWeakOrder (some p) (some stats) = elim (Bool-cases (is_by_priority fl (some p))) [
    | inl plain ↦ rw plain (record {
      asym = λ a b _ _ h. less_priority-asym a b h;
      cotrans = λ a b c _ _ _ h k. less_priority-cotrans a b c h k;
    })
    | inr scored ↦ rw scored (record {
      asym = λ a b na nb h. less_score-asym p stats a b na nb h;
      cotrans = λ a b c na nb nc h k. less_score-cotrans p stats a b c na nb nc h k;
    })
  ]

  -- sortCandidates reorders the bindings, and no binding is better by the policy than one before
  -- it: by score and then priority under the strategies cost, latency and balanced, by priority
  -- without a policy, with the strategy priority, or where the stats fail. No score may be NaN.
  pub sort_candidates-IsSorted :
      (policy : Option (Policy F)) (stats : Option (List (String × Stat F))) (bs : List (Binding F))
      → All (IsRanked policy stats) bs
      → Perm (sort_candidates fl policy stats bs) bs
        × IsSorted (ranking fl policy stats) (sort_candidates fl policy stats bs)
  unfolding sort_candidates
  sort_candidates-IsSorted policy stats bs h = (
    stable_sort-perm (ranking fl policy stats) bs,
    stable_sort-IsSorted (ranking fl policy stats) (IsRanked policy stats)
        (ranking-IsWeakOrder policy stats) bs h,
  )
