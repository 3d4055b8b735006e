-- ===== src/Routing/Candidates.antt =====
-- Candidates of a model and their order (sortCandidates in backend/internal/router/model_router.go,
-- GetActiveRoutingPolicy in backend/internal/storage/store.go).
use ai_aggregator.Prelude.{
  ℕ, Bool, true, false, ◌&&◌, ◌||◌, not, String, Option, none, some, List, if◌then◌else◌, lookup,
  str_eq,
}
use ai_aggregator.Prelude.Best.{best}
use ai_aggregator.Prelude.Int.{ℤ, pos, ltb_ℤ, ◌+ℤ◌, ◌*ℤ◌}
use ai_aggregator.Float.{Float, fle}
use ai_aggregator.Routing.Sort.{stable_sort}

-- storage.ProviderBinding, without the timeout, the retries and the time of the last check, which
-- the router does not read.
pub record Binding (F : Type 0) : Type 0 where
  pub provider_id : String
  pub priority : ℤ
  pub upstream_model : String
  pub cost_multiplier : F
  pub is_enabled : Bool
  pub health_status : String

-- storage.RoutingPolicy, and storage.ProviderRoutingStats.
pub record Policy (F : Type 0) : Type 0 where
  pub scope : String
  pub scope_id : String
  pub strategy : String
  pub latency_weight : F
  pub cost_weight : F
  pub error_weight : F
  pub is_enabled : Bool

pub record Stat (F : Type 0) : Type 0 where
  pub avg_latency_ms : F
  pub error_rate : F

-- The WHERE and the CASE of GetActiveRoutingPolicy.
abbrev pub policy_rank : {F : Type 0} → String → String → Policy F → Option ℕ
policy_rank model_id workspace_id p =
    if p.is_enabled
    then if str_eq p.scope "model" && str_eq p.scope_id model_id
      then some 1
      else if str_eq p.scope "workspace" && str_eq p.scope_id workspace_id
      then some 2
      else if str_eq p.scope "global" && str_eq p.scope_id ""
      then some 3
      else none
    else none

-- GetActiveRoutingPolicy over the rows, the last updated first; `none` is an error or no policy,
-- which sortCandidates treats alike.
unfoldable pub active_policy :
    {F : Type 0} → Option (List (Policy F)) → String → String → Option (Policy F)
active_policy none model_id workspace_id = none
active_policy (some rows) model_id workspace_id =
    elim (best (policy_rank model_id workspace_id) rows) [ none ↦ none | some (_, p) ↦ some p ]

abbrev pub less_priority : {F : Type 0} → Binding F → Binding F → Bool
less_priority a b = ltb_ℤ a.priority b.priority

module _ (fl : Float) where
  open fl use {F, add, mul, of_ℤ, flt, feq}

  abbrev thousand : F
  thousand = of_ℤ (pos 1000)

  abbrev zero_stat : Stat F
  zero_stat = record { avg_latency_ms = of_ℤ (pos 0); error_rate = of_ℤ (pos 0) }

  abbrev stat_of : List (String × Stat F) → String → Stat F
  stat_of stats id = elim (lookup id stats) [ none ↦ zero_stat | some st ↦ st ]

  abbrev is_known : List (String × Stat F) → String → Bool
  is_known stats id = elim (lookup id stats) [ none ↦ false | some _ ↦ true ]

  -- The latency of the score: a guess by priority where there are no stats.
  abbrev latency_of : List (String × Stat F) → Binding F → F
  latency_of stats b =
      let latency = (stat_of stats b.provider_id).avg_latency_ms in
      if is_known stats b.provider_id && not (fle fl latency (of_ℤ (pos 0)))
      then latency
      else of_ℤ (pos 1000 +ℤ b.priority *ℤ pos 100)

  abbrev pub cost_of : Binding F → F
  cost_of b = if fle fl b.cost_multiplier (of_ℤ (pos 0)) then of_ℤ (pos 1) else b.cost_multiplier

  -- The closure `score` of sortCandidates.
  unfoldable pub score : Policy F → List (String × Stat F) → Binding F → F
  score policy stats b =
      let latency = latency_of stats b in
      let cost = cost_of b in
      let error_rate = (stat_of stats b.provider_id).error_rate in
      let priority = of_ℤ b.priority in
      if str_eq policy.strategy "cost"
      then add (mul cost thousand) priority
      else if str_eq policy.strategy "latency"
      then add latency priority
      else if str_eq policy.strategy "balanced"
      then add
          (add
            (add (mul latency policy.latency_weight) (mul (mul cost thousand) policy.cost_weight))
            (mul (mul error_rate thousand) policy.error_weight))
          priority
      else priority

  abbrev pub less_score : Policy F → List (String × Stat F) → Binding F → Binding F → Bool
  less_score policy stats a b =
      if feq (score policy stats a) (score policy stats b)
      then less_priority a b
      else flt (score policy stats a) (score policy stats b)

  -- policy == nil || policy.Strategy == "" || policy.Strategy == "priority"
  abbrev pub is_by_priority : Option (Policy F) → Bool
  is_by_priority none = true
  is_by_priority (some p) = str_eq p.strategy "" || str_eq p.strategy "priority"

  -- The comparison that sortCandidates sorts by; the stats are `none` for an error.
  abbrev pub ranking :
      Option (Policy F) → Option (List (String × Stat F)) → Binding F → Binding F → Bool
  ranking none stats = less_priority
  ranking (some p) none = less_priority
  ranking (some p) (some stats) =
      if is_by_priority (some p) then less_priority else less_score p stats

  -- sortCandidates
  unfoldable pub sort_candidates :
      Option (Policy F) → Option (List (String × Stat F)) → List (Binding F) → List (Binding F)
  sort_candidates policy stats bs = stable_sort (ranking policy stats) bs
