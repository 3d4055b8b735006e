-- ===== src/Routing/Workspace.antt =====
-- The routing policies that workspaces have (sortCandidates and RouteAllForRequest in
-- backend/internal/router/model_router.go, GetActiveRoutingPolicy in backend/internal/storage/store.go).
use ai_aggregator.Prelude.{
  ℕ, ap, ◌≡◌, refl, ◌≢◌, false, String, Option, none, some, List, [], ◌∷◌, ◌++◌, arith, Bool-cases,
  lookup, str_eq, eq_iff, ◌∙◌, inl, inr,
}
use ai_aggregator.Prelude.Best.{best}
use ai_aggregator.Float.{Float}
use ai_aggregator.Routing.Candidates.{Binding, Policy, policy_rank, active_policy, sort_candidates}
use ai_aggregator.Routing.Registry.{
  Store, Router, ModelEntry, refresh_registry, resolve_key, key_from_env, adapter_for_request,
}
use ai_aggregator.Routing.Selection.{
  candidates, cons_some, routing_of, route_of, routes_of, some_route, route_all_for_request,
}

-- A row of no rank is as if it were not there.
best-without :
    {A : Type 0} (rank : A → Option ℕ) (row : A)
    → rank row ≡ none
    → (xs ys : List A) → best rank (xs ++ row ∷ ys) ≡ best rank (xs ++ ys)
unfolding best
best-without rank row e [] ys = rw e refl
best-without rank row e (x ∷ xs) ys = rw (best-without rank row e xs ys, best) refl

not_empty : (s : String) → s ≢ "" → str_eq s "" ≡ false
not_empty s h = ground (arith, eq_iff s "")

workspace_rank :
    {F : Type 0} (model_id : String) (row : Policy F)
    → row.scope ≡ "workspace"
    → row.scope_id ≢ ""
    → policy_rank model_id "" row ≡ none
workspace_rank model_id row s i =
    let e : str_eq row.scope_id "" ≡ false = not_empty row.scope_id i in
    elim (Bool-cases row.is_enabled) [ inl on ↦ rw (on, s, e) refl | inr off ↦ rw off refl ]

-- The store with other policies.
abbrev pub with_policies : {F : Type 0} → List (Policy F) → Store F → Store F
with_policies rows db = record db { policies = some rows }

module _ (fl : Float) (db : Store fl.F) (ps qs : List (Policy fl.F)) where
  route_of-policies :
      (r : Router fl.F) (model_id user_id workspace_id : String) (b : Binding fl.F)
      → route_of fl (with_policies ps db) r model_id user_id workspace_id b
        ≡ route_of fl (with_policies qs db) r model_id user_id workspace_id b
  unfolding route_of adapter_for_request resolve_key key_from_env
  route_of-policies r model_id user_id workspace_id b = refl

  routes_of-policies :
      (r : Router fl.F) (model_id user_id workspace_id : String) (bs : List (Binding fl.F))
      → routes_of fl (with_policies ps db) r model_id user_id workspace_id bs
        ≡ routes_of fl (with_policies qs db) r model_id user_id workspace_id bs
  unfolding routes_of
  routes_of-policies r model_id user_id workspace_id [] = refl
  routes_of-policies r model_id user_id workspace_id (b ∷ bs) =
      let one = route_of-policies r model_id user_id workspace_id b in
      let rest = routes_of-policies r model_id user_id workspace_id bs in
      ap (λ o. cons_some o (routes_of fl (with_policies ps db) r model_id user_id workspace_id bs))
        one
      ∙ ap (cons_some (route_of fl (with_policies qs db) r model_id user_id workspace_id b)) rest

module _ (fl : Float) (db : Store fl.F) (row : Policy fl.F) (xs ys : List (Policy fl.F)) where
  policy-without :
      (model_id : String)
      → row.scope ≡ "workspace"
      → row.scope_id ≢ ""
      → active_policy (some (xs ++ row ∷ ys)) model_id ""
        ≡ active_policy (some (xs ++ ys)) model_id ""
  unfolding active_policy
  policy-without model_id s i =
      rw
        (
          best-without (policy_rank model_id "") row (workspace_rank model_id row s i) xs ys,
          active_policy,
        )
        refl

  candidates-without :
      (model_id : String) (entry : ModelEntry fl.F)
      → row.scope ≡ "workspace"
      → row.scope_id ≢ ""
      → candidates fl (with_policies (xs ++ row ∷ ys) db) model_id entry
        ≡ candidates fl (with_policies (xs ++ ys) db) model_id entry
  unfolding candidates
  candidates-without model_id entry s i =
      ap (λ p. sort_candidates fl p (db.stats model_id) entry.providers)
        (policy-without model_id s i)

  routing_of-without :
      (r : Router fl.F) (model_id user_id workspace_id : String) (o : Option (ModelEntry fl.F))
      → row.scope ≡ "workspace"
      → row.scope_id ≢ ""
      → routing_of fl (with_policies (xs ++ row ∷ ys) db) r model_id user_id workspace_id o
        ≡ routing_of fl (with_policies (xs ++ ys) db) r model_id user_id workspace_id o
  routing_of-without r model_id user_id workspace_id none s i = refl
  routing_of-without r model_id user_id workspace_id (some entry) s i =
      ap
        (λ bs.
          some_route
            (routes_of fl (with_policies (xs ++ row ∷ ys) db) r model_id user_id workspace_id bs))
        (candidates-without model_id entry s i)
      ∙ ap some_route (
          routes_of-policies fl db (xs ++ row ∷ ys) (xs ++ ys) r model_id user_id workspace_id
            (candidates fl (with_policies (xs ++ ys) db) model_id entry))

  -- A routing policy of a workspace plays no part: with or without its row, RouteAllForRequest
  -- gives the same routes to every caller, those of that workspace too.
  pub route_all_for_request-policy :
      (r : Router fl.F) (model_id user_id workspace_id : String)
      → row.scope ≡ "workspace"
      → row.scope_id ≢ ""
      → route_all_for_request fl (with_policies (xs ++ row ∷ ys) db) model_id user_id workspace_id r
        ≡ route_all_for_request fl (with_policies (xs ++ ys) db) model_id user_id workspace_id r
  unfolding route_all_for_request refresh_registry
  route_all_for_request-policy r model_id user_id workspace_id s i =
      let r' = (refresh_registry db r).1 in
      ap (λ t. (t, r'))
        (routing_of-without r' model_id user_id workspace_id (lookup model_id r'.models) s i)
