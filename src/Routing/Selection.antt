-- ===== src/Routing/Selection.antt =====
-- Route, RouteAllForRequest and the look-ups (backend/internal/router/model_router.go).
use ai_aggregator.Prelude.{
  Bool, ◌&&◌, ◌||◌, not, String, Option, none, some, List, [], ◌∷◌, if◌then◌else◌, lookup, str_eq,
}
use ai_aggregator.Float.{Float}
use ai_aggregator.Routing.Candidates.{Binding, active_policy, sort_candidates}
use ai_aggregator.Routing.Registry.{
  Adapter, ModelEntry, Store, Router, refresh_registry, adapter_for_request,
}

pub record RouteEntry : Type 0 where
  pub adapter : Adapter
  pub upstream_model : String
  pub provider_id : String
  pub credential_key_id : String
  pub credential_scope : String

pub data RouteError : Type 0 where
  model_not_found no_available_provider : RouteError

pub data Routed (A : Type 0) : Type 0 where
  ok : A → Routed A
  err : RouteError → Routed A

-- Neither disabled nor known to be down.
abbrev pub is_available : {F : Type 0} → Binding F → Bool
is_available b =
    b.is_enabled && not (str_eq b.health_status "down" || str_eq b.health_status "unhealthy")

abbrev pub upstream_of : {F : Type 0} → String → Binding F → String
upstream_of model_id b = if str_eq b.upstream_model "" then model_id else b.upstream_model

abbrev pub cons_some : Option RouteEntry → List RouteEntry → List RouteEntry
cons_some none es = es
cons_some (some e) es = e ∷ es

-- The result of RouteAllForRequest: an error where no route was found.
abbrev pub some_route : List RouteEntry → Routed (List RouteEntry)
some_route [] = err no_available_provider
some_route (e ∷ es) = ok (e ∷ es)

module _ (fl : Float) (db : Store fl.F) where
  -- The candidates of an entry as both operations sort them: with no workspace.
  unfoldable pub candidates : String → ModelEntry fl.F → List (Binding fl.F)
  candidates model_id entry =
      sort_candidates fl (active_policy db.policies model_id "") (db.stats model_id) entry.providers

  first_route : Router fl.F → String → List (Binding fl.F) → Routed (Adapter × String)
  first_route r model_id [] = err no_available_provider
  first_route r model_id (b ∷ bs) =
      let rest = first_route r model_id bs in
      if is_available b
      then elim (lookup b.provider_id r.adapters) [
        | none ↦ rest
        | some a ↦ ok (a, upstream_of model_id b)
      ]
      else rest

  -- Route; the registry is refreshed first, and a refresh that fails leaves the old one.
  unfoldable pub route : String → Router fl.F → Routed (Adapter × String) × Router fl.F
  unfolding first_route
  route model_id r =
      let (_, r') = refresh_registry db r in
      elim (lookup model_id r'.models) [
        | none ↦ (err model_not_found, r')
        | some entry ↦ (first_route r' model_id (candidates model_id entry), r')
      ]

  module _ (r : Router fl.F) (model_id user_id workspace_id : String) where
    -- One round of the loop of RouteAllForRequest.
    unfoldable pub route_of : Binding fl.F → Option RouteEntry
    route_of b =
        if is_available b
        then elim (adapter_for_request db r b.provider_id user_id workspace_id) [
          | none ↦ none
          | some (a, key_id, scope) ↦ some (record {
            adapter = a;
            upstream_model = upstream_of model_id b;
            provider_id = b.provider_id;
            credential_key_id = key_id;
            credential_scope = scope;
          })
        ]
        else none

    unfoldable pub routes_of : List (Binding fl.F) → List RouteEntry
    routes_of [] = []
    routes_of (b ∷ bs) = cons_some (route_of b) (routes_of bs)

  -- What RouteAllForRequest returns once the model was looked up.
  abbrev pub routing_of :
      Router fl.F
      → (model_id user_id workspace_id : String) → Option (ModelEntry fl.F)
      → Routed (List RouteEntry)
  routing_of r model_id user_id workspace_id none = err model_not_found
  routing_of r model_id user_id workspace_id (some entry) =
      some_route (routes_of r model_id user_id workspace_id (candidates model_id entry))

  -- RouteAllForRequest
  unfoldable pub route_all_for_request :
      (model_id user_id workspace_id : String)
      → Router fl.F
      → Routed (List RouteEntry) × Router fl.F
  route_all_for_request model_id user_id workspace_id r =
      let (_, r') = refresh_registry db r in
      (routing_of r' model_id user_id workspace_id (lookup model_id r'.models), r')

  -- RouteAll
  abbrev pub route_all : String → Router fl.F → Routed (List RouteEntry) × Router fl.F
  route_all model_id = route_all_for_request model_id "" ""

-- GetAdapter and GetModel
abbrev pub get_adapter : {F : Type 0} → Router F → String → Option Adapter
get_adapter r provider_id = lookup provider_id r.adapters

abbrev pub get_model : {F : Type 0} → Router F → String → Option (ModelEntry F)
get_model r model_id = lookup model_id r.models
