-- ===== src/Routing/Guarantees.antt =====
-- What the router promises to the handlers (backend/internal/router/model_router.go).
use ai_aggregator.Prelude.{
  ◌≡◌, refl, sym, ◌∙◌, ◌≢◌, inl, inr, true, false, String, none, some, List, [], ◌∷◌, arith, lookup,
  eq_iff, Bool-cases, Option-cases,
}
use ai_aggregator.Float.{Float}
use ai_aggregator.Routing.Candidates.{Binding}
use ai_aggregator.Routing.Registry.{
  ModelEntry, Store, Router, refresh_registry, adapter_for_request,
}
use ai_aggregator.Routing.Selection.{
  RouteEntry, Routed, ok, err, model_not_found, no_available_provider, is_available, upstream_of,
  candidates, route_of, routes_of, some_route, route_all_for_request,
}

-- A binding that the router may use: enabled, and its status neither down nor unhealthy.
pub record IsUsable {F : Type 0} (b : Binding F) : Type 0 where
  pub enabled : b.is_enabled ≡ true
  pub up : b.health_status ≢ "down"
  pub healthy : b.health_status ≢ "unhealthy"

is_available-IsUsable : {F : Type 0} (b : Binding F) → is_available b ≡ true → IsUsable b
is_available-IsUsable b h = record {
  enabled = ground arith;
  up = ground (arith, eq_iff b.health_status "down");
  healthy = ground (arith, eq_iff b.health_status "unhealthy");
}

is_available-of_IsUsable : {F : Type 0} (b : Binding F) → IsUsable b → is_available b ≡ true
is_available-of_IsUsable b u = ground (
  arith,
  u.enabled,
  u.up,
  u.healthy,
  eq_iff b.health_status "down",
  eq_iff b.health_status "unhealthy",
)

module _ (fl : Float) (db : Store fl.F) (r : Router fl.F)
    (model_id user_id workspace_id : String) where
  -- The route that a usable binding stands for.
  pub record IsRouteOf (b : Binding fl.F) (e : RouteEntry) : Type 0 where
    pub usable : IsUsable b
    pub provider : e.provider_id ≡ b.provider_id
    pub upstream : e.upstream_model ≡ upstream_of model_id b
    pub adapter :
        adapter_for_request db r b.provider_id user_id workspace_id
        ≡ some (e.adapter, e.credential_key_id, e.credential_scope)

  -- The routes of a list of bindings, in its order: one for each usable binding that has an
  -- adapter, and none for any other.
  pub data Routes : List (Binding fl.F) → List RouteEntry → Type 0 where
    done : Routes [] []
    taken :
        {b : Binding fl.F} {e : RouteEntry} {bs : List (Binding fl.F)} {es : List RouteEntry}
        → IsRouteOf b e
        → Routes bs es
        → Routes (b ∷ bs) (e ∷ es)
    unusable :
        {b : Binding fl.F} {bs : List (Binding fl.F)} {es : List RouteEntry}
        → ¬ IsUsable b
        → Routes bs es
        → Routes (b ∷ bs) es
    no_adapter :
        {b : Binding fl.F} {bs : List (Binding fl.F)} {es : List RouteEntry}
        → adapter_for_request db r b.provider_id user_id workspace_id ≡ none
        → Routes bs es
        → Routes (b ∷ bs) es

  routes_of-Routes :
      (bs : List (Binding fl.F)) → Routes bs (routes_of fl db r model_id user_id workspace_id bs)
  unfolding routes_of route_of
  routes_of-Routes [] = done
  routes_of-Routes (b ∷ bs) = elim (Bool-cases (is_available b)) [
    | inr off ↦
        rw (off, routes_of, route_of)
          (unusable (λ u. absurd (true-false (sym (is_available-of_IsUsable b u) ∙ off)))
            (routes_of-Routes bs))
    | inl on ↦ elim (Option-cases (adapter_for_request db r b.provider_id user_id workspace_id)) [
      | inl missing ↦
          rw (on, missing, routes_of, route_of) (no_adapter missing (routes_of-Routes bs))
      | inr ((a, key_id, scope), found) ↦
          rw (on, found, routes_of, route_of)
            (taken
              (record {
                usable = is_available-IsUsable b on;
                provider = refl;
                upstream = refl;
                adapter = found;
              })
              (routes_of-Routes bs))
    ]
  ]
    where
      true-false : true ≡ false → ⊥
      true-false e = cc

-- What RouteAllForRequest owes its caller, given the models that the registry holds.
pub data IsRouting (fl : Float) (db : Store fl.F) (r : Router fl.F)
    (model_id user_id workspace_id : String) : Routed (List RouteEntry) → Type 0 where
  unknown :
      lookup model_id r.models ≡ none
      → IsRouting fl db r model_id user_id workspace_id (err model_not_found)
  all_out :
      {entry : ModelEntry fl.F}
      → lookup model_id r.models ≡ some entry
      → Routes fl db r model_id user_id workspace_id (candidates fl db model_id entry) []
      → IsRouting fl db r model_id user_id workspace_id (err no_available_provider)
  routed :
      {entry : ModelEntry fl.F} {e : RouteEntry} {es : List RouteEntry}
      → lookup model_id r.models ≡ some entry
      → Routes fl db r model_id user_id workspace_id (candidates fl db model_id entry) (e ∷ es)
      → IsRouting fl db r model_id user_id workspace_id (ok (e ∷ es))

module _ (fl : Float) (db : Store fl.F) (r : Router fl.F)
    (model_id user_id workspace_id : String) where
  some_route-IsRouting :
      (entry : ModelEntry fl.F)
      → lookup model_id r.models ≡ some entry
      → (es : List RouteEntry)
      → Routes fl db r model_id user_id workspace_id (candidates fl db model_id entry) es
      → IsRouting fl db r model_id user_id workspace_id (some_route es)
  some_route-IsRouting entry found [] h = all_out found h
  some_route-IsRouting entry found (e ∷ es) h = routed found h

module _ (fl : Float) (db : Store fl.F) (r : Router fl.F)
    (model_id user_id workspace_id : String) where
  -- After the registry is refreshed, which may fail and then leaves the models as they were,
  -- RouteAllForRequest answers model not found exactly where the registry has no such model;
  -- otherwise its routes are, in the order of the sorted candidates, those of the usable bindings
  -- with an adapter, and it answers no available provider exactly where there is none.
  pub route_all_for_request-IsRouting :
      IsRouting fl db
        (refresh_registry db r).1
        model_id
        user_id
        workspace_id
        (route_all_for_request fl db model_id user_id workspace_id r).0
  unfolding route_all_for_request
  route_all_for_request-IsRouting =
      elim (Option-cases (lookup model_id (refresh_registry db r).1.models)) [
        | inl missing ↦ rw (missing, route_all_for_request) (unknown missing)
        | inr (entry, found) ↦
            rw (found, route_all_for_request)
              (some_route-IsRouting fl db (refresh_registry db r).1 model_id user_id workspace_id
                entry found
                (routes_of fl db (refresh_registry db r).1 model_id user_id workspace_id
                  (candidates fl db model_id entry))
                (routes_of-Routes fl db (refresh_registry db r).1 model_id user_id workspace_id
                  (candidates fl db model_id entry)))
      ]
