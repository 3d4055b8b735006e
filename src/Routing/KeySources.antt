-- ===== src/Routing/KeySources.antt =====
-- Whose key the adapter of a request is built with (adapterForRequest and
-- resolveProviderKeyForRequestWithMetadata in backend/internal/router/model_router.go).
use ai_aggregator.Prelude.{
  ℕ, ◌≡◌, true, false, String, Option, none, some, List, if◌then◌else◌, lookup, str_eq,
}
use ai_aggregator.Prelude.Text.{trim_space}
use ai_aggregator.Credentials.{KeyRow, Secret, scoped_secret}
use ai_aggregator.Credentials.Scope.{IsEntitled}
use ai_aggregator.Routing.Registry.{
  Provider, Adapter, anthropic, dash_scope, Store, Router, is_empty, is_http, key_from_env,
}

-- The adapter of a provider with a key, an adapter that the router holds, and a provider that is
-- called over HTTP outside the mock mode.
abbrev pub built : Provider → (key : List ℕ) → Adapter
built p key =
    if str_eq p.adapter_type "anthropic"
    then anthropic p.id p.base_url key
    else dash_scope p.id p.base_url key

abbrev pub held : Option Adapter → Option (Adapter × String × String)
held none = none
held (some a) = some (a, "", "")

module _ {F : Type 0} (db : Store F) (r : Router F) where
  pub record IsCalled (provider_id : String) (p : Provider) : Type 0 where
    pub found : lookup provider_id r.providers ≡ some p
    pub live : r.mock_mode ≡ false
    pub no_mock : str_eq p.adapter_type "mock" ≡ false
    pub over_http : is_http p.adapter_type ≡ true

  -- The query gives no secret for the provider.
  abbrev pub NoStored : (p : Provider) (user_id workspace_id : String) → Type 0
  NoStored p user_id workspace_id =
      (s : Secret)
      → scoped_secret db.keys p.id user_id workspace_id ≡ some s
      → is_empty s.secret ≡ true

  -- What a request is given: an adapter with the secret that the query gives, with the key's id and
  -- scope; or without such a secret, one with the key of the environment; or, where that is empty
  -- too, the adapter that the router holds.
  pub data IsKeyed (provider_id user_id workspace_id : String) (p : Provider)
      : Option (Adapter × String × String) → Type 0 where
    by_row :
        (rows : List KeyRow) (s : Secret)
        → db.keys ≡ some rows
        → scoped_secret (some rows) p.id user_id workspace_id ≡ some s
        → IsEntitled rows p.id (trim_space user_id) (trim_space workspace_id) s
        → is_empty s.secret ≡ false
        → IsKeyed provider_id user_id workspace_id p (some (built p s.secret, s.key_id, s.scope))
    by_environment :
        NoStored p user_id workspace_id
        → is_empty (key_from_env db p.id) ≡ false
        → IsKeyed provider_id user_id workspace_id p
            (some (built p (key_from_env db p.id), "", "env"))
    by_cache :
        NoStored p user_id workspace_id
        → is_empty (key_from_env db p.id) ≡ true
        → IsKeyed provider_id user_id workspace_id p (held (lookup provider_id r.adapters))

  -- The end of adapterForRequest for a secret.
  abbrev given : (provider_id : String) → Provider → Secret → Option (Adapter × String × String)
  given provider_id p s =
      if is_empty s.secret
      then elim (lookup provider_id r.adapters) [
        | none ↦ none
        | some a ↦ some (a, s.key_id, s.scope)
      ]
      else some (built p s.secret, s.key_id, s.scope)
