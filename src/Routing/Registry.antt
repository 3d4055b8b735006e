-- ===== src/Routing/Registry.antt =====
-- The router's tables and how they are loaded: initAdapters, refreshRegistry, runHealthChecks,
-- adapterForRequest and the look-up of keys (backend/internal/router/model_router.go).
use ai_aggregator.Prelude.{
  ℕ, Bool, true, false, ◌||◌, not, String, Option, none, some, List, [], ◌∷◌, map, if◌then◌else◌,
  lookup, insert, str_eq,
}
use ai_aggregator.Credentials.{KeyRow, Secret, no_secret, scoped_secret}
use ai_aggregator.Routing.Candidates.{Binding, Policy, Stat}

-- storage.Provider, the fields that the router reads.
pub record Provider : Type 0 where
  pub id : String
  pub adapter_type : String
  pub base_url : String
  pub is_enabled : Bool

-- A provider.Adapter as it is built: the mock, or an HTTP adapter by its configuration.
pub data Adapter : Type 0 where
  mock : (name : String) → Adapter
  dash_scope : (name base_url : String) (api_key : List ℕ) → Adapter
  anthropic : (name base_url : String) (api_key : List ℕ) → Adapter

-- storage.Model and ModelEntry.
pub record Model : Type 0 where
  pub model_id : String
  pub modality : String
  pub display_name : String
  pub is_async : Bool

pub record ModelEntry (F : Type 0) : Type 0 where
  pub model : Model
  pub providers : List (Binding F)

-- What the store answers, `none` for an error, and the environment (an unset variable is empty).
pub record Store (F : Type 0) : Type 0 where
  pub providers : Option (List Provider)
  pub models : Option (List Model)
  pub bindings : String → Option (List (Binding F))
  pub policies : Option (List (Policy F))
  pub stats : String → Option (List (String × Stat F))
  pub keys : Option (List KeyRow)
  pub env : String → List ℕ

-- ModelRouter, without its store and its lock.
pub record Router (F : Type 0) : Type 0 where
  pub adapters : List (String × Adapter)
  pub providers : List (String × Provider)
  pub models : List (String × ModelEntry F)
  pub mock_mode : Bool

abbrev pub is_empty : List ℕ → Bool
is_empty [] = true
is_empty (_ ∷ _) = false

abbrev pub or_else : List ℕ → List ℕ → List ℕ
or_else v w = if is_empty v then w else v

-- The adapter types that are built with a key for each request.
abbrev pub is_http : String → Bool
is_http t =
    str_eq t "dashscope"
    || str_eq t "openai_compatible"
    || str_eq t "self_hosted"
    || str_eq t "anthropic"

module _ {F : Type 0} (db : Store F) where
  -- resolveProviderKeyFromEnv
  unfoldable pub key_from_env : String → List ℕ
  key_from_env id =
      let universal = db.env "DASHSCOPE_API_KEY" in
      if str_eq id "bailian_cn"
      then or_else (db.env "DASHSCOPE_API_KEY_CN") universal
      else if str_eq id "bailian_intl"
      then or_else (db.env "DASHSCOPE_API_KEY_INTL") universal
      else universal

  abbrev pub env_secret : List ℕ → Secret
  env_secret v = if is_empty v then no_secret else record { secret = v; key_id = ""; scope = "env" }

  -- resolveProviderKeyForRequestWithMetadata
  unfoldable pub resolve_key : (provider_id user_id workspace_id : String) → Secret
  resolve_key provider_id user_id workspace_id =
      elim (scoped_secret db.keys provider_id user_id workspace_id) [
        | none ↦ env_secret (key_from_env provider_id)
        | some s ↦ if is_empty s.secret then env_secret (key_from_env provider_id) else s
      ]

  -- The adapter of a provider by its type, outside the mock mode.
  unfoldable pub adapter_of : Provider → List ℕ → Option Adapter
  adapter_of p key =
      if str_eq p.adapter_type "mock"
      then some (mock p.id)
      else if str_eq p.adapter_type "dashscope"
      then if is_empty key then none else some (dash_scope p.id p.base_url key)
      else if str_eq p.adapter_type "openai_compatible" || str_eq p.adapter_type "self_hosted"
      then some (dash_scope p.id p.base_url key)
      else if str_eq p.adapter_type "anthropic"
      then if is_empty key then none else some (anthropic p.id p.base_url key)
      else none

  -- One round of the loops of initAdapters.
  abbrev add_mock : Router F → Provider → Router F
  add_mock r p = record r {
    providers = insert p.id p r.providers;
    adapters = insert p.id (mock p.id) r.adapters;
  }

  abbrev add_provider : Router F → Provider → Router F
  add_provider r p =
      if p.is_enabled
      then record r {
        providers = insert p.id p r.providers;
        adapters = elim (adapter_of p (resolve_key p.id "" "").secret) [
          | none ↦ r.adapters
          | some a ↦ insert p.id a r.adapters
        ];
      }
      else r

  abbrev add_all : (Router F → Provider → Router F) → Router F → List Provider → Router F
  add_all add r [] = r
  add_all add r (p ∷ ps) = add_all add (add r p) ps

  -- initAdapters: whether it failed, and the router.
  unfoldable pub init_adapters : Router F → Bool × Router F
  init_adapters r = elim db.providers [
    | none ↦ (true, r)
    | some ps ↦
        if r.mock_mode
        then (let all = add_all add_mock r ps in
            (false, record all { adapters = insert "mock" (mock "mock") all.adapters }))
        else (false, add_all add_provider r ps)
  ]

  abbrev load_models : List Model → List (String × ModelEntry F)
  load_models [] = []
  load_models (m ∷ ms) = elim (db.bindings m.model_id) [
    | none ↦ load_models ms
    | some bs ↦ (m.model_id, record { model = m; providers = bs }) ∷ load_models ms
  ]

  -- refreshRegistry: whether it failed, and the router; model ids are distinct.
  unfoldable pub refresh_registry : Router F → Bool × Router F
  refresh_registry r = elim db.models [
    | none ↦ (true, r)
    | some ms ↦ (false, record r { models = load_models ms })
  ]

  -- Refresh
  unfoldable pub refresh : Router F → Bool × Router F
  refresh r =
      let (failed, r') = init_adapters r in if failed then (true, r') else refresh_registry r'

  -- adapterForRequest: the adapter with the id and the scope of its key.
  unfoldable pub adapter_for_request :
      Router F → (provider_id user_id workspace_id : String) → Option (Adapter × String × String)
  adapter_for_request r provider_id user_id workspace_id =
      let own : Option Adapter = lookup provider_id r.adapters in
      let plain : Option (Adapter × String × String) = elim own [
        | none ↦ none
        | some a ↦ some (a, "", "")
      ] in
      elim (lookup provider_id r.providers) [
        | none ↦ plain
        | some p ↦
            if r.mock_mode || str_eq p.adapter_type "mock"
            then (let s : Secret = elim (scoped_secret db.keys p.id user_id workspace_id) [
              | none ↦ no_secret
              | some t ↦ t
            ] in
                some (elim own [ none ↦ mock provider_id | some a ↦ a ], s.key_id, s.scope))
            else if not (is_http p.adapter_type)
            then plain
            else let s = resolve_key p.id user_id workspace_id in
              if is_empty s.secret
              then elim own [ none ↦ none | some a ↦ some (a, s.key_id, s.scope) ]
              else some (
                if str_eq p.adapter_type "anthropic"
                    then anthropic p.id p.base_url s.secret
                    else dash_scope p.id p.base_url s.secret,
                s.key_id,
                s.scope,
              )
      ]

-- runHealthChecks in memory: `probe` is the outcome of an adapter's health check. Each adapter but
-- the one under "mock" sets the status of the bindings of its provider; the order plays no part.
abbrev pub checked : {F : Type 0} → Router F → (Adapter → Bool) → Binding F → Binding F
checked r probe b =
    if str_eq b.provider_id "mock" then b else elim (lookup b.provider_id r.adapters) [
      | none ↦ b
      | some a ↦ record b { health_status = if probe a then "healthy" else "unhealthy" }
    ]

abbrev check_entries :
    {F : Type 0}
    → (Binding F → Binding F)
    → List (String × ModelEntry F)
    → List (String × ModelEntry F)
check_entries f [] = []
check_entries f ((id, e) ∷ es) =
    (id, record e { providers = map f e.providers }) ∷ check_entries f es

unfoldable pub run_health_checks : {F : Type 0} → Router F → (Adapter → Bool) → Router F
run_health_checks r probe = record r { models = check_entries (checked r probe) r.models }
