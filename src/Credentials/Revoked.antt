-- ===== src/Credentials/Revoked.antt =====
-- Provider keys that are revoked (userRevokeProviderKey and adminRevokeProviderKey in
-- backend/internal/gateway/router.go) and the query that the gateway's requests make for a key
-- (GetScopedProviderKeySecretWithMetadata in backend/internal/storage/store.go), through the adapter
-- of a request (adapterForRequest in backend/internal/router/model_router.go).
use mathlib.Core.List.{Memᴰ}
use ai_aggregator.Prelude.{ℕ, ◌≤◌, ◌≡◌, Bool, true, false, String, Option, some, List, lookup}
use ai_aggregator.Prelude.Json.{Json}
use ai_aggregator.Http.{Outcome}
use ai_aggregator.Credentials.{KeyRow, Secret, no_secret, unseal_local_secret}
use ai_aggregator.Routing.Registry.{
  Provider, Adapter, Store, Router, is_empty, key_from_env, adapter_for_request,
}
use ai_aggregator.Routing.KeySources.{built, held, IsCalled}

-- No secret, or the secret of a row that is not revoked.
pub data IsOther (p : KeyRow → Bool) (rows : List KeyRow) : Secret → Type 0 where
  without_key : IsOther p rows no_secret
  with_key :
      (row : KeyRow) (secret : List ℕ)
      → Memᴰ row rows
      → p row ≡ false
      → unseal_local_secret row.key_ref ≡ some secret
      → IsOther p rows (record { secret = secret; key_id = row.id; scope = row.scope })

-- The store with other rows of provider_keys.
abbrev pub with_keys : {F : Type 0} → Store F → List KeyRow → Store F
with_keys db rows = record db { keys = some rows }

-- What a request is given once the rows of `p` are revoked: an adapter with the secret of another
-- row; or without one, an adapter with the key of the environment; or, where that is empty too, the
-- adapter that the router holds, with the key that it was built with before.
pub data IsKeyedAfter {F : Type 0} (p : KeyRow → Bool) (rows : List KeyRow) (db : Store F)
    (r : Router F) (provider_id : String) (own : Provider)
    : Option (Adapter × String × String) → Type 0 where
  by_other :
      (s : Secret)
      → IsOther p rows s
      → is_empty s.secret ≡ false
      → IsKeyedAfter p rows db r provider_id own (some (built own s.secret, s.key_id, s.scope))
  by_environment :
      is_empty (key_from_env db own.id) ≡ false
      → IsKeyedAfter p rows db r provider_id own
          (some (built own (key_from_env db own.id), "", "env"))
  by_cache :
      is_empty (key_from_env db own.id) ≡ true
      → IsKeyedAfter p rows db r provider_id own (held (lookup provider_id r.adapters))

-- What a handler does that revokes the rows of `p`: nothing but an error; or afterwards a request
-- to a provider that is called over HTTP is given what IsKeyedAfter allows, and the other rows
-- stay.
pub data IsRevoked {F : Type 0} (db : Store F) (r : Router F) (p : KeyRow → Bool)
    (rows : List KeyRow) : Outcome (List KeyRow) → Type 0 where
  rejected :
      (o : Outcome (List KeyRow)) → 400 ≤ o.ctx.status → o.world ≡ rows → IsRevoked db r p rows o
  revoked :
      (o : Outcome (List KeyRow))
      → o.ctx.status ≡ 200
      → ((provider_id user_id workspace_id : String) (own : Provider)
          → IsCalled (with_keys db o.world) r provider_id own
          → IsKeyedAfter p rows
              (with_keys db o.world)
              r
              provider_id
              own
              (adapter_for_request (with_keys db o.world) r provider_id user_id workspace_id))
      → ((row : KeyRow) → Memᴰ row rows → p row ≡ false → Memᴰ row o.world)
      → IsRevoked db r p rows o
