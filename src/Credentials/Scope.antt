-- ===== src/Credentials/Scope.antt =====
-- Which key the query for a request gives (GetScopedProviderKeySecretWithMetadata in
-- backend/internal/storage/store.go).
use mathlib.Core.List.{Memᴰ}
use ai_aggregator.Prelude.{
  ℕ, ◌≡◌, ◌≢◌, inl, inr, true, ◌&&◌, not, String, some, List, arith, str_eq, eq_iff, Bool-cases,
  Option-cases,
}
use ai_aggregator.Prelude.Text.{trim_space}
use ai_aggregator.Prelude.Best.{best, IsBest, best-Chosen}
use ai_aggregator.Credentials.{
  KeyRow, scope_rank, Secret, scoped_secret, unseal_local_secret, no_secret,
}

-- The key serves the caller: it is the caller's workspace's, the caller's own, or the platform's.
pub data Serves (user_id workspace_id : String) (row : KeyRow) : Type 0 where
  of_workspace :
      workspace_id ≢ ""
      → row.scope ≡ "workspace"
      → row.workspace_id ≡ workspace_id
      → Serves user_id workspace_id row
  of_user :
      user_id ≢ "" → row.scope ≡ "user" → row.user_id ≡ user_id → Serves user_id workspace_id row
  of_platform : row.scope ≡ "platform" → Serves user_id workspace_id row

scope_rank-Serves :
    (provider_id user_id workspace_id : String) (row : KeyRow) (r : ℕ)
    → scope_rank provider_id user_id workspace_id row ≡ some r
    → Serves user_id workspace_id row
scope_rank-Serves provider_id user_id workspace_id row r e =
    elim (Bool-cases (
      not (str_eq workspace_id "")
      && str_eq row.scope "workspace"
      && str_eq row.workspace_id workspace_id)) [
        | inl shared ↦
            of_workspace (ground (arith, eq_iff workspace_id ""))
              ((eq_iff row.scope "workspace").0 (ground arith))
              ((eq_iff row.workspace_id workspace_id).0 (ground arith))
        | inr unshared ↦
            elim (Bool-cases
              (not (str_eq user_id "") && str_eq row.scope "user" && str_eq row.user_id user_id)) [
                | inl own ↦
                    of_user (ground (arith, eq_iff user_id ""))
                      ((eq_iff row.scope "user").0 (ground arith))
                      ((eq_iff row.user_id user_id).0 (ground arith))
                | inr foreign ↦ of_platform ((eq_iff row.scope "platform").0 (ground arith))
              ]
      ]

scope_rank-active :
    (provider_id user_id workspace_id : String) (row : KeyRow) (r : ℕ)
    → scope_rank provider_id user_id workspace_id row ≡ some r
    → (row.provider_id ≡ provider_id) × (row.is_active ≡ true)
scope_rank-active provider_id user_id workspace_id row r e =
    ((eq_iff row.provider_id provider_id).0 (ground arith), ground arith)

-- What a caller may be given: the empty secret, or the unsealed secret of an active key of this
-- provider that serves the caller, and none of the rows ranks better.
pub data IsEntitled (rows : List KeyRow) (provider_id user_id workspace_id : String)
    : Secret → Type 0 where
  without_key : IsEntitled rows provider_id user_id workspace_id no_secret
  with_key :
      (row : KeyRow) (r : ℕ) (secret : List ℕ)
      → Memᴰ row rows
      → row.provider_id ≡ provider_id
      → row.is_active ≡ true
      → Serves user_id workspace_id row
      → scope_rank provider_id user_id workspace_id row ≡ some r
      → IsBest (scope_rank provider_id user_id workspace_id) r rows
      → unseal_local_secret row.key_ref ≡ some secret
      → IsEntitled rows provider_id user_id workspace_id
          (record { secret = secret; key_id = row.id; scope = row.scope })

-- The query gives a secret only of the workspace, the user or the platform that it names, the
-- workspace's before the user's before the platform's; never a key of another tenant, another
-- provider, or one that was revoked. The ids are those of the query, trimmed.
pub scoped_secret-IsEntitled :
    (rows : List KeyRow) (provider_id user_id workspace_id : String) (s : Secret)
    → scoped_secret (some rows) provider_id user_id workspace_id ≡ some s
    → IsEntitled rows provider_id (trim_space user_id) (trim_space workspace_id) s
unfolding scoped_secret
scoped_secret-IsEntitled rows provider_id user_id workspace_id s e =
    let uid = trim_space user_id in
    let wid = trim_space workspace_id in
    elim (Option-cases (best (scope_rank provider_id uid wid) rows)) [
      | inl missing ↦ let same : no_secret ≡ s = ground arith in rw (← same) without_key
      | inr ((r, row), found) ↦ elim (Option-cases (unseal_local_secret row.key_ref)) [
        | inl sealed ↦ absurd (ground arith)
        | inr (secret, unsealed) ↦
            let same : record { secret = secret; key_id = row.id; scope = row.scope } ≡ s =
              ground arith in
            let (listed, at, best_of) =
              rw found at (best-Chosen (scope_rank provider_id uid wid) rows) in
            let (provider, active) = scope_rank-active provider_id uid wid row r at in
            rw (← same) (
              with_key row r secret listed provider active
                (scope_rank-Serves provider_id uid wid row r at) at best_of unsealed)
      ]
    ]
