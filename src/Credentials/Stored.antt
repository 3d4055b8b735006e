-- ===== src/Credentials/Stored.antt =====
-- A provider key that a user creates (userCreateProviderKey in backend/internal/gateway/router.go)
-- and the query that the gateway's requests make for it
-- (GetScopedProviderKeySecretWithMetadata in backend/internal/storage/store.go).
use ai_aggregator.Prelude.{
  ℕ, ◌≤◌, ◌<◌, ◌≡◌, refl, ◌≢◌, ◌⊎◌, inl, inr, true, ◌||◌, String, Option, none, some, List, ◌∷◌,
  if-cases, arith, str_eq, eq_iff, All,
}
use ai_aggregator.Prelude.Text.{trim_space}
use ai_aggregator.Prelude.Trimming.{trim_space-trim_space}
use ai_aggregator.Prelude.Best.{best, best-Chosen, Chosen, better}
use ai_aggregator.Http.{Ctx, Outcome}
use ai_aggregator.Auth.{get_user_id}
use ai_aggregator.Credentials.{KeyRow, scope_rank, scoped_secret, unseal_local_secret}
use ai_aggregator.Credentials.Sealing.{unseal-seal}
use ai_aggregator.Credentials.Keys.{
  KeyRequest, ProviderKeyInput, Calls, row_of, create_provider_key_scoped, key_created, user_input,
  is_available, user_create_provider_key,
}

-- What userCreateProviderKey does: nothing but an error; or a request of this user, in no
-- workspace, is given the new key's secret for the provider.
pub data IsStored (calls : Calls) (req : KeyRequest) (rows : List KeyRow) (c : Ctx)
    : Outcome (List KeyRow) → Type 0 where
  rejected :
      (o : Outcome (List KeyRow))
      → 400 ≤ o.ctx.status
      → o.world ≡ rows
      → IsStored calls req rows c o
  stored :
      (o : Outcome (List KeyRow))
      → o.ctx.status ≡ 201
      → scoped_secret (some o.world) (trim_space req.provider_id) (get_user_id c) ""
        ≡ some (record {
          secret = calls.utf8 (trim_space req.secret);
          key_id = calls.new_id;
          scope = "user";
        })
      → IsStored calls req rows c o

rank_outside :
    (provider_id user_id : String) (row : KeyRow) (r : ℕ)
    → scope_rank provider_id user_id "" row ≡ some r
    → 2 ≤ r
rank_outside provider_id user_id row r e = ground (arith, eq_iff "" "")

rank_own :
    (provider_id user_id : String) (row : KeyRow)
    → user_id ≢ ""
    → row.provider_id ≡ provider_id
    → row.is_active ≡ true
    → row.scope ≡ "user"
    → row.user_id ≡ user_id
    → scope_rank provider_id user_id "" row ≡ some 2
rank_own provider_id user_id row named provider active scope owner = ground (
  arith,
  eq_iff user_id "",
  eq_iff row.provider_id provider_id,
  eq_iff row.scope "user",
  eq_iff row.user_id user_id,
)

better-newest :
    (rank : KeyRow → Option ℕ) (row : KeyRow) (rows : List KeyRow) (old : Option (ℕ × KeyRow))
    → ((x : KeyRow) (r : ℕ) → rank x ≡ some r → 2 ≤ r)
    → Chosen rank rows old
    → better old (some 2) row ≡ some (2, row)
better-newest rank row rows none bounded chosen = refl
better-newest rank row rows (some (s, x)) bounded (_, at, _) =
    let far : 2 ≤ s = bounded x s at in ground arith

best-newest :
    (rank : KeyRow → Option ℕ) (row : KeyRow) (rows : List KeyRow)
    → rank row ≡ some 2
    → ((x : KeyRow) (r : ℕ) → rank x ≡ some r → 2 ≤ r)
    → best rank (row ∷ rows) ≡ some (2, row)
unfolding best
best-newest rank row rows own bounded =
    rw own (better-newest rank row rows (best rank rows) bounded (best-Chosen rank rows))

given_key :
    (rows : List KeyRow) (provider_id user_id workspace_id : String) (row : KeyRow) (r : ℕ)
    (secret : List ℕ)
    → best (scope_rank provider_id (trim_space user_id) (trim_space workspace_id)) rows
      ≡ some (r, row)
    → unseal_local_secret row.key_ref ≡ some secret
    → scoped_secret (some rows) provider_id user_id workspace_id
      ≡ some (record { secret = secret; key_id = row.id; scope = row.scope })
unfolding scoped_secret
given_key rows provider_id user_id workspace_id row r secret e u = ground arith

module _ (calls : Calls) (utf8-IsBytes : (s : String) → All (λ b. b < 256) (calls.utf8 s))
    (req : KeyRequest) (rows : List KeyRow) (c : Ctx) where
  abbrev input : ProviderKeyInput
  input =
      user_input calls (trim_space req.provider_id) (trim_space req.key_name)
        (trim_space req.secret) (get_user_id c)

  abbrev new_row : KeyRow
  new_row = row_of calls.new_id (record input {
    provider_id = trim_space (trim_space req.provider_id);
    key_name = trim_space (trim_space req.key_name);
    user_id = trim_space (get_user_id c);
  })

  found_again :
      trim_space (get_user_id c) ≢ ""
      → scoped_secret (some (new_row ∷ rows)) (trim_space req.provider_id) (get_user_id c) ""
        ≡ some (record {
          secret = calls.utf8 (trim_space req.secret);
          key_id = calls.new_id;
          scope = "user";
        })
  unfolding trim_space
  found_again named =
      given_key (new_row ∷ rows) (trim_space req.provider_id) (get_user_id c) "" new_row 2
        (calls.utf8 (trim_space req.secret))
        (best-newest _ new_row rows
          (rank_own _ _ new_row named (trim_space-trim_space req.provider_id) refl refl refl)
          (rank_outside _ _))
        (unseal-seal _ (utf8-IsBytes _))

  created_row-IsStored :
      (row : Option KeyRow)
      → (row ≡ none) ⊎ ((row ≡ some new_row) × (trim_space (get_user_id c) ≢ ""))
      → IsStored calls req rows c
          (key_created calls (calls.utf8 (trim_space req.secret)) row c rows)
  created_row-IsStored row (inl e) = rw e (rejected _ (omega arith) refl)
  created_row-IsStored row (inr (e, named)) = rw e (stored _ refl (found_again named))

  -- The row of the store is the new row of a user who has a name, or an error.
  user_row :
      (created : Option KeyRow)
      → create_provider_key_scoped calls input ≡ created
      → (created ≡ none) ⊎ ((created ≡ some new_row) × (trim_space (get_user_id c) ≢ ""))
  unfolding create_provider_key_scoped trim_space
  user_row created e = ground (arith, eq_iff (trim_space (get_user_id c)) "")

  -- Where the bytes of a text are bytes, a request of a user for a provider key either is answered
  -- with an error and stores nothing, or is answered 201. Then a request of this user for the
  -- provider, outside workspaces, is given the new key's secret, unsealed: it is that of the body,
  -- whatever other keys are stored.
  pub user_create_provider_key-IsStored :
      IsStored calls req rows c (user_create_provider_key calls (some req) c rows)
  unfolding user_create_provider_key create_provider_key_scoped
  user_create_provider_key-IsStored =
      if-cases (IsStored calls req rows c)
        (str_eq (trim_space req.provider_id) ""
          || str_eq (trim_space req.key_name) ""
          || str_eq (trim_space req.secret) "")
        _ _ (λ _. rejected _ (omega arith) refl)
        (λ _.
          if-cases (IsStored calls req rows c)
            (is_available calls (calls.provider_enabled (trim_space req.provider_id))) _ _
            (λ _. created_row-IsStored _ (user_row _ refl)) (λ _. rejected _ (omega arith) refl))
