-- ===== src/Credentials/Keys.antt =====
-- The handlers that make and revoke provider keys: userCreateProviderKey, userRevokeProviderKey,
-- adminCreateProviderKey and adminRevokeProviderKey with maskCredentialSecret
-- (backend/internal/gateway/router.go), and CreateProviderKeyScoped, RevokeUserProviderKey and
-- RevokeProviderKey (backend/internal/storage/store.go). Names, regions and audit rows are left out,
-- and the reload of the router after a change.
use ai_aggregator.Prelude.{
  ℕ, ◌-◌, Bool, true, false, ◌&&◌, ◌||◌, not, String, Option, none, some, List, [], ◌∷◌, ◌++◌, map,
  length, if◌then◌else◌, str_eq, leb,
}
use ai_aggregator.Prelude.Text.{trim_space}
use ai_aggregator.Prelude.Json.{Json, str, bool, obj, field, end}
use ai_aggregator.Http.{value, Handler, answer, error_response, is_one_of, local_string}
use ai_aggregator.Auth.{get_user_id}
use ai_aggregator.Credentials.{KeyRow, seal_credential_secret}

-- The body of a request for a key; a user names the provider in it, an administrator in the path.
pub record KeyRequest : Type 0 where
  pub provider_id : String
  pub key_name : String
  pub secret : String
  pub scope : String
  pub user_id : String
  pub workspace_id : String

-- storage.ProviderKeyInput
pub record ProviderKeyInput : Type 0 where
  pub provider_id : String
  pub key_name : String
  pub key_ref : List ℕ
  pub scope : String
  pub user_id : String
  pub workspace_id : String

-- What the handlers call: the bytes of a text, whether the row of a provider is enabled (`none`
-- where there is none or for an error), the id of a new row, the JSON of a row with its mask, and
-- the statements that fail.
pub record Calls : Type 0 where
  pub utf8 : String → List ℕ
  pub provider_enabled : String → Option Bool
  pub new_id : String
  pub key_json : KeyRow → (mask : List ℕ) → Json
  pub insert_fails : Bool
  pub update_fails : Bool

abbrev take_bytes : ℕ → List ℕ → List ℕ
take_bytes ℕ.zero bs = []
take_bytes (ℕ.suc n) [] = []
take_bytes (ℕ.suc n) (b ∷ bs) = b ∷ take_bytes n bs

abbrev drop_bytes : ℕ → List ℕ → List ℕ
drop_bytes ℕ.zero bs = bs
drop_bytes (ℕ.suc n) [] = []
drop_bytes (ℕ.suc n) (b ∷ bs) = drop_bytes n bs

abbrev stars : List ℕ → List ℕ
stars bs = map (λ _. b'*') bs

-- maskCredentialSecret, for a trimmed secret
unfoldable pub mask_credential_secret : List ℕ → List ℕ
mask_credential_secret secret =
    if leb (length secret) 8
    then stars secret
    else take_bytes 4 secret ++ stars (take_bytes 8 secret) ++ drop_bytes (length secret - 4) secret

abbrev is_nil : List ℕ → Bool
is_nil [] = true
is_nil (_ ∷ _) = false

-- The row that CreateProviderKeyScoped inserts.
abbrev pub row_of : (id : String) → ProviderKeyInput → KeyRow
row_of id k = record {
  id = id;
  provider_id = k.provider_id;
  key_ref = k.key_ref;
  scope = k.scope;
  user_id = k.user_id;
  workspace_id = k.workspace_id;
  is_active = true;
}

-- WHERE of RevokeUserProviderKey, and of RevokeProviderKey.
abbrev pub is_user_key : (key_id user_id : String) → KeyRow → Bool
is_user_key key_id user_id row =
    str_eq row.id key_id && str_eq row.scope "user" && str_eq row.user_id user_id

abbrev pub is_provider_key : (provider_id key_id : String) → KeyRow → Bool
is_provider_key provider_id key_id row = str_eq row.provider_id provider_id && str_eq row.id key_id

abbrev pub revoke_if : (KeyRow → Bool) → KeyRow → KeyRow
revoke_if p row = if p row then record row { is_active = false } else row

unfoldable pub first_where : (KeyRow → Bool) → List KeyRow → Option KeyRow
first_where p [] = none
first_where p (row ∷ rows) = if p row then some row else first_where p rows

abbrev invalid : String → Handler (List KeyRow)
invalid message c rows = answer 400 (error_response "invalid_request" message) c rows

abbrev failed : String → Handler (List KeyRow)
failed message c rows = answer 500 (error_response "internal_server_error" message) c rows

module _ (calls : Calls) where
  -- CreateProviderKeyScoped: the row, `none` for an error. A sealed secret has no spaces to trim.
  unfoldable pub create_provider_key_scoped : ProviderKeyInput → Option KeyRow
  create_provider_key_scoped k =
      let provider_id = trim_space k.provider_id in
      let key_name = trim_space k.key_name in
      let asked = trim_space k.scope in
      let scope = if str_eq asked "" then "platform" else asked in
      let user_id = trim_space k.user_id in
      let workspace_id = trim_space k.workspace_id in
      if str_eq provider_id "" || str_eq key_name "" || is_nil k.key_ref
      then none
      else if not (is_one_of ("platform" ∷ "user" ∷ "workspace" ∷ []) scope)
      then none
      else if str_eq scope "user" && str_eq user_id ""
      then none
      else if str_eq scope "workspace" && str_eq workspace_id ""
      then none
      else if calls.insert_fails
      then none
      else some (
          row_of calls.new_id (record {
            provider_id = provider_id;
            key_name = key_name;
            key_ref = k.key_ref;
            scope = scope;
            user_id = user_id;
            workspace_id = workspace_id;
          }))

  -- The end of both handlers that create a key: the new row stands before the others.
  abbrev pub key_created : (secret : List ℕ) → Option KeyRow → Handler (List KeyRow)
  key_created secret none c rows = failed "failed to create provider key" c rows
  key_created secret (some row) c rows =
      answer 201 (value (calls.key_json row (mask_credential_secret secret))) c (row ∷ rows)

  abbrev pub is_available : Option Bool → Bool
  is_available none = false
  is_available (some enabled) = enabled

  -- The input of userCreateProviderKey.
  abbrev pub user_input : (provider_id key_name secret user_id : String) → ProviderKeyInput
  user_input provider_id key_name secret user_id = record {
    provider_id = provider_id;
    key_name = key_name;
    key_ref = seal_credential_secret (calls.utf8 secret);
    scope = "user";
    user_id = user_id;
    workspace_id = "";
  }

  -- userCreateProviderKey; no request where the body cannot be read.
  unfoldable pub user_create_provider_key : Option KeyRequest → Handler (List KeyRow)
  unfolding create_provider_key_scoped mask_credential_secret
  user_create_provider_key none c rows = invalid "invalid JSON body" c rows
  user_create_provider_key (some req) c rows =
      let provider_id = trim_space req.provider_id in
      let key_name = trim_space req.key_name in
      let secret = trim_space req.secret in
      if str_eq provider_id "" || str_eq key_name "" || str_eq secret ""
      then invalid "provider_id, key_name, and secret are required" c rows
      else if is_available (calls.provider_enabled provider_id)
      then key_created (calls.utf8 secret)
          (create_provider_key_scoped (user_input provider_id key_name secret (get_user_id c))) c
          rows
      else invalid "provider is not available" c rows

  -- adminCreateProviderKey, with the provider of the path.
  unfoldable pub admin_create_provider_key :
      (provider_id : String) → Option KeyRequest → Handler (List KeyRow)
  unfolding create_provider_key_scoped mask_credential_secret
  admin_create_provider_key path none c rows = invalid "invalid JSON body" c rows
  admin_create_provider_key path (some req) c rows =
      let provider_id = trim_space path in
      let key_name = trim_space req.key_name in
      let secret = trim_space req.secret in
      let asked = trim_space req.scope in
      let scope = if str_eq asked "" then "platform" else asked in
      let named = trim_space req.user_id in
      let user_id =
        if str_eq scope "user" && str_eq named "" then local_string c.locals.user_id else named in
      let workspace_id = trim_space req.workspace_id in
      if str_eq provider_id "" || str_eq key_name "" || str_eq secret ""
      then invalid "provider id, key_name and secret are required" c rows
      else if str_eq scope "workspace" && str_eq workspace_id ""
      then invalid "workspace_id is required for workspace scoped provider key" c rows
      else key_created (calls.utf8 secret)
          (create_provider_key_scoped (record {
            provider_id = provider_id;
            key_name = key_name;
            key_ref = seal_credential_secret (calls.utf8 secret);
            scope = scope;
            user_id = user_id;
            workspace_id = workspace_id;
          }))
          c rows

  -- The end of both handlers that revoke a key, with a row that the update changed.
  abbrev pub key_revoked : (KeyRow → Bool) → (KeyRow → Json) → Option KeyRow → Handler (List KeyRow)
  key_revoked p done none c rows =
      answer 404 (error_response "not_found" "provider key not found") c rows
  key_revoked p done (some row) c rows = answer 200 (value (done row)) c (map (revoke_if p) rows)

  -- The rest of both handlers that revoke a key, with the WHERE of the update.
  abbrev pub revoke_where : (KeyRow → Bool) → (KeyRow → Json) → Handler (List KeyRow)
  revoke_where p done c rows =
      if calls.update_fails
      then failed "failed to revoke provider key" c rows
      else key_revoked p done (first_where p rows) c rows

  -- userRevokeProviderKey, with RevokeUserProviderKey.
  unfoldable pub user_revoke_provider_key : (id : String) → Handler (List KeyRow)
  unfolding first_where
  user_revoke_provider_key id c rows =
      let key_id = trim_space id in
      if str_eq key_id ""
      then invalid "provider key id is required" c rows
      else revoke_where (is_user_key key_id (get_user_id c))
          (λ row. obj (
            field "revoked" (bool true)
              (field "provider_id" (str row.provider_id) (field "key_id" (str row.id) end))))
          c rows

  -- adminRevokeProviderKey, with RevokeProviderKey.
  unfoldable pub admin_revoke_provider_key : (provider_id id : String) → Handler (List KeyRow)
  unfolding first_where
  admin_revoke_provider_key path id c rows =
      let provider_id = trim_space path in
      let key_id = trim_space id in
      if str_eq provider_id "" || str_eq key_id ""
      then invalid "provider id and key id are required" c rows
      else revoke_where (is_provider_key provider_id key_id)
          (λ _. obj (
            field "revoked" (bool true)
              (field "provider_id" (str provider_id) (field "key_id" (str key_id) end))))
          c rows
