-- ===== src/Accounts.antt =====
-- Users and their API keys: userCreateKey and userDeleteKey
-- (backend/internal/gateway/router.go), with the rows of users and api_keys that
-- CreateAPIKeyWithProject, RevokeAPIKey and ProjectBelongsToWorkspace
-- (backend/internal/storage/store.go) use. The name, the prefix and the times of a key are left out.
pub mod Registration
pub mod Login
pub mod ApiKeys
mod Tests
use ai_aggregator.Prelude.{
  ℕ, ◌≡◌, Bool, true, false, ◌&&◌, ◌||◌, not, String, Option, none, some, List, [], ◌∷◌, ◌++◌, map,
  any, if◌then◌else◌, str_eq,
}
use ai_aggregator.Prelude.Int.{pos}
use ai_aggregator.Prelude.Text.{trim_space}
use ai_aggregator.Prelude.Json.{Json, str, bool, obj, field, end}
use ai_aggregator.Http.{
  RawMessage, parsed, Body, value, Ctx, Handler, Outcome, answer, error_response,
}
use ai_aggregator.Auth.{ApiKeyRow, get_user_id, generate_api_key}
use ai_aggregator.Access.{Members, workspace_member_has_permission}
use ai_aggregator.Billing.{Accounts, Faults}

-- A row of users without its balance, which stands in `money`.
pub record User : Type 0 where
  pub id : String
  pub email : String
  pub username : String
  pub password_hash : String
  pub role : String

-- The tables: a new row stands behind the others.
pub record World : Type 0 where
  pub users : List User
  pub api_keys : List ApiKeyRow
  pub money : Accounts

-- What the handlers call: SHA-256 and hex, the bytes of crypto/rand, bcrypt, GenerateJWT for a
-- user and a role, the length of a text in bytes, the configured prefix, strings.ToLower, the row
-- of a member of a workspace, the EXISTS query of projects, the id of a new row, and which
-- statements fail.
pub record Calls : Type 0 where
  pub sha256_hex : String → String
  pub hex : List ℕ → String
  pub random : Option (List ℕ)
  pub bcrypt_hash : String → Option String
  pub bcrypt_matches : (hash password : String) → Bool
  pub generate_jwt : (user_id role : String) → Option String
  pub byte_length : String → ℕ
  pub api_key_prefix : String
  pub to_lower : String → String
  pub members : Members
  pub project_exists : (project_id workspace_id : String) → Option Bool
  pub new_id : String
  pub key_insert_fails : (workspace_id project_id : String) → Bool
  pub user_insert_fails : Bool
  pub query_fails : Bool
  pub update_fails : Bool
  pub faults : Faults

pub record KeyRequest : Type 0 where
  pub name : String
  pub workspace_id : String
  pub project_id : String

-- ProjectBelongsToWorkspace, `none` for an error
abbrev pub project_belongs_to_workspace : Calls → (project_id workspace_id : String) → Option Bool
project_belongs_to_workspace calls project_id workspace_id =
    if str_eq project_id "" || str_eq workspace_id ""
    then some false
    else calls.project_exists project_id workspace_id

-- {"models":"*"}
abbrev pub all_models : RawMessage
all_models = parsed (obj (field "models" (str "*") end))

-- The row that CreateAPIKeyWithProject inserts, its limits NULL.
abbrev pub new_key : (id user_id key_hash workspace_id project_id : String) → ApiKeyRow
new_key id user_id key_hash workspace_id project_id = record {
  id = id;
  user_id = user_id;
  key_hash = key_hash;
  workspace_id = workspace_id;
  project_id = project_id;
  permissions = all_models;
  rate_limit_rpm = pos 0;
  rate_limit_tpm = pos 0;
  is_active = true;
  expires_at = none;
}

abbrev invalid : String → Handler World
invalid message c w = answer 400 (error_response "invalid_request" message) c w

abbrev pub behind_permission : Option Bool → Handler World → Handler World
behind_permission none next c w = invalid "invalid workspace_id" c w
behind_permission (some allowed) next c w =
    if allowed
    then next c w
    else answer 403
        (error_response "permission_denied"
          "user does not have api_keys:create permission for the workspace")
        c w

abbrev pub behind_project : Option Bool → Handler World → Handler World
behind_project none next c w = invalid "invalid project_id" c w
behind_project (some belongs) next c w =
    if belongs then next c w else invalid "project_id does not belong to workspace_id" c w

-- The body of a created key.
abbrev pub key_json : (id name key prefix workspace_id project_id : String) → Json
key_json id name key prefix workspace_id project_id = obj (
    field "id" (str id) (
      field "name" (str name) (
        field "key" (str key) (
          field "prefix" (str prefix)
            (field "workspace_id" (str workspace_id) (field "project_id" (str project_id) end))))))

module _ (calls : Calls) where
  -- CreateAPIKeyWithProject in userCreateKey, with the key that was generated.
  abbrev pub store_key :
      (name workspace_id project_id : String) → Option (String × String) → Handler World
  store_key name workspace_id project_id none c w =
      answer 500 (error_response "internal_error" "failed to generate API key") c w
  store_key name workspace_id project_id (some (plain, key_hash)) c w =
      if calls.key_insert_fails workspace_id project_id
      then answer 500 (error_response "internal_error" "failed to store API key") c w
      else answer 201
          (value (key_json calls.new_id name plain calls.api_key_prefix workspace_id project_id)) c
          (record w {
            api_keys =
                w.api_keys
                ++ new_key calls.new_id (get_user_id c) key_hash workspace_id project_id ∷ [];
          })

  -- userCreateKey behind the checks of the workspace and the project.
  abbrev pub generate_key : (name workspace_id project_id : String) → Handler World
  generate_key name workspace_id project_id =
      store_key name workspace_id project_id
        (generate_api_key calls.sha256_hex calls.hex calls.api_key_prefix calls.random)

  abbrev pub checked_project : (name workspace_id project_id : String) → Handler World
  checked_project name workspace_id project_id c w =
      let next = generate_key name workspace_id project_id in
      if str_eq project_id ""
      then next c w
      else if str_eq workspace_id ""
      then invalid "workspace_id is required when project_id is provided" c w
      else behind_project (project_belongs_to_workspace calls project_id workspace_id) next c w

  -- userCreateKey. A body that cannot be read leaves the request's fields empty. A workspace of
  -- spaces alone goes to the database unchecked and as it is.
  unfoldable pub user_create_key : KeyRequest → Handler World
  unfolding generate_api_key
  user_create_key req c w =
      let name = if str_eq req.name "" then "default" else req.name in
      let project_id = trim_space req.project_id in
      let workspace_id = trim_space req.workspace_id in
      if str_eq workspace_id ""
      then checked_project name req.workspace_id project_id c w
      else behind_permission
          (workspace_member_has_permission calls.to_lower calls.members workspace_id (get_user_id c)
            "api_keys:create")
          (checked_project name workspace_id project_id) c w

  -- WHERE id = $1 AND user_id = $2
  abbrev pub is_key_of : (user_id key_id : String) → ApiKeyRow → Bool
  is_key_of user_id key_id row = str_eq row.id key_id && str_eq row.user_id user_id

  abbrev pub deactivate : (user_id key_id : String) → ApiKeyRow → ApiKeyRow
  deactivate user_id key_id row =
      if is_key_of user_id key_id row then record row { is_active = false } else row

  -- RevokeAPIKey: whether it succeeded.
  unfoldable pub revoke_api_key : (user_id key_id : String) → List ApiKeyRow → Bool × List ApiKeyRow
  revoke_api_key user_id key_id rows =
      if calls.update_fails
      then (false, rows)
      else (any (is_key_of user_id key_id) rows, map (deactivate user_id key_id) rows)

  -- userDeleteKey
  unfoldable pub user_delete_key : (key_id : String) → Handler World
  unfolding revoke_api_key
  user_delete_key key_id c w =
      if str_eq key_id ""
      then answer 400 (error_response "invalid_request_error" "key id is required") c w
      else let (revoked, rows) = revoke_api_key (get_user_id c) key_id w.api_keys in
        if revoked
        then answer 200 (value (obj (field "deleted" (bool true) (field "id" (str key_id) end)))) c
            (record w { api_keys = rows })
        else answer 500 (error_response "internal_error" "failed to revoke API key") c
            (record w { api_keys = rows })
