-- ===== src/Access.antt =====
-- What members of a workspace and API keys may do: requireWorkspacePermission,
-- requireAPIKeyModelAccess and requireWorkspaceLimits (backend/internal/gateway/router.go),
-- WorkspaceMemberHasPermission and its helpers (backend/internal/storage/store.go). strings.ToLower
-- is a parameter; members of a JSON object are found by their exact keys.
use Prim.Native.String
use ai_aggregator.Prelude.{
  ℕ, ◌≡◌, Bool, true, false, ◌&&◌, ◌||◌, String, Option, none, some, List, [], ◌∷◌, any,
  if◌then◌else◌, str_eq,
}
use ai_aggregator.Prelude.Text.{trim_space}
use ai_aggregator.Prelude.Best.{best}
use ai_aggregator.Prelude.Json.{
  Json, null, bool, str, arr, obj, Items, nil, cons, items, get, as_string,
}
use ai_aggregator.Http.{
  RawMessage, parsed, malformed, Ctx, Handler, Outcome, respond, answer, error_response, is_one_of,
  local_string,
}
mod Permissions
mod Roles
mod Keys
pub mod Limits
mod Tests

abbrev member_permissions : List String
member_permissions =
    "api_keys:create" ∷ "api_keys:read" ∷ "usage:read" ∷ "files:write" ∷ "files:read"
    ∷ "workflows:write" ∷ "workflows:read" ∷ []

abbrev viewer_permissions : List String
viewer_permissions = "api_keys:read" ∷ "usage:read" ∷ "files:read" ∷ "workflows:read" ∷ []

-- The switch of workspaceRoleNameAllows, on the name in lower case.
unfoldable pub role_allows : (role permission : String) → Bool
role_allows role permission =
    if is_one_of ("owner" ∷ "admin" ∷ []) role
    then true
    else if str_eq role "member"
    then is_one_of member_permissions permission
    else if is_one_of ("viewer" ∷ "read_only" ∷ "readonly" ∷ []) role
    then is_one_of viewer_permissions permission
    else false

-- workspaceRoleNameAllows
abbrev pub workspace_role_name_allows :
    (to_lower : String → String) (role_name permission : String) → Bool
workspace_role_name_allows to_lower role_name permission =
    role_allows (to_lower (trim_space role_name)) permission

-- json.Unmarshal of an item into a string, and of a value into a []string.
abbrev text_of : Json → Option String
text_of null = some ""
text_of (str s) = some s
text_of _ = none

abbrev texts_of : Items → Option (List String)
texts_of nil = some []
texts_of (cons v vs) = elim (text_of v) [
  | none ↦ none
  | some s ↦ elim (texts_of vs) [ none ↦ none | some ss ↦ some (s ∷ ss) ]
]

abbrev pub strings_of : Json → Option (List String)
strings_of null = some []
strings_of (arr vs) = texts_of vs
strings_of _ = none

abbrev pub is_true : Option Json → Bool
is_true (some (bool b)) = b
is_true _ = false

abbrev pub object_allows : Json → String → Bool
object_allows (obj fs) permission = is_true (get "*" fs) || is_true (get permission fs)
object_allows _ permission = false

-- permissionSetAllows
unfoldable pub permission_set_allows : RawMessage → String → Bool
permission_set_allows RawMessage.empty permission = false
permission_set_allows malformed permission = false
permission_set_allows (parsed v) permission = elim (strings_of v) [
  | some values ↦ any (λ value. str_eq value "*" || str_eq value permission) values
  | none ↦ object_allows v permission
]

-- A row of workspace_members JOIN workspaces LEFT JOIN roles, with the permissions of its role, and
-- none without a role; and the table with the ids for which the query fails.
pub record MemberRow : Type 0 where
  pub workspace_id : String
  pub user_id : String
  pub status : String
  pub role_name : String
  pub permissions : Option RawMessage

pub record Members : Type 0 where
  pub rows : List MemberRow
  pub fails : (workspace_id user_id : String) → Bool

-- The WHERE and the ORDER BY of the query: rows with a role come first.
abbrev pub member_rank : (workspace_id user_id : String) → MemberRow → Option ℕ
member_rank workspace_id user_id row =
    if str_eq row.workspace_id workspace_id
      && str_eq row.user_id user_id
      && str_eq row.status "active"
    then some (elim row.permissions [ none ↦ 2 | some _ ↦ 1 ])
    else none

-- COALESCE(r.permissions, '[]')
abbrev pub or_no_permissions : Option RawMessage → RawMessage
or_no_permissions none = parsed (arr nil)
or_no_permissions (some raw) = raw

abbrev pub allows_member : (to_lower : String → String) (permission : String) → MemberRow → Bool
allows_member to_lower permission row =
    workspace_role_name_allows to_lower row.role_name permission
    || permission_set_allows (or_no_permissions row.permissions) permission

-- WorkspaceMemberHasPermission: `none` for an error of the query.
unfoldable pub workspace_member_has_permission :
    (to_lower : String → String)
    → Members
    → (workspace_id user_id permission : String) → Option Bool
workspace_member_has_permission to_lower members workspace_id user_id permission =
    if str_eq permission ""
    then some false
    else if members.fails workspace_id user_id
    then none
    else elim (best (member_rank workspace_id user_id) members.rows) [
      | none ↦ some false
      | some (_, row) ↦ some (allows_member to_lower permission row)
    ]

-- requireWorkspacePermission: whether the caller may go on, and the context.
unfoldable pub require_workspace_permission :
    (to_lower : String → String)
    → Members
    → (workspace_id permission denied_message : String) → Ctx
    → Bool × Ctx
require_workspace_permission to_lower members workspace_id permission denied_message c =
    let user_id = local_string c.locals.user_id in
    if str_eq workspace_id ""
    then (false, respond 400 (error_response "invalid_request" "workspace id is required") c)
    else if str_eq user_id ""
    then (false, respond 401 (error_response "authentication_error" "user is not authenticated") c)
    else elim (workspace_member_has_permission to_lower members workspace_id user_id permission) [
      | none ↦ (false, respond 400 (error_response "invalid_request" "invalid workspace_id") c)
      | some allowed ↦
          if allowed
          then (true, c)
          else (false, respond 403 (error_response "permission_denied" denied_message) c)
    ]

abbrev pub is_model : String → Json → Bool
is_model model_id v = elim (as_string v) [
  | none ↦ false
  | some s ↦ str_eq s "*" || str_eq s model_id
]

-- apiKeyAllowsModel
unfoldable pub api_key_allows_model : RawMessage → String → Bool
api_key_allows_model (parsed (obj fs)) model_id = elim (get "models" fs) [
  | none ↦ true
  | some null ↦ true
  | some (str s) ↦ str_eq s "*" || str_eq s model_id
  | some (arr vs) ↦ any (is_model model_id) (items vs)
  | some _ ↦ true
]
api_key_allows_model _ model_id = true

-- requireAPIKeyModelAccess; `model_id` is what requestedModelID finds.
unfoldable pub require_api_key_model_access :
    {W : Type 0} (model_id : String) → Handler W → Handler W
require_api_key_model_access model_id next c w =
    if str_eq (local_string c.locals.auth_type) "api_key"
    then if str_eq model_id "" then next c w else elim c.locals.permissions [
      | none ↦ next c w
      | some RawMessage.empty ↦ next c w
      | some raw ↦
          if api_key_allows_model raw model_id
          then next c w
          else answer 403
              (error_response "permission_denied"
                (String.◌++◌ "API key is not allowed to access model: " model_id))
              c w
    ]
    else next c w
