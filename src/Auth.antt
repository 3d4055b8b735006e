-- ===== src/Auth.antt =====
-- Authentication: backend/internal/auth/middleware.go, and the query behind ValidateAPIKey in
-- backend/internal/storage/store.go. SHA-256 and the JWT library are parameters.
pub mod Laws
pub mod Admin
mod Tests
use ai_aggregator.Prelude.{
  ℕ, ◌≤◌, ◌≡◌, ◌≢◌, Bool, true, false, ◌&&◌, ◌||◌, not, String, Option, none, some, List, [], ◌∷◌,
  if◌then◌else◌, ltb, str_eq,
}
use ai_aggregator.Prelude.Int.{ℤ, pos, ltb_ℤ}
use ai_aggregator.Prelude.Text.{split_space, has_prefix}
use ai_aggregator.Prelude.Json.{Json, Fields, get, as_string}
use ai_aggregator.Http.{RawMessage, Locals, Body, error_body, Ctx, Outcome, Handler, answer}

-- A parsed token of the JWT library: whether its method is of the HMAC family, its claims (`none`
-- if they are no MapClaims) and whether the library marked it valid.
pub record JwtToken : Type 0 where
  pub hmac : Bool
  pub valid : Bool
  pub claims : Option Fields

-- jwt.Parse, given the token's text and the key function. The library returns a token without an
-- error only if the key function gave a key for it.
pub record JwtLibrary : Type 0 where
  pub parse : String → (JwtToken → Option String) → Option JwtToken
  pub parse_keyed :
      (s : String) (key : JwtToken → Option String) (t : JwtToken)
      → parse s key ≡ some t
      → key t ≢ none

pub record Claims : Type 0 where
  pub user_id : String
  pub role : String

-- A row of api_keys, with COALESCE applied; `expires_at` is `none` for NULL.
pub record ApiKeyRow : Type 0 where
  pub id : String
  pub user_id : String
  pub key_hash : String
  pub workspace_id : String
  pub project_id : String
  pub permissions : RawMessage
  pub rate_limit_rpm : ℤ
  pub rate_limit_tpm : ℤ
  pub is_active : Bool
  pub expires_at : Option ℕ

-- expires_at IS NULL OR expires_at > now()
abbrev pub is_unexpired : ℕ → Option ℕ → Bool
is_unexpired now none = true
is_unexpired now (some t) = ltb now t

-- Store.ValidateAPIKey: the row that the query returns.
unfoldable pub validate_api_key : ℕ → String → List ApiKeyRow → Option ApiKeyRow
validate_api_key now key_hash [] = none
validate_api_key now key_hash (row ∷ rows) =
    if str_eq row.key_hash key_hash && row.is_active && is_unexpired now row.expires_at
    then some row
    else validate_api_key now key_hash rows

-- The middleware's fields, and what it calls. `api_keys` is `none` where the query fails.
pub record Middleware : Type 0 where
  pub jwt_secret : String
  pub key_prefix : String
  pub jwt : JwtLibrary
  pub sha256_hex : String → String
  pub now : ℕ
  pub api_keys : Option (List ApiKeyRow)

-- The key function of ValidateJWT.
abbrev pub jwt_key : String → JwtToken → Option String
jwt_key secret t = if t.hmac then some secret else none

-- mapClaims["k"].(string), "" where the assertion fails
abbrev pub claim_string : String → Fields → String
claim_string k fs = elim (get k fs) [
  | none ↦ ""
  | some v ↦ elim (as_string v) [ none ↦ "" | some s ↦ s ]
]

abbrev pub claims_of : Option Fields → Option Claims
claims_of none = none
claims_of (some fs) =
    let user_id = claim_string "uid" fs in
    let role = claim_string "role" fs in
    if str_eq user_id "" || str_eq role ""
    then none
    else some (record { user_id = user_id; role = role })

-- ValidateJWT
unfoldable pub validate_jwt : JwtLibrary → String → String → Option Claims
validate_jwt jwt secret token = elim (jwt.parse token (jwt_key secret)) [
  | none ↦ none
  | some t ↦ if not t.valid then none else claims_of t.claims
]

abbrev pub error_auth : String → Body
error_auth message = error_body "authentication_error" "" message

-- c.Locals(key, limit) if limit > 0
abbrev pub local_if_positive : ℤ → Option ℤ → Option ℤ
local_if_positive limit old = if ltb_ℤ (pos 0) limit then some limit else old

abbrev pub with_api_key : ApiKeyRow → Ctx → Ctx
with_api_key row c = record c {
  locals = record c.locals {
    user_id = some row.user_id;
    api_key_id = some row.id;
    workspace_id = some row.workspace_id;
    project_id = some row.project_id;
    auth_type = some "api_key";
    permissions = some row.permissions;
    rate_limit_rpm = local_if_positive row.rate_limit_rpm c.locals.rate_limit_rpm;
    rate_limit_tpm = local_if_positive row.rate_limit_tpm c.locals.rate_limit_tpm;
  };
}

abbrev pub with_claims : Claims → Ctx → Ctx
with_claims claims c = record c {
  locals = record c.locals {
    user_id = some claims.user_id;
    user_role = some claims.role;
    auth_type = some "jwt";
  };
}

-- The look-up of authenticateAPIKey; no row where the query fails.
unfoldable pub find_api_key : Middleware → String → Option ApiKeyRow
unfolding validate_api_key
find_api_key m key = elim m.api_keys [
  | none ↦ none
  | some rows ↦ validate_api_key m.now (m.sha256_hex key) rows
]

-- role == "admin" || role == "super_admin"
abbrev pub is_admin : Option String → Bool
is_admin none = false
is_admin (some role) = str_eq role "admin" || str_eq role "super_admin"

-- RequireAdmin's test of what RequireJWT left.
unfoldable pub judge_admin : {W : Type 0} → Outcome W → Outcome W
judge_admin done = elim done.error [
  | some e ↦ done
  | none ↦
      if is_admin done.ctx.locals.user_role
      then done
      else answer 403 (error_body "permission_denied" "admin_required" "admin access required")
          done.ctx done.world
]

module _ {W : Type 0} (m : Middleware) (next : Handler W) where
  -- authenticateAPIKey
  unfoldable pub authenticate_api_key : String → Handler W
  authenticate_api_key key c w = elim (find_api_key m key) [
    | none ↦ answer 401 (error_auth "invalid or expired API key") c w
    | some row ↦ next (with_api_key row c) w
  ]

  -- authenticateJWT
  unfoldable pub authenticate_jwt : String → Handler W
  authenticate_jwt token c w = elim (validate_jwt m.jwt m.jwt_secret token) [
    | none ↦ answer 401 (error_auth "invalid or expired JWT") c w
    | some claims ↦ next (with_claims claims c) w
  ]

  require_token : (missing invalid : Body) (k : String → Handler W) → Handler W
  require_token missing invalid k c w =
      if str_eq c.authorization ""
      then answer 401 missing c w
      else elim (split_space c.authorization) [
        | none ↦ answer 401 invalid c w
        | some (scheme, token) ↦
            if str_eq scheme "Bearer" then k token c w else answer 401 invalid c w
      ]

  -- RequireAuth
  unfoldable pub require_auth : Handler W
  unfolding require_token
  require_auth =
      require_token
        (error_body "authentication_error" "missing_auth" "missing Authorization header")
        (error_body "authentication_error" "invalid_auth_format"
          "invalid Authorization format, expected: Bearer <token>")
        (λ token c w.
          if has_prefix token m.key_prefix
          then authenticate_api_key token c w
          else authenticate_jwt token c w)

  -- RequireJWT
  unfoldable pub require_jwt : Handler W
  unfolding require_token
  require_jwt =
      require_token (error_auth "missing Authorization header")
        (error_auth "invalid Authorization format") authenticate_jwt

  -- RequireAdmin: the call of RequireJWT already runs the rest of the chain.
  unfoldable pub require_admin : Handler W
  require_admin c w = judge_admin (require_jwt c w)

-- GetUserID
abbrev pub get_user_id : Ctx → String
get_user_id c = elim c.locals.user_id [ none ↦ "" | some uid ↦ uid ]

-- GenerateAPIKey, on the bytes of crypto/rand, which may fail: the plain key and its hash.
unfoldable pub generate_api_key :
    (sha256_hex : String → String) (hex : List ℕ → String)
    → String
    → Option (List ℕ)
    → Option (String × String)
generate_api_key sha256_hex hex prefix none = none
generate_api_key sha256_hex hex prefix (some bytes) =
    let plain = Prim.Native.String.◌++◌ prefix (hex bytes) in some (plain, sha256_hex plain)
