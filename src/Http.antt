-- ===== src/Http.antt =====
-- What the handlers see of fiber (backend/internal/auth, ratelimit and gateway): the request's
-- context with the locals that the middleware sets, the response under construction, and handlers
-- as functions on the context and on the world outside.
use ai_aggregator.Prelude.{
  ℕ, Bool, String, Option, none, some, List, [], ◌∷◌, any, if◌then◌else◌, str_eq,
}
use ai_aggregator.Prelude.Int.{ℤ}
use ai_aggregator.Prelude.Json.{Json}

-- A case of a switch on strings.
abbrev pub is_one_of : List String → String → Bool
is_one_of names s = any (str_eq s) names

-- A json.RawMessage, by what json.Unmarshal makes of it.
pub data RawMessage : Type 0 where
  empty : RawMessage
  malformed : RawMessage
  parsed : Json → RawMessage

-- The keys of c.Locals that the program uses; `none` where nothing was stored.
pub record Locals : Type 0 where
  pub user_id : Option String
  pub user_role : Option String
  pub auth_type : Option String
  pub api_key_id : Option String
  pub workspace_id : Option String
  pub project_id : Option String
  pub permissions : Option RawMessage
  pub rate_limit_rpm : Option ℤ
  pub rate_limit_tpm : Option ℤ

abbrev pub no_locals : Locals
no_locals = record {
  user_id = none;
  user_role = none;
  auth_type = none;
  api_key_id = none;
  workspace_id = none;
  project_id = none;
  permissions = none;
  rate_limit_rpm = none;
  rate_limit_tpm = none;
}

-- A body is an error envelope (type, code, message; a missing code is "") or a value.
pub data Body : Type 0 where
  no_body : Body
  error_body : (kind code message : String) → Body
  value : Json → Body

-- A header's value is a number, which stands for its decimal text.
pub record Ctx : Type 0 where
  pub authorization : String
  pub request_id : String
  pub locals : Locals
  pub status : ℕ
  pub headers : List (String × ℤ)
  pub body : Body

-- c.Status(status).JSON(body)
abbrev pub respond : ℕ → Body → Ctx → Ctx
respond status body c = record c { status = status; body = body }

-- The error that a handler returns, the context and the world that it leaves.
pub record Outcome (W : Type 0) : Type 0 where
  pub error : Option String
  pub ctx : Ctx
  pub world : W

abbrev pub Handler : Type 0 → Type 0
Handler W = Ctx → W → Outcome W

-- A handler that only answers.
abbrev pub answer : {W : Type 0} → ℕ → Body → Handler W
answer status body c w = record { error = none; ctx = respond status body c; world = w }

-- localString
abbrev pub local_string : Option String → String
local_string (some s) = s
local_string none = ""

-- errorTypeForCode
unfoldable pub error_type_for_code : String → String
error_type_for_code code =
    if is_one_of
      ("missing_auth" ∷ "invalid_auth_format" ∷ "authentication_error" ∷ "invalid_api_key"
        ∷ "expired_token" ∷ [])
      code
    then "auth_error"
    else if is_one_of ("insufficient_balance" ∷ "quota_exceeded" ∷ []) code
    then "billing_error"
    else if is_one_of ("rate_limit_exceeded" ∷ []) code
    then "rate_limit_error"
    else if is_one_of ("permission_denied" ∷ []) code
    then "permission_error"
    else if is_one_of ("provider_timeout" ∷ "provider_unavailable" ∷ "upstream_error" ∷ []) code
    then "provider_error"
    else if is_one_of ("no_available_provider" ∷ "model_not_found" ∷ []) code
    then "routing_error"
    else if is_one_of ("invalid_request" ∷ "invalid_request_error" ∷ "unsupported_parameter" ∷ [])
        code
    then "validation_error"
    else if is_one_of ("conflict" ∷ "not_found" ∷ []) code
    then "client_error"
    else "internal_error"

-- errorResponse
abbrev pub error_response : (code message : String) → Body
error_response code message = error_body (error_type_for_code code) code message
