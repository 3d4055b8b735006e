-- ===== src/Auth/Tests.antt =====
-- Runs of the authentication middleware at concrete requests, and the laws applied there.
use mathlib.Core.Path.{subst}
use ai_aggregator.Prelude.{
  ℕ, suc, ◌≡◌, refl, sym, ◌≢◌, true, false, String, Option, none, some, [], ◌∷◌, arith, str_eq,
  if◌then◌else◌,
}
use ai_aggregator.Prelude.Int.{pos}
use ai_aggregator.Prelude.Text.{split_space}
use ai_aggregator.Prelude.Json.{str, end, field}
use ai_aggregator.Http.{Ctx, Handler, RawMessage, no_locals, no_body}
use ai_aggregator.Auth.{
  JwtToken, JwtLibrary, Claims, ApiKeyRow, Middleware, validate_jwt, require_auth, require_admin,
  authenticate_api_key, authenticate_jwt, find_api_key,
}
use ai_aggregator.Auth.Laws.{Guarded, require_auth-Guarded}
use ai_aggregator.Auth.Admin.{Bears, bearer-ne-empty, require_admin-world, require_admin_refused}

abbrev user_token : JwtToken
user_token = record {
  hmac = true;
  valid = true;
  claims = some (field "uid" (str "u1") (field "role" (str "user") end));
}

-- A library that knows one token.
abbrev parse_one : String → (JwtToken → Option String) → Option JwtToken
parse_one s key = elim (key user_token) [
  | none ↦ none
  | some _ ↦ if str_eq s "good" then some user_token else none
]

parse_one_keyed :
    (s : String) (key : JwtToken → Option String) (t : JwtToken)
    → parse_one s key ≡ some t
    → key t ≢ none
parse_one_keyed s key t e = ground arith

abbrev one_token : JwtLibrary
one_token = record { parse = parse_one; parse_keyed = parse_one_keyed }

abbrev key_row : ApiKeyRow
key_row = record {
  id = "k1";
  user_id = "u2";
  key_hash = "hash";
  workspace_id = "";
  project_id = "";
  permissions = RawMessage.empty;
  rate_limit_rpm = pos 5;
  rate_limit_tpm = pos 0;
  is_active = true;
  expires_at = some 100;
}

abbrev middleware : Middleware
middleware = record {
  jwt_secret = "secret";
  key_prefix = "sk-aggr-";
  jwt = one_token;
  sha256_hex = λ _. "hash";
  now = 50;
  api_keys = some (key_row ∷ []);
}

abbrev request : String → Ctx
request header = record {
  authorization = header;
  request_id = "r1";
  locals = no_locals;
  status = 200;
  headers = [];
  body = no_body;
}

-- A handler that counts its runs.
abbrev counting : Handler ℕ
counting c w = record { error = none; ctx = c; world = suc w }

auth_tests :
    ((require_auth middleware counting (request "") 0).ctx.status ≡ 401)
    × ((require_auth middleware counting (request "Basic x") 0).ctx.status ≡ 401)
    × ((require_auth middleware counting (request "Bearer good") 0).ctx.locals.user_id ≡ some "u1")
    × ((require_auth middleware counting (request "Bearer sk-aggr-abc") 0).ctx.locals.user_id
        ≡ some "u2")
    × ((require_auth
          (record middleware { now = 100 })
          counting
          (request "Bearer sk-aggr-abc")
          0).world
        ≡ 0)
unfolding require_auth authenticate_api_key authenticate_jwt find_api_key validate_jwt split_space
auth_tests = (refl, refl, refl, refl, refl)

abbrev claims : Claims
claims = record { user_id = "u1"; role = "user" }

accepted : validate_jwt one_token "secret" "good" ≡ some claims
unfolding validate_jwt
accepted = refl

require_auth-Guarded_example :
    Guarded middleware counting
      (request "Bearer sk-aggr-abc")
      0
      (require_auth middleware counting (request "Bearer sk-aggr-abc") 0)
require_auth-Guarded_example =
    require_auth-Guarded middleware counting (request "Bearer sk-aggr-abc") 0

abbrev bears_good : Bears middleware (request "Bearer good") claims
bears_good = record { token = "good"; header = refl; accepted = accepted }

-- A plain user's token: the handler runs once, and the answer is 403.
require_admin-world_example :
    (require_admin middleware counting (request "Bearer good") 0).world ≡ 1
require_admin-world_example =
    require_admin-world middleware counting (request "Bearer good") 0 claims bears_good

no_bearer : (c : Claims) → ¬ Bears middleware (request "") c
no_bearer c b =
    let full : str_eq "" "" ≡ false =
      subst (λ (s : String). str_eq s "" ≡ false) (sym b.header) (bearer-ne-empty b.token) in
    cc

require_admin_refused_example :
    ((require_admin middleware counting (request "") 0).world ≡ 0)
    × ((require_admin middleware counting (request "") 0).ctx.status ≡ 403)
require_admin_refused_example =
    require_admin_refused middleware counting (request "") 0 no_bearer refl
