-- ===== src/Accounts/Registration.antt =====
-- Registration, login and the renewal of a token: userRegister, userLogin, userRefreshToken and
-- userGetProfile (backend/internal/gateway/router.go), with CreateUser, GetUserByEmail and
-- GetUserByID (backend/internal/storage/store.go).
use ai_aggregator.Prelude.{
  ℕ, Bool, ◌||◌, String, Option, none, some, List, [], ◌∷◌, ◌++◌, any, lookup, if◌then◌else◌,
  str_eq, ltb,
}
use ai_aggregator.Prelude.Text.{has_prefix}
use ai_aggregator.Prelude.Json.{Json, str, obj, field, end}
use ai_aggregator.Http.{value, Handler, answer, error_response}
use ai_aggregator.Auth.{Claims, get_user_id}
use ai_aggregator.Billing.{grant_credit, set_balance}
use ai_aggregator.Accounts.{User, World, Calls}

pub record RegisterRequest : Type 0 where
  pub email : String
  pub username : String
  pub password : String

pub record LoginRequest : Type 0 where
  pub email : String
  pub password : String

-- The result of CreateUser.
pub data Created : Type 0 where
  made : User → World → Created
  already_exists : Created
  not_inserted : Created

abbrev pub new_user : (id email username password_hash : String) → User
new_user id email username password_hash = record {
  id = id;
  email = email;
  username = username;
  password_hash = password_hash;
  role = "user";
}

-- users.email and users.username are unique.
abbrev pub is_taken : (email username : String) → List User → Bool
is_taken email username users =
    any (λ (u : User). str_eq u.email email || str_eq u.username username) users

abbrev pub has_email : String → User → Bool
has_email email u = str_eq u.email email

abbrev pub has_id : String → User → Bool
has_id id u = str_eq u.id id

abbrev pub find_user : (User → Bool) → List User → Option User
find_user p [] = none
find_user p (u ∷ rest) = if p u then some u else find_user p rest

-- initialCreditsUSD, ten dollars
abbrev pub initial_credits : ℕ
initial_credits = 100000000000

abbrev pub session_json : (token : String) → User → Json
session_json token u = obj (
    field "token" (str token) (
      field "user"
        (obj (
          field "id" (str u.id) (
            field "email" (str u.email)
              (field "username" (str u.username) (field "role" (str u.role) end)))))
        end))

module _ (calls : Calls) where
  -- CreateUser: a row with the role "user" and no money.
  unfoldable pub create_user : (email username password_hash : String) → World → Created
  create_user email username password_hash w =
      let u = new_user calls.new_id email username password_hash in
      if calls.user_insert_fails
      then not_inserted
      else if is_taken email username w.users
      then already_exists
      else made u
          (record w { users = w.users ++ u ∷ []; money = set_balance calls.new_id 0 w.money })

  -- GetUserByEmail and GetUserByID, `none` for an error.
  unfoldable pub get_user_by_email : String → World → Option User
  get_user_by_email email w =
      if calls.query_fails then none else find_user (has_email email) w.users

  unfoldable pub get_user_by_id : String → World → Option User
  get_user_by_id id w = if calls.query_fails then none else find_user (has_id id) w.users

  abbrev pub signed_in : ℕ → User → Option String → Handler World
  signed_in status u none c w =
      answer 500 (error_response "internal_error" "failed to generate token") c w
  signed_in status u (some token) c w = answer status (value (session_json token u)) c w

  -- userRegister behind CreateUser.
  abbrev pub welcome : Created → Handler World
  welcome not_inserted c w =
      answer 500 (error_response "internal_error" "failed to create user") c w
  welcome already_exists c w =
      answer 409 (error_response "conflict" "email or username is already registered") c w
  welcome (made u w') c w =
      signed_in 201 u (calls.generate_jwt u.id "user") c
        (record w' { money = grant_credit calls.faults u.id initial_credits w'.money })

  abbrev pub with_password : (email username : String) → Option String → Handler World
  with_password email username none c w =
      answer 500 (error_response "internal_error" "failed to process password") c w
  with_password email username (some password_hash) c w =
      welcome (create_user email username password_hash w) c w

  -- userRegister; no request where the body cannot be read.
  unfoldable pub user_register : Option RegisterRequest → Handler World
  unfolding create_user
  user_register none c w =
      answer 400 (error_response "invalid_request_error" "invalid request body") c w
  user_register (some req) c w =
      if str_eq req.email ""
      then answer 400 (error_response "invalid_request_error" "email is required") c w
      else if str_eq req.password ""
      then answer 400 (error_response "invalid_request_error" "password is required") c w
      else if ltb (calls.byte_length req.password) 8
      then answer 400
          (error_response "invalid_request_error" "password must be at least 8 characters") c w
      else with_password req.email (if str_eq req.username "" then req.email else req.username)
          (calls.bcrypt_hash req.password) c w

  abbrev pub wrong : Handler World
  wrong c w = answer 401 (error_response "authentication_error" "invalid email or password") c w

  abbrev pub compare_password : Option User → (password : String) → Handler World
  compare_password none password c w = wrong c w
  compare_password (some u) password c w =
      if calls.bcrypt_matches u.password_hash password
      then signed_in 200 u (calls.generate_jwt u.id u.role) c w
      else wrong c w

  -- userLogin; no request where the body cannot be read.
  unfoldable pub user_login : Option LoginRequest → Handler World
  unfolding get_user_by_email
  user_login none c w =
      answer 400 (error_response "invalid_request_error" "invalid request body") c w
  user_login (some req) c w =
      if str_eq req.email "" || str_eq req.password ""
      then answer 400 (error_response "invalid_request_error" "email and password are required") c w
      else compare_password (get_user_by_email req.email w) req.password c w

  -- `balance_json` is the JSON of a balance.
  abbrev profile_fields : (balance_json : ℕ → Json) → User → Option ℕ → Json
  profile_fields balance_json u balance = obj (
      field "id" (str u.id) (
        field "email" (str u.email) (
          field "username" (str u.username) (
            field "role" (str u.role)
              (field "balance_usd" (balance_json (elim balance [ none ↦ 0 | some b ↦ b ])) end)))))

  abbrev not_found : Handler World
  not_found c w = answer 404 (error_response "not_found" "user not found") c w

  -- userRefreshToken behind its checks: `claims` is what ValidateJWT makes of the token.
  abbrev renew : (balance_json : ℕ → Json) → Claims → Option String → Option User → Handler World
  renew balance_json claims none user c w =
      answer 500 (error_response "internal_error" "failed to generate token") c w
  renew balance_json claims (some token) none c w = not_found c w
  renew balance_json claims (some token) (some u) c w =
      answer 200
        (value (
          obj (
            field "token" (str token)
              (field "user" (profile_fields balance_json u (lookup u.id w.money.balances)) end))))
        c w

  abbrev renew_claims : (balance_json : ℕ → Json) → Option Claims → Handler World
  renew_claims balance_json none c w =
      answer 401 (error_response "authentication_error" "invalid token") c w
  renew_claims balance_json (some claims) c w =
      renew balance_json claims (calls.generate_jwt claims.user_id claims.role)
        (get_user_by_id claims.user_id w) c w

  -- userRefreshToken: `validate` is ValidateJWT on the header without "Bearer ".
  unfoldable pub user_refresh_token :
      (balance_json : ℕ → Json) (validate : (authorization : String) → Option Claims)
      → Handler World
  unfolding get_user_by_id
  user_refresh_token balance_json validate c w =
      if has_prefix c.authorization "Bearer "
      then renew_claims balance_json (validate c.authorization) c w
      else answer 401 (error_response "authentication_error" "bearer token is required") c w

  -- userGetProfile
  unfoldable pub user_get_profile : (balance_json : ℕ → Json) → Handler World
  unfolding get_user_by_id
  user_get_profile balance_json c w = elim (get_user_by_id (get_user_id c) w) [
    | none ↦ not_found c w
    | some u ↦ answer 200 (value (profile_fields balance_json u (lookup u.id w.money.balances))) c w
  ]
