-- ===== src/Accounts/Tests.antt =====
-- Runs of registration, login and the handlers of API keys, and their laws applied there.
use Prim.Native.String
use ai_aggregator.Prelude.{
  ◌≡◌, refl, true, false, String, Option, none, some, [], ◌∷◌, str_eq, eq_iff, arith,
}
use ai_aggregator.Prelude.Text.{trim_space}
use ai_aggregator.Http.{Ctx, no_locals, no_body}
use ai_aggregator.Auth.{generate_api_key}
use ai_aggregator.Accounts.{
  World, Calls, KeyRequest, user_create_key, user_delete_key, revoke_api_key,
}
use ai_aggregator.Accounts.Registration.{
  RegisterRequest, user_register, user_login, create_user, get_user_by_email,
}
use ai_aggregator.Accounts.Login.{IsRegistered, user_register-IsRegistered}
use ai_aggregator.Accounts.ApiKeys.{
  IsCreated, IsDeleted, user_create_key-IsCreated, user_delete_key-IsDeleted,
}

-- A hash is the password itself.
abbrev calls : Calls
calls = record {
  sha256_hex = String.◌++◌ "hash of ";
  hex = λ _. "00";
  random = some (0 ∷ []);
  bcrypt_hash = some;
  bcrypt_matches = str_eq;
  generate_jwt = λ u r. some u;
  byte_length = λ _. 9;
  api_key_prefix = "sk-aggr-";
  to_lower = λ s. s;
  members = record { rows = []; fails = λ _ _. true };
  project_exists = λ _ _. none;
  new_id = "n1";
  key_insert_fails = λ _ _. false;
  user_insert_fails = false;
  query_fails = false;
  update_fails = false;
  faults = record { usage = false; balance = false; transaction = false };
}

abbrev start : World
start = record {
  users = [];
  api_keys = [];
  money = record { balances = []; usage = []; transactions = [] };
}

abbrev request : Ctx
request = record {
  authorization = "";
  request_id = "q1";
  locals = record no_locals { user_id = some "u1" };
  status = 200;
  headers = [];
  body = no_body;
}

abbrev register : Option RegisterRequest
register = some (record { email = "a@b"; username = ""; password = "long enough" })

abbrev key : KeyRequest
key = record { name = "k"; workspace_id = ""; project_id = "" }

abbrev with_key : World
with_key = (user_create_key calls key request start).world

account_tests :
    ((user_login calls
        (some (record { email = "a@b"; password = "wrong" }))
        request
        (user_register calls register request start).world).ctx.status
      ≡ 401)
    × ((user_delete_key calls "n1" request with_key).ctx.status ≡ 200)
    × ((user_delete_key calls "n2" request with_key).ctx.status ≡ 500)
unfolding user_register user_login create_user get_user_by_email user_create_key user_delete_key
    revoke_api_key generate_api_key trim_space
account_tests = (refl, refl, refl)

same_text : (password hash : String) → some password ≡ some hash → str_eq hash password ≡ true
same_text password hash e = ground (arith, eq_iff hash password)

user_register-IsRegistered_example :
    IsRegistered calls start register (user_register calls register request start)
user_register-IsRegistered_example =
    user_register-IsRegistered calls refl same_text register start request

user_create_key-IsCreated_example :
    IsCreated calls start request (user_create_key calls key request start)
user_create_key-IsCreated_example = user_create_key-IsCreated calls start request key

user_delete_key-IsDeleted_example :
    IsDeleted calls "n1" with_key request (user_delete_key calls "n1" request with_key)
user_delete_key-IsDeleted_example = user_delete_key-IsDeleted calls "n1" with_key request
