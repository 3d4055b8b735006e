-- ===== src/Credentials/Tests.antt =====
-- Sealing and the choice of a key at concrete rows.
use Prim.Native.Char.{code}
use ai_aggregator.Prelude.{
  ◌≡◌, refl, ℕ, ◌%◌, ◌<◌, true, false, String, Option, none, some, List, [], ◌∷◌, arith, All,
}
use ai_aggregator.Prelude.Text.{trim_space}
use ai_aggregator.Prelude.Json.{str}
use ai_aggregator.Http.{no_body, no_locals, Ctx}
use ai_aggregator.Prelude.Best.{best}
use ai_aggregator.Credentials.{
  bytes, hex_encode, hex_decode, strip_prefix, seal_credential_secret, unseal_local_secret, KeyRow,
  Secret, scoped_secret,
}
use ai_aggregator.Credentials.Keys.{
  KeyRequest, Calls, mask_credential_secret, first_where, create_provider_key_scoped,
  user_create_provider_key, user_revoke_provider_key, admin_revoke_provider_key,
}
use ai_aggregator.Credentials.Stored.{IsStored, user_create_provider_key-IsStored}
use ai_aggregator.Routing.Registry.{
  Provider, anthropic, Store, Router, key_from_env, resolve_key, adapter_for_request,
}

seal_tests :
    (seal_credential_secret (bytes "sk") ≡ bytes "local:v1:736b")
    × (unseal_local_secret (bytes "local:v1:736B") ≡ some (bytes "sk"))
    × (unseal_local_secret (bytes "local:v1:7") ≡ none)
    × (unseal_local_secret (bytes "vault:v1:73") ≡ none)
unfolding seal_credential_secret unseal_local_secret hex_encode
seal_tests = (refl, refl, refl, refl)

abbrev key : String → String → String → String → KeyRow
key id scope user_id workspace_id = record {
  id = id;
  provider_id = "p";
  key_ref = bytes "local:v1:736b";
  scope = scope;
  user_id = user_id;
  workspace_id = workspace_id;
  is_active = true;
}

abbrev rows : List KeyRow
rows =
    key "1" "platform" "" ""
    ∷ key "2" "user" "u" ""
    ∷ key "3" "workspace" "" "w"
    ∷ key "4" "user" "v" ""
    ∷ []

abbrev found : String → String → Option Secret
found id scope = some (record { secret = bytes "sk"; key_id = id; scope = scope })

scope_tests :
    (scoped_secret (some rows) "p" "u" " w " ≡ found "3" "workspace")
    × (scoped_secret (some rows) "p" "u" "" ≡ found "2" "user")
    × (scoped_secret (some rows) "p" "" "" ≡ found "1" "platform")
    × (scoped_secret (some rows) "q" "u" "w"
        ≡ some (record { secret = []; key_id = ""; scope = "" }))
unfolding scoped_secret unseal_local_secret best hex_decode strip_prefix trim_space
scope_tests = (refl, refl, refl, refl)

shared_key : scoped_secret (some rows) "p" "u" "w" ≡ found "3" "workspace"
unfolding scoped_secret unseal_local_secret best hex_decode strip_prefix trim_space
shared_key = refl

-- A router with a provider that is called over HTTP, whose adapter has an older key.
abbrev provider : Provider
provider = record {
  id = "p";
  adapter_type = "anthropic";
  base_url = "https://example.org";
  is_enabled = true;
}

abbrev tables : Router ℕ
tables = record {
  adapters = ("p", anthropic "p" "https://example.org" (bytes "old")) ∷ [];
  providers = ("p", provider) ∷ [];
  models = [];
  mock_mode = false;
}

abbrev stored_rows : List KeyRow → Store ℕ
stored_rows keys = record {
  providers = some (provider ∷ []);
  models = some [];
  bindings = λ _. none;
  policies = some [];
  stats = λ _. some [];
  keys = some keys;
  env = λ _. [];
}

-- A new key of the user "v", whose own key stands among the rows.
abbrev octets : String → List ℕ
octets String.[] = []
octets (String.◌∷◌ c s) = (code c % 256) ∷ octets s

octets-IsBytes : (s : String) → All (λ b. b < 256) (octets s)
octets-IsBytes String.[] = tt
octets-IsBytes (String.◌∷◌ c s) = (omega arith, octets-IsBytes s)

abbrev key_calls : Calls
key_calls = record {
  utf8 = octets;
  provider_enabled = λ _. some true;
  new_id = "5";
  key_json = λ row _. str row.id;
  insert_fails = false;
  update_fails = false;
}

abbrev request : KeyRequest
request = record {
  provider_id = " p";
  key_name = "mine";
  secret = "sk ";
  scope = "";
  user_id = "";
  workspace_id = "";
}

abbrev ctx : Ctx
ctx = record {
  authorization = "";
  request_id = "";
  locals = record no_locals { user_id = some "v" };
  status = 200;
  headers = [];
  body = no_body;
}

mask_tests :
    (mask_credential_secret (bytes "sk-12345") ≡ bytes "********")
    × (mask_credential_secret (bytes "sk-1234567") ≡ bytes "sk-1********4567")
unfolding mask_credential_secret
mask_tests = (refl, refl)

create_status : (user_create_provider_key key_calls (some request) ctx rows).ctx.status ≡ 201
unfolding user_create_provider_key create_provider_key_scoped mask_credential_secret trim_space
    seal_credential_secret hex_encode
create_status = refl

user_create_provider_key-IsStored_example :
    IsStored key_calls request rows ctx (user_create_provider_key key_calls (some request) ctx rows)
user_create_provider_key-IsStored_example =
    user_create_provider_key-IsStored key_calls octets-IsBytes request rows ctx

-- The key "4" of "v" is revoked, and the key "2" of "u" is not.
revoke_tests :
    ((user_revoke_provider_key key_calls " 4 " ctx rows).ctx.status ≡ 200)
    × ((user_revoke_provider_key key_calls "2" ctx rows).ctx.status ≡ 404)
    × ((admin_revoke_provider_key key_calls "p" "2" ctx rows).ctx.status ≡ 200)
unfolding user_revoke_provider_key admin_revoke_provider_key trim_space first_where
revoke_tests = (refl, refl, refl)

-- With its only row revoked and nothing in the environment, a provider is called with the old key.
stale_key :
    adapter_for_request
      (stored_rows
        ((admin_revoke_provider_key key_calls "p" "1" ctx (key "1" "platform" "" "" ∷ [])).world))
      tables
      "p"
      "u"
      ""
    ≡ some (anthropic "p" "https://example.org" (bytes "old"), "", "")
unfolding adapter_for_request resolve_key key_from_env scoped_secret admin_revoke_provider_key
    trim_space first_where best
stale_key = refl
