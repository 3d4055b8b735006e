-- ===== src/Access/Tests.antt =====
-- Runs of the access checks, and their laws at concrete members and keys.
use ai_aggregator.Prelude.{◌≡◌, refl, Bool, none, true, false, String, some, List, [], ◌∷◌, str_eq}
use ai_aggregator.Prelude.Text.{trim_space}
use ai_aggregator.Prelude.Best.{best}
use ai_aggregator.Prelude.Json.{str, arr, obj, cons, nil, field, end}
use ai_aggregator.Http.{RawMessage, parsed, Ctx, Handler, answer, no_locals, no_body}
use ai_aggregator.Access.{
  MemberRow, Members, role_allows, permission_set_allows, workspace_member_has_permission,
  require_workspace_permission, require_api_key_model_access, api_key_allows_model,
}
use ai_aggregator.Access.Roles.{IsGranted, require_workspace_permission-IsGranted}
use ai_aggregator.Access.Limits.{Quota, Limits, check_quotas, exceeded}
use ai_aggregator.Routing.Tests.{whole}
use ai_aggregator.Prelude.Int.{ℤ, pos}
use ai_aggregator.Access.Keys.{IsGated, require_api_key_model_access-IsGated}

-- A key for the model m1 alone.
abbrev key_permissions : RawMessage
key_permissions = parsed (obj (field "models" (arr (cons (str "m1") nil)) end))

only_m1 :
    (api_key_allows_model key_permissions "m1" ≡ true)
    × (api_key_allows_model key_permissions "m2" ≡ false)
unfolding api_key_allows_model
only_m1 = (refl, refl)

abbrev ctx : Ctx
ctx = record {
  authorization = "";
  request_id = "r1";
  locals = record no_locals {
    user_id = some "u1";
    auth_type = some "api_key";
    permissions = some key_permissions;
  };
  status = 200;
  headers = [];
  body = no_body;
}

abbrev handler : Handler String
handler c w = answer 200 no_body c "served"

-- A viewer of the workspace "w1", whose membership of "w2" has ended.
abbrev row : (workspace_id status role_name : String) → MemberRow
row workspace_id status role_name = record {
  workspace_id = workspace_id;
  user_id = "u1";
  status = status;
  role_name = role_name;
  permissions = none;
}

abbrev members : Members
members = record {
  rows = row "w1" "active" "viewer" ∷ row "w2" "left" "owner" ∷ [];
  fails = λ _ _. false;
}

abbrev allowed_in : String → String → Bool
allowed_in workspace_id permission =
    (require_workspace_permission (λ s. s) members workspace_id permission "no access" ctx).0

member_tests :
    (allowed_in "w1" "files:read" ≡ true)
    × (allowed_in "w1" "files:write" ≡ false)
    × (allowed_in "w2" "files:read" ≡ false)
unfolding require_workspace_permission workspace_member_has_permission role_allows
    permission_set_allows best trim_space
member_tests = (refl, refl, refl)

require_workspace_permission-IsGranted_example :
    IsGranted
      (λ s. s)
      members
      "w1"
      "files:read"
      ctx
      (require_workspace_permission (λ s. s) members "w1" "files:read" "no access" ctx)
require_workspace_permission-IsGranted_example =
    require_workspace_permission-IsGranted (λ s. s) members "w1" "files:read" "no access" ctx

require_api_key_model_access-IsGated_example :
    IsGated "m2" handler ctx "idle" (require_api_key_model_access "m2" handler ctx "idle")
require_api_key_model_access-IsGated_example =
    require_api_key_model_access-IsGated "m2" handler ctx "idle"

-- Of two quotas the second is reached.
abbrev quotas : List (Quota ℤ)
quotas =
    record { quota_type = "requests_per_minute"; limit_value = pos 60 }
    ∷ record { quota_type = "tokens_per_month"; limit_value = pos 1000 }
    ∷ []

abbrev limits : Limits ℤ
limits = record {
  spend = some (pos 5);
  budget = some (pos 10);
  quotas = some quotas;
  current = λ quota_type.
      some (elim (str_eq quota_type "requests_per_minute") [ true ↦ pos 3 | false ↦ pos 1000 ]);
}

tokens_reached :
    check_quotas whole limits quotas ≡ exceeded "workspace quota exceeded: tokens_per_month"
unfolding check_quotas
tokens_reached = refl
