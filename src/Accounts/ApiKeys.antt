-- ===== src/Accounts/ApiKeys.antt =====
-- The life of an API key, from userCreateKey to userDeleteKey
-- (backend/internal/gateway/router.go), with ValidateAPIKey (backend/internal/storage/store.go),
-- by which the key authenticates.
use Prim.Native.String
use ai_aggregator.Prelude.{
  ℕ, ◌≤◌, ◌≡◌, refl, sym, ◌∙◌, ap, ◌≢◌, ◌⊎◌, inl, inr, Bool, true, false, ◌&&◌, ◌||◌, String,
  Option, none, some, List, [], ◌∷◌, ◌++◌, map, any, if◌then◌else◌, if-cases, str_eq, eq_iff, arith,
  Bool-cases,
}
use ai_aggregator.Prelude.Text.{trim_space}
use ai_aggregator.Prelude.Json.{str, bool, obj, field, end}
use ai_aggregator.Http.{value, Ctx, Outcome, answer, error_response}
use ai_aggregator.Auth.{ApiKeyRow, is_unexpired, validate_api_key, get_user_id, generate_api_key}
use ai_aggregator.Access.{workspace_member_has_permission}
use ai_aggregator.Accounts.{
  World, Calls, KeyRequest, project_belongs_to_workspace, new_key, key_json, store_key,
  generate_key, checked_project, user_create_key, is_key_of, deactivate, revoke_api_key,
  user_delete_key, behind_permission, behind_project,
}

-- The query's test.
abbrev usable : ℕ → String → ApiKeyRow → Bool
usable now key_hash row =
    str_eq row.key_hash key_hash && row.is_active && is_unexpired now row.expires_at

pass_on :
    (b : Bool) (r row : ApiKeyRow) (x y : Option ApiKeyRow)
    → (x ≡ none → y ≡ some row)
    → (if b then some r else x) ≡ none
    → (if b then some r else y) ≡ some row
pass_on true r row x y step e = cc
pass_on false r row x y step e = step e

validate-append :
    (now : ℕ) (rows : List ApiKeyRow) (row : ApiKeyRow)
    → usable now row.key_hash row ≡ true
    → validate_api_key now row.key_hash rows ≡ none
    → validate_api_key now row.key_hash (rows ++ row ∷ []) ≡ some row
unfolding validate_api_key
validate-append now [] row live none_before = rw live refl
validate-append now (r ∷ rows) row live none_before =
    pass_on (usable now row.key_hash r) r row _ _ (validate-append now rows row live) none_before

-- The caller may put a key into the workspace and the project, where they are given.
pub record MayCreate (calls : Calls) (user_id workspace_id project_id : String) : Type 0 where
  pub in_workspace :
      (trim_space workspace_id ≡ "")
      ⊎ (workspace_member_has_permission calls.to_lower calls.members workspace_id user_id
            "api_keys:create"
          ≡ some true)
  pub in_project :
      (project_id ≡ "") ⊎ (project_belongs_to_workspace calls project_id workspace_id ≡ some true)

-- What userCreateKey does: nothing but an error; or a new key of the caller, shown in the answer,
-- which the query behind the authentication finds by its hash, unless an older row has that hash.
pub data IsCreated (calls : Calls) (w : World) (c : Ctx) : Outcome World → Type 0 where
  rejected : (o : Outcome World) → 400 ≤ o.ctx.status → o.world ≡ w → IsCreated calls w c o
  created :
      (name plain workspace_id project_id : String) (o : Outcome World)
      → MayCreate calls (get_user_id c) workspace_id project_id
      → o.ctx.status ≡ 201
      → o.ctx.body
        ≡ value (key_json calls.new_id name plain calls.api_key_prefix workspace_id project_id)
      → ((now : ℕ)
          → validate_api_key now (calls.sha256_hex plain) w.api_keys ≡ none
          → validate_api_key now (calls.sha256_hex plain) o.world.api_keys
            ≡ some (
                new_key calls.new_id
                  (get_user_id c)
                  (calls.sha256_hex plain)
                  workspace_id
                  project_id))
      → IsCreated calls w c o

module _ (calls : Calls) (w : World) (c : Ctx) where
  fresh_usable :
      (now : ℕ) (key_hash workspace_id project_id : String)
      → usable now key_hash (new_key calls.new_id (get_user_id c) key_hash workspace_id project_id)
        ≡ true
  fresh_usable now key_hash workspace_id project_id = rw ((eq_iff key_hash key_hash).1 refl) refl

  generate-IsCreated :
      (name workspace_id project_id : String)
      → MayCreate calls (get_user_id c) workspace_id project_id
      → IsCreated calls w c (generate_key calls name workspace_id project_id c w)
  unfolding generate_api_key
  generate-IsCreated name workspace_id project_id may = by_random calls.random
    where
      stored :
          (plain : String)
          → IsCreated calls w c (
              store_key calls name workspace_id project_id
                (some (plain, calls.sha256_hex plain))
                c
                w)
      stored plain =
          if-cases (IsCreated calls w c) (calls.key_insert_fails workspace_id project_id) _ _
            (λ _. rejected _ (omega arith) refl)
            (λ _. created name plain workspace_id project_id _ may refl refl (λ now.
              validate-append now w.api_keys
                (new_key calls.new_id (get_user_id c) (calls.sha256_hex plain) workspace_id
                  project_id)
                (fresh_usable now (calls.sha256_hex plain) workspace_id project_id)))

      by_random :
          (random : Option (List ℕ))
          → IsCreated calls w c (
              store_key calls name workspace_id project_id
                (generate_api_key calls.sha256_hex calls.hex calls.api_key_prefix random)
                c
                w)
      by_random none = rejected _ (omega arith) refl
      by_random (some bytes) = stored (String.◌++◌ calls.api_key_prefix (calls.hex bytes))

  project-IsCreated :
      (name workspace_id project_id : String)
      → (trim_space workspace_id ≡ "")
        ⊎ (workspace_member_has_permission calls.to_lower calls.members workspace_id
              (get_user_id c)
              "api_keys:create"
            ≡ some true)
      → IsCreated calls w c (checked_project calls name workspace_id project_id c w)
  project-IsCreated name workspace_id project_id may =
      if-cases (IsCreated calls w c) (str_eq project_id "") _ _
        (λ e.
          generate-IsCreated name workspace_id project_id
            (record { in_workspace = may; in_project = inl ((eq_iff project_id "").0 e) }))
        (λ _.
          if-cases (IsCreated calls w c) (str_eq workspace_id "") _ _
            (λ _. rejected _ (omega arith) refl)
            (λ _. by_project (project_belongs_to_workspace calls project_id workspace_id) refl))
    where
      by_project :
          (o : Option Bool)
          → project_belongs_to_workspace calls project_id workspace_id ≡ o
          → IsCreated calls w c
              (behind_project o (generate_key calls name workspace_id project_id) c w)
      by_project none e = rejected _ (omega arith) refl
      by_project (some false) e = rejected _ (omega arith) refl
      by_project (some true) e =
          generate-IsCreated name workspace_id project_id
            (record { in_workspace = may; in_project = inr e })

  -- A request for a key either changes nothing and is answered with an error; or its caller may
  -- create keys in the workspace, if it names one, to which the project, if it names one, belongs,
  -- and the answer shows a new key. Where no usable key had its hash, the query that authenticates
  -- keys finds it from then on, as an active key of the caller in that workspace and project.
  pub user_create_key-IsCreated :
      (req : KeyRequest) → IsCreated calls w c (user_create_key calls req c w)
  unfolding user_create_key
  user_create_key-IsCreated req =
      if-cases (IsCreated calls w c) (str_eq (trim_space req.workspace_id) "") _ _
        (λ e.
          project-IsCreated _ req.workspace_id (trim_space req.project_id)
            (inl ((eq_iff (trim_space req.workspace_id) "").0 e)))
        (λ _.
          by_permission
            (workspace_member_has_permission calls.to_lower calls.members
              (trim_space req.workspace_id) (get_user_id c) "api_keys:create")
            refl)
    where
      by_permission :
          (o : Option Bool)
          → workspace_member_has_permission calls.to_lower calls.members
              (trim_space req.workspace_id)
              (get_user_id c)
              "api_keys:create"
            ≡ o
          → IsCreated calls w c (
              behind_permission o
                (checked_project calls
                  (if str_eq req.name "" then "default" else req.name)
                  (trim_space req.workspace_id)
                  (trim_space req.project_id))
                c
                w)
      by_permission none e = rejected _ (omega arith) refl
      by_permission (some false) e = rejected _ (omega arith) refl
      by_permission (some true) e =
          project-IsCreated _ (trim_space req.workspace_id) (trim_space req.project_id) (inr e)

-- The rows after a revocation: for the query behind the authentication the key is gone, and every
-- other key is there as before.
pub record IsRevoked (user_id key_id : String) (before after : List ApiKeyRow) : Type 0 where
  pub gone :
      (now : ℕ) (key_hash : String) (row : ApiKeyRow)
      → validate_api_key now key_hash after ≡ some row
      → (row.id ≢ key_id) ⊎ (row.user_id ≢ user_id)
  pub kept :
      (now : ℕ) (key_hash : String) (row : ApiKeyRow)
      → validate_api_key now key_hash before ≡ some row
      → (row.id ≢ key_id) ⊎ (row.user_id ≢ user_id)
      → validate_api_key now key_hash after ≡ some row

skip : (b : Bool) (x y z : Option ApiKeyRow) → b ≡ false → (if b then x else y) ≡ z → y ≡ z
skip true x y z h e = cc
skip false x y z h e = e

unskip : (b : Bool) (x y z : Option ApiKeyRow) → b ≡ false → y ≡ z → (if b then x else y) ≡ z
unskip true x y z h e = cc
unskip false x y z h e = e

-- The row that a query returns is its first or comes from the others.
which :
    (b : Bool) (r row : ApiKeyRow) (y : Option ApiKeyRow)
    → (if b then some r else y) ≡ some row
    → (r ≡ row) ⊎ ((b ≡ false) × (y ≡ some row))
which true r row y e = inl cc
which false r row y e = inr (refl, e)

either_way :
    (b : Bool) (r row : ApiKeyRow) (y z : Option ApiKeyRow)
    → (y ≡ some row → z ≡ some row)
    → (if b then some r else y) ≡ some row
    → (if b then some r else z) ≡ some row
either_way true r row y z step e = e
either_way false r row y z step e = step e

inactive : (a b : Bool) → (a && false && b) ≡ false
inactive true b = refl
inactive false b = refl

module _ (calls : Calls) (user_id key_id : String) where
  deactivate_self :
      (row : ApiKeyRow)
      → is_key_of calls user_id key_id row ≡ false
      → deactivate calls user_id key_id row ≡ row
  deactivate_self row h = rw h refl

  deactivated :
      (now : ℕ) (key_hash : String) (row : ApiKeyRow)
      → is_key_of calls user_id key_id row ≡ true
      → usable now key_hash (deactivate calls user_id key_id row) ≡ false
  deactivated now key_hash row h =
      rw h (inactive (str_eq row.key_hash key_hash) (is_unexpired now row.expires_at))

  gone_after :
      (now : ℕ) (key_hash : String) (rows : List ApiKeyRow) (row : ApiKeyRow)
      → validate_api_key now key_hash (map (deactivate calls user_id key_id) rows) ≡ some row
      → is_key_of calls user_id key_id row ≡ false
  unfolding validate_api_key
  gone_after now key_hash [] row e = cc
  gone_after now key_hash (r ∷ rows) row e = elim (Bool-cases (is_key_of calls user_id key_id r)) [
    | inl mine ↦ gone_after now key_hash rows row (skip _ _ _ _ (deactivated now key_hash r mine) e)
    | inr other ↦
        elim (which (usable now key_hash (deactivate calls user_id key_id r))
          (deactivate calls user_id key_id r) row
          (validate_api_key now key_hash (map (deactivate calls user_id key_id) rows)) e) [
            | inl same ↦ rw (sym same ∙ deactivate_self r other) other
            | inr (_, later) ↦ gone_after now key_hash rows row later
          ]
  ]

  kept_after :
      (now : ℕ) (key_hash : String) (rows : List ApiKeyRow) (row : ApiKeyRow)
      → validate_api_key now key_hash rows ≡ some row
      → is_key_of calls user_id key_id row ≡ false
      → validate_api_key now key_hash (map (deactivate calls user_id key_id) rows) ≡ some row
  unfolding validate_api_key
  kept_after now key_hash [] row e other = cc
  kept_after now key_hash (r ∷ rows) row e other =
      elim (Bool-cases (is_key_of calls user_id key_id r)) [
        | inl mine ↦
            elim (which (usable now key_hash r) r row (validate_api_key now key_hash rows) e) [
              | inl same ↦ absurd (clash r row same mine other)
              | inr (_, later) ↦
                  unskip _ _ _ _ (deactivated now key_hash r mine)
                    (kept_after now key_hash rows row later other)
            ]
        | inr untouched ↦ rw (deactivate_self r untouched) (
            either_way (usable now key_hash r) r row _ _
              (λ later. kept_after now key_hash rows row later other) e)
      ]
    where
      clash :
          (r row : ApiKeyRow)
          → r ≡ row
          → is_key_of calls user_id key_id r ≡ true
          → is_key_of calls user_id key_id row ≡ false
          → ⊥
      clash r row same mine other = cc

  either_not :
      (row : ApiKeyRow)
      → is_key_of calls user_id key_id row ≡ false
      → (row.id ≢ key_id) ⊎ (row.user_id ≢ user_id)
  either_not row h = elim (Bool-cases (str_eq row.id key_id)) [
    | inr apart ↦ inl (λ e. differ row.id key_id apart e)
    | inl same ↦ inr (λ e. differ row.user_id user_id (second same h) e)
  ]
    where
      second :
          str_eq row.id key_id ≡ true
          → (str_eq row.id key_id && str_eq row.user_id user_id) ≡ false
          → str_eq row.user_id user_id ≡ false
      second same h = ground arith

      differ : (s t : String) → str_eq s t ≡ false → s ≢ t
      differ s t h e = ground (arith, eq_iff s t)

  not_both :
      (row : ApiKeyRow)
      → (row.id ≢ key_id) ⊎ (row.user_id ≢ user_id)
      → is_key_of calls user_id key_id row ≡ false
  not_both row (inl apart) = ground (arith, eq_iff row.id key_id)
  not_both row (inr apart) = ground (arith, eq_iff row.user_id user_id)

  deactivate-IsRevoked :
      (rows : List ApiKeyRow)
      → IsRevoked user_id key_id rows (map (deactivate calls user_id key_id) rows)
  deactivate-IsRevoked rows = record {
    gone = λ now key_hash row e. either_not row (gone_after now key_hash rows row e);
    kept = λ now key_hash row e other. kept_after now key_hash rows row e (not_both row other);
  }

  untouched :
      (rows : List ApiKeyRow)
      → any (is_key_of calls user_id key_id) rows ≡ false
      → map (deactivate calls user_id key_id) rows ≡ rows
  untouched [] h = refl
  untouched (r ∷ rows) h =
      let kept : is_key_of calls user_id key_id r ≡ false =
        first (is_key_of calls user_id key_id r) (any (is_key_of calls user_id key_id) rows) h in
      let others : any (is_key_of calls user_id key_id) rows ≡ false =
        rest (is_key_of calls user_id key_id r) (any (is_key_of calls user_id key_id) rows) h in
      rw (deactivate_self r kept, untouched rows others) refl
    where
      first : (a b : Bool) → (a || b) ≡ false → a ≡ false
      first a b h = ground arith

      rest : (a b : Bool) → (a || b) ≡ false → b ≡ false
      rest a b h = ground arith

-- What userDeleteKey does: nothing but an error, or the revocation of the caller's key.
pub data IsDeleted (calls : Calls) (key_id : String) (w : World) (c : Ctx)
    : Outcome World → Type 0 where
  failed : (o : Outcome World) → 400 ≤ o.ctx.status → o.world ≡ w → IsDeleted calls key_id w c o
  deleted :
      (o : Outcome World)
      → o.ctx.status ≡ 200
      → IsRevoked (get_user_id c) key_id w.api_keys o.world.api_keys
      → IsDeleted calls key_id w c o

module _ (calls : Calls) (key_id : String) (w : World) (c : Ctx) where
  -- The end of userDeleteKey.
  abbrev answered : Bool × List ApiKeyRow → Outcome World
  answered (revoked, rows) =
      if revoked
      then answer 200 (value (obj (field "deleted" (bool true) (field "id" (str key_id) end)))) c
          (record w { api_keys = rows })
      else answer 500 (error_response "internal_error" "failed to revoke API key") c
          (record w { api_keys = rows })

  answered-IsDeleted :
      IsDeleted calls key_id w c (answered (revoke_api_key calls (get_user_id c) key_id w.api_keys))
  unfolding revoke_api_key
  answered-IsDeleted =
      if-cases (λ p. IsDeleted calls key_id w c (answered p)) calls.update_fails _ _
        (λ _. failed _ (omega arith) refl)
        (λ _.
          if-cases (IsDeleted calls key_id w c)
            (any (is_key_of calls (get_user_id c) key_id) w.api_keys) _ _
            (λ _. deleted _ refl (deactivate-IsRevoked calls (get_user_id c) key_id w.api_keys))
            (λ none_found. failed _ (omega arith) (
              ap (λ rows. record w { api_keys = rows })
                (untouched calls (get_user_id c) key_id w.api_keys none_found))))

  -- A request to delete a key either is answered with an error and changes nothing, or afterwards
  -- the query that authenticates keys returns no key of that id of the caller's, and returns every
  -- other key, also one of that id of another user, wherever it did before.
  pub user_delete_key-IsDeleted : IsDeleted calls key_id w c (user_delete_key calls key_id c w)
  unfolding user_delete_key
  user_delete_key-IsDeleted =
      if-cases (IsDeleted calls key_id w c) (str_eq key_id "") _ _
        (λ _. failed _ (omega arith) refl) (λ _. answered-IsDeleted)
