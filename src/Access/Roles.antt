-- ===== src/Access/Roles.antt =====
-- Whom requireWorkspacePermission lets through (backend/internal/gateway/router.go, with
-- WorkspaceMemberHasPermission in backend/internal/storage/store.go).
use mathlib.Core.List.{Memᴰ}
use ai_aggregator.Prelude.{
  ℕ, ◌≤◌, ◌≡◌, refl, ◌≢◌, ◌⊎◌, Bool, true, false, String, Option, none, some, List, [], ◌∷◌, arith,
  str_eq, eq_iff, Bool-cases, if◌then◌else◌, if-cases, All, inl, inr,
}
use ai_aggregator.Prelude.Best.{best, best-Chosen, Chosen}
use ai_aggregator.Http.{Ctx, respond, error_response, local_string}
use ai_aggregator.Access.Permissions.{MayDo, allows-MayDo, MayDo-allows}
use ai_aggregator.Access.{
  MemberRow, Members, member_rank, allows_member, workspace_member_has_permission,
  require_workspace_permission,
}

-- A row of an active membership of this user in this workspace.
pub record IsMember (members : Members) (workspace_id user_id : String) (row : MemberRow)
    : Type 0 where
  pub listed : Memᴰ row members.rows
  pub workspace : row.workspace_id ≡ workspace_id
  pub user : row.user_id ≡ user_id
  pub active : row.status ≡ "active"

-- The caller is an active member of the workspace who may do what was asked, and goes on; or is
-- answered 400 or more: the ids or the permission are missing, the query fails, the caller is no
-- active member, or is one by a row that does not allow it.
pub data IsGranted (to_lower : String → String) (members : Members)
    (workspace_id permission : String) (c : Ctx) : Bool × Ctx → Type 0 where
  granted :
      (row : MemberRow)
      → workspace_id ≢ ""
      → local_string c.locals.user_id ≢ ""
      → permission ≢ ""
      → IsMember members workspace_id (local_string c.locals.user_id) row
      → MayDo to_lower permission row
      → IsGranted to_lower members workspace_id permission c (true, c)
  unnamed :
      (c' : Ctx)
      → 400 ≤ c'.status
      → (workspace_id ≡ "")
        ⊎ ((local_string c.locals.user_id ≡ "")
            ⊎ ((permission ≡ "")
                ⊎ (members.fails workspace_id (local_string c.locals.user_id) ≡ true)))
      → IsGranted to_lower members workspace_id permission c (false, c')
  stranger :
      (c' : Ctx)
      → c'.status ≡ 403
      → ((row : MemberRow) → ¬ IsMember members workspace_id (local_string c.locals.user_id) row)
      → IsGranted to_lower members workspace_id permission c (false, c')
  unallowed :
      (c' : Ctx) (row : MemberRow)
      → c'.status ≡ 403
      → IsMember members workspace_id (local_string c.locals.user_id) row
      → ¬ MayDo to_lower permission row
      → IsGranted to_lower members workspace_id permission c (false, c')

rank-IsMember :
    (members : Members) (workspace_id user_id : String) (row : MemberRow) (k : ℕ)
    → Memᴰ row members.rows
    → member_rank workspace_id user_id row ≡ some k
    → IsMember members workspace_id user_id row
rank-IsMember members workspace_id user_id row k m e = record {
  listed = m;
  workspace = (eq_iff row.workspace_id workspace_id).0 (ground arith);
  user = (eq_iff row.user_id user_id).0 (ground arith);
  active = (eq_iff row.status "active").0 (ground arith);
}

member-has_rank :
    (members : Members) (workspace_id user_id : String) (row : MemberRow)
    → IsMember members workspace_id user_id row
    → member_rank workspace_id user_id row ≢ none
member-has_rank members workspace_id user_id row m e =
    let a = (eq_iff row.workspace_id workspace_id).1 m.workspace in
    let b = (eq_iff row.user_id user_id).1 m.user in
    let d = (eq_iff row.status "active").1 m.active in ground arith

str_ne : (s t : String) → str_eq s t ≡ false → s ≢ t
str_ne s t h e = let same = (eq_iff s t).1 e in cc

none_of :
    (f : MemberRow → Option ℕ) (rows : List MemberRow) (row : MemberRow)
    → All (λ x. f x ≡ none) rows
    → Memᴰ row rows
    → f row ≡ none
none_of f [] row h m = elim m [ ]
none_of f (x ∷ rows) row (e, h) (Memᴰ.head same) = rw (← same) at e
none_of f (x ∷ rows) row (e, h) (Memᴰ.tail m) = none_of f rows row h m

module _ (to_lower : String → String) (members : Members)
    (workspace_id permission denied_message : String) (c : Ctx) where
  abbrev uid : String
  uid = local_string c.locals.user_id

  -- What the handler makes of the query's row.
  abbrev decided : Option (ℕ × MemberRow) → Bool × Ctx
  decided o =
      let may : Option Bool = elim o [
        | none ↦ some false
        | some (_, row) ↦ some (allows_member to_lower permission row)
      ] in
      elim may [
        | none ↦ (false, respond 400 (error_response "invalid_request" "invalid workspace_id") c)
        | some allowed ↦
            if allowed
            then (true, c)
            else (false, respond 403 (error_response "permission_denied" denied_message) c)
      ]

  by_row :
      workspace_id ≢ ""
      → uid ≢ ""
      → permission ≢ ""
      → (o : Option (ℕ × MemberRow)) → Chosen (member_rank workspace_id uid) members.rows o
      → IsGranted to_lower members workspace_id permission c (decided o)
  by_row w u p none h = stranger _ refl (λ row m.
      member-has_rank members workspace_id uid row m
        (none_of (member_rank workspace_id uid) members.rows row h m.listed))
  by_row w u p (some (k, row)) (listed, at, _) =
      let member = rank-IsMember members workspace_id uid row k listed at in
      if-cases (IsGranted to_lower members workspace_id permission c)
        (allows_member to_lower permission row) _ _
        (λ allows. granted row w u p member (allows-MayDo to_lower permission row allows))
        (λ forbids.
          unallowed _ row refl member
            (λ may. let allows = MayDo-allows to_lower permission row may in cc))

-- A caller passes requireWorkspacePermission only as an active member of the named workspace whose
-- role, by its name or its permissions, allows the named permission, and then the context is
-- untouched. Any other is answered 400 or more, and only for a reason: an id or the permission is
-- missing, the query fails, the caller is no active member, or a membership does not allow it.
pub require_workspace_permission-IsGranted :
    (to_lower : String → String) (members : Members)
    (workspace_id permission denied_message : String) (c : Ctx)
    → IsGranted to_lower members workspace_id permission c
        (require_workspace_permission to_lower members workspace_id permission denied_message c)
unfolding require_workspace_permission workspace_member_has_permission
require_workspace_permission-IsGranted to_lower members workspace_id permission denied_message c =
    let uid = local_string c.locals.user_id in
    elim (Bool-cases (str_eq workspace_id "")) [
      | inl nowhere ↦
          rw (nowhere, require_workspace_permission)
            (unnamed _ (omega arith) (inl ((eq_iff workspace_id "").0 nowhere)))
      | inr somewhere ↦ elim (Bool-cases (str_eq uid "")) [
        | inl nobody ↦
            rw (somewhere, nobody, require_workspace_permission)
              (unnamed _ (omega arith) (inr (inl ((eq_iff uid "").0 nobody))))
        | inr somebody ↦ elim (Bool-cases (str_eq permission "")) [
          | inl nothing ↦
              rw
                (
                  somewhere, somebody, nothing, require_workspace_permission,
                  workspace_member_has_permission,
                )
                (unnamed _ (omega arith) (inr (inr (inl ((eq_iff permission "").0 nothing)))))
          | inr something ↦ elim (Bool-cases (members.fails workspace_id uid)) [
            | inl fails ↦
                rw
                  (
                    somewhere, somebody, something, fails, require_workspace_permission,
                    workspace_member_has_permission,
                  )
                  (unnamed _ (omega arith) (inr (inr (inr fails))))
            | inr runs ↦
                rw
                  (
                    somewhere, somebody, something, runs, require_workspace_permission,
                    workspace_member_has_permission,
                  )
                  (by_row to_lower members workspace_id permission denied_message c
                    (str_ne workspace_id "" somewhere) (str_ne uid "" somebody)
                    (str_ne permission "" something)
                    (best (member_rank workspace_id uid) members.rows)
                    (best-Chosen (member_rank workspace_id uid) members.rows))
          ]
        ]
      ]
    ]
