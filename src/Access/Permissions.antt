-- ===== src/Access/Permissions.antt =====
-- What roles allow, by their name and by their permissions (workspaceRoleNameAllows and
-- permissionSetAllows in backend/internal/storage/store.go).
use mathlib.Core.List.{Memᴰ}
use ai_aggregator.Prelude.{
  ◌≡◌, refl, sym, ◌⊎◌, ◌↔◌, Bool, true, false, ◌||◌, String, Option, none, some, List, [], ◌∷◌, any,
  arith, str_eq, eq_iff, Bool-cases, Option-cases, if◌then◌else◌, inl, inr,
}
use ai_aggregator.Prelude.Text.{trim_space}
use ai_aggregator.Prelude.Json.{Json, Fields, null, bool, num, str, arr, obj, get}
use ai_aggregator.Http.{RawMessage, parsed, malformed, is_one_of}
use ai_aggregator.Access.{
  MemberRow, role_allows, strings_of, object_allows, is_true, permission_set_allows,
  or_no_permissions, allows_member,
}

-- What members and viewers may do.
abbrev pub of_viewers : List String
of_viewers = "api_keys:read" ∷ "usage:read" ∷ "files:read" ∷ "workflows:read" ∷ []

abbrev pub of_members : List String
of_members =
    "api_keys:create" ∷ "api_keys:read" ∷ "usage:read" ∷ "files:write" ∷ "files:read"
    ∷ "workflows:write" ∷ "workflows:read" ∷ []

-- The name of a role allows a permission.
pub data RoleAllows (role permission : String) : Type 0 where
  as_admin : Memᴰ role ("owner" ∷ "admin" ∷ []) → RoleAllows role permission
  as_member : role ≡ "member" → Memᴰ permission of_members → RoleAllows role permission
  as_viewer :
      Memᴰ role ("viewer" ∷ "read_only" ∷ "readonly" ∷ [])
      → Memᴰ permission of_viewers
      → RoleAllows role permission

-- The permissions of a role allow one: a list of texts with it or with "*", or an object in which
-- one of these has the value true.
pub data SetAllows (permission : String) : RawMessage → Type 0 where
  by_list :
      (v : Json) (values : List String)
      → strings_of v ≡ some values
      → Memᴰ "*" values ⊎ Memᴰ permission values
      → SetAllows permission (parsed v)
  by_object :
      (fs : Fields)
      → (get "*" fs ≡ some (bool true)) ⊎ (get permission fs ≡ some (bool true))
      → SetAllows permission (parsed (obj fs))

-- A member may do what the name of the role in lower case or the role's permissions allow.
abbrev pub MayDo : (to_lower : String → String) (permission : String) → MemberRow → Type 0
MayDo to_lower permission row =
    RoleAllows (to_lower (trim_space row.role_name)) permission
    ⊎ SetAllows permission (or_no_permissions row.permissions)

one_of-Mem : (s : String) (names : List String) → (is_one_of names s ≡ true) ↔ Memᴰ s names
one_of-Mem s names = (to names, from names)
  where
    to : (names : List String) → is_one_of names s ≡ true → Memᴰ s names
    to [] h = cc
    to (n ∷ names) h = elim (Bool-cases (str_eq s n)) [
      | inl same ↦ Memᴰ.head ((eq_iff s n).0 same)
      | inr other ↦ Memᴰ.tail (to names (rw other at h))
    ]

    from : (names : List String) → Memᴰ s names → is_one_of names s ≡ true
    from [] m = elim m [ ]
    from (n ∷ names) (Memᴰ.head e) = rw ((eq_iff s n).1 e) refl
    from (n ∷ names) (Memᴰ.tail m) = let rest = from names m in ground arith

switch-cases :
    (a b c m v : Bool)
    → (if a then true else if b then m else if c then v else false) ≡ true
    → (a ≡ true) ⊎ (((b ≡ true) × (m ≡ true)) ⊎ ((c ≡ true) × (v ≡ true)))
switch-cases true b c m v h = inl refl
switch-cases false true c m v h = inr (inl (refl, h))
switch-cases false false true m v h = inr (inr (refl, h))
switch-cases false false false m v h = cc

role_allows-RoleAllows :
    (role permission : String) → role_allows role permission ≡ true → RoleAllows role permission
unfolding role_allows
role_allows-RoleAllows role permission h =
    elim (switch-cases (is_one_of ("owner" ∷ "admin" ∷ []) role) (str_eq role "member")
      (is_one_of ("viewer" ∷ "read_only" ∷ "readonly" ∷ []) role) (is_one_of of_members permission)
      (is_one_of of_viewers permission) h) [
        | inl admin ↦ as_admin ((one_of-Mem role ("owner" ∷ "admin" ∷ [])).0 admin)
        | inr (inl (member, may)) ↦
            as_member ((eq_iff role "member").0 member) ((one_of-Mem permission of_members).0 may)
        | inr (inr (viewer, may)) ↦
            as_viewer ((one_of-Mem role ("viewer" ∷ "read_only" ∷ "readonly" ∷ [])).0 viewer)
              ((one_of-Mem permission of_viewers).0 may)
      ]

RoleAllows-role_allows :
    (role permission : String) → RoleAllows role permission → role_allows role permission ≡ true
unfolding role_allows
RoleAllows-role_allows role permission (as_admin m) =
    let admin = (one_of-Mem role ("owner" ∷ "admin" ∷ [])).1 m in rw (admin, role_allows) refl
RoleAllows-role_allows role permission (as_member e m) =
    let may = (one_of-Mem permission of_members).1 m in rw (e, role_allows) may
RoleAllows-role_allows role permission (as_viewer (Memᴰ.head e) m) =
    let may = (one_of-Mem permission of_viewers).1 m in rw (e, role_allows) may
RoleAllows-role_allows role permission (as_viewer (Memᴰ.tail (Memᴰ.head e)) m) =
    let may = (one_of-Mem permission of_viewers).1 m in rw (e, role_allows) may
RoleAllows-role_allows role permission (as_viewer (Memᴰ.tail (Memᴰ.tail (Memᴰ.head e))) m) =
    let may = (one_of-Mem permission of_viewers).1 m in rw (e, role_allows) may
RoleAllows-role_allows role permission (as_viewer (Memᴰ.tail (Memᴰ.tail (Memᴰ.tail n))) m) =
    elim n [ ]

is_true_iff : (o : Option Json) → (is_true o ≡ true) ↔ (o ≡ some (bool true))
is_true_iff none = (λ h. cc, λ h. cc)
is_true_iff (some null) = (λ h. cc, λ h. cc)
is_true_iff (some (num s)) = (λ h. cc, λ h. cc)
is_true_iff (some (str s)) = (λ h. cc, λ h. cc)
is_true_iff (some (arr vs)) = (λ h. cc, λ h. cc)
is_true_iff (some (obj fs)) = (λ h. cc, λ h. cc)
is_true_iff (some (bool true)) = (λ h. refl, λ h. refl)
is_true_iff (some (bool false)) = (λ h. cc, λ h. cc)

any-named :
    (permission : String) (values : List String)
    → (any (λ value. str_eq value "*" || str_eq value permission) values ≡ true)
      ↔ (Memᴰ "*" values ⊎ Memᴰ permission values)
any-named permission values = (to values, from values)
  where
    to :
        (values : List String)
        → any (λ value. str_eq value "*" || str_eq value permission) values ≡ true
        → Memᴰ "*" values ⊎ Memᴰ permission values
    to [] h = cc
    to (x ∷ values) h = elim (Bool-cases (str_eq x "*")) [
      | inl all ↦ inl (Memᴰ.head (sym ((eq_iff x "*").0 all)))
      | inr some_ ↦ elim (Bool-cases (str_eq x permission)) [
        | inl this ↦ inr (Memᴰ.head (sym ((eq_iff x permission).0 this)))
        | inr other ↦ elim (to values (rw (some_, other) at h)) [
          | inl m ↦ inl (Memᴰ.tail m)
          | inr m ↦ inr (Memᴰ.tail m)
        ]
      ]
    ]

    from :
        (values : List String)
        → Memᴰ "*" values ⊎ Memᴰ permission values
        → any (λ value. str_eq value "*" || str_eq value permission) values ≡ true
    from [] (inl m) = elim m [ ]
    from [] (inr m) = elim m [ ]
    from (x ∷ values) (inl (Memᴰ.head e)) = rw ((eq_iff x "*").1 (sym e)) refl
    from (x ∷ values) (inl (Memᴰ.tail m)) = let rest = from values (inl m) in ground arith
    from (x ∷ values) (inr (Memᴰ.head e)) =
        let this = (eq_iff x permission).1 (sym e) in ground arith
    from (x ∷ values) (inr (Memᴰ.tail m)) = let rest = from values (inr m) in ground arith

listed_sound :
    (raw : RawMessage) (permission : String)
    → permission_set_allows raw permission ≡ true
    → SetAllows permission raw
unfolding permission_set_allows
listed_sound RawMessage.empty permission h = cc
listed_sound malformed permission h = cc
listed_sound (parsed v) permission h = elim (Option-cases (strings_of v)) [
  | inr (values, e) ↦
      by_list v values e ((any-named permission values).0 (rw (e, permission_set_allows) at h))
  | inl e ↦ object-SetAllows v permission (rw (e, permission_set_allows) at h)
]
  where
    object-SetAllows :
        (v : Json) (permission : String)
        → object_allows v permission ≡ true
        → SetAllows permission (parsed v)
    object-SetAllows (obj fs) permission h = elim (Bool-cases (is_true (get "*" fs))) [
      | inl all ↦ by_object fs (inl ((is_true_iff (get "*" fs)).0 all))
      | inr other ↦ by_object fs (inr ((is_true_iff (get permission fs)).0 (rw other at h)))
    ]
    object-SetAllows null permission h = cc
    object-SetAllows (bool b) permission h = cc
    object-SetAllows (num s) permission h = cc
    object-SetAllows (str s) permission h = cc
    object-SetAllows (arr vs) permission h = cc

listed_complete :
    (raw : RawMessage) (permission : String)
    → SetAllows permission raw
    → permission_set_allows raw permission ≡ true
unfolding permission_set_allows
listed_complete _ permission (by_list v values e m) =
    rw (e, permission_set_allows) ((any-named permission values).1 m)
listed_complete _ permission (by_object fs (inl e)) =
    let all = (is_true_iff (get "*" fs)).1 e in rw (all, permission_set_allows) refl
listed_complete _ permission (by_object fs (inr e)) =
    let this = (is_true_iff (get permission fs)).1 e in ground arith

module _ (to_lower : String → String) (permission : String) where
  pub allows-MayDo :
      (row : MemberRow)
      → allows_member to_lower permission row ≡ true
      → MayDo to_lower permission row
  allows-MayDo row h =
      elim (Bool-cases (role_allows (to_lower (trim_space row.role_name)) permission)) [
        | inl named ↦
            inl (role_allows-RoleAllows (to_lower (trim_space row.role_name)) permission named)
        | inr unnamed ↦
            inr (listed_sound (or_no_permissions row.permissions) permission (rw unnamed at h))
      ]

  pub MayDo-allows :
      (row : MemberRow)
      → MayDo to_lower permission row
      → allows_member to_lower permission row ≡ true
  MayDo-allows row (inl m) =
      let named = RoleAllows-role_allows (to_lower (trim_space row.role_name)) permission m in
      rw named refl
  MayDo-allows row (inr m) =
      let listed = listed_complete (or_no_permissions row.permissions) permission m in ground arith

-- What a viewer may do a member may do, and an owner and an administrator may do everything.
role_allows-ordered :
    (permission : String)
    → ((role_allows "viewer" permission || role_allows "member" permission)
        ≡ role_allows "member" permission)
      × (role_allows "owner" permission ≡ true)
      × (role_allows "admin" permission ≡ true)
unfolding role_allows
role_allows-ordered permission = (ground arith, refl, refl)
