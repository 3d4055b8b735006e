-- ===== src/Auth/Admin.antt =====
-- What RequireAdmin lets happen (backend/internal/auth/middleware.go). RequireJWT ends in
-- c.Next(), so the admin handler runs inside the call whose result RequireAdmin then judges.
use Prim.Native.String
use text.Mathlib.TextLemmas.{append_assoc, append-eq-nil_iff}
use ai_aggregator.Prelude.{
  ◌≡◌, refl, sym, ◌≢◌, ◌⊎◌, inl, inr, true, false, String, none, some, arith, Bool-cases,
  Option-cases, eq_iff, str_eq,
}
use ai_aggregator.Prelude.Text.{split_space}
use ai_aggregator.Http.{Body, Ctx, Outcome, Handler, answer}
use ai_aggregator.Auth.{
  Claims, Middleware, validate_jwt, with_claims, authenticate_jwt, error_auth, require_jwt,
  is_admin, judge_admin, require_admin,
}
use ai_aggregator.Auth.Laws.{split_space-Bearer, split_space_sound}

header_of :
    (authorization scheme token : String)
    → str_eq scheme "Bearer" ≡ true
    → split_space authorization ≡ some (scheme, token)
    → authorization ≡ String.◌++◌ "Bearer " token
header_of authorization scheme token bearer split =
    rw (split_space_sound authorization scheme token split, (eq_iff scheme "Bearer").0 bearer)
      (sym (append_assoc "Bearer" " " token))

-- The header carries a token that ValidateJWT accepts.
pub record Bears (m : Middleware) (c : Ctx) (claims : Claims) : Type 0 where
  pub token : String
  pub header : c.authorization ≡ String.◌++◌ "Bearer " token
  pub accepted : validate_jwt m.jwt m.jwt_secret token ≡ some claims

Bearer-ne-nil : ◌≢◌ {A = String} "Bearer " ""
Bearer-ne-nil = ground (arith, eq_iff "Bearer " "")

judge_admin-world : {W : Type 0} (o : Outcome W) → (judge_admin o).world ≡ o.world
unfolding judge_admin
judge_admin-world o = ground arith

judge_admin-response :
    {W : Type 0} (o : Outcome W)
    → o.error ≡ none
    → ((is_admin o.ctx.locals.user_role ≡ true) × ((judge_admin o).ctx ≡ o.ctx))
      ⊎ ((is_admin o.ctx.locals.user_role ≡ false) × ((judge_admin o).ctx.status ≡ 403))
unfolding judge_admin
judge_admin-response o e = elim (Bool-cases (is_admin o.ctx.locals.user_role)) [
  | inl admin ↦ inl (admin, ground arith)
  | inr other ↦ inr (other, ground arith)
]

judge_admin-status :
    {W : Type 0} (o : Outcome W)
    → o.error ≡ none
    → o.ctx.locals.user_role ≡ none
    → (judge_admin o).ctx.status ≡ 403
unfolding judge_admin
judge_admin-status o e r = ground arith

pub bearer-ne-empty : (token : String) → str_eq (String.◌++◌ "Bearer " token) "" ≡ false
bearer-ne-empty token = elim (Bool-cases (str_eq (String.◌++◌ "Bearer " token) "")) [
  | inl same ↦
      let nil : "Bearer " ≡ "" = (append-eq-nil_iff.0 ((eq_iff _ _).0 same)).0 in
      absurd (Bearer-ne-nil nil)
  | inr other ↦ other
]

module _ {W : Type 0} (m : Middleware) (next : Handler W) (c : Ctx) (w : W) where
  require_jwt_accepted :
      (claims : Claims) → Bears m c claims → require_jwt m next c w ≡ next (with_claims claims c) w
  unfolding require_jwt authenticate_jwt
  require_jwt_accepted claims b =
      let full : str_eq c.authorization "" ≡ false = rw b.header (bearer-ne-empty b.token) in
      let split : split_space c.authorization ≡ some ("Bearer", b.token) =
        rw b.header (split_space-Bearer b.token) in
      rw (full, split, b.accepted, authenticate_jwt)

  -- A request with any token that ValidateJWT accepts, whatever its role, has the effect on the
  -- world that the rest of the chain, the admin handler, has for that caller.
  pub require_admin-world :
      (claims : Claims)
      → Bears m c claims
      → (require_admin m next c w).world ≡ (next (with_claims claims c) w).world
  unfolding require_admin
  require_admin-world claims b =
      rw (require_jwt_accepted claims b, require_admin) (judge_admin-world _)

  -- With an accepted token, where the rest of the chain returns no error, the answer is the
  -- handler's own if the role in the locals is admin or super_admin, and 403 otherwise.
  pub require_admin-response :
      (claims : Claims)
      → Bears m c claims
      → (next (with_claims claims c) w).error ≡ none
      → let after = (next (with_claims claims c) w).ctx in
        ((is_admin after.locals.user_role ≡ true) × ((require_admin m next c w).ctx ≡ after))
        ⊎ ((is_admin after.locals.user_role ≡ false)
            × ((require_admin m next c w).ctx.status ≡ 403))
  unfolding require_admin
  require_admin-response claims b fine =
      rw (require_jwt_accepted claims b, require_admin)
        (judge_admin-response (next (with_claims claims c) w) fine)

  -- The world is untouched where no accepted token is borne.
  require_jwt_refused :
      ((claims : Claims) → ¬ Bears m c claims)
      → (body : Body) × (require_jwt m next c w ≡ answer 401 body c w)
  unfolding require_jwt authenticate_jwt
  require_jwt_refused none_borne = elim (Bool-cases (str_eq c.authorization "")) [
    | inl missing ↦ (error_auth "missing Authorization header", rw missing)
    | inr present ↦ elim (Option-cases (split_space c.authorization)) [
      | inl one_part ↦ (error_auth "invalid Authorization format", rw (present, one_part))
      | inr ((scheme, token), split) ↦ elim (Bool-cases (str_eq scheme "Bearer")) [
        | inr other ↦ (error_auth "invalid Authorization format", rw (present, split, other))
        | inl bearer ↦ elim (Option-cases (validate_jwt m.jwt m.jwt_secret token)) [
          | inl invalid ↦ (
            error_auth "invalid or expired JWT",
            rw (present, split, bearer, invalid, authenticate_jwt),
          )
          | inr (claims, valid) ↦ absurd (
              none_borne claims (record {
                token = token;
                header = header_of c.authorization scheme token bearer split;
                accepted = valid;
              }))
        ]
      ]
    ]
  ]

  -- Without an accepted token RequireAdmin runs nothing. It answers 403 where nothing had set a
  -- role before: the 401 that RequireJWT wrote is overwritten.
  pub require_admin_refused :
      ((claims : Claims) → ¬ Bears m c claims)
      → c.locals.user_role ≡ none
      → ((require_admin m next c w).world ≡ w) × ((require_admin m next c w).ctx.status ≡ 403)
  unfolding require_admin
  require_admin_refused none_borne no_role =
      let (body, refused) = require_jwt_refused none_borne in
      rw (refused, require_admin) (judge_admin-world _, judge_admin-status _ refl no_role)
