-- ===== src/Auth/Laws.antt =====
-- What RequireAuth lets through (backend/internal/auth/middleware.go).
use Prim.Native.String
use text.Mathlib.TextEquality.{Char-path}
use mathlib.Core.List.{Memᴰ}
use text.Mathlib.TextLemmas.{nil-append, cons-append}
use Prim.Native.Char.{Char, code}
use ai_aggregator.Prelude.{
  ℕ, ◌<◌, ◌≡◌, ap, sym, ◌≢◌, inl, inr, true, false, String, Option, none, some, List, [], ◌∷◌,
  arith, Bool-cases, Option-cases, eq_iff, str_eq, ◌==◌ as nat_eq, ◌&&◌, ◌||◌,
}
use ai_aggregator.Prelude.Text.{split_space, has_prefix}
use ai_aggregator.Prelude.Json.{Fields}
use ai_aggregator.Http.{Body, Ctx, Outcome, Handler, answer}
use ai_aggregator.Auth.{
  JwtToken, JwtLibrary, Claims, ApiKeyRow, is_unexpired, validate_api_key, Middleware, jwt_key,
  claim_string, claims_of, validate_jwt, with_api_key, with_claims, authenticate_api_key,
  authenticate_jwt, find_api_key, require_auth,
}

-- A key row that the query may return: of this hash, active, not expired.
pub record IsUsable (now : ℕ) (key_hash : String) (row : ApiKeyRow) : Type 0 where
  pub hash : row.key_hash ≡ key_hash
  pub active : row.is_active ≡ true
  pub unexpired : (t : ℕ) → row.expires_at ≡ some t → now < t

is_unexpired→lt :
    (now : ℕ) (e : Option ℕ) → is_unexpired now e ≡ true → (t : ℕ) → e ≡ some t → now < t
is_unexpired→lt now none h t p = cc
is_unexpired→lt now (some s) h t p = ground arith

validate_api_key_here :
    (now : ℕ) (h : String) (row : ApiKeyRow)
    → (str_eq row.key_hash h && row.is_active && is_unexpired now row.expires_at) ≡ true
    → IsUsable now h row
validate_api_key_here now h row e = record {
  hash = (eq_iff row.key_hash h).0 (ground arith);
  active = ground arith;
  unexpired = is_unexpired→lt now row.expires_at (ground arith);
}

pub validate_api_key_sound :
    (now : ℕ) (h : String) (rows : List ApiKeyRow) (row : ApiKeyRow)
    → validate_api_key now h rows ≡ some row
    → Memᴰ row rows × IsUsable now h row
unfolding validate_api_key
validate_api_key_sound now h [] row e = cc
validate_api_key_sound now h (r ∷ rows) row e =
    elim (Bool-cases (str_eq r.key_hash h && r.is_active && is_unexpired now r.expires_at)) [
      | inl hit ↦
          let same : r ≡ row = ground arith in
          (Memᴰ.head (sym same), rw same at (validate_api_key_here now h r hit))
      | inr miss ↦
          let (there, ok) = validate_api_key_sound now h rows row (ground arith) in
          (Memᴰ.tail there, ok)
    ]

find_api_key_sound :
    (m : Middleware) (key : String) (row : ApiKeyRow)
    → find_api_key m key ≡ some row
    → (rows : List ApiKeyRow) × (m.api_keys ≡ some rows)
      × Memᴰ row rows
      × IsUsable m.now (m.sha256_hex key) row
unfolding find_api_key
find_api_key_sound m key row e = elim (Option-cases m.api_keys) [
  | inl down ↦ absurd (ground arith)
  | inr (rows, up) ↦
      let (listed, usable) =
        validate_api_key_sound m.now (m.sha256_hex key) rows row (ground arith) in
      (rows, up, listed, usable)
]

abbrev space : Char
space = " "

-- The first space splits the text.
split_space_here :
    (c : Char) (s : String)
    → code c ≡ 32
    → String.◌∷◌ c s ≡ String.◌++◌ String.[] (String.◌++◌ " " s)
split_space_here c s e =
    rw (nil-append, cons-append space String.[] s, nil-append)
      (ap (λ d. String.◌∷◌ d s) (Char-path c space e))

pub split_space_sound :
    (s a b : String) → split_space s ≡ some (a, b) → s ≡ String.◌++◌ a (String.◌++◌ " " b)
unfolding split_space
split_space_sound String.[] a b e = cc
split_space_sound (String.◌∷◌ c s) a b e = elim (Bool-cases (nat_eq (code c) 32)) [
  | inl hit ↦
      let a_nil : String.[] ≡ a = ground arith in
      let same : s ≡ b = ground arith in rw (← a_nil, ← same) (split_space_here c s (ground arith))
  | inr miss ↦ elim (Option-cases (split_space s)) [
    | inl missing ↦ absurd (ground arith)
    | inr ((x, y), found) ↦
        let a_cons : String.◌∷◌ c x ≡ a = ground arith in
        let same : y ≡ b = ground arith in
        rw (← a_cons, ← same, cons-append) (ap (String.◌∷◌ c) (split_space_sound s x y found))
  ]
]

pub split_space-Bearer :
    (token : String) → split_space (String.◌++◌ "Bearer " token) ≡ some ("Bearer", token)
unfolding split_space
split_space-Bearer token = rw (
  cons-append, cons-append, cons-append, cons-append, cons-append, cons-append, cons-append,
  nil-append,
)

-- What the middleware grants a request: a context with the caller's locals, by an API key of the
-- table or by a token that the JWT library accepts.
pub data Grants (m : Middleware) (c : Ctx) : Ctx → Type 0 where
  by_key :
      (token : String) (rows : List ApiKeyRow) (row : ApiKeyRow)
      → c.authorization ≡ String.◌++◌ "Bearer" (String.◌++◌ " " token)
      → has_prefix token m.key_prefix ≡ true
      → m.api_keys ≡ some rows
      → Memᴰ row rows
      → IsUsable m.now (m.sha256_hex token) row
      → Grants m c (with_api_key row c)
  by_jwt :
      (token : String) (claims : Claims)
      → c.authorization ≡ String.◌++◌ "Bearer" (String.◌++◌ " " token)
      → has_prefix token m.key_prefix ≡ false
      → validate_jwt m.jwt m.jwt_secret token ≡ some claims
      → Grants m c (with_claims claims c)

module _ {W : Type 0} (m : Middleware) (next : Handler W) (c : Ctx) (w : W) where
  -- What a middleware did with a request: it answered 401 and ran nothing, or it ran the rest of
  -- the chain in a context that it grants.
  pub data Guarded : Outcome W → Type 0 where
    refused : (body : Body) → Guarded (answer 401 body c w)
    ran : (c' : Ctx) → Grants m c c' → Guarded (next c' w)

  module _ (token : String)
      (header : c.authorization ≡ String.◌++◌ "Bearer" (String.◌++◌ " " token)) where
    authenticate_jwt-Guarded :
        has_prefix token m.key_prefix ≡ false → Guarded (authenticate_jwt m next token c w)
    unfolding authenticate_jwt
    authenticate_jwt-Guarded plain = elim (Option-cases (validate_jwt m.jwt m.jwt_secret token)) [
      | inl invalid ↦ rw (invalid, authenticate_jwt) (refused _)
      | inr (claims, valid) ↦
          rw (valid, authenticate_jwt) (ran _ (by_jwt token claims header plain valid))
    ]

    authenticate_api_key-Guarded :
        has_prefix token m.key_prefix ≡ true → Guarded (authenticate_api_key m next token c w)
    unfolding authenticate_api_key
    authenticate_api_key-Guarded keyed = elim (Option-cases (find_api_key m token)) [
      | inl unknown ↦ rw (unknown, authenticate_api_key) (refused _)
      | inr (row, found) ↦
          let (rows, up, listed, usable) = find_api_key_sound m token row found in
          rw (found, authenticate_api_key)
            (ran _ (by_key token rows row header keyed up listed usable))
    ]

  -- RequireAuth answers 401 and runs nothing, or runs the rest of the chain for the caller whom
  -- the API key of the header, or else the JWT of the header, names.
  pub require_auth-Guarded : Guarded (require_auth m next c w)
  unfolding require_auth
  require_auth-Guarded = elim (Bool-cases (str_eq c.authorization "")) [
    | inl missing ↦ rw missing (refused _)
    | inr present ↦ elim (Option-cases (split_space c.authorization)) [
      | inl one_part ↦ rw (present, one_part) (refused _)
      | inr ((scheme, token), split) ↦ elim (Bool-cases (str_eq scheme "Bearer")) [
        | inr other ↦ rw (present, split, other) (refused _)
        | inl bearer ↦
            let named : scheme ≡ "Bearer" = (eq_iff scheme "Bearer").0 bearer in
            let header : c.authorization ≡ String.◌++◌ "Bearer" (String.◌++◌ " " token) =
              rw (← named) (split_space_sound _ scheme token split) in
            elim (Bool-cases (has_prefix token m.key_prefix)) [
              | inl keyed ↦
                  rw (present, split, bearer, keyed)
                    (authenticate_api_key-Guarded token header keyed)
              | inr plain ↦
                  rw (present, split, bearer, plain) (authenticate_jwt-Guarded token header plain)
            ]
      ]
    ]
  ]

claims_of_sound :
    (cs : Option Fields) (claims : Claims)
    → claims_of cs ≡ some claims
    → (claims.user_id ≢ "") × (claims.role ≢ "")
claims_of_sound none claims e = cc
claims_of_sound (some fs) claims e =
    let user_id = claim_string "uid" fs in
    let role = claim_string "role" fs in
    elim (Bool-cases (str_eq user_id "" || str_eq role "")) [
      | inl unnamed ↦ absurd (ground arith)
      | inr named ↦
          let same : record { user_id = user_id; role = role } ≡ claims = ground arith in
          rw (← same) (ground (arith, eq_iff user_id ""), ground (arith, eq_iff role ""))
    ]

-- A token that ValidateJWT accepts was signed by a method of the HMAC family, as the key function
-- demands, and names a user and a role.
pub validate_jwt_sound :
    (jwt : JwtLibrary) (secret token : String) (claims : Claims)
    → validate_jwt jwt secret token ≡ some claims
    → (t : JwtToken) × (jwt.parse token (jwt_key secret) ≡ some t)
      × (t.hmac ≡ true)
      × (t.valid ≡ true)
      × (claims.user_id ≢ "")
      × (claims.role ≢ "")
unfolding validate_jwt
validate_jwt_sound jwt secret token claims e =
    elim (Option-cases (jwt.parse token (jwt_key secret))) [
      | inl unread ↦ absurd (ground arith)
      | inr (t, read) ↦
          let keyed : jwt_key secret t ≢ none = jwt.parse_keyed token (jwt_key secret) t read in
          let (user, role) = claims_of_sound t.claims claims (ground arith) in
          (t, read, ground arith, ground arith, user, role)
    ]
