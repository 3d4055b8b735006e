-- ===== src/Credentials.antt =====
-- Provider credentials: sealing (sealCredentialSecret in
-- backend/internal/gateway/router.go), unsealing and the choice of a key by scope
-- (unsealLocalSecret and GetScopedProviderKeySecretWithMetadata in
-- backend/internal/storage/store.go). A secret is a list of bytes.
pub mod Sealing
pub mod Scope
pub mod Keys
pub mod Stored
pub mod Revoked
mod Tests
use Prim.Native.Char.{code}
use ai_aggregator.Prelude.{
  ℕ, ◌+◌, ◌-◌, ◌*◌, ◌/◌, ◌%◌, Bool, true, false, ◌&&◌, ◌||◌, not, String, Option, none, some, List,
  [], ◌∷◌, ◌++◌, if◌then◌else◌, leb, ◌==◌, str_eq,
}
use ai_aggregator.Prelude.Text.{trim_space}
use ai_aggregator.Prelude.Best.{best}

-- The bytes of an ASCII text.
abbrev pub bytes : String → List ℕ
bytes String.[] = []
bytes (String.◌∷◌ c s) = code c ∷ bytes s

abbrev pub seal_prefix : List ℕ
seal_prefix = bytes "local:v1:"

-- encoding/hex, one digit
abbrev pub hex_digit : ℕ → ℕ
hex_digit d = if leb d 9 then d + b'0' else d - 10 + b'a'

abbrev pub hex_value : ℕ → Option ℕ
hex_value c =
    if leb b'0' c && leb c b'9'
    then some (c - b'0')
    else if leb b'a' c && leb c b'f'
    then some (c - b'a' + 10)
    else if leb b'A' c && leb c b'F'
    then some (c - b'A' + 10)
    else none

-- hex.EncodeToString
unfoldable pub hex_encode : List ℕ → List ℕ
hex_encode [] = []
hex_encode (b ∷ bs) = hex_digit (b / 16) ∷ hex_digit (b % 16) ∷ hex_encode bs

abbrev join_digits : Option ℕ → Option ℕ → Option (List ℕ) → Option (List ℕ)
join_digits (some hi) (some lo) (some bs) = some ((16 * hi + lo) ∷ bs)
join_digits _ _ _ = none

-- hex.DecodeString, `none` for an error
unfoldable pub hex_decode : List ℕ → Option (List ℕ)
hex_decode [] = some []
hex_decode (c ∷ []) = none
hex_decode (c ∷ d ∷ cs) = join_digits (hex_value c) (hex_value d) (hex_decode cs)

-- The text after a prefix, if it has that prefix.
unfoldable pub strip_prefix : List ℕ → List ℕ → Option (List ℕ)
strip_prefix [] s = some s
strip_prefix (p ∷ ps) [] = none
strip_prefix (p ∷ ps) (c ∷ s) = if p == c then strip_prefix ps s else none

-- sealCredentialSecret
unfoldable pub seal_credential_secret : List ℕ → List ℕ
unfolding hex_encode
seal_credential_secret secret = seal_prefix ++ hex_encode secret

-- unsealLocalSecret, `none` for an error
unfoldable pub unseal_local_secret : List ℕ → Option (List ℕ)
unfolding hex_decode strip_prefix
unseal_local_secret sealed = elim (strip_prefix seal_prefix sealed) [
  | none ↦ none
  | some h ↦ hex_decode h
]

-- A row of provider_keys, with an empty text for a NULL user or workspace.
pub record KeyRow : Type 0 where
  pub id : String
  pub provider_id : String
  pub key_ref : List ℕ
  pub scope : String
  pub user_id : String
  pub workspace_id : String
  pub is_active : Bool

-- The CASE of the query's ORDER BY: 1, 2 and 3, and `none` where WHERE drops the row.
abbrev pub scope_rank : (provider_id user_id workspace_id : String) → KeyRow → Option ℕ
scope_rank provider_id user_id workspace_id row =
    if not (str_eq row.provider_id provider_id && row.is_active)
    then none
    else if not (str_eq workspace_id "")
        && str_eq row.scope "workspace"
        && str_eq row.workspace_id workspace_id
    then some 1
    else if not (str_eq user_id "") && str_eq row.scope "user" && str_eq row.user_id user_id
    then some 2
    else if str_eq row.scope "platform"
    then some 3
    else none

-- A secret with the id and the scope of its key; all three are empty where there is none.
pub record Secret : Type 0 where
  pub secret : List ℕ
  pub key_id : String
  pub scope : String

abbrev pub no_secret : Secret
no_secret = record { secret = []; key_id = ""; scope = "" }

-- GetScopedProviderKeySecretWithMetadata, over the rows in order of creation, the newest first.
-- `none` is an error, also of the query.
unfoldable pub scoped_secret :
    Option (List KeyRow) → (provider_id user_id workspace_id : String) → Option Secret
unfolding unseal_local_secret
scoped_secret none provider_id user_id workspace_id = none
scoped_secret (some rows) provider_id user_id workspace_id =
    elim (best (scope_rank provider_id (trim_space user_id) (trim_space workspace_id)) rows) [
      | none ↦ some no_secret
      | some (_, row) ↦ elim (unseal_local_secret row.key_ref) [
        | none ↦ none
        | some secret ↦ some (record { secret = secret; key_id = row.id; scope = row.scope })
      ]
    ]
