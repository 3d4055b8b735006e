-- ===== src/Access/Keys.antt =====
-- The models that an API key may use (requireAPIKeyModelAccess in
-- backend/internal/gateway/router.go).
use Prim.Native.String
use ai_aggregator.Prelude.{
  ◌≡◌, refl, sym, ◌∙◌, ◌≢◌, ◌⊎◌, ◌↔◌, inl, inr, Bool-cases, true, false, String, Option, none, some,
  List, [], ◌∷◌, any, if◌then◌else◌, if-cases, str_eq, eq_iff, All, arith,
}
use ai_aggregator.Prelude.Json.{
  Json, Fields, Items, null, bool, num, str, arr, obj, items, get, as_string,
}
use ai_aggregator.Http.{
  RawMessage, parsed, malformed, Ctx, Handler, Outcome, answer, error_response, local_string,
}
use ai_aggregator.Access.{is_model, api_key_allows_model, require_api_key_model_access}

-- An item of a list of models that gives this model free.
abbrev pub Names : String → Json → Type 0
Names model_id v = (as_string v ≡ some "*") ⊎ (as_string v ≡ some model_id)

-- Permissions that forbid a model: those of an object whose member "models" is the text of another
-- model, or a list without the model and without "*".
pub data Forbids (model_id : String) : RawMessage → Type 0 where
  by_name :
      (fs : Fields) (s : String)
      → get "models" fs ≡ some (str s)
      → s ≢ "*"
      → s ≢ model_id
      → Forbids model_id (parsed (obj fs))
  by_list :
      (fs : Fields) (vs : Items)
      → get "models" fs ≡ some (arr vs)
      → All (λ v. ¬ Names model_id v) (items vs)
      → Forbids model_id (parsed (obj fs))

-- What the middleware does: where the caller is an API key, the request names a model and the key's
-- permissions forbid it, the answer is 403 and nothing runs; otherwise the handler behind it runs
-- as if alone.
pub data IsGated {W : Type 0} (model_id : String) (next : Handler W) (c : Ctx) (w : W)
    : Outcome W → Type 0 where
  served :
      ((raw : RawMessage)
        → local_string c.locals.auth_type ≡ "api_key"
        → model_id ≢ ""
        → c.locals.permissions ≡ some raw
        → ¬ Forbids model_id raw)
      → IsGated model_id next c w (next c w)
  forbidden :
      (raw : RawMessage) (o : Outcome W)
      → local_string c.locals.auth_type ≡ "api_key"
      → model_id ≢ ""
      → c.locals.permissions ≡ some raw
      → Forbids model_id raw
      → o.ctx.status ≡ 403
      → o.world ≡ w
      → IsGated model_id next c w o

str_ne : (s t : String) → str_eq s t ≡ false → s ≢ t
str_ne s t h e = let same = (eq_iff s t).1 e in cc

module _ (model_id : String) where
  is_model_iff : (v : Json) → (is_model model_id v ≡ true) ↔ Names model_id v
  is_model_iff null = (λ h. cc, λ n. elim n [ inl e ↦ cc | inr e ↦ cc ])
  is_model_iff (bool b) = (λ h. cc, λ n. elim n [ inl e ↦ cc | inr e ↦ cc ])
  is_model_iff (num s) = (λ h. cc, λ n. elim n [ inl e ↦ cc | inr e ↦ cc ])
  is_model_iff (arr vs) = (λ h. cc, λ n. elim n [ inl e ↦ cc | inr e ↦ cc ])
  is_model_iff (obj fs) = (λ h. cc, λ n. elim n [ inl e ↦ cc | inr e ↦ cc ])
  is_model_iff (str s) = ground (arith, eq_iff s "*", eq_iff s model_id)

  list-forbids :
      (vs : List Json) → any (is_model model_id) vs ≡ false → All (λ v. ¬ Names model_id v) vs
  list-forbids [] h = tt
  list-forbids (v ∷ vs) h =
      (λ n. let yes = (is_model_iff v).1 n in ground arith, list-forbids vs (ground arith))

  list-allows :
      (vs : List Json) → any (is_model model_id) vs ≡ true → ¬ All (λ v. ¬ Names model_id v) vs
  list-allows [] h others = cc
  list-allows (v ∷ vs) h (other, others) = elim (Bool-cases (is_model model_id v)) [
    | inl this ↦ other ((is_model_iff v).0 this)
    | inr no_match ↦ list-allows vs (rw no_match at h) others
  ]

  -- The permissions of an object by its member "models".
  member-Forbids :
      (fs : Fields) (o : Option Json)
      → get "models" fs ≡ o
      → api_key_allows_model (parsed (obj fs)) model_id ≡ false
      → Forbids model_id (parsed (obj fs))
  unfolding api_key_allows_model
  member-Forbids fs none at h = let wrong = rw (at, api_key_allows_model) at h in cc
  member-Forbids fs (some null) at h = let wrong = rw (at, api_key_allows_model) at h in cc
  member-Forbids fs (some (bool b)) at h = let wrong = rw (at, api_key_allows_model) at h in cc
  member-Forbids fs (some (num s)) at h = let wrong = rw (at, api_key_allows_model) at h in cc
  member-Forbids fs (some (obj gs)) at h = let wrong = rw (at, api_key_allows_model) at h in cc
  member-Forbids fs (some (str s)) at h =
      by_name fs s at (ground (arith, eq_iff s "*")) (ground (arith, eq_iff s model_id))
  member-Forbids fs (some (arr vs)) at h = by_list fs vs at (list-forbids (items vs) (ground arith))

  allows-Forbids :
      (raw : RawMessage) → api_key_allows_model raw model_id ≡ false → Forbids model_id raw
  unfolding api_key_allows_model
  allows-Forbids RawMessage.empty h = cc
  allows-Forbids malformed h = cc
  allows-Forbids (parsed null) h = cc
  allows-Forbids (parsed (bool b)) h = cc
  allows-Forbids (parsed (num s)) h = cc
  allows-Forbids (parsed (str s)) h = cc
  allows-Forbids (parsed (arr vs)) h = cc
  allows-Forbids (parsed (obj fs)) h = member-Forbids fs (get "models" fs) refl h

  allows-free :
      (raw : RawMessage) → api_key_allows_model raw model_id ≡ true → ¬ Forbids model_id raw
  unfolding api_key_allows_model
  allows-free _ h (by_name fs s at other another) = ground (arith, eq_iff s "*", eq_iff s model_id)
  allows-free _ h (by_list fs vs at others) = list-allows (items vs) (ground arith) others

module _ {W : Type 0} (model_id : String) (next : Handler W) (c : Ctx) (w : W) where
  -- What follows the look-up of the key's permissions.
  abbrev by_permissions : Option RawMessage → Outcome W
  by_permissions none = next c w
  by_permissions (some RawMessage.empty) = next c w
  by_permissions (some raw) =
      if api_key_allows_model raw model_id
      then next c w
      else answer 403
          (error_response "permission_denied"
            (String.◌++◌ "API key is not allowed to access model: " model_id))
          c w

  free-IsGated :
      (own : RawMessage)
      → c.locals.permissions ≡ some own
      → ¬ Forbids model_id own
      → IsGated model_id next c w (next c w)
  free-IsGated own h free = served (λ raw _ _ e f.
      let same : some raw ≡ some own = sym e ∙ h in
      let raw_is : raw ≡ own = cc in free (rw raw_is at f))

  judged-IsGated :
      (o : Option RawMessage)
      → local_string c.locals.auth_type ≡ "api_key"
      → model_id ≢ ""
      → c.locals.permissions ≡ o
      → IsGated model_id next c w (by_permissions o)
  unfolding api_key_allows_model
  judged-IsGated none key named h =
      served (λ raw _ _ e _. let wrong : none ≡ some raw = sym h ∙ e in cc)
  judged-IsGated (some RawMessage.empty) key named h =
      free-IsGated RawMessage.empty h (allows-free model_id RawMessage.empty refl)
  judged-IsGated (some malformed) key named h =
      free-IsGated malformed h (allows-free model_id malformed refl)
  judged-IsGated (some (parsed v)) key named h =
      if-cases (IsGated model_id next c w) (api_key_allows_model (parsed v) model_id) _ _
        (λ allows. free-IsGated (parsed v) h (allows-free model_id (parsed v) allows))
        (λ e. forbidden (parsed v) _ key named h (allows-Forbids model_id (parsed v) e) refl refl)

  -- A request of an API key for a model that the permissions of the key forbid is answered 403 and
  -- nothing runs; these name another model, or list models without it and without "*". Every other
  -- request reaches the handler behind, which runs as if alone.
  pub require_api_key_model_access-IsGated :
      IsGated model_id next c w (require_api_key_model_access model_id next c w)
  unfolding require_api_key_model_access api_key_allows_model
  require_api_key_model_access-IsGated =
      if-cases (IsGated model_id next c w) (str_eq (local_string c.locals.auth_type) "api_key") _ _
        (λ key.
          if-cases (IsGated model_id next c w) (str_eq model_id "") _ _
            (λ e. served (λ raw _ named _ _. named ((eq_iff model_id "").0 e)))
            (λ e.
              judged-IsGated c.locals.permissions
                ((eq_iff (local_string c.locals.auth_type) "api_key").0 key) (str_ne model_id "" e)
                refl))
        (λ e. served (λ raw key _ _ _. str_ne (local_string c.locals.auth_type) "api_key" e key))
