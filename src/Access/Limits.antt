-- ===== src/Access/Limits.antt =====
-- The limits of a workspace: CheckWorkspaceLimits (backend/internal/storage/store.go) and
-- requireWorkspaceLimits (backend/internal/gateway/router.go). The sums and counts of the queries
-- are given, `none` for a query that fails.
use Prim.Native.String
use mathlib.Core.List.{Memᴰ}
use ai_aggregator.Prelude.{
  ◌≡◌, refl, Bool, true, false, ◌&&◌, String, Option, none, some, List, [], ◌∷◌, All, if◌then◌else◌,
  str_eq, Option-cases, Bool-cases, inl, inr,
}
use ai_aggregator.Prelude.Int.{pos}
use ai_aggregator.Float.{Float, fle}
use ai_aggregator.Http.{Handler, answer, error_response, local_string, is_one_of}

-- An active row of workspace_quotas.
pub record Quota (F : Type 0) : Type 0 where
  pub quota_type : String
  pub limit_value : F

-- What the queries answer: the spend of the month, the least hard limit of a budget (-1 where
-- there is none), the quotas, and the use that a quota of a type is compared with.
pub record Limits (F : Type 0) : Type 0 where
  pub spend : Option F
  pub budget : Option F
  pub quotas : Option (List (Quota F))
  pub current : String → Option F

pub data LimitCheck : Type 0 where
  within : LimitCheck
  exceeded : (reason : String) → LimitCheck
  failed : LimitCheck

module _ (fl : Float) (limits : Limits fl.F) where
  abbrev pub is_counted : String → Bool
  is_counted quota_type =
      is_one_of ("requests_per_minute" ∷ "tokens_per_month" ∷ "spend_per_month" ∷ []) quota_type

  -- The loop over the quotas; a type that it does not know is skipped.
  unfoldable pub check_quotas : List (Quota fl.F) → LimitCheck
  check_quotas [] = within
  check_quotas (q ∷ qs) =
      let rest = check_quotas qs in
      if is_counted q.quota_type
      then elim (limits.current q.quota_type) [
        | none ↦ failed
        | some v ↦
            if fle fl q.limit_value v
            then exceeded (String.◌++◌ "workspace quota exceeded: " q.quota_type)
            else rest
      ]
      else rest

  abbrev pub is_over_budget : fl.F → fl.F → Bool
  is_over_budget spend budget = fle fl (fl.of_ℤ (pos 0)) budget && fle fl budget spend

  -- CheckWorkspaceLimits
  unfoldable pub check_workspace_limits : (workspace_id : String) → LimitCheck
  check_workspace_limits workspace_id =
      if str_eq workspace_id "" then within else elim limits.spend [
        | none ↦ failed
        | some spend ↦ elim limits.budget [
          | none ↦ failed
          | some budget ↦
              if is_over_budget spend budget
              then exceeded "workspace monthly budget exceeded"
              else elim limits.quotas [ none ↦ failed | some qs ↦ check_quotas qs ]
        ]
      ]

  -- requireWorkspaceLimits; a check that fails lets the request through.
  unfoldable pub require_workspace_limits : {W : Type 0} → Handler W → Handler W
  require_workspace_limits next c w =
      if str_eq (local_string c.locals.workspace_id) ""
      then next c w
      else elim (check_workspace_limits (local_string c.locals.workspace_id)) [
        | failed ↦ next c w
        | within ↦ next c w
        | exceeded reason ↦ answer 429 (error_response "quota_exceeded" reason) c w
      ]

  -- A quota whose use has reached its limit.
  pub record IsReached (q : Quota fl.F) : Type 0 where
    pub counted : is_counted q.quota_type ≡ true
    pub use_ : fl.F
    pub answered : limits.current q.quota_type ≡ some use_
    pub reached : fle fl q.limit_value use_ ≡ true

  -- A quota of a type that is not counted, or whose use is below its limit.
  pub data IsBelow (q : Quota fl.F) : Type 0 where
    unknown : is_counted q.quota_type ≡ false → IsBelow q
    below :
        (v : fl.F)
        → limits.current q.quota_type ≡ some v
        → fle fl q.limit_value v ≡ false
        → IsBelow q

  -- What the loop finds: every quota is below its limit, some quota is reached and is named, or the
  -- query for some quota fails.
  pub data Checks (qs : List (Quota fl.F)) : LimitCheck → Type 0 where
    all_below : All IsBelow qs → Checks qs within
    some_reached :
        (q : Quota fl.F)
        → Memᴰ q qs
        → IsReached q
        → Checks qs (exceeded (String.◌++◌ "workspace quota exceeded: " q.quota_type))
    some_failed :
        (q : Quota fl.F) → Memᴰ q qs → limits.current q.quota_type ≡ none → Checks qs failed

  Checks-cons :
      (q : Quota fl.F) (qs : List (Quota fl.F)) (r : LimitCheck)
      → IsBelow q
      → Checks qs r
      → Checks (q ∷ qs) r
  Checks-cons q qs _ b (all_below h) = all_below (b, h)
  Checks-cons q qs _ b (some_reached p m h) = some_reached p (Memᴰ.tail m) h
  Checks-cons q qs _ b (some_failed p m h) = some_failed p (Memᴰ.tail m) h

  -- The loop over the quotas refuses only for a quota that is reached, fails only where a query
  -- fails, and passes only where every counted quota is below its limit.
  pub check_quotas-Checks : (qs : List (Quota fl.F)) → Checks qs (check_quotas qs)
  unfolding check_quotas
  check_quotas-Checks [] = all_below tt
  check_quotas-Checks (q ∷ qs) = elim (Bool-cases (is_counted q.quota_type)) [
    | inr other ↦
        rw (other, check_quotas)
          (Checks-cons q qs (check_quotas qs) (unknown other) (check_quotas-Checks qs))
    | inl counts ↦ elim (Option-cases (limits.current q.quota_type)) [
      | inl missing ↦ rw (counts, missing, check_quotas) (some_failed q (Memᴰ.head refl) missing)
      | inr (v, found) ↦ elim (Bool-cases (fle fl q.limit_value v)) [
        | inl full ↦
            rw (counts, found, full, check_quotas)
              (some_reached q (Memᴰ.head refl)
                (record { counted = counts; use_ = v; answered = found; reached = full }))
        | inr free ↦
            rw (counts, found, free, check_quotas)
              (Checks-cons q qs (check_quotas qs) (below v found free) (check_quotas-Checks qs))
      ]
    ]
  ]
