-- ===== src/Guardrails.antt =====
-- The guardrails on chat requests: applyGuardrails and its helpers
-- (backend/internal/gateway/router.go), GetActiveGuardrailPolicy and RecordGuardrailResult
-- (backend/internal/storage/store.go). The patterns of regexp and the functions of the package
-- strings are parameters.
use Prim.Native.String
use ai_aggregator.Prelude.{
  ℕ, suc, ◌+◌, ◌≡◌, Bool, true, false, ◌&&◌, ◌||◌, not, String, Option, none, some, List, [], ◌∷◌,
  ◌++◌, map, any, if◌then◌else◌, str_eq, ltb, leb,
}
use ai_aggregator.Prelude.Best.{best}
use ai_aggregator.Prelude.Json.{
  Json, str, arr, obj, Items, nil, cons, Fields, end, field, get, as_string,
}
mod Masking
mod Verdicts
mod Tests

-- provider.ChatMessage; its content is what json.Unmarshal makes of an interface{}.
pub record Message : Type 0 where
  pub role : String
  pub content : Json

-- How often the three patterns of personal data occur in a text, what replacing one leaves of it,
-- and strings.ToLower and strings.Contains.
pub record Patterns : Type 0 where
  pub emails : String → ℕ
  pub phones : String → ℕ
  pub cards : String → ℕ
  pub hide_emails : String → String
  pub hide_phones : String → String
  pub hide_cards : String → String
  pub to_lower : String → String
  pub contains : String → String → Bool

-- storage.GuardrailPolicy, and storage.GuardrailFinding.
pub record GuardrailPolicy : Type 0 where
  pub id : String
  pub scope : String
  pub scope_id : Option String
  pub is_enabled : Bool
  pub pii_action : String
  pub injection_action : String

pub record Finding : Type 0 where
  pub kind : String
  pub category : String
  pub count : ℕ
  pub action : String
  pub severity : String

-- The action of a result; its status is passed, masked or blocked.
pub data Verdict : Type 0 where
  allow mask block : Verdict

-- storage.GuardrailResult.
pub record GuardrailResult : Type 0 where
  pub policy_id : String
  pub verdict : Verdict
  pub risk_score : ℕ
  pub findings : List Finding

-- The WHERE and the CASE of GetActiveGuardrailPolicy.
abbrev pub policy_rank : String → GuardrailPolicy → Option ℕ
policy_rank workspace_id p =
    if p.is_enabled
    then elim p.scope_id [
      | none ↦ if str_eq p.scope "global" then some 1 else none
      | some id ↦ if str_eq p.scope "workspace" && str_eq id workspace_id then some 0 else none
    ]
    else none

-- GetActiveGuardrailPolicy over the rows, the newest first.
unfoldable pub active_policy : List GuardrailPolicy → String → Option GuardrailPolicy
active_policy rows workspace_id = elim (best (policy_rank workspace_id) rows) [
  | none ↦ none
  | some (_, p) ↦ some p
]

abbrev text_of_part : Json → List String
text_of_part (obj fs) = elim (get "text" fs) [
  | none ↦ []
  | some v ↦ elim (as_string v) [ none ↦ [] | some s ↦ s ∷ [] ]
]
text_of_part _ = []

abbrev pub texts_of_parts : Items → List String
texts_of_parts nil = []
texts_of_parts (cons part parts) = text_of_part part ++ texts_of_parts parts

abbrev pub texts_of_content : Json → List String
texts_of_content (str s) = s ∷ []
texts_of_content (arr parts) = texts_of_parts parts
texts_of_content _ = []

-- chatRequestTexts
unfoldable pub chat_request_texts : List Message → List String
chat_request_texts [] = []
chat_request_texts (m ∷ ms) = texts_of_content m.content ++ chat_request_texts ms

-- strings.Join(texts, "\n")
abbrev join_lines : List String → String
join_lines [] = ""
join_lines (t ∷ []) = t
join_lines (t ∷ u ∷ ts) = String.◌++◌ t (String.◌++◌ "\n" (join_lines (u ∷ ts)))

abbrev injection_patterns : List String
injection_patterns =
    "ignore previous instructions" ∷ "ignore all previous instructions" ∷ "developer message"
    ∷ "system prompt" ∷ "reveal your instructions" ∷ "jailbreak" ∷ "dan mode" ∷ []

-- fields[key] = value
abbrev pub put : String → Json → Fields → Fields
put k v end = field k v end
put k v (field j w fs) = field j w (put k v fs)

abbrev pub judge_finding : Verdict → Finding → Verdict
judge_finding v f =
    if str_eq f.action "block"
    then block
    else if str_eq f.action "mask"
    then elim v [ block ↦ block | _ ↦ mask ]
    else v

-- The action after the loop over the findings.
unfoldable pub judge : Verdict → List Finding → Verdict
judge v [] = v
judge v (f ∷ fs) = judge (judge_finding v f) fs

abbrev severity_score : Finding → ℕ
severity_score f =
    if str_eq f.severity "critical" then 50 else if str_eq f.severity "high" then 35 else 20

abbrev risk_sum : List Finding → ℕ
risk_sum [] = 0
risk_sum (f ∷ fs) = severity_score f + risk_sum fs

unfoldable pub risk_score : List Finding → ℕ
risk_score fs = if ltb 100 (risk_sum fs) then 100 else risk_sum fs

module _ (pats : Patterns) where
  -- The closure addPII of detectGuardrailFindings.
  abbrev pii_finding : GuardrailPolicy → String → ℕ → List Finding
  pii_finding policy kind count =
      if ltb 0 count && not (str_eq policy.pii_action "allow")
      then record {
        kind = kind;
        category = "pii";
        count = count;
        action = policy.pii_action;
        severity = "medium";
      }
        ∷ []
      else []

  abbrev injection_finding : GuardrailPolicy → String → List Finding
  injection_finding policy text =
      if any (pats.contains (pats.to_lower text)) injection_patterns
        && not (str_eq policy.injection_action "allow")
      then record {
        kind = "prompt_injection";
        category = "security";
        count = 1;
        action = policy.injection_action;
        severity = "high";
      }
        ∷ []
      else []

  -- detectGuardrailFindings
  unfoldable pub detect_guardrail_findings : String → GuardrailPolicy → List Finding
  detect_guardrail_findings text policy =
      pii_finding policy "email" (pats.emails text)
      ++ pii_finding policy "phone_or_numeric_identifier" (pats.phones text)
      ++ pii_finding policy "payment_card" (pats.cards text)
      ++ injection_finding policy text

  -- maskSensitiveText
  abbrev pub mask_sensitive_text : String → String
  mask_sensitive_text text = pats.hide_phones (pats.hide_cards (pats.hide_emails text))

  abbrev mask_part : Json → Json
  mask_part (obj fs) = elim (get "text" fs) [
    | none ↦ obj fs
    | some v ↦ elim (as_string v) [
      | none ↦ obj fs
      | some s ↦ obj (put "text" (str (mask_sensitive_text s)) fs)
    ]
  ]
  mask_part v = v

  abbrev pub mask_parts : Items → Items
  mask_parts nil = nil
  mask_parts (cons part parts) = cons (mask_part part) (mask_parts parts)

  abbrev pub mask_content : Json → Json
  mask_content (str s) = str (mask_sensitive_text s)
  mask_content (arr parts) = arr (mask_parts parts)
  mask_content v = v

  -- maskChatRequest
  unfoldable pub mask_chat_request : List Message → List Message
  mask_chat_request [] = []
  mask_chat_request (m ∷ ms) = record m { content = mask_content m.content } ∷ mask_chat_request ms

  -- applyGuardrails: whether it failed, whether it blocks, the messages and the results recorded.
  -- `policies` is none for an error of the query; `record_fails` that of RecordGuardrailResult.
  unfoldable pub apply_guardrails :
      (policies : Option (List GuardrailPolicy)) (record_fails : Bool) (workspace_id : String)
      → List Message
      → Bool × Bool × List Message × List GuardrailResult
  apply_guardrails none record_fails workspace_id ms = (true, false, ms, [])
  apply_guardrails (some rows) record_fails workspace_id ms =
      elim (active_policy rows workspace_id) [
        | none ↦ (false, false, ms, [])
        | some policy ↦
            let findings = detect_guardrail_findings (join_lines (chat_request_texts ms)) policy in
            let verdict = judge allow findings in
            (
              record_fails,
              elim verdict [ block ↦ true | _ ↦ false ],
              elim verdict [ mask ↦ mask_chat_request ms | _ ↦ ms ],
              if record_fails
                  then []
                  else record {
                    policy_id = policy.id;
                    verdict = verdict;
                    risk_score = risk_score findings;
                    findings = findings;
                  }
                    ∷ [],
            )
      ]

  -- What handleChatCompletions makes of it: the messages that go on, or `none` for the answer 400.
  -- An error lets the request through.
  unfoldable pub screen :
      (policies : Option (List GuardrailPolicy)) (record_fails : Bool) (workspace_id : String)
      → List Message
      → Option (List Message)
  screen policies record_fails workspace_id ms =
      let (failed, blocked, ms', _) = apply_guardrails policies record_fails workspace_id ms in
      if failed then some ms' else if blocked then none else some ms'
