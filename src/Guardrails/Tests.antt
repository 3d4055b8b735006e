-- ===== src/Guardrails/Tests.antt =====
-- Runs of the guardrails, and their laws at a concrete policy.
use ai_aggregator.Prelude.{◌≡◌, refl, true, false, none, some, List, [], ◌∷◌, map, str_eq, any}
use ai_aggregator.Prelude.Json.{Json, str, arr, obj, cons, nil, field, end}
use ai_aggregator.Guardrails.{
  Message, Patterns, GuardrailPolicy, active_policy, chat_request_texts, mask_chat_request,
  mask_sensitive_text, screen, detect_guardrail_findings,
}
use ai_aggregator.Prelude.Best.{best}
use ai_aggregator.Guardrails.Masking.{chat_request_texts-mask}
use ai_aggregator.Guardrails.Verdicts.{
  strongest, findings_of, screened, screen-strongest, screen-open, asks,
}

-- One address, and one phrase.
abbrev patterns : Patterns
patterns = record {
  emails = λ s. elim (str_eq s "a@b.de") [ true ↦ 1 | false ↦ 0 ];
  phones = λ s. 0;
  cards = λ s. 0;
  hide_emails = λ s. elim (str_eq s "a@b.de") [ true ↦ "[EMAIL_MASKED]" | false ↦ s ];
  hide_phones = λ s. s;
  hide_cards = λ s. s;
  to_lower = λ s. s;
  contains = str_eq;
}

abbrev policy : GuardrailPolicy
policy = record {
  id = "g1";
  scope = "global";
  scope_id = none;
  is_enabled = true;
  pii_action = "mask";
  injection_action = "block";
}

abbrev user : Json → Message
user content = record { role = "user"; content = content }

abbrev mail : List Message
mail = user (arr (cons (obj (field "text" (str "a@b.de") end)) nil)) ∷ []

chat_request_texts-mask_example :
    chat_request_texts (mask_chat_request patterns mail)
    ≡ map (mask_sensitive_text patterns) (chat_request_texts mail)
chat_request_texts-mask_example = chat_request_texts-mask patterns mail

in_force : active_policy (policy ∷ []) "w1" ≡ some policy
unfolding active_policy best
in_force = refl

screen-strongest_example :
    screen patterns (some (policy ∷ [])) false "w1" mail
    ≡ screened patterns "w1" mail (strongest (findings_of patterns "w1" mail policy))
screen-strongest_example = screen-strongest patterns "w1" mail (policy ∷ []) policy in_force

abbrev attack : List Message
attack = user (str "jailbreak") ∷ []

attack_found : any (asks "block") (findings_of patterns "w1" attack policy) ≡ true
unfolding detect_guardrail_findings chat_request_texts
attack_found = refl

screen-open_example :
    (screen patterns (some (policy ∷ [])) false "w1" attack ≡ none)
    × (screen patterns (some (policy ∷ [])) true "w1" attack ≡ some attack)
screen-open_example = screen-open patterns "w1" attack (policy ∷ []) policy in_force attack_found
