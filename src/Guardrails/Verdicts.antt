-- ===== src/Guardrails/Verdicts.antt =====
-- What the guardrails decide (applyGuardrails and handleChatCompletions in
-- backend/internal/gateway/router.go).
use ai_aggregator.Prelude.{
  ◌≡◌, refl, ◌∙◌, Bool, true, false, ◌||◌, String, Option, none, some, List, [], ◌∷◌, any,
  if◌then◌else◌, str_eq, arith,
}
use ai_aggregator.Guardrails.{
  Message, Patterns, GuardrailPolicy, Finding, Verdict, allow, mask, block, active_policy,
  chat_request_texts, join_lines, detect_guardrail_findings, mask_chat_request, judge,
  judge_finding, apply_guardrails, screen,
}

-- The strongest action among findings, and the stronger of two.
abbrev pub asks : String → Finding → Bool
asks action f = str_eq f.action action

abbrev pub strongest : List Finding → Verdict
strongest fs = if any (asks "block") fs then block else if any (asks "mask") fs then mask else allow

abbrev stronger : Verdict → Verdict → Verdict
stronger block v = block
stronger mask block = block
stronger mask mask = mask
stronger mask allow = mask
stronger allow v = v

stronger-finding :
    (v : Verdict) (b m b' m' : Bool)
    → stronger
        (if b then block else if m then elim v [ block ↦ block | _ ↦ mask ] else v)
        (if b' then block else if m' then mask else allow)
      ≡ stronger v (if b || b' then block else if m || m' then mask else allow)
stronger-finding allow b m b' m' = ground arith
stronger-finding mask b m b' m' = ground arith
stronger-finding block b m b' m' = ground arith

judge-strongest : (v : Verdict) (fs : List Finding) → judge v fs ≡ stronger v (strongest fs)
unfolding judge
judge-strongest allow [] = refl
judge-strongest mask [] = refl
judge-strongest block [] = refl
judge-strongest v (f ∷ fs) =
    judge-strongest (judge_finding v f) fs
    ∙ stronger-finding v (asks "block" f) (asks "mask" f) (any (asks "block") fs)
        (any (asks "mask") fs)

strongest-judge : (fs : List Finding) → judge allow fs ≡ strongest fs
strongest-judge fs = judge-strongest allow fs

module _ (pats : Patterns) (workspace_id : String) (ms : List Message) where
  abbrev pub findings_of : GuardrailPolicy → List Finding
  findings_of policy = detect_guardrail_findings pats (join_lines (chat_request_texts ms)) policy

  -- What a verdict makes of the messages.
  abbrev pub screened : Verdict → Option (List Message)
  screened block = none
  screened mask = some (mask_chat_request pats ms)
  screened allow = some ms

  screened-elim :
      (v : Verdict)
      → (if elim v [ block ↦ true | _ ↦ false ]
          then none
          else some (elim v [ mask ↦ mask_chat_request pats ms | _ ↦ ms ]))
        ≡ screened v
  screened-elim allow = refl
  screened-elim mask = refl
  screened-elim block = refl

  -- Under the policy in force, and where the result can be recorded, a request is blocked exactly
  -- where some finding asks for it, masked exactly where none does and some finding asks for
  -- masking, and goes on as it is otherwise.
  pub screen-strongest :
      (rows : List GuardrailPolicy) (policy : GuardrailPolicy)
      → active_policy rows workspace_id ≡ some policy
      → screen pats (some rows) false workspace_id ms ≡ screened (strongest (findings_of policy))
  unfolding screen apply_guardrails
  screen-strongest rows policy h =
      rw (h, screen, apply_guardrails)
        (rw (strongest-judge (findings_of policy)) (screened-elim (strongest (findings_of policy))))

  -- Where a finding under the policy in force asks for blocking, a request whose result can be
  -- recorded is refused, and one whose result cannot be recorded goes on with its messages as they
  -- are, not even masked.
  pub screen-open :
      (rows : List GuardrailPolicy) (policy : GuardrailPolicy)
      → active_policy rows workspace_id ≡ some policy
      → any (asks "block") (findings_of policy) ≡ true
      → (screen pats (some rows) false workspace_id ms ≡ none)
        × (screen pats (some rows) true workspace_id ms ≡ some ms)
  unfolding screen apply_guardrails
  screen-open rows policy h blocks =
      let verdict : judge allow (findings_of policy) ≡ block =
        strongest-judge (findings_of policy) ∙ rw blocks refl in
      (
        rw (h, screen, apply_guardrails) (rw verdict refl),
        rw (h, screen, apply_guardrails) (rw verdict refl),
      )
