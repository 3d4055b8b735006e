-- ===== src/Workflows/Owners.antt =====
-- Who runs a workflow (userRunWorkflow in backend/internal/gateway/router.go).
use ai_aggregator.Prelude.{
  ℕ, ◌≤◌, ◌≡◌, refl, ◌∙◌, ◌≢◌, ◌⊎◌, inl, inr, Bool, true, false, not, ◌&&◌, String, Option, none,
  some, ◌∷◌, if◌then◌else◌, if-cases, str_eq, eq_iff, Bool-cases, arith,
}
use ai_aggregator.Prelude.Text.{trim_space}
use ai_aggregator.Prelude.Json.{Json}
use ai_aggregator.Http.{Ctx, Outcome, answer, error_response}
use ai_aggregator.Auth.{get_user_id}
use ai_aggregator.Float.{Float}
use ai_aggregator.Routing.Registry.{Store, Router}
use ai_aggregator.Workflows.{Services}
use ai_aggregator.Workflows.Runs.{Run, Stop}
use ai_aggregator.Workflows.Handlers.{
  Workflow, AgentSession, Rows, Calls, RunRequest, Admission, refused, admitted, get_workflow,
  get_agent_session, may_write, admit_session, admit_member, admit_workflow, admit_run,
  valid_webhook_callback_url, ran, finish_run, record_workflow_webhook, touch_agent_session_run,
  user_run_workflow,
}

module _ (calls : Calls) where
  -- The session of a run: none, or an active one of the caller that is bound to no other workflow.
  pub data Fits (user_id : String) (wf : Workflow) (rows : Rows) : String → Type 0 where
    without : Fits user_id wf rows ""
    within :
        (session_id : String) (s : AgentSession)
        → get_agent_session calls session_id user_id rows ≡ some s
        → s.status ≡ "active"
        → (s.workflow_id ≡ "") ⊎ (s.workflow_id ≡ wf.id)
        → Fits user_id wf rows session_id

  -- What the guards let through: a workflow that is there, of the caller or of nobody, in no
  -- workspace or in one where the caller may write, with a callback that is empty or valid.
  pub record IsAdmitted (id user_id : String) (rows : Rows) (wf : Workflow)
      (callback_url session_id : String) : Type 0 where
    pub found : get_workflow calls id rows ≡ some wf
    pub owned : (wf.user_id ≡ "") ⊎ (wf.user_id ≡ user_id)
    pub writable : (wf.workspace_id ≡ "") ⊎ (may_write calls wf.workspace_id user_id ≡ some true)
    pub callback : (callback_url ≡ "") ⊎ (valid_webhook_callback_url calls callback_url ≡ true)
    pub session : Fits user_id wf rows session_id

  -- What the guards return.
  pub data Guarded (id user_id : String) (rows : Rows) : Admission → Type 0 where
    stopped :
        (status : ℕ) (code message : String)
        → 400 ≤ status
        → Guarded id user_id rows (refused status code message)
    passed :
        (wf : Workflow) (input : Json) (callback_url session_id : String)
        → IsAdmitted id user_id rows wf callback_url session_id
        → Guarded id user_id rows (admitted wf input callback_url session_id)

  module _ (id user_id : String) (rows : Rows) where
    not-false : (b : Bool) → not b ≡ false → b ≡ true
    not-false b h = ground arith

    is_text : (s t : String) → not (str_eq s t) ≡ false → s ≡ t
    is_text s t h = (eq_iff s t).0 (not-false (str_eq s t) h)

    either_text :
        (s t u : String) → (not (str_eq s t) && not (str_eq s u)) ≡ false → (s ≡ t) ⊎ (s ≡ u)
    either_text s t u h = elim (Bool-cases (str_eq s t)) [
      | inl e ↦ inl ((eq_iff s t).0 e)
      | inr e ↦ inr ((eq_iff s u).0 (second e h))
    ]
      where
        second :
            str_eq s t ≡ false → (not (str_eq s t) && not (str_eq s u)) ≡ false → str_eq s u ≡ true
        second e h = ground arith

    either_url :
        (s : String) (b : Bool) → (not (str_eq s "") && not b) ≡ false → (s ≡ "") ⊎ (b ≡ true)
    either_url s true h = inr refl
    either_url s false h = inl ((eq_iff s "").0 (first h))
      where
        first : (not (str_eq s "") && true) ≡ false → str_eq s "" ≡ true
        first h = ground arith

    admit_session-Guarded :
        (wf : Workflow) (session_id : String) (after : Admission) (o : Option AgentSession)
        → get_agent_session calls session_id user_id rows ≡ o
        → (Fits user_id wf rows session_id → Guarded id user_id rows after)
        → Guarded id user_id rows (admit_session calls o wf after)
    admit_session-Guarded wf session_id after none e go = stopped 404 _ _ (omega arith)
    admit_session-Guarded wf session_id after (some s) e go =
        if-cases (Guarded id user_id rows) (not (str_eq s.status "active")) _ _
          (λ _. stopped 400 _ _ (omega arith))
          (λ active.
            if-cases (Guarded id user_id rows)
              (not (str_eq s.workflow_id "") && not (str_eq s.workflow_id wf.id)) _ _
              (λ _. stopped 400 _ _ (omega arith))
              (λ bound. go (
                within session_id s e (is_text s.status "active" active)
                  (either_text s.workflow_id "" wf.id bound))))

    admit_member-Guarded :
        (after : Admission) (o : Option Bool)
        → (o ≡ some true → Guarded id user_id rows after)
        → Guarded id user_id rows (admit_member calls o after)
    admit_member-Guarded after none go = stopped 400 _ _ (omega arith)
    admit_member-Guarded after (some false) go = stopped 403 _ _ (omega arith)
    admit_member-Guarded after (some true) go = go refl

    -- The rest of the guards, for a workflow that was found.
    by_session-Guarded :
        (wf : Workflow) (input : Json) (url session_id : String)
        → (Fits user_id wf rows session_id → IsAdmitted id user_id rows wf url session_id)
        → Guarded id user_id rows (
            if str_eq session_id ""
            then admitted wf input url session_id
            else admit_session calls
                (get_agent_session calls session_id user_id rows)
                wf
                (admitted wf input url session_id))
    by_session-Guarded wf input url session_id go =
        if-cases (Guarded id user_id rows) (str_eq session_id "") _ _
          (λ e.
            passed wf input url session_id
              (go (no_session wf session_id ((eq_iff session_id "").0 e))))
          (λ _.
            admit_session-Guarded wf session_id _ (get_agent_session calls session_id user_id rows)
              refl (λ fits. passed wf input url session_id (go fits)))
      where
        no_session :
            (wf : Workflow) (session_id : String)
            → session_id ≡ ""
            → Fits user_id wf rows session_id
        no_session wf session_id e = rw e without

    admit_workflow-Guarded :
        (wf : Workflow) (req : RunRequest)
        → get_workflow calls id rows ≡ some wf
        → (trim_space req.callback_url ≡ "")
          ⊎ (valid_webhook_callback_url calls (trim_space req.callback_url) ≡ true)
        → Guarded id user_id rows (admit_workflow calls user_id wf req rows)
    admit_workflow-Guarded wf req found url =
        if-cases (Guarded id user_id rows)
          (not (str_eq wf.user_id "") && not (str_eq wf.user_id user_id)) _ _
          (λ _. stopped 404 _ _ (omega arith))
          (λ mine.
            if-cases (Guarded id user_id rows) (str_eq wf.workspace_id "") _ _
              (λ e. rest mine (inl ((eq_iff wf.workspace_id "").0 e)))
              (λ _.
                admit_member-Guarded _ (may_write calls wf.workspace_id user_id)
                  (λ e. rest mine (inr e))))
      where
        rest :
            (not (str_eq wf.user_id "") && not (str_eq wf.user_id user_id)) ≡ false
            → (wf.workspace_id ≡ "") ⊎ (may_write calls wf.workspace_id user_id ≡ some true)
            → Guarded id user_id rows (
                if str_eq (trim_space req.agent_session_id) ""
                then admitted wf req.input
                    (trim_space req.callback_url)
                    (trim_space req.agent_session_id)
                else admit_session calls
                    (get_agent_session calls (trim_space req.agent_session_id) user_id rows)
                    wf
                    (admitted wf req.input
                      (trim_space req.callback_url)
                      (trim_space req.agent_session_id)))
        rest mine space =
            by_session-Guarded wf req.input (trim_space req.callback_url)
              (trim_space req.agent_session_id)
              (λ fits. record {
                found = found;
                owned = either_text wf.user_id "" user_id mine;
                writable = space;
                callback = url;
                session = fits;
              })

    after_url :
        (req : RunRequest) (o : Option Workflow)
        → get_workflow calls id rows ≡ o
        → (trim_space req.callback_url ≡ "")
          ⊎ (valid_webhook_callback_url calls (trim_space req.callback_url) ≡ true)
        → Guarded id user_id rows (elim o [
          | none ↦ refused 404 "not_found" "workflow not found"
          | some wf ↦ admit_workflow calls user_id wf req rows
        ])
    after_url req none e url = stopped 404 _ _ (omega arith)
    after_url req (some wf) e url = admit_workflow-Guarded wf req e url

    admit_run-Guarded :
        (req : Option RunRequest) → Guarded id user_id rows (admit_run calls id user_id req rows)
    unfolding admit_run
    admit_run-Guarded none = stopped 400 _ _ (omega arith)
    admit_run-Guarded (some req) =
        if-cases (Guarded id user_id rows)
          (not (str_eq (trim_space req.callback_url) "")
            && not (valid_webhook_callback_url calls (trim_space req.callback_url)))
          _ _ (λ _. stopped 400 _ _ (omega arith))
          (λ e. after_url req (get_workflow calls id rows) refl (either_url _ _ e))

-- How a run ends: with an answer that tells whether the workflow ran to its end, and the new row
-- before the others.
pub record IsFinished (calls : Calls) (result : Option Stop × Run) (rows : Rows) (o : Outcome Rows)
    : Type 0 where
  pub runs : o.world.runs ≡ result.1 ∷ rows.runs
  pub workflows : o.world.workflows ≡ rows.workflows
  pub told : ((result.0 ≡ none) × (o.ctx.status ≡ 201)) ⊎ ((result.0 ≢ none) × (o.ctx.status ≡ 500))

module _ (calls : Calls) (wf : Workflow) (url session_id : String) (c : Ctx) (rows : Rows) where
  webhook-runs :
      (run_id event : String) (rows : Rows)
      → (record_workflow_webhook calls run_id wf.id url event rows).runs ≡ rows.runs
  webhook-runs run_id event rows = ground arith

  webhook-workflows :
      (run_id event : String) (rows : Rows)
      → (record_workflow_webhook calls run_id wf.id url event rows).workflows ≡ rows.workflows
  webhook-workflows run_id event rows = ground arith

  touch-runs :
      (run_id : String) (rows : Rows)
      → (touch_agent_session_run calls session_id run_id rows).runs ≡ rows.runs
  touch-runs run_id rows = ground arith

  touch-workflows :
      (run_id : String) (rows : Rows)
      → (touch_agent_session_run calls session_id run_id rows).workflows ≡ rows.workflows
  touch-workflows run_id rows = ground arith

  finish_run-IsFinished :
      (result : Option Stop × Run)
      → IsFinished calls result rows (
          finish_run calls wf url session_id result c (record rows { runs = result.1 ∷ rows.runs }))
  finish_run-IsFinished (none, run) = record {
    runs = webhook-runs run.id "completed" _ ∙ touch-runs run.id _;
    workflows = webhook-workflows run.id "completed" _ ∙ touch-workflows run.id _;
    told = inl (refl, refl);
  }
  finish_run-IsFinished (some stop, run) = record {
    runs = webhook-runs run.id "failed" _;
    workflows = webhook-workflows run.id "failed" _;
    told = inr (λ e. cc, refl);
  }

-- What userRunWorkflow does.
pub data IsRunBy (calls : Calls) (services : Services) (fl : Float) (db : Store fl.F)
    (r : Router fl.F) (id user_id : String) (rows : Rows) : Outcome Rows → Type 0 where
  rejected :
      (o : Outcome Rows)
      → 400 ≤ o.ctx.status
      → o.world ≡ rows
      → IsRunBy calls services fl db r id user_id rows o
  run_once :
      (wf : Workflow) (input : Json) (callback_url session_id : String) (o : Outcome Rows)
      → IsAdmitted calls id user_id rows wf callback_url session_id
      → IsFinished calls (ran calls services fl db r user_id wf input session_id) rows o
      → IsRunBy calls services fl db r id user_id rows o

module _ (calls : Calls) (services : Services) (fl : Float) (db : Store fl.F) (r : Router fl.F)
    (id : String) (c : Ctx) (rows : Rows) where
  -- The handler behind its guards.
  abbrev after_guard : Admission → Outcome Rows
  after_guard (refused status code message) = answer status (error_response code message) c rows
  after_guard (admitted wf input url session_id) =
      if calls.create_fails
      then answer 500 (error_response "internal_server_error" "failed to create workflow run") c
          rows
      else finish_run calls wf url session_id
          (ran calls services fl db r (get_user_id c) wf input session_id) c
          (record rows {
            runs = (ran calls services fl db r (get_user_id c) wf input session_id).1 ∷ rows.runs;
          })

  after_guard-IsRunBy :
      (a : Admission)
      → Guarded calls id (get_user_id c) rows a
      → IsRunBy calls services fl db r id (get_user_id c) rows (after_guard a)
  after_guard-IsRunBy _ (stopped status code message h) = rejected _ h refl
  after_guard-IsRunBy _ (passed wf input url session_id ok) =
      if-cases (IsRunBy calls services fl db r id (get_user_id c) rows) calls.create_fails _ _
        (λ _. rejected _ (omega arith) refl)
        (λ _. run_once wf input url session_id _ ok (
          finish_run-IsFinished calls wf url session_id c rows
            (ran calls services fl db r (get_user_id c) wf input session_id)))

  -- A request to run a workflow either changes nothing and is answered with an error, or the
  -- workflow of that id was there, belongs to the caller or to nobody, is in no workspace or in one
  -- where the caller may write, its callback is absent or valid, and its session is absent or an
  -- active one of the caller's that is bound to no other workflow. Then the workflow has run once
  -- for the caller, its row is the newest, and the answer is 201 exactly if it ran to its end.
  pub user_run_workflow-IsRunBy :
      (req : Option RunRequest)
      → IsRunBy calls services fl db r id
          (get_user_id c)
          rows
          (user_run_workflow calls services fl db r id req c rows)
  unfolding user_run_workflow
  user_run_workflow-IsRunBy req =
      after_guard-IsRunBy (admit_run calls id (get_user_id c) req rows)
        (admit_run-Guarded calls id (get_user_id c) rows req)
