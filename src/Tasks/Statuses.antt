-- ===== src/Tasks/Statuses.antt =====
-- The statuses that tasks have in the database (Submit and pollTasks in
-- backend/internal/task/engine.go, UpdateTaskStatus in backend/internal/storage/store.go).
use ai_aggregator.Prelude.{
  ◌≡◌, refl, ◌⊎◌, inl, inr, Bool, true, false, ◌||◌, String, Option, some, List, [], ◌∷◌, All,
  All-append, arith, str_eq, eq_iff, Bool-cases, Option-cases,
}
use ai_aggregator.Prelude.Json.{Json}
use ai_aggregator.Routing.Registry.{Adapter, Router}
use ai_aggregator.Routing.Selection.{Routed, ok, err}
use ai_aggregator.Tasks.{
  Task, Services, create_task, update_task, update_all, update_task_status, get_pending_tasks, poll,
  poll_each, poll_tasks, model_modality, create_upstream, submit,
}

abbrev pub IsFinal : String → Type 0
IsFinal status = (status ≡ "completed") ⊎ (status ≡ "failed")

-- Submitted and not completed, or final and completed.
pub data IsTracked (t : Task) : Type 0 where
  waiting : t.status ≡ "submitted" → t.is_completed ≡ false → IsTracked t
  finished : IsFinal t.status → t.is_completed ≡ true → IsTracked t

IsFinal-of :
    (status : String)
    → (str_eq status "completed" || str_eq status "failed") ≡ true
    → IsFinal status
IsFinal-of status h = elim (Bool-cases (str_eq status "completed")) [
  | inl succeeded ↦ inl ((eq_iff status "completed").0 succeeded)
  | inr other ↦ inr ((eq_iff status "failed").0 (ground arith))
]

final-test :
    (status : String)
    → IsFinal status
    → (str_eq status "completed" || str_eq status "failed") ≡ true
final-test status (inl h) = rw h refl
final-test status (inr h) = rw h refl

update_task-IsTracked :
    (external_id status : String) (result : Option Json) (t : Task)
    → IsFinal status
    → IsTracked t
    → IsTracked (update_task external_id status result t)
update_task-IsTracked external_id status result t h tracked =
    elim (Bool-cases (str_eq t.external_id external_id)) [
      | inl same ↦ rw same (finished h (rw (final-test status h) refl))
      | inr other ↦ rw other tracked
    ]

update_all-IsTracked :
    (external_id status : String) (result : Option Json) (ts : List Task)
    → IsFinal status
    → All IsTracked ts
    → All IsTracked (update_all external_id status result ts)
update_all-IsTracked external_id status result [] h all = tt
update_all-IsTracked external_id status result (t ∷ ts) h (tracked, all) = (
  update_task-IsTracked external_id status result t h tracked,
  update_all-IsTracked external_id status result ts h all,
)

update-IsTracked :
    (fails : Bool) (external_id status : String) (result : Option Json) (ts : List Task)
    → IsFinal status
    → All IsTracked ts
    → All IsTracked (update_task_status fails external_id status result ts)
unfolding update_task_status
update-IsTracked true external_id status result ts h all = all
update-IsTracked false external_id status result ts h all =
    update_all-IsTracked external_id status result ts h all

module _ (services : Services) {F : Type 0} (r : Router F) where
  poll-IsFinal :
      (t : Task) (status : String) (result : Option Json)
      → poll services r t ≡ some (status, result)
      → IsFinal status
  unfolding poll
  poll-IsFinal t status result h = IsFinal-of status (ground (arith, h))

  poll_each-IsTracked :
      (olds ts : List Task) → All IsTracked ts → All IsTracked (poll_each services r olds ts)
  unfolding poll_each
  poll_each-IsTracked [] ts all = all
  poll_each-IsTracked (t ∷ olds) ts all = elim (Option-cases (poll services r t)) [
    | inl idle ↦ rw (idle, poll_each) (poll_each-IsTracked olds ts all)
    | inr ((status, result), found) ↦
        rw (found, poll_each)
          (poll_each-IsTracked olds
            (update_task_status (services.update_fails t) t.external_id status result ts)
            (update-IsTracked (services.update_fails t) t.external_id status result ts
              (poll-IsFinal t status result found) all))
  ]

  poll_tasks-IsTracked :
      (query_fails : Bool) (ts : List Task)
      → All IsTracked ts
      → All IsTracked (poll_tasks services r query_fails ts)
  unfolding poll_tasks
  poll_tasks-IsTracked true ts all = all
  poll_tasks-IsTracked false ts all = poll_each-IsTracked (get_pending_tasks 5 ts) ts all

  create_task-IsTracked :
      (fails : Bool) (t : Task) (ts : List Task)
      → IsTracked t
      → All IsTracked ts
      → All IsTracked (create_task fails t ts).1
  unfolding create_task
  create_task-IsTracked true t ts tracked all = all
  create_task-IsTracked false t ts tracked all = All-append IsTracked ts (t ∷ []) all (tracked, tt)

  submit-IsTracked :
      (create_fails : Bool) (external_id user_id model_id : String)
      (routed : Routed (Adapter × String)) (ts : List Task)
      → All IsTracked ts
      → All IsTracked (submit services r create_fails external_id user_id model_id routed ts).1
  unfolding submit
  submit-IsTracked create_fails external_id user_id model_id (err e) ts all = all
  submit-IsTracked create_fails external_id user_id model_id (ok (a, upstream_model)) ts all =
      elim (Option-cases
        (create_upstream services (model_modality services r model_id) a upstream_model)) [
          | inl refused ↦ rw (refused, submit) all
          | inr (upstream_id, made) ↦
              rw (made, submit) (create_task-IsTracked create_fails _ ts (waiting refl refl) all)
        ]

-- What happens to the tasks: submissions and rounds of workers, each with what the providers and
-- the store do then.
pub data Steps : List Task → List Task → Type 1 where
  start : {ts : List Task} → Steps ts ts
  submitted :
      {us ts : List Task} {F : Type 0} (services : Services) (r : Router F) (create_fails : Bool)
      (external_id user_id model_id : String) (routed : Routed (Adapter × String))
      → Steps us ts
      → Steps us (submit services r create_fails external_id user_id model_id routed ts).1
  polled :
      {us ts : List Task} {F : Type 0} (services : Services) (r : Router F) (query_fails : Bool)
      → Steps us ts
      → Steps us (poll_tasks services r query_fails ts)

-- From tasks that are so, as from none, whatever the providers answer and whichever statements fail, each task is
-- submitted with no time of completion, or completed or failed with one; no other status that a
-- provider reports, as running, is ever stored.
pub Steps-IsTracked : (us ts : List Task) → Steps us ts → All IsTracked us → All IsTracked ts
Steps-IsTracked us _ start all = all
Steps-IsTracked us _
      (submitted {ts = ts} services r create_fails external_id user_id model_id routed steps) all =
    submit-IsTracked services r create_fails external_id user_id model_id routed ts
      (Steps-IsTracked us ts steps all)
Steps-IsTracked us _ (polled {ts = ts} services r query_fails steps) all =
    poll_tasks-IsTracked services r query_fails ts (Steps-IsTracked us ts steps all)
