-- ===== src/Tasks/Tests.antt =====
-- Runs of the task engine, and its laws at concrete tasks.
use ai_aggregator.Prelude.{
  ◌≡◌, refl, true, false, String, Option, none, some, List, [], ◌∷◌, ◌++◌, All, str_eq, arith,
}
use ai_aggregator.Prelude.Json.{null, str, obj, field, end}
use ai_aggregator.Routing.Tests.{router}
use ai_aggregator.Tasks.{
  Task, TaskResult, Services, poll, poll_each, poll_tasks, update_task_status,
  normalize_task_status, get_pending_tasks,
}
use ai_aggregator.Tasks.Starvation.{poll_tasks-starved}
use ai_aggregator.Tasks.Statuses.{IsTracked, waiting, start, polled, Steps-IsTracked}

-- Task u9 is done, the others are running.
abbrev answers : String → Option TaskResult
answers id = some (record {
  status = elim (str_eq id "u9") [ true ↦ "SUCCEEDED" | false ↦ "RUNNING" ];
  output = some (str "image");
  usage = null;
  error = none;
})

abbrev services : Services
services = record {
  to_upper = λ s. s;
  to_lower = λ s. s;
  poll_task = λ a id. answers id;
  create_image = λ a m. some "u1";
  create_video = λ a m. none;
  name = λ a. "p1";
  update_fails = λ t. false;
}

abbrev task : String → String → Task
task id upstream = record {
  external_id = id;
  user_id = "u1";
  model_id = "m1";
  provider_id = "p1";
  upstream_task_id = upstream;
  status = "submitted";
  result = none;
  is_completed = false;
}

abbrev five : List Task
five = task "t1" "u1" ∷ task "t2" "u1" ∷ task "t3" "u1" ∷ task "t4" "u1" ∷ task "t5" "u1" ∷ []

running : (id : String) → poll services router (task id "u1") ≡ none
unfolding poll normalize_task_status
running id = refl

-- The first task has failed, five run, the last is done, and no round finds out.
abbrev finished : Task
finished = record (task "t0" "u0") { status = "failed"; is_completed = true }

poll_tasks-starved_example :
    poll_tasks services router false ((finished ∷ five) ++ task "t6" "u9" ∷ [])
    ≡ (finished ∷ five) ++ task "t6" "u9" ∷ []
poll_tasks-starved_example =
    poll_tasks-starved services router false (finished ∷ five) (task "t6" "u9" ∷ []) (omega arith) (
      λ e. cc,
      (
        λ _. running "t1",
        (λ _. running "t2", (λ _. running "t3", (λ _. running "t4", (λ _. running "t5", tt)))),
      ),
    )

-- Alone, it is completed.
found_done :
    poll_tasks services router false (task "t6" "u9" ∷ [])
    ≡ record (task "t6" "u9") {
      status = "completed";
      result = some (obj (field "data" (str "image") (field "usage" null end)));
      is_completed = true;
    }
      ∷ []
unfolding poll_tasks poll_each poll normalize_task_status update_task_status get_pending_tasks
found_done = refl

Steps-IsTracked_example : All IsTracked (poll_tasks services router false (task "t6" "u9" ∷ []))
Steps-IsTracked_example =
    Steps-IsTracked (task "t6" "u9" ∷ []) (poll_tasks services router false (task "t6" "u9" ∷ []))
      (polled services router false start) (waiting refl refl, tt)
