-- ===== src/Modalities/Tests.antt =====
-- Runs of the handlers of embeddings, transcription and tasks, and their laws applied there.
use ai_aggregator.Prelude.{ℕ, zero, suc, ◌≡◌, refl, true, String, some, List, [], ◌∷◌}
use ai_aggregator.Prelude.Int.{ℤ}
use ai_aggregator.Prelude.Json.{str}
use ai_aggregator.Http.{Outcome}
use ai_aggregator.Routing.Selection.{RouteEntry, Routed, ok}
use ai_aggregator.Billing.{calculate_cost}
use ai_aggregator.Chat.{Attempt, failed, reached, World, prompt_tokens}
use ai_aggregator.Chat.Tests.{counters, services, req, entry, world, ctx}
use ai_aggregator.Modalities.{
  EmbeddingResponse, metered_record, handle_embeddings, handle_transcribe,
}
use ai_aggregator.Modalities.Tasks.{get_task, handle_get_async_task}
use ai_aggregator.Modalities.Metering.{
  IsMetered, handle_embeddings-IsMetered, handle_transcribe-free,
}

-- The first provider fails, and the second one answers.
abbrev embed : ℕ → RouteEntry → Attempt EmbeddingResponse
embed zero route = failed "down"
embed (suc i) route = reached (record { usage = some (7, 0); body = str "vectors" })

abbrev routes : Routed (List RouteEntry)
routes = ok (entry "p1" ∷ entry "p2" ∷ [])

handle_embeddings-IsMetered_example :
    IsMetered counters services req embed
      (λ route r.
        metered_record counters services req route.provider_id
          (prompt_tokens r.usage)
          0
          (calculate_cost services.pricing (prompt_tokens r.usage) 0)
          ctx)
      world
      (handle_embeddings counters services req true routes embed ctx world)
handle_embeddings-IsMetered_example =
    handle_embeddings-IsMetered counters services req true routes embed ctx world

abbrev transcribe : ℕ → RouteEntry → Attempt String
transcribe i route = reached "a long text"

abbrev transcribed : Outcome (World ℤ)
transcribed = handle_transcribe counters services req true true routes transcribe ctx world

handle_transcribe-free_example :
    (transcribed.world.accounts.balances ≡ world.accounts.balances)
    × (transcribed.world.accounts.transactions ≡ world.accounts.transactions)
handle_transcribe-free_example =
    handle_transcribe-free counters services req true true routes transcribe ctx world

task_tests : (handle_get_async_task true "t1" ctx []).ctx.status ≡ 404
unfolding handle_get_async_task get_task
task_tests = refl
