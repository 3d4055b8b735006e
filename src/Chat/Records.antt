-- ===== src/Chat/Records.antt =====
-- The data of the chat handlers: logs, usage, responses, and the state around a request
-- (backend/internal/storage/store.go, provider/adapter.go and gateway/router.go).
use ai_aggregator.Prelude.{ℕ, Bool, String, Option, none, some, List}
use ai_aggregator.Prelude.Int.{ℤ}
use ai_aggregator.Prelude.Json.{Json}
use ai_aggregator.Routing.Selection.{RouteEntry}
use ai_aggregator.Billing.{Pricing, Faults, Accounts}

-- storage.RequestLog and storage.FallbackLog.
pub record RequestLog : Type 0 where
  pub request_id : String
  pub user_id : String
  pub model_id : String
  pub provider_id : String
  pub final_provider_id : String
  pub credential_scope : String
  pub credential_key_id : String
  pub status_code : ℕ
  pub error_code : String
  pub input_tokens : ℕ
  pub output_tokens : ℕ
  pub charged_cost : ℕ
  pub upstream_cost : ℕ
  pub fallback_count : ℕ

pub record FallbackLog : Type 0 where
  pub request_id : String
  pub model_id : String
  pub from_provider_id : String
  pub to_provider_id : String

-- provider.Usage without the total; a provider may leave it out.
abbrev pub Usage : Type 0
Usage = Option (ℕ × ℕ)

abbrev pub prompt_tokens : Usage → ℕ
prompt_tokens none = 0
prompt_tokens (some (input, _)) = input

abbrev pub completion_tokens : Usage → ℕ
completion_tokens none = 0
completion_tokens (some (_, output)) = output

-- The result of a call of a provider.
pub data Attempt (R : Type 0) : Type 0 where
  failed : (message : String) → Attempt R
  reached : R → Attempt R

-- provider.ChatResponse: its JSON by the model that it names.
pub record ChatResponse : Type 0 where
  pub name : String
  pub usage : Usage
  pub body : String → Json

-- A provider.StreamChunk by its usage, and a stream under way with what its bill needs.
abbrev pub Chunk : Type 0
Chunk = Usage

pub record Stream : Type 0 where
  pub chunks : List Chunk
  pub route : RouteEntry
  pub provider_name : String
  pub fallback_count : ℕ

-- What the request is: its id, its user, the model that the user named, and the first provider.
pub record Request : Type 0 where
  pub request_id : String
  pub user_id : String
  pub requested_model : String

-- The state outside: accounts, logs (the last first), streams under way, and the token counter of
-- the request's API key.
pub record World (K : Type 0) : Type 0 where
  pub accounts : Accounts
  pub request_logs : List RequestLog
  pub fallback_logs : List FallbackLog
  pub streams : List Stream
  pub counter : K

-- What the services outside do during the request.
pub record Services (K : Type 0) : Type 0 where
  pub faults : Faults
  pub log_fails : Bool
  pub pricing : Pricing
  pub now : ℕ
  pub default_tpm : ℤ
  pub counter_broken : Option K
