-- ===== src/Lib.antt =====
-- A model of the backend of AI Aggregator, a gateway that serves many AI providers behind one API and
-- bills its users, with what is proved about it.
--
-- A request passes the authentication middleware (backend/internal/auth/middleware.go), the rate
-- limiter (backend/internal/ratelimit/limiter.go) and a handler of the gateway
-- (backend/internal/gateway/router.go). The chat handler applies the guardrails, checks the balance,
-- asks the model router (backend/internal/router/model_router.go) for routes, each an adapter of a
-- provider with a credential, tries them in turn, and records usage, charge and logs in the store
-- (backend/internal/storage/store.go). A stream is relayed by backend/internal/stream/proxy.go.
--
-- Files and code:
--   Prelude      shared names: tests on native numbers, lists, Go's integers, texts, JSON values, and
--                the best row of a query with ORDER BY and LIMIT 1
--   Http         what handlers see of fiber: context with its locals, answer, handlers as functions on
--                the context and on the world outside
--   Float        float64 as an interface with the laws of its comparisons
--   Auth         auth/middleware.go: ValidateAPIKey and ValidateJWT, RequireAuth, RequireJWT and
--                RequireAdmin as functions on the handler behind them
--   RateLimit    ratelimit/limiter.go: checkRPM over a sorted set, Middleware, and in RateLimit.Tokens
--                CheckTokenLimit with enforceAPIKeyTokenLimit of gateway/router.go
--   Credentials  sealCredentialSecret, unsealLocalSecret, GetScopedProviderKeySecretWithMetadata; Keys has
--                the handlers that create and revoke provider keys, Stored and Revoked what a later
--                request is given
--   Routing      router/model_router.go: Candidates has sortCandidates, Registry has initAdapters,
--                refreshRegistry, adapterForRequest and runHealthChecks, Selection has Route and
--                RouteAllForRequest; Sort is the stable sort, Cost has the order by cost, KeySources
--                whose key an adapter has, and the others hold proofs
--   Billing      calculateCost and recordUsageAndBilling of gateway/router.go with the operations of
--                the store on balances, usage_logs and billing_transactions, and PreCheck of
--                billing/engine.go
--   Guardrails   applyGuardrails, detectGuardrailFindings, maskChatRequest and chatRequestTexts
--   Chat         handleNonStreamChat and handleStreamChat with their logs, on the data of Chat.Records;
--                Chat.Completions has handleChatCompletions, and Chat.Streaming a stream under way
--                as steps of its goroutine and its writer, with its bill in Chat.StreamBills
--   Tasks        task/engine.go: Submit and pollTasks, with the store's queries on async_tasks
--   Access       requireWorkspacePermission, requireAPIKeyModelAccess and requireWorkspaceLimits with
--                the roles, permission sets and limits of storage/store.go
--   Workflows    executeWorkflow with its steps and rows, in Workflows.Runs; deliverWorkflowWebhook in
--                Webhooks; the handlers of workflows and agent sessions in Handlers and Sessions
--   Accounts     userCreateKey and userDeleteKey on the rows that ValidateAPIKey reads; Registration has
--                userRegister, userLogin, userRefreshToken and userGetProfile
--   Providers    provider/adapter.go, anthropic.go, dashscope.go and mock.go: the requests that the
--                adapters make and what they read from answers; Events has the lines of a stream, as
--                DashScope's adapter reads and stream/proxy.go writes them
--   Modalities   handleEmbeddings, handleSpeech and handleTranscribe, which bill through Billing as a chat
--                does, and in Tasks the handlers of images and videos over Tasks.submit
--   Files        the handlers of files over the rows of uploaded_files and LocalStore of
--                filestore/store.go
--
-- The state of a component is a record that its operations take and return; an operation of the store
-- that may fail takes the failure as an argument. Queries are functions on the rows of their tables.
-- Redis, JWT parsing and signing, bcrypt, SHA-256, HTTP exchanges, regular expressions,
-- strings.ToLower, strings.Contains, json.Marshal and the calls of the providers in a chat are
-- parameters, with their documented laws as fields where a proof needs them. Loops are structural recursion, so there is no fuel.
--
-- Bounds: integers of Go are ℤ without overflow, and times and token counts are natural numbers. Prices
-- are in 10^-6 dollars per 1000 tokens and money is in 10^-10 dollars, so costs are exact; the rounding
-- of float64 and of the columns NUMERIC(18,8) is not modelled; scores of routes are floats with the laws
-- of Float, and Routing.Cost takes whole numbers up to 2^53 as exact. An operation is one step: locks and the
-- interleaving of requests are modelled only where streams are relayed.
--
-- Not modelled: the handlers of administration, marketplace, templates and lists, most of
-- which check a body and call one query; the forms of queries that only list rows; metrics,
-- configuration, start-up and the web pages, which hold little logic of their own.
pub mod Prelude
pub mod Http
pub mod Float
pub mod Auth
pub mod RateLimit
pub mod Credentials
pub mod Routing
pub mod Billing
pub mod Guardrails
pub mod Chat
pub mod Tasks
pub mod Access
pub mod Workflows
pub mod Accounts
pub mod Providers
pub mod Modalities
pub mod Files
