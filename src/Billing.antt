-- ===== src/Billing.antt =====
-- Costs, balances and the ledger: calculateCost and recordUsageAndBilling
-- (backend/internal/gateway/router.go), the store's operations on users.balance_usd, usage_logs and
-- billing_transactions (backend/internal/storage/store.go), and Engine.PreCheck
-- (backend/internal/billing/engine.go).
--
-- Prices are in 10^-6 dollars per 1000 tokens and money in 10^-10 dollars, so that every cost is a
-- whole number; the rounding of float64 and of NUMERIC(18,8) is left out, and prices and token
-- counts are not negative. Each operation of the store is one step, and may fail.
use ai_aggregator.Prelude.{
  ℕ, zero, suc, ◌+◌, ◌-◌, ◌*◌, ◌≡◌, Bool, true, false, String, Option, none, some, List, [], ◌∷◌,
  if◌then◌else◌, lookup, insert, leb, ltb, length,
}
use ai_aggregator.Prelude.Int.{ℤ, pos, negsuc}
use ai_aggregator.Http.{Ctx, Handler, Outcome, answer, error_body}
mod Ledger
mod Overdraft
mod Tests

-- storage.UsageRecord, without the fields that the model gives no value to.
pub record UsageRecord : Type 0 where
  pub request_id : String
  pub user_id : String
  pub workspace_id : String
  pub project_id : String
  pub model_id : String
  pub provider_id : String
  pub input_tokens : ℕ
  pub output_tokens : ℕ
  pub is_stream : Bool
  pub upstream_cost : ℕ
  pub charged_cost : ℕ

-- A row of billing_transactions.
pub record Transaction : Type 0 where
  pub user_id : String
  pub workspace_id : String
  pub project_id : String
  pub amount : ℤ
  pub tx_type : String
  pub balance_after : ℕ

-- users.balance_usd by user, and the rows of usage_logs and billing_transactions, the last first.
pub record Accounts : Type 0 where
  pub balances : List (String × ℕ)
  pub usage : List UsageRecord
  pub transactions : List Transaction

-- Which statements fail.
pub record Faults : Type 0 where
  pub usage : Bool
  pub balance : Bool
  pub transaction : Bool

-- The price columns of the model's row (each may be NULL): no active row gives two NULLs, and
-- `none` is an error.
abbrev pub Pricing : Type 0
Pricing = Option (Option ℕ × Option ℕ)

abbrev or_price : Option ℕ → ℕ → ℕ
or_price none price = price
or_price (some db) price = db

abbrev pub input_price : Pricing → ℕ
input_price none = 2000
input_price (some (db, _)) = or_price db 2000

abbrev pub output_price : Pricing → ℕ
output_price none = 6000
output_price (some (_, db)) = or_price db 6000

-- calculateCost: the upstream cost and the charged cost.
unfoldable pub calculate_cost : Pricing → (input_tokens output_tokens : ℕ) → ℕ × ℕ
calculate_cost pricing input_tokens output_tokens =
    let cost = input_tokens * input_price pricing + output_tokens * output_price pricing in
    (cost * 10, cost * 13)

-- GetUserBalance: `none` is an error, for a user that is not there too.
unfoldable pub get_user_balance : Faults → String → Accounts → Option ℕ
get_user_balance faults user a = if faults.balance then none else lookup user a.balances

abbrev pub set_balance : String → ℕ → Accounts → Accounts
set_balance user b a = record a { balances = insert user b a.balances }

-- DeductBalance: whether it succeeded.
unfoldable pub deduct_balance : Faults → String → ℕ → Accounts → Bool × Accounts
deduct_balance faults user amount a =
    if faults.balance then (false, a) else elim (lookup user a.balances) [
      | none ↦ (false, a)
      | some b ↦ if leb amount b then (true, set_balance user (b - amount) a) else (false, a)
    ]

-- AddBalance: whether it succeeded.
unfoldable pub add_balance : Faults → String → ℕ → Accounts → Bool × Accounts
add_balance faults user amount a =
    if faults.balance then (false, a) else elim (lookup user a.balances) [
      | none ↦ (false, a)
      | some b ↦ (true, set_balance user (b + amount) a)
    ]

-- RecordUsage: whether it succeeded.
unfoldable pub record_usage : Faults → UsageRecord → Accounts → Bool × Accounts
record_usage faults r a =
    if faults.usage then (false, a) else (true, record a { usage = r ∷ a.usage })

-- CreateBillingTransactionForWorkspaceProject: one database transaction, of which nothing remains
-- when a statement fails (`faults.transaction`) or the user is not there.
unfoldable pub create_billing_transaction :
    Faults → (user workspace project : String) → ℤ → String → Accounts → Bool × Accounts
create_billing_transaction faults user workspace project amount tx_type a =
    if faults.transaction then (false, a) else elim (lookup user a.balances) [
      | none ↦ (false, a)
      | some b ↦ (
        true,
        record a {
          transactions =
              record {
                user_id = user;
                workspace_id = workspace;
                project_id = project;
                amount = amount;
                tx_type = tx_type;
                balance_after = b;
              }
              ∷ a.transactions;
        },
      )
    ]

abbrev pub negate : ℕ → ℤ
negate zero = pos 0
negate (suc n) = negsuc n

-- recordUsageAndBilling
unfoldable pub record_usage_and_billing : Faults → UsageRecord → Accounts → Accounts
record_usage_and_billing faults r a =
    let (recorded, logged) = record_usage faults r a in
    let (deducted, paid) = deduct_balance faults r.user_id r.charged_cost logged in
    if recorded
    then if ltb 0 r.charged_cost
      then if deducted
        then (create_billing_transaction faults r.user_id r.workspace_id r.project_id
            (negate r.charged_cost) "usage_charge" paid).1
        else logged
      else logged
    else a

-- The credit of a new user and of an administrator (userRegister and adminTopUpBalance): the
-- balance, and then the row of the ledger.
unfoldable pub grant_credit : Faults → String → ℕ → Accounts → Accounts
grant_credit faults user amount a =
    let (added, credited) = add_balance faults user amount a in
    if added
    then (create_billing_transaction faults user "" "" (pos amount) "credit_grant" credited).1
    else a

-- Engine.PreCheck: `balance` and `spent` are what the store answers, `none` for an error.
unfoldable pub pre_check :
    {W : Type 0} (balance spent : Option ℕ) (quota : ℕ) → Handler W → Handler W
pre_check balance spent quota next c w = elim c.locals.user_id [
  | none ↦ next c w
  | some uid ↦ elim balance [
    | none ↦ next c w
    | some b ↦
        if leb b 0
        then answer 402
            (error_body "insufficient_balance" "no_balance" "insufficient balance, please top up") c
            w
        else elim spent [
          | none ↦ next c w
          | some s ↦
              if leb quota s
              then answer 429
                  (error_body "quota_exceeded" "daily_limit" "daily spending quota exceeded") c w
              else next c w
        ]
  ]
]
