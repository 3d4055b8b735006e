-- ===== src/Billing/Tests.antt =====
-- Runs of the billing operations, and the laws applied at concrete accounts.
use ai_aggregator.Prelude.{ℕ, ◌≡◌, refl, false, none, [], ◌∷◌, arith}
use ai_aggregator.Prelude.Int.{pos, negsuc}
use ai_aggregator.Billing.{
  UsageRecord, Accounts, record_usage_and_billing, record_usage, deduct_balance, add_balance,
  create_billing_transaction, grant_credit, calculate_cost,
}
use ai_aggregator.Billing.Ledger.{IsSound, start, bill, grant, Steps-IsSound}
use ai_aggregator.Billing.Overdraft.{bill_all, no_faults, bill_all-unpaid}

abbrev request : ℕ → UsageRecord
request cost = record {
  request_id = "r1";
  user_id = "u1";
  workspace_id = "";
  project_id = "";
  model_id = "m1";
  provider_id = "p1";
  input_tokens = 100;
  output_tokens = 20;
  is_stream = false;
  upstream_cost = 0;
  charged_cost = cost;
}

abbrev opened : Accounts
opened = record { balances = ("u1", 0) ∷ ("u2", 0) ∷ []; usage = []; transactions = [] }

-- 100 tokens at 0.002 and 20 at 0.006 dollars per 1000 cost 0.00032 dollars, and 30% more.
default_cost : calculate_cost none 100 20 ≡ (3200000, 4160000)
unfolding calculate_cost
default_cost = refl

-- A credit of 50, and then a request for 8.
credit_then_charge :
    record_usage_and_billing no_faults (request 8) (grant_credit no_faults "u1" 50 opened)
    ≡ record {
      balances = ("u1", 42) ∷ ("u1", 50) ∷ ("u1", 0) ∷ ("u2", 0) ∷ [];
      usage = request 8 ∷ [];
      transactions =
          record {
            user_id = "u1";
            workspace_id = "";
            project_id = "";
            amount = negsuc 7;
            tx_type = "usage_charge";
            balance_after = 42;
          }
          ∷ record {
            user_id = "u1";
            workspace_id = "";
            project_id = "";
            amount = pos 50;
            tx_type = "credit_grant";
            balance_after = 50;
          }
          ∷ [];
    }
unfolding record_usage_and_billing record_usage deduct_balance grant_credit add_balance
    create_billing_transaction
credit_then_charge = refl

Steps-IsSound_example :
    IsSound "u1"
      (record_usage_and_billing no_faults (request 8) (grant_credit no_faults "u1" 50 opened))
Steps-IsSound_example =
    Steps-IsSound "u1" opened
      (record_usage_and_billing no_faults (request 8) (grant_credit no_faults "u1" 50 opened))
      (bill no_faults (request 8) refl (grant no_faults "u1" 50 refl start))
      (record { balanced = refl; snapshots = tt; logged = omega arith })

abbrev low : Accounts
low = record { balances = ("u1", 5) ∷ []; usage = []; transactions = [] }

bill_all-unpaid_example :
    bill_all (request 8 ∷ request 9 ∷ []) low ≡ record low { usage = request 9 ∷ request 8 ∷ [] }
bill_all-unpaid_example =
    bill_all-unpaid "u1" 5 (request 8 ∷ request 9 ∷ []) low refl
      (refl, omega arith, (refl, omega arith, tt))
