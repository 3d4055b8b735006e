-- ===== src/Billing/Overdraft.antt =====
-- Requests that cost more than the balance (recordUsageAndBilling in
-- backend/internal/gateway/router.go, DeductBalance in backend/internal/storage/store.go).
use ai_aggregator.Prelude.{
  ℕ, ◌<◌, ◌≡◌, refl, ◌∙◌, ap, true, false, String, some, List, [], ◌∷◌, lookup, leb, ltb, arith,
}
use ai_aggregator.Billing.{
  UsageRecord, Accounts, Faults, record_usage, deduct_balance, create_billing_transaction,
  record_usage_and_billing,
}

abbrev pub no_faults : Faults
no_faults = record { usage = false; balance = false; transaction = false }

-- One usage record after the other.
abbrev pub bill_all : List UsageRecord → Accounts → Accounts
bill_all [] a = a
bill_all (r ∷ rs) a = bill_all rs (record_usage_and_billing no_faults r a)

-- Records of the user that each cost more than `b`.
abbrev pub AllAbove : String → ℕ → List UsageRecord → Type 0
AllAbove user b [] = Unit
AllAbove user b (r ∷ rs) = (r.user_id ≡ user) × (b < r.charged_cost) × AllAbove user b rs

abbrev pub prepend : List UsageRecord → List UsageRecord → List UsageRecord
prepend [] us = us
prepend (r ∷ rs) us = prepend rs (r ∷ us)

lt-leb : (b n : ℕ) → b < n → leb n b ≡ false
lt-leb b n h = ground arith

unpaid :
    (user : String) (b : ℕ) (r : UsageRecord) (a : Accounts)
    → lookup user a.balances ≡ some b
    → r.user_id ≡ user
    → b < r.charged_cost
    → record_usage_and_billing no_faults r a ≡ record a { usage = r ∷ a.usage }
unfolding record_usage_and_billing record_usage deduct_balance create_billing_transaction
unpaid user b r a found own h =
    let costs : ltb 0 r.charged_cost ≡ true = ground arith in
    let theirs : lookup r.user_id a.balances ≡ some b = rw own found in
    ground (arith, costs, theirs, lt-leb b r.charged_cost h)

-- A user with a balance is served at no cost: with no statement failing, any number of requests
-- that each cost more than the balance are all logged as usage, while the balance and the ledger
-- stay as they are.
pub bill_all-unpaid :
    (user : String) (b : ℕ) (rs : List UsageRecord) (a : Accounts)
    → lookup user a.balances ≡ some b
    → AllAbove user b rs
    → bill_all rs a ≡ record a { usage = prepend rs a.usage }
bill_all-unpaid user b [] a found h = refl
bill_all-unpaid user b (r ∷ rs) a found (own, above, h) =
    ap (bill_all rs) (unpaid user b r a found own above)
    ∙ bill_all-unpaid user b rs (record a { usage = r ∷ a.usage }) found h
