-- ===== src/Billing/Ledger.antt =====
-- The balances and the ledger (recordUsageAndBilling in backend/internal/gateway/router.go,
-- the balance operations of backend/internal/storage/store.go).
use mathlib.Core.Path.{subst}
use ai_aggregator.Prelude.{
  ℕ, zero, suc, ◌+◌, ◌-◌, ◌≤◌, ◌≡◌, refl, sym, ◌∙◌, true, false, String, none, some, List, [], ◌∷◌,
  if◌then◌else◌, lookup, leb, leb→le, ltb, str_eq, eq_iff, arith, inl, inr, Bool-cases,
  Option-cases,
}
use ai_aggregator.Prelude.Int.{pos, pos_part, neg_part}
use ai_aggregator.Billing.{
  UsageRecord, Transaction, Accounts, Faults, deduct_balance, add_balance, record_usage,
  create_billing_transaction, negate, record_usage_and_billing, grant_credit,
}

-- What the ledger credits and charges to a user.
abbrev pub credits : String → List Transaction → ℕ
credits user [] = 0
credits user (t ∷ ts) =
    if str_eq t.user_id user then pos_part t.amount + credits user ts else credits user ts

abbrev pub charges : String → List Transaction → ℕ
charges user [] = 0
charges user (t ∷ ts) =
    if str_eq t.user_id user then neg_part t.amount + charges user ts else charges user ts

-- The charges of the usage log.
abbrev pub used : String → List UsageRecord → ℕ
used user [] = 0
used user (r ∷ rs) = if str_eq r.user_id user then r.charged_cost + used user rs else used user rs

abbrev pub balance_of : String → Accounts → ℕ
balance_of user a = elim (lookup user a.balances) [ none ↦ 0 | some b ↦ b ]

-- Each row of the ledger shows the balance that the rows up to it leave.
abbrev pub Snapshots : String → List Transaction → Type 0
Snapshots user [] = Unit
Snapshots user (t ∷ ts) =
    (if str_eq t.user_id user
      then t.balance_after + charges user (t ∷ ts) ≡ credits user (t ∷ ts)
      else Unit)
    × Snapshots user ts

-- The accounts of a user: the balance is what the ledger credits less what it charges, every row
-- shows the balance of its time, and nothing is charged that the usage log does not hold.
pub record IsSound (user : String) (a : Accounts) : Type 0 where
  pub balanced : balance_of user a + charges user a.transactions ≡ credits user a.transactions
  pub snapshots : Snapshots user a.transactions
  pub logged : charges user a.transactions ≤ used user a.usage

neg_part-negate : (n : ℕ) → neg_part (negate n) ≡ n
neg_part-negate zero = refl
neg_part-negate (suc n) = refl

pos_part-negate : (n : ℕ) → pos_part (negate n) ≡ 0
pos_part-negate zero = refl
pos_part-negate (suc n) = refl

str_eq_self : (s : String) → str_eq s s ≡ true
str_eq_self s = (eq_iff s s).1 refl

str_eq-swap : (s t : String) → str_eq s t ≡ true → str_eq t s ≡ true
str_eq-swap s t h = (eq_iff t s).1 (sym ((eq_iff s t).0 h))

true-false : true ≡ false → ⊥
true-false e = cc

str_eq-swap_false : (s t : String) → str_eq s t ≡ false → str_eq t s ≡ false
str_eq-swap_false s t h = elim (Bool-cases (str_eq t s)) [
  | inl same ↦ absurd (true-false (sym (str_eq-swap t s same) ∙ h))
  | inr apart ↦ apart
]

-- The accounts after a charge and after a credit to a user with the balance `b`.
abbrev charged : UsageRecord → ℕ → Accounts → Accounts
charged r b a = record {
  balances = (r.user_id, b - r.charged_cost) ∷ a.balances;
  usage = r ∷ a.usage;
  transactions =
      record {
        user_id = r.user_id;
        workspace_id = r.workspace_id;
        project_id = r.project_id;
        amount = negate r.charged_cost;
        tx_type = "usage_charge";
        balance_after = b - r.charged_cost;
      }
      ∷ a.transactions;
}

abbrev credited : String → ℕ → ℕ → Accounts → Accounts
credited owner amount b a = record a {
  balances = (owner, b + amount) ∷ a.balances;
  transactions =
      record {
        user_id = owner;
        workspace_id = "";
        project_id = "";
        amount = pos amount;
        tx_type = "credit_grant";
        balance_after = b + amount;
      }
      ∷ a.transactions;
}

charge_sum :
    (b n spent earned : ℕ)
    → n ≤ b
    → b + spent ≡ earned
    → b - n + (neg_part (negate n) + spent) ≡ pos_part (negate n) + earned
charge_sum b n spent earned h e = rw (neg_part-negate n, pos_part-negate n) (omega (arith, h, e))

charge_le : (n spent total : ℕ) → spent ≤ total → neg_part (negate n) + spent ≤ n + total
charge_le n spent total h = rw (neg_part-negate n) (omega (arith, h))

charge_le_other : (n spent total : ℕ) → spent ≤ total → spent ≤ n + total
charge_le_other n spent total h = omega (arith, h)

charged-balance :
    (r : UsageRecord) (b : ℕ) (a : Accounts) (user : String)
    → str_eq user r.user_id ≡ true
    → balance_of user (charged r b a) ≡ b - r.charged_cost
charged-balance r b a user e = rw (balance_of, e) refl

credited-balance :
    (owner : String) (amount b : ℕ) (a : Accounts) (user : String)
    → str_eq user owner ≡ true
    → balance_of user (credited owner amount b a) ≡ b + amount
credited-balance owner amount b a user e = rw (balance_of, e) refl

billed :
    (faults : Faults) (r : UsageRecord) (a : Accounts) (b : ℕ)
    → faults.usage ≡ false
    → ltb 0 r.charged_cost ≡ true
    → faults.balance ≡ false
    → lookup r.user_id a.balances ≡ some b
    → leb r.charged_cost b ≡ true
    → faults.transaction ≡ false
    → record_usage_and_billing faults r a ≡ charged r b a
unfolding record_usage_and_billing record_usage deduct_balance create_billing_transaction
billed faults r a b up costs updates found enough ok =
    ground (arith, up, costs, updates, found, enough, ok, str_eq_self r.user_id)

granted :
    (faults : Faults) (owner : String) (amount b : ℕ) (a : Accounts)
    → faults.balance ≡ false
    → lookup owner a.balances ≡ some b
    → faults.transaction ≡ false
    → grant_credit faults owner amount a ≡ credited owner amount b a
unfolding grant_credit add_balance create_billing_transaction
granted faults owner amount b a updates found ok =
    ground (arith, updates, found, ok, str_eq_self owner)

module _ (user : String) (a : Accounts) (sound : IsSound user a) where
  log_only : (r : UsageRecord) → IsSound user (record a { usage = r ∷ a.usage })
  log_only r = record {
    balanced = sound.balanced;
    snapshots = sound.snapshots;
    logged = elim (Bool-cases (str_eq r.user_id user)) [
      | inl own ↦ rw own (
          charge_le_other r.charged_cost (charges user a.transactions) (used user a.usage)
            sound.logged)
      | inr other ↦ rw other sound.logged
    ];
  }

  charged-IsSound :
      (r : UsageRecord) (b : ℕ)
      → lookup r.user_id a.balances ≡ some b
      → r.charged_cost ≤ b
      → IsSound user (charged r b a)
  charged-IsSound r b found h = elim (Bool-cases (str_eq r.user_id user)) [
    | inr other ↦ record {
      balanced = rw (other, str_eq-swap_false r.user_id user other, balance_of) sound.balanced;
      snapshots = rw other (tt, sound.snapshots);
      logged = rw other sound.logged;
    }
    | inl own ↦
        let mine =
          subst (λ u. lookup u a.balances ≡ some b) ((eq_iff r.user_id user).0 own) found in
        let now =
          charge_sum b r.charged_cost (charges user a.transactions) (credits user a.transactions) h
            (rw (mine, balance_of) at sound.balanced) in
        record {
          balanced = rw (own, charged-balance r b a user (str_eq-swap r.user_id user own)) now;
          snapshots = rw own (now, sound.snapshots);
          logged = rw own (
              charge_le r.charged_cost (charges user a.transactions) (used user a.usage)
                sound.logged);
        }
  ]

  credited-IsSound :
      (owner : String) (amount b : ℕ)
      → lookup owner a.balances ≡ some b
      → IsSound user (credited owner amount b a)
  credited-IsSound owner amount b found = elim (Bool-cases (str_eq owner user)) [
    | inr other ↦ record {
      balanced = rw (other, str_eq-swap_false owner user other, balance_of) sound.balanced;
      snapshots = rw other (tt, sound.snapshots);
      logged = rw other sound.logged;
    }
    | inl own ↦
        let mine = subst (λ u. lookup u a.balances ≡ some b) ((eq_iff owner user).0 own) found in
        let before = rw (mine, balance_of) at sound.balanced in
        let now : b + amount + (0 + charges user a.transactions)
            ≡ amount + credits user a.transactions =
          omega (arith, before) in
        record {
          balanced =
              rw (own, credited-balance owner amount b a user (str_eq-swap owner user own)) now;
          snapshots = rw own (now, sound.snapshots);
          logged = rw own (omega (arith, sound.logged));
        }
  ]

  -- recordUsageAndBilling keeps the accounts sound, if the ledger's own transaction does not fail.
  record_usage_and_billing-IsSound :
      (faults : Faults) (r : UsageRecord)
      → faults.transaction ≡ false
      → IsSound user (record_usage_and_billing faults r a)
  unfolding record_usage_and_billing record_usage deduct_balance create_billing_transaction
  record_usage_and_billing-IsSound faults r ok = elim (Bool-cases faults.usage) [
    | inl down ↦ rw down sound
    | inr up ↦ elim (Bool-cases (ltb 0 r.charged_cost)) [
      | inr free ↦ rw (up, free) (log_only r)
      | inl costs ↦ elim (Bool-cases faults.balance) [
        | inl no_update ↦ rw (up, costs, no_update) (log_only r)
        | inr updates ↦ elim (Option-cases (lookup r.user_id a.balances)) [
          | inl stranger ↦ rw (up, costs, updates, stranger) (log_only r)
          | inr (b, found) ↦ elim (Bool-cases (leb r.charged_cost b)) [
            | inr short ↦ rw (up, costs, updates, found, short) (log_only r)
            | inl enough ↦
                rw (billed faults r a b up costs updates found enough ok)
                  (charged-IsSound r b found (leb→le r.charged_cost b enough))
          ]
        ]
      ]
    ]
  ]

  -- So does a credit.
  grant_credit-IsSound :
      (faults : Faults) (owner : String) (amount : ℕ)
      → faults.transaction ≡ false
      → IsSound user (grant_credit faults owner amount a)
  unfolding grant_credit add_balance create_billing_transaction
  grant_credit-IsSound faults owner amount ok = elim (Bool-cases faults.balance) [
    | inl no_update ↦ rw no_update sound
    | inr updates ↦ elim (Option-cases (lookup owner a.balances)) [
      | inl stranger ↦ rw (updates, stranger) sound
      | inr (b, found) ↦
          rw (granted faults owner amount b a updates found ok)
            (credited-IsSound owner amount b found)
    ]
  ]

-- What happens to the accounts: requests are billed and users are credited, with any statement
-- failing but those of the ledger's transaction.
pub data Steps : Accounts → Accounts → Type 0 where
  start : {a : Accounts} → Steps a a
  bill :
      {a b : Accounts} (faults : Faults) (r : UsageRecord)
      → faults.transaction ≡ false
      → Steps a b
      → Steps a (record_usage_and_billing faults r b)
  grant :
      {a b : Accounts} (faults : Faults) (owner : String) (amount : ℕ)
      → faults.transaction ≡ false
      → Steps a b
      → Steps a (grant_credit faults owner amount b)

-- While the ledger's own transactions succeed, every sequence of billed requests and credits, in
-- which the usage log and the balance updates may fail, leads from sound accounts to sound ones:
-- for each user the balance is the credits less the charges of the ledger, each row of the ledger
-- shows the balance of its time, and the usage log holds what was charged.
pub Steps-IsSound : (user : String) (a b : Accounts) → Steps a b → IsSound user a → IsSound user b
Steps-IsSound user a _ start sound = sound
Steps-IsSound user a _ (bill {b = b} faults r ok steps) sound =
    record_usage_and_billing-IsSound user b (Steps-IsSound user a b steps sound) faults r ok
Steps-IsSound user a _ (grant {b = b} faults owner amount ok steps) sound =
    grant_credit-IsSound user b (Steps-IsSound user a b steps sound) faults owner amount ok
