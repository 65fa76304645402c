-- ===== src/Transactions/Credit.antt =====
-- A sale on credit against the customer's limit.
use retail_iq.Base.{
  ℕ, ◌≡◌, refl, true, Option, none, some, ◌∷◌, arith, find_first, ◌⊎◌, Bool-cases, Option-cases,
  inl, inr, find_first-update_self,
}
use retail_iq.Base.Int.{ℤ, pos, ◌+ℤ◌, ◌*ℤ◌, ◌≤ℤ◌, ◌<ℤ◌, ltb_ℤ}
use retail_iq.Base.Exec.{Outcome, ok, err, ◌>>=◌}
use retail_iq.Transactions.Models.{CreditLedger, Db, SaleError}
use retail_iq.Transactions.Sale.{
  is_ledger_of, new_ledger, ensure_ledger, set_balance, extend_credit, sell_on_credit,
}

abbrev find_ledger : ℕ → ℕ → Db → Option CreditLedger
find_ledger customer sid db = find_first (is_ledger_of customer sid) db.ledgers

-- The ledger that a sale on credit goes to: the customer's, or a new one.
abbrev pub Opened : ℕ → ℕ → ℕ → Db → CreditLedger → Type 0
Opened i customer sid db l =
    (find_ledger customer sid db ≡ some l)
    ⊎ ((find_ledger customer sid db ≡ none)
        × (l ≡ record {
          id = i;
          customer_id = customer;
          store_id = sid;
          balance = pos 0;
          credit_limit = pos 0;
        }))

-- What is owed on the ledger after a sale, in hundred-thousandths.
abbrev pub owed : CreditLedger → ℤ → ℤ
owed l total = l.balance *ℤ pos 1000 +ℤ total

-- How the credit part of a sale has ended.
abbrev pub Charges : (ℕ → ℤ → ℤ) → ℕ → ℕ → ℕ → ℕ → ℤ → Db → Outcome Db SaleError (Unit {0}) → Type 0
Charges stored i customer sid txn total db (ok t db') =
    (l : CreditLedger) × Opened i customer sid db l
    × (owed l total ≤ℤ l.credit_limit *ℤ pos 1000)
    × (find_ledger customer sid db' ≡ some (record l { balance = stored 3 (owed l total) }))
    × (db'.credit_transactions
        ≡ record {
          ledger_id = l.id;
          transaction_id = txn;
          amount = stored 3 total;
          balance_after = stored 3 (owed l total);
        }
          ∷ db.credit_transactions)
Charges stored i customer sid txn total db (err SaleError.credit_limit db') =
    (l : CreditLedger) × Opened i customer sid db l × (l.credit_limit *ℤ pos 1000 <ℤ owed l total)
Charges stored i customer sid txn total db (err _ db') = ⊥

module _ (stored : ℕ → ℤ → ℤ) (i customer sid txn : ℕ) (total : ℤ) (db : Db) where
  extend_credit-Charges :
      (l : CreditLedger) (db₁ : Db)
      → Opened i customer sid db l
      → find_ledger customer sid db₁ ≡ some l
      → db₁.credit_transactions ≡ db.credit_transactions
      → Charges stored i customer sid txn total db
          (extend_credit stored customer sid txn total l db₁)
  extend_credit-Charges l db₁ opened found same =
      elim (Bool-cases (ltb_ℤ (l.credit_limit *ℤ pos 1000) (owed l total))) [
        | inl t ↦ rw t (l, opened, ground arith)
        | inr t ↦ rw t (
          l,
          opened,
          ground arith,
          find_first-update_self (is_ledger_of customer sid) (set_balance (stored 3 (owed l total)))
              (λ x h. h) db₁.ledgers found,
          rw same refl,
        )
      ]

  abbrev Ready : Outcome Db SaleError CreditLedger → Type 0
  Ready (ok l db₁) =
      Opened i customer sid db l
      × (find_ledger customer sid db₁ ≡ some l)
      × (db₁.credit_transactions ≡ db.credit_transactions)
  Ready (err e db₁) = ⊥

  ensure_ledger-Ready : Ready (ensure_ledger i customer sid db)
  unfolding ensure_ledger
  ensure_ledger-Ready = elim (Option-cases (find_ledger customer sid db)) [
    | inl e ↦
        let own : is_ledger_of customer sid (new_ledger i customer sid) ≡ true = ground arith in
        rw (e, ensure_ledger) (inr (e, refl), rw own refl, refl)
    | inr (l, e) ↦ rw (e, ensure_ledger) (inl e, e, refl)
  ]

  -- The credit part of a sale charges the customer's ledger, or a new one with no balance and no
  -- limit, with the total exactly when what is then owed is within the ledger's limit, and is refused
  -- otherwise; a charge adds one credit transaction of the total with the new balance.
  pub sell_on_credit-Charges :
      Charges stored i customer sid txn total db (sell_on_credit stored i customer sid txn total db)
  unfolding sell_on_credit
  sell_on_credit-Charges = go (ensure_ledger i customer sid db) ensure_ledger-Ready
    where
      go :
          (r : Outcome Db SaleError CreditLedger)
          → Ready r
          → Charges stored i customer sid txn total db
              (((λ _. r) >>= extend_credit stored customer sid txn total) db)
      go (ok l db₁) (opened, found, same) = extend_credit-Charges l db₁ opened found same
      go (err e db₁) h = absurd h
