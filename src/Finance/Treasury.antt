-- ===== src/Finance/Treasury.antt =====
-- app/finance/treasury_manager.py: sweeps of spare cash into the reserve, and its yield.
use retail_iq.Base.{
  ℕ, Bool, true, false, not, Option, none, some, List, [], ◌∷◌, ◌==◌, if◌then◌else◌, select, ◌&&◌,
}
use retail_iq.Base.Int.{ℤ, pos, ◌-ℤ◌, ◌*ℤ◌, leb_ℤ}
use retail_iq.Base.Round.{round_div}
use retail_iq.Base.Exec.{Exec, pure, gets, or_raise, modify, ◌>>=◌, ◌>>◌}
use retail_iq.Finance.Models.{
  AccountType, SweepStrategy, TreasuryConfig, TreasuryKind, TreasuryTransaction, Db, FinanceError,
}
use retail_iq.Finance.Ledger.{scalar_one_or_none, is_account_of, record_transaction}

-- `strategy == "OFF"`
abbrev pub is_off : SweepStrategy → Bool
is_off SweepStrategy.off = true
is_off (SweepStrategy.named _) = false

abbrev pub is_config_of : ℕ → TreasuryConfig → Bool
is_config_of store c = c.store_id == store

-- Assignments to the configuration of a store.
abbrev pub configure : ℕ → SweepStrategy → ℤ → TreasuryConfig → TreasuryConfig
configure store strategy min_balance c =
    if is_config_of store c
    then record c {
      sweep_strategy = strategy;
      min_balance_threshold = some min_balance;
      is_active = not (is_off strategy);
    }
    else c

abbrev pub configure_all : ℕ → SweepStrategy → ℤ → List TreasuryConfig → List TreasuryConfig
configure_all store strategy min_balance [] = []
configure_all store strategy min_balance (c ∷ rest) =
    configure store strategy min_balance c ∷ configure_all store strategy min_balance rest

abbrev pub new_config : ℕ → TreasuryConfig
new_config store = record {
  store_id = store;
  sweep_strategy = SweepStrategy.off;
  min_balance_threshold = none;
  is_active = false;
}

unfoldable pub set_sweep_config : ℕ → SweepStrategy → ℤ → Exec Db FinanceError (Unit {0})
set_sweep_config store strategy min_balance = do
  config ← scalar_one_or_none (← gets (λ db. select (is_config_of store) db.treasury_configs))
  elim config [
    | some c ↦ pure tt
    | none ↦ modify (λ db. record db { treasury_configs = new_config store ∷ db.treasury_configs })
  ]
  modify (λ db. record db {
    treasury_configs = configure_all store strategy min_balance db.treasury_configs;
  })

abbrev pub log_treasury : TreasuryTransaction → Exec Db FinanceError (Unit {0})
log_treasury tx = modify (λ db. record db { treasury_transactions = tx ∷ db.treasury_transactions })

-- Posts the sweep and logs it.
abbrev pub sweep : ℕ → ℤ → ℕ → Exec Db FinanceError (Option ℤ)
sweep store amount txn = do
  posted ← record_transaction store AccountType.reserve AccountType.operating amount txn
  log_treasury (record {
    store_id = store;
    kind = TreasuryKind.sweep_in;
    amount = amount;
    current_yield_bps = none;
  })
  pure (some amount)

-- The steps once an active configuration is found: a threshold of `None` cannot be compared.
abbrev pub sweep_over : ℕ → TreasuryConfig → ℕ → Exec Db FinanceError (Option ℤ)
sweep_over store config txn = do
  account ←
      scalar_one_or_none
        (← gets (λ db. select (is_account_of store AccountType.operating) db.accounts))
  elim account [
    | none ↦ pure none
    | some a ↦ do
      threshold ← or_raise config.min_balance_threshold FinanceError.type_error
      if leb_ℤ a.balance threshold then pure none else sweep store (a.balance -ℤ threshold) txn
  ]

unfoldable pub perform_sweep : ℕ → ℕ → Exec Db FinanceError (Option ℤ)
perform_sweep store txn = do
  config ←
      scalar_one_or_none
        (← gets (λ db. select (λ c. is_config_of store c && c.is_active) db.treasury_configs))
  elim config [
    | none ↦ pure none
    | some c ↦ if is_off c.sweep_strategy then pure none else sweep_over store c txn
  ]

-- `round(balance * (Decimal(450) / 10000 / 365), 2)`
unfoldable pub daily_yield : ℤ → ℤ
daily_yield balance = round_div (balance *ℤ pos 450) 3650000

abbrev pub accrue : ℕ → ℤ → ℕ → Exec Db FinanceError ℤ
accrue store amount txn = do
  posted ← record_transaction store AccountType.reserve AccountType.revenue amount txn
  log_treasury (record {
    store_id = store;
    kind = TreasuryKind.yield_accrual;
    amount = amount;
    current_yield_bps = some 450;
  })
  pure amount

unfoldable pub accrue_yield : ℕ → ℕ → Exec Db FinanceError ℤ
accrue_yield store txn = do
  account ←
      scalar_one_or_none
        (← gets (λ db. select (is_account_of store AccountType.reserve) db.accounts))
  elim account [
    | none ↦ pure (pos 0)
    | some a ↦
        if leb_ℤ a.balance (pos 0)
        then pure (pos 0)
        else if leb_ℤ (daily_yield a.balance) (pos 0)
        then pure (pos 0)
        else accrue store (daily_yield a.balance) txn
  ]
