-- ===== src/Tests/Finance.antt =====
-- The books of a store that lends and repays.
use retail_iq.Base.{ℕ, ◌≡◌, ◌↔◌, refl, Option, none, some, List, [], ◌∷◌, arith, ◌⊎◌, Any}
use retail_iq.Base.Int.{ℤ, pos, ◌+ℤ◌, ◌-ℤ◌, ◌*ℤ◌, ◌≤ℤ◌}
use retail_iq.Base.Round.{half_even, round_div, trunc_div}
use retail_iq.Finance.Models.{
  AccountType, FinancialAccount, EntryType, LoanStatus, LoanApplication, Db,
}
use retail_iq.Finance.Ledger.{entry, record_transaction, sum_amounts, audited}
use retail_iq.Finance.Ledger.Invariant.{IsConsistent}
use retail_iq.Finance.Ledger.Record.{Records, record_transaction-Records}
use retail_iq.Finance.Loan.{record_repayment, split_payment, monthly_interest}
use retail_iq.Finance.Loan.Repay.{Repays, record_repayment-Repays}
use retail_iq.Finance.Loan.Lifecycle.{Advances}
use retail_iq.Finance.Loan.History.{repay, request, request-Advances}
use retail_iq.Finance.Credit.{
  Signals, RiskTier, CreditProfile, revenue_points, risk_tier, turnover_points, customer_points,
  consistency_points, calculate_merchant_score,
}
use retail_iq.Finance.Credit.Range.{
  floor, ceiling, calculate_merchant_score_bands, StartsFromNothing, IsIncomplete,
  calculate_merchant_score_fails,
}

abbrev account : ℕ → AccountType → ℤ → FinancialAccount
account i kind balance = record {
  id = i;
  store_id = 1;
  account_type = kind;
  bank_name = "";
  balance = balance;
}

abbrev loan : LoanApplication
loan = record {
  id = 7;
  store_id = 1;
  loan_product_id = 2;
  requested_amount = pos 100000;
  approved_amount = some (pos 100000);
  tenure_days = 90;
  interest_rate = some (pos 1200);
  outstanding_principal = pos 100000;
  total_interest_paid = pos 0;
  status = LoanStatus.disbursed;
}

abbrev books : Db
books = record {
  accounts =
      account 1 AccountType.revenue (pos 100000)
      ∷ account 0 AccountType.operating (pos 100000)
      ∷ [];
  entries =
      entry EntryType.credit 1 (pos 100000) (pos 100000) 3
      ∷ entry EntryType.debit 0 (pos 100000) (pos 100000) 3
      ∷ [];
  next_account = 2;
  loan_products = [];
  loans = loan ∷ [];
  next_loan = 8;
  repayments = [];
  treasury_configs = [];
  treasury_transactions = [];
  insurance_products = [];
  policies = [];
  next_policy = 0;
  claims = [];
  next_claim = 0;
}

books-IsConsistent : IsConsistent books
unfolding audited sum_amounts ◌-ℤ◌ ◌+ℤ◌
books-IsConsistent = record {
  distinct = ((λ e. absurd (omega arith), tt), (tt, tt));
  allocated = (omega arith, (omega arith, tt));
  referenced = (omega arith, (omega arith, tt));
  balanced = (refl, (refl, tt));
}

record_transaction-Records_example :
    Records
      (pos 250)
      9
      books
      (record_transaction 1 AccountType.revenue AccountType.operating (pos 250) 9 books)
record_transaction-Records_example =
    record_transaction-Records 1 AccountType.revenue AccountType.operating (pos 250) 9 books
      books-IsConsistent

-- A year's rate of 12% on 1,000.00 is 10.00 for a month, so of 500.00 there go 490.00 to the principal.
split_payment_test : (split_payment loan (pos 50000)).principal ≡ pos 49000
unfolding split_payment monthly_interest round_div half_even ◌-ℤ◌ ◌*ℤ◌
split_payment_test = refl

record_repayment-Repays_example :
    Repays 7 loan (pos 50000) books (record_repayment 7 (pos 50000) 11 books)
record_repayment-Repays_example = record_repayment-Repays 7 (pos 50000) 11 books {app = loan} refl

request-Advances_example : Advances books.loans (request (repay 7 (pos 50000) 11) books).loans
request-Advances_example = request-Advances (repay 7 (pos 50000) 11) books (omega arith, tt)

abbrev signals : Signals
signals = record {
  summaries = some (pos 3000000) ∷ some (pos 4000000) ∷ [];
  products = [];
  customer_count = 20;
}

abbrev good : CreditProfile
good = record { credit_score = pos 518; risk_tier = RiskTier.d }

calculate_merchant_score_bands_example :
    (floor RiskTier.d ≤ℤ pos 518) × (pos 518 ≤ℤ ceiling RiskTier.d)
unfolding calculate_merchant_score revenue_points ◌+ℤ◌ risk_tier trunc_div turnover_points
    customer_points consistency_points
calculate_merchant_score_bands_example = calculate_merchant_score_bands signals {p = good} refl

-- 20 days without revenue, then 20 of 100.00.
abbrev days : ℕ → ℤ → List (Option ℤ) → List (Option ℤ)
days ℕ.zero revenue rest = rest
days (ℕ.suc n) revenue rest = some revenue ∷ days n revenue rest

abbrev new_shop : Signals
new_shop = record {
  summaries = days 20 (pos 0) (days 20 (pos 10000) []);
  products = record { current_stock = some (pos 9); reorder_level = some (pos 1) } ∷ [];
  customer_count = 3;
}

calculate_merchant_score_fails_example :
    (calculate_merchant_score new_shop ≡ none)
    ↔ (StartsFromNothing new_shop.summaries ⊎ Any IsIncomplete new_shop.products)
calculate_merchant_score_fails_example = calculate_merchant_score_fails new_shop
