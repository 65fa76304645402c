-- ===== src/Finance/Models.antt =====
-- The rows of app/models/finance_models.py that the finance services read and write. A column
-- `Numeric(14, 2)` is an integer of hundredths (paise); timestamps, free text and columns that no
-- service of app/finance touches are left out.
use Prim.Native.String.{String}
use retail_iq.Base.{ℕ, Bool, true, false, Option, List}
use retail_iq.Base.Int.{ℤ}

pub data AccountType : Type 0 where
  current savings virtual operating revenue liability escrow reserve : AccountType

-- Equality of two values of the account-type enum.
unfoldable pub same_type : AccountType → AccountType → Bool
same_type AccountType.current AccountType.current = true
same_type AccountType.savings AccountType.savings = true
same_type AccountType.virtual AccountType.virtual = true
same_type AccountType.operating AccountType.operating = true
same_type AccountType.revenue AccountType.revenue = true
same_type AccountType.liability AccountType.liability = true
same_type AccountType.escrow AccountType.escrow = true
same_type AccountType.reserve AccountType.reserve = true
same_type _ _ = false

pub record FinancialAccount : Type 0 where
  pub id : ℕ
  pub store_id : ℕ
  pub account_type : AccountType
  pub bank_name : String
  pub balance : ℤ

pub data EntryType : Type 0 where
  debit credit : EntryType

pub record LedgerEntry : Type 0 where
  pub account_id : ℕ
  pub entry_type : EntryType
  pub amount : ℤ
  pub balance_after : ℤ
  pub reference_id : ℕ

pub data LoanStatus : Type 0 where
  pending under_review approved disbursed repaying rejected closed : LoanStatus

pub record LoanProduct : Type 0 where
  pub id : ℕ
  pub min_amount : ℤ
  pub max_amount : ℤ
  pub max_tenure_days : ℕ
  pub base_interest_rate : ℤ
  pub is_active : Bool

pub record LoanApplication : Type 0 where
  pub id : ℕ
  pub store_id : ℕ
  pub loan_product_id : ℕ
  pub requested_amount : ℤ
  pub approved_amount : Option ℤ
  pub tenure_days : ℕ
  pub interest_rate : Option ℤ
  pub outstanding_principal : ℤ
  pub total_interest_paid : ℤ
  pub status : LoanStatus

pub record LoanRepayment : Type 0 where
  pub loan_application_id : ℕ
  pub amount : ℤ
  pub principal_component : ℤ
  pub interest_component : ℤ

pub data SweepStrategy : Type 0 where
  off : SweepStrategy
  named : String → SweepStrategy

pub record TreasuryConfig : Type 0 where
  pub store_id : ℕ
  pub sweep_strategy : SweepStrategy
  pub min_balance_threshold : Option ℤ
  pub is_active : Bool

pub data TreasuryKind : Type 0 where
  sweep_in yield_accrual : TreasuryKind

pub record TreasuryTransaction : Type 0 where
  pub store_id : ℕ
  pub kind : TreasuryKind
  pub amount : ℤ
  pub current_yield_bps : Option ℕ

pub record InsuranceProduct : Type 0 where
  pub id : ℕ
  pub premium_rate : ℤ
  pub coverage_amount : ℤ
  pub is_active : Bool

pub data PolicyStatus : Type 0 where
  active expired cancelled claimed : PolicyStatus

pub record InsurancePolicy : Type 0 where
  pub id : ℕ
  pub store_id : ℕ
  pub product_id : ℕ
  pub premium_amount : ℤ
  pub coverage_amount : ℤ
  pub status : PolicyStatus

pub data ClaimStatus : Type 0 where
  pending under_review approved rejected paid : ClaimStatus

pub record InsuranceClaim : Type 0 where
  pub id : ℕ
  pub policy_id : ℕ
  pub claim_amount : ℤ
  pub approved_amount : ℤ
  pub status : ClaimStatus

-- The tables of one database session.
pub record Db : Type 0 where
  pub accounts : List FinancialAccount
  pub entries : List LedgerEntry
  pub next_account : ℕ
  pub loan_products : List LoanProduct
  pub loans : List LoanApplication
  pub next_loan : ℕ
  pub repayments : List LoanRepayment
  pub treasury_configs : List TreasuryConfig
  pub treasury_transactions : List TreasuryTransaction
  pub insurance_products : List InsuranceProduct
  pub policies : List InsurancePolicy
  pub next_policy : ℕ
  pub claims : List InsuranceClaim
  pub next_claim : ℕ

-- What the services raise: their own exceptions by message, and those of the libraries.
pub data FinanceError : Type 0 where
  amount_not_positive same_account : FinanceError
  inactive_product amount_out_of_range term_too_long : FinanceError
  not_approvable not_disbursable not_repayable repayment_not_positive : FinanceError
  inactive_insurance policy_not_active : FinanceError
  multiple_results type_error attribute_error : FinanceError
