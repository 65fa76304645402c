-- ===== src/Loyalty/Models.antt =====
-- The rows of app/models/__init__.py that the loyalty and credit handlers read and write. Points and
-- amounts are hundredths (`Numeric(12, 2)`), rates and multipliers their smallest unit; timestamps,
-- notes, descriptions and benefits are left out. A UUID is a number.
use Prim.Native.String.{String}
use retail_iq.Base.{ℕ, Bool, Option, List}
use retail_iq.Base.Int.{ℤ}

pub record LoyaltyProgram : Type 0 where
  pub id : ℕ
  pub store_id : ℕ
  pub points_per_rupee : ℕ
  pub redemption_rate : ℕ
  pub min_redemption_points : ℕ
  pub expiry_days : ℕ
  pub is_active : Bool

pub record LoyaltyTier : Type 0 where
  pub id : ℕ
  pub program_id : ℕ
  pub name : String
  pub min_points : ℕ
  pub max_points : Option ℕ
  pub multiplier : ℕ
  pub is_default : Bool

pub record CustomerLoyaltyAccount : Type 0 where
  pub id : ℕ
  pub customer_id : ℕ
  pub store_id : ℕ
  pub tier_id : Option ℕ
  pub total_points : ℤ
  pub redeemable_points : ℤ
  pub lifetime_earned : ℤ

pub data LoyaltyKind : Type 0 where
  earn redeem expire adjust : LoyaltyKind

pub record LoyaltyTransaction : Type 0 where
  pub account_id : ℕ
  pub transaction_id : Option ℕ
  pub kind : LoyaltyKind
  pub points : ℤ
  pub balance_after : ℤ

pub record CreditLedger : Type 0 where
  pub id : ℕ
  pub customer_id : ℕ
  pub store_id : ℕ
  pub balance : ℤ
  pub credit_limit : ℤ

pub data CreditKind : Type 0 where
  credit_sale repayment adjustment : CreditKind

pub record CreditTransaction : Type 0 where
  pub ledger_id : ℕ
  pub transaction_id : Option ℕ
  pub kind : CreditKind
  pub amount : ℤ
  pub balance_after : ℤ

pub record Customer : Type 0 where
  pub customer_id : ℕ
  pub store_id : ℕ

pub record Db : Type 0 where
  pub programs : List LoyaltyProgram
  pub tiers : List LoyaltyTier
  pub accounts : List CustomerLoyaltyAccount
  pub transactions : List LoyaltyTransaction
  pub ledgers : List CreditLedger
  pub credit_transactions : List CreditTransaction
  pub customers : List Customer

pub data Problem : Type 0 where
  validation no_program no_tier no_account no_customer default_tier : Problem
  server_error no_active_program below_minimum insufficient_points no_ledger : Problem

pub data Reply : Type 0 where
  success : ℕ → Reply
  failure : Problem → ℕ → Reply
