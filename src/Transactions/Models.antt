-- ===== src/Transactions/Models.antt =====
-- The rows of app/models/__init__.py that a sale or a return reads and writes, and the request of
-- app/transactions/schemas.py. Prices and amounts are hundredths, quantities thousandths, GST rates
-- hundredths of a percent and points per rupee ten-thousandths. Timestamps, notes and the staff
-- session are left out. A UUID and an HSN code are numbers. Of the customers there are the ids.
use retail_iq.Base.{ℕ, Bool, Option, List}
use retail_iq.Base.Int.{ℤ}

pub data GstCategory : Type 0 where
  exempt zero regular : GstCategory

pub record Product : Type 0 where
  pub product_id : ℕ
  pub store_id : ℕ
  pub category_id : Option ℕ
  pub cost_price : Option ℕ
  pub selling_price : Option ℕ
  pub current_stock : Option ℤ
  pub hsn_code : Option ℕ
  pub gst_category : Option GstCategory

pub data PaymentMode : Type 0 where
  cash upi card credit : PaymentMode

-- `total_amount` is exact, in hundred-thousandths: its column rounds it.
pub record Transaction : Type 0 where
  pub transaction_id : ℕ
  pub store_id : ℕ
  pub customer_id : Option ℕ
  pub payment_mode : PaymentMode
  pub is_return : Bool
  pub original_transaction_id : Option ℕ
  pub total_amount : ℤ

pub record TransactionItem : Type 0 where
  pub transaction_id : ℕ
  pub product_id : ℕ
  pub quantity : ℤ
  pub selling_price : ℕ
  pub original_price : ℕ
  pub discount_amount : ℤ
  pub cost_price_at_time : ℕ

pub record CreditLedger : Type 0 where
  pub id : ℕ
  pub customer_id : ℕ
  pub store_id : ℕ
  pub balance : ℤ
  pub credit_limit : ℤ

pub record CreditTransaction : Type 0 where
  pub ledger_id : ℕ
  pub transaction_id : ℕ
  pub amount : ℤ
  pub balance_after : ℤ

pub record LoyaltyProgram : Type 0 where
  pub store_id : ℕ
  pub points_per_rupee : ℕ
  pub is_active : Bool

pub record CustomerLoyaltyAccount : Type 0 where
  pub id : ℕ
  pub customer_id : ℕ
  pub store_id : ℕ
  pub total_points : ℤ
  pub redeemable_points : ℤ
  pub lifetime_earned : ℤ

pub record LoyaltyTransaction : Type 0 where
  pub account_id : ℕ
  pub transaction_id : ℕ
  pub points : ℤ
  pub balance_after : ℤ

pub record StoreGstConfig : Type 0 where
  pub store_id : ℕ
  pub is_gst_enabled : Bool
  pub is_regular : Bool

pub record HsnMaster : Type 0 where
  pub hsn_code : ℕ
  pub default_gst_rate : Option ℕ

pub record Category : Type 0 where
  pub category_id : ℕ
  pub gst_rate : Option ℕ

-- What one HSN code holds in the breakdown of a sale; `none` is the key "NONE".
pub record HsnLine : Type 0 where
  pub hsn_code : Option ℕ
  pub taxable : ℤ
  pub cgst : ℤ
  pub sgst : ℤ
  pub rate : ℕ

pub record GstTransaction : Type 0 where
  pub transaction_id : ℕ
  pub store_id : ℕ
  pub taxable_amount : ℤ
  pub cgst_amount : ℤ
  pub sgst_amount : ℤ
  pub igst_amount : ℤ
  pub total_gst : ℤ
  pub hsn_breakdown : List HsnLine

pub record Db : Type 0 where
  pub products : List Product
  pub transactions : List Transaction
  pub items : List TransactionItem
  pub ledgers : List CreditLedger
  pub credit_transactions : List CreditTransaction
  pub programs : List LoyaltyProgram
  pub customers : List ℕ
  pub accounts : List CustomerLoyaltyAccount
  pub loyalty_transactions : List LoyaltyTransaction
  pub gst_configs : List StoreGstConfig
  pub hsn_master : List HsnMaster
  pub categories : List Category
  pub gst_transactions : List GstTransaction

pub record LineItem : Type 0 where
  pub product_id : ℕ
  pub quantity : ℕ
  pub selling_price : ℕ
  pub discount_amount : ℤ

pub record SaleRequest : Type 0 where
  pub transaction_id : ℕ
  pub payment_mode : PaymentMode
  pub customer_id : Option ℕ
  pub line_items : List LineItem

pub record ReturnItem : Type 0 where
  pub product_id : ℕ
  pub quantity_returned : ℕ

pub data SaleError : Type 0 where
  duplicate products_not_found key_error credit_limit : SaleError
  no_customer account_elsewhere : SaleError
  no_original not_in_original too_many : SaleError
