-- ===== src/Marketplace/Models.antt =====
-- The rows of app/models/marketplace_models.py that an order reads and writes, over the loans of
-- Finance. Prices and subtotals are hundredths; tax and total of an order are ten-thousandths, exact,
-- before their columns round them.
use retail_iq.Base.{ℕ, Bool, Option, List}
use retail_iq.Base.Int.{ℤ}
use retail_iq.Finance.Models.{LoanProduct, LoanApplication}

pub record CatalogItem : Type 0 where
  pub id : ℕ
  pub supplier_profile_id : ℕ
  pub unit_price : ℤ
  pub moq : ℕ
  pub available_quantity : ℕ

pub data OrderStatus : Type 0 where
  draft submitted acknowledged processing shipped partially_delivered delivered disputed cancelled
        returned :
      OrderStatus

pub data PaymentStatus : Type 0 where
  pending partially_paid paid overdue : PaymentStatus

pub record MarketplacePurchaseOrder : Type 0 where
  pub id : ℕ
  pub order_number : ℕ
  pub merchant_id : ℕ
  pub supplier_profile_id : ℕ
  pub status : OrderStatus
  pub subtotal : ℤ
  pub tax : ℤ
  pub shipping_cost : ℤ
  pub total : ℤ
  pub payment_terms : ℕ
  pub payment_status : PaymentStatus
  pub financed_by_retailiq : Bool
  pub loan_id : Option ℕ
  pub expected_delivery : ℕ

pub record MarketplacePoItem : Type 0 where
  pub order_id : ℕ
  pub catalog_item_id : ℕ
  pub quantity : ℤ
  pub unit_price : ℤ
  pub subtotal : ℤ

pub data RfqStatus : Type 0 where
  open_ closed cancelled fulfilled : RfqStatus

pub record Rfq : Type 0 where
  pub id : ℕ
  pub merchant_id : ℕ
  pub items : ℕ
  pub status : RfqStatus
  pub matched_suppliers_count : ℕ

-- The newest row of a table is its first.
pub record Db : Type 0 where
  pub catalog : List CatalogItem
  pub orders : List MarketplacePurchaseOrder
  pub items : List MarketplacePoItem
  pub rfqs : List Rfq
  pub loan_products : List LoanProduct
  pub loans : List LoanApplication
  pub next_order : ℕ
  pub next_rfq : ℕ
  pub next_loan : ℕ

-- A line of a request; a missing quantity is one.
pub record Line : Type 0 where
  pub catalog_item_id : ℕ
  pub quantity : Option ℤ

pub data Problem : Type 0 where
  items_required : Problem
  catalog_item_not_found : ℕ → Problem
