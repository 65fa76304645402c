-- ===== src/Inventory/Models.antt =====
-- The rows of app/models/__init__.py that app/inventory reads and writes. Texts are numbers; times
-- are left out but for an alert's end.
use retail_iq.Base.{ℕ, Bool, Option, List}
use retail_iq.Base.Int.{ℤ}

-- A code of `generate_next_sku`, "SKU-0001-000002", by its two numbers, or any other text.
pub data Sku : Type 0 where
  numbered : ℕ → ℕ → Sku
  text : ℕ → Sku

pub record Product : Type 0 where
  pub product_id : ℕ
  pub store_id : ℕ
  pub category_id : Option ℕ
  pub name : ℕ
  pub sku_code : Option Sku
  pub uom : Option ℕ
  pub cost_price : Option ℤ
  pub selling_price : Option ℤ
  pub current_stock : Option ℤ
  pub reorder_level : Option ℤ
  pub supplier_name : Option ℕ
  pub barcode : Option ℕ
  pub image_url : Option ℕ
  pub is_active : Bool
  pub lead_time_days : Option ℕ
  pub hsn_code : Option ℕ

pub record ProductPriceHistory : Type 0 where
  pub product_id : ℕ
  pub cost_price : Option ℤ
  pub selling_price : Option ℤ
  pub changed_by : ℕ

pub record StockAdjustment : Type 0 where
  pub product_id : ℕ
  pub quantity_added : ℤ
  pub purchase_price : ℤ
  pub adjusted_by : ℕ
  pub supplier : Option ℕ

pub record StockAudit : Type 0 where
  pub audit_id : ℕ
  pub store_id : ℕ
  pub conducted_by : ℕ
  pub notes : Option ℕ

pub record StockAuditItem : Type 0 where
  pub audit_id : ℕ
  pub product_id : ℕ
  pub expected_stock : ℤ
  pub actual_stock : ℤ
  pub discrepancy : ℤ

pub data AlertType : Type 0 where
  low_stock slow_moving margin_warning : AlertType

pub data Priority : Type 0 where
  critical high medium low info : Priority

-- The texts: of a margin warning, with the two prices, the name and the id, and others.
pub data Message : Type 0 where
  margin : ℤ → ℤ → ℕ → ℕ → Message
  other : ℕ → Message

pub record Alert : Type 0 where
  pub alert_id : ℕ
  pub store_id : ℕ
  pub alert_type : AlertType
  pub priority : Priority
  pub product_id : ℕ
  pub message : Message
  pub resolved_at : Option ℕ

-- The newest row of a table is its first.
pub record Db : Type 0 where
  pub products : List Product
  pub prices : List ProductPriceHistory
  pub adjustments : List StockAdjustment
  pub audits : List StockAudit
  pub audit_items : List StockAuditItem
  pub alerts : List Alert
  pub next_product : ℕ
  pub next_audit : ℕ
  pub next_alert : ℕ

-- The bodies of the requests; a field that may be null has two layers, the outer one for a missing
-- key.
pub record ProductCreate : Type 0 where
  pub name : ℕ
  pub category_id : Option ℕ
  pub sku_code : Option Sku
  pub uom : Option ℕ
  pub cost_price : ℤ
  pub selling_price : ℤ
  pub current_stock : ℤ
  pub reorder_level : ℤ
  pub supplier_name : Option ℕ
  pub barcode : Option ℕ
  pub image_url : Option ℕ
  pub lead_time_days : ℕ
  pub hsn_code : Option ℕ

pub record ProductUpdate : Type 0 where
  pub name : Option ℕ
  pub category_id : Option (Option ℕ)
  pub sku_code : Option (Option Sku)
  pub uom : Option (Option ℕ)
  pub cost_price : Option ℤ
  pub selling_price : Option ℤ
  pub reorder_level : Option ℤ
  pub supplier_name : Option (Option ℕ)
  pub barcode : Option (Option ℕ)
  pub image_url : Option (Option ℕ)
  pub lead_time_days : Option ℕ
  pub is_active : Option Bool

pub record StockUpdate : Type 0 where
  pub quantity_added : ℤ
  pub purchase_price : ℤ
  pub supplier_name : Option ℕ
  pub update_cost_price : Bool

pub record Count : Type 0 where
  pub product_id : ℕ
  pub actual_qty : ℤ

pub data Problem : Type 0 where
  selling_below_cost product_not_found alert_not_found duplicate_sku : Problem
