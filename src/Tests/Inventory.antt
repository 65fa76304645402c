-- ===== src/Tests/Inventory.antt =====
-- A store with one product whose prices are on record.
use retail_iq.Base.{◌≡◌, refl, ◌⊎◌, true, none, some, List, [], ◌∷◌, arith}
use retail_iq.Base.Int.{pos}
use retail_iq.Base.Exec.{ok, err}
use retail_iq.Inventory.Models.{Product, Db, ProductUpdate, Count, Problem}
use retail_iq.Inventory.Stock.{stock_audit}
use retail_iq.Inventory.Audit.{HasUnknown, Counts, stock_audit-Counts}
use retail_iq.Inventory.Alerts.{OneOpen, serve-OneOpen}
use retail_iq.Inventory.Requests.{Request, serve}
use retail_iq.Inventory.Prices.{PricesLogged}
use retail_iq.Inventory.Prices.Requests.{serve-PricesLogged}

abbrev tea : Product
tea = record {
  product_id = 1;
  store_id = 1;
  category_id = none;
  name = 7;
  sku_code = none;
  uom = none;
  cost_price = some (pos 500);
  selling_price = some (pos 800);
  current_stock = some (pos 4000);
  reorder_level = some (pos 1000);
  supplier_name = none;
  barcode = none;
  image_url = none;
  is_active = true;
  lead_time_days = some 3;
  hsn_code = none;
}

abbrev shop : Db
shop = record {
  products = tea ∷ [];
  prices =
      record {
        product_id = 1;
        cost_price = some (pos 500);
        selling_price = some (pos 800);
        changed_by = 9;
      }
      ∷ [];
  adjustments = [];
  audits = [];
  audit_items = [];
  alerts = [];
  next_product = 2;
  next_audit = 1;
  next_alert = 1;
}

abbrev dearer : ProductUpdate
dearer = record {
  name = none;
  category_id = none;
  sku_code = none;
  uom = none;
  cost_price = some (pos 900);
  selling_price = none;
  reorder_level = none;
  supplier_name = none;
  barcode = none;
  image_url = none;
  lead_time_days = none;
  is_active = none;
}

abbrev counts : List Count
counts =
    record { product_id = 1; actual_qty = pos 3000 }
    ∷ record { product_id = 1; actual_qty = pos 3500 }
    ∷ []

stock_audit-Counts_example :
    ((stock_audit 1 9 counts none shop ≡ err Problem.product_not_found shop)
      × HasUnknown 1 shop counts)
    ⊎ ((after : Db) × (stock_audit 1 9 counts none shop ≡ ok 1 after) × Counts 1 counts shop after)
stock_audit-Counts_example = stock_audit-Counts 1 9 counts none shop

shop-OneOpen : OneOpen shop
shop-OneOpen store type pid = omega arith

serve-OneOpen_example : OneOpen (serve 1 9 (Request.update 1 dearer) shop)
serve-OneOpen_example = serve-OneOpen 1 9 (Request.update 1 dearer) shop shop-OneOpen

shop-PricesLogged : PricesLogged shop
shop-PricesLogged = (
  (tt, tt),
  (omega arith, tt),
  (
    (
      record {
        product_id = 1;
        cost_price = some (pos 500);
        selling_price = some (pos 800);
        changed_by = 9;
      },
      refl,
      refl,
      refl,
    ),
    tt,
  ),
)

serve-PricesLogged_example : PricesLogged (serve 1 9 (Request.update 1 dearer) shop)
serve-PricesLogged_example = serve-PricesLogged 1 9 (Request.update 1 dearer) shop shop-PricesLogged
