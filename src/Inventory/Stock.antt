-- ===== src/Inventory/Stock.antt =====
-- app/inventory/routes.py: deliveries and stock counts.
use retail_iq.Base.{ℕ, suc, Bool, not, ◌&&◌, Option, none, some, List, [], ◌∷◌, if◌then◌else◌}
use retail_iq.Base.Int.{ℤ, pos, ◌+ℤ◌, ◌-ℤ◌}
use retail_iq.Base.Exec.{Outcome, ok, err}
use retail_iq.Inventory.Models.{Product, StockAuditItem, Db, StockUpdate, Count, Problem}
use retail_iq.Inventory.Products.{find_product, update_row, log_price_history, same_price}

-- A missing stock counts as none.
abbrev pub stock_of : Product → ℤ
stock_of p = elim p.current_stock [ none ↦ pos 0 | some q ↦ q ]

abbrev pub or_old : Option ℕ → Option ℕ → Option ℕ
or_old none old = old
or_old (some n) old = some n

-- Whether the delivery's price becomes the cost price.
abbrev pub takes_price : StockUpdate → Product → Bool
takes_price r p = r.update_cost_price && not (same_price (some r.purchase_price) p.cost_price)

abbrev pub add_stock : StockUpdate → Product → Product
add_stock r p = record p {
  current_stock = some (stock_of p +ℤ r.quantity_added);
  supplier_name = or_old r.supplier_name p.supplier_name;
}

abbrev pub set_cost : ℤ → Product → Product
set_cost price p = record p { cost_price = some price }

abbrev pub adjust : ℕ → ℕ → StockUpdate → Product → Db → Db
adjust user pid r p db = record db {
  adjustments =
      record {
        product_id = pid;
        quantity_added = r.quantity_added;
        purchase_price = r.purchase_price;
        adjusted_by = user;
        supplier = or_old r.supplier_name p.supplier_name;
      }
      ∷ db.adjustments;
}

unfoldable pub stock_update : ℕ → ℕ → ℕ → StockUpdate → Db → Outcome Db Problem (Unit {0})
stock_update store user pid r db = elim (find_product store pid db) [
  | none ↦ err Problem.product_not_found db
  | some p ↦
      let db' = adjust user pid r p (update_row store pid (add_stock r) db) in
      if takes_price r p
      then ok tt (
          log_price_history pid (some r.purchase_price) p.selling_price user
            (update_row store pid (set_cost r.purchase_price) db'))
      else ok tt db'
]

abbrev pub set_stock : ℤ → Product → Product
set_stock q p = record p { current_stock = some q }

abbrev pub audit_item : ℕ → Count → Product → StockAuditItem
audit_item audit c p = record {
  audit_id = audit;
  product_id = c.product_id;
  expected_stock = stock_of p;
  actual_stock = c.actual_qty;
  discrepancy = c.actual_qty -ℤ stock_of p;
}

abbrev pub count_one : ℕ → ℕ → Count → Product → Db → Db
count_one store audit c p db = record (update_row store c.product_id (set_stock c.actual_qty) db) {
  audit_items = audit_item audit c p ∷ db.audit_items;
}

-- The loop; `none` when a product is not in the store.
unfoldable pub count_items : ℕ → ℕ → List Count → Db → Option Db
count_items store audit [] db = some db
count_items store audit (c ∷ cs) db = elim (find_product store c.product_id db) [
  | none ↦ none
  | some p ↦ count_items store audit cs (count_one store audit c p db)
]

abbrev pub start_audit : ℕ → ℕ → Option ℕ → Db → Db
start_audit store user notes db = record db {
  audits =
      record { audit_id = db.next_audit; store_id = store; conducted_by = user; notes = notes }
      ∷ db.audits;
  next_audit = suc db.next_audit;
}

-- An unknown product rolls the whole count back.
unfoldable pub stock_audit : ℕ → ℕ → List Count → Option ℕ → Db → Outcome Db Problem ℕ
unfolding count_items
stock_audit store user items notes db =
    elim (count_items store db.next_audit items (start_audit store user notes db)) [
      | none ↦ err Problem.product_not_found db
      | some db' ↦ ok db.next_audit db'
    ]
