-- ===== src/Inventory/Products.antt =====
-- app/inventory/routes.py and app/inventory/services.py: the catalogue, prices and alerts.
use retail_iq.Base.{
  ℕ, suc, ◌+◌, Bool, true, false, not, ◌&&◌, ◌||◌, Option, none, some, ◌∷◌, ◌==◌, if◌then◌else◌,
  length, select, find_first, update_first,
}
use retail_iq.Base.Int.{ℤ, ltb_ℤ, eqb_ℤ}
use retail_iq.Base.Exec.{Outcome, ok, err}
use retail_iq.Inventory.Models.{
  Sku, Product, AlertType, Priority, Message, Alert, Db, ProductCreate, ProductUpdate, Problem,
}

abbrev pub is_product : ℕ → ℕ → Product → Bool
is_product store pid p = p.product_id == pid && p.store_id == store

abbrev pub find_product : ℕ → ℕ → Db → Option Product
find_product store pid db = find_first (is_product store pid) db.products

abbrev pub update_row : ℕ → ℕ → (Product → Product) → Db → Db
update_row store pid f db = record db {
  products = update_first (is_product store pid) f db.products;
}

-- `generate_next_sku`
abbrev pub generate_next_sku : ℕ → Db → Sku
generate_next_sku store db =
    Sku.numbered store (length (select (λ p. p.store_id == store) db.products) + 1)

-- `log_price_history`
abbrev pub log_price_history : ℕ → Option ℤ → Option ℤ → ℕ → Db → Db
log_price_history pid cost sell user db = record db {
  prices =
      record { product_id = pid; cost_price = cost; selling_price = sell; changed_by = user }
      ∷ db.prices;
}

abbrev pub same_type : AlertType → AlertType → Bool
same_type AlertType.low_stock AlertType.low_stock = true
same_type AlertType.slow_moving AlertType.slow_moving = true
same_type AlertType.margin_warning AlertType.margin_warning = true
same_type _ _ = false

abbrev pub is_open : Option ℕ → Bool
is_open none = true
is_open (some t) = false

abbrev pub is_open_alert : ℕ → AlertType → ℕ → Alert → Bool
is_open_alert store type pid a =
    a.store_id == store
    && same_type a.alert_type type
    && a.product_id == pid
    && is_open a.resolved_at

abbrev pub reword : Priority → Message → Alert → Alert
reword priority message a = record a { message = message; priority = priority }

abbrev pub new_alert : ℕ → AlertType → Priority → ℕ → Message → Db → Alert
new_alert store type priority pid message db = record {
  alert_id = db.next_alert;
  store_id = store;
  alert_type = type;
  priority = priority;
  product_id = pid;
  message = message;
  resolved_at = none;
}

-- `create_alert`: the open alert of the same kind is reworded.
unfoldable pub create_alert : ℕ → AlertType → Priority → ℕ → Message → Db → Db
create_alert store type priority pid message db =
    elim (find_first (is_open_alert store type pid) db.alerts) [
      | none ↦ record db {
        alerts = new_alert store type priority pid message db ∷ db.alerts;
        next_alert = suc db.next_alert;
      }
      | some a ↦ record db {
        alerts = update_first (is_open_alert store type pid) (reword priority message) db.alerts;
      }
    ]

abbrev pub same_sku : Sku → Sku → Bool
same_sku (Sku.numbered s n) (Sku.numbered t m) = s == t && n == m
same_sku (Sku.text a) (Sku.text b) = a == b
same_sku _ _ = false

abbrev pub has_sku : Sku → Option Sku → Bool
has_sku sku none = false
has_sku sku (some other) = same_sku other sku

-- The unique index on the store and the code; rows without a code never clash.
abbrev pub is_taken : ℕ → ℕ → Option Sku → Db → Bool
is_taken store pid none db = false
is_taken store pid (some sku) db =
    elim (find_first
      (λ p. p.store_id == store && has_sku sku p.sku_code && not (p.product_id == pid))
      db.products) [ none ↦ false | some p ↦ true ]

abbrev pub sku_of : ℕ → Option Sku → Db → Sku
sku_of store none db = generate_next_sku store db
sku_of store (some sku) db = sku

abbrev pub new_product : ℕ → ProductCreate → Db → Product
new_product store r db = record {
  product_id = db.next_product;
  store_id = store;
  category_id = r.category_id;
  name = r.name;
  sku_code = some (sku_of store r.sku_code db);
  uom = r.uom;
  cost_price = some r.cost_price;
  selling_price = some r.selling_price;
  current_stock = some r.current_stock;
  reorder_level = some r.reorder_level;
  supplier_name = r.supplier_name;
  barcode = r.barcode;
  image_url = r.image_url;
  is_active = true;
  lead_time_days = some r.lead_time_days;
  hsn_code = r.hsn_code;
}

abbrev pub with_product : ℕ → ProductCreate → Db → Db
with_product store r db = record db {
  products = new_product store r db ∷ db.products;
  next_product = suc db.next_product;
}

-- The schema's check of the prices comes first; a clash of codes fails at the flush.
unfoldable pub create_product : ℕ → ℕ → ProductCreate → Db → Outcome Db Problem ℕ
create_product store user r db =
    if ltb_ℤ r.selling_price r.cost_price
    then err Problem.selling_below_cost db
    else if is_taken store db.next_product (some (sku_of store r.sku_code db)) db
    then err Problem.duplicate_sku db
    else ok db.next_product (
        log_price_history db.next_product (some r.cost_price) (some r.selling_price) user
          (with_product store r db))

abbrev pub assign {ℓ} : {A : Type ℓ} → Option A → A → A
assign none old = old
assign (some a) old = a

abbrev pub new_price : Option ℤ → Option ℤ → Option ℤ
new_price none old = old
new_price (some v) old = some v

abbrev pub same_price : Option ℤ → Option ℤ → Bool
same_price none none = true
same_price (some a) (some b) = eqb_ℤ a b
same_price _ _ = false

abbrev pub is_given {ℓ} : {A : Type ℓ} → Option A → Bool
is_given none = false
is_given (some a) = true

abbrev pub price_changed : ProductUpdate → Product → Bool
price_changed r p =
    (is_given r.cost_price || is_given r.selling_price)
    && (not (same_price (new_price r.cost_price p.cost_price) p.cost_price)
        || not (same_price (new_price r.selling_price p.selling_price) p.selling_price))

abbrev pub updated : ProductUpdate → Product → Product
updated r p = record p {
  name = assign r.name p.name;
  category_id = assign r.category_id p.category_id;
  sku_code = assign r.sku_code p.sku_code;
  uom = assign r.uom p.uom;
  cost_price = new_price r.cost_price p.cost_price;
  selling_price = new_price r.selling_price p.selling_price;
  reorder_level = new_price r.reorder_level p.reorder_level;
  supplier_name = assign r.supplier_name p.supplier_name;
  barcode = assign r.barcode p.barcode;
  image_url = assign r.image_url p.image_url;
  is_active = assign r.is_active p.is_active;
  lead_time_days = elim r.lead_time_days [ none ↦ p.lead_time_days | some d ↦ some d ];
}

-- A margin warning when the cost exceeds the selling price.
abbrev pub warn_margin : ℕ → Product → Option ℤ → Option ℤ → Db → Db
warn_margin store p (some cost) (some sell) db =
    if ltb_ℤ sell cost
    then create_alert store AlertType.margin_warning Priority.critical p.product_id
        (Message.margin cost sell p.name p.product_id) db
    else db
warn_margin store p _ _ db = db

abbrev pub log_change : ℕ → ℕ → Product → Db → Db
log_change store user p db =
    warn_margin store p p.cost_price p.selling_price
      (log_price_history p.product_id p.cost_price p.selling_price user db)

unfoldable pub update_product : ℕ → ℕ → ℕ → ProductUpdate → Db → Outcome Db Problem (Unit {0})
unfolding create_alert
update_product store user pid r db = elim (find_product store pid db) [
  | none ↦ err Problem.product_not_found db
  | some p ↦
      if is_taken store pid (updated r p).sku_code db
      then err Problem.duplicate_sku db
      else if price_changed r p
      then ok tt (log_change store user (updated r p) (update_row store pid (updated r) db))
      else ok tt (update_row store pid (updated r) db)
]

abbrev pub deactivate : Product → Product
deactivate p = record p { is_active = false }

unfoldable pub delete_product : ℕ → ℕ → Db → Outcome Db Problem (Unit {0})
delete_product store pid db = elim (find_product store pid db) [
  | none ↦ err Problem.product_not_found db
  | some p ↦ ok tt (update_row store pid deactivate db)
]

abbrev pub is_alert : ℕ → ℕ → Alert → Bool
is_alert store aid a = a.alert_id == aid && a.store_id == store

abbrev pub resolve : ℕ → Alert → Alert
resolve now a = record a { resolved_at = some now }

unfoldable pub dismiss_alert : ℕ → ℕ → ℕ → Db → Outcome Db Problem (Unit {0})
dismiss_alert now store aid db = elim (find_first (is_alert store aid) db.alerts) [
  | none ↦ err Problem.alert_not_found db
  | some a ↦
      ok tt (record db { alerts = update_first (is_alert store aid) (resolve now) db.alerts })
]
