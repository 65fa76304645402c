-- ===== src/Inventory/Prices/Requests.antt =====
-- app/inventory/routes.py: every request keeps the price history in step with the products.
use retail_iq.Base.{
  ℕ, suc, ◌<◌, ◌≡◌, ◌≢◌, refl, true, Option, none, some, List, [], ◌∷◌, arith, find_first,
  find_first-update_self, All, All-map, Bool-cases, Option-cases, inl, inr,
}
use mathlib.Core.Option.{some-injective}
use retail_iq.Base.Keys.{find_first-test}
use retail_iq.Base.Int.{ℤ, ltb_ℤ}
use retail_iq.Base.Exec.{final}
use retail_iq.Inventory.Models.{
  Product, ProductPriceHistory, AlertType, Priority, Message, Db, ProductCreate, ProductUpdate,
  StockUpdate, Count,
}
use retail_iq.Inventory.Products.{
  is_product, find_product, update_row, log_price_history, create_alert, is_open_alert,
  price_changed, updated, warn_margin, is_taken, sku_of, new_product, with_product, create_product,
  update_product, delete_product, deactivate, is_alert, dismiss_alert,
}
use retail_iq.Inventory.Stock.{
  set_stock, add_stock, adjust, set_cost, count_one, count_items, start_audit, takes_price,
  stock_update, stock_audit,
}
use retail_iq.Inventory.Requests.{Request, serve}
use retail_iq.Inventory.Prices.{
  id_of, Logged, PricesLogged, unchanged, other_row, own_row, ids_kept, unlogged-Logged,
  priced-Logged,
}

older : (n : ℕ) (p : Product) → p.product_id < n → p.product_id ≢ n
older n p l e = omega arith

older_still : (n : ℕ) (p : Product) → p.product_id < n → p.product_id < suc n
older_still n p l = omega arith

create_alert-PricesLogged :
    (store : ℕ) (type : AlertType) (priority : Priority) (pid : ℕ) (message : Message) (db : Db)
    → PricesLogged db
    → PricesLogged (create_alert store type priority pid message db)
unfolding create_alert
create_alert-PricesLogged store type priority pid message db h =
    elim (Option-cases (find_first (is_open_alert store type pid) db.alerts)) [
      | inl e ↦ rw (e, create_alert) h
      | inr (a, e) ↦ rw (e, create_alert) h
    ]

warn_margin-PricesLogged :
    (store : ℕ) (p : Product) (cost sell : Option ℤ) (db : Db)
    → PricesLogged db
    → PricesLogged (warn_margin store p cost sell db)
warn_margin-PricesLogged store p none sell db h = h
warn_margin-PricesLogged store p (some c) none db h = h
warn_margin-PricesLogged store p (some c) (some s) db h = elim (Bool-cases (ltb_ℤ s c)) [
  | inl t ↦
      rw (t, warn_margin)
        (create_alert-PricesLogged store AlertType.margin_warning Priority.critical p.product_id
          (Message.margin c s p.name p.product_id) db h)
  | inr t ↦ rw (t, warn_margin) h
]

-- A product's row is changed, its prices are not.
plain-PricesLogged :
    (store pid : ℕ) (f : Product → Product) (db : Db) (p : Product)
    → ((q : Product) → (f q).product_id ≡ q.product_id)
    → (f p).cost_price ≡ p.cost_price
    → (f p).selling_price ≡ p.selling_price
    → find_product store pid db ≡ some p
    → PricesLogged db
    → PricesLogged (update_row store pid f db)
plain-PricesLogged store pid f db p same c s found h =
    let (d, b) = ids_kept store pid f same db p found h in
    (d, b, unlogged-Logged store pid f same db p found h c s)

-- The prices change too, and the change is logged.
priced-PricesLogged :
    (store pid user : ℕ) (f : Product → Product) (db : Db) (p : Product) (id : ℕ)
    (cost sell : Option ℤ)
    → ((q : Product) → (f q).product_id ≡ q.product_id)
    → id ≡ (f p).product_id
    → cost ≡ (f p).cost_price
    → sell ≡ (f p).selling_price
    → find_product store pid db ≡ some p
    → PricesLogged db
    → PricesLogged (log_price_history id cost sell user (update_row store pid f db))
priced-PricesLogged store pid user f db p id cost sell same i c s found h =
    let (d, b) = ids_kept store pid f same db p found h in
    let row : ProductPriceHistory = record {
      product_id = id;
      cost_price = cost;
      selling_price = sell;
      changed_by = user;
    } in
    (d, b, priced-Logged store pid f same db p found h row i c s)

create_product-PricesLogged :
    (store user : ℕ) (r : ProductCreate) (db : Db)
    → PricesLogged db
    → PricesLogged (final (create_product store user r db))
unfolding create_product
create_product-PricesLogged store user r db h =
    elim (Bool-cases (ltb_ℤ r.selling_price r.cost_price)) [
      | inl t ↦ rw (t, create_product) h
      | inr t ↦
          elim (Bool-cases
            (is_taken store db.next_product (some (sku_of store r.sku_code db)) db)) [
              | inl u ↦ rw (t, u, create_product) h
              | inr u ↦ rw (t, u, create_product) created
            ]
    ]
  where
    row : ProductPriceHistory
    row = record {
      product_id = db.next_product;
      cost_price = some r.cost_price;
      selling_price = some r.selling_price;
      changed_by = user;
    }

    created : PricesLogged (
        log_price_history db.next_product
          (some r.cost_price)
          (some r.selling_price)
          user
          (with_product store r db))
    created = (
      (
        All-map (λ p. p.product_id < db.next_product) (λ p. id_of p ≢ db.next_product) db.products
            (older db.next_product) h.1,
        h.0,
      ),
      (
        omega arith,
        All-map (λ p. p.product_id < db.next_product) (λ p. p.product_id < suc db.next_product)
            db.products (older_still db.next_product) h.1,
      ),
      (own_row row db.prices (new_product store r db) refl refl refl, both db.products h.1 h.2),
    )
      where
        both :
            (ps : List Product)
            → All (λ p. p.product_id < db.next_product) ps
            → All (Logged db.prices) ps
            → All (Logged (row ∷ db.prices)) ps
        both [] b l = tt
        both (p ∷ ps) b l =
            (other_row row db.prices p (older db.next_product p b.0) l.0, both ps b.1 l.1)

update_product-PricesLogged :
    (store user pid : ℕ) (r : ProductUpdate) (db : Db)
    → PricesLogged db
    → PricesLogged (final (update_product store user pid r db))
unfolding update_product
update_product-PricesLogged store user pid r db h =
    elim (Option-cases (find_product store pid db)) [
      | inl e ↦ rw (e, update_product) h
      | inr (p, e) ↦ elim (Bool-cases (is_taken store pid (updated r p).sku_code db)) [
        | inl t ↦ rw (e, t, update_product) h
        | inr t ↦ elim (Bool-cases (price_changed r p)) [
          | inr u ↦
              let (c, s) = unchanged r.cost_price r.selling_price p.cost_price p.selling_price u in
              rw (e, t, u, update_product)
                (plain-PricesLogged store pid (updated r) db p (λ q. refl) c s e h)
          | inl u ↦
              let p' = updated r p in
              rw (e, t, u, update_product)
                (warn_margin-PricesLogged store p' p'.cost_price p'.selling_price
                  (log_price_history p'.product_id p'.cost_price p'.selling_price user
                    (update_row store pid (updated r) db))
                  (priced-PricesLogged store pid user (updated r) db p p'.product_id p'.cost_price
                    p'.selling_price (λ q. refl) refl refl refl e h))
        ]
      ]
    ]

product_id_of : (store pid : ℕ) (p : Product) → is_product store pid p ≡ true → pid ≡ p.product_id
product_id_of store pid p h = ground arith

stock_update-PricesLogged :
    (store user pid : ℕ) (r : StockUpdate) (db : Db)
    → PricesLogged db
    → PricesLogged (final (stock_update store user pid r db))
unfolding stock_update
stock_update-PricesLogged store user pid r db h = elim (Option-cases (find_product store pid db)) [
  | inl e ↦ rw (e, stock_update) h
  | inr (p, e) ↦
      let h1 = plain-PricesLogged store pid (add_stock r) db p (λ q. refl) refl refl e h in
      elim (Bool-cases (takes_price r p)) [
        | inr t ↦ rw (e, t, stock_update) h1
        | inl t ↦
            let db1 = adjust user pid r p (update_row store pid (add_stock r) db) in
            let there =
              find_first-update_self (is_product store pid) (add_stock r) (λ x u. u) db.products
                e in
            let is_pid =
              product_id_of store pid p (find_first-test (is_product store pid) db.products e) in
            rw (e, t, stock_update)
              (priced-PricesLogged store pid user (set_cost r.purchase_price) db1 (add_stock r p)
                pid (some r.purchase_price) p.selling_price (λ q. refl) is_pid refl refl there h1)
      ]
]

count_items-PricesLogged :
    (store audit : ℕ) (items : List Count) (db after : Db)
    → count_items store audit items db ≡ some after
    → PricesLogged db
    → PricesLogged after
unfolding count_items
count_items-PricesLogged store audit [] db after e h =
    let same : db ≡ after = some-injective _ _ e in rw (← same) h
count_items-PricesLogged store audit (c ∷ cs) db after e h =
    elim (Option-cases (find_product store c.product_id db)) [
      | inl f ↦ cc (rw (f, count_items) at e)
      | inr (p, f) ↦
          count_items-PricesLogged store audit cs (count_one store audit c p db) after
            (rw (f, count_items) at e)
            (plain-PricesLogged store c.product_id (set_stock c.actual_qty) db p (λ q. refl) refl
              refl f h)
    ]

stock_audit-PricesLogged :
    (store user : ℕ) (items : List Count) (notes : Option ℕ) (db : Db)
    → PricesLogged db
    → PricesLogged (final (stock_audit store user items notes db))
unfolding stock_audit
stock_audit-PricesLogged store user items notes db h =
    let start = start_audit store user notes db in
    elim (Option-cases (count_items store db.next_audit items start)) [
      | inl e ↦ rw (e, stock_audit) h
      | inr (after, e) ↦
          rw (e, stock_audit) (count_items-PricesLogged store db.next_audit items start after e h)
    ]

delete_product-PricesLogged :
    (store pid : ℕ) (db : Db) → PricesLogged db → PricesLogged (final (delete_product store pid db))
unfolding delete_product
delete_product-PricesLogged store pid db h = elim (Option-cases (find_product store pid db)) [
  | inl e ↦ rw (e, delete_product) h
  | inr (p, e) ↦
      rw (e, delete_product)
        (plain-PricesLogged store pid deactivate db p (λ q. refl) refl refl e h)
]

dismiss_alert-PricesLogged :
    (now store aid : ℕ) (db : Db)
    → PricesLogged db
    → PricesLogged (final (dismiss_alert now store aid db))
unfolding dismiss_alert
dismiss_alert-PricesLogged now store aid db h =
    elim (Option-cases (find_first (is_alert store aid) db.alerts)) [
      | inl e ↦ rw (e, dismiss_alert) h
      | inr (a, e) ↦ rw (e, dismiss_alert) h
    ]

-- Whatever is requested, the newest row of the price history about each product has the product's
-- cost and selling price, ids of products are distinct and below the next one.
pub serve-PricesLogged :
    (store user : ℕ) (q : Request) (db : Db)
    → PricesLogged db
    → PricesLogged (serve store user q db)
unfolding serve
serve-PricesLogged store user (Request.create r) db h =
    create_product-PricesLogged store user r db h
serve-PricesLogged store user (Request.update pid r) db h =
    update_product-PricesLogged store user pid r db h
serve-PricesLogged store user (Request.delete pid) db h = delete_product-PricesLogged store pid db h
serve-PricesLogged store user (Request.deliver pid r) db h =
    stock_update-PricesLogged store user pid r db h
serve-PricesLogged store user (Request.audit items notes) db h =
    stock_audit-PricesLogged store user items notes db h
serve-PricesLogged store user (Request.dismiss now aid) db h =
    dismiss_alert-PricesLogged now store aid db h
