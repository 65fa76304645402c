-- ===== src/Inventory/Alerts.antt =====
-- app/inventory/services.py and app/inventory/routes.py: an alert is open once.
use retail_iq.Base.{
  ℕ, ◌≤◌, ◌≡◌, refl, subst, Bool, true, false, ◌&&◌, Option, none, some, List, [], ◌∷◌, arith, ◌==◌,
  length, select, find_first, update_first, Bool-cases, Option-cases, inl, inr,
}
use mathlib.Core.Option.{some-injective}
use retail_iq.Base.Int.{ltb_ℤ, ℤ}
use retail_iq.Base.Exec.{final}
use retail_iq.Inventory.Models.{
  Product, AlertType, Priority, Message, Alert, Db, ProductCreate, ProductUpdate, StockUpdate,
  Count,
}
use retail_iq.Inventory.Products.{
  is_open_alert, same_type, reword, new_alert, create_alert, warn_margin, find_product, updated,
  price_changed, is_taken, sku_of, update_row, create_product, update_product, delete_product,
  is_alert, resolve, dismiss_alert, log_price_history,
}
use retail_iq.Inventory.Stock.{
  count_items, count_one, start_audit, stock_update, stock_audit, takes_price,
}
use retail_iq.Inventory.Requests.{Request, serve}

abbrev pub open_count : ℕ → AlertType → ℕ → List Alert → ℕ
open_count store type pid rows = length (select (is_open_alert store type pid) rows)

-- A product has at most one open alert of a type.
abbrev pub OneOpen : Db → Type 0
OneOpen db = (store : ℕ) (type : AlertType) (pid : ℕ) → open_count store type pid db.alerts ≤ 1

module _ (q test : Alert → Bool) (f : Alert → Alert)
    (weaker : (a : Alert) → q (f a) ≡ true → q a ≡ true) where
  count-update_first :
      (rows : List Alert) → length (select q (update_first test f rows)) ≤ length (select q rows)
  count-update_first [] = omega arith
  count-update_first (a ∷ rows) = elim (Bool-cases (test a)) [
    | inl t ↦ elim (Bool-cases (q (f a))) [
      | inl u ↦ rw (t, u, weaker a u) (omega arith)
      | inr u ↦ rw (t, u) (grind arith)
    ]
    | inr t ↦ elim (Bool-cases (q a)) [
      | inl u ↦ let ih = count-update_first rows in rw (t, u) (omega (arith, ih))
      | inr u ↦ rw (t, u) (count-update_first rows)
    ]
  ]

none_found :
    (test : Alert → Bool) (rows : List Alert)
    → find_first test rows ≡ none
    → length (select test rows) ≡ 0
none_found test [] e = refl
none_found test (a ∷ rows) e = elim (Bool-cases (test a)) [
  | inl t ↦ cc (rw t at e)
  | inr t ↦ rw t (none_found test rows (rw t at e))
]

type_eq : (a b : AlertType) → same_type a b ≡ true → a ≡ b
type_eq AlertType.low_stock AlertType.low_stock h = refl
type_eq AlertType.slow_moving AlertType.slow_moving h = refl
type_eq AlertType.margin_warning AlertType.margin_warning h = refl
type_eq AlertType.low_stock AlertType.slow_moving h = cc
type_eq AlertType.low_stock AlertType.margin_warning h = cc
type_eq AlertType.slow_moving AlertType.low_stock h = cc
type_eq AlertType.slow_moving AlertType.margin_warning h = cc
type_eq AlertType.margin_warning AlertType.low_stock h = cc
type_eq AlertType.margin_warning AlertType.slow_moving h = cc

and_parts : (a b c d : Bool) → (a && b && c && d) ≡ true → (a ≡ true) × (b ≡ true) × (c ≡ true)
and_parts true true true d h = (refl, refl, refl)
and_parts false b c d h = cc
and_parts true false c d h = cc
and_parts true true false d h = cc

number_eq : (a b : ℕ) → (a == b) ≡ true → a ≡ b
number_eq a b h = ground arith

create_alert-OneOpen :
    (store : ℕ) (type : AlertType) (priority : Priority) (pid : ℕ) (message : Message) (db : Db)
    → OneOpen db
    → OneOpen (create_alert store type priority pid message db)
unfolding create_alert
create_alert-OneOpen store type priority pid message db h s t p =
    elim (Option-cases (find_first (is_open_alert store type pid) db.alerts)) [
      | inr (a, e) ↦
          let le =
            count-update_first (is_open_alert s t p) (is_open_alert store type pid)
              (reword priority message) (λ x u. u) db.alerts in
          rw (e, create_alert) (omega (arith, le, h s t p))
      | inl e ↦
          let fresh = new_alert store type priority pid message db in
          elim (Bool-cases (is_open_alert s t p fresh)) [
            | inr u ↦ rw (e, u, create_alert) (h s t p)
            | inl u ↦
                let (su, tu, pu) = and_parts (store == s) (same_type type t) (pid == p) true u in
                let nothing = none_found (is_open_alert store type pid) db.alerts e in
                let here =
                  subst (λ i. open_count i t p db.alerts ≡ 0) (number_eq store s su)
                    (subst (λ i. open_count store i p db.alerts ≡ 0) (type_eq type t tu)
                      (subst (λ i. open_count store type i db.alerts ≡ 0) (number_eq pid p pu)
                        nothing)) in
                rw (e, u, create_alert) (omega (arith, here))
          ]
    ]

warn_margin-OneOpen :
    (store : ℕ) (p : Product) (cost sell : Option ℤ) (db : Db)
    → OneOpen db
    → OneOpen (warn_margin store p cost sell db)
warn_margin-OneOpen store p none sell db h = h
warn_margin-OneOpen store p (some c) none db h = h
warn_margin-OneOpen store p (some c) (some s) db h = elim (Bool-cases (ltb_ℤ s c)) [
  | inl t ↦
      rw (t, warn_margin)
        (create_alert-OneOpen store AlertType.margin_warning Priority.critical p.product_id
          (Message.margin c s p.name p.product_id) db h)
  | inr t ↦ rw (t, warn_margin) h
]

update_product-OneOpen :
    (store user pid : ℕ) (r : ProductUpdate) (db : Db)
    → OneOpen db
    → OneOpen (final (update_product store user pid r db))
unfolding update_product
update_product-OneOpen store user pid r db h = elim (Option-cases (find_product store pid db)) [
  | inl e ↦ rw (e, update_product) h
  | inr (p, e) ↦ elim (Bool-cases (is_taken store pid (updated r p).sku_code db)) [
    | inl t ↦ rw (e, t, update_product) h
    | inr t ↦ elim (Bool-cases (price_changed r p)) [
      | inr u ↦ rw (e, t, u, update_product) h
      | inl u ↦
          let p' = updated r p in
          rw (e, t, u, update_product)
            (warn_margin-OneOpen store p' p'.cost_price p'.selling_price
              (log_price_history p'.product_id p'.cost_price p'.selling_price user
                (update_row store pid (updated r) db))
              h)
    ]
  ]
]

dismiss_alert-OneOpen :
    (now store aid : ℕ) (db : Db) → OneOpen db → OneOpen (final (dismiss_alert now store aid db))
unfolding dismiss_alert
dismiss_alert-OneOpen now store aid db h s t p =
    elim (Option-cases (find_first (is_alert store aid) db.alerts)) [
      | inl e ↦ rw (e, dismiss_alert) (h s t p)
      | inr (a, e) ↦
          let le =
            count-update_first (is_open_alert s t p) (is_alert store aid) (resolve now)
              (closed s t p now) db.alerts in
          rw (e, dismiss_alert) (omega (arith, le, h s t p))
    ]
  where
    closed :
        (s : ℕ) (t : AlertType) (p now : ℕ) (a : Alert)
        → is_open_alert s t p (resolve now a) ≡ true
        → is_open_alert s t p a ≡ true
    closed s t p now a h = ground arith

count_items_alerts :
    (store audit : ℕ) (items : List Count) (db after : Db)
    → count_items store audit items db ≡ some after
    → after.alerts ≡ db.alerts
unfolding count_items
count_items_alerts store audit [] db after e =
    let same : db ≡ after = some-injective _ _ e in rw (← same) refl
count_items_alerts store audit (c ∷ cs) db after e =
    elim (Option-cases (find_product store c.product_id db)) [
      | inl f ↦ cc (rw (f, count_items) at e)
      | inr (p, f) ↦
          count_items_alerts store audit cs (count_one store audit c p db) after
            (rw (f, count_items) at e)
    ]

same_alerts : (before after : Db) → after.alerts ≡ before.alerts → OneOpen before → OneOpen after
same_alerts before after e h s t p = rw e (h s t p)

stock_audit_alerts :
    (store user : ℕ) (items : List Count) (notes : Option ℕ) (db : Db)
    → (final (stock_audit store user items notes db)).alerts ≡ db.alerts
unfolding stock_audit
stock_audit_alerts store user items notes db =
    let start = start_audit store user notes db in
    elim (Option-cases (count_items store db.next_audit items start)) [
      | inl e ↦ rw (e, stock_audit) refl
      | inr (after, e) ↦
          rw (e, stock_audit) (count_items_alerts store db.next_audit items start after e)
    ]

stock_update_alerts :
    (store user pid : ℕ) (r : StockUpdate) (db : Db)
    → (final (stock_update store user pid r db)).alerts ≡ db.alerts
unfolding stock_update
stock_update_alerts store user pid r db = elim (Option-cases (find_product store pid db)) [
  | inl e ↦ rw (e, stock_update) refl
  | inr (p, e) ↦ elim (Bool-cases (takes_price r p)) [
    | inl t ↦ rw (e, t, stock_update) refl
    | inr t ↦ rw (e, t, stock_update) refl
  ]
]

create_product_alerts :
    (store user : ℕ) (r : ProductCreate) (db : Db)
    → (final (create_product store user r db)).alerts ≡ db.alerts
unfolding create_product
create_product_alerts store user r db = elim (Bool-cases (ltb_ℤ r.selling_price r.cost_price)) [
  | inl t ↦ rw (t, create_product) refl
  | inr t ↦
      elim (Bool-cases (is_taken store db.next_product (some (sku_of store r.sku_code db)) db)) [
        | inl u ↦ rw (t, u, create_product) refl
        | inr u ↦ rw (t, u, create_product) refl
      ]
]

delete_product_alerts :
    (store pid : ℕ) (db : Db) → (final (delete_product store pid db)).alerts ≡ db.alerts
unfolding delete_product
delete_product_alerts store pid db = elim (Option-cases (find_product store pid db)) [
  | inl e ↦ rw (e, delete_product) refl
  | inr (p, e) ↦ rw (e, delete_product) refl
]

-- Whatever is requested, no product of a store gets a second open alert of one type.
pub serve-OneOpen :
    (store user : ℕ) (q : Request) (db : Db) → OneOpen db → OneOpen (serve store user q db)
unfolding serve
serve-OneOpen store user (Request.create r) db h =
    same_alerts db (final (create_product store user r db)) (create_product_alerts store user r db)
      h
serve-OneOpen store user (Request.update pid r) db h = update_product-OneOpen store user pid r db h
serve-OneOpen store user (Request.delete pid) db h =
    same_alerts db (final (delete_product store pid db)) (delete_product_alerts store pid db) h
serve-OneOpen store user (Request.deliver pid r) db h =
    same_alerts db (final (stock_update store user pid r db))
      (stock_update_alerts store user pid r db) h
serve-OneOpen store user (Request.audit items notes) db h =
    same_alerts db (final (stock_audit store user items notes db))
      (stock_audit_alerts store user items notes db) h
serve-OneOpen store user (Request.dismiss now aid) db h = dismiss_alert-OneOpen now store aid db h
