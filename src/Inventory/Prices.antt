-- ===== src/Inventory/Prices.antt =====
-- app/inventory: the price history knows every product's prices.
pub mod Requests
use retail_iq.Base.{
  ℕ, suc, ◌+◌, ◌<◌, ◌≡◌, ◌≢◌, refl, sym, ap, subst, ◌∙◌, Bool, true, false, not, ◌&&◌, ◌||◌, Option,
  none, some, List, [], ◌∷◌, arith, ◌==◌, if◌then◌else◌, find_first, update_first, All, All-map,
  All-find_first, Bool-cases, Option-cases, inl, inr,
}
use mathlib.Core.Option.{some-injective}
use retail_iq.Base.Keys.{
  DistinctBy, DistinctBy-update_first, All-update_first, All-update_found, find_first-test,
}
use retail_iq.Base.Int.{ℤ, ltb_ℤ, eqb_ℤ, eq_of_parts, pos_part, neg_part}
use retail_iq.Base.Exec.{Outcome, ok, err, final}
use retail_iq.Inventory.Models.{
  Product, ProductPriceHistory, Alert, AlertType, Priority, Message, Db, ProductCreate,
  ProductUpdate, StockUpdate, Count, Problem,
}
use retail_iq.Inventory.Products.{
  is_product, find_product, update_row, log_price_history, create_alert, is_open_alert, new_price,
  same_price, price_changed, is_given, updated, warn_margin, is_taken, sku_of, new_product,
  with_product, create_product, update_product, delete_product, deactivate, is_alert, dismiss_alert,
}
use retail_iq.Inventory.Stock.{
  set_stock, add_stock, set_cost, count_one, count_items, start_audit, takes_price, stock_update,
  stock_audit,
}
use retail_iq.Inventory.Requests.{Request, serve}

abbrev pub id_of : Product → ℕ
id_of p = p.product_id

abbrev pub is_about : ℕ → ProductPriceHistory → Bool
is_about pid h = h.product_id == pid

-- The newest row about the product has its two prices.
abbrev pub Logged : List ProductPriceHistory → Product → Type 0
Logged prices p =
    (h : ProductPriceHistory) × (find_first (is_about p.product_id) prices ≡ some h)
    × (h.cost_price ≡ p.cost_price)
    × (h.selling_price ≡ p.selling_price)

abbrev pub PricesLogged : Db → Type 0
PricesLogged db =
    DistinctBy id_of db.products
    × All (λ p. p.product_id < db.next_product) db.products
    × All (Logged db.prices) db.products

price_eq : (a b : Option ℤ) → same_price a b ≡ true → a ≡ b
price_eq none none h = refl
price_eq none (some b) h = cc
price_eq (some a) none h = cc
price_eq (some a) (some b) h =
    ap some (eq_of_parts a b (numbers (pos_part a + neg_part b) (pos_part b + neg_part a) h))
  where
    numbers : (n m : ℕ) → (n == m) ≡ true → n ≡ m
    numbers n m h = ground arith

both_same : (a b : Bool) → (not a || not b) ≡ false → (a ≡ true) × (b ≡ true)
both_same true true h = (refl, refl)
both_same true false h = cc
both_same false b h = cc

-- An update that logs nothing leaves both prices.
pub unchanged :
    (c s oc os : Option ℤ)
    → ((is_given c || is_given s)
        && (not (same_price (new_price c oc) oc) || not (same_price (new_price s os) os)))
      ≡ false
    → (new_price c oc ≡ oc) × (new_price s os ≡ os)
unchanged none none oc os h = (refl, refl)
unchanged none (some s) oc os h =
    let (a, b) = both_same (same_price oc oc) (same_price (some s) os) h in
    (refl, price_eq (some s) os b)
unchanged (some c) none oc os h =
    let (a, b) = both_same (same_price (some c) oc) (same_price os os) h in
    (price_eq (some c) oc a, refl)
unchanged (some c) (some s) oc os h =
    let (a, b) = both_same (same_price (some c) oc) (same_price (some s) os) h in
    (price_eq (some c) oc a, price_eq (some s) os b)

-- A row about another product changes nothing.
pub other_row :
    (row : ProductPriceHistory) (prices : List ProductPriceHistory) (p : Product)
    → p.product_id ≢ row.product_id
    → Logged prices p
    → Logged (row ∷ prices) p
other_row row prices p apart (h, e, c, s) =
    let differ : (row.product_id == p.product_id) ≡ false = ground (arith, apart) in
    (h, rw differ e, c, s)

pub own_row :
    (row : ProductPriceHistory) (prices : List ProductPriceHistory) (p : Product)
    → row.product_id ≡ p.product_id
    → row.cost_price ≡ p.cost_price
    → row.selling_price ≡ p.selling_price
    → Logged (row ∷ prices) p
own_row row prices p i c s =
    let same : (row.product_id == p.product_id) ≡ true = ground (arith, i) in
    (row, rw same refl, c, s)

-- Updates that keep the id.
module _ (store pid : ℕ) (f : Product → Product)
    (same_id : (p : Product) → (f p).product_id ≡ p.product_id) (db : Db) (p : Product)
    (found : find_product store pid db ≡ some p) (h : PricesLogged db) where
  pub ids_kept :
      DistinctBy id_of (update_row store pid f db).products
      × All (λ q. q.product_id < db.next_product) (update_row store pid f db).products
  ids_kept = (
    DistinctBy-update_first id_of (is_product store pid) f same_id db.products h.0,
    All-update_first (λ q. q.product_id < db.next_product) (is_product store pid) f db.products
        (λ q l. rw (same_id q) l) h.1,
  )

  pub unlogged-Logged :
      (f p).cost_price ≡ p.cost_price
      → (f p).selling_price ≡ p.selling_price
      → All (Logged db.prices) (update_row store pid f db).products
  unlogged-Logged c s =
      All-update_found id_of (is_product store pid) f (Logged db.prices) (Logged db.prices)
        db.products h.0 found (λ (row, e, rc, rs). (row, rw (same_id p) e, rc ∙ sym c, rs ∙ sym s))
        (λ q l apart. l) h.2

  pub priced-Logged :
      (row : ProductPriceHistory)
      → row.product_id ≡ (f p).product_id
      → row.cost_price ≡ (f p).cost_price
      → row.selling_price ≡ (f p).selling_price
      → All (Logged (row ∷ db.prices)) (update_row store pid f db).products
  priced-Logged row i c s =
      All-update_found id_of (is_product store pid) f (Logged db.prices) (Logged (row ∷ db.prices))
        db.products h.0 found (λ l. own_row row db.prices (f p) i c s)
        (λ q l apart. other_row row db.prices q (λ e. apart (e ∙ i ∙ same_id p)) l) h.2
