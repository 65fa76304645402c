-- ===== src/Transactions/Stock.antt =====
-- What the loop of a sale does to the stock.
use retail_iq.Base.{
  ℕ, ◌+◌, ◌*◌, ◌≡◌, refl, ◌∙◌, subst, true, false, none, some, List, [], ◌∷◌, arith, ◌==◌,
  if◌then◌else◌, all_of, Bool-cases, Option-cases, inl, inr, find_first-update_self,
  find_first-update_other,
}
use retail_iq.Base.Int.{ℤ, pos, ◌+ℤ◌, ◌-ℤ◌, ◌*ℤ◌, int_laws}
use retail_iq.Base.Exec.{Outcome, ok, err}
use retail_iq.Transactions.Models.{Product, Db, LineItem, SaleError}
use retail_iq.Transactions.Gst.{line_total, is_product, find_product}
use retail_iq.Transactions.Sale.{stock_or_zero, take_stock, is_known, sell, sell_items}

-- The stock of a product of the store; a missing product or number counts as 0.
abbrev pub stock : ℕ → ℕ → Db → ℤ
stock sid j db = elim (find_product sid j db) [
  | none ↦ pos 0
  | some p ↦ stock_or_zero p.current_stock
]

-- What a sale takes of a product.
unfoldable pub quantity_of : ℕ → List LineItem → ℕ
quantity_of j [] = 0
quantity_of j (item ∷ rest) =
    let others = quantity_of j rest in
    if item.product_id == j then item.quantity + others else others

-- The sum of quantity times price less discount, in hundred-thousandths.
unfoldable pub total_of : List LineItem → ℤ
total_of [] = pos 0
total_of (item ∷ rest) =
    (pos (item.quantity * item.selling_price) -ℤ item.discount_amount *ℤ pos 1000) +ℤ total_of rest

is_product_other :
    (sid i j : ℕ) (p : Product)
    → (i == j) ≡ false
    → is_product sid i p ≡ true
    → is_product sid j p ≡ false
is_product_other sid i j p ne t = ground arith

module _ (sid txn : ℕ) (item : LineItem) (p : Product) (db : Db)
    (found : find_product sid item.product_id db ≡ some p) where
  find-sell_self :
      find_product sid item.product_id (sell sid txn item p db)
      ≡ some (take_stock (pos item.quantity) p)
  find-sell_self =
      find_first-update_self (is_product sid item.product_id) (take_stock (pos item.quantity))
        (λ x h. h) db.products found

  find-sell_other :
      (j : ℕ)
      → (item.product_id == j) ≡ false
      → find_product sid j (sell sid txn item p db) ≡ find_product sid j db
  find-sell_other j ne =
      find_first-update_other (is_product sid item.product_id) (take_stock (pos item.quantity))
        (is_product sid j) (λ x t. let u = is_product_other sid item.product_id j x ne t in (u, u))
        db.products

  stock-sell :
      (j : ℕ)
      → stock sid j (sell sid txn item p db)
        ≡ (if item.product_id == j then stock sid j db -ℤ pos item.quantity else stock sid j db)
  stock-sell j = elim (Bool-cases (item.product_id == j)) [
    | inr t ↦ rw (find-sell_other j t, t, stock) refl
    | inl t ↦
        let e : item.product_id ≡ j = ground arith in
        rw t (
          subst (λ k. stock sid k (sell sid txn item p db) ≡ stock sid k db -ℤ pos item.quantity) e
            (rw (find-sell_self, found, stock) refl))
  ]

  is_known-sell :
      (other : LineItem)
      → is_known sid db other ≡ true
      → is_known sid (sell sid txn item p db) other ≡ true
  is_known-sell other h = elim (Bool-cases (item.product_id == other.product_id)) [
    | inr t ↦ rw (find-sell_other other.product_id t, is_known) h
    | inl t ↦
        let e : item.product_id ≡ other.product_id = ground arith in
        subst
          (λ k.
            (elim (find_product sid k (sell sid txn item p db)) [ none ↦ false | some q ↦ true ])
            ≡ true)
          e (rw find-sell_self refl)
  ]

  all_known-sell :
      (items : List LineItem)
      → all_of (is_known sid db) items ≡ true
      → all_of (is_known sid (sell sid txn item p db)) items ≡ true
  all_known-sell [] h = refl
  all_known-sell (other ∷ rest) h =
      let a : is_known sid db other ≡ true = ground arith in
      let b : all_of (is_known sid db) rest ≡ true = ground arith in
      rw (is_known-sell other a, all_known-sell rest b) refl

-- How the loop has ended: it never raises when the products are there.
abbrev pub Sold : ℕ → List LineItem → ℤ → Db → Outcome Db SaleError ℤ → Type 0
Sold sid items total db (ok t db') =
    (t ≡ total +ℤ total_of items)
    × ((j : ℕ) → stock sid j db' ≡ stock sid j db -ℤ pos (quantity_of j items))
    × ((db'.transactions ≡ db.transactions)
        × (db'.accounts ≡ db.accounts)
        × (db'.customers ≡ db.customers))
Sold sid items total db (err e db') = ⊥

module _ (sid txn : ℕ) (item : LineItem) (rest : List LineItem) (total : ℤ) (p : Product) (db : Db)
    (found : find_product sid item.product_id db ≡ some p) where
  regroup : (a b c : ℤ) → (a +ℤ b) +ℤ c ≡ a +ℤ (b +ℤ c)
  regroup a b c = omega int_laws

  Sold-step :
      (r : Outcome Db SaleError ℤ)
      → Sold sid rest (total +ℤ line_total item) (sell sid txn item p db) r
      → Sold sid (item ∷ rest) total db r
  unfolding total_of quantity_of line_total
  Sold-step (ok t db') (sum, stocks, same) = (
    sum ∙ regroup total (line_total item) (total_of rest),
    λ j. elim (Bool-cases (item.product_id == j)) [
      | inl u ↦
          let here = rw (stock-sell sid txn item p db found j, u) at (stocks j) in
          rw (here, u) (omega int_laws)
      | inr u ↦
          let here = rw (stock-sell sid txn item p db found j, u) at (stocks j) in rw (here, u) refl
    ],
    same,
  )
  Sold-step (err e db') h = absurd h

pub sell_items-Sold :
    (sid txn : ℕ) (items : List LineItem) (total : ℤ) (db : Db)
    → all_of (is_known sid db) items ≡ true
    → Sold sid items total db (sell_items sid txn items total db)
unfolding sell_items total_of quantity_of
sell_items-Sold sid txn [] total db h = (omega int_laws, λ j. omega int_laws, (refl, refl, refl))
sell_items-Sold sid txn (item ∷ rest) total db h =
    elim (Option-cases (find_product sid item.product_id db)) [
      | inl e ↦ absurd (cc (rw (e, is_known) at h))
      | inr (p, e) ↦
          let after = sell sid txn item p db in
          let r = sell_items sid txn rest (total +ℤ line_total item) after in
          let known : all_of (is_known sid db) rest ≡ true = ground arith in
          let ih =
            sell_items-Sold sid txn rest (total +ℤ line_total item) after
              (all_known-sell sid txn item p db e rest known) in
          rw (e, sell_items) (Sold-step sid txn item rest total p db e r ih)
    ]
