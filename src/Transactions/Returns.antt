-- ===== src/Transactions/Returns.antt =====
-- What a return does to the stock and the sales.
use mathlib.Core.Option.{some-injective}
use retail_iq.Base.{
  ℕ, ◌+◌, ◌≡◌, ◌∙◌, refl, sym, subst, true, false, none, some, List, [], ◌∷◌, arith, ◌==◌,
  if◌then◌else◌, find_first, All, update_first, Bool-cases, Option-cases, inl, inr,
  find_first-update_self, find_first-update_other,
}
use retail_iq.Base.Int.{ℤ, pos, ◌+ℤ◌, ◌≤ℤ◌, ltb_ℤ, int_laws}
use retail_iq.Base.Exec.{Outcome, ok, err, ◌>>=◌}
use retail_iq.Transactions.Models.{Product, Transaction, TransactionItem, Db, ReturnItem, SaleError}
use retail_iq.Transactions.Gst.{is_product, find_product}
use retail_iq.Transactions.Sale.{stock_or_zero, add_transaction}
use retail_iq.Transactions.Refund.{
  find_original, original_item, put_stock, take_back, return_items, return_row,
  process_return_transaction,
}

unfoldable pub returned : ℕ → List ReturnItem → ℕ
returned j [] = 0
returned j (r ∷ rest) =
    let others = returned j rest in
    if r.product_id == j then r.quantity_returned + others else others

-- The product has this stock, a missing number counting as 0.
abbrev pub Holds : ℕ → ℕ → ℤ → Db → Type 0
Holds sid j s db =
    (p : Product) × (find_product sid j db ≡ some p) × (stock_or_zero p.current_stock ≡ s)

-- The original sale has the product, in at least this quantity.
abbrev pub IsCovered : ℕ → Db → ReturnItem → Type 0
IsCovered original db r =
    (item : TransactionItem) × (original_item original r.product_id db ≡ some item)
    × (pos r.quantity_returned ≤ℤ item.quantity)

is_product_other :
    (sid i j : ℕ) (p : Product)
    → (i == j) ≡ false
    → is_product sid i p ≡ true
    → is_product sid j p ≡ false
is_product_other sid i j p ne t = ground arith

take_back-Holds :
    (sid txn : ℕ) (r : ReturnItem) (item : TransactionItem) (db : Db) (j : ℕ) (s : ℤ)
    → Holds sid j s db
    → Holds sid j
        (if r.product_id == j then s +ℤ pos r.quantity_returned else s)
        (take_back sid txn r item db)
take_back-Holds sid txn r item db j s (p, found, e) = elim (Bool-cases (r.product_id == j)) [
  | inr t ↦
      let same : find_product sid j (take_back sid txn r item db) ≡ find_product sid j db =
        find_first-update_other (is_product sid r.product_id) (put_stock (pos r.quantity_returned))
          (is_product sid j) (λ x u. let v = is_product_other sid r.product_id j x t u in (v, v))
          db.products in
      rw t (p, rw same found, e)
  | inl t ↦
      let i : r.product_id ≡ j = ground arith in
      rw t (
        put_stock (pos r.quantity_returned) p,
        subst
            (λ k.
              find_first (is_product sid k) (
                update_first (is_product sid r.product_id) (put_stock (pos r.quantity_returned))
                  db.products)
              ≡ some (put_stock (pos r.quantity_returned) p))
            i
            (find_first-update_self (is_product sid r.product_id)
              (put_stock (pos r.quantity_returned)) (λ x h. h) db.products
              (subst (λ k. find_first (is_product sid k) db.products ≡ some p) (sym i) found)),
        rw e refl,
      )
]

-- How the loop has ended.
abbrev Restocks : ℕ → ℕ → Db → List ReturnItem → Db → Outcome Db SaleError (Unit {0}) → Type 0
Restocks sid original before items db (ok t db') =
    All (IsCovered original before) items
    × ((j : ℕ) (s : ℤ) → Holds sid j s db → Holds sid j (s +ℤ pos (returned j items)) db')
    × (db'.transactions ≡ db.transactions)
Restocks sid original before items db (err SaleError.not_in_original db') =
    ¬ All (IsCovered original before) items
Restocks sid original before items db (err SaleError.too_many db') =
    ¬ All (IsCovered original before) items
Restocks sid original before items db (err _ db') = ⊥

module _ (sid original txn : ℕ) (before : Db) (r : ReturnItem) (rest : List ReturnItem)
    (item : TransactionItem) (db : Db) where
  Restocks-step :
      (o : Outcome Db SaleError (Unit {0}))
      → IsCovered original before r
      → Restocks sid original before rest (take_back sid txn r item db) o
      → Restocks sid original before (r ∷ rest) db o
  unfolding returned
  Restocks-step (ok t db') covered (all, stocks, same) = (
    (covered, all),
    λ j s h. elim (Bool-cases (r.product_id == j)) [
      | inl u ↦
          let here : Holds sid j (s +ℤ pos r.quantity_returned) (take_back sid txn r item db) =
            rw u at (take_back-Holds sid txn r item db j s h) in
          let there = stocks j (s +ℤ pos r.quantity_returned) here in
          let e : s +ℤ pos r.quantity_returned +ℤ pos (returned j rest)
              ≡ s +ℤ pos (r.quantity_returned + returned j rest) =
            omega int_laws in
          rw u (subst (λ s. Holds sid j s db') e there)
      | inr u ↦
          let here : Holds sid j s (take_back sid txn r item db) =
            rw u at (take_back-Holds sid txn r item db j s h) in
          rw u (stocks j s here)
    ],
    same,
  )
  Restocks-step (err SaleError.not_in_original db') covered h = λ (first, all). h all
  Restocks-step (err SaleError.too_many db') covered h = λ (first, all). h all
  Restocks-step (err _ db') covered h = absurd h

return_items-Restocks :
    (sid original txn : ℕ) (before : Db) (items : List ReturnItem) (db : Db)
    → Restocks sid original before items db (return_items sid original txn before items db)
unfolding return_items returned
return_items-Restocks sid original txn before [] db =
    (tt, λ j s h. subst (λ s. Holds sid j s db) (omega int_laws) h, refl)
return_items-Restocks sid original txn before (r ∷ rest) db =
    elim (Option-cases (original_item original r.product_id before)) [
      | inl e ↦ rw (e, return_items) (λ ((item, found, le), all). cc)
      | inr (item, e) ↦ elim (Bool-cases (ltb_ℤ item.quantity (pos r.quantity_returned))) [
        | inl t ↦
            rw (e, return_items)
              (rw t (λ ((other, found, le), all).
                let same : other ≡ item = some-injective _ _ (sym found ∙ e) in
                let le' = rw same at le in absurd (ground arith)))
        | inr t ↦
            let after = take_back sid txn r item db in
            let covered : IsCovered original before r = (item, e, ground arith) in
            rw (e, return_items)
              (rw t (
                Restocks-step sid original txn before r rest item db
                  (return_items sid original txn before rest after) covered
                  (return_items-Restocks sid original txn before rest after)))
      ]
    ]

-- How a return has ended.
abbrev pub Returns : ℕ → ℕ → List ReturnItem → ℕ → Db → Outcome Db SaleError ℕ → Type 0
Returns original txn items sid db (ok i db') =
    (t : Transaction) × (find_original original sid db ≡ some t)
    × All (IsCovered original db) items
    × ((j : ℕ) (s : ℤ) → Holds sid j s db → Holds sid j (s +ℤ pos (returned j items)) db')
    × (db'.transactions ≡ return_row sid txn t ∷ db.transactions)
Returns original txn items sid db (err SaleError.no_original db') =
    find_original original sid db ≡ none
Returns original txn items sid db (err SaleError.not_in_original db') =
    ¬ All (IsCovered original db) items
Returns original txn items sid db (err SaleError.too_many db') = ¬ All (IsCovered original db) items
Returns original txn items sid db (err _ db') = ⊥

-- A return that goes through found its sale in the store, every item of it was in that sale in at
-- least the returned quantity, every product of the store gets the sum of its returned quantities
-- onto its stock, and one transaction of the return is added. A return is refused only when its sale
-- is not there or when some item was not in the sale in at least the returned quantity.
pub process_return_transaction-Returns :
    (original txn : ℕ) (items : List ReturnItem) (sid : ℕ) (db : Db)
    → Returns original txn items sid db (process_return_transaction original txn items sid db)
unfolding process_return_transaction
process_return_transaction-Returns original txn items sid db =
    elim (Option-cases (find_original original sid db)) [
      | inl e ↦ rw (e, process_return_transaction) e
      | inr (t, e) ↦
          let db₁ = add_transaction (return_row sid txn t) db in
          rw (e, process_return_transaction)
            (go t e (return_items sid original txn db items db₁)
              (return_items-Restocks sid original txn db items db₁))
    ]
  where
    go :
        (t : Transaction)
        → find_original original sid db ≡ some t
        → (o : Outcome Db SaleError (Unit {0}))
        → Restocks sid original db items (add_transaction (return_row sid txn t) db) o
        → Returns original txn items sid db (((λ _. o) >>= λ _. ok txn) db)
    go t e (ok u db') (all, stocks, same) = (t, e, all, stocks, same)
    go t e (err SaleError.not_in_original db') h = h
    go t e (err SaleError.too_many db') h = h
    go t e (err _ db') h = absurd h
