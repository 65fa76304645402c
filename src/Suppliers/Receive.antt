-- ===== src/Suppliers/Receive.antt =====
-- A receipt of goods: what reaches the shelves is what the order has received.
use retail_iq.Base.{
  ℕ, ◌≡◌, refl, subst, ap, ◌∙◌, true, Option, none, some, List, [], ◌∷◌, arith, ◌==◌, if◌then◌else◌,
  find_first, update_first, all_of, Bool-cases, Option-cases, inl, inr, find_first-update_self,
  find_first-update_other,
}
use retail_iq.Base.Int.{ℤ, pos, ◌+ℤ◌, int_laws}
use retail_iq.Base.Exec.{Exec, Outcome, ok, err, final, or_raise, modify, ◌>>=◌, ◌>>◌}
use retail_iq.Suppliers.{
  PoStatus, PurchaseOrder, PurchaseOrderItem, Product, Db, Problem, Reply, success, failure,
  ReceiptRequest, is_order, find_order, items_of, set_status, is_receivable, or_zero, is_item,
  is_product, receive_qty, add_stock, receive_item, receive_items, is_complete,
  receive_purchase_order, update_order, settle,
}

abbrev on_shelf : Option Product → ℤ
on_shelf none = pos 0
on_shelf (some x) = or_zero x.current_stock

abbrev so_far : Option PurchaseOrderItem → ℤ
so_far none = pos 0
so_far (some x) = or_zero x.received_qty

-- What a store has of a product.
abbrev pub stock : ℕ → ℕ → Db → ℤ
stock sid p db = on_shelf (find_first (is_product p sid) db.products)

-- What an order has received of a product.
abbrev pub received : ℕ → ℕ → Db → ℤ
received po p db = so_far (find_first (is_item po p) db.items)

-- How much of a product a request names.
pub quantity_of : ℕ → List ReceiptRequest → ℤ
quantity_of p [] = pos 0
quantity_of p (r ∷ rest) =
    let others = quantity_of p rest in
    if r.product_id == p then r.received_qty +ℤ others else others

-- Nothing but the items and the products has changed, those by the quantity `q` of each product.
abbrev pub Adds : ℕ → ℕ → (ℕ → ℤ) → Db → Db → Type 0
Adds po sid q db db' =
    (p : ℕ)
    → (stock sid p db' ≡ stock sid p db +ℤ q p) × (received po p db' ≡ received po p db +ℤ q p)

abbrev pub one_item : ReceiptRequest → ℕ → ℤ
one_item r p = if r.product_id == p then r.received_qty else pos 0

ok-state : {s t : Db} → ◌≡◌ {A = Outcome Db Problem (Unit {0})} (ok tt s) (ok tt t) → s ≡ t
ok-state {s} e = ap (final {E = Problem} {A = Unit {0}}) e

module _ (po sid : ℕ) (r : ReceiptRequest) (db : Db) where
  abbrev taken : Db
  taken = record db {
    items = update_first (is_item po r.product_id) (receive_qty r.received_qty) db.items;
    products = update_first (is_product r.product_id sid) (add_stock r.received_qty) db.products;
  }

  taken-Adds :
      {poi : PurchaseOrderItem} {product : Product}
      → find_first (is_item po r.product_id) db.items ≡ some poi
      → find_first (is_product r.product_id sid) db.products ≡ some product
      → Adds po sid (one_item r) db taken
  taken-Adds {poi} {product} ei ep p = elim (Bool-cases (r.product_id == p)) [
    | inl t ↦
        let same : r.product_id ≡ p = ground arith in
        let ei' = subst (λ j. find_first (is_item po j) db.items ≡ some poi) same ei in
        let ep' = subst (λ j. find_first (is_product j sid) db.products ≡ some product) same ep in
        rw (t, same)
          (
            rw
                (
                  find_first-update_self (is_product p sid) (add_stock r.received_qty) (λ x h. h)
                      db.products ep',
                  ep',
                )
                refl,
            rw
                (
                  find_first-update_self (is_item po p) (receive_qty r.received_qty) (λ x h. h)
                      db.items ei',
                  ei',
                )
                refl,
          )
    | inr t ↦
        rw
          (
            t,
            find_first-update_other (is_product r.product_id sid) (add_stock r.received_qty)
                (is_product p sid) (λ x h. (ground arith, ground arith)) db.products,
            find_first-update_other (is_item po r.product_id) (receive_qty r.received_qty)
                (is_item po p) (λ x h. (ground arith, ground arith)) db.items,
          )
          (omega int_laws, omega int_laws)
  ]

  -- One round either raises or adds its quantity on both sides, and leaves the orders alone.
  receive_item-Adds :
      {db' : Db}
      → receive_item po sid r db ≡ ok tt db'
      → Adds po sid (one_item r) db db' × (db'.orders ≡ db.orders)
  receive_item-Adds {db'} e = elim (Option-cases (find_first (is_item po r.product_id) db.items)) [
    | inl n ↦ cc (rw (n, or_raise) at e)
    | inr (poi, ei) ↦ elim (Option-cases (find_first (is_product r.product_id sid) db.products)) [
      | inl n ↦ cc (rw (ei, n, or_raise) at e)
      | inr (product, ep) ↦
          let h : taken ≡ db' = ok-state (rw (ei, ep, or_raise) at e) in
          subst (λ d. Adds po sid (one_item r) db d × (d.orders ≡ db.orders)) h
            (taken-Adds ei ep, refl)
    ]
  ]

module _ (po sid : ℕ) where
  receive_items-Adds :
      (rs : List ReceiptRequest) (db : Db) {db' : Db}
      → receive_items po sid rs db ≡ ok tt db'
      → Adds po sid (λ p. quantity_of p rs) db db' × (db'.orders ≡ db.orders)
  unfolding receive_items quantity_of
  receive_items-Adds [] db e =
      let same : db ≡ _ = ok-state e in
      subst (λ d. Adds po sid (λ p. pos 0) db d × (d.orders ≡ db.orders)) same
        (λ p. (omega int_laws, omega int_laws), refl)
  receive_items-Adds (r ∷ rest) db {db'} e =
      go (λ d h. receive_items-Adds rest d h) (receive_item po sid r db) refl e
    where
      go :
          ((d : Db)
            → receive_items po sid rest d ≡ ok tt db'
            → Adds po sid (λ p. quantity_of p rest) d db' × (db'.orders ≡ d.orders))
          → (first : Outcome Db Problem (Unit {0})) → receive_item po sid r db ≡ first
          → ((λ (_ : Db). first) >> receive_items po sid rest) db ≡ ok tt db'
          → Adds po sid (λ p. quantity_of p (r ∷ rest)) db db' × (db'.orders ≡ db.orders)
      go later (ok u db₁) e₁ e₂ =
          let (one, orders₁) = receive_item-Adds po sid r db e₁ in
          let (others, orders₂) = later db₁ e₂ in
          (
            λ p. elim (Bool-cases (r.product_id == p)) [
              | inl t ↦
                  let a = rw t at (one p) in
                  rw t (
                    rw ((others p).0, a.0) (omega int_laws),
                    rw ((others p).1, a.1) (omega int_laws),
                  )
              | inr t ↦
                  let a = rw t at (one p) in
                  rw t (
                    rw ((others p).0, a.0) (omega int_laws),
                    rw ((others p).1, a.1) (omega int_laws),
                  )
            ],
            orders₂ ∙ orders₁,
          )
      go later (err x db₁) e₁ e₂ = cc

-- How a receipt has ended for the order and the store.
abbrev pub Receives : ℕ → ℕ → List ReceiptRequest → PurchaseOrder → Db → Db × Reply → Type 0
Receives po sid rs o db (db', success code) =
    (is_receivable o.status ≡ true)
    × Adds po sid (λ p. quantity_of p rs) db db'
    × (find_order po sid db'
        ≡ some
            (if all_of is_complete (items_of po db') then set_status PoStatus.fulfilled o else o))
Receives po sid rs o db (db', failure problem code) = db' ≡ db

module _ (po sid uid : ℕ) (rs : List ReceiptRequest) (o : PurchaseOrder) (db : Db) where
  abbrev with_receipt : Db
  with_receipt = record db {
    receipts = record { po_id = po; store_id = sid; received_by = uid } ∷ db.receipts;
  }

  abbrev fulfil : Unit {0} → Exec Db Problem (Unit {0})
  fulfil u = modify (λ db.
      if all_of is_complete (items_of po db)
      then update_order po sid (set_status PoStatus.fulfilled) db
      else db)

  answer-Receives :
      (r : Outcome Db Problem (Unit {0}))
      → is_receivable o.status ≡ true
      → find_order po sid db ≡ some o
      → receive_items po sid rs with_receipt ≡ r
      → Receives po sid rs o db (settle db (((λ (_ : Db). r) >>= fulfil) with_receipt))
  answer-Receives (err x db₁) u found e = refl
  answer-Receives (ok tt db₁) u found e =
      let (adds, orders) = receive_items-Adds po sid rs with_receipt e in
      let found' : find_first (is_order po sid) db₁.orders ≡ some o = rw orders found in
      elim (Bool-cases (all_of is_complete (items_of po db₁))) [
        | inl t ↦ rw t (
          u,
          adds,
          rw t (
              find_first-update_self (is_order po sid) (set_status PoStatus.fulfilled) (λ x h. h)
                db₁.orders found'),
        )
        | inr t ↦ rw t (u, adds, rw t found')
      ]

-- A receipt is all or nothing. If it is accepted, the order was sent or confirmed, every product's
-- stock and the order's received quantity both grow by what the request names of it, and the order
-- becomes fulfilled exactly when every item of it has been received in full, and otherwise stays as it
-- was. If it is refused, nothing has changed.
pub receive_purchase_order-Receives :
    (po sid uid : ℕ) (rs : List ReceiptRequest) (db : Db) {o : PurchaseOrder}
    → find_order po sid db ≡ some o
    → Receives po sid rs o db (receive_purchase_order po sid uid rs db)
unfolding receive_purchase_order
receive_purchase_order-Receives po sid uid [] db found = refl
receive_purchase_order-Receives po sid uid (r ∷ rest) db {o} found =
    elim (Bool-cases (is_receivable o.status)) [
      | inr t ↦ rw (found, receive_purchase_order) (rw t refl)
      | inl t ↦
          rw (found, receive_purchase_order)
            (rw t (
              answer-Receives po sid uid (r ∷ rest) o db
                (receive_items po sid (r ∷ rest) (with_receipt po sid uid (r ∷ rest) o db)) t found
                refl))
    ]
