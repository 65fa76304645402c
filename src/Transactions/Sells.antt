-- ===== src/Transactions/Sells.antt =====
-- What a whole sale does, on every outcome.
use retail_iq.Base.{
  ℕ, ◌≡◌, refl, sym, subst, ◌∙◌, Bool, true, false, Option, none, some, ◌∷◌, ◌==◌, all_of,
  Bool-cases, inl, inr,
}
use retail_iq.Base.Int.{ℤ, pos, ◌-ℤ◌, int_laws}
use retail_iq.Base.Exec.{Outcome, ok, err, ◌>>=◌}
use retail_iq.Transactions.Models.{PaymentMode, Db, SaleRequest, SaleError}
use retail_iq.Transactions.Gst.{record_gst}
use retail_iq.Transactions.Sale.{
  is_known, sell_items, truthy, is_credit, take_credit, award_points, has_customer, flush,
  add_transaction, sale_row, NewIds, make_sale, has_transaction, process_single_transaction,
}
use retail_iq.Transactions.Stock.{stock, quantity_of, total_of, Sold, sell_items-Sold}
use retail_iq.Transactions.Frame.{
  SameSales, Credits, take_credit-Credits, HasElsewhere, Awards, award_points-Awards,
  record_gst-SameSales, SameSales-stock,
}

-- A sale took its quantities from the stock and was added to the sales.
abbrev pub Takes : ℕ → SaleRequest → Db → Db → Type 0
Takes sid sale db db' =
    ((j : ℕ) → stock sid j db' ≡ stock sid j db -ℤ pos (quantity_of j sale.line_items))
    × (db'.transactions
        ≡ record {
          transaction_id = sale.transaction_id;
          store_id = sid;
          customer_id = sale.customer_id;
          payment_mode = sale.payment_mode;
          is_return = false;
          original_transaction_id = none;
          total_amount = total_of sale.line_items;
        }
          ∷ db.transactions)

on_credit : (mode : PaymentMode) → is_credit mode ≡ true → mode ≡ PaymentMode.credit
on_credit PaymentMode.credit h = refl
on_credit PaymentMode.cash h = cc
on_credit PaymentMode.upi h = cc
on_credit PaymentMode.card h = cc

truthy-some : (o : Option ℕ) (c : ℕ) → truthy o ≡ some c → o ≡ some c
truthy-some none c h = cc
truthy-some (some i) c h = elim (Bool-cases (i == 0)) [ inl t ↦ cc (rw t at h) | inr t ↦ rw t at h ]

-- The sale names a customer who is no row.
abbrev NamesNobody : SaleRequest → Db → Type 0
NamesNobody sale db = (c : ℕ) × (sale.customer_id ≡ some c) × (has_customer c db.customers ≡ false)

abbrev Makes : ℕ → SaleRequest → Db → Outcome Db SaleError (Option ℕ) → Type 0
Makes sid sale db (ok o db') = (o ≡ some sale.transaction_id) × Takes sid sale db db'
Makes sid sale db (err SaleError.credit_limit db') = sale.payment_mode ≡ PaymentMode.credit
Makes sid sale db (err SaleError.no_customer db') = NamesNobody sale db
Makes sid sale db (err SaleError.account_elsewhere db') = HasElsewhere sid sale.customer_id db
Makes sid sale db (err _ db') = ⊥

module _ (stored : ℕ → ℤ → ℤ) (new : NewIds) (sid : ℕ) (sale : SaleRequest) where
  -- The steps of a sale after its loyalty part.
  abbrev finish : ℤ → Db → Outcome Db SaleError (Option ℕ)
  finish total db =
      ok (some sale.transaction_id)
        (add_transaction (sale_row sid sale total) (record_gst sid sale db))

  finish-Makes :
      (db db₁ db₂ db₃ : Db) (total : ℤ)
      → Sold sid sale.line_items (pos 0) db (ok total db₁)
      → SameSales db₁ db₂
      → SameSales db₂ db₃
      → Makes sid sale db (finish total db₃)
  finish-Makes db db₁ db₂ db₃ total (sum, stocks, (same, accounts, customers)) same₂ same₃ =
      let same₄ = record_gst-SameSales sid sale db₃ in
      let sum' : total ≡ total_of sale.line_items = rw sum (omega int_laws) in
      (
        refl,
        (
          λ j.
              rw
                (
                  SameSales-stock sid j db₃ (record_gst sid sale db₃) same₄,
                  SameSales-stock sid j db₂ db₃ same₃,
                  SameSales-stock sid j db₁ db₂ same₂,
                  stocks j,
                )
                refl,
          rw (same₄.transactions, same₃.transactions, same₂.transactions, same, sum') refl,
        ),
      )

  after_credit : ℤ → Db → Outcome Db SaleError (Option ℕ)
  after_credit total =
      award_points stored new.account sid (truthy sale.customer_id) sale.transaction_id total
      >>= λ _. finish total

  award-Makes :
      (db db₁ db₂ : Db) (total : ℤ) (r : Outcome Db SaleError (Unit {0}))
      → Sold sid sale.line_items (pos 0) db (ok total db₁)
      → SameSales db₁ db₂
      → db₂.accounts ≡ db₁.accounts
      → Awards sid (truthy sale.customer_id) db₂ r
      → Makes sid sale db (((λ _. r) >>= λ _. finish total) db₂)
  award-Makes db db₁ db₂ total (ok t db₃) sold same₂ held same₃ =
      finish-Makes db db₁ db₂ db₃ total sold same₂ same₃
  award-Makes db db₁ db₂ total (err SaleError.account_elsewhere db₃) sold same₂ held
        (c, is_customer, has, none_here) =
      let back : db₂.accounts ≡ db.accounts = held ∙ sold.2.1 in
      (c, truthy-some sale.customer_id c is_customer, rw back at has, rw back at none_here)
  award-Makes db db₁ db₂ total (err _ db₃) sold same₂ held h = absurd h

  credit-Makes :
      (db db₁ : Db) (total : ℤ) (r : Outcome Db SaleError (Unit {0}))
      → Sold sid sale.line_items (pos 0) db (ok total db₁)
      → Credits sale.payment_mode db₁ r
      → Makes sid sale db (((λ _. r) >>= λ _. after_credit total) db₁)
  unfolding after_credit
  credit-Makes db db₁ total (ok t db₂) sold (same, held) =
      award-Makes db db₁ db₂ total
        (award_points stored new.account sid (truthy sale.customer_id) sale.transaction_id total
          db₂)
        sold same held
        (award_points-Awards stored new.account sid (truthy sale.customer_id) sale.transaction_id
          total db₂)
  credit-Makes db db₁ total (err SaleError.credit_limit db₂) sold h = on_credit sale.payment_mode h
  credit-Makes db db₁ total (err _ db₂) sold h = absurd h

  after_flush : ℤ → Db → Outcome Db SaleError (Option ℕ)
  after_flush total =
      take_credit stored new.ledger sid sale.payment_mode (truthy sale.customer_id)
        sale.transaction_id total
      >>= λ _. after_credit total

  after_flush-Makes :
      (db db₁ : Db) (total : ℤ)
      → Sold sid sale.line_items (pos 0) db (ok total db₁)
      → Makes sid sale db (after_flush total db₁)
  unfolding after_flush
  after_flush-Makes db db₁ total sold =
      credit-Makes db db₁ total
        (take_credit stored new.ledger sid sale.payment_mode (truthy sale.customer_id)
          sale.transaction_id total db₁)
        sold
        (take_credit-Credits stored new.ledger sid sale.payment_mode (truthy sale.customer_id)
          sale.transaction_id total db₁)

  abbrev Flushes : Option ℕ → Db → Outcome Db SaleError (Unit {0}) → Type 0
  Flushes customer db (ok t db') = db' ≡ db
  Flushes customer db (err SaleError.no_customer db') =
      (c : ℕ) × (customer ≡ some c) × (has_customer c db.customers ≡ false)
  Flushes customer db (err _ db') = ⊥

  flush-Flushes : (customer : Option ℕ) (db : Db) → Flushes customer db (flush customer db)
  flush-Flushes none db = refl
  flush-Flushes (some c) db = elim (Bool-cases (has_customer c db.customers)) [
    | inl t ↦ rw t refl
    | inr t ↦ rw t (c, refl, t)
  ]

  flush-Makes :
      (db db₁ : Db) (total : ℤ) (r : Outcome Db SaleError (Unit {0}))
      → Sold sid sale.line_items (pos 0) db (ok total db₁)
      → Flushes sale.customer_id db₁ r
      → Makes sid sale db (((λ _. r) >>= λ _. after_flush total) db₁)
  flush-Makes db db₁ total (ok t db₂) sold same =
      subst (λ d. Makes sid sale db (after_flush total d)) (sym same)
        (after_flush-Makes db db₁ total sold)
  flush-Makes db db₁ total (err SaleError.no_customer db₂) sold (c, e, h) =
      (c, e, rw (sold.2.2) at h)
  flush-Makes db db₁ total (err _ db₂) sold h = absurd h

  after_items : ℤ → Db → Outcome Db SaleError (Option ℕ)
  after_items total = flush sale.customer_id >>= λ _. after_flush total

  items-Makes :
      (db : Db) (r : Outcome Db SaleError ℤ)
      → Sold sid sale.line_items (pos 0) db r
      → Makes sid sale db (((λ _. r) >>= after_items) db)
  unfolding after_items
  items-Makes db (ok total db₁) sold =
      flush-Makes db db₁ total (flush sale.customer_id db₁) sold
        (flush-Flushes sale.customer_id db₁)
  items-Makes db (err e db₁) sold = absurd sold

  make_sale-Makes :
      (db : Db)
      → all_of (is_known sid db) sale.line_items ≡ true
      → Makes sid sale db (make_sale stored new sid sale db)
  unfolding make_sale after_items after_flush after_credit
  make_sale-Makes db known =
      items-Makes db (sell_items sid sale.transaction_id sale.line_items (pos 0) db)
        (sell_items-Sold sid sale.transaction_id sale.line_items (pos 0) db known)

-- How a sale has ended.
abbrev pub Sells : ℕ → Bool → SaleRequest → Db → Outcome Db SaleError (Option ℕ) → Type 0
Sells sid is_batch sale db (ok none db') =
    (is_batch ≡ true) × (has_transaction sale.transaction_id db.transactions ≡ true) × (db' ≡ db)
Sells sid is_batch sale db (ok (some i) db') =
    (i ≡ sale.transaction_id)
    × (has_transaction sale.transaction_id db.transactions ≡ false)
    × Takes sid sale db db'
Sells sid is_batch sale db (err SaleError.duplicate db') =
    (is_batch ≡ false) × (has_transaction sale.transaction_id db.transactions ≡ true)
Sells sid is_batch sale db (err SaleError.products_not_found db') =
    (has_transaction sale.transaction_id db.transactions ≡ false)
    × (all_of (is_known sid db) sale.line_items ≡ false)
Sells sid is_batch sale db (err e db') =
    (has_transaction sale.transaction_id db.transactions ≡ false)
    × (all_of (is_known sid db) sale.line_items ≡ true)
    × Makes sid sale db (err e db')

Makes-Sells :
    (sid : ℕ) (is_batch : Bool) (sale : SaleRequest) (db : Db) (r : Outcome Db SaleError (Option ℕ))
    → has_transaction sale.transaction_id db.transactions ≡ false
    → all_of (is_known sid db) sale.line_items ≡ true
    → Makes sid sale db r
    → Sells sid is_batch sale db r
Makes-Sells sid is_batch sale db (ok none db') new known (e, takes) = cc
Makes-Sells sid is_batch sale db (ok (some i) db') new known (e, takes) = (cc, new, takes)
Makes-Sells sid is_batch sale db (err SaleError.duplicate db') new known h = absurd h
Makes-Sells sid is_batch sale db (err SaleError.products_not_found db') new known h = absurd h
Makes-Sells sid is_batch sale db (err e db') new known h = (new, known, h)

-- A sale with a new id takes the sum of its quantities of each product off the stock and adds one
-- transaction, whose total is the sum of quantity times price less discount. A sale that is there
-- already changes nothing in a batch and is refused outside. A sale with a new id is refused only when
-- a product is missing; or, with all products there, when its customer is no row, when it is on
-- credit, or when its customer has a loyalty account in another store and none in this one.
pub process_single_transaction-Sells :
    (stored : ℕ → ℤ → ℤ) (new : NewIds) (is_batch : Bool) (sid : ℕ) (sale : SaleRequest) (db : Db)
    → Sells sid is_batch sale db (process_single_transaction stored new is_batch sid sale db)
unfolding process_single_transaction
process_single_transaction-Sells stored new is_batch sid sale db =
    elim (Bool-cases (has_transaction sale.transaction_id db.transactions)) [
      | inl t ↦ elim (Bool-cases is_batch) [
        | inl b ↦ rw (t, b) (refl, t, refl)
        | inr b ↦ rw (t, b) (refl, t)
      ]
      | inr t ↦ elim (Bool-cases (all_of (is_known sid db) sale.line_items)) [
        | inr k ↦ rw (t, k) (t, k)
        | inl k ↦
            rw (t, k)
              (Makes-Sells sid is_batch sale db (make_sale stored new sid sale db) t k
                (make_sale-Makes stored new sid sale db k))
      ]
    ]
