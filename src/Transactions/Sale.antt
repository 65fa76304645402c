-- ===== src/Transactions/Sale.antt =====
-- app/transactions/services.py: `process_single_transaction` and `process_batch_transactions`. The
-- ids of rows that a sale may add are arguments, and so is the rounding of a column: `stored n x` is
-- what the database keeps of a value with n decimals more than the column has. The tasks that are
-- queued at the end are left out.
use retail_iq.Base.{
  ℕ, suc, Bool, true, false, ◌&&◌, Option, none, some, List, [], ◌∷◌, ◌==◌, if◌then◌else◌,
  find_first, update_first, all_of,
}
use retail_iq.Base.Int.{ℤ, pos, ◌+ℤ◌, ◌-ℤ◌, ◌*ℤ◌, ltb_ℤ}
use retail_iq.Base.Exec.{Exec, Outcome, ok, err, pure, modify, ◌>>=◌, ◌>>◌}
use retail_iq.Transactions.Models.{
  Product, PaymentMode, Transaction, TransactionItem, CreditLedger, CustomerLoyaltyAccount, Db,
  LineItem, SaleRequest, SaleError,
}
use retail_iq.Transactions.Gst.{line_total, or_zero, is_product, find_product, record_gst}

abbrev pub has_transaction : ℕ → List Transaction → Bool
has_transaction i [] = false
has_transaction i (t ∷ rest) = if t.transaction_id == i then true else has_transaction i rest

abbrev pub is_known : ℕ → Db → LineItem → Bool
is_known sid db item = elim (find_product sid item.product_id db) [ none ↦ false | some p ↦ true ]

-- A stock that is missing reads as 0.
abbrev pub stock_or_zero : Option ℤ → ℤ
stock_or_zero none = pos 0
stock_or_zero (some s) = s

abbrev pub take_stock : ℤ → Product → Product
take_stock quantity p = record p {
  current_stock = some (stock_or_zero p.current_stock -ℤ quantity);
}

-- `product.selling_price if product.selling_price else selling_price`
abbrev pub price_or : Option ℕ → ℕ → ℕ
price_or none other = other
price_or (some price) other = if price == 0 then other else price

abbrev pub sold_item : ℕ → LineItem → Product → TransactionItem
sold_item txn item p = record {
  transaction_id = txn;
  product_id = p.product_id;
  quantity = pos item.quantity;
  selling_price = item.selling_price;
  original_price = price_or p.selling_price item.selling_price;
  discount_amount = item.discount_amount;
  cost_price_at_time = or_zero p.cost_price;
}

abbrev pub sell : ℕ → ℕ → LineItem → Product → Db → Db
sell sid txn item p db = record db {
  products =
      update_first (is_product sid item.product_id) (take_stock (pos item.quantity)) db.products;
  items = sold_item txn item p ∷ db.items;
}

-- The loop over the line items, from a total on.
unfoldable pub sell_items : ℕ → ℕ → List LineItem → ℤ → Exec Db SaleError ℤ
sell_items sid txn [] total db = ok total db
sell_items sid txn (item ∷ rest) total db = elim (find_product sid item.product_id db) [
  | none ↦ err SaleError.key_error db
  | some p ↦ sell_items sid txn rest (total +ℤ line_total item) (sell sid txn item p db)
]

-- `if customer_id`: neither missing nor 0.
abbrev pub truthy : Option ℕ → Option ℕ
truthy none = none
truthy (some i) = if i == 0 then none else some i

abbrev pub is_ledger_of : ℕ → ℕ → CreditLedger → Bool
is_ledger_of customer sid l = l.customer_id == customer && l.store_id == sid

abbrev pub new_ledger : ℕ → ℕ → ℕ → CreditLedger
new_ledger i customer sid = record {
  id = i;
  customer_id = customer;
  store_id = sid;
  balance = pos 0;
  credit_limit = pos 0;
}

unfoldable pub ensure_ledger : ℕ → ℕ → ℕ → Exec Db SaleError CreditLedger
ensure_ledger i customer sid db = elim (find_first (is_ledger_of customer sid) db.ledgers) [
  | none ↦
      ok (new_ledger i customer sid)
        (record db { ledgers = new_ledger i customer sid ∷ db.ledgers })
  | some l ↦ ok l db
]

abbrev pub set_balance : ℤ → CreditLedger → CreditLedger
set_balance balance l = record l { balance = balance }

abbrev pub charge : (ℕ → ℤ → ℤ) → ℕ → ℕ → ℕ → ℤ → CreditLedger → Db → Db
charge stored customer sid txn total l db =
    let balance = stored 3 (l.balance *ℤ pos 1000 +ℤ total) in
    record db {
      ledgers = update_first (is_ledger_of customer sid) (set_balance balance) db.ledgers;
      credit_transactions =
          record {
            ledger_id = l.id;
            transaction_id = txn;
            amount = stored 3 total;
            balance_after = balance;
          }
          ∷ db.credit_transactions;
    }

abbrev pub extend_credit : (ℕ → ℤ → ℤ) → ℕ → ℕ → ℕ → ℤ → CreditLedger → Exec Db SaleError (Unit {0})
extend_credit stored customer sid txn total l db =
    if ltb_ℤ (l.credit_limit *ℤ pos 1000) (l.balance *ℤ pos 1000 +ℤ total)
    then err SaleError.credit_limit db
    else ok tt (charge stored customer sid txn total l db)

unfoldable pub sell_on_credit : (ℕ → ℤ → ℤ) → ℕ → ℕ → ℕ → ℕ → ℤ → Exec Db SaleError (Unit {0})
sell_on_credit stored i customer sid txn total = do
  l ← ensure_ledger i customer sid
  extend_credit stored customer sid txn total l

abbrev pub is_credit : PaymentMode → Bool
is_credit PaymentMode.credit = true
is_credit _ = false

-- The credit part of a sale.
abbrev pub take_credit :
    (ℕ → ℤ → ℤ) → ℕ → ℕ → PaymentMode → Option ℕ → ℕ → ℤ → Exec Db SaleError (Unit {0})
take_credit stored i sid mode none txn total = pure tt
take_credit stored i sid mode (some customer) txn total =
    if is_credit mode then sell_on_credit stored i customer sid txn total else pure tt

abbrev pub is_account_of : ℕ → ℕ → CustomerLoyaltyAccount → Bool
is_account_of customer sid a = a.customer_id == customer && a.store_id == sid

abbrev pub new_account : ℕ → ℕ → ℕ → CustomerLoyaltyAccount
new_account i customer sid = record {
  id = i;
  customer_id = customer;
  store_id = sid;
  total_points = pos 0;
  redeemable_points = pos 0;
  lifetime_earned = pos 0;
}

abbrev pub has_account : ℕ → List CustomerLoyaltyAccount → Bool
has_account customer [] = false
has_account customer (a ∷ rest) =
    if a.customer_id == customer then true else has_account customer rest

-- A customer has one account: a new one fails if another store has one.
unfoldable pub ensure_account : ℕ → ℕ → ℕ → Exec Db SaleError CustomerLoyaltyAccount
ensure_account i customer sid db = elim (find_first (is_account_of customer sid) db.accounts) [
  | none ↦
      if has_account customer db.accounts
      then err SaleError.account_elsewhere db
      else ok (new_account i customer sid)
          (record db { accounts = new_account i customer sid ∷ db.accounts })
  | some a ↦ ok a db
]

-- `points` has seven decimals more than the columns.
abbrev pub plus_points : (ℕ → ℤ → ℤ) → ℤ → ℤ → ℤ
plus_points stored points old = stored 7 (old *ℤ pos 10000000 +ℤ points)

abbrev pub earned : (ℕ → ℤ → ℤ) → ℤ → CustomerLoyaltyAccount → CustomerLoyaltyAccount
earned stored points a = record a {
  total_points = plus_points stored points a.total_points;
  redeemable_points = plus_points stored points a.redeemable_points;
  lifetime_earned = plus_points stored points a.lifetime_earned;
}

abbrev pub earn : (ℕ → ℤ → ℤ) → ℕ → ℕ → ℕ → ℤ → CustomerLoyaltyAccount → Db → Db
earn stored customer sid txn points a db = record db {
  accounts = update_first (is_account_of customer sid) (earned stored points) db.accounts;
  loyalty_transactions =
      record {
        account_id = a.id;
        transaction_id = txn;
        points = stored 7 points;
        balance_after = (earned stored points a).total_points;
      }
      ∷ db.loyalty_transactions;
}

abbrev pub earn_points : (ℕ → ℤ → ℤ) → ℕ → ℕ → ℕ → ℕ → ℤ → Exec Db SaleError (Unit {0})
earn_points stored i customer sid txn points = do
  a ← ensure_account i customer sid
  modify (earn stored customer sid txn points a)

-- The loyalty part of a sale.
abbrev pub award_points : (ℕ → ℤ → ℤ) → ℕ → ℕ → Option ℕ → ℕ → ℤ → Exec Db SaleError (Unit {0})
award_points stored i sid none txn total db = ok tt db
award_points stored i sid (some customer) txn total db =
    elim (find_first (λ p. p.store_id == sid && p.is_active) db.programs) [
      | none ↦ ok tt db
      | some p ↦
          let points = total *ℤ pos p.points_per_rupee in
          if ltb_ℤ (pos 0) points then earn_points stored i customer sid txn points db else ok tt db
    ]

abbrev pub sale_row : ℕ → SaleRequest → ℤ → Transaction
sale_row sid sale total = record {
  transaction_id = sale.transaction_id;
  store_id = sid;
  customer_id = sale.customer_id;
  payment_mode = sale.payment_mode;
  is_return = false;
  original_transaction_id = none;
  total_amount = total;
}

abbrev pub add_transaction : Transaction → Db → Db
add_transaction t db = record db { transactions = t ∷ db.transactions }

-- The ids that a sale gives to a new credit ledger and a new loyalty account.
pub record NewIds : Type 0 where
  pub ledger : ℕ
  pub account : ℕ

abbrev pub has_customer : ℕ → List ℕ → Bool
has_customer i [] = false
has_customer i (c ∷ cs) = if c == i then true else has_customer i cs

-- The first query after the loop sends the row of the sale, whose customer has to be a row.
abbrev pub flush : Option ℕ → Exec Db SaleError (Unit {0})
flush none db = ok tt db
flush (some i) db = if has_customer i db.customers then ok tt db else err SaleError.no_customer db

-- A sale whose id is new and whose products are there.
unfoldable pub make_sale : (ℕ → ℤ → ℤ) → NewIds → ℕ → SaleRequest → Exec Db SaleError (Option ℕ)
make_sale stored new sid sale = do
  let txn = sale.transaction_id
  let customer = truthy sale.customer_id
  total ← sell_items sid txn sale.line_items (pos 0)
  flush sale.customer_id
  take_credit stored new.ledger sid sale.payment_mode customer txn total
  award_points stored new.account sid customer txn total
  modify (record_gst sid sale)
  modify (add_transaction (sale_row sid sale total))
  pure (some txn)

-- The id of the new transaction, or `none` for a sale of a batch that is already there.
unfoldable pub process_single_transaction :
    (ℕ → ℤ → ℤ) → NewIds → Bool → ℕ → SaleRequest → Exec Db SaleError (Option ℕ)
process_single_transaction stored new is_batch sid sale db =
    if has_transaction sale.transaction_id db.transactions
    then if is_batch then ok none db else err SaleError.duplicate db
    else if all_of (is_known sid db) sale.line_items
    then make_sale stored new sid sale db
    else err SaleError.products_not_found db

pub record BatchReport : Type 0 where
  pub accepted : ℕ
  pub rejected : ℕ
  pub errors : List (ℕ × SaleError)

-- A sale that raises is rolled back to its savepoint.
abbrev pub count_sale :
    SaleRequest → Db → BatchReport → Outcome Db SaleError (Option ℕ) → BatchReport × Db
count_sale sale before r (ok none db) = (r, db)
count_sale sale before r (ok (some i) db) = (record r { accepted = suc r.accepted }, db)
count_sale sale before r (err e db) =
    (record r { rejected = suc r.rejected; errors = (sale.transaction_id, e) ∷ r.errors }, before)

unfoldable pub process_batch :
    (ℕ → ℤ → ℤ) → ℕ → List (NewIds × SaleRequest) → BatchReport → Db → BatchReport × Db
process_batch stored sid [] r db = (r, db)
process_batch stored sid ((new, sale) ∷ rest) r db =
    let (r', db') = count_sale sale db r (process_single_transaction stored new true sid sale db) in
    process_batch stored sid rest r' db'
