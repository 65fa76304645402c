-- ===== src/Transactions/Refund.antt =====
-- app/transactions/services.py: `process_return_transaction`. The id of the return is an argument;
-- the task that is queued at the end is left out.
use retail_iq.Base.{
  ℕ, Bool, true, ◌&&◌, Option, none, some, List, [], ◌∷◌, ◌==◌, if◌then◌else◌, find_first,
  update_first,
}
use retail_iq.Base.Int.{ℤ, pos, neg, ◌+ℤ◌, ltb_ℤ}
use retail_iq.Base.Exec.{Exec, ok, err, pure, modify, ◌>>◌}
use retail_iq.Transactions.Models.{Product, Transaction, TransactionItem, Db, ReturnItem, SaleError}
use retail_iq.Transactions.Gst.{is_product}
use retail_iq.Transactions.Sale.{stock_or_zero, add_transaction}

abbrev pub find_original : ℕ → ℕ → Db → Option Transaction
find_original i sid db =
    find_first (λ t. t.transaction_id == i && t.store_id == sid) db.transactions

abbrev pub is_item_of : ℕ → ℕ → TransactionItem → Bool
is_item_of txn product i = i.transaction_id == txn && i.product_id == product

-- `orig_item_map`: of several items with one product the dict keeps the last added, which is the
-- first of this list.
abbrev pub original_item : ℕ → ℕ → Db → Option TransactionItem
original_item txn product db = find_first (is_item_of txn product) db.items

abbrev pub put_stock : ℤ → Product → Product
put_stock quantity p = record p { current_stock = some (stock_or_zero p.current_stock +ℤ quantity) }

abbrev pub returned_item : ℕ → ReturnItem → TransactionItem → TransactionItem
returned_item txn r original = record {
  transaction_id = txn;
  product_id = r.product_id;
  quantity = neg (pos r.quantity_returned);
  selling_price = original.selling_price;
  original_price = original.original_price;
  discount_amount = pos 0;
  cost_price_at_time = original.cost_price_at_time;
}

-- A product that is gone gets no stock back.
abbrev pub take_back : ℕ → ℕ → ReturnItem → TransactionItem → Db → Db
take_back sid txn r original db = record db {
  products =
      update_first (is_product sid r.product_id) (put_stock (pos r.quantity_returned)) db.products;
  items = returned_item txn r original ∷ db.items;
}

-- The loop over the returned items. The items of the original sale are those that `before` has.
unfoldable pub return_items : ℕ → ℕ → ℕ → Db → List ReturnItem → Exec Db SaleError (Unit {0})
return_items sid original txn before [] db = ok tt db
return_items sid original txn before (r ∷ rest) db =
    elim (original_item original r.product_id before) [
      | none ↦ err SaleError.not_in_original db
      | some item ↦
          let rest_of = return_items sid original txn before rest (take_back sid txn r item db) in
          if ltb_ℤ item.quantity (pos r.quantity_returned)
          then err SaleError.too_many db
          else rest_of
    ]

abbrev pub return_row : ℕ → ℕ → Transaction → Transaction
return_row sid txn original = record {
  transaction_id = txn;
  store_id = sid;
  customer_id = original.customer_id;
  payment_mode = original.payment_mode;
  is_return = true;
  original_transaction_id = some original.transaction_id;
  total_amount = pos 0;
}

unfoldable pub process_return_transaction : ℕ → ℕ → List ReturnItem → ℕ → Exec Db SaleError ℕ
process_return_transaction original txn items sid db = elim (find_original original sid db) [
  | none ↦ err SaleError.no_original db
  | some t ↦
      (do
        modify (add_transaction (return_row sid txn t))
        return_items sid original txn db items
        pure txn)
        db
]
