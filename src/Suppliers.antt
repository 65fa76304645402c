-- ===== src/Suppliers.antt =====
-- app/suppliers/routes.py: the purchase orders of a store and the receipt of goods. Quantities are
-- thousandths (`Numeric(12, 3)`), prices paise; notes, timestamps and the JSON of replies are left out.
pub mod Receive
pub mod Lifecycle
use retail_iq.Base.{
  ℕ, Bool, true, false, not, ◌&&◌, Option, none, some, List, [], ◌∷◌, ◌++◌, ◌==◌, if◌then◌else◌,
  find_first, update_first, select, all_of, is_empty,
}
use retail_iq.Base.Int.{ℤ, pos, ◌+ℤ◌, leb_ℤ}
use retail_iq.Base.Exec.{Exec, Outcome, ok, err, ok, err, pure, gets, or_raise, modify, ◌>>=◌, ◌>>◌}

pub data PoStatus : Type 0 where
  draft sent confirmed fulfilled cancelled : PoStatus

pub record PurchaseOrder : Type 0 where
  pub id : ℕ
  pub store_id : ℕ
  pub supplier_id : ℕ
  pub status : PoStatus
  pub expected_delivery_date : Option ℕ
  pub created_by : ℕ

pub record PurchaseOrderItem : Type 0 where
  pub po_id : ℕ
  pub product_id : ℕ
  pub ordered_qty : ℤ
  pub received_qty : Option ℤ
  pub unit_price : ℤ

pub record GoodsReceiptNote : Type 0 where
  pub po_id : ℕ
  pub store_id : ℕ
  pub received_by : ℕ

pub record Product : Type 0 where
  pub product_id : ℕ
  pub store_id : ℕ
  pub current_stock : Option ℤ

pub record Db : Type 0 where
  pub orders : List PurchaseOrder
  pub items : List PurchaseOrderItem
  pub receipts : List GoodsReceiptNote
  pub products : List Product

-- The error texts of the handlers.
pub data Problem : Type 0 where
  not_found items_required invalid_supplier invalid_date : Problem
  only_draft_sent empty_order only_draft_updated only_sent_confirmed cannot_receive : Problem
  cannot_cancel not_in_order unknown_product : Problem

pub data Reply : Type 0 where
  success : ℕ → Reply
  failure : Problem → ℕ → Reply

-- A date in a request: what `date.fromisoformat` reads, or a text that it refuses.
pub data DateText : Type 0 where
  empty invalid : DateText
  valid : ℕ → DateText

pub record ItemRequest : Type 0 where
  pub product_id : ℕ
  pub ordered_qty : ℤ
  pub unit_price : ℤ

pub record ReceiptRequest : Type 0 where
  pub product_id : ℕ
  pub received_qty : ℤ

abbrev pub is_order : ℕ → ℕ → PurchaseOrder → Bool
is_order po sid o = o.id == po && o.store_id == sid

abbrev pub find_order : ℕ → ℕ → Db → Option PurchaseOrder
find_order po sid db = find_first (is_order po sid) db.orders

abbrev pub items_of : ℕ → Db → List PurchaseOrderItem
items_of po db = select (λ i. i.po_id == po) db.items

abbrev pub set_status : PoStatus → PurchaseOrder → PurchaseOrder
set_status s o = record o { status = s }

abbrev pub is_draft : PoStatus → Bool
is_draft PoStatus.draft = true
is_draft _ = false

abbrev pub is_sent : PoStatus → Bool
is_sent PoStatus.sent = true
is_sent _ = false

-- `po.status in ("SENT", "CONFIRMED")`
abbrev pub is_receivable : PoStatus → Bool
is_receivable PoStatus.sent = true
is_receivable PoStatus.confirmed = true
is_receivable _ = false

-- `po.status in ("DRAFT", "SENT")`
abbrev pub is_cancellable : PoStatus → Bool
is_cancellable PoStatus.draft = true
is_cancellable PoStatus.sent = true
is_cancellable _ = false

abbrev pub order_item : ℕ → ItemRequest → PurchaseOrderItem
order_item po i = record {
  po_id = po;
  product_id = i.product_id;
  ordered_qty = i.ordered_qty;
  received_qty = some (pos 0);
  unit_price = i.unit_price;
}

abbrev pub order_items : ℕ → List ItemRequest → List PurchaseOrderItem
order_items po [] = []
order_items po (i ∷ rest) = order_item po i ∷ order_items po rest

-- The new order's UUID is an argument; a supplier id that is no UUID is `none`.
unfoldable pub create_purchase_order :
    ℕ → ℕ → ℕ → Option (Option ℕ) → DateText → List ItemRequest → Db → Db × Reply
create_purchase_order po sid uid none edd items db = (db, failure Problem.items_required 422)
create_purchase_order po sid uid (some supplier) edd [] db =
    (db, failure Problem.items_required 422)
create_purchase_order po sid uid (some none) edd (i ∷ rest) db =
    (db, failure Problem.invalid_supplier 422)
create_purchase_order po sid uid (some (some supplier)) edd (i ∷ rest) db =
    let created = λ (d : Option ℕ). record db {
      orders =
          record {
            id = po;
            store_id = sid;
            supplier_id = supplier;
            status = PoStatus.draft;
            expected_delivery_date = d;
            created_by = uid;
          }
          ∷ db.orders;
      items = order_items po (i ∷ rest) ++ db.items;
    } in
    elim edd [
      | DateText.empty ↦ (created none, success 201)
      | DateText.invalid ↦ (db, failure Problem.invalid_date 422)
      | DateText.valid d ↦ (created (some d), success 201)
    ]

-- The order is written back and the session committed.
abbrev pub update_order : ℕ → ℕ → (PurchaseOrder → PurchaseOrder) → Db → Db
update_order po sid f db = record db { orders = update_first (is_order po sid) f db.orders }

unfoldable pub send_purchase_order : ℕ → ℕ → Db → Db × Reply
send_purchase_order po sid db = elim (find_order po sid db) [
  | none ↦ (db, failure Problem.not_found 404)
  | some o ↦
      if not (is_draft o.status)
      then (db, failure Problem.only_draft_sent 422)
      else if is_empty (items_of o.id db)
      then (db, failure Problem.empty_order 422)
      else (update_order po sid (set_status PoStatus.sent) db, success 200)
]

abbrev pub set_date : Option ℕ → PurchaseOrder → PurchaseOrder
set_date d o = record o { expected_delivery_date = d }

-- The delivery date, if the key is there; `none` is the reply for a text that is no date.
abbrev pub update_date : ℕ → ℕ → Option DateText → Db → Option Db
update_date po sid none db = some db
update_date po sid (some DateText.empty) db = some (update_order po sid (set_date none) db)
update_date po sid (some DateText.invalid) db = none
update_date po sid (some (DateText.valid d)) db = some (update_order po sid (set_date (some d)) db)

-- The items, if the key is there: the old ones are deleted.
abbrev pub replace_items : ℕ → Option (List ItemRequest) → Db → Db
replace_items po none db = db
replace_items po (some items) db = record db {
  items = order_items po items ++ select (λ i. not (i.po_id == po)) db.items;
}

-- The reply to an update, by how the date was read.
abbrev pub edited : ℕ → Option (List ItemRequest) → Db → Option Db → Db × Reply
edited po items db none = (db, failure Problem.invalid_date 422)
edited po items db (some db') = (replace_items po items db', success 200)

unfoldable pub update_purchase_order :
    ℕ → ℕ → Option DateText → Option (List ItemRequest) → Db → Db × Reply
update_purchase_order po sid edd items db = elim (find_order po sid db) [
  | none ↦ (db, failure Problem.not_found 404)
  | some o ↦
      if not (is_draft o.status)
      then (db, failure Problem.only_draft_updated 422)
      else edited o.id items db (update_date po sid edd db)
]

abbrev pub or_zero : Option ℤ → ℤ
or_zero none = pos 0
or_zero (some q) = q

abbrev pub is_item : ℕ → ℕ → PurchaseOrderItem → Bool
is_item po product i = i.po_id == po && i.product_id == product

abbrev pub is_product : ℕ → ℕ → Product → Bool
is_product product sid p = p.product_id == product && p.store_id == sid

abbrev pub receive_qty : ℤ → PurchaseOrderItem → PurchaseOrderItem
receive_qty q i = record i { received_qty = some (or_zero i.received_qty +ℤ q) }

abbrev pub add_stock : ℤ → Product → Product
add_stock q p = record p { current_stock = some (or_zero p.current_stock +ℤ q) }

-- One round of the loop of `receive_purchase_order`.
abbrev pub receive_item : ℕ → ℕ → ReceiptRequest → Exec Db Problem (Unit {0})
receive_item po sid r = do
  poi ← or_raise (← gets (λ db. find_first (is_item po r.product_id) db.items)) Problem.not_in_order
  modify (λ db. record db {
    items = update_first (is_item po r.product_id) (receive_qty r.received_qty) db.items;
  })
  product ←
      or_raise (← gets (λ db. find_first (is_product r.product_id sid) db.products))
        Problem.unknown_product
  modify (λ db. record db {
    products = update_first (is_product r.product_id sid) (add_stock r.received_qty) db.products;
  })

unfoldable pub receive_items : ℕ → ℕ → List ReceiptRequest → Exec Db Problem (Unit {0})
receive_items po sid [] = pure tt
receive_items po sid (r ∷ rest) = receive_item po sid r >> receive_items po sid rest

-- `float(i.received_qty or 0) >= float(i.ordered_qty)`
abbrev pub is_complete : PurchaseOrderItem → Bool
is_complete i = leb_ℤ i.ordered_qty (or_zero i.received_qty)

-- The block under `begin_nested`.
abbrev pub receive_goods : ℕ → ℕ → ℕ → List ReceiptRequest → Exec Db Problem (Unit {0})
receive_goods po sid uid requests = do
  modify (λ db. record db {
    receipts = record { po_id = po; store_id = sid; received_by = uid } ∷ db.receipts;
  })
  receive_items po sid requests
  modify (λ db.
      if all_of is_complete (items_of po db)
      then update_order po sid (set_status PoStatus.fulfilled) db
      else db)

-- The session is committed, or rolled back when the block raises.
abbrev pub settle : Db → Outcome Db Problem (Unit {0}) → Db × Reply
settle db (ok u db') = (db', success 200)
settle db (err e db') = (db, failure e 422)

unfoldable pub receive_purchase_order : ℕ → ℕ → ℕ → List ReceiptRequest → Db → Db × Reply
unfolding receive_items
receive_purchase_order po sid uid [] db = (db, failure Problem.items_required 422)
receive_purchase_order po sid uid (r ∷ rest) db = elim (find_order po sid db) [
  | none ↦ (db, failure Problem.not_found 404)
  | some o ↦
      if not (is_receivable o.status)
      then (db, failure Problem.cannot_receive 422)
      else settle db (receive_goods po sid uid (r ∷ rest) db)
]

unfoldable pub confirm_purchase_order : ℕ → ℕ → Db → Db × Reply
confirm_purchase_order po sid db = elim (find_order po sid db) [
  | none ↦ (db, failure Problem.not_found 404)
  | some o ↦
      if not (is_sent o.status)
      then (db, failure Problem.only_sent_confirmed 422)
      else (update_order po sid (set_status PoStatus.confirmed) db, success 200)
]

unfoldable pub cancel_purchase_order : ℕ → ℕ → Db → Db × Reply
cancel_purchase_order po sid db = elim (find_order po sid db) [
  | none ↦ (db, failure Problem.not_found 404)
  | some o ↦
      if not (is_cancellable o.status)
      then (db, failure Problem.cannot_cancel 422)
      else (update_order po sid (set_status PoStatus.cancelled) db, success 200)
]
