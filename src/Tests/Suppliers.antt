-- ===== src/Tests/Suppliers.antt =====
-- An order of two products, half received.
use retail_iq.Base.{◌≡◌, refl, none, some, List, [], ◌∷◌}
use retail_iq.Base.Int.{pos}
use retail_iq.Suppliers.{PoStatus, PurchaseOrder, Db, ReceiptRequest, receive_purchase_order}
use retail_iq.Suppliers.Receive.{Receives, receive_purchase_order-Receives}
use retail_iq.Suppliers.Lifecycle.{Request, Now, Moves, handle, handle-Moves, handle_terminal}

abbrev order : PoStatus → PurchaseOrder
order s = record {
  id = 5;
  store_id = 1;
  supplier_id = 2;
  status = s;
  expected_delivery_date = none;
  created_by = 3;
}

abbrev shop : PoStatus → Db
shop s = record {
  orders = order s ∷ [];
  items =
      record {
        po_id = 5;
        product_id = 10;
        ordered_qty = pos 4000;
        received_qty = some (pos 0);
        unit_price = pos 99;
      }
      ∷ record {
        po_id = 5;
        product_id = 11;
        ordered_qty = pos 1000;
        received_qty = none;
        unit_price = pos 50;
      }
      ∷ [];
  receipts = [];
  products =
      record { product_id = 10; store_id = 1; current_stock = none }
      ∷ record { product_id = 11; store_id = 1; current_stock = some (pos 7000) }
      ∷ [];
}

abbrev delivery : List ReceiptRequest
delivery = record { product_id = 10; received_qty = pos 4000 } ∷ []

receive_purchase_order-Receives_example :
    Receives 5 1 delivery
      (order PoStatus.sent)
      (shop PoStatus.sent)
      (receive_purchase_order 5 1 3 delivery (shop PoStatus.sent))
receive_purchase_order-Receives_example =
    receive_purchase_order-Receives 5 1 3 delivery (shop PoStatus.sent) {o = order PoStatus.sent}
      refl

handle-Moves_example :
    Now 5 1 (Moves PoStatus.sent) (handle 5 1 (Request.receive 3 delivery) (shop PoStatus.sent)).0
handle-Moves_example =
    handle-Moves 5 1 (Request.receive 3 delivery) (shop PoStatus.sent) {o = order PoStatus.sent}
      refl

handle_terminal_example :
    (handle 5 1 (Request.receive 3 delivery) (shop PoStatus.cancelled)).0 ≡ shop PoStatus.cancelled
handle_terminal_example =
    handle_terminal 5 1 (Request.receive 3 delivery) (shop PoStatus.cancelled)
      {o = order PoStatus.cancelled} refl refl
