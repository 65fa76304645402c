-- ===== src/Inventory/Requests.antt =====
-- The inventory's handlers as one function of a request.
use retail_iq.Base.{ℕ, Option, List}
use retail_iq.Base.Exec.{final}
use retail_iq.Inventory.Models.{Db, ProductCreate, ProductUpdate, StockUpdate, Count}
use retail_iq.Inventory.Products.{create_product, update_product, delete_product, dismiss_alert}
use retail_iq.Inventory.Stock.{stock_update, stock_audit}

pub data Request : Type 0 where
  create : ProductCreate → Request
  update : ℕ → ProductUpdate → Request
  delete : ℕ → Request
  deliver : ℕ → StockUpdate → Request
  audit : List Count → Option ℕ → Request
  dismiss : ℕ → ℕ → Request

-- The database that a request of a store's user leaves.
unfoldable pub serve : ℕ → ℕ → Request → Db → Db
serve store user (Request.create r) db = final (create_product store user r db)
serve store user (Request.update pid r) db = final (update_product store user pid r db)
serve store user (Request.delete pid) db = final (delete_product store pid db)
serve store user (Request.deliver pid r) db = final (stock_update store user pid r db)
serve store user (Request.audit items notes) db = final (stock_audit store user items notes db)
serve store user (Request.dismiss now aid) db = final (dismiss_alert now store aid db)
