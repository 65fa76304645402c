-- ===== src/Transactions.antt =====
-- Sales, returns and batches of them (app/transactions/services.py).
pub mod Models
pub mod Gst
pub mod Sale
pub mod Refund
pub mod Stock
pub mod Frame
pub mod Sells
pub mod Credit
pub mod Tax
pub mod Batch
pub mod Returns
