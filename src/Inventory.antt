-- ===== src/Inventory.antt =====
-- Products, their stock and prices, stock counts and alerts (app/inventory).
pub mod Models
pub mod Products
pub mod Stock
pub mod Alerts
pub mod Prices
pub mod Audit
pub mod Requests
