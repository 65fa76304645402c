-- ===== src/Marketplace.antt =====
-- Orders from suppliers and the tracking of shipments (app/marketplace).
pub mod Models
pub mod Orders
pub mod Tracking
pub mod Lines
pub mod Places
pub mod Course
