-- ===== src/Loyalty.antt =====
-- The loyalty programs, the points of the customers and their credit (app/loyalty/routes.py).
pub mod Models
pub mod Tiers
pub mod Accounts
pub mod Reconciled
pub mod Calls
pub mod Requests
pub mod Redeem
pub mod Repay
pub mod TierIntegrity
