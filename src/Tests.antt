-- ===== src/Tests.antt =====
-- Tests: runs of the definitions on concrete data, and the theorems applied to it.
mod Finance
mod Suppliers
mod Loyalty
mod Gst
mod Transactions
mod Auth
mod Inventory
mod Decisions
mod Webhooks
mod Pricing
mod TaxEngine
mod Marketplace
