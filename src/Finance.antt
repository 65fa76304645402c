-- ===== src/Finance.antt =====
-- app/finance: the merchant's books and the services that post to them.
pub mod Models
pub mod Ledger
pub mod Loan
pub mod Treasury
pub mod Insurance
pub mod Credit
