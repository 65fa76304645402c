-- ===== src/TaxEngine.antt =====
-- Taxes by country (app/tax_engine).
pub mod Models
pub mod Calculators
pub mod Splits
