-- ===== src/Pricing.antt =====
-- Price suggestions and pricing rules (app/pricing).
pub mod Models
pub mod Engine
pub mod Routes
pub mod Margins
pub mod Actioned
