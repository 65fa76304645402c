-- ===== src/Decisions.antt =====
-- Recommendations (app/decisions).
pub mod Models
pub mod Context
pub mod Rules
pub mod Ranking
pub mod Sorted
pub mod Best
pub mod Complete
pub mod Days
