-- ===== src/Decisions/Models.antt =====
-- app/decisions/rules.py: what a rule returns.
use retail_iq.Base.{ℕ, Bool, Option}

pub data RuleName : Type 0 where
  reorder_alert safety_stock_reorder slow_mover revenue_drop high_margin_opportunity : RuleName

pub record Rule : Type 0 where
  pub rule_name : RuleName
  pub product_id : Option ℕ
  pub confidence : ℕ
  pub priority : ℕ
  pub time_sensitive : Bool
