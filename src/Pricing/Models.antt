-- ===== src/Pricing/Models.antt =====
-- The rows of app/models that app/pricing reads and writes, over the products of Inventory. Amounts
-- and index values are hundredths; percentages of a suggestion are hundredths of a per cent.
use retail_iq.Base.{ℕ, Bool, Option, List}
use retail_iq.Base.Int.{ℤ}
use retail_iq.Inventory.Models.{Product}

pub data Status : Type 0 where
  pending applied dismissed : Status

pub record PricingSuggestion : Type 0 where
  pub id : ℕ
  pub product_id : ℕ
  pub store_id : ℕ
  pub suggested_price : Option ℤ
  pub current_price : Option ℤ
  pub status : Status
  pub actioned_at : Option ℕ

pub record PricingRule : Type 0 where
  pub id : ℕ
  pub store_id : ℕ
  pub rule_type : ℕ
  pub parameters : ℕ
  pub is_active : Bool

-- A row of the price history as `apply_suggestion` writes it; the reason is the suggestion's id.
pub record PriceChange : Type 0 where
  pub product_id : ℕ
  pub store_id : ℕ
  pub old_price : Option ℤ
  pub new_price : ℤ
  pub cost_price : Option ℤ
  pub suggestion_id : ℕ
  pub changed_by : ℕ

pub record PriceIndex : Type 0 where
  pub category_id : ℕ
  pub computed_at : ℕ
  pub index_value : ℤ

-- The newest row of the history is its first.
pub record Db : Type 0 where
  pub products : List Product
  pub suggestions : List PricingSuggestion
  pub rules : List PricingRule
  pub history : List PriceChange
  pub next_rule : ℕ

pub data Objective : Type 0 where
  profit revenue volume : Objective

pub data Kind : Type 0 where
  raise lower stable : Kind

-- What the engine says of a product.
pub record Suggestion : Type 0 where
  pub product_id : ℕ
  pub current_price : ℤ
  pub suggested_price : ℤ
  pub kind : Kind
  pub price_change_pct : ℤ
  pub expected_margin_pct : ℤ
  pub inflation_support : Option Bool

pub data Problem : Type 0 where
  not_found already_actioned product_not_found missing_field server_error : Problem
