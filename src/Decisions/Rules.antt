-- ===== src/Decisions/Rules.antt =====
-- app/decisions/rules.py and app/decisions/helpers.py. Quantities are integers of thousandths,
-- amounts and confidences of hundredths; rationales are left out. The
-- safety stock of `reorder_alert`, with a standard deviation and a square root, is a parameter.
use retail_iq.Base.{
  ℕ, zero, suc, ◌-◌, Bool, true, false, ◌&&◌, ◌||◌, Option, none, some, List, [], ◌∷◌, ◌==◌, ltb,
  leb, if◌then◌else◌, length,
}
use retail_iq.Base.Int.{ℤ, pos, ◌+ℤ◌, ◌-ℤ◌, ◌*ℤ◌, ltb_ℤ, leb_ℤ, eqb_ℤ}
use retail_iq.Decisions.Models.{RuleName, Rule}

-- The context of one product. Missing numbers are zero, as the rules read them.
pub record Facts : Type 0 where
  pub product_id : Option ℕ
  pub current_stock : ℤ
  pub reorder_level : ℤ
  pub units_sold_30d : List ℤ
  pub store_revenue_today : ℤ
  pub store_revenue_7d_ma : ℤ
  pub margin_pct : ℤ
  pub in_top_20_pct : Bool
  pub is_volatile : Bool
  pub lead_time_days : ℤ
  pub forecast_demand_7d : ℤ

unfoldable pub safety_stock_reorder : Facts → Option Rule
safety_stock_reorder ctx =
    if leb_ℤ ctx.current_stock ctx.reorder_level
    then some (record {
      rule_name = RuleName.safety_stock_reorder;
      product_id = ctx.product_id;
      confidence = 95;
      priority = 5;
      time_sensitive = true;
    })
    else none

abbrev pub sum : List ℤ → ℤ
sum [] = pos 0
sum (x ∷ xs) = x +ℤ sum xs

-- At least a day.
abbrev pub lead_time : Facts → ℤ
lead_time ctx = if leb_ℤ ctx.lead_time_days (pos 0) then pos 1 else ctx.lead_time_days

-- `safety` is 1.65 times the history's deviation times the root of the lead time.
unfoldable pub reorder_alert : (List ℤ → ℤ → ℤ) → Facts → Option Rule
reorder_alert safety ctx =
    if ctx.is_volatile || ltb (length ctx.units_sold_30d) 14
    then none
    else if ltb_ℤ (pos 0)
        ((ctx.forecast_demand_7d +ℤ safety ctx.units_sold_30d (lead_time ctx)) -ℤ ctx.current_stock)
    then some (record {
      rule_name = RuleName.reorder_alert;
      product_id = ctx.product_id;
      confidence = if leb 21 (length ctx.units_sold_30d) then 85 else 50;
      priority = 4;
      time_sensitive = true;
    })
    else none

unfoldable pub slow_mover : Facts → Option Rule
slow_mover ctx =
    if length ctx.units_sold_30d == 30
      && eqb_ℤ (sum ctx.units_sold_30d) (pos 0)
      && ltb_ℤ (pos 0) ctx.current_stock
    then some (record {
      rule_name = RuleName.slow_mover;
      product_id = ctx.product_id;
      confidence = 90;
      priority = 2;
      time_sensitive = false;
    })
    else none

-- Less than 70 per cent of the trailing average.
unfoldable pub revenue_drop : Facts → Option Rule
revenue_drop ctx =
    if ltb_ℤ (pos 0) ctx.store_revenue_7d_ma
      && ltb_ℤ (pos 10 *ℤ ctx.store_revenue_today) (pos 7 *ℤ ctx.store_revenue_7d_ma)
    then some (record {
      rule_name = RuleName.revenue_drop;
      product_id = none;
      confidence = 80;
      priority = 3;
      time_sensitive = true;
    })
    else none

unfoldable pub high_margin_opportunity : Facts → Option Rule
high_margin_opportunity ctx =
    if ltb_ℤ (pos 3000) ctx.margin_pct && ctx.in_top_20_pct
    then some (record {
      rule_name = RuleName.high_margin_opportunity;
      product_id = ctx.product_id;
      confidence = 75;
      priority = 1;
      time_sensitive = false;
    })
    else none

-- A row of daily figures: a day and its value.
pub record DayValue : Type 0 where
  pub date : ℕ
  pub value : ℤ

-- `data_map.get(day, 0.0)`; of two rows of one day the map keeps the later.
abbrev pub value_on : ℕ → List DayValue → ℤ → ℤ
value_on day [] found = found
value_on day (r ∷ rs) found = value_on day rs (if r.date == day then r.value else found)

-- The days from `day` on, so many of them.
abbrev pub fill : List DayValue → ℕ → ℕ → List ℤ
fill raw day zero = []
fill raw day (suc n) = value_on day raw (pos 0) ∷ fill raw (suc day) n

-- Days are numbers, and today is at least the window.
unfoldable pub get_zero_filled_history : List DayValue → ℕ → ℕ → List ℤ
get_zero_filled_history raw today window = fill raw (today - window) window
