-- ===== src/Tests/Decisions.antt =====
-- Two findings about one product, one shop with a product that runs low, and a history with gaps.
use retail_iq.Base.{
  ℕ, ◌+◌, ◌≤◌, ◌<◌, ◌≡◌, refl, Bool, true, false, none, some, List, [], ◌∷◌, length, Any, inl, ◌⊎◌,
  select,
}
use retail_iq.Base.Int.{ℤ, pos}
use retail_iq.Inventory.Models.{Product}
use retail_iq.Decisions.Models.{RuleName, Rule}
use retail_iq.Decisions.Rules.{DayValue, get_zero_filled_history}
use retail_iq.Decisions.Ranking.{dedup_and_sort, sort, dedup, keep_best, insert}
use retail_iq.Decisions.Context.{is_low, build_context, evaluate_rules}
use retail_iq.Decisions.Best.{Best, dedup_and_sort-Best}
use retail_iq.Decisions.Complete.{Suggests, recommends_every_low}
use retail_iq.Decisions.Days.{entry, IsFigure, get_zero_filled_history_days}

abbrev finding : RuleName → ℕ → ℕ → Bool → Rule
finding name confidence priority urgent = record {
  rule_name = name;
  product_id = some 1;
  confidence = confidence;
  priority = priority;
  time_sensitive = urgent;
}

abbrev findings : List Rule
findings =
    finding RuleName.slow_mover 50 2 false
    ∷ finding RuleName.reorder_alert 85 4 true
    ∷ finding RuleName.slow_mover 90 2 false
    ∷ []

ranked :
    dedup_and_sort findings
    ≡ finding RuleName.reorder_alert 85 4 true ∷ finding RuleName.slow_mover 90 2 false ∷ []
unfolding dedup_and_sort sort dedup keep_best insert
ranked = refl

dedup_and_sort-Best_example : Best findings (dedup_and_sort findings)
dedup_and_sort-Best_example = dedup_and_sort-Best findings

abbrev rice : Product
rice = record {
  product_id = 3;
  store_id = 1;
  category_id = none;
  name = 7;
  sku_code = none;
  uom = none;
  cost_price = some (pos 500);
  selling_price = some (pos 800);
  current_stock = some (pos 400);
  reorder_level = some (pos 1000);
  supplier_name = none;
  barcode = none;
  image_url = none;
  is_active = true;
  lead_time_days = some 3;
  hsn_code = none;
}

recommends_every_low_example :
    (Any (Suggests rice) (evaluate_rules (build_context 1 (rice ∷ [])))
      ⊎ (50 < length (select (is_low 1) (rice ∷ []))))
    × (length (evaluate_rules (build_context 1 (rice ∷ []))) ≤ 70)
recommends_every_low_example = recommends_every_low 1 (rice ∷ []) rice (inl refl) refl

abbrev sales : List DayValue
sales =
    record { date = 8; value = pos 5 }
    ∷ record { date = 9; value = pos 6 }
    ∷ record { date = 9; value = pos 7 }
    ∷ []

get_zero_filled_history_days_example :
    (length (get_zero_filled_history sales 10 3) ≡ 3)
    × ((i : ℕ)
        → i < 3
        → (v : ℤ) × (entry i (get_zero_filled_history sales 10 3) ≡ some v)
          × IsFigure (7 + i) sales v)
get_zero_filled_history_days_example = get_zero_filled_history_days sales 10 3
