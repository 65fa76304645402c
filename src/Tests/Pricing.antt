-- ===== src/Tests/Pricing.antt =====
-- A product with a thin margin and a pending suggestion for it.
use retail_iq.Base.{ℕ, ◌≤◌, ◌≡◌, refl, ◌⊎◌, true, none, some, [], ◌∷◌, arith}
use retail_iq.Base.Int.{pos, ◌*ℤ◌, ◌-ℤ◌}
use retail_iq.Base.Round.{round_div, half_even}
use retail_iq.Base.Exec.{ok, err}
use retail_iq.Inventory.Models.{Product}
use retail_iq.Pricing.Models.{Status, Objective, Db, Problem}
use retail_iq.Pricing.Engine.{recommended, margin_below}
use retail_iq.Pricing.Routes.{apply_suggestion}
use retail_iq.Pricing.Margins.{recommended_covers_cost, recommended_settles}
use retail_iq.Pricing.Actioned.{Applies, apply_suggestion-Applies}

abbrev soap : Product
soap = record {
  product_id = 3;
  store_id = 1;
  category_id = none;
  name = 7;
  sku_code = none;
  uom = none;
  cost_price = some (pos 500);
  selling_price = some (pos 550);
  current_stock = some (pos 400);
  reorder_level = some (pos 1000);
  supplier_name = none;
  barcode = none;
  image_url = none;
  is_active = true;
  lead_time_days = some 3;
  hsn_code = none;
}

abbrev shop : Db
shop = record {
  products = soap ∷ [];
  suggestions =
      record {
        id = 8;
        product_id = 3;
        store_id = 1;
        suggested_price = some (pos 650);
        current_price = some (pos 550);
        status = Status.pending;
        actioned_at = none;
      }
      ∷ [];
  rules = [];
  history = [];
  next_rule = 1;
}

thirteen_tenths : recommended Objective.profit (pos 500) (pos 550) ≡ some (pos 650)
unfolding recommended ◌*ℤ◌ ◌-ℤ◌ round_div half_even
thirteen_tenths = refl

recommended_covers_cost_example :
    (v : ℕ) × (recommended Objective.revenue (pos 500) (pos 550) ≡ some (pos v))
    × (500 ≤ v)
    × (margin_below (pos 550) (pos 500) (pos 15) ≡ true → 550 ≤ v)
recommended_covers_cost_example =
    recommended_covers_cost Objective.revenue 500 550 (omega arith) (omega arith)

recommended_settles_example :
    (v : ℕ) × (recommended Objective.profit (pos 500) (pos 550) ≡ some (pos v))
    × (recommended Objective.profit (pos 500) (pos v) ≡ some (pos v))
recommended_settles_example = recommended_settles 500 550 (omega arith) (omega arith)

apply_suggestion-Applies_example :
    ((e : Problem) × (apply_suggestion 10 1 9 8 shop ≡ err e shop))
    ⊎ ((after : Db) × (apply_suggestion 10 1 9 8 shop ≡ ok tt after) × Applies 10 1 9 8 shop after)
apply_suggestion-Applies_example = apply_suggestion-Applies 10 1 9 8 shop
