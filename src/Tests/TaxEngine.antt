-- ===== src/Tests/TaxEngine.antt =====
-- Two lines, one of a product that is not on file.
use retail_iq.Base.{ℕ, ◌≡◌, false, none, some, List, [], ◌∷◌}
use retail_iq.Base.Int.{pos}
use retail_iq.Transactions.Models.{LineItem, GstCategory}
use retail_iq.TaxEngine.Models.{Country, CountryTaxConfig, Db}
use retail_iq.TaxEngine.Calculators.{
  Totals, no_totals, no_sales, india_totals, vat_totals, sales_totals,
}
use retail_iq.TaxEngine.Splits.{Splits, Adds, india_base, vat_base, calculators-Splits}

abbrev config : CountryTaxConfig
config = record {
  country_code = Country.india;
  tax_type = 1;
  standard_rate = 1800;
  has_subnational_tax = false;
  subnational_config = [];
}

abbrev shop : Db
shop = record {
  products =
      record {
        product_id = 1;
        store_id = 1;
        category_id = none;
        cost_price = none;
        selling_price = none;
        current_stock = none;
        hsn_code = none;
        gst_category = some GstCategory.regular;
      }
      ∷ [];
  hsn_master = [];
  registrations = [];
  configs = config ∷ [];
}

abbrev line : ℕ → LineItem
line pid = record {
  product_id = pid;
  quantity = 2000;
  selling_price = 11800;
  discount_amount = pos 0;
}

abbrev basket : List LineItem
basket = line 1 ∷ line 9 ∷ []

calculators-Splits_example :
    ((t : Totals) × (india_totals (some config) shop basket no_totals ≡ some t)
      × Splits (india_base shop basket (pos 0)) t)
    × Splits (vat_base shop basket (pos 0)) (vat_totals 1800 shop basket no_totals)
    × Adds (sales_totals 1800 725 basket no_sales)
calculators-Splits_example = calculators-Splits config 725 shop basket
