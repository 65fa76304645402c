-- ===== src/TaxEngine/Models.antt =====
-- The rows that app/tax_engine/engine.py reads, over the products and HSN codes of Transactions, and
-- its result. Rates are hundredths of a per cent; a country and a state are numbers.
use retail_iq.Base.{ℕ, Bool, Option, List}
use retail_iq.Base.Int.{ℤ}
use retail_iq.Transactions.Models.{Product, HsnMaster}

pub data Country : Type 0 where
  india united_states : Country
  other : ℕ → Country

pub record StoreTaxRegistration : Type 0 where
  pub store_id : ℕ
  pub country_code : Country
  pub is_tax_enabled : Bool
  pub state_province : Option ℕ

pub record StateRate : Type 0 where
  pub state : ℕ
  pub rate : ℕ

pub record CountryTaxConfig : Type 0 where
  pub country_code : Country
  pub tax_type : ℕ
  pub standard_rate : ℕ
  pub has_subnational_tax : Bool
  pub subnational_config : List StateRate

pub record Db : Type 0 where
  pub products : List Product
  pub hsn_master : List HsnMaster
  pub registrations : List StoreTaxRegistration
  pub configs : List CountryTaxConfig

-- The parts of a tax, in hundredths; `named` is the tax type of the country.
pub data Breakdown : Type 0 where
  nothing : Breakdown
  gst : ℤ → ℤ → ℤ → Breakdown
  sales_tax : ℤ → ℤ → Breakdown
  named : ℕ → ℤ → Breakdown

pub record TaxCalculationResult : Type 0 where
  pub taxable_amount : ℤ
  pub tax_amount : ℤ
  pub breakdown : Breakdown
