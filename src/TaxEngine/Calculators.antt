-- ===== src/TaxEngine/Calculators.antt =====
-- app/tax_engine/engine.py: the calculators. A store without a tax configuration of its country fails
-- with an `AttributeError`, here `none`. Quotients of Decimals are exact until they are rounded.
use retail_iq.Base.{
  ℕ, ◌+◌, Bool, true, false, ◌&&◌, Option, none, some, List, [], ◌∷◌, ◌==◌, if◌then◌else◌,
  find_first,
}
use retail_iq.Base.Int.{ℤ, pos, ◌+ℤ◌, ◌-ℤ◌, ◌*ℤ◌}
use retail_iq.Transactions.Models.{Product, LineItem}
use retail_iq.Transactions.Gst.{
  Fraction, zero_fraction, plus, cents, line_total, is_taxed, taxable_of, half_tax_of,
}
use retail_iq.TaxEngine.Models.{
  Country, StoreTaxRegistration, CountryTaxConfig, Db, Breakdown, TaxCalculationResult,
}

abbrev pub same_country : Country → Country → Bool
same_country Country.india Country.india = true
same_country Country.united_states Country.united_states = true
same_country (Country.other a) (Country.other b) = a == b
same_country _ _ = false

abbrev pub find_registration : ℕ → Country → Db → Option StoreTaxRegistration
find_registration store country db =
    find_first (λ r. r.store_id == store && same_country r.country_code country) db.registrations

abbrev pub find_config : Country → Db → Option CountryTaxConfig
find_config country db = find_first (λ c. same_country c.country_code country) db.configs

abbrev pub find_product : ℕ → Db → Option Product
find_product pid db = find_first (λ p. p.product_id == pid) db.products

-- line_total - taxable
unfoldable pub tax_of : ℤ → ℕ → Fraction
tax_of total rate =
    let t = taxable_of total rate in
    record { over = total *ℤ pos t.under -ℤ t.over; under = t.under }

-- The running totals of the calculators whose prices include the tax.
pub record Totals : Type 0 where
  pub taxable : Fraction
  pub tax : Fraction
  pub half : Fraction

abbrev pub no_totals : Totals
no_totals = record { taxable = zero_fraction; tax = zero_fraction; half = zero_fraction }

unfoldable pub add_inclusive : ℤ → ℕ → Totals → Totals
add_inclusive total rate t = record {
  taxable = plus t.taxable (taxable_of total rate);
  tax = plus t.tax (tax_of total rate);
  half = plus t.half (half_tax_of total rate);
}

-- A rate of zero of a code is passed over, as a missing one.
abbrev pub hsn_or : ℕ → Option ℕ → Db → ℕ
hsn_or standard none db = standard
hsn_or standard (some code) db = elim (find_first (λ h. h.hsn_code == code) db.hsn_master) [
  | none ↦ standard
  | some h ↦ elim h.default_gst_rate [ none ↦ standard | some r ↦ if r == 0 then standard else r ]
]

-- The loop of India's calculator; a product that is unknown or not taxed is passed over.
unfoldable pub india_totals : Option CountryTaxConfig → Db → List LineItem → Totals → Option Totals
unfolding add_inclusive
india_totals config db [] t = some t
india_totals config db (item ∷ items) t =
    let skipped = india_totals config db items t in
    elim (find_product item.product_id db) [
      | none ↦ skipped
      | some p ↦
          if is_taxed p.gst_category
          then elim config [
            | none ↦ none
            | some c ↦
                india_totals config db items
                  (add_inclusive (line_total item) (hsn_or c.standard_rate p.hsn_code db) t)
          ]
          else skipped
    ]

abbrev pub no_tax : TaxCalculationResult
no_tax = record { taxable_amount = pos 0; tax_amount = pos 0; breakdown = Breakdown.nothing }

abbrev pub india_result : Totals → TaxCalculationResult
india_result t = record {
  taxable_amount = cents t.taxable;
  tax_amount = cents t.tax;
  breakdown = Breakdown.gst (cents t.half) (cents t.half) (pos 0);
}

abbrev pub map_result :
    (Totals → TaxCalculationResult) → Option Totals → Option TaxCalculationResult
map_result f none = none
map_result f (some t) = some (f t)

-- The state's rate, if the country has such rates and the store a state.
abbrev pub state_rate : CountryTaxConfig → StoreTaxRegistration → ℕ
state_rate c r =
    if c.has_subnational_tax
    then elim r.state_province [
      | none ↦ 0
      | some s ↦ elim (find_first (λ x. x.state == s) c.subnational_config) [
        | none ↦ 0
        | some x ↦ x.rate
      ]
    ]
    else 0

-- The running totals of the United States: the amounts, and the taxes in ten-thousandths of those.
pub record SalesTotals : Type 0 where
  pub taxable : ℤ
  pub tax : ℤ
  pub state_tax : ℤ
  pub local_tax : ℤ

unfoldable pub sales_totals : ℕ → ℕ → List LineItem → SalesTotals → SalesTotals
sales_totals base state [] t = t
sales_totals base state (item ∷ items) t =
    let taxable = line_total item in
    sales_totals base state items (record {
      taxable = t.taxable +ℤ taxable;
      tax = t.tax +ℤ taxable *ℤ pos (base + state);
      state_tax = t.state_tax +ℤ taxable *ℤ pos state;
      local_tax = t.local_tax +ℤ taxable *ℤ pos base;
    })

abbrev pub no_sales : SalesTotals
no_sales = record { taxable = pos 0; tax = pos 0; state_tax = pos 0; local_tax = pos 0 }

abbrev pub whole : ℤ → Fraction
whole a = record { over = a; under = 1 }

abbrev pub per_ten_thousand : ℤ → Fraction
per_ten_thousand a = record { over = a; under = 10000 }

abbrev pub sales_result : SalesTotals → TaxCalculationResult
sales_result t = record {
  taxable_amount = cents (whole t.taxable);
  tax_amount = cents (per_ten_thousand t.tax);
  breakdown =
      Breakdown.sales_tax (cents (per_ten_thousand t.state_tax))
        (cents (per_ten_thousand t.local_tax));
}

abbrev pub us_tax :
    Option CountryTaxConfig → StoreTaxRegistration → List LineItem → Option TaxCalculationResult
us_tax none r items = none
us_tax (some c) r items =
    some (sales_result (sales_totals c.standard_rate (state_rate c r) items no_sales))

-- The loop of the generic calculator.
unfoldable pub vat_totals : ℕ → Db → List LineItem → Totals → Totals
unfolding add_inclusive
vat_totals rate db [] t = t
vat_totals rate db (item ∷ items) t =
    let skipped = vat_totals rate db items t in
    let counted = vat_totals rate db items (add_inclusive (line_total item) rate t) in
    elim (find_product item.product_id db) [ none ↦ skipped | some p ↦ counted ]

abbrev pub vat_result : ℕ → Totals → TaxCalculationResult
vat_result name t = record {
  taxable_amount = cents t.taxable;
  tax_amount = cents t.tax;
  breakdown = Breakdown.named name (cents t.tax);
}

abbrev pub vat_tax : Option CountryTaxConfig → Db → List LineItem → Option TaxCalculationResult
vat_tax none db items = none
vat_tax (some c) db items =
    some (vat_result c.tax_type (vat_totals c.standard_rate db items no_totals))

-- `get_tax_calculator`: India and the United States have their own, any other country the generic one.
abbrev pub calculate :
    Country
    → Option CountryTaxConfig
    → StoreTaxRegistration
    → Db
    → List LineItem
    → Option TaxCalculationResult
calculate Country.india config r db items =
    map_result india_result (india_totals config db items no_totals)
calculate Country.united_states config r db items = us_tax config r items
calculate (Country.other x) config r db items = vat_tax config db items

unfoldable pub calculate_tax : ℕ → Country → Db → List LineItem → Option TaxCalculationResult
unfolding india_totals vat_totals sales_totals
calculate_tax store country db items = elim (find_registration store country db) [
  | none ↦ some no_tax
  | some r ↦
      if r.is_tax_enabled
      then calculate country (find_config country db) r db items
      else some no_tax
]
