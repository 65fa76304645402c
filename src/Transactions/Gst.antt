-- ===== src/Transactions/Gst.antt =====
-- app/transactions/services.py: the GST part of `process_single_transaction`. Quotients of Decimals
-- are exact fractions here, rounded where the code rounds them.
use retail_iq.Base.{
  ℕ, ◌+◌, ◌*◌, Bool, true, false, ◌&&◌, ◌||◌, Option, none, some, List, [], ◌∷◌, ◌==◌,
  if◌then◌else◌, find_first, is_empty, select, map_where,
}
use retail_iq.Base.Int.{ℤ, pos, ◌+ℤ◌, ◌-ℤ◌, ◌*ℤ◌, ltb_ℤ}
use retail_iq.Base.Round.{round_div}
use retail_iq.Transactions.Models.{
  GstCategory, Product, HsnLine, GstTransaction, Db, LineItem, SaleRequest,
}

-- A fraction of a hundred-thousandth.
pub record Fraction : Type 0 where
  pub over : ℤ
  pub under : ℕ

abbrev pub zero_fraction : Fraction
zero_fraction = record { over = pos 0; under = 1 }

unfoldable pub plus : Fraction → Fraction → Fraction
plus a b = record {
  over = a.over *ℤ pos b.under +ℤ b.over *ℤ pos a.under;
  under = a.under * b.under;
}

-- `round(x, 2)`, in hundredths
unfoldable pub cents : Fraction → ℤ
cents a = round_div a.over (1000 * a.under)

abbrev pub is_positive : Fraction → Bool
is_positive a = ltb_ℤ (pos 0) a.over

-- (quantity * selling_price) - discount, in hundred-thousandths
unfoldable pub line_total : LineItem → ℤ
line_total item = pos (item.quantity * item.selling_price) -ℤ item.discount_amount *ℤ pos 1000

abbrev pub is_taxed : Option GstCategory → Bool
is_taxed none = true
is_taxed (some GstCategory.regular) = true
is_taxed (some _) = false

-- A rate that is missing reads as 0.
abbrev pub or_zero : Option ℕ → ℕ
or_zero none = 0
or_zero (some r) = r

abbrev pub hsn_rate : Db → Option ℕ → ℕ
hsn_rate db none = 0
hsn_rate db (some code) = elim (find_first (λ h. h.hsn_code == code) db.hsn_master) [
  | none ↦ 0
  | some h ↦ or_zero h.default_gst_rate
]

abbrev pub category_rate : Db → Option ℕ → ℕ
category_rate db none = 0
category_rate db (some i) = elim (find_first (λ c. c.category_id == i) db.categories) [
  | none ↦ 0
  | some c ↦ or_zero c.gst_rate
]

unfoldable pub gst_rate : Db → Product → ℕ
gst_rate db p =
    let r = hsn_rate db p.hsn_code in if r == 0 then category_rate db p.category_id else r

-- line_total / (1 + rate / 100)
unfoldable pub taxable_of : ℤ → ℕ → Fraction
taxable_of total rate = record { over = total *ℤ pos 10000; under = 10000 + rate }

-- (line_total - taxable) / 2, for CGST and for SGST
unfoldable pub half_tax_of : ℤ → ℕ → Fraction
half_tax_of total rate =
    let t = taxable_of total rate in
    record { over = total *ℤ pos t.under -ℤ t.over; under = 2 * t.under }

pub record Totals : Type 0 where
  pub taxable : Fraction
  pub cgst : Fraction
  pub sgst : Fraction
  pub breakdown : List HsnLine

abbrev pub no_totals : Totals
no_totals = record {
  taxable = zero_fraction;
  cgst = zero_fraction;
  sgst = zero_fraction;
  breakdown = [];
}

abbrev pub same_code : Option ℕ → Option ℕ → Bool
same_code none none = true
same_code (some a) (some b) = a == b
same_code _ _ = false

abbrev pub with_code : Option ℕ → ℕ → List HsnLine → List HsnLine
with_code code rate lines =
    if is_empty (select (λ l. same_code l.hsn_code code) lines)
    then record { hsn_code = code; taxable = pos 0; cgst = pos 0; sgst = pos 0; rate = rate }
      ∷ lines
    else lines

abbrev pub add_line : Option ℕ → ℤ → ℤ → ℤ → HsnLine → HsnLine
add_line code taxable cgst sgst l = record l {
  taxable = l.taxable +ℤ taxable;
  cgst = l.cgst +ℤ cgst;
  sgst = l.sgst +ℤ sgst;
}

abbrev pub taxed : ℤ → ℕ → Option ℕ → Totals → Totals
taxed total rate code t =
    let taxable = taxable_of total rate in
    let half = half_tax_of total rate in
    record {
      taxable = plus t.taxable taxable;
      cgst = plus t.cgst half;
      sgst = plus t.sgst half;
      breakdown =
          map_where (λ l. same_code l.hsn_code code)
            (add_line code (cents taxable) (cents half) (cents half))
            (with_code code rate t.breakdown);
    }

abbrev pub add_item : Db → Product → LineItem → Totals → Totals
add_item db p item t =
    let rate = gst_rate db p in
    if is_taxed p.gst_category
    then if rate == 0 then t else taxed (line_total item) rate p.hsn_code t
    else t

abbrev pub is_product : ℕ → ℕ → Product → Bool
is_product sid i p = p.product_id == i && p.store_id == sid

abbrev pub find_product : ℕ → ℕ → Db → Option Product
find_product sid i db = find_first (is_product sid i) db.products

unfoldable pub gst_totals : ℕ → Db → List LineItem → Totals → Totals
gst_totals sid db [] t = t
gst_totals sid db (item ∷ rest) t =
    gst_totals sid db rest
      (elim (find_product sid item.product_id db) [ none ↦ t | some p ↦ add_item db p item t ])

abbrev pub gst_row : ℕ → ℕ → Totals → GstTransaction
gst_row sid txn t = record {
  transaction_id = txn;
  store_id = sid;
  taxable_amount = cents t.taxable;
  cgst_amount = cents t.cgst;
  sgst_amount = cents t.sgst;
  igst_amount = pos 0;
  total_gst = cents (plus t.cgst t.sgst);
  hsn_breakdown = t.breakdown;
}

-- Adds the GST row of a sale, in a store that is registered.
abbrev pub add_gst_row : ℕ → ℕ → Totals → Db → Db
add_gst_row sid txn t db =
    if is_positive t.taxable || is_positive t.cgst
    then record db { gst_transactions = gst_row sid txn t ∷ db.gst_transactions }
    else db

unfoldable pub record_gst : ℕ → SaleRequest → Db → Db
record_gst sid sale db =
    elim (find_first (λ c. c.store_id == sid && c.is_gst_enabled) db.gst_configs) [
      | none ↦ db
      | some c ↦
          if c.is_regular
          then add_gst_row sid sale.transaction_id (gst_totals sid db sale.line_items no_totals) db
          else db
    ]
