-- ===== src/TaxEngine/Splits.antt =====
-- app/tax_engine/engine.py: what the calculators split.
use retail_iq.Base.{
  ℕ, ◌+◌, ◌*◌, ◌≡◌, refl, sym, ap, subst, ◌∙◌, none, some, List, [], ◌∷◌, arith, if◌then◌else◌,
  Bool-cases, Option-cases, inl, inr,
}
use retail_iq.Base.Int.{ℤ, pos, pos_part, neg_part, +ℤ_parts, ◌+ℤ◌, ◌*ℤ◌, int_laws}
use retail_iq.Transactions.Models.{LineItem}
use retail_iq.Transactions.Gst.{plus, line_total, is_taxed, taxable_of}
use retail_iq.Transactions.Tax.{distribute, rest_of, times_parts, times_times, swap_times}
use retail_iq.TaxEngine.Models.{CountryTaxConfig, Db}
use retail_iq.TaxEngine.Calculators.{
  find_product, tax_of, Totals, no_totals, add_inclusive, hsn_or, india_totals, SalesTotals,
  no_sales, sales_totals, vat_totals,
}

times_sums :
    (p q r s t u c : ℕ) → p + q + r ≡ s + t + u → p * c + q * c + r * c ≡ s * c + t * c + u * c
times_sums p q r s t u c e = sym (spread p q r c) ∙ ap (λ k. k * c) e ∙ spread s t u c
  where
    spread : (p q r c : ℕ) → (p + q + r) * c ≡ p * c + q * c + r * c
    spread p q r c = grind arith

add_times : (a b : ℤ) (c : ℕ) → (a +ℤ b) *ℤ pos c ≡ a *ℤ pos c +ℤ b *ℤ pos c
add_times a b c =
    let sums =
      times_sums (pos_part (a +ℤ b)) (neg_part a) (neg_part b) (neg_part (a +ℤ b)) (pos_part a)
        (pos_part b) c (+ℤ_parts a b) in
    omega (int_laws, times_parts (a +ℤ b) c, times_parts a c, times_parts b c, sums)

-- Before rounding: one denominator, and the taxable value and the tax add up to `base`.
abbrev pub Splits : ℤ → Totals → Type 0
Splits base t =
    (t.tax.under ≡ t.taxable.under) × (t.taxable.over +ℤ t.tax.over ≡ base *ℤ pos t.taxable.under)

-- With `l` for the line's total, `u` for the line's denominator and `d` for the totals' one.
sum_splits :
    (x y l base : ℤ) (rate d : ℕ)
    → x +ℤ y ≡ base *ℤ pos d
    → (x *ℤ pos (10000 + rate) +ℤ (l *ℤ pos 10000) *ℤ pos d)
        +ℤ (y *ℤ pos (10000 + rate) +ℤ (l *ℤ pos rate) *ℤ pos d)
      ≡ (base +ℤ l) *ℤ pos (d * (10000 + rate))
sum_splits x y l base rate d e =
    let u = 10000 + rate in
    let old = sym (add_times x y u) ∙ ap (λ k. k *ℤ pos u) e ∙ times_times base d u in
    let line =
      sym (add_times (l *ℤ pos 10000) (l *ℤ pos rate) d)
      ∙ ap (λ k. k *ℤ pos d) (distribute l 10000 rate)
      ∙ times_times l u d
      ∙ ap (λ k. l *ℤ pos k) (swap_times u d) in
    let new = add_times base l (d * u) in
    omega (
      int_laws,
      ap pos_part old,
      ap neg_part old,
      ap pos_part line,
      ap neg_part line,
      ap pos_part new,
      ap neg_part new,
    )

add_inclusive-Splits :
    (base l : ℤ) (rate : ℕ) (t : Totals)
    → Splits base t
    → Splits (base +ℤ l) (add_inclusive l rate t)
unfolding add_inclusive plus taxable_of tax_of
add_inclusive-Splits base l rate t (same, sum) = (
  ap (λ k. k * (10000 + rate)) same,
  rw (rest_of l 10000 rate) (
      subst
        (λ k.
          (t.taxable.over *ℤ pos (10000 + rate) +ℤ (l *ℤ pos 10000) *ℤ pos t.taxable.under)
            +ℤ (t.tax.over *ℤ pos (10000 + rate) +ℤ (l *ℤ pos rate) *ℤ pos k)
          ≡ (base +ℤ l) *ℤ pos (t.taxable.under * (10000 + rate)))
        (sym same) (sum_splits t.taxable.over t.tax.over l base rate t.taxable.under sum)),
)

no_totals-Splits : Splits (pos 0) no_totals
unfolding ◌+ℤ◌ ◌*ℤ◌
no_totals-Splits = (refl, refl)

-- The totals of the lines that are taxed in India.
abbrev pub india_base : Db → List LineItem → ℤ → ℤ
india_base db [] base = base
india_base db (item ∷ items) base =
    let skipped = india_base db items base in
    let counted = india_base db items (base +ℤ line_total item) in
    elim (find_product item.product_id db) [
      | none ↦ skipped
      | some p ↦ if is_taxed p.gst_category then counted else skipped
    ]

abbrev pub vat_base : Db → List LineItem → ℤ → ℤ
vat_base db [] base = base
vat_base db (item ∷ items) base =
    let skipped = vat_base db items base in
    let counted = vat_base db items (base +ℤ line_total item) in
    elim (find_product item.product_id db) [ none ↦ skipped | some p ↦ counted ]

india-Splits :
    (c : CountryTaxConfig) (db : Db) (items : List LineItem) (base : ℤ) (t : Totals)
    → Splits base t
    → (after : Totals) × (india_totals (some c) db items t ≡ some after)
      × Splits (india_base db items base) after
unfolding india_totals
india-Splits c db [] base t h = (t, refl, h)
india-Splits c db (item ∷ items) base t h = elim (Option-cases (find_product item.product_id db)) [
  | inl e ↦ rw (e, india_totals, india_base) (india-Splits c db items base t h)
  | inr (p, e) ↦ elim (Bool-cases (is_taxed p.gst_category)) [
    | inr u ↦ rw (e, u, india_totals, india_base) (india-Splits c db items base t h)
    | inl u ↦
        let rate = hsn_or c.standard_rate p.hsn_code db in
        rw (e, u, india_totals, india_base)
          (india-Splits c db items (base +ℤ line_total item)
            (add_inclusive (line_total item) rate t)
            (add_inclusive-Splits base (line_total item) rate t h))
  ]
]

vat-Splits :
    (rate : ℕ) (db : Db) (items : List LineItem) (base : ℤ) (t : Totals)
    → Splits base t
    → Splits (vat_base db items base) (vat_totals rate db items t)
unfolding vat_totals
vat-Splits rate db [] base t h = h
vat-Splits rate db (item ∷ items) base t h = elim (Option-cases (find_product item.product_id db)) [
  | inl e ↦ rw (e, vat_totals, vat_base) (vat-Splits rate db items base t h)
  | inr (p, e) ↦
      rw (e, vat_totals, vat_base)
        (vat-Splits rate db items (base +ℤ line_total item) (add_inclusive (line_total item) rate t)
          (add_inclusive-Splits base (line_total item) rate t h))
]

abbrev pub Adds : SalesTotals → Type 0
Adds t = t.state_tax +ℤ t.local_tax ≡ t.tax

sales-Adds :
    (base state : ℕ) (items : List LineItem) (t : SalesTotals)
    → Adds t
    → Adds (sales_totals base state items t)
unfolding sales_totals
sales-Adds base state [] t h = h
sales-Adds base state (item ∷ items) t h =
    let l = line_total item in
    let line = distribute l base state in
    sales-Adds base state items
      (record {
        taxable = t.taxable +ℤ l;
        tax = t.tax +ℤ l *ℤ pos (base + state);
        state_tax = t.state_tax +ℤ l *ℤ pos state;
        local_tax = t.local_tax +ℤ l *ℤ pos base;
      })
      (omega (int_laws, ap pos_part h, ap neg_part h, ap pos_part line, ap neg_part line))

no_sales-Adds : Adds no_sales
unfolding ◌+ℤ◌
no_sales-Adds = refl

-- With a tax configuration, whatever the items: India's calculator comes through, and its taxable
-- value and tax add up to the totals of the taxed lines, those of the generic one to the totals of
-- all lines with a product, and the state's and the local tax of the United States to the tax,
-- each before rounding.
pub calculators-Splits :
    (c : CountryTaxConfig) (state : ℕ) (db : Db) (items : List LineItem)
    → ((t : Totals) × (india_totals (some c) db items no_totals ≡ some t)
        × Splits (india_base db items (pos 0)) t)
      × Splits (vat_base db items (pos 0)) (vat_totals c.standard_rate db items no_totals)
      × Adds (sales_totals c.standard_rate state items no_sales)
calculators-Splits c state db items = (
  india-Splits c db items (pos 0) no_totals no_totals-Splits,
  vat-Splits c.standard_rate db items (pos 0) no_totals no_totals-Splits,
  sales-Adds c.standard_rate state items no_sales no_sales-Adds,
)
