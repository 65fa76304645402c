-- ===== src/Pricing/Engine.antt =====
-- app/pricing/engine.py: suggested prices. Floats are exact, and a price is rounded to hundredths.
use retail_iq.Base.{
  ℕ, zero, suc, Bool, true, false, not, Option, none, some, List, [], ◌∷◌, ◌==◌, ltb, if◌then◌else◌,
  find_first, select, map,
}
use retail_iq.Base.Int.{ℤ, pos, negsuc, neg, ◌-ℤ◌, ◌*ℤ◌, ltb_ℤ, eqb_ℤ}
use retail_iq.Base.Round.{round_div}
use retail_iq.Inventory.Models.{Product}
use retail_iq.Inventory.Products.{is_product}
use retail_iq.Pricing.Models.{Objective, Kind, Suggestion, PriceIndex}

abbrev pub or_zero : Option ℤ → ℤ
or_zero none = pos 0
or_zero (some a) = a

-- (price - cost) / price against `k` per cent, for a price that is not zero.
abbrev pub margin_below : ℤ → ℤ → ℤ → Bool
margin_below price cost k =
    if ltb_ℤ (pos 0) price
    then ltb_ℤ (pos 100 *ℤ (price -ℤ cost)) (k *ℤ price)
    else ltb_ℤ (k *ℤ price) (pos 100 *ℤ (price -ℤ cost))

abbrev pub margin_above : ℤ → ℤ → ℤ → Bool
margin_above price cost k =
    if ltb_ℤ (pos 0) price
    then ltb_ℤ (k *ℤ price) (pos 100 *ℤ (price -ℤ cost))
    else ltb_ℤ (pos 100 *ℤ (price -ℤ cost)) (k *ℤ price)

-- round(cost * 1.30, 2)
abbrev pub raised : ℤ → ℤ
raised cost = round_div (pos 13 *ℤ cost) 10

-- round(price * 0.90, 2)
abbrev pub lowered : ℤ → ℤ
lowered price = round_div (pos 9 *ℤ price) 10

abbrev pub for_objective : Objective → ℤ → ℤ
for_objective Objective.revenue price = lowered price
for_objective _ price = price

-- `none` is a division by zero.
unfoldable pub recommended : Objective → ℤ → ℤ → Option ℤ
recommended objective cost price =
    if not (ltb_ℤ (pos 0) cost)
    then some price
    else if eqb_ℤ price (pos 0)
    then none
    else if margin_below price cost (pos 15)
    then some (raised cost)
    else if margin_above price cost (pos 35)
    then some (for_objective objective price)
    else some price

abbrev pub kind_of : ℤ → ℤ → Kind
kind_of new price =
    if ltb_ℤ price new then Kind.raise else if ltb_ℤ new price then Kind.lower else Kind.stable

-- round(part / whole * 100, 2), and 0 for a whole of zero.
abbrev pub percentage : ℤ → ℤ → ℤ
percentage part (pos zero) = pos 0
percentage part (pos (suc d)) = round_div (pos 10000 *ℤ part) (suc d)
percentage part (negsuc d) = round_div (neg (pos 10000 *ℤ part)) (suc d)

abbrev pub suggestion : Product → ℤ → ℤ → ℤ → Suggestion
suggestion p cost price new = record {
  product_id = p.product_id;
  current_price = price;
  suggested_price = new;
  kind = kind_of new price;
  price_change_pct = percentage (new -ℤ price) price;
  expected_margin_pct = percentage (new -ℤ cost) new;
  inflation_support = none;
}

abbrev pub suggest : Objective → Product → Option Suggestion
suggest objective p =
    elim (recommended objective (or_zero p.cost_price) (or_zero p.selling_price)) [
      | none ↦ none
      | some new ↦ some (suggestion p (or_zero p.cost_price) (or_zero p.selling_price) new)
    ]

abbrev pub prepend : Option Suggestion → Option (List Suggestion) → Option (List Suggestion)
prepend none rest = none
prepend (some s) none = none
prepend (some s) (some rest) = some (s ∷ rest)

-- An id that is not a product of the store is passed over.
unfoldable pub generate_optimal_price :
    ℕ → List ℕ → List Product → Objective → Option (List Suggestion)
unfolding recommended
generate_optimal_price store [] products objective = some []
generate_optimal_price store (pid ∷ pids) products objective =
    let rest = generate_optimal_price store pids products objective in
    elim (find_first (is_product store pid) products) [
      | none ↦ rest
      | some p ↦ prepend (suggest objective p) rest
    ]

abbrev pub product_ids : ℕ → List Product → List ℕ
product_ids store products = map (λ p. p.product_id) (select (λ p. p.store_id == store) products)

unfoldable pub generate_price_suggestions : ℕ → List Product → Option (List Suggestion)
unfolding generate_optimal_price
generate_price_suggestions store products =
    generate_optimal_price store (product_ids store products) products Objective.revenue

-- The latest index of a category.
abbrev pub latest_index : ℕ → List PriceIndex → Option PriceIndex
latest_index category [] = none
latest_index category (i ∷ is) =
    let rest = latest_index category is in
    if i.category_id == category
    then elim rest [
      | none ↦ some i
      | some j ↦ if ltb i.computed_at j.computed_at then some j else some i
    ]
    else rest

abbrev pub with_index : Option PriceIndex → Suggestion → Suggestion
with_index none s = record s { inflation_support = some false }
with_index (some i) s =
    if ltb_ℤ (pos 11000) i.index_value
    then record s { inflation_support = some true; kind = Kind.raise }
    else record s { inflation_support = some false }

-- `session.get(Product, pid)`; a category id of zero is none.
abbrev pub category_of : ℕ → List Product → Option ℕ
category_of pid products = elim (find_first (λ p. p.product_id == pid) products) [
  | none ↦ none
  | some p ↦ elim p.category_id [ none ↦ none | some zero ↦ none | some (suc c) ↦ some (suc c) ]
]

abbrev pub enrich : List Product → List PriceIndex → Suggestion → Suggestion
enrich products indices s = elim (category_of s.product_id products) [
  | none ↦ s
  | some c ↦ with_index (latest_index c indices) s
]

unfoldable pub generate_market_aware_suggestions :
    ℕ → List Product → List PriceIndex → Option (List Suggestion)
unfolding generate_optimal_price
generate_market_aware_suggestions store products indices =
    elim (generate_optimal_price store (product_ids store products) products Objective.profit) [
      | none ↦ none
      | some suggestions ↦ some (map (enrich products indices) suggestions)
    ]
