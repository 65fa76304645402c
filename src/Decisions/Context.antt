-- ===== src/Decisions/Context.antt =====
-- app/decisions/engine.py: the context of a store and the actions that follow from it. The rows of a
-- query come in the order of the table.
use retail_iq.Base.{
  ℕ, suc, zero, Bool, false, ◌&&◌, Option, none, some, List, [], ◌∷◌, ◌++◌, ◌==◌, if◌then◌else◌,
  select, map,
}
use retail_iq.Base.Int.{ℤ, pos, ◌-ℤ◌, ◌*ℤ◌, ltb_ℤ, leb_ℤ, max_ℤ, pos_part}
use retail_iq.Base.Round.{round_div}
use retail_iq.Inventory.Models.{Product}

-- A context as `build_context` makes it; `margin_pct` is in hundredths.
pub data Context : Type 0 where
  low_stock : ℕ → ℕ → ℤ → ℤ → ℤ → Context
  margin_warning : ℕ → ℕ → ℤ → ℤ → ℤ → Context

abbrev pub or_zero : Option ℤ → ℤ
or_zero none = pos 0
or_zero (some q) = q

-- A null never satisfies a comparison.
abbrev pub at_or_below : Option ℤ → Option ℤ → Bool
at_or_below (some a) (some b) = leb_ℤ a b
at_or_below _ _ = false

abbrev pub is_low : ℕ → Product → Bool
is_low store p = p.store_id == store && p.is_active && at_or_below p.current_stock p.reorder_level

-- cost / selling > 0.9
abbrev pub is_thin : Option ℤ → Option ℤ → Bool
is_thin (some cost) (some sell) = ltb_ℤ (pos 0) sell && ltb_ℤ (pos 9 *ℤ sell) (pos 10 *ℤ cost)
is_thin _ _ = false

abbrev pub has_thin_margin : ℕ → Product → Bool
has_thin_margin store p = p.store_id == store && p.is_active && is_thin p.cost_price p.selling_price

abbrev pub take {ℓ} : {A : Type ℓ} → ℕ → List A → List A
take zero xs = []
take (suc n) [] = []
take (suc n) (x ∷ xs) = x ∷ take n xs

abbrev pub low_context : Product → Context
low_context p =
    Context.low_stock p.product_id p.name (or_zero p.current_stock) (or_zero p.reorder_level)
      (or_zero p.selling_price)

-- round((1 - cost / selling) * 100, 2)
abbrev pub margin_pct : ℤ → ℤ → ℤ
margin_pct cost sell = round_div (pos 10000 *ℤ (sell -ℤ cost)) (pos_part sell)

abbrev pub margin_context : Product → Context
margin_context p =
    let cost = or_zero p.cost_price in
    let sell = or_zero p.selling_price in
    Context.margin_warning p.product_id p.name cost sell (margin_pct cost sell)

unfoldable pub build_context : ℕ → List Product → List Context
build_context store products =
    map low_context (take 50 (select (is_low store) products))
    ++ map margin_context (take 20 (select (has_thin_margin store) products))

pub data Urgency : Type 0 where
  high medium : Urgency

-- An action with its product and, for a reorder, the suggested quantity.
pub data Action : Type 0 where
  reorder : ℕ → Urgency → ℤ → Action
  price_adjustment : ℕ → Urgency → Action

abbrev pub evaluate : Context → Action
evaluate (Context.low_stock pid name stock level price) =
    Action.reorder pid (if leb_ℤ stock (pos 0) then Urgency.high else Urgency.medium)
      (max_ℤ (pos 0) (level -ℤ stock))
evaluate (Context.margin_warning pid name cost sell pct) =
    Action.price_adjustment pid Urgency.medium

unfoldable pub evaluate_rules : List Context → List Action
evaluate_rules contexts = map evaluate contexts
