-- ===== src/Pricing/Routes.antt =====
-- app/pricing/routes.py: suggestions are applied or dismissed, and rules set.
use retail_iq.Base.{
  ℕ, suc, Bool, true, false, ◌&&◌, Option, none, some, ◌∷◌, ◌==◌, if◌then◌else◌, find_first,
  update_first,
}
use retail_iq.Base.Int.{ℤ, pos, eqb_ℤ}
use retail_iq.Base.Exec.{Outcome, ok, err}
use retail_iq.Inventory.Models.{Product}
use retail_iq.Inventory.Products.{is_product}
use retail_iq.Pricing.Models.{Status, PricingSuggestion, PricingRule, PriceChange, Db, Problem}

abbrev pub is_suggestion : ℕ → ℕ → PricingSuggestion → Bool
is_suggestion store i s = s.id == i && s.store_id == store

abbrev pub is_pending : Status → Bool
is_pending Status.pending = true
is_pending _ = false

-- `float(x) if x else None`: zero is no amount.
abbrev pub if_any : Option ℤ → Option ℤ
if_any none = none
if_any (some a) = if eqb_ℤ a (pos 0) then none else some a

abbrev pub set_price : ℤ → Product → Product
set_price price p = record p { selling_price = some price }

abbrev pub set_status : Status → ℕ → PricingSuggestion → PricingSuggestion
set_status status now s = record s { status = status; actioned_at = some now }

abbrev pub change : ℕ → ℕ → ℕ → ℤ → Product → PriceChange
change store user i price p = record {
  product_id = p.product_id;
  store_id = store;
  old_price = if_any p.selling_price;
  new_price = price;
  cost_price = if_any p.cost_price;
  suggestion_id = i;
  changed_by = user;
}

abbrev pub applied : ℕ → ℕ → ℕ → ℕ → ℤ → Product → Db → Db
applied now store user i price p db = record db {
  products = update_first (is_product store p.product_id) (set_price price) db.products;
  suggestions = update_first (is_suggestion store i) (set_status Status.applied now) db.suggestions;
  history = change store user i price p ∷ db.history;
}

-- A suggestion without a price fails with a `TypeError`.
unfoldable pub apply_suggestion : ℕ → ℕ → ℕ → ℕ → Db → Outcome Db Problem (Unit {0})
apply_suggestion now store user i db = elim (find_first (is_suggestion store i) db.suggestions) [
  | none ↦ err Problem.not_found db
  | some s ↦
      if is_pending s.status
      then elim (find_first (is_product store s.product_id) db.products) [
        | none ↦ err Problem.product_not_found db
        | some p ↦ elim s.suggested_price [
          | none ↦ err Problem.server_error db
          | some price ↦ ok tt (applied now store user i price p db)
        ]
      ]
      else err Problem.already_actioned db
]

unfoldable pub dismiss_suggestion : ℕ → ℕ → ℕ → Db → Outcome Db Problem (Unit {0})
dismiss_suggestion now store i db = elim (find_first (is_suggestion store i) db.suggestions) [
  | none ↦ err Problem.not_found db
  | some s ↦
      if is_pending s.status
      then ok tt (record db {
        suggestions =
            update_first (is_suggestion store i) (set_status Status.dismissed now) db.suggestions;
      })
      else err Problem.already_actioned db
]

abbrev pub is_rule : ℕ → ℕ → PricingRule → Bool
is_rule store type r = r.store_id == store && r.rule_type == type

abbrev pub set_rule : ℕ → Bool → PricingRule → PricingRule
set_rule parameters active r = record r { parameters = parameters; is_active = active }

abbrev pub add_rule : ℕ → ℕ → ℕ → Bool → Db → Db
add_rule store type parameters active db = record db {
  rules =
      record {
        id = db.next_rule;
        store_id = store;
        rule_type = type;
        parameters = parameters;
        is_active = active;
      }
      ∷ db.rules;
  next_rule = suc db.next_rule;
}

unfoldable pub upsert_pricing_rules : ℕ → Option ℕ → ℕ → Bool → Db → Outcome Db Problem (Unit {0})
upsert_pricing_rules store none parameters active db = err Problem.missing_field db
upsert_pricing_rules store (some type) parameters active db =
    elim (find_first (is_rule store type) db.rules) [
      | none ↦ ok tt (add_rule store type parameters active db)
      | some r ↦ ok tt (record db {
        rules = update_first (is_rule store type) (set_rule parameters active) db.rules;
      })
    ]
