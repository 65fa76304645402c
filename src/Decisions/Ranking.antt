-- ===== src/Decisions/Ranking.antt =====
-- app/decisions/engine.py: `_dedup_and_sort`.
use retail_iq.Base.{
  ℕ, Bool, true, false, not, ◌&&◌, ◌||◌, Option, none, some, List, [], ◌∷◌, ◌==◌, ltb,
  if◌then◌else◌,
}
use retail_iq.Decisions.Models.{RuleName, Rule}

abbrev pub same_name : RuleName → RuleName → Bool
same_name RuleName.reorder_alert RuleName.reorder_alert = true
same_name RuleName.safety_stock_reorder RuleName.safety_stock_reorder = true
same_name RuleName.slow_mover RuleName.slow_mover = true
same_name RuleName.revenue_drop RuleName.revenue_drop = true
same_name RuleName.high_margin_opportunity RuleName.high_margin_opportunity = true
same_name _ _ = false

abbrev pub same_product : Option ℕ → Option ℕ → Bool
same_product none none = true
same_product (some p) (some q) = p == q
same_product _ _ = false

-- Whether the two have one key in `best`.
abbrev pub same_key : Rule → Rule → Bool
same_key r s = same_name r.rule_name s.rule_name && same_product r.product_id s.product_id

-- The values of `best` in the order of their keys; a key keeps its place when its value is replaced.
unfoldable pub keep_best : Rule → List Rule → List Rule
keep_best r [] = r ∷ []
keep_best r (b ∷ bs) =
    let rest = keep_best r bs in
    if same_key r b then if ltb b.confidence r.confidence then r ∷ bs else b ∷ bs else b ∷ rest

unfoldable pub dedup : List Rule → List Rule → List Rule
dedup best [] = best
dedup best (r ∷ rs) = dedup (keep_best r best) rs

-- Whether `s` comes before `r` in the order of (time_sensitive, priority, confidence), largest first.
abbrev pub flag_less : Bool → Bool → Bool
flag_less false true = true
flag_less _ _ = false

abbrev pub is_less : Rule → Rule → Bool
is_less r s =
    flag_less r.time_sensitive s.time_sensitive
    || (not (flag_less s.time_sensitive r.time_sensitive)
        && (ltb r.priority s.priority
            || (r.priority == s.priority && ltb r.confidence s.confidence)))

-- A stable sort, largest first: a rule comes before the equal ones after it.
unfoldable pub insert : Rule → List Rule → List Rule
insert r [] = r ∷ []
insert r (s ∷ ss) = let rest = insert r ss in if is_less r s then s ∷ rest else r ∷ s ∷ ss

unfoldable pub sort : List Rule → List Rule
sort [] = []
sort (r ∷ rs) = insert r (sort rs)

unfoldable pub dedup_and_sort : List Rule → List Rule
dedup_and_sort rules = sort (dedup [] rules)
