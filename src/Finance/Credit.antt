-- ===== src/Finance/Credit.antt =====
-- app/finance/credit_scoring.py: the merchant's score and its risk tier. Revenues are whole paise, the
-- quotients exact; the explanatory texts in `factors` are left out.
pub mod Range
use retail_iq.Base.{
  ℕ, suc, ◌*◌, ◌/◌, Bool, false, Option, none, some, List, [], ◌∷◌, ltb, if◌then◌else◌, length,
}
use retail_iq.Base.Int.{ℤ, pos, ◌+ℤ◌, ◌-ℤ◌, ◌*ℤ◌, leb_ℤ, ltb_ℤ, eqb_ℤ, min_ℤ, max_ℤ}
use retail_iq.Base.Round.{trunc_div}

pub record StockLevel : Type 0 where
  pub current_stock : Option ℤ
  pub reorder_level : Option ℤ

-- What the queries return: the revenues of the daily summaries of 90 days by date, the active
-- products, the number of customers.
pub record Signals : Type 0 where
  pub summaries : List (Option ℤ)
  pub products : List StockLevel
  pub customer_count : ℕ

-- `sum(s.revenue for s in summaries if s.revenue)`
abbrev pub total : List (Option ℤ) → ℤ
total [] = pos 0
total (none ∷ rest) = total rest
total (some r ∷ rest) = r +ℤ total rest

abbrev pub take {ℓ} : {A : Type ℓ} → ℕ → List A → List A
take n [] = []
take ℕ.zero (x ∷ xs) = []
take (ℕ.suc n) (x ∷ xs) = x ∷ take n xs

abbrev pub drop {ℓ} : {A : Type ℓ} → ℕ → List A → List A
drop n [] = []
drop ℕ.zero (x ∷ xs) = x ∷ xs
drop (ℕ.suc n) (x ∷ xs) = drop n xs

-- The change of the score from the revenue of the two halves; `none` is a division by 0.
abbrev pub trend : ℤ → ℤ → Option ℤ
trend first second =
    if ltb_ℤ first second
    then if eqb_ℤ first (pos 0)
      then none
      else some (min_ℤ (pos 50) (trunc_div ((second -ℤ first) *ℤ pos 100) first))
    else let base = if eqb_ℤ first (pos 0) then pos 100 else first in
      some (pos 0 -ℤ min_ℤ (pos 50) (trunc_div ((base -ℤ second) *ℤ pos 100) base))

unfoldable pub velocity : List (Option ℤ) → Option ℤ
velocity summaries =
    let half = length summaries / 2 in
    trend (total (take half summaries)) (total (drop half summaries))

-- Step 1, revenue: the trend over more than 30 days, and the volume.
unfoldable pub revenue_points : List (Option ℤ) → Option ℤ
revenue_points [] = some (pos 0 -ℤ pos 50)
revenue_points (s ∷ rest) =
    let all = s ∷ rest in
    let volume = min_ℤ (pos 100) (trunc_div (total all) (pos 1000000)) in
    if ltb 30 (length all)
    then elim (velocity all) [ none ↦ none | some v ↦ some (v +ℤ volume) ]
    else some volume

-- A null that is compared or multiplied raises, here `none`; the level of a product without stock is
-- not read.
abbrev pub is_dead : StockLevel → Option Bool
is_dead p = elim p.current_stock [
  | none ↦ none
  | some q ↦
      if ltb_ℤ (pos 0) q
      then elim p.reorder_level [ none ↦ none | some l ↦ some (ltb_ℤ (l *ℤ pos 5) q) ]
      else some false
]

abbrev pub count_dead : List StockLevel → Option ℕ
count_dead [] = some 0
count_dead (p ∷ rest) = elim (is_dead p) [
  | none ↦ none
  | some dead ↦ elim (count_dead rest) [ none ↦ none | some n ↦ some (if dead then suc n else n) ]
]

-- Step 2, inventory turnover.
unfoldable pub turnover_points : List StockLevel → Option ℤ
turnover_points [] = some (pos 0)
turnover_points (p ∷ rest) =
    let all = p ∷ rest in
    elim (count_dead all) [
      | none ↦ none
      | some n ↦ some (if ltb (3 * length all) (10 * n) then pos 0 -ℤ pos 40 else pos 30)
    ]

-- Step 3, customer base.
unfoldable pub customer_points : ℕ → ℤ
customer_points n = if ltb 100 n then pos 40 else if ltb 10 n then pos 10 else pos 0

-- Step 4, active days.
unfoldable pub consistency_points : List (Option ℤ) → ℤ
consistency_points [] = pos 0
consistency_points (s ∷ rest) = min_ℤ (pos 50) (pos (length (s ∷ rest) / 2))

pub data RiskTier : Type 0 where
  a b c d e : RiskTier

unfoldable pub risk_tier : ℤ → RiskTier
risk_tier score =
    if leb_ℤ (pos 750) score
    then RiskTier.a
    else if leb_ℤ (pos 650) score
    then RiskTier.b
    else if leb_ℤ (pos 550) score
    then RiskTier.c
    else if leb_ℤ (pos 450) score
    then RiskTier.d
    else RiskTier.e

pub record CreditProfile : Type 0 where
  pub credit_score : ℤ
  pub risk_tier : RiskTier

-- The score is clamped to the range, and the tier is read off it.
abbrev pub profile : ℤ → CreditProfile
profile raw =
    let score = max_ℤ (pos 300) (min_ℤ (pos 850) raw) in
    record { credit_score = score; risk_tier = risk_tier score }

-- `none` is the exception, which leaves the stored profile as it was.
unfoldable pub calculate_merchant_score : Signals → Option CreditProfile
calculate_merchant_score s = elim (revenue_points s.summaries) [
  | none ↦ none
  | some r ↦ elim (turnover_points s.products) [
    | none ↦ none
    | some t ↦ some (
        profile
          (pos 500 +ℤ r +ℤ t +ℤ customer_points s.customer_count +ℤ consistency_points s.summaries))
  ]
]
