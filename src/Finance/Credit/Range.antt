-- ===== src/Finance/Credit/Range.antt =====
-- The score's range, its tier, and when it cannot be computed.
use mathlib.Core.Option.{some-injective}
use retail_iq.Base.{
  subst, sym, ◌∙◌, ◌⊎◌, Any, false, ◌≡◌, refl, ◌↔◌, Option, none, some, List, [], ◌∷◌, arith, ltb,
  length, Bool-cases, Option-cases, inl, inr, ◌<◌, ◌/◌,
}
use retail_iq.Base.Int.{ℤ, pos, ◌≤ℤ◌, ◌<ℤ◌, ◌+ℤ◌, ltb_ℤ, eq_of_parts}
use retail_iq.Finance.Credit.{
  StockLevel, is_dead, count_dead, Signals, total, take, drop, velocity, revenue_points,
  turnover_points, customer_points, consistency_points, RiskTier, risk_tier, CreditProfile,
  calculate_merchant_score, profile, trend,
}

-- The lowest score of a tier.
abbrev pub floor : RiskTier → ℤ
floor RiskTier.a = pos 750
floor RiskTier.b = pos 650
floor RiskTier.c = pos 550
floor RiskTier.d = pos 450
floor RiskTier.e = pos 300

-- The highest score of a tier.
abbrev pub ceiling : RiskTier → ℤ
ceiling RiskTier.a = pos 850
ceiling RiskTier.b = pos 749
ceiling RiskTier.c = pos 649
ceiling RiskTier.d = pos 549
ceiling RiskTier.e = pos 449

profile_bands :
    (raw : ℤ)
    → let p = profile raw in
      (floor p.risk_tier ≤ℤ p.credit_score) × (p.credit_score ≤ℤ ceiling p.risk_tier)
unfolding risk_tier
profile_bands raw = ground arith

-- A stored score lies in the band of the stored tier, so between 300 and 850.
pub calculate_merchant_score_bands :
    (s : Signals) {p : CreditProfile}
    → calculate_merchant_score s ≡ some p
    → (floor p.risk_tier ≤ℤ p.credit_score) × (p.credit_score ≤ℤ ceiling p.risk_tier)
unfolding calculate_merchant_score
calculate_merchant_score_bands s {p} h = elim (Option-cases (revenue_points s.summaries)) [
  | inl e ↦ cc (rw (e, calculate_merchant_score) at h)
  | inr (r, e) ↦ elim (Option-cases (turnover_points s.products)) [
    | inl f ↦ cc (rw (e, f, calculate_merchant_score) at h)
    | inr (t, f) ↦
        let raw =
          pos 500 +ℤ r +ℤ t +ℤ customer_points s.customer_count +ℤ consistency_points s.summaries in
        let h' : some (profile raw) ≡ some p = rw (e, f, calculate_merchant_score) at h in
        let same : profile raw ≡ p = some-injective _ _ h' in
        subst (λ q. (floor q.risk_tier ≤ℤ q.credit_score) × (q.credit_score ≤ℤ ceiling q.risk_tier))
          same (profile_bands raw)
  ]
]

-- There is more than 30 days of history, the first half sums to nothing and the second to more.
abbrev pub StartsFromNothing : List (Option ℤ) → Type 0
StartsFromNothing summaries =
    (30 < length summaries)
    × (total (take (length summaries / 2) summaries) ≡ pos 0)
    × (pos 0 <ℤ total (drop (length summaries / 2) summaries))

velocity_fails :
    (xs : List (Option ℤ))
    → (velocity xs ≡ none)
      ↔ ((total (take (length xs / 2) xs) ≡ pos 0) × (pos 0 <ℤ total (drop (length xs / 2) xs)))
unfolding velocity
velocity_fails xs = go (total (take (length xs / 2) xs)) (total (drop (length xs / 2) xs))
  where
    go : (first second : ℤ) → (trend first second ≡ none) ↔ ((first ≡ pos 0) × (pos 0 <ℤ second))
    go first second =
        (λ e. (eq_of_parts first (pos 0) (ground arith), ground arith), λ h. ground arith)

revenue_points_fails : (xs : List (Option ℤ)) → (revenue_points xs ≡ none) ↔ StartsFromNothing xs
unfolding revenue_points
revenue_points_fails [] = (λ e. cc, λ h. absurd (omega arith))
revenue_points_fails (x ∷ rest) =
    let (fails, starts) = velocity_fails (x ∷ rest) in
    elim (Bool-cases (ltb 30 (length (x ∷ rest)))) [
      | inr t ↦ rw t (λ e. cc, λ h. absurd (ground arith))
      | inl t ↦ elim (Option-cases (velocity (x ∷ rest))) [
        | inl n ↦ rw (t, n) (λ e. let f = fails n in (ground arith, f.0, f.1), λ h. refl)
        | inr (v, n) ↦ rw (t, n) (λ e. cc, λ h. cc (starts (h.1, h.2)))
      ]
    ]

-- The product has no stock number, or has stock and no reorder level.
abbrev pub IsIncomplete : StockLevel → Type 0
IsIncomplete p =
    (p.current_stock ≡ none)
    ⊎ ((q : ℤ) × (p.current_stock ≡ some q) × (pos 0 <ℤ q) × (p.reorder_level ≡ none))

some_is_not_none {ℓ} : {A : Type ℓ} {a : A} {o : Option A} → o ≡ some a → o ≡ none → ⊥
some_is_not_none e f = absurd (cc (sym e ∙ f))

is_dead_fails : (p : StockLevel) → (is_dead p ≡ none) ↔ IsIncomplete p
is_dead_fails p = elim (Option-cases p.current_stock) [
  | inl e ↦ rw (e, is_dead) (λ _. inl refl, λ _. refl)
  | inr (q, e) ↦ elim (Bool-cases (ltb_ℤ (pos 0) q)) [
    | inr t ↦ (
      λ n. cc (rw (e, t, is_dead) at n),
      λ h. elim h [
        | inl n ↦ absurd (some_is_not_none e n)
        | inr (r, f, positive, g) ↦
            let same : q ≡ r = some-injective _ _ (sym e ∙ f) in
            absurd (not_above q (subst (λ x. pos 0 <ℤ x) (sym same) positive) t)
      ],
    )
    | inl t ↦ elim (Option-cases p.reorder_level) [
      | inl g ↦ (λ n. inr (q, e, ground arith, g), λ h. rw (e, t, g, is_dead) refl)
      | inr (l, g) ↦ (
        λ n. cc (rw (e, t, g, is_dead) at n),
        λ h. elim h [
          | inl n ↦ absurd (some_is_not_none e n)
          | inr (r, f, positive, n) ↦ absurd (some_is_not_none g n)
        ],
      )
    ]
  ]
]
  where
    not_above : (q : ℤ) → pos 0 <ℤ q → ltb_ℤ (pos 0) q ≡ false → ⊥
    not_above q h t = ground arith

count_dead_fails : (ps : List StockLevel) → (count_dead ps ≡ none) ↔ Any IsIncomplete ps
count_dead_fails [] = (λ e. cc, λ a. absurd a)
count_dead_fails (p ∷ ps) = elim (Option-cases (is_dead p)) [
  | inl e ↦ (λ n. inl ((is_dead_fails p).0 e), λ a. rw (e, count_dead) refl)
  | inr (d, e) ↦ elim (Option-cases (count_dead ps)) [
    | inl f ↦ (λ n. inr ((count_dead_fails ps).0 f), λ a. rw (e, f, count_dead) refl)
    | inr (k, f) ↦ (
      λ n. cc (rw (e, f, count_dead) at n),
      λ a. elim a [
        | inl here ↦ absurd (some_is_not_none e ((is_dead_fails p).1 here))
        | inr there ↦ absurd (some_is_not_none f ((count_dead_fails ps).1 there))
      ],
    )
  ]
]

turnover_points_fails : (ps : List StockLevel) → (turnover_points ps ≡ none) ↔ Any IsIncomplete ps
unfolding turnover_points
turnover_points_fails [] = (λ e. cc, λ a. absurd a)
turnover_points_fails (p ∷ ps) =
    let (fails, lacks) = count_dead_fails (p ∷ ps) in
    elim (Option-cases (count_dead (p ∷ ps))) [
      | inl e ↦ (λ n. fails e, λ a. rw (e, turnover_points) refl)
      | inr (k, e) ↦
          (λ n. cc (rw (e, turnover_points) at n), λ a. absurd (some_is_not_none e (lacks a)))
    ]

-- No score is computed exactly when there are more than 30 days of history whose first half has a
-- revenue of zero in all and whose second half has a positive one, or when an active product has no
-- stock number, or has stock and no reorder level.
pub calculate_merchant_score_fails :
    (s : Signals)
    → (calculate_merchant_score s ≡ none)
      ↔ (StartsFromNothing s.summaries ⊎ Any IsIncomplete s.products)
unfolding calculate_merchant_score
calculate_merchant_score_fails s =
    let (fails, starts) = revenue_points_fails s.summaries in
    let (raises, lacks) = turnover_points_fails s.products in
    elim (Option-cases (revenue_points s.summaries)) [
      | inl e ↦ rw (e, calculate_merchant_score) (λ _. inl (fails e), λ _. refl)
      | inr (r, e) ↦ elim (Option-cases (turnover_points s.products)) [
        | inl f ↦ rw (e, f, calculate_merchant_score) (λ _. inr (raises f), λ _. refl)
        | inr (t, f) ↦ (
          λ n. cc (rw (e, f, calculate_merchant_score) at n),
          λ h. elim h [
            | inl here ↦ absurd (some_is_not_none e (starts here))
            | inr here ↦ absurd (some_is_not_none f (lacks here))
          ],
        )
      ]
    ]
