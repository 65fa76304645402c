-- ===== src/Pricing/Margins.antt =====
-- app/pricing/engine.py: suggested prices cover the cost.
use retail_iq.Base.{
  ℕ, ◌+◌, ◌*◌, ◌≤◌, ◌<◌, ◌≡◌, refl, true, false, some, arith, ltb, Bool-cases, inl, inr,
}
use retail_iq.Base.Int.{ℤ, pos, negsuc, pos_part, neg_part, ◌-ℤ◌, ◌*ℤ◌, ltb_ℤ, eqb_ℤ, -ℤ_parts}
use retail_iq.Base.Round.{half_even, half_even_nearest, round_div}
use retail_iq.Pricing.Models.{Objective}
use retail_iq.Pricing.Engine.{
  margin_below, margin_above, raised, lowered, for_objective, recommended,
}

times_pos : (k n : ℕ) → pos k *ℤ pos n ≡ pos (k * n)
unfolding ◌*ℤ◌
times_pos k n = grind arith

times_parts :
    (k : ℕ) (x : ℤ)
    → pos_part (pos k *ℤ x) + k * neg_part x ≡ neg_part (pos k *ℤ x) + k * pos_part x
unfolding ◌*ℤ◌
times_parts k (pos n) = grind arith
times_parts k (negsuc n) = grind arith

-- 1.3 times a cost, and 0.9 times a price, to the nearest hundredth.
raised_pos : (c : ℕ) → raised (pos c) ≡ pos (half_even (13 * c) 10)
unfolding round_div
raised_pos c = rw (times_pos 13 c) refl

lowered_pos : (p : ℕ) → lowered (pos p) ≡ pos (half_even (9 * p) 10)
unfolding round_div
lowered_pos p = rw (times_pos 9 p) refl

is_positive : (n : ℕ) → 0 < n → ltb_ℤ (pos 0) (pos n) ≡ true
is_positive n h = ground arith

not_zero : (n : ℕ) → 0 < n → eqb_ℤ (pos n) (pos 0) ≡ false
not_zero n h = ground arith

smaller : (n m : ℕ) → ltb n m ≡ true → n < m
smaller n m t = ground arith

not_smaller : (n m : ℕ) → ltb n m ≡ false → m ≤ n
not_smaller n m t = ground arith

-- The tests of the engine, without quotients.
module _ (p c : ℕ) (h : 0 < p) where
  below_test : margin_below (pos p) (pos c) (pos 15) ≡ true → 85 * p < 100 * c
  below_test t =
      let first = times_parts 100 (pos p -ℤ pos c) in
      let second = times_parts 15 (pos p) in
      let diff = -ℤ_parts (pos p) (pos c) in
      let x = pos 100 *ℤ (pos p -ℤ pos c) in
      let y = pos 15 *ℤ pos p in
      let test =
        smaller (pos_part x + neg_part y) (pos_part y + neg_part x) (rw (is_positive p h) at t) in
      omega (arith, first, second, diff, test)

  not_below_test : margin_below (pos p) (pos c) (pos 15) ≡ false → 100 * c ≤ 85 * p
  not_below_test t =
      let first = times_parts 100 (pos p -ℤ pos c) in
      let second = times_parts 15 (pos p) in
      let diff = -ℤ_parts (pos p) (pos c) in
      let x = pos 100 *ℤ (pos p -ℤ pos c) in
      let y = pos 15 *ℤ pos p in
      let test =
        not_smaller (pos_part x + neg_part y) (pos_part y + neg_part x)
          (rw (is_positive p h) at t) in
      omega (arith, first, second, diff, test)

  above_test : margin_above (pos p) (pos c) (pos 35) ≡ true → 100 * c < 65 * p
  above_test t =
      let first = times_parts 100 (pos p -ℤ pos c) in
      let second = times_parts 35 (pos p) in
      let diff = -ℤ_parts (pos p) (pos c) in
      let x = pos 100 *ℤ (pos p -ℤ pos c) in
      let y = pos 35 *ℤ pos p in
      let test =
        smaller (pos_part y + neg_part x) (pos_part x + neg_part y) (rw (is_positive p h) at t) in
      omega (arith, first, second, diff, test)

raised_covers :
    (c p : ℕ) → 0 < c → 85 * p < 100 * c → (c ≤ half_even (13 * c) 10) × (p ≤ half_even (13 * c) 10)
raised_covers c p h t =
    let near = half_even_nearest (13 * c) 10 (omega arith) in
    (omega (arith, near.0, near.1), omega (arith, near.0, near.1, t))

raised_over_cost : (c : ℕ) → 0 < c → c ≤ half_even (13 * c) 10
raised_over_cost c h =
    let near = half_even_nearest (13 * c) 10 (omega arith) in omega (arith, near.0, near.1)

lowered_covers : (c p : ℕ) → 100 * c < 65 * p → c ≤ half_even (9 * p) 10
lowered_covers c p t =
    let near = half_even_nearest (9 * p) 10 (omega arith) in omega (arith, near.0, near.1, t)

objective_covers :
    (objective : Objective) (c p : ℕ)
    → 100 * c < 65 * p
    → (v : ℕ) × (for_objective objective (pos p) ≡ pos v) × (c ≤ v)
objective_covers Objective.revenue c p t =
    (half_even (9 * p) 10, lowered_pos p, lowered_covers c p t)
objective_covers Objective.profit c p t = (p, refl, omega (arith, t))
objective_covers Objective.volume c p t = (p, refl, omega (arith, t))

-- For a cost and a price above zero a price is suggested, whatever the objective; it is no lower
-- than the cost, and where the margin is below 15 per cent no lower than the price either.
pub recommended_covers_cost :
    (objective : Objective) (c p : ℕ)
    → 0 < c
    → 0 < p
    → (v : ℕ) × (recommended objective (pos c) (pos p) ≡ some (pos v))
      × (c ≤ v)
      × (margin_below (pos p) (pos c) (pos 15) ≡ true → p ≤ v)
unfolding recommended
recommended_covers_cost objective c p hc hp =
    elim (Bool-cases (margin_below (pos p) (pos c) (pos 15))) [
      | inl t ↦
          let (over, up) = raised_covers c p hc (below_test p c hp t) in
          (
            half_even (13 * c) 10,
            rw (is_positive c hc, not_zero p hp, t, raised_pos c, recommended) refl,
            over,
            λ u. up,
          )
      | inr t ↦ elim (Bool-cases (margin_above (pos p) (pos c) (pos 35))) [
        | inl u ↦
            let (v, is_v, over) = objective_covers objective c p (above_test p c hp u) in
            (
              v,
              rw (is_positive c hc, not_zero p hp, t, u, is_v, recommended) refl,
              over,
              λ w. cc (t, w),
            )
        | inr u ↦ (
          p,
          rw (is_positive c hc, not_zero p hp, t, u, recommended) refl,
          omega (arith, not_below_test p c hp t),
          λ w. cc (t, w),
        )
      ]
    ]

settled :
    (c v : ℕ)
    → 0 < c
    → 0 < v
    → raised (pos c) ≡ pos v
    → recommended Objective.profit (pos c) (pos v) ≡ some (pos v)
unfolding recommended
settled c v hc hv r = elim (Bool-cases (margin_below (pos v) (pos c) (pos 15))) [
  | inl t ↦ rw (is_positive c hc, not_zero v hv, t, r, recommended) refl
  | inr t ↦ elim (Bool-cases (margin_above (pos v) (pos c) (pos 35))) [
    | inl u ↦ rw (is_positive c hc, not_zero v hv, t, u, recommended) refl
    | inr u ↦ rw (is_positive c hc, not_zero v hv, t, u, recommended) refl
  ]
]

-- For profit the suggestions settle at once: with a cost and a price above zero, what is suggested for
-- the suggested price is that price.
pub recommended_settles :
    (c p : ℕ)
    → 0 < c
    → 0 < p
    → (v : ℕ) × (recommended Objective.profit (pos c) (pos p) ≡ some (pos v))
      × (recommended Objective.profit (pos c) (pos v) ≡ some (pos v))
unfolding recommended
recommended_settles c p hc hp = elim (Bool-cases (margin_below (pos p) (pos c) (pos 15))) [
  | inl t ↦
      let v = half_even (13 * c) 10 in
      (
        v,
        rw (is_positive c hc, not_zero p hp, t, raised_pos c, recommended) refl,
        settled c v hc (omega (arith, raised_over_cost c hc)) (raised_pos c),
      )
  | inr t ↦ elim (Bool-cases (margin_above (pos p) (pos c) (pos 35))) [
    | inl u ↦
        let same : recommended Objective.profit (pos c) (pos p) ≡ some (pos p) =
          rw (is_positive c hc, not_zero p hp, t, u, recommended) refl in
        (p, same, same)
    | inr u ↦
        let same : recommended Objective.profit (pos c) (pos p) ≡ some (pos p) =
          rw (is_positive c hc, not_zero p hp, t, u, recommended) refl in
        (p, same, same)
  ]
]
