-- ===== src/Transactions/Tax.antt =====
-- The split of a line total into its taxable value and its two taxes.
use retail_iq.Base.{ℕ, ◌+◌, ◌*◌, ◌≡◌, refl, sym, ap, ◌∙◌, arith}
use retail_iq.Base.Int.{ℤ, pos, negsuc, pos_part, neg_part, ◌+ℤ◌, ◌-ℤ◌, ◌*ℤ◌, int_laws}
use retail_iq.Transactions.Gst.{taxable_of, half_tax_of}

pub distribute : (t : ℤ) (a b : ℕ) → t *ℤ pos a +ℤ t *ℤ pos b ≡ t *ℤ pos (a + b)
unfolding ◌+ℤ◌ ◌*ℤ◌
distribute (pos t) a b = grind arith
distribute (negsuc t) a b = grind arith

-- What the taxable value leaves of a line total.
pub rest_of : (t : ℤ) (a b : ℕ) → t *ℤ pos (a + b) -ℤ t *ℤ pos a ≡ t *ℤ pos b
rest_of t a b = let e = distribute t a b in omega (int_laws, ap pos_part e, ap neg_part e)

pub times_parts :
    (a : ℤ) (c : ℕ)
    → pos_part (a *ℤ pos c) + neg_part a * c ≡ neg_part (a *ℤ pos c) + pos_part a * c
unfolding ◌*ℤ◌
times_parts (pos a) c = grind arith
times_parts (negsuc a) c = grind arith

times_twice : (p q s t u v : ℕ) → p + q * u ≡ s + t * u → p * v + q * (u * v) ≡ s * v + t * (u * v)
times_twice p q s t u v e = sym (spread p q u v) ∙ ap (λ k. k * v) e ∙ spread s t u v
  where
    spread : (p q u v : ℕ) → (p + q * u) * v ≡ p * v + q * (u * v)
    spread p q u v = grind arith

pub times_times : (a : ℤ) (u v : ℕ) → (a *ℤ pos u) *ℤ pos v ≡ a *ℤ pos (u * v)
times_times a u v =
    let both =
      times_twice (pos_part (a *ℤ pos u)) (neg_part a) (neg_part (a *ℤ pos u)) (pos_part a) u v
        (times_parts a u) in
    omega (int_laws, times_parts (a *ℤ pos u) v, times_parts a (u * v), both)

pub swap_times : (u v : ℕ) → u * v ≡ v * u
swap_times u v = grind arith

swap_factors : (t : ℤ) (a b : ℕ) → (t *ℤ pos a) *ℤ pos b ≡ (t *ℤ pos b) *ℤ pos a
swap_factors t a b =
    times_times t a b ∙ ap (λ k. t *ℤ pos k) (swap_times a b) ∙ sym (times_times t b a)

-- CGST and SGST of a line are each half the rate on its taxable value, before rounding: a tax has
-- twice the denominator of the taxable value, and its numerator is that of the taxable value times
-- the rate, in ten-thousandths. And the taxable value with both taxes is the line's total.
pub taxable_of-half_tax_of :
    (total : ℤ) (rate : ℕ)
    → ((half_tax_of total rate).over *ℤ pos 10000 ≡ (taxable_of total rate).over *ℤ pos rate)
      × ((half_tax_of total rate).under ≡ 2 * (taxable_of total rate).under)
      × ((taxable_of total rate).over +ℤ (half_tax_of total rate).over
          ≡ total *ℤ pos (taxable_of total rate).under)
unfolding taxable_of half_tax_of
taxable_of-half_tax_of total rate = (
  rw (rest_of total 10000 rate) (swap_factors total rate 10000),
  refl,
  rw (rest_of total 10000 rate) (distribute total 10000 rate),
)
