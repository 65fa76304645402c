-- ===== src/Decisions/Complete.antt =====
-- app/decisions: which recommendations come out.
use retail_iq.Base.{
  ℕ, zero, suc, ◌+◌, ◌≤◌, ◌<◌, ◌≡◌, ◌⊎◌, refl, ap, subst, Bool, true, false, ◌&&◌, Option, none,
  some, List, [], ◌∷◌, ◌++◌, map, arith, ◌==◌, leb, length, length-append, Any, select, Bool-cases,
  inl, inr,
}
use retail_iq.Base.Int.{ℤ, pos, ◌+ℤ◌, ◌-ℤ◌, pos_part, neg_part, leb_ℤ, max_ℤ, int_laws}
use retail_iq.Inventory.Models.{Product}
use retail_iq.Decisions.Context.{
  Context, Action, or_zero, at_or_below, is_low, has_thin_margin, take, low_context, margin_context,
  build_context, evaluate, evaluate_rules,
}

module _ {ℓ} {A : Type ℓ} where
  take_all : (n : ℕ) (xs : List A) → length xs ≤ n → take n xs ≡ xs
  take_all zero [] h = refl
  take_all zero (x ∷ xs) h = absurd (no_room (length xs) h)
    where
      no_room : (k : ℕ) → suc k ≤ 0 → ⊥
      no_room k h = omega arith
  take_all (suc n) [] h = refl
  take_all (suc n) (x ∷ xs) h = rw (take_all n xs (omega (arith, h))) refl

  length-take : (n : ℕ) (xs : List A) → length (take n xs) ≤ n
  length-take zero xs = omega arith
  length-take (suc n) [] = omega arith
  length-take (suc n) (x ∷ xs) = omega (arith, length-take n xs)

  Any-append : (P : A → Type 0) (xs ys : List A) → Any P xs → Any P (xs ++ ys)
  Any-append P [] ys a = absurd a
  Any-append P (x ∷ xs) ys (inl p) = inl p
  Any-append P (x ∷ xs) ys (inr a) = inr (Any-append P xs ys a)

module _ {ℓ κ} {A : Type ℓ} {B : Type κ} where
  Any-map : (P : B → Type 0) (f : A → B) (xs : List A) → Any (λ x. P (f x)) xs → Any P (map f xs)
  Any-map P f [] a = absurd a
  Any-map P f (x ∷ xs) (inl p) = inl p
  Any-map P f (x ∷ xs) (inr a) = inr (Any-map P f xs a)

  length-map : (f : A → B) (xs : List A) → length (map f xs) ≡ length xs
  length-map f [] = refl
  length-map f (x ∷ xs) = rw (length-map f xs) refl

-- A reorder of the product that brings its stock to the reorder level.
abbrev pub Suggests : Product → Action → Type 0
Suggests p (Action.reorder pid u q) =
    (pid ≡ p.product_id) × (or_zero p.current_stock +ℤ q ≡ or_zero p.reorder_level)
Suggests p (Action.price_adjustment pid u) = ⊥

filled : (a b : ℤ) → leb_ℤ a b ≡ true → a +ℤ max_ℤ (pos 0) (b -ℤ a) ≡ b
filled a b h = elim (Bool-cases (leb_ℤ (pos 0) (b -ℤ a))) [
  | inl t ↦ rw t (omega int_laws)
  | inr t ↦
      let le = holds (pos_part a + neg_part b) (pos_part b + neg_part a) h in
      let gt = fails (0 + neg_part (b -ℤ a)) (pos_part (b -ℤ a) + 0) t in
      absurd (impossible a b le gt)
]
  where
    holds : (n m : ℕ) → leb n m ≡ true → n ≤ m
    holds n m h = ground arith

    fails : (n m : ℕ) → leb n m ≡ false → m < n
    fails n m h = ground arith

    impossible :
        (a b : ℤ)
        → pos_part a + neg_part b ≤ pos_part b + neg_part a
        → pos_part (b -ℤ a) + 0 < 0 + neg_part (b -ℤ a)
        → ⊥
    impossible a b le gt = omega (int_laws, le, gt)

low_enough : (a b : Option ℤ) → at_or_below a b ≡ true → leb_ℤ (or_zero a) (or_zero b) ≡ true
low_enough none b h = cc
low_enough (some a) none h = cc
low_enough (some a) (some b) h = h

and_parts : (a b c : Bool) → (a && b && c) ≡ true → c ≡ true
and_parts true true c h = h
and_parts false b c h = cc
and_parts true false c h = cc

suggested :
    (store : ℕ) (p : Product) → is_low store p ≡ true → Suggests p (evaluate (low_context p))
suggested store p h = (
  refl,
  filled (or_zero p.current_stock) (or_zero p.reorder_level) (
      low_enough p.current_stock p.reorder_level (
        and_parts (p.store_id == store) p.is_active (at_or_below p.current_stock p.reorder_level)
          h)),
)

map_append : (xs ys : List Context) → map evaluate (xs ++ ys) ≡ map evaluate xs ++ map evaluate ys
map_append [] ys = refl
map_append (x ∷ xs) ys = rw (map_append xs ys) refl

selected :
    (store : ℕ) (p : Product) (ps : List Product)
    → is_low store p ≡ true
    → Any (λ q. p ≡ q) ps
    → Any (λ q. Suggests p (evaluate (low_context q))) (select (is_low store) ps)
selected store p [] low a = absurd a
selected store p (q ∷ qs) low (inl e) =
    let low_q : is_low store q ≡ true = rw (ap (is_low store) e) at low in
    rw low_q (inl (subst (λ r. Suggests p (evaluate (low_context r))) e (suggested store p low)))
selected store p (q ∷ qs) low (inr a) = elim (Bool-cases (is_low store q)) [
  | inl t ↦ rw t (inr (selected store p qs low a))
  | inr t ↦ rw t (selected store p qs low a)
]

-- An active product of the store at or below its reorder level gets a recommendation to reorder what
-- brings its stock to that level, unless more than 50 products of the store are that low; there are
-- never more than 70 recommendations.
pub recommends_every_low :
    (store : ℕ) (products : List Product) (p : Product)
    → Any (λ q. p ≡ q) products
    → is_low store p ≡ true
    → (Any (Suggests p) (evaluate_rules (build_context store products))
        ⊎ (50 < length (select (is_low store) products)))
      × (length (evaluate_rules (build_context store products)) ≤ 70)
unfolding evaluate_rules build_context
recommends_every_low store products p there low = (
  elim (Bool-cases (leb (length (select (is_low store) products)) 50)) [
    | inr t ↦ inr (more (length (select (is_low store) products)) t)
    | inl t ↦ inl (
        rw (map_append lows margins) (
          Any-append (Suggests p) (map evaluate lows) (map evaluate margins) (
            Any-map (Suggests p) evaluate lows (
              Any-map (λ c. Suggests p (evaluate c)) low_context
                (take 50 (select (is_low store) products))
                (rw
                  (take_all 50 (select (is_low store) products)
                    (few (length (select (is_low store) products)) t))
                  (selected store p products low there))))))
  ],
  rw
      (
        length-map evaluate (lows ++ margins),
        length-append lows margins,
        length-map low_context (take 50 (select (is_low store) products)),
        length-map margin_context (take 20 (select (has_thin_margin store) products)),
      )
      (at_most (length (take 50 (select (is_low store) products)))
        (length (take 20 (select (has_thin_margin store) products)))
        (length-take 50 (select (is_low store) products))
        (length-take 20 (select (has_thin_margin store) products))),
)
  where
    more : (n : ℕ) → leb n 50 ≡ false → 50 < n
    more n t = ground arith

    few : (n : ℕ) → leb n 50 ≡ true → n ≤ 50
    few n t = ground arith

    lows : List Context
    lows = map low_context (take 50 (select (is_low store) products))

    margins : List Context
    margins = map margin_context (take 20 (select (has_thin_margin store) products))

    at_most : (a b : ℕ) → a ≤ 50 → b ≤ 20 → a + b ≤ 70
    at_most a b h g = omega (arith, h, g)
