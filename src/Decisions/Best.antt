-- ===== src/Decisions/Best.antt =====
-- app/decisions/engine.py: of each kind of rule about a product the most confident one is kept.
use retail_iq.Base.{
  ℕ, ◌≤◌, ◌≡◌, refl, sym, ◌∙◌, Bool, true, false, ◌&&◌, Option, List, [], ◌∷◌, arith, ltb, All,
  All-map, Any, Bool-cases, inl, inr,
}
use retail_iq.Decisions.Models.{RuleName, Rule}
use retail_iq.Decisions.Ranking.{
  same_name, same_product, same_key, keep_best, dedup, insert, sort, dedup_and_sort, is_less,
}
use retail_iq.Decisions.Sorted.{Sorted, sort-Sorted, All-insert, All-sort, Any-sort}

same_name_eq : (a b : RuleName) → same_name a b ≡ true → a ≡ b
same_name_eq a b h = ground arith

same_name_self : (a : RuleName) → same_name a a ≡ true
same_name_self a = ground arith

same_product_eq : (p q : Option ℕ) → same_product p q ≡ true → p ≡ q
same_product_eq p q h = ground arith

same_product_self : (p : Option ℕ) → same_product p p ≡ true
same_product_self p = ground arith

-- The flag reads the two fields only.
same_key_cong : (r b s : Rule) → same_key r b ≡ true → same_key r s ≡ same_key b s
same_key_cong r b s h =
    let (n, p) =
      fields (same_name r.rule_name b.rule_name) (same_product r.product_id b.product_id) h in
    rw (same_name_eq r.rule_name b.rule_name n, same_product_eq r.product_id b.product_id p) refl
  where
    fields : (x y : Bool) → (x && y) ≡ true → (x ≡ true) × (y ≡ true)
    fields true true e = (refl, refl)
    fields true false e = cc
    fields false y e = cc

same_key_self : (r : Rule) → same_key r r ≡ true
same_key_self r = rw (same_name_self r.rule_name, same_product_self r.product_id) refl

same_key_sym : (r s : Rule) → same_key r s ≡ same_key s r
same_key_sym r s = elim (Bool-cases (same_key r s)) [
  | inl t ↦ t ∙ sym (sym (same_key_cong r s r t) ∙ same_key_self r)
  | inr t ↦ elim (Bool-cases (same_key s r)) [
    | inr u ↦ t ∙ sym u
    | inl u ↦ cc (same_key_cong s r s u, same_key_self s, t)
  ]
]

-- A rule stands for another: same key, at least its confidence.
abbrev pub StandsFor : Rule → Rule → Type 0
StandsFor r b = (same_key r b ≡ true) × (r.confidence ≤ b.confidence)

abbrev pub DistinctKeys : List Rule → Type 0
DistinctKeys [] = Unit
DistinctKeys (b ∷ bs) = All (λ c. same_key b c ≡ false) bs × DistinctKeys bs

-- The ranked rules are the inputs' best ones: keys are distinct, each is one of the inputs, each
-- input has one that stands for it, and they are sorted.
pub record Best (rules ranked : List Rule) : Type 0 where
  pub distinct : DistinctKeys ranked
  pub inputs : All (λ b. Any (λ r. b ≡ r) rules) ranked
  pub covered : All (λ r. Any (StandsFor r) ranked) rules
  pub sorted : Sorted ranked

module _ (P : Rule → Type 0) where
  All-keep_best : (r : Rule) (bs : List Rule) → P r → All P bs → All P (keep_best r bs)
  unfolding keep_best
  All-keep_best r [] p h = (p, tt)
  All-keep_best r (b ∷ bs) p h = elim (Bool-cases (same_key r b)) [
    | inr t ↦ rw (t, keep_best) (h.0, All-keep_best r bs p h.1)
    | inl t ↦ elim (Bool-cases (ltb b.confidence r.confidence)) [
      | inl u ↦ rw (t, u, keep_best) (p, h.1)
      | inr u ↦ rw (t, u, keep_best) h
    ]
  ]

  All-dedup : (best rs : List Rule) → All P rs → All P best → All P (dedup best rs)
  unfolding dedup
  All-dedup best [] p h = h
  All-dedup best (r ∷ rs) p h = All-dedup (keep_best r best) rs p.1 (All-keep_best r best p.0 h)

keep_best-DistinctKeys :
    (r : Rule) (bs : List Rule) → DistinctKeys bs → DistinctKeys (keep_best r bs)
unfolding keep_best
keep_best-DistinctKeys r [] h = (tt, tt)
keep_best-DistinctKeys r (b ∷ bs) h = elim (Bool-cases (same_key r b)) [
  | inr t ↦
      rw (t, keep_best)
        (
          All-keep_best (λ c. same_key b c ≡ false) r bs (same_key_sym b r ∙ t) h.0,
          keep_best-DistinctKeys r bs h.1,
        )
  | inl t ↦ elim (Bool-cases (ltb b.confidence r.confidence)) [
    | inr u ↦ rw (t, u, keep_best) h
    | inl u ↦
        rw (t, u, keep_best)
          (
            All-map (λ c. same_key b c ≡ false) (λ c. same_key r c ≡ false) bs
                (λ c e. same_key_cong r b c t ∙ e) h.0,
            h.1,
          )
  ]
]

less_or_equal : (c d : ℕ) → ltb c d ≡ false → d ≤ c
less_or_equal c d h = ground arith

less_le : (c d e : ℕ) → ltb c d ≡ true → e ≤ c → e ≤ d
less_le c d e h l = ground arith

keep_best_here : (r : Rule) (bs : List Rule) → Any (StandsFor r) (keep_best r bs)
unfolding keep_best
keep_best_here r [] = inl (same_key_self r, omega arith)
keep_best_here r (b ∷ bs) = elim (Bool-cases (same_key r b)) [
  | inr t ↦ rw (t, keep_best) (inr (keep_best_here r bs))
  | inl t ↦ elim (Bool-cases (ltb b.confidence r.confidence)) [
    | inl u ↦ rw (t, u, keep_best) (inl (same_key_self r, omega arith))
    | inr u ↦ rw (t, u, keep_best) (inl (t, less_or_equal b.confidence r.confidence u))
  ]
]

keep_best_there :
    (q r : Rule) (bs : List Rule) → Any (StandsFor q) bs → Any (StandsFor q) (keep_best r bs)
unfolding keep_best
keep_best_there q r [] a = absurd a
keep_best_there q r (b ∷ bs) (inl (same, le)) = elim (Bool-cases (same_key r b)) [
  | inr t ↦ rw (t, keep_best) (inl (same, le))
  | inl t ↦ elim (Bool-cases (ltb b.confidence r.confidence)) [
    | inr u ↦ rw (t, u, keep_best) (inl (same, le))
    | inl u ↦
        rw (t, u, keep_best)
          (inl (
            same_key_cong q b r same ∙ same_key_sym b r ∙ t,
            less_le b.confidence r.confidence q.confidence u le,
          ))
  ]
]
keep_best_there q r (b ∷ bs) (inr later) = elim (Bool-cases (same_key r b)) [
  | inr t ↦ rw (t, keep_best) (inr (keep_best_there q r bs later))
  | inl t ↦ elim (Bool-cases (ltb b.confidence r.confidence)) [
    | inr u ↦ rw (t, u, keep_best) (inr later)
    | inl u ↦ rw (t, u, keep_best) (inr later)
  ]
]

dedup-DistinctKeys : (best rs : List Rule) → DistinctKeys best → DistinctKeys (dedup best rs)
unfolding dedup
dedup-DistinctKeys best [] h = h
dedup-DistinctKeys best (r ∷ rs) h =
    dedup-DistinctKeys (keep_best r best) rs (keep_best-DistinctKeys r best h)

dedup_there :
    (q : Rule) (best rs : List Rule) → Any (StandsFor q) best → Any (StandsFor q) (dedup best rs)
unfolding dedup
dedup_there q best [] a = a
dedup_there q best (r ∷ rs) a = dedup_there q (keep_best r best) rs (keep_best_there q r best a)

dedup_covers : (best rs : List Rule) → All (λ r. Any (StandsFor r) (dedup best rs)) rs
unfolding dedup
dedup_covers best [] = tt
dedup_covers best (r ∷ rs) = (
  dedup_there r (keep_best r best) rs (keep_best_here r best),
  dedup_covers (keep_best r best) rs,
)

insert-DistinctKeys :
    (r : Rule) (xs : List Rule)
    → All (λ s. same_key r s ≡ false) xs
    → DistinctKeys xs
    → DistinctKeys (insert r xs)
unfolding insert
insert-DistinctKeys r [] a h = (tt, tt)
insert-DistinctKeys r (x ∷ xs) a h = elim (Bool-cases (is_less r x)) [
  | inr t ↦ rw (t, insert) (a, h)
  | inl t ↦
      rw (t, insert)
        (
          All-insert (λ s. same_key x s ≡ false) r xs (same_key_sym x r ∙ a.0) h.0,
          insert-DistinctKeys r xs a.1 h.1,
        )
]

sort-DistinctKeys : (xs : List Rule) → DistinctKeys xs → DistinctKeys (sort xs)
unfolding sort
sort-DistinctKeys [] h = tt
sort-DistinctKeys (x ∷ xs) h =
    insert-DistinctKeys x (sort xs) (All-sort (λ s. same_key x s ≡ false) xs h.0)
      (sort-DistinctKeys xs h.1)

itself :
    (rs more : List Rule)
    → ((r : Rule) → Any (λ s. r ≡ s) rs → Any (λ s. r ≡ s) more)
    → All (λ r. Any (λ s. r ≡ s) more) rs
itself [] more f = tt
itself (r ∷ rs) more f = (f r (inl refl), itself rs more (λ s a. f s (inr a)))

-- Of any list of rules the ranked ones have distinct keys of rule name and product, are all among
-- the inputs, include for each input one with its key and at least its confidence, and come in
-- order: urgent ones first, then by priority, then by confidence.
pub dedup_and_sort-Best : (rules : List Rule) → Best rules (dedup_and_sort rules)
unfolding dedup_and_sort
dedup_and_sort-Best rules =
    let kept = dedup [] rules in
    record {
      distinct = sort-DistinctKeys kept (dedup-DistinctKeys [] rules tt);
      inputs =
          All-sort (λ b. Any (λ r. b ≡ r) rules) kept
            (All-dedup (λ b. Any (λ r. b ≡ r) rules) [] rules (itself rules rules (λ r a. a)) tt);
      covered =
          All-map (λ r. Any (StandsFor r) kept) (λ r. Any (StandsFor r) (sort kept)) rules
            (λ r a. Any-sort (StandsFor r) kept a) (dedup_covers [] rules);
      sorted = sort-Sorted kept;
    }
