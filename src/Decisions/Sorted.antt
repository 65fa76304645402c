-- ===== src/Decisions/Sorted.antt =====
-- app/decisions/engine.py: the order of the ranked rules.
use retail_iq.Base.{
  ℕ, ◌≡◌, refl, Bool, true, false, not, ◌&&◌, ◌||◌, List, [], ◌∷◌, arith, ◌==◌, ltb, All, All-map,
  Any, Bool-cases, inl, inr,
}
use retail_iq.Decisions.Models.{Rule}
use retail_iq.Decisions.Ranking.{flag_less, is_less, insert, sort}

-- No rule is larger than one before it.
abbrev pub Sorted : List Rule → Type 0
Sorted [] = Unit
Sorted (r ∷ rs) = All (λ s. is_less r s ≡ false) rs × Sorted rs

is_less_asym : (r s : Rule) → is_less r s ≡ true → is_less s r ≡ false
is_less_asym r s h =
    go r.time_sensitive s.time_sensitive r.priority s.priority r.confidence s.confidence h
  where
    go :
        (a b : Bool) (p q c d : ℕ)
        → (flag_less a b || (not (flag_less b a) && (ltb p q || (p == q && ltb c d)))) ≡ true
        → (flag_less b a || (not (flag_less a b) && (ltb q p || (q == p && ltb d c)))) ≡ false
    go true true p q c d h = ground arith
    go false false p q c d h = ground arith
    go true false p q c d h = cc
    go false true p q c d h = refl

is_less_trans : (r s t : Rule) → is_less r s ≡ false → is_less s t ≡ false → is_less r t ≡ false
is_less_trans r s t h g =
    go r.time_sensitive s.time_sensitive t.time_sensitive r.priority s.priority t.priority
      r.confidence s.confidence t.confidence h g
  where
    go :
        (a b e : Bool) (p q u c d f : ℕ)
        → (flag_less a b || (not (flag_less b a) && (ltb p q || (p == q && ltb c d)))) ≡ false
        → (flag_less b e || (not (flag_less e b) && (ltb q u || (q == u && ltb d f)))) ≡ false
        → (flag_less a e || (not (flag_less e a) && (ltb p u || (p == u && ltb c f)))) ≡ false
    go true true true p q u c d f h g = ground arith
    go false false false p q u c d f h g = ground arith
    go true b false p q u c d f h g = refl
    go true false true p q u c d f h g = cc
    go false true e p q u c d f h g = cc
    go false false true p q u c d f h g = cc

module _ (P : Rule → Type 0) where
  pub All-insert : (r : Rule) (xs : List Rule) → P r → All P xs → All P (insert r xs)
  unfolding insert
  All-insert r [] p h = (p, tt)
  All-insert r (x ∷ xs) p h = elim (Bool-cases (is_less r x)) [
    | inl t ↦ rw (t, insert) (h.0, All-insert r xs p h.1)
    | inr t ↦ rw (t, insert) (p, h)
  ]

  pub All-sort : (xs : List Rule) → All P xs → All P (sort xs)
  unfolding sort
  All-sort [] h = tt
  All-sort (x ∷ xs) h = All-insert x (sort xs) h.0 (All-sort xs h.1)

  pub Any-insert_here : (r : Rule) (xs : List Rule) → P r → Any P (insert r xs)
  unfolding insert
  Any-insert_here r [] p = inl p
  Any-insert_here r (x ∷ xs) p = elim (Bool-cases (is_less r x)) [
    | inl t ↦ rw (t, insert) (inr (Any-insert_here r xs p))
    | inr t ↦ rw (t, insert) (inl p)
  ]

  pub Any-insert_there : (r : Rule) (xs : List Rule) → Any P xs → Any P (insert r xs)
  unfolding insert
  Any-insert_there r [] a = absurd a
  Any-insert_there r (x ∷ xs) (inl p) = elim (Bool-cases (is_less r x)) [
    | inr t ↦ rw (t, insert) (inr (inl p))
    | inl t ↦ rw (t, insert) (inl p)
  ]
  Any-insert_there r (x ∷ xs) (inr q) = elim (Bool-cases (is_less r x)) [
    | inr t ↦ rw (t, insert) (inr (inr q))
    | inl t ↦ rw (t, insert) (inr (Any-insert_there r xs q))
  ]

  pub Any-sort : (xs : List Rule) → Any P xs → Any P (sort xs)
  unfolding sort
  Any-sort [] a = absurd a
  Any-sort (x ∷ xs) (inl p) = Any-insert_here x (sort xs) p
  Any-sort (x ∷ xs) (inr q) = Any-insert_there x (sort xs) (Any-sort xs q)

insert-Sorted : (r : Rule) (xs : List Rule) → Sorted xs → Sorted (insert r xs)
unfolding insert
insert-Sorted r [] h = (tt, tt)
insert-Sorted r (x ∷ xs) h = elim (Bool-cases (is_less r x)) [
  | inl t ↦
      rw (t, insert)
        (
          All-insert (λ s. is_less x s ≡ false) r xs (is_less_asym r x t) h.0,
          insert-Sorted r xs h.1,
        )
  | inr t ↦
      rw (t, insert)
        (
          (
            t,
            All-map (λ s. is_less x s ≡ false) (λ s. is_less r s ≡ false) xs
                (λ s g. is_less_trans r x s t g) h.0,
          ),
          h,
        )
]

pub sort-Sorted : (xs : List Rule) → Sorted (sort xs)
unfolding sort
sort-Sorted [] = tt
sort-Sorted (x ∷ xs) = insert-Sorted x (sort xs) (sort-Sorted xs)
