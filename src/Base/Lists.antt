-- ===== src/Base/Lists.antt =====
-- Lists measured by native numbers, and predicates on every entry.
use Prim.Native.Nat.{ℕ, suc, ◌+◌}
use mathlib.Core.Path.{◌≡◌, refl}
use mathlib.Core.Bool.{Bool, true, false, ◌&&◌}
use mathlib.Core.List.{List, [], ◌∷◌, ◌++◌}
use mathlib.Core.Option.{Option, none, some}
use native.Mathlib.Omega.{arith}
use mathlib.Core.Logic.{◌⊎◌, inl, inr}
use mathlib.Core.Option.{some-injective}
use retail_iq.Base.Tests.{if◌then◌else◌, Bool-cases}

module _ {ℓ} {A : Type ℓ} where
  abbrev pub length : List A → ℕ
  length [] = 0
  length (x ∷ xs) = suc (length xs)

  pub length-append : (xs ys : List A) → length (xs ++ ys) ≡ length xs + length ys
  length-append [] ys = omega arith
  length-append (x ∷ xs) ys = omega (arith, length-append xs ys)

  -- A predicate that computes to a tuple, one part for each entry.
  abbrev pub All {κ} : (A → Type κ) → List A → Type κ
  All P [] = Unit
  All P (x ∷ xs) = P x × All P xs

  -- A predicate that some entry has.
  abbrev pub Any : (A → Type 0) → List A → Type 0
  Any P [] = ⊥
  Any P (x ∷ xs) = P x ⊎ Any P xs

  -- `.filter(test).all()`
  abbrev pub select : (A → Bool) → List A → List A
  select test [] = []
  select test (x ∷ xs) = let rest = select test xs in if test x then x ∷ rest else rest

  -- `.filter(test).first()`
  abbrev pub find_first : (A → Bool) → List A → Option A
  find_first test [] = none
  find_first test (x ∷ xs) = let rest = find_first test xs in if test x then some x else rest

module _ {ℓ κ μ} {A : Type ℓ} where
  pub All-map :
      (P : A → Type κ) (Q : A → Type μ) (xs : List A) → ((x : A) → P x → Q x) → All P xs → All Q xs
  All-map P Q [] f h = tt
  All-map P Q (x ∷ xs) f h = (f x h.0, All-map P Q xs f h.1)

module _ {ℓ κ} {A : Type ℓ} (P : A → Type κ) (test : A → Bool) where
  pub All-find_first :
      (xs : List A) {x : A} → All P xs → find_first test xs ≡ some x → P x × (test x ≡ true)
  All-find_first [] h e = cc
  All-find_first (y ∷ ys) h e = elim (Bool-cases (test y)) [
    | inl t ↦ let e' = some-injective _ _ (rw t at e) in rw (← e') (h.0, t)
    | inr f ↦ All-find_first ys h.1 (rw f at e)
  ]

  pub All-select_head :
      (xs : List A) {x : A} {rest : List A}
      → All P xs
      → select test xs ≡ x ∷ rest
      → P x × (test x ≡ true)
  All-select_head [] h e = cc
  All-select_head (y ∷ ys) {x} h e = elim (Bool-cases (test y)) [
    | inl t ↦ let e' : y ≡ x = cc (rw t at e) in rw (← e') (h.0, t)
    | inr f ↦ All-select_head ys h.1 (rw f at e)
  ]

module _ {ℓ} {A : Type ℓ} where
  -- An assignment to the row that `.filter(test).first()` returns.
  abbrev pub update_first : (A → Bool) → (A → A) → List A → List A
  update_first test f [] = []
  update_first test f (x ∷ xs) =
      let rest = update_first test f xs in if test x then f x ∷ xs else x ∷ rest

  abbrev pub map_where : (A → Bool) → (A → A) → List A → List A
  map_where test f [] = []
  map_where test f (x ∷ xs) = (if test x then f x else x) ∷ map_where test f xs

  -- `all(test(x) for x in xs)`
  abbrev pub all_of : (A → Bool) → List A → Bool
  all_of test [] = true
  all_of test (x ∷ xs) = test x && all_of test xs

  abbrev pub is_empty : List A → Bool
  is_empty [] = true
  is_empty (x ∷ xs) = false

module _ {ℓ} {A : Type ℓ} (test : A → Bool) (f : A → A) where
  pub find_first-update_self :
      ((x : A) → test x ≡ true → test (f x) ≡ true)
      → (xs : List A) {x : A} → find_first test xs ≡ some x
      → find_first test (update_first test f xs) ≡ some (f x)
  find_first-update_self keep [] e = cc
  find_first-update_self keep (y ∷ ys) {x} e = elim (Bool-cases (test y)) [
    | inl t ↦ let e' : y ≡ x = some-injective _ _ (rw t at e) in rw (t, keep y t, e')
    | inr t ↦ rw (t, t) (find_first-update_self keep ys (rw t at e))
  ]

  pub find_first-update_other :
      (other : A → Bool)
      → ((x : A) → test x ≡ true → (other x ≡ false) × (other (f x) ≡ false))
      → (xs : List A) → find_first other (update_first test f xs) ≡ find_first other xs
  find_first-update_other other apart [] = refl
  find_first-update_other other apart (y ∷ ys) = elim (Bool-cases (test y)) [
    | inl t ↦ let (u, u') = apart y t in rw (t, u, u')
    | inr t ↦ rw (t, find_first-update_other other apart ys)
  ]
