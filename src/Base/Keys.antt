-- ===== src/Base/Keys.antt =====
-- Rows with a primary key: what updates of a table keep.
use Prim.Native.Nat.{ℕ}
use native.Mathlib.Omega.{arith}
use mathlib.Core.Path.{◌≡◌, sym, ap, subst}
use mathlib.Core.Logic.{◌≢◌, inl, inr}
use mathlib.Core.Bool.{Bool, true, false}
use mathlib.Core.Option.{none, some, some-injective}
use mathlib.Core.List.{List, [], ◌∷◌}
use retail_iq.Base.Tests.{◌==◌, Bool-cases}
use retail_iq.Base.Lists.{All, All-map, All-find_first, find_first, select, update_first, map_where}

pub find_first-test {ℓ} :
    {A : Type ℓ} (test : A → Bool) (xs : List A) {x : A}
    → find_first test xs ≡ some x
    → test x ≡ true
find_first-test test [] e = cc
find_first-test test (y ∷ ys) e = elim (Bool-cases (test y)) [
  | inl t ↦ let e' = some-injective _ _ (rw t at e) in rw (← e') t
  | inr t ↦ find_first-test test ys (rw t at e)
]

pub find_first-none {ℓ} :
    {A : Type ℓ} (test : A → Bool) (xs : List A)
    → find_first test xs ≡ none
    → All (λ x. test x ≡ false) xs
find_first-none test [] e = tt
find_first-none test (x ∷ xs) e = elim (Bool-cases (test x)) [
  | inl t ↦ cc (rw t at e)
  | inr t ↦ (t, find_first-none test xs (rw t at e))
]

module _ {ℓ κ} {A : Type ℓ} (P : A → Type κ) (test : A → Bool) where
  pub All-update_first :
      (f : A → A) (xs : List A)
      → ((x : A) → P x → P (f x))
      → All P xs
      → All P (update_first test f xs)
  All-update_first f [] keep h = tt
  All-update_first f (x ∷ xs) keep h = elim (Bool-cases (test x)) [
    | inl t ↦ rw t (keep x h.0, h.1)
    | inr t ↦ rw t (h.0, All-update_first f xs keep h.1)
  ]

  pub All-map_where :
      (Q : A → Type κ) (f : A → A) (xs : List A)
      → ((x : A) → P x → test x ≡ true → Q (f x))
      → ((x : A) → P x → test x ≡ false → Q x)
      → All P xs
      → All Q (map_where test f xs)
  All-map_where Q f [] there here h = tt
  All-map_where Q f (x ∷ xs) there here h = elim (Bool-cases (test x)) [
    | inl t ↦ rw t (there x h.0 t, All-map_where Q f xs there here h.1)
    | inr t ↦ rw t (here x h.0 t, All-map_where Q f xs there here h.1)
  ]

  pub All-select : (xs : List A) → All P xs → All (λ x. P x × (test x ≡ true)) (select test xs)
  All-select [] h = tt
  All-select (x ∷ xs) h = elim (Bool-cases (test x)) [
    | inl t ↦ rw t ((h.0, t), All-select xs h.1)
    | inr t ↦ rw t (All-select xs h.1)
  ]

module _ {ℓ} {A : Type ℓ} (key : A → ℕ) where
  -- No two rows have one key.
  abbrev pub DistinctBy : List A → Type 0
  DistinctBy [] = Unit
  DistinctBy (x ∷ xs) = All (λ y. key y ≢ key x) xs × DistinctBy xs

  module _ (test : A → Bool) (f : A → A) (keep : (x : A) → key (f x) ≡ key x) where
    pub DistinctBy-update_first :
        (xs : List A) → DistinctBy xs → DistinctBy (update_first test f xs)
    DistinctBy-update_first [] h = tt
    DistinctBy-update_first (x ∷ xs) h = elim (Bool-cases (test x)) [
      | inl t ↦ rw (t, keep) h
      | inr t ↦ rw t (
        All-update_first (λ y. key y ≢ key x) test f xs (λ y ne. rw keep ne) h.0,
        DistinctBy-update_first xs h.1,
      )
    ]

    pub DistinctBy-map_where : (xs : List A) → DistinctBy xs → DistinctBy (map_where test f xs)
    DistinctBy-map_where [] h = tt
    DistinctBy-map_where (x ∷ xs) h =
        let others =
          All-map_where (λ y. key y ≢ key x) test (λ y. key y ≢ key x) f xs (λ y ne t. rw keep ne)
            (λ y ne t. ne) h.0 in
        elim (Bool-cases (test x)) [
          | inl t ↦ rw (t, keep) (others, DistinctBy-map_where xs h.1)
          | inr t ↦ rw t (others, DistinctBy-map_where xs h.1)
        ]

-- The row that a query finds is the row with its key.
pub find_first-key {ℓ} :
    {A : Type ℓ} (key : A → ℕ) (test : A → Bool) (xs : List A) {x : A}
    → DistinctBy key xs
    → find_first test xs ≡ some x
    → find_first (λ y. key y == key x) xs ≡ some x
find_first-key key test [] h e = cc
find_first-key key test (y ∷ ys) {x} h e = elim (Bool-cases (test y)) [
  | inl t ↦
      let e' : y ≡ x = some-injective _ _ (rw t at e) in
      let same : (key y == key x) ≡ true = rw e' (ground arith) in rw same (ap some e')
  | inr t ↦
      let there = rw t at e in
      let other = All-find_first (λ z. key z ≢ key y) test ys h.0 there in
      let apart : (key y == key x) ≡ false = ground (arith, other.0) in
      rw apart (find_first-key key test ys h.1 there)
]

module _ {ℓ κ} {A : Type ℓ} (key : A → ℕ) (test : A → Bool) (f : A → A) (P Q : A → Type κ) where
  apart_first :
      (x : A) (xs : List A)
      → All (λ y. key y ≢ key x) xs
      → All P xs
      → All (λ y. P y × (key y ≢ key x)) xs
  apart_first x [] apart h = tt
  apart_first x (y ∷ ys) apart h = ((h.0, apart.0), apart_first x ys apart.1 h.1)

  -- The found row is updated, and the others have other keys.
  pub All-update_found :
      (xs : List A) {x : A}
      → DistinctBy key xs
      → find_first test xs ≡ some x
      → (P x → Q (f x))
      → ((y : A) → P y → key y ≢ key x → Q y)
      → All P xs
      → All Q (update_first test f xs)
  All-update_found [] d e here there h = tt
  All-update_found (y ∷ ys) {x} d e here there h = elim (Bool-cases (test y)) [
    | inl t ↦
        let e' : y ≡ x = some-injective _ _ (rw t at e) in
        rw t (
          subst (λ z. Q (f z)) (sym e') (here (subst P e' h.0)),
          All-map (λ z. P z × (key z ≢ key y)) Q ys
              (λ z b. there z b.0 (subst (λ w. key z ≢ key w) e' b.1)) (apart_first y ys d.0 h.1),
        )
    | inr t ↦
        let later = rw t at e in
        let other = All-find_first (λ z. key z ≢ key y) test ys d.0 later in
        rw t
          (there y h.0 (λ same. other.0 (sym same)), All-update_found ys d.1 later here there h.1)
  ]
