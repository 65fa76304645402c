-- ===== src/Loyalty/TierIntegrity.antt =====
-- Deleting a tier leaves no account without its tier.
use retail_iq.Base.{
  ℕ, ◌≡◌, refl, sym, ap, subst, ◌≢◌, Bool, true, false, ◌||◌, Option, none, some, List, [], ◌∷◌,
  arith, ◌==◌, not, find_first, select, All, All-map, All-find_first, Bool-cases, Option-cases, inl,
  inr,
}
use retail_iq.Base.Keys.{DistinctBy, All-map_where, find_first-test}
use retail_iq.Loyalty.Models.{
  LoyaltyProgram, LoyaltyTier, CustomerLoyaltyAccount, Db, Reply, success, failure,
}
use retail_iq.Loyalty.Tiers.{
  find_program, is_default_of, is_taken, ensure_default_tier, is_tier_of, has_tier, set_tier,
  drop_tier, delete_loyalty_tier,
}

abbrev pub contains : ℕ → List LoyaltyTier → Bool
contains i [] = false
contains i (t ∷ rest) = t.id == i || contains i rest

-- The tier of the account, if any, is a row of the table.
abbrev pub IsTiered : List LoyaltyTier → CustomerLoyaltyAccount → Type 0
IsTiered tiers a = (i : ℕ) → a.tier_id ≡ some i → contains i tiers ≡ true

contains-find_first :
    (test : LoyaltyTier → Bool) (tiers : List LoyaltyTier) {t : LoyaltyTier}
    → find_first test tiers ≡ some t
    → contains t.id tiers ≡ true
contains-find_first test [] e = cc
contains-find_first test (x ∷ xs) {t} e = elim (Bool-cases (test x)) [
  | inl u ↦ let e' : x ≡ t = cc (rw u at e) in rw e' (ground arith)
  | inr u ↦ rw (contains-find_first test xs {t = t} (rw u at e)) (ground arith)
]

-- Two rows with one id are one row.
same_row :
    (test other : LoyaltyTier → Bool) (tiers : List LoyaltyTier) {t u : LoyaltyTier}
    → DistinctBy (λ t. t.id) tiers
    → find_first test tiers ≡ some t
    → find_first other tiers ≡ some u
    → t.id ≡ u.id
    → t ≡ u
same_row test other [] d e f same = cc
same_row test other (x ∷ xs) {t} {u} d e f same = elim (Bool-cases (test x)) [
  | inl v ↦
      let e' : x ≡ t = cc (rw v at e) in
      elim (Bool-cases (other x)) [
        | inl w ↦ let f' : x ≡ u = cc (rw w at f) in cc
        | inr w ↦
            let ne = (All-find_first (λ y. y.id ≢ x.id) other xs d.0 (rw w at f)).0 in
            absurd (ne (subst (λ y. u.id ≡ y.id) (sym e') (sym same)))
      ]
  | inr v ↦ elim (Bool-cases (other x)) [
    | inl w ↦
        let f' : x ≡ u = cc (rw w at f) in
        let ne = (All-find_first (λ y. y.id ≢ x.id) test xs d.0 (rw v at e)).0 in
        absurd (ne (subst (λ y. t.id ≡ y.id) (sym f') same))
    | inr w ↦ same_row test other xs d.1 (rw v at e) (rw w at f) same
  ]
]

contains-select :
    (i j : ℕ) (tiers : List LoyaltyTier)
    → j ≢ i
    → contains j tiers ≡ true
    → contains j (select (λ t. not (t.id == i)) tiers) ≡ true
contains-select i j [] ne h = h
contains-select i j (t ∷ rest) ne h = elim (Bool-cases (t.id == i)) [
  | inl u ↦
      let v : (t.id == j) ≡ false = ground arith in rw u (contains-select i j rest ne (rw v at h))
  | inr u ↦ elim (Bool-cases (t.id == j)) [
    | inl v ↦ rw (u, v) refl
    | inr v ↦ rw (u, v) (contains-select i j rest ne (rw v at h))
  ]
]

contains-select_none :
    (i : ℕ) (tiers : List LoyaltyTier) → contains i (select (λ t. not (t.id == i)) tiers) ≡ false
contains-select_none i [] = refl
contains-select_none i (t ∷ rest) = elim (Bool-cases (t.id == i)) [
  | inl u ↦ rw u (contains-select_none i rest)
  | inr u ↦ rw (u, u) (contains-select_none i rest)
]

-- The default tier that the handler falls back to is a row, and is not the row to delete.
abbrev Falls : ℕ → Db → Option (LoyaltyTier × Db) → Type 0
Falls i db none = Unit {0}
Falls i db (some (fallback, db')) =
    (fallback.id ≢ i)
    × (contains fallback.id db'.tiers ≡ true)
    × ((j : ℕ) → contains j db.tiers ≡ true → contains j db'.tiers ≡ true)
    × (db'.accounts ≡ db.accounts)

ensure-Falls :
    (new_default : ℕ) (p : LoyaltyProgram) (test : LoyaltyTier → Bool) (db : Db) {t : LoyaltyTier}
    → DistinctBy (λ t. t.id) db.tiers
    → All (λ t. t.id ≢ new_default) db.tiers
    → find_first test db.tiers ≡ some t
    → t.is_default ≡ false
    → Falls t.id db (ensure_default_tier new_default p db)
unfolding ensure_default_tier
ensure-Falls new_default p test db {t} d fresh e plain =
    elim (Option-cases (find_first (is_default_of p.id) db.tiers)) [
      | inl f ↦
          let ne = (All-find_first (λ t. t.id ≢ new_default) test db.tiers fresh e).0 in
          elim (Bool-cases (is_taken new_default p.id "Base" db)) [
            | inl v ↦ rw (f, v, ensure_default_tier) tt
            | inr v ↦
                rw (f, v, ensure_default_tier)
                  (λ eq. ne (sym eq), ground arith, λ j h. ground arith, refl)
          ]
      | inr (u, f) ↦
          let default = find_first-test (is_default_of p.id) db.tiers f in
          let u_default : u.is_default ≡ true = ground arith in
          rw (f, ensure_default_tier)
            (
              λ eq.
                  let same = same_row (is_default_of p.id) test db.tiers d f e eq in
                  absurd (cc (ap (λ (v : LoyaltyTier). v.is_default) same, u_default, plain)),
              contains-find_first (is_default_of p.id) db.tiers f,
              λ j h. h,
              refl,
            )
    ]

drop-IsTiered :
    (i : ℕ) (fallback : LoyaltyTier) (db : Db)
    → fallback.id ≢ i
    → contains fallback.id db.tiers ≡ true
    → All (IsTiered db.tiers) db.accounts
    → let db' = drop_tier i (fallback, db) in All (IsTiered db'.tiers) db'.accounts
drop-IsTiered i fallback db ne held h =
    let tiers' = select (λ t. not (t.id == i)) db.tiers in
    All-map_where (IsTiered db.tiers) (has_tier i) (IsTiered tiers') (set_tier fallback.id)
      db.accounts
      (λ a tiered t j e.
        let e' : fallback.id ≡ j = cc in
        subst (λ j. contains j tiers' ≡ true) e' (contains-select i fallback.id db.tiers ne held))
      (λ a tiered t j e.
        let v : (j == i) ≡ false = rw (e, has_tier) at t in
        contains-select i j db.tiers (ground arith) (tiered j e))
      h

-- How a deletion has ended.
abbrev pub Deletes : ℕ → Db → Db × Reply → Type 0
Deletes i db (db', success code) =
    All (IsTiered db'.tiers) db'.accounts
    × (contains i db'.tiers ≡ false)
    × ((j : ℕ) → j ≢ i → contains j db.tiers ≡ true → contains j db'.tiers ≡ true)
Deletes i db (db', failure p code) = db' ≡ db

-- When tier ids are distinct, every account's tier is in the table and the id for a new default
-- tier is not in use, deleting a tier either changes nothing, or removes the tier, keeps all others
-- and leaves every account's tier in the table.
pub delete_loyalty_tier-Deletes :
    (new_default i sid : ℕ) (db : Db)
    → DistinctBy (λ t. t.id) db.tiers
    → All (IsTiered db.tiers) db.accounts
    → All (λ t. t.id ≢ new_default) db.tiers
    → Deletes i db (delete_loyalty_tier new_default i sid db)
unfolding delete_loyalty_tier
delete_loyalty_tier-Deletes new_default i sid db d tiered fresh =
    elim (Option-cases (find_program sid db)) [
      | inl e ↦ rw (e, delete_loyalty_tier) refl
      | inr (p, e) ↦ elim (Option-cases (find_first (is_tier_of i p.id) db.tiers)) [
        | inl f ↦ rw (e, f, delete_loyalty_tier) refl
        | inr (t, f) ↦ elim (Bool-cases t.is_default) [
          | inl u ↦ rw (e, f, delete_loyalty_tier) (rw u refl)
          | inr u ↦
              let falls = ensure-Falls new_default p (is_tier_of i p.id) db d fresh f u in
              let same : t.id ≡ i = found-id p f in
              elim (Option-cases (ensure_default_tier new_default p db)) [
                | inl g ↦ rw (e, f, u, g, delete_loyalty_tier) refl
                | inr (r, g) ↦
                    rw (e, f, u, g, delete_loyalty_tier) (dropped t r same (rw g at falls))
              ]
        ]
      ]
    ]
  where
    found-id :
        (p : LoyaltyProgram) {t : LoyaltyTier}
        → find_first (is_tier_of i p.id) db.tiers ≡ some t
        → t.id ≡ i
    found-id p f = let u = find_first-test (is_tier_of i p.id) db.tiers f in ground arith

    dropped :
        (t : LoyaltyTier) (r : LoyaltyTier × Db)
        → t.id ≡ i
        → Falls t.id db (some r)
        → Deletes i db (drop_tier t.id r, success 200)
    dropped t (fallback, db₁) same (ne, held, keeps, accounts) = (
      drop-IsTiered t.id fallback db₁ ne held (
          rw accounts (
            All-map (IsTiered db.tiers) (IsTiered db₁.tiers) db.accounts
              (λ a h j e. keeps j (h j e)) tiered)),
      rw same (contains-select_none i db₁.tiers),
      λ j ne' h. rw same (contains-select i j db₁.tiers ne' (keeps j h)),
    )
