-- ===== src/Loyalty/Calls.antt =====
-- Every loyalty call of a store keeps the points reconciled.
use retail_iq.Base.{
  ℕ, ◌*◌, ◌≡◌, refl, sym, ◌≢◌, false, ◌&&◌, Option, none, some, List, [], ◌∷◌, arith, ◌==◌,
  find_first, All, Bool-cases, Option-cases, inl, inr,
}
use retail_iq.Base.Keys.{
  All-update_first, DistinctBy-update_first, All-map_where, DistinctBy-map_where,
}
use retail_iq.Base.Int.{ℤ, pos, neg, ltb_ℤ, int_laws}
use retail_iq.Loyalty.Models.{
  CustomerLoyaltyAccount, LoyaltyKind, LoyaltyTransaction, Db, LoyaltyProgram, LoyaltyTier,
}
use retail_iq.Loyalty.Tiers.{
  find_program, ensure_loyalty_program, ensure_default_tier, is_default_of, is_taken, is_tier_of,
  has_tier, set_tier, drop_tier, delete_loyalty_tier,
}
use retail_iq.Loyalty.Accounts.{
  is_account_of, find_account, enrolled, has_account, enroll_loyalty_customer, adjusted,
  apply_loyalty_adjustment, redeemed, find_active_program, redeem_loyalty_points,
  adjust_loyalty_points, Adjustment, adjust_to, adjust_one, bulk_adjust_loyalty_points,
  update_customer_loyalty_tier,
}
use retail_iq.Loyalty.Reconciled.{points_of, Agrees, IsReconciled, post_points-IsReconciled}

-- The id is of no account yet, and no transaction names it.
abbrev pub IsFresh : ℕ → Db → Type 0
IsFresh i db = All (λ a. a.id ≢ i) db.accounts × All (λ t. t.account_id ≢ i) db.transactions

points_of_fresh :
    (i : ℕ) (txns : List LoyaltyTransaction)
    → All (λ t. t.account_id ≢ i) txns
    → points_of i txns ≡ pos 0
unfolding points_of
points_of_fresh i [] h = refl
points_of_fresh i (t ∷ rest) h =
    let u : (t.account_id == i) ≡ false = elim (Bool-cases (t.account_id == i)) [
      | inl v ↦ absurd (h.0 (ground arith))
      | inr v ↦ v
    ] in
    rw (u, points_of_fresh i rest h.1) refl

-- The two tables that the points are about are as they were.
pub record SamePoints (db db' : Db) : Type 0 where
  pub accounts : db'.accounts ≡ db.accounts
  pub transactions : db'.transactions ≡ db.transactions

pub SamePoints-refl : (db : Db) → SamePoints db db
SamePoints-refl db = record { accounts = refl; transactions = refl }

pub SamePoints-IsReconciled : (db db' : Db) → SamePoints db db' → IsReconciled db → IsReconciled db'
SamePoints-IsReconciled db db' same h = record {
  distinct = rw same.accounts h.distinct;
  agrees = rw (same.accounts, same.transactions) h.agrees;
  audited = rw same.transactions h.audited;
}

pub ensure_loyalty_program-SamePoints :
    (i sid : ℕ) (db : Db) → SamePoints db (ensure_loyalty_program i sid db).1
unfolding ensure_loyalty_program
ensure_loyalty_program-SamePoints i sid db = elim (Option-cases (find_program sid db)) [
  | inl e ↦ rw (e, ensure_loyalty_program) (record { accounts = refl; transactions = refl })
  | inr (p, e) ↦ rw (e, ensure_loyalty_program) (SamePoints-refl db)
]

abbrev pub WithTier : Db → Option (LoyaltyTier × Db) → Type 0
WithTier db none = Unit {0}
WithTier db (some (t, db')) = SamePoints db db'

pub ensure_default_tier-SamePoints :
    (i : ℕ) (p : LoyaltyProgram) (db : Db) → WithTier db (ensure_default_tier i p db)
unfolding ensure_default_tier
ensure_default_tier-SamePoints i p db =
    elim (Option-cases (find_first (is_default_of p.id) db.tiers)) [
      | inr (t, e) ↦ rw (e, ensure_default_tier) (SamePoints-refl db)
      | inl e ↦ elim (Bool-cases (is_taken i p.id "Base" db)) [
        | inl t ↦ rw (e, t, ensure_default_tier) tt
        | inr t ↦ rw (e, t, ensure_default_tier) (record { accounts = refl; transactions = refl })
      ]
    ]

pub redeem-IsReconciled :
    (customer sid : ℕ) (sale : Option ℕ) (points : ℤ) (db : Db)
    → IsReconciled db
    → IsReconciled (redeem_loyalty_points customer sid sale points db).0
unfolding redeem_loyalty_points
redeem-IsReconciled customer sid sale points db h = elim (Bool-cases (ltb_ℤ points (pos 1))) [
  | inl t ↦ rw t h
  | inr t ↦ elim (Option-cases (find_active_program sid db)) [
    | inl e ↦ rw (e, redeem_loyalty_points) (rw t h)
    | inr (p, e) ↦ elim (Bool-cases (ltb_ℤ points (pos (100 * p.min_redemption_points)))) [
      | inl u ↦ rw (e, redeem_loyalty_points) (rw (t, u) h)
      | inr u ↦ elim (Option-cases (find_account customer sid db)) [
        | inl f ↦ rw (e, f, redeem_loyalty_points) (rw (t, u) h)
        | inr (a, f) ↦ elim (Bool-cases (ltb_ℤ a.redeemable_points points)) [
          | inl v ↦ rw (e, f, redeem_loyalty_points) (rw (t, u, v) h)
          | inr v ↦
              rw (e, f, redeem_loyalty_points)
                (rw (t, u, v)
                  (post_points-IsReconciled customer sid LoyaltyKind.redeem sale (neg points)
                    (redeemed points) (λ a. refl) (λ a. omega int_laws) (λ a. omega int_laws) db f
                    h))
        ]
      ]
    ]
  ]
]

apply-IsReconciled :
    (customer sid : ℕ) (points : ℤ) (db : Db) {a : CustomerLoyaltyAccount}
    → find_account customer sid db ≡ some a
    → IsReconciled db
    → IsReconciled (apply_loyalty_adjustment customer sid points a db)
apply-IsReconciled customer sid points db f h =
    post_points-IsReconciled customer sid LoyaltyKind.adjust none points (adjusted points)
      (λ a. refl) (λ a. refl) (λ a. refl) db f h

pub adjust-IsReconciled :
    (customer sid : ℕ) (points : Option ℤ) (db : Db)
    → IsReconciled db
    → IsReconciled (adjust_loyalty_points customer sid points db).0
unfolding adjust_loyalty_points
adjust-IsReconciled customer sid none db h = h
adjust-IsReconciled customer sid (some points) db h =
    elim (Option-cases (find_account customer sid db)) [
      | inl f ↦ rw (f, adjust_loyalty_points) h
      | inr (a, f) ↦ rw (f, adjust_loyalty_points) (apply-IsReconciled customer sid points db f h)
    ]

adjust_to-IsReconciled :
    (customer sid : ℕ) (points : Option ℤ) (db : Db)
    → IsReconciled db
    → IsReconciled (adjust_to customer sid points db).1
adjust_to-IsReconciled customer sid none db h = h
adjust_to-IsReconciled customer sid (some points) db h =
    elim (Option-cases (find_account customer sid db)) [
      | inl f ↦ rw (f, adjust_to) h
      | inr (a, f) ↦ rw (f, adjust_to) (apply-IsReconciled customer sid points db f h)
    ]

pub bulk-IsReconciled :
    (sid : ℕ) (js : List Adjustment) (db : Db)
    → IsReconciled db
    → IsReconciled (bulk_adjust_loyalty_points sid js db).1
unfolding bulk_adjust_loyalty_points
bulk-IsReconciled sid [] db h = h
bulk-IsReconciled sid (j ∷ rest) db h =
    bulk-IsReconciled sid rest (adjust_one sid j db).1
      (adjust_to-IsReconciled j.customer_id sid j.points db h)

-- A change of tiers alone.
set_tier-Agrees :
    (i : ℕ) (txns : List LoyaltyTransaction) (a : CustomerLoyaltyAccount)
    → Agrees txns a
    → Agrees txns (set_tier i a)
set_tier-Agrees i txns a h = record { total = h.total; redeemable = h.redeemable }

pub set-IsReconciled :
    (customer sid : ℕ) (tier : Option ℕ) (db : Db)
    → IsReconciled db
    → IsReconciled (update_customer_loyalty_tier customer sid tier db).0
unfolding update_customer_loyalty_tier
set-IsReconciled customer sid none db h = h
set-IsReconciled customer sid (some i) db h = elim (Option-cases (find_account customer sid db)) [
  | inl f ↦ rw (f, update_customer_loyalty_tier) h
  | inr (a, f) ↦ elim (Option-cases (find_first (λ t. t.id == i) db.tiers)) [
    | inl e ↦ rw (f, e, update_customer_loyalty_tier) h
    | inr (t, e) ↦
        rw (f, e, update_customer_loyalty_tier)
          (record {
            distinct =
                DistinctBy-update_first (λ a. a.id) (is_account_of customer sid) (set_tier t.id)
                  (λ a. refl) db.accounts h.distinct;
            agrees =
                All-update_first (Agrees db.transactions) (is_account_of customer sid)
                  (set_tier t.id) db.accounts (set_tier-Agrees t.id db.transactions) h.agrees;
            audited = h.audited;
          })
  ]
]

drop-IsReconciled :
    (i : ℕ) (fallback : LoyaltyTier) (db : Db)
    → IsReconciled db
    → IsReconciled (drop_tier i (fallback, db))
drop-IsReconciled i fallback db h = record {
  distinct =
      DistinctBy-map_where (λ a. a.id) (has_tier i) (set_tier fallback.id) (λ a. refl) db.accounts
        h.distinct;
  agrees =
      All-map_where (Agrees db.transactions) (has_tier i) (Agrees db.transactions)
        (set_tier fallback.id) db.accounts
        (λ a agrees t. set_tier-Agrees fallback.id db.transactions a agrees) (λ a agrees t. agrees)
        h.agrees;
  audited = h.audited;
}

pub delete-IsReconciled :
    (new_default i sid : ℕ) (db : Db)
    → IsReconciled db
    → IsReconciled (delete_loyalty_tier new_default i sid db).0
unfolding delete_loyalty_tier
delete-IsReconciled new_default i sid db h = elim (Option-cases (find_program sid db)) [
  | inl e ↦ rw (e, delete_loyalty_tier) h
  | inr (p, e) ↦ elim (Option-cases (find_first (is_tier_of i p.id) db.tiers)) [
    | inl f ↦ rw (e, f, delete_loyalty_tier) h
    | inr (t, f) ↦ elim (Bool-cases t.is_default) [
      | inl d ↦ rw (e, f, delete_loyalty_tier) (rw d h)
      | inr d ↦
          let same = ensure_default_tier-SamePoints new_default p db in
          elim (Option-cases (ensure_default_tier new_default p db)) [
            | inl g ↦ rw (e, f, d, g, delete_loyalty_tier) h
            | inr (r, g) ↦
                rw (e, f, d, g, delete_loyalty_tier)
                  (drop-IsReconciled t.id r.0 r.1 (SamePoints-IsReconciled db r.1 (rw g at same) h))
          ]
    ]
  ]
]

enrolled-IsReconciled :
    (i customer sid : ℕ) (t : LoyaltyTier) (db : Db)
    → IsFresh i db
    → IsReconciled db
    → IsReconciled (enrolled i customer sid (t, db))
enrolled-IsReconciled i customer sid t db fresh h = record {
  distinct = (fresh.0, h.distinct);
  agrees = (
    record { total = sym (points_of_fresh i db.transactions fresh.1); redeemable = refl },
    h.agrees,
  );
  audited = h.audited;
}

pub enroll-IsReconciled :
    (new_program new_tier i customer sid : ℕ) (db : Db)
    → IsFresh i db
    → IsReconciled db
    → IsReconciled (enroll_loyalty_customer new_program new_tier i customer sid db).0
unfolding enroll_loyalty_customer
enroll-IsReconciled new_program new_tier i customer sid db fresh h =
    let known = find_first (λ c. c.customer_id == customer && c.store_id == sid) db.customers in
    elim (Option-cases known) [
      | inl e ↦ rw (e, enroll_loyalty_customer) h
      | inr (c, e) ↦ elim (Option-cases (find_account customer sid db)) [
        | inr (a, f) ↦ rw (e, f, enroll_loyalty_customer) h
        | inl f ↦
            let r = ensure_loyalty_program new_program sid db in
            let same = ensure_loyalty_program-SamePoints new_program sid db in
            let same' = ensure_default_tier-SamePoints new_tier r.0 r.1 in
            elim (Option-cases (ensure_default_tier new_tier r.0 r.1)) [
              | inl g ↦ rw (e, f, g, enroll_loyalty_customer) h
              | inr (q, g) ↦ elim (Bool-cases (has_account customer db.accounts)) [
                | inl t ↦ rw (e, f, g, t, enroll_loyalty_customer) h
                | inr t ↦
                    let same'' : SamePoints r.1 q.1 = rw g at same' in
                    rw (e, f, g, t, enroll_loyalty_customer)
                      (enrolled-IsReconciled i customer sid q.0 q.1
                        (rw (same''.accounts, same''.transactions, same.accounts, same.transactions)
                          fresh)
                        (SamePoints-IsReconciled r.1 q.1 same''
                          (SamePoints-IsReconciled db r.1 same h)))
              ]
            ]
      ]
    ]
