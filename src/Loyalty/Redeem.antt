-- ===== src/Loyalty/Redeem.antt =====
-- What a redemption of points does, on every outcome.
use retail_iq.Base.{
  ℕ, ◌*◌, ◌≡◌, refl, true, false, ◌&&◌, Option, some, ◌∷◌, arith, ◌==◌, Bool-cases, Option-cases,
  inl, inr, find_first-update_self, find_first-update_other,
}
use retail_iq.Base.Int.{ℤ, pos, neg, ◌-ℤ◌, ◌≤ℤ◌, ltb_ℤ, int_laws}
use retail_iq.Loyalty.Models.{
  LoyaltyProgram, CustomerLoyaltyAccount, LoyaltyKind, Db, Reply, success, failure,
}
use retail_iq.Loyalty.Accounts.{
  is_account_of, find_account, find_active_program, redeemed, redeem_loyalty_points, post_points,
}

-- How a redemption has ended.
abbrev pub Redeems : ℕ → ℕ → Option ℕ → ℤ → Db → Db × Reply → Type 0
Redeems customer sid sale points db (db', success code) =
    (p : LoyaltyProgram) × (a : CustomerLoyaltyAccount) × (find_active_program sid db ≡ some p)
    × (pos (100 * p.min_redemption_points) ≤ℤ points)
    × (find_account customer sid db ≡ some a)
    × (find_account customer sid db'
        ≡ some (record a {
          total_points = a.total_points -ℤ points;
          redeemable_points = a.redeemable_points -ℤ points;
        }))
    × (pos 0 ≤ℤ a.redeemable_points -ℤ points)
    × (a.redeemable_points -ℤ points ≤ℤ a.redeemable_points)
    × ((c s : ℕ)
        → ((c == customer && s == sid) ≡ false)
        → find_account c s db' ≡ find_account c s db)
    × (db'.transactions
        ≡ record {
          account_id = a.id;
          transaction_id = sale;
          kind = LoyaltyKind.redeem;
          points = neg points;
          balance_after = a.total_points -ℤ points;
        }
          ∷ db.transactions)
Redeems customer sid sale points db (db', failure p code) = db' ≡ db

other_account :
    (customer sid c s : ℕ) (a : CustomerLoyaltyAccount)
    → ((c == customer && s == sid) ≡ false)
    → is_account_of customer sid a ≡ true
    → is_account_of c s a ≡ false
other_account customer sid c s a ne t = ground arith

redeem_success :
    (customer sid : ℕ) (sale : Option ℕ) (points : ℤ) (db : Db) {p : LoyaltyProgram}
    {a : CustomerLoyaltyAccount}
    → (ltb_ℤ points (pos 1) ≡ false)
    → (find_active_program sid db ≡ some p)
    → (ltb_ℤ points (pos (100 * p.min_redemption_points)) ≡ false)
    → (find_account customer sid db ≡ some a)
    → (ltb_ℤ a.redeemable_points points ≡ false)
    → Redeems customer sid sale points db (
      post_points customer sid LoyaltyKind.redeem sale (neg points) (redeemed points) a db,
      success 200,
    )
redeem_success customer sid sale points db {p} {a} positive e enough f has = (
  p,
  a,
  e,
  ground arith,
  f,
  find_first-update_self (is_account_of customer sid) (redeemed points) (λ x h. h) db.accounts f,
  let h : points ≤ℤ a.redeemable_points = ground arith in omega (int_laws, h),
  let h : pos 0 ≤ℤ points = ground arith in omega (int_laws, h),
  λ c s ne.
      find_first-update_other (is_account_of customer sid) (redeemed points) (is_account_of c s)
        (λ x t. let u = other_account customer sid c s x ne t in (u, u)) db.accounts,
  refl,
)

-- A redemption either is refused and changes nothing, or finds the store's active program, an account
-- and at least the program's minimum of points, takes the points off the total and off the
-- redeemable points of that account, which stay between zero and what they were, leaves every other account as it was, and adds one
-- transaction of minus the points with the new balance.
pub redeem_loyalty_points-Redeems :
    (customer sid : ℕ) (sale : Option ℕ) (points : ℤ) (db : Db)
    → Redeems customer sid sale points db (redeem_loyalty_points customer sid sale points db)
unfolding redeem_loyalty_points
redeem_loyalty_points-Redeems customer sid sale points db =
    elim (Bool-cases (ltb_ℤ points (pos 1))) [
      | inl t ↦ rw t refl
      | inr t ↦ elim (Option-cases (find_active_program sid db)) [
        | inl e ↦ rw (e, redeem_loyalty_points) (rw t refl)
        | inr (p, e) ↦ elim (Bool-cases (ltb_ℤ points (pos (100 * p.min_redemption_points)))) [
          | inl u ↦ rw (e, redeem_loyalty_points) (rw (t, u) refl)
          | inr u ↦ elim (Option-cases (find_account customer sid db)) [
            | inl f ↦ rw (e, f, redeem_loyalty_points) (rw (t, u) refl)
            | inr (a, f) ↦ elim (Bool-cases (ltb_ℤ a.redeemable_points points)) [
              | inl v ↦ rw (e, f, redeem_loyalty_points) (rw (t, u, v) refl)
              | inr v ↦
                  let r : redeem_loyalty_points customer sid sale points db ≡ (
                    post_points customer sid LoyaltyKind.redeem sale (neg points) (redeemed points)
                        a db,
                    success 200,
                  ) =
                    rw (e, f, redeem_loyalty_points) (rw (t, u, v) refl) in
                  rw r (redeem_success customer sid sale points db t e u f v)
            ]
          ]
        ]
      ]
    ]
