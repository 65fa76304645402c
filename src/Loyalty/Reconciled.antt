-- ===== src/Loyalty/Reconciled.antt =====
-- The points of the accounts against their transactions.
use retail_iq.Base.{
  ℕ, ◌≡◌, refl, sym, ◌≢◌, Bool, true, false, Option, some, List, [], ◌∷◌, arith, ◌==◌,
  if◌then◌else◌, find_first, update_first, All, All-find_first, Bool-cases, inl, inr,
}
use retail_iq.Base.Keys.{DistinctBy, DistinctBy-update_first}
use retail_iq.Base.Int.{ℤ, pos, ◌+ℤ◌}
use retail_iq.Loyalty.Models.{CustomerLoyaltyAccount, LoyaltyKind, LoyaltyTransaction, Db}
use retail_iq.Loyalty.Accounts.{post_points, is_account_of, find_account}

unfoldable pub points_of : ℕ → List LoyaltyTransaction → ℤ
points_of i [] = pos 0
points_of i (t ∷ rest) =
    let earlier = points_of i rest in if t.account_id == i then earlier +ℤ t.points else earlier

-- The account holds what its transactions add up to, all of it redeemable.
pub record Agrees (txns : List LoyaltyTransaction) (a : CustomerLoyaltyAccount) : Type 0 where
  pub total : a.total_points ≡ points_of a.id txns
  pub redeemable : a.redeemable_points ≡ a.total_points

-- Every transaction carries the balance of its account at its time; the latest comes first.
abbrev pub Audited : List LoyaltyTransaction → Type 0
Audited [] = Unit
Audited (t ∷ rest) = (t.balance_after ≡ points_of t.account_id rest +ℤ t.points) × Audited rest

pub record IsReconciled (db : Db) : Type 0 where
  pub distinct : DistinctBy (λ a. a.id) db.accounts
  pub agrees : All (Agrees db.transactions) db.accounts
  pub audited : Audited db.transactions

module _ (t : LoyaltyTransaction) (txns : List LoyaltyTransaction) where
  points_of_self : points_of t.account_id (t ∷ txns) ≡ points_of t.account_id txns +ℤ t.points
  unfolding points_of
  points_of_self = let u : (t.account_id == t.account_id) ≡ true = ground arith in rw u refl

  points_of-other : (i : ℕ) → i ≢ t.account_id → points_of i (t ∷ txns) ≡ points_of i txns
  unfolding points_of
  points_of-other i ne = let u : (t.account_id == i) ≡ false = ground arith in rw u refl

  Agrees-other :
      (a : CustomerLoyaltyAccount) → a.id ≢ t.account_id → Agrees txns a → Agrees (t ∷ txns) a
  Agrees-other a ne h = record {
    total = rw (points_of-other a.id ne) h.total;
    redeemable = h.redeemable;
  }

  module _ (f : CustomerLoyaltyAccount → CustomerLoyaltyAccount)
      (id_f : (a : CustomerLoyaltyAccount) → (f a).id ≡ a.id)
      (total_f : (a : CustomerLoyaltyAccount) → (f a).total_points ≡ a.total_points +ℤ t.points)
      (redeemable_f : (a : CustomerLoyaltyAccount)
        → (f a).redeemable_points ≡ a.redeemable_points +ℤ t.points) where
    Agrees-self :
        (a : CustomerLoyaltyAccount) → a.id ≡ t.account_id → Agrees txns a → Agrees (t ∷ txns) (f a)
    Agrees-self a e h = record {
      total = rw (total_f a, id_f a, h.total, e) (sym points_of_self);
      redeemable = rw (total_f a, redeemable_f a, h.redeemable) refl;
    }

    All-Agrees :
        (test : CustomerLoyaltyAccount → Bool) (accounts : List CustomerLoyaltyAccount)
        {a : CustomerLoyaltyAccount}
        → DistinctBy (λ a. a.id) accounts
        → find_first test accounts ≡ some a
        → a.id ≡ t.account_id
        → All (Agrees txns) accounts
        → All (Agrees (t ∷ txns)) (update_first test f accounts)
    All-Agrees test [] u e i h = cc
    All-Agrees test (x ∷ xs) {a} u e i h = elim (Bool-cases (test x)) [
      | inl s ↦
          let e' : x ≡ a = cc (rw s at e) in
          let j : x.id ≡ t.account_id = rw e' i in
          rw s (Agrees-self x j h.0, others xs (rw j at u.0) h.1)
      | inr s ↦
          let e' = rw s at e in
          let ne : a.id ≢ x.id = (All-find_first (λ y. y.id ≢ x.id) test xs u.0 e').0 in
          rw s (Agrees-other x (λ j. ne (rw (i, j) refl)) h.0, All-Agrees test xs u.1 e' i h.1)
    ]
      where
        others :
            (ys : List CustomerLoyaltyAccount)
            → All (λ y. y.id ≢ t.account_id) ys
            → All (Agrees txns) ys
            → All (Agrees (t ∷ txns)) ys
        others [] n h = tt
        others (y ∷ ys) n h = (Agrees-other y n.0 h.0, others ys n.1 h.1)

module _ (customer sid : ℕ) (kind : LoyaltyKind) (sale : Option ℕ) (points : ℤ) where
  pub post_points-IsReconciled :
      (f : CustomerLoyaltyAccount → CustomerLoyaltyAccount)
      → ((a : CustomerLoyaltyAccount) → (f a).id ≡ a.id)
      → ((a : CustomerLoyaltyAccount) → (f a).total_points ≡ a.total_points +ℤ points)
      → ((a : CustomerLoyaltyAccount) → (f a).redeemable_points ≡ a.redeemable_points +ℤ points)
      → (db : Db) {a : CustomerLoyaltyAccount} → find_account customer sid db ≡ some a
      → IsReconciled db
      → IsReconciled (post_points customer sid kind sale points f a db)
  post_points-IsReconciled f id_f total_f redeemable_f db {a} found h =
      let test = is_account_of customer sid in
      let t : LoyaltyTransaction = record {
        account_id = a.id;
        transaction_id = sale;
        kind = kind;
        points = points;
        balance_after = (f a).total_points;
      } in
      let of_a = (All-find_first (Agrees db.transactions) test db.accounts h.agrees found).0 in
      record {
        distinct = DistinctBy-update_first (λ a. a.id) test f id_f db.accounts h.distinct;
        agrees =
            All-Agrees t db.transactions f id_f total_f redeemable_f test db.accounts h.distinct
              found refl h.agrees;
        audited = (rw (total_f a, of_a.total) refl, h.audited);
      }
