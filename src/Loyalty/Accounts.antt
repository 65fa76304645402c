-- ===== src/Loyalty/Accounts.antt =====
-- app/loyalty/routes.py: the handlers that change loyalty accounts and credit ledgers. A handler's
-- new UUIDs are arguments.
use retail_iq.Base.{
  ℕ, ◌*◌, Bool, true, false, ◌&&◌, Option, none, some, List, [], ◌∷◌, ◌==◌, if◌then◌else◌,
  find_first, update_first,
}
use retail_iq.Base.Int.{ℤ, pos, ◌+ℤ◌, ◌-ℤ◌, neg, ltb_ℤ, max_ℤ}
use retail_iq.Loyalty.Models.{
  LoyaltyProgram, LoyaltyTier, CustomerLoyaltyAccount, LoyaltyKind, CreditLedger, CreditKind, Db,
  Problem, Reply, success, failure,
}
use retail_iq.Loyalty.Tiers.{ensure_loyalty_program, ensure_default_tier, set_tier}

abbrev pub is_account_of : ℕ → ℕ → CustomerLoyaltyAccount → Bool
is_account_of customer sid a = a.customer_id == customer && a.store_id == sid

abbrev pub find_account : ℕ → ℕ → Db → Option CustomerLoyaltyAccount
find_account customer sid db = find_first (is_account_of customer sid) db.accounts

abbrev pub enrolled : ℕ → ℕ → ℕ → LoyaltyTier × Db → Db
enrolled i customer sid (t, db) = record db {
  accounts =
      record {
        id = i;
        customer_id = customer;
        store_id = sid;
        tier_id = some t.id;
        total_points = pos 0;
        redeemable_points = pos 0;
        lifetime_earned = pos 0;
      }
      ∷ db.accounts;
}

abbrev pub has_account : ℕ → List CustomerLoyaltyAccount → Bool
has_account customer [] = false
has_account customer (a ∷ rest) =
    if a.customer_id == customer then true else has_account customer rest

-- A customer has one account: a second one, for another store, raises.
unfoldable pub enroll_loyalty_customer : ℕ → ℕ → ℕ → ℕ → ℕ → Db → Db × Reply
unfolding ensure_loyalty_program ensure_default_tier
enroll_loyalty_customer new_program new_tier i customer sid db =
    elim (find_first (λ c. c.customer_id == customer && c.store_id == sid) db.customers) [
      | none ↦ (db, failure Problem.no_customer 404)
      | some c ↦ elim (find_account customer sid db) [
        | some a ↦ (db, success 200)
        | none ↦
            let (p, db₁) = ensure_loyalty_program new_program sid db in
            elim (ensure_default_tier new_tier p db₁) [
              | none ↦ (db, failure Problem.server_error 500)
              | some r ↦
                  if has_account customer db.accounts
                  then (db, failure Problem.server_error 500)
                  else (enrolled i customer sid r, success 200)
            ]
      ]
    ]

-- Adds a transaction of `points` to an account, which the query found as `a`.
abbrev pub post_points :
    ℕ
    → ℕ
    → LoyaltyKind
    → Option ℕ
    → ℤ
    → (CustomerLoyaltyAccount → CustomerLoyaltyAccount)
    → CustomerLoyaltyAccount
    → Db
    → Db
post_points customer sid kind sale points f a db = record db {
  accounts = update_first (is_account_of customer sid) f db.accounts;
  transactions =
      record {
        account_id = a.id;
        transaction_id = sale;
        kind = kind;
        points = points;
        balance_after = (f a).total_points;
      }
      ∷ db.transactions;
}

abbrev pub adjusted : ℤ → CustomerLoyaltyAccount → CustomerLoyaltyAccount
adjusted points a = record a {
  total_points = a.total_points +ℤ points;
  redeemable_points = a.redeemable_points +ℤ points;
  lifetime_earned = a.lifetime_earned +ℤ max_ℤ points (pos 0);
}

-- `_apply_loyalty_adjustment`
abbrev pub apply_loyalty_adjustment : ℕ → ℕ → ℤ → CustomerLoyaltyAccount → Db → Db
apply_loyalty_adjustment customer sid points a db =
    post_points customer sid LoyaltyKind.adjust none points (adjusted points) a db

abbrev pub redeemed : ℤ → CustomerLoyaltyAccount → CustomerLoyaltyAccount
redeemed points a = record a {
  total_points = a.total_points -ℤ points;
  redeemable_points = a.redeemable_points -ℤ points;
}

abbrev pub find_active_program : ℕ → Db → Option LoyaltyProgram
find_active_program sid db = find_first (λ p. p.store_id == sid && p.is_active) db.programs

-- Less than one hundredth of a point is refused by the schema.
unfoldable pub redeem_loyalty_points : ℕ → ℕ → Option ℕ → ℤ → Db → Db × Reply
redeem_loyalty_points customer sid sale points db =
    if ltb_ℤ points (pos 1)
    then (db, failure Problem.validation 400)
    else elim (find_active_program sid db) [
      | none ↦ (db, failure Problem.no_active_program 422)
      | some p ↦
          if ltb_ℤ points (pos (100 * p.min_redemption_points))
          then (db, failure Problem.below_minimum 422)
          else elim (find_account customer sid db) [
            | none ↦ (db, failure Problem.insufficient_points 422)
            | some a ↦
                if ltb_ℤ a.redeemable_points points
                then (db, failure Problem.insufficient_points 422)
                else (
                  post_points customer sid LoyaltyKind.redeem sale (neg points) (redeemed points) a
                      db,
                  success 200,
                )
          ]
    ]

-- `none` is a body whose points are missing or no number.
unfoldable pub adjust_loyalty_points : ℕ → ℕ → Option ℤ → Db → Db × Reply
adjust_loyalty_points customer sid none db = (db, failure Problem.validation 400)
adjust_loyalty_points customer sid (some points) db = elim (find_account customer sid db) [
  | none ↦ (db, failure Problem.no_account 404)
  | some a ↦ (apply_loyalty_adjustment customer sid points a db, success 200)
]

pub record Adjustment : Type 0 where
  pub customer_id : ℕ
  pub points : Option ℤ

-- The loop of `bulk_adjust_loyalty_points`; the list tells which adjustments went through.
abbrev pub adjust_to : ℕ → ℕ → Option ℤ → Db → Bool × Db
adjust_to customer sid none db = (false, db)
adjust_to customer sid (some points) db = elim (find_account customer sid db) [
  | none ↦ (false, db)
  | some a ↦ (true, apply_loyalty_adjustment customer sid points a db)
]

abbrev pub adjust_one : ℕ → Adjustment → Db → Bool × Db
adjust_one sid j db = adjust_to j.customer_id sid j.points db

unfoldable pub bulk_adjust_loyalty_points : ℕ → List Adjustment → Db → List Bool × Db
bulk_adjust_loyalty_points sid [] db = ([], db)
bulk_adjust_loyalty_points sid (j ∷ rest) db =
    let (done, db₁) = adjust_one sid j db in
    let (others, db₂) = bulk_adjust_loyalty_points sid rest db₁ in (done ∷ others, db₂)

-- The tier is looked up by its id alone.
unfoldable pub update_customer_loyalty_tier : ℕ → ℕ → Option ℕ → Db → Db × Reply
update_customer_loyalty_tier customer sid none db = (db, failure Problem.validation 400)
update_customer_loyalty_tier customer sid (some i) db = elim (find_account customer sid db) [
  | none ↦ (db, failure Problem.no_account 404)
  | some a ↦ elim (find_first (λ t. t.id == i) db.tiers) [
    | none ↦ (db, failure Problem.no_tier 404)
    | some t ↦ (
      record db {
        accounts = update_first (is_account_of customer sid) (set_tier t.id) db.accounts;
      },
      success 200,
    )
  ]
]

abbrev pub is_ledger_of : ℕ → ℕ → CreditLedger → Bool
is_ledger_of customer sid l = l.customer_id == customer && l.store_id == sid

abbrev pub lowered : ℤ → CreditLedger → CreditLedger
lowered amount l = record l { balance = l.balance -ℤ amount }

unfoldable pub repay_credit : ℕ → ℕ → ℤ → Db → Db × Reply
repay_credit customer sid amount db =
    if ltb_ℤ amount (pos 1)
    then (db, failure Problem.validation 400)
    else elim (find_first (is_ledger_of customer sid) db.ledgers) [
      | none ↦ (db, failure Problem.no_ledger 400)
      | some l ↦ (
        record db {
          ledgers = update_first (is_ledger_of customer sid) (lowered amount) db.ledgers;
          credit_transactions =
              record {
                ledger_id = l.id;
                transaction_id = none;
                kind = CreditKind.repayment;
                amount = neg amount;
                balance_after = (lowered amount l).balance;
              }
              ∷ db.credit_transactions;
        },
        success 200,
      )
    ]
