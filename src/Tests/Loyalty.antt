-- ===== src/Tests/Loyalty.antt =====
-- A store with a program, two tiers and a customer.
use retail_iq.Base.{refl, false, none, some, [], ◌∷◌, arith}
use retail_iq.Base.Int.{pos, ◌+ℤ◌}
use retail_iq.Loyalty.Models.{LoyaltyTier, CustomerLoyaltyAccount, LoyaltyKind, Db}
use retail_iq.Loyalty.Tiers.{default_program, base_tier, delete_loyalty_tier}
use retail_iq.Loyalty.Accounts.{redeem_loyalty_points, repay_credit}
use retail_iq.Loyalty.Reconciled.{points_of, IsReconciled}
use retail_iq.Loyalty.Requests.{Request, serve, serve-IsReconciled}
use retail_iq.Loyalty.Redeem.{Redeems, redeem_loyalty_points-Redeems}
use retail_iq.Loyalty.Repay.{Lowers, repay_credit-Lowers}
use retail_iq.Loyalty.TierIntegrity.{Deletes, delete_loyalty_tier-Deletes}

abbrev gold : LoyaltyTier
gold = record {
  id = 22;
  program_id = 1;
  name = "Gold";
  min_points = 100000;
  max_points = none;
  multiplier = 150;
  is_default = false;
}

abbrev member : CustomerLoyaltyAccount
member = record {
  id = 40;
  customer_id = 6;
  store_id = 3;
  tier_id = some 22;
  total_points = pos 25000;
  redeemable_points = pos 25000;
  lifetime_earned = pos 25000;
}

abbrev club : Db
club = record {
  programs = default_program 1 3 ∷ [];
  tiers = gold ∷ base_tier 21 1 ∷ [];
  accounts = member ∷ [];
  transactions =
      record {
        account_id = 40;
        transaction_id = some 77;
        kind = LoyaltyKind.earn;
        points = pos 25000;
        balance_after = pos 25000;
      }
      ∷ [];
  ledgers = [];
  credit_transactions = [];
  customers = [];
}

club-IsReconciled : IsReconciled club
unfolding points_of ◌+ℤ◌
club-IsReconciled = record {
  distinct = (tt, tt);
  agrees = (record { total = refl; redeemable = refl }, tt);
  audited = (refl, tt);
}

serve-IsReconciled_example : IsReconciled (serve 3 (Request.redeem 6 none (pos 12000)) club)
serve-IsReconciled_example =
    serve-IsReconciled 3 (Request.redeem 6 none (pos 12000)) club tt club-IsReconciled

redeem_loyalty_points-Redeems_example :
    Redeems 6 3 none (pos 12000) club (redeem_loyalty_points 6 3 none (pos 12000) club)
redeem_loyalty_points-Redeems_example = redeem_loyalty_points-Redeems 6 3 none (pos 12000) club

delete_loyalty_tier-Deletes_example : Deletes 22 club (delete_loyalty_tier 50 22 3 club)
delete_loyalty_tier-Deletes_example =
    delete_loyalty_tier-Deletes 50 22 3 club ((λ e. absurd (omega arith), tt), (tt, tt))
      ((λ i e. ground arith), tt) (λ e. absurd (omega arith), (λ e. absurd (omega arith), tt))

abbrev on_tab : Db
on_tab = record club {
  ledgers =
      record {
        id = 60;
        customer_id = 6;
        store_id = 3;
        balance = pos 5000;
        credit_limit = pos 90000;
      }
      ∷ [];
}

repay_credit-Lowers_example : Lowers 6 3 (pos 2000) on_tab (repay_credit 6 3 (pos 2000) on_tab)
repay_credit-Lowers_example = repay_credit-Lowers 6 3 (pos 2000) on_tab
