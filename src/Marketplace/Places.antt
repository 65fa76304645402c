-- ===== src/Marketplace/Places.antt =====
-- app/marketplace: what an order places.
use retail_iq.Base.{
  ℕ, ◌+◌, ◌≡◌, refl, ◌⊎◌, true, false, Option, none, some, List, [], ◌∷◌, ◌++◌, map, length, All,
}
use retail_iq.Base.Int.{ℤ, pos, ◌*ℤ◌}
use retail_iq.Transactions.Tax.{distribute}
use retail_iq.Finance.Models.{LoanStatus, LoanProduct, LoanApplication}
use retail_iq.Marketplace.Models.{
  OrderStatus, PaymentStatus, MarketplacePurchaseOrder, MarketplacePoItem, Db, Line,
}
use retail_iq.Marketplace.Orders.{Placement, new_loan}
use retail_iq.Marketplace.Lines.{sum_of, IsPriced, IsOrdered}

-- A loan of 30 days over the total.
abbrev approved_loan : (ℤ → ℤ) → Placement → ℤ → LoanProduct → Db → LoanApplication
approved_loan stored p subtotal lp before = record {
  id = before.next_loan;
  store_id = p.merchant_id;
  loan_product_id = lp.id;
  requested_amount = stored (subtotal *ℤ pos 118);
  approved_amount = some (stored (subtotal *ℤ pos 118));
  tenure_days = 30;
  interest_rate = none;
  outstanding_principal = pos 0;
  total_interest_paid = pos 0;
  status = LoanStatus.approved;
}

-- A submitted order whose payment is pending, with the tax of 18 per cent and no shipping cost.
abbrev submitted : Placement → ℤ → Option ℕ → Db → MarketplacePurchaseOrder
submitted p subtotal loan before = record {
  id = before.next_order;
  order_number = p.order_number;
  merchant_id = p.merchant_id;
  supplier_profile_id = p.supplier_id;
  status = OrderStatus.submitted;
  subtotal = subtotal;
  tax = subtotal *ℤ pos 18;
  shipping_cost = pos 0;
  total = subtotal *ℤ pos 118;
  payment_terms = p.payment_terms;
  payment_status = PaymentStatus.pending;
  financed_by_retailiq = p.finance_requested;
  loan_id = loan;
  expected_delivery = p.today + 7;
}

-- The loan of an order: none without a request or without a loan product, and otherwise one that is
-- approved over the total.
abbrev pub Financed : (ℤ → ℤ) → Placement → ℤ → Option ℕ → Db → Db → Type 0
Financed stored p subtotal loan before after =
    ((p.finance_requested ≡ false) × (loan ≡ none) × (after.loans ≡ before.loans))
    ⊎ ((p.finance_requested ≡ true)
        × (before.loan_products ≡ [])
        × (loan ≡ none)
        × (after.loans ≡ before.loans))
    ⊎ ((lp : LoanProduct) × (rest : List LoanProduct) × (before.loan_products ≡ lp ∷ rest)
        × (loan ≡ some before.next_loan)
        × (after.loans ≡ approved_loan stored p subtotal lp before ∷ before.loans))

pub record Places (stored : ℤ → ℤ) (p : Placement) (lines : List Line) (before after : Db)
    : Type 0 where
  pub subtotal : ℤ
  pub items : List MarketplacePoItem
  pub loan : Option ℕ
  pub ordered : after.orders ≡ submitted p subtotal loan before ∷ before.orders
  pub added :
      after.items
      ≡ map (λ (i : MarketplacePoItem). record i { order_id = before.next_order }) items
        ++ before.items
  pub wanted : All (IsOrdered items) lines
  pub count : length items ≡ length lines
  pub sum : subtotal ≡ sum_of items
  pub priced : All (IsPriced before) items
  pub financed : Financed stored p subtotal loan before after

approved :
    (stored : ℤ → ℤ) (p : Placement) (s : ℤ) (lp : LoanProduct) (db : Db)
    → new_loan stored p s lp db ≡ approved_loan stored p s lp db
approved stored p s lp db = rw (distribute s 100 18) refl
