-- ===== src/Marketplace/Orders.antt =====
-- app/marketplace/services.py: orders and requests for quotations.
use retail_iq.Base.{
  ℕ, suc, ◌+◌, Bool, true, false, Option, none, some, List, [], ◌∷◌, ◌++◌, map, ◌==◌, find_first,
}
use retail_iq.Base.Int.{ℤ, pos, ◌+ℤ◌, ◌*ℤ◌}
use retail_iq.Base.Exec.{Outcome, ok, err}
use retail_iq.Finance.Models.{LoanStatus, LoanProduct, LoanApplication}
use retail_iq.Marketplace.Models.{
  CatalogItem, OrderStatus, PaymentStatus, MarketplacePurchaseOrder, MarketplacePoItem, RfqStatus,
  Db, Line, Problem,
}

abbrev pub find_item : ℕ → Db → Option CatalogItem
find_item i db = find_first (λ c. c.id == i) db.catalog

abbrev pub quantity_of : Line → ℤ
quantity_of l = elim l.quantity [ none ↦ pos 1 | some q ↦ q ]

-- The id of the order is filled in later.
abbrev pub po_item : Line → CatalogItem → MarketplacePoItem
po_item l c = record {
  order_id = 0;
  catalog_item_id = c.id;
  quantity = quantity_of l;
  unit_price = c.unit_price;
  subtotal = quantity_of l *ℤ c.unit_price;
}

-- The loop over the lines, with the subtotal and the items so far, or the id that is not found.
pub data Priced : Type 0 where
  priced : ℤ → List MarketplacePoItem → Priced
  missing : ℕ → Priced

unfoldable pub price_items : Db → List Line → ℤ → List MarketplacePoItem → Priced
price_items db [] subtotal items = Priced.priced subtotal items
price_items db (l ∷ ls) subtotal items = elim (find_item l.catalog_item_id db) [
  | none ↦ Priced.missing l.catalog_item_id
  | some c ↦ price_items db ls (subtotal +ℤ quantity_of l *ℤ c.unit_price) (po_item l c ∷ items)
]

abbrev pub tax_on : ℤ → ℤ
tax_on subtotal = subtotal *ℤ pos 18

-- There is no shipping cost to add.
abbrev pub total_of : ℤ → ℤ
total_of subtotal = subtotal *ℤ pos 100 +ℤ tax_on subtotal

-- What an order is placed with: the merchant, the supplier, the terms, whether finance is asked for,
-- the number that is drawn and the day of today.
pub record Placement : Type 0 where
  pub merchant_id : ℕ
  pub supplier_id : ℕ
  pub payment_terms : ℕ
  pub finance_requested : Bool
  pub order_number : ℕ
  pub today : ℕ

-- Without a loan product there is no loan.
abbrev pub loan_id_of : Bool → Db → Option ℕ
loan_id_of false db = none
loan_id_of true db = elim db.loan_products [ [] ↦ none | ◌∷◌ p (ps → h) ↦ some db.next_loan ]

abbrev pub order : Placement → ℤ → Db → MarketplacePurchaseOrder
order p subtotal db = record {
  id = db.next_order;
  order_number = p.order_number;
  merchant_id = p.merchant_id;
  supplier_profile_id = p.supplier_id;
  status = OrderStatus.submitted;
  subtotal = subtotal;
  tax = tax_on subtotal;
  shipping_cost = pos 0;
  total = total_of subtotal;
  payment_terms = p.payment_terms;
  payment_status = PaymentStatus.pending;
  financed_by_retailiq = p.finance_requested;
  loan_id = loan_id_of p.finance_requested db;
  expected_delivery = p.today + 7;
}

abbrev pub with_order_id : ℕ → MarketplacePoItem → MarketplacePoItem
with_order_id i item = record item { order_id = i }

module _ (stored : ℤ → ℤ) where
  abbrev pub new_loan : Placement → ℤ → LoanProduct → Db → LoanApplication
  new_loan p subtotal lp db = record {
    id = db.next_loan;
    store_id = p.merchant_id;
    loan_product_id = lp.id;
    requested_amount = stored (total_of subtotal);
    approved_amount = some (stored (total_of subtotal));
    tenure_days = 30;
    interest_rate = none;
    outstanding_principal = pos 0;
    total_interest_paid = pos 0;
    status = LoanStatus.approved;
  }

  -- The first loan product, whatever it is, is taken.
  abbrev pub with_loan : Bool → Placement → ℤ → Db → Db
  with_loan false p subtotal db = db
  with_loan true p subtotal db = elim db.loan_products [
    | [] ↦ db
    | ◌∷◌ lp (lps → h) ↦ record db {
      loans = new_loan p subtotal lp db ∷ db.loans;
      next_loan = suc db.next_loan;
    }
  ]

  abbrev pub placed : Placement → ℤ → List MarketplacePoItem → Db → Db
  placed p subtotal items db = record (with_loan p.finance_requested p subtotal db) {
    orders = order p subtotal db ∷ db.orders;
    items = map (with_order_id db.next_order) items ++ db.items;
    next_order = suc db.next_order;
  }

  abbrev pub finish : Placement → Db → Priced → Outcome Db Problem ℕ
  finish p db (Priced.missing i) = err (Problem.catalog_item_not_found i) db
  finish p db (Priced.priced subtotal items) = ok db.next_order (placed p subtotal items db)

  unfoldable pub create_marketplace_order : Placement → List Line → Db → Outcome Db Problem ℕ
  unfolding price_items
  create_marketplace_order p [] db = err Problem.items_required db
  create_marketplace_order p (l ∷ ls) db = finish p db (price_items db (l ∷ ls) (pos 0) [])

unfoldable pub create_rfq : ℕ → ℕ → Db → ℕ × Db
create_rfq merchant items db = (
  db.next_rfq,
  record db {
    rfqs =
        record {
          id = db.next_rfq;
          merchant_id = merchant;
          items = items;
          status = RfqStatus.open_;
          matched_suppliers_count = 0;
        }
        ∷ db.rfqs;
    next_rfq = suc db.next_rfq;
  },
)
