-- ===== src/Finance/Loan.antt =====
-- app/finance/loan_engine.py: the life of a loan.
pub mod Repay
pub mod Lifecycle
pub mod History
use retail_iq.Base.{
  ℕ, suc, Bool, true, false, not, ◌&&◌, ◌||◌, Option, none, some, List, [], ◌∷◌, map, ltb, ◌==◌,
  if◌then◌else◌, find_first,
}
use retail_iq.Base.Int.{ℤ, pos, ◌+ℤ◌, ◌-ℤ◌, ◌*ℤ◌, leb_ℤ, ltb_ℤ}
use retail_iq.Base.Round.{round_div}
use retail_iq.Base.Exec.{Exec, pure, raise, gets, or_raise, raise_if, modify, ◌>>=◌, ◌>>◌}
use retail_iq.Finance.Models.{
  AccountType, LoanStatus, LoanProduct, LoanApplication, LoanRepayment, Db, FinanceError,
}
use retail_iq.Finance.Ledger.{record_transaction}

-- `db.session.get(LoanApplication, i)`
abbrev pub find_loan : ℕ → Db → Option LoanApplication
find_loan i db = find_first (λ l. l.id == i) db.loans

abbrev pub find_loan_product : ℕ → Db → Option LoanProduct
find_loan_product i db = find_first (λ p. p.id == i) db.loan_products

-- Assignments to the loan object with this id.
abbrev pub update_loans :
    ℕ → (LoanApplication → LoanApplication) → List LoanApplication → List LoanApplication
update_loans i f [] = []
update_loans i f (l ∷ rest) = (if l.id == i then f l else l) ∷ update_loans i f rest

abbrev pub update_loan : ℕ → (LoanApplication → LoanApplication) → Exec Db FinanceError (Unit {0})
update_loan i f = modify (λ db. record db { loans = update_loans i f db.loans })

abbrev pub is_pending : LoanStatus → Bool
is_pending LoanStatus.pending = true
is_pending _ = false

abbrev pub is_approved : LoanStatus → Bool
is_approved LoanStatus.approved = true
is_approved _ = false

-- `status in ("DISBURSED", "REPAYING")`
abbrev pub is_repayable : LoanStatus → Bool
is_repayable LoanStatus.disbursed = true
is_repayable LoanStatus.repaying = true
is_repayable _ = false

abbrev pub application : ℕ → ℕ → ℕ → ℤ → ℕ → LoanApplication
application i store product amount term = record {
  id = i;
  store_id = store;
  loan_product_id = product;
  requested_amount = amount;
  approved_amount = none;
  tenure_days = term;
  interest_rate = none;
  outstanding_principal = pos 0;
  total_interest_paid = pos 0;
  status = LoanStatus.pending;
}

unfoldable pub apply_for_loan : ℕ → ℕ → ℤ → ℕ → Exec Db FinanceError LoanApplication
apply_for_loan store product_id amount term_days = do
  product ← or_raise (← gets (find_loan_product product_id)) FinanceError.inactive_product
  raise_if (not product.is_active) FinanceError.inactive_product
  raise_if (not (leb_ℤ product.min_amount amount && leb_ℤ amount product.max_amount))
      FinanceError.amount_out_of_range
  raise_if (ltb product.max_tenure_days term_days) FinanceError.term_too_long
  loan ← gets (λ db. application db.next_loan store product_id amount term_days)
  modify (λ db. record db { loans = loan ∷ db.loans; next_loan = suc db.next_loan })
  pure loan

abbrev pub approved_as : ℤ → LoanApplication → LoanApplication
approved_as amount l = record l { status = LoanStatus.approved; approved_amount = some amount }

abbrev pub charged : ℤ → LoanApplication → LoanApplication
charged rate l = record l { interest_rate = some rate }

-- A missing product is met only after the status and the amount are set.
unfoldable pub approve_loan : ℕ → ℤ → Exec Db FinanceError ℕ
approve_loan application_id approved_amount = do
  app ← or_raise (← gets (find_loan application_id)) FinanceError.not_approvable
  raise_if (not (is_pending app.status)) FinanceError.not_approvable
  product ← gets (find_loan_product app.loan_product_id)
  update_loan app.id (approved_as approved_amount)
  found ← or_raise product FinanceError.attribute_error
  update_loan app.id (charged found.base_interest_rate)
  pure app.id

abbrev pub disbursed_now : LoanApplication → LoanApplication
disbursed_now l = record l { status = LoanStatus.disbursed }

abbrev pub owing : ℤ → LoanApplication → LoanApplication
owing amount l = record l { outstanding_principal = amount }

-- With no approved amount the posting compares `None` with 0 and raises. (The `None` that has been
-- written to the outstanding principal by then is not represented.)
unfoldable pub disburse_loan : ℕ → ℕ → Exec Db FinanceError ℕ
disburse_loan application_id txn = do
  app ← or_raise (← gets (find_loan application_id)) FinanceError.not_disbursable
  raise_if (not (is_approved app.status)) FinanceError.not_disbursable
  update_loan app.id disbursed_now
  amount ← or_raise app.approved_amount FinanceError.type_error
  update_loan app.id (owing amount)
  record_transaction app.store_id AccountType.operating AccountType.revenue amount txn

-- `app.interest_rate or 0`, in hundredths of a percent
abbrev pub rate_or_zero : Option ℤ → ℤ
rate_or_zero none = pos 0
rate_or_zero (some r) = r

-- `round(outstanding * Decimal(rate / 100 / 12), 2)`: a month's interest
unfoldable pub monthly_interest : LoanApplication → ℤ
monthly_interest app =
    round_div (app.outstanding_principal *ℤ rate_or_zero app.interest_rate) 120000

pub record Split : Type 0 where
  pub principal : ℤ
  pub interest : ℤ

-- The principal and the interest part of a payment.
unfoldable pub split_payment : LoanApplication → ℤ → Split
split_payment app amount =
    let interest = monthly_interest app in
    let principal = amount -ℤ interest in
    if ltb_ℤ app.outstanding_principal principal
    then record {
      principal = app.outstanding_principal;
      interest = amount -ℤ app.outstanding_principal;
    }
    else record { principal = principal; interest = interest }

abbrev pub repaid : Split → LoanApplication → LoanApplication
repaid s l =
    let left = l.outstanding_principal -ℤ s.principal in
    record l {
      outstanding_principal = left;
      total_interest_paid = l.total_interest_paid +ℤ s.interest;
      status = if leb_ℤ left (pos 0) then LoanStatus.closed else LoanStatus.repaying;
    }

unfoldable pub record_repayment : ℕ → ℤ → ℕ → Exec Db FinanceError ℕ
record_repayment loan_id amount txn = do
  app ← or_raise (← gets (find_loan loan_id)) FinanceError.not_repayable
  raise_if (not (is_repayable app.status)) FinanceError.not_repayable
  raise_if (leb_ℤ amount (pos 0)) FinanceError.repayment_not_positive
  let s = split_payment app amount
  posted ← record_transaction app.store_id AccountType.revenue AccountType.operating amount txn
  update_loan app.id (repaid s)
  modify (λ db. record db {
    repayments =
        record {
          loan_application_id = app.id;
          amount = amount;
          principal_component = s.principal;
          interest_component = s.interest;
        }
        ∷ db.repayments;
  })
  pure posted
