-- ===== src/Finance/Loan/Repay.antt =====
-- What a repayment does to the loan, on every outcome.
use mathlib.Core.Option
use retail_iq.Base.{
  ℕ, ◌≡◌, refl, sym, subst, ap, ◌↔◌, true, some, List, [], ◌∷◌, arith, ◌==◌, find_first, Bool-cases,
  inl, inr,
}
use retail_iq.Base.Int.{ℤ, pos, ◌+ℤ◌, ◌-ℤ◌, ◌≤ℤ◌, leb_ℤ, ltb_ℤ, int_laws, eq_of_parts}
use retail_iq.Base.Exec.{Exec, Outcome, final, ok, err, pure, modify, ◌>>=◌, ◌>>◌}
use retail_iq.Finance.Models.{AccountType, LoanStatus, LoanApplication, Db, FinanceError}
use retail_iq.Finance.Ledger.{record_transaction}
use retail_iq.Finance.Ledger.Frame.{SameRest, record_transaction-SameRest}
use retail_iq.Finance.Loan.{
  find_loan, update_loans, update_loan, is_repayable, Split, split_payment, monthly_interest,
  repaid, record_repayment,
}

-- The two parts add up to the payment, and the principal part is at most what is owed.
split_payment_lem :
    (app : LoanApplication) (amount : ℤ)
    → let s = split_payment app amount in
      (s.principal +ℤ s.interest ≡ amount) × (s.principal ≤ℤ app.outstanding_principal)
unfolding split_payment
split_payment_lem app amount =
    elim (Bool-cases (ltb_ℤ app.outstanding_principal (amount -ℤ monthly_interest app))) [
      | inl t ↦ rw t (omega int_laws, omega arith)
      | inr t ↦ rw t (omega int_laws, ground arith)
    ]

pub find-update_loans :
    (i : ℕ) (f : LoanApplication → LoanApplication)
    → ((l : LoanApplication) → (f l).id ≡ l.id)
    → (loans : List LoanApplication) {app : LoanApplication}
    → find_first (λ l. l.id == i) loans ≡ some app
    → find_first (λ l. l.id == i) (update_loans i f loans) ≡ some (f app)
find-update_loans i f keep [] e = cc
find-update_loans i f keep (l ∷ rest) {app} e = elim (Bool-cases (l.id == i)) [
  | inl t ↦
      let e' : some l ≡ some app = rw t at e in
      let t' : ((f l).id == i) ≡ true = rw keep t in rw (t, t') (ap (Option.map f) e')
  | inr t ↦ rw (t, t) (find-update_loans i f keep rest (rw t at e))
]

-- How a repayment of the loan `app` has ended.
abbrev pub Repays : ℕ → LoanApplication → ℤ → Db → Outcome Db FinanceError ℕ → Type 0
Repays i app amount db (ok t db') =
    (s : Split) × (after : LoanApplication) × (s.principal +ℤ s.interest ≡ amount)
    × (find_loan i db' ≡ some after)
    × (after.outstanding_principal ≡ app.outstanding_principal -ℤ s.principal)
    × (after.total_interest_paid ≡ app.total_interest_paid +ℤ s.interest)
    × (pos 0 ≤ℤ after.outstanding_principal)
    × ((after.status ≡ LoanStatus.closed) ↔ (after.outstanding_principal ≡ pos 0))
    × (db'.repayments
        ≡ record {
          loan_application_id = app.id;
          amount = amount;
          principal_component = s.principal;
          interest_component = s.interest;
        }
          ∷ db.repayments)
Repays i app amount db (err e db') = (db'.loans ≡ db.loans) × (db'.repayments ≡ db.repayments)

pub find_loan-id :
    (i : ℕ) (db : Db) {app : LoanApplication} → find_loan i db ≡ some app → app.id ≡ i
find_loan-id i db e = go db.loans e
  where
    go :
        (loans : List LoanApplication) {app : LoanApplication}
        → find_first (λ l. l.id == i) loans ≡ some app
        → app.id ≡ i
    go [] e = cc
    go (l ∷ rest) {app} e = elim (Bool-cases (l.id == i)) [
      | inl t ↦ let e' : l ≡ app = cc (rw t at e) in rw (← e') (ground arith)
      | inr t ↦ go rest (rw t at e)
    ]

-- The status after a repayment tells whether anything is still owed.
repaid_closed :
    (s : Split) (app : LoanApplication)
    → s.principal ≤ℤ app.outstanding_principal
    → (pos 0 ≤ℤ (repaid s app).outstanding_principal)
      × (((repaid s app).status ≡ LoanStatus.closed)
          ↔ ((repaid s app).outstanding_principal ≡ pos 0))
repaid_closed s app h =
    let left = app.outstanding_principal -ℤ s.principal in
    let nonneg : pos 0 ≤ℤ left = omega int_laws in
    elim (Bool-cases (leb_ℤ left (pos 0))) [
      | inl t ↦
          let zero_left : left ≡ pos 0 = eq_of_parts left (pos 0) (ground arith) in
          (nonneg, rw t (λ _. zero_left, λ _. refl))
      | inr t ↦ (nonneg, rw t (λ e. absurd (ground arith), λ e. absurd (ground arith)))
    ]

module _ (i : ℕ) (app : LoanApplication) (amount : ℤ) (db : Db) where
  -- The steps after the posting.
  abbrev pub settle : ℕ → Exec Db FinanceError ℕ
  settle posted = do
    let s = split_payment app amount
    update_loan app.id (repaid s)
    modify (λ db. record db {
      repayments =
          record {
            loan_application_id = app.id;
            amount = amount;
            principal_component = s.principal;
            interest_component = s.interest;
          }
          ∷ db.repayments;
    })
    pure posted

  settle-Repays :
      (r : Outcome Db FinanceError ℕ)
      → find_loan i db ≡ some app
      → SameRest db (final r)
      → Repays i app amount db (((λ _. r) >>= settle) db)
  settle-Repays (ok t db₁) e same =
      let s = split_payment app amount in
      let (sum, le) = split_payment_lem app amount in
      let (nonneg, closed) = repaid_closed s app le in
      (
        s,
        repaid s app,
        sum,
        rw same.loans (
            subst
              (λ j.
                find_first (λ l. l.id == i) (update_loans j (repaid s) db.loans)
                ≡ some (repaid s app))
              (sym (find_loan-id i db e)) (find-update_loans i (repaid s) (λ l. refl) db.loans e)),
        refl,
        refl,
        nonneg,
        closed,
        rw same.repayments refl,
      )
  settle-Repays (err x db₁) e same = (same.loans, same.repayments)

-- A repayment of a loan either raises and leaves the loans and the repayments as they were, or
-- records a repayment whose principal and interest add up to the amount, takes that principal
-- off what is owed and adds that interest to what was paid, never leaves less than nothing owed, and closes the loan exactly when nothing is.
pub record_repayment-Repays :
    (i : ℕ) (amount : ℤ) (txn : ℕ) (db : Db) {app : LoanApplication}
    → find_loan i db ≡ some app
    → Repays i app amount db (record_repayment i amount txn db)
unfolding record_repayment
record_repayment-Repays i amount txn db {app} e = elim (Bool-cases (is_repayable app.status)) [
  | inr t ↦ rw (e, t) (refl, refl)
  | inl t ↦ elim (Bool-cases (leb_ℤ amount (pos 0))) [
    | inl z ↦ rw (e, t, z) (refl, refl)
    | inr z ↦
        rw (e, t, z)
          (settle-Repays i app amount db
            (record_transaction app.store_id AccountType.revenue AccountType.operating amount txn
              db)
            e
            (record_transaction-SameRest app.store_id AccountType.revenue AccountType.operating
              amount txn db))
  ]
]
