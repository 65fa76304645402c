-- ===== src/Finance/Loan/History.antt =====
-- A loan request, committed if it returns and rolled back if it raises.
use retail_iq.Base.{
  ℕ, ◌<◌, ◌≡◌, refl, false, arith, ◌==◌, not, ◌&&◌, ltb, Bool-cases, All, All-find_first,
  Option-cases, inl, inr,
}
use retail_iq.Base.Int.{ℤ, leb_ℤ}
use retail_iq.Base.Exec.{Outcome, ok, err, final}
use retail_iq.Finance.Models.{Db, FinanceError}
use retail_iq.Finance.Loan.{
  find_loan_product, apply_for_loan, approve_loan, disburse_loan, record_repayment,
}
use retail_iq.Finance.Loan.Lifecycle.{
  Advances, approve_loan-Advances, disburse_loan-Advances, record_repayment-Advances,
}

-- The calls that a client can make, with their arguments.
pub data LoanCall : Type 0 where
  apply : ℕ → ℕ → ℤ → ℕ → LoanCall
  approve : ℕ → ℤ → LoanCall
  disburse : ℕ → ℕ → LoanCall
  repay : ℕ → ℤ → ℕ → LoanCall

abbrev commit {ℓ} : {A : Type ℓ} → Db → Outcome Db FinanceError A → Db
commit db (ok a db') = db'
commit db (err e db') = db

pub request : LoanCall → Db → Db
request (apply store product amount term) db =
    commit db (apply_for_loan store product amount term db)
request (approve i amount) db = commit db (approve_loan i amount db)
request (disburse i txn) db = commit db (disburse_loan i txn db)
request (repay i amount txn) db = commit db (record_repayment i amount txn db)

-- Every key is below the one that is handed out next.
abbrev pub AllocatedLoans : Db → Type 0
AllocatedLoans db = All (λ l. l.id < db.next_loan) db.loans

apply_for_loan-Advances :
    (store product : ℕ) (amount : ℤ) (term : ℕ) (db : Db)
    → AllocatedLoans db
    → Advances db.loans (final (apply_for_loan store product amount term db)).loans
unfolding apply_for_loan
apply_for_loan-Advances store product amount term db h j l e =
    elim (Option-cases (find_loan_product product db)) [
      | inl n ↦ rw n (l, e, inl refl)
      | inr (found, n) ↦
          let below = All-find_first (λ x. x.id < db.next_loan) (λ x. x.id == j) db.loans h e in
          let old : (db.next_loan == j) ≡ false = ground arith in
          elim (Bool-cases (not found.is_active)) [
            | inl t ↦ rw (n, t) (l, e, inl refl)
            | inr t ↦
                elim (Bool-cases
                  (not (leb_ℤ found.min_amount amount && leb_ℤ amount found.max_amount))) [
                    | inl u ↦ rw (n, t, u) (l, e, inl refl)
                    | inr u ↦ elim (Bool-cases (ltb found.max_tenure_days term)) [
                      | inl v ↦ rw (n, t, u, v) (l, e, inl refl)
                      | inr v ↦ rw (n, t, u, v, old) (l, e, inl refl)
                    ]
                  ]
          ]
    ]

commit-Advances {ℓ} :
    {A : Type ℓ} (db : Db) (r : Outcome Db FinanceError A)
    → Advances db.loans (final r).loans
    → Advances db.loans (commit db r).loans
commit-Advances db (ok a db') h = h
commit-Advances db (err e db') h = λ j l e. (l, e, inl refl)

-- Whatever is requested, every loan is still there afterwards, in the status it had or one step on:
-- pending to approved, approved to disbursed, disbursed to repaying or, when one payment
-- settles it, to closed, and repaying to closed. So closed and rejected loans stay so.
pub request-Advances :
    (call : LoanCall) (db : Db) → AllocatedLoans db → Advances db.loans (request call db).loans
unfolding request
request-Advances (apply store product amount term) db h =
    commit-Advances db (apply_for_loan store product amount term db)
      (apply_for_loan-Advances store product amount term db h)
request-Advances (approve i amount) db h =
    commit-Advances db (approve_loan i amount db) (approve_loan-Advances i amount db)
request-Advances (disburse i txn) db h =
    commit-Advances db (disburse_loan i txn db) (disburse_loan-Advances i txn db)
request-Advances (repay i amount txn) db h =
    commit-Advances db (record_repayment i amount txn db)
      (record_repayment-Advances i amount txn db)
