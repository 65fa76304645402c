-- ===== src/Finance/Loan/Lifecycle.antt =====
-- The status of a loan moves along one graph, whatever calls are made.
use retail_iq.Base.{
  ℕ, ◌≡◌, refl, sym, subst, ◌≢◌, ◌⊎◌, true, false, some, List, [], ◌∷◌, arith, ◌==◌, find_first,
  Bool-cases, Option-cases, inl, inr,
}
use retail_iq.Base.Int.{ℤ, pos, leb_ℤ, ◌-ℤ◌}
use retail_iq.Base.Exec.{Outcome, final, ok, err, or_raise, ◌>>=◌}
use retail_iq.Finance.Models.{AccountType, LoanStatus, LoanApplication, Db, FinanceError}
use retail_iq.Finance.Ledger.{record_transaction}
use retail_iq.Finance.Ledger.Frame.{SameRest, record_transaction-SameRest}
use retail_iq.Finance.Loan.{
  find_loan, find_loan_product, approved_as, charged, disbursed_now, owing, Split, update_loans,
  is_pending, is_approved, is_repayable, split_payment, repaid, approve_loan, disburse_loan,
  record_repayment,
}
use retail_iq.Finance.Loan.Repay.{find_loan-id, find-update_loans, settle}

-- The transitions that the code makes.
pub data Step : LoanStatus → LoanStatus → Type 0 where
  approve : Step LoanStatus.pending LoanStatus.approved
  disburse : Step LoanStatus.approved LoanStatus.disbursed
  repay_first : Step LoanStatus.disbursed LoanStatus.repaying
  repay_more : Step LoanStatus.repaying LoanStatus.repaying
  close_first : Step LoanStatus.disbursed LoanStatus.closed
  close : Step LoanStatus.repaying LoanStatus.closed

abbrev pub Moves : LoanStatus → LoanStatus → Type 0
Moves a b = (a ≡ b) ⊎ Step a b

-- Every loan is still there, in its old status or one step on.
abbrev pub Advances : List LoanApplication → List LoanApplication → Type 0
Advances before after =
    (j : ℕ) (l : LoanApplication)
    → find_first (λ x. x.id == j) before ≡ some l
    → (l' : LoanApplication) × (find_first (λ x. x.id == j) after ≡ some l')
      × Moves l.status l'.status

find-update_loans_ne :
    (i j : ℕ) (f : LoanApplication → LoanApplication)
    → ((l : LoanApplication) → (f l).id ≡ l.id)
    → j ≢ i
    → (loans : List LoanApplication)
    → find_first (λ l. l.id == j) (update_loans i f loans) ≡ find_first (λ l. l.id == j) loans
find-update_loans_ne i j f keep ne [] = refl
find-update_loans_ne i j f keep ne (l ∷ rest) = elim (Bool-cases (l.id == i)) [
  | inl t ↦
      let u : (l.id == j) ≡ false = ground arith in
      let u' : ((f l).id == j) ≡ false = rw keep u in
      rw (t, u, u') (find-update_loans_ne i j f keep ne rest)
  | inr t ↦ rw (t, find-update_loans_ne i j f keep ne rest)
]

Advances-refl : (loans : List LoanApplication) → Advances loans loans
Advances-refl loans j l e = (l, e, inl refl)

-- An update of the loan with id `i` that makes a move for that loan.
Advances-update :
    (i : ℕ) (f : LoanApplication → LoanApplication) (loans : List LoanApplication)
    {app : LoanApplication}
    → ((l : LoanApplication) → (f l).id ≡ l.id)
    → find_first (λ x. x.id == i) loans ≡ some app
    → Moves app.status (f app).status
    → Advances loans (update_loans i f loans)
Advances-update i f loans {app} keep e m j l el = elim (Bool-cases (j == i)) [
  | inl t ↦
      let same : j ≡ i = ground arith in
      let el' : find_first (λ x. x.id == i) loans ≡ some l =
        subst (λ k. find_first (λ x. x.id == k) loans ≡ some l) same el in
      let eq : app ≡ l = cc in
      (
        f app,
        subst (λ k. find_first (λ x. x.id == k) (update_loans i f loans) ≡ some (f app)) (sym same)
            (find-update_loans i f keep loans e),
        subst (λ k. Moves k.status (f app).status) eq m,
      )
  | inr t ↦ (l, rw (find-update_loans_ne i j f keep (ground arith) loans) el, inl refl)
]

-- Two updates of one loan are one update.
update_loans_twice :
    (i : ℕ) (f g : LoanApplication → LoanApplication)
    → ((l : LoanApplication) → (f l).id ≡ l.id)
    → (loans : List LoanApplication)
    → update_loans i g (update_loans i f loans) ≡ update_loans i (λ l. g (f l)) loans
update_loans_twice i f g keep [] = refl
update_loans_twice i f g keep (l ∷ rest) = elim (Bool-cases (l.id == i)) [
  | inl t ↦
      let t' : ((f l).id == i) ≡ true = rw keep t in rw (t, t', update_loans_twice i f g keep rest)
  | inr t ↦ rw (t, t, update_loans_twice i f g keep rest)
]

pub approve_loan-Advances :
    (i : ℕ) (amount : ℤ) (db : Db) → Advances db.loans (final (approve_loan i amount db)).loans
unfolding approve_loan
approve_loan-Advances i amount db = elim (Option-cases (find_loan i db)) [
  | inl e ↦ rw e (Advances-refl db.loans)
  | inr (app, e) ↦
      let e' =
        subst (λ j. find_first (λ x. x.id == j) db.loans ≡ some app) (sym (find_loan-id i db e))
          e in
      elim (Bool-cases (is_pending app.status)) [
        | inr t ↦ rw (e, t) (Advances-refl db.loans)
        | inl t ↦
            let p : app.status ≡ LoanStatus.pending = ground arith in
            let m : Moves app.status LoanStatus.approved = rw p (inr approve) in
            elim (Option-cases (find_loan_product app.loan_product_id db)) [
              | inl n ↦
                  rw (e, t)
                    (rw (n, or_raise)
                      (Advances-update app.id (approved_as amount) db.loans (λ l. refl) e' m))
              | inr (product, n) ↦
                  rw (e, t)
                    (rw (n, or_raise)
                      (rw
                        (update_loans_twice app.id (approved_as amount)
                          (charged product.base_interest_rate) (λ l. refl) db.loans)
                        (Advances-update app.id
                          (λ l. charged product.base_interest_rate (approved_as amount l)) db.loans
                          (λ l. refl) e' m)))
            ]
      ]
]

pub disburse_loan-Advances :
    (i txn : ℕ) (db : Db) → Advances db.loans (final (disburse_loan i txn db)).loans
unfolding disburse_loan
disburse_loan-Advances i txn db = elim (Option-cases (find_loan i db)) [
  | inl e ↦ rw e (Advances-refl db.loans)
  | inr (app, e) ↦
      let e' =
        subst (λ j. find_first (λ x. x.id == j) db.loans ≡ some app) (sym (find_loan-id i db e))
          e in
      elim (Bool-cases (is_approved app.status)) [
        | inr t ↦ rw (e, t) (Advances-refl db.loans)
        | inl t ↦
            let p : app.status ≡ LoanStatus.approved = ground arith in
            let m : Moves app.status LoanStatus.disbursed = rw p (inr disburse) in
            elim (Option-cases app.approved_amount) [
              | inl n ↦
                  rw (e, t)
                    (rw (n, or_raise)
                      (Advances-update app.id disbursed_now db.loans (λ l. refl) e' m))
              | inr (amount, n) ↦
                  rw (e, t)
                    (rw (n, or_raise)
                      (rw
                        (record_transaction-SameRest app.store_id AccountType.operating
                          AccountType.revenue amount txn
                          (record db {
                            loans =
                                update_loans app.id (owing amount)
                                  (update_loans app.id disbursed_now db.loans);
                          })).loans
                        (rw
                          (update_loans_twice app.id disbursed_now (owing amount) (λ l. refl)
                            db.loans)
                          (Advances-update app.id (λ l. owing amount (disbursed_now l)) db.loans
                            (λ l. refl) e' m))))
            ]
      ]
]

repaid-Moves :
    (s : Split) (app : LoanApplication)
    → is_repayable app.status ≡ true
    → Moves app.status (repaid s app).status
repaid-Moves s app t = go app.status t refl
  where
    go :
        (status : LoanStatus)
        → is_repayable status ≡ true
        → app.status ≡ status
        → Moves app.status (repaid s app).status
    go LoanStatus.disbursed t e =
        elim (Bool-cases (leb_ℤ (app.outstanding_principal -ℤ s.principal) (pos 0))) [
          | inl z ↦ rw (e, z) (inr close_first)
          | inr z ↦ rw (e, z) (inr repay_first)
        ]
    go LoanStatus.repaying t e =
        elim (Bool-cases (leb_ℤ (app.outstanding_principal -ℤ s.principal) (pos 0))) [
          | inl z ↦ rw (e, z) (inr close)
          | inr z ↦ rw (e, z) (inr repay_more)
        ]
    go _ t e = cc

settle-Advances :
    (i : ℕ) (app : LoanApplication) (amount : ℤ) (db : Db) (r : Outcome Db FinanceError ℕ)
    → find_first (λ x. x.id == app.id) db.loans ≡ some app
    → is_repayable app.status ≡ true
    → SameRest db (final r)
    → Advances db.loans (final (((λ (_ : Db). r) >>= settle i app amount db) db)).loans
settle-Advances i app amount db (ok t db₁) e p same =
    let s = split_payment app amount in
    rw same.loans (Advances-update app.id (repaid s) db.loans (λ l. refl) e (repaid-Moves s app p))
settle-Advances i app amount db (err x db₁) e p same = rw same.loans (Advances-refl db.loans)

pub record_repayment-Advances :
    (i : ℕ) (amount : ℤ) (txn : ℕ) (db : Db)
    → Advances db.loans (final (record_repayment i amount txn db)).loans
unfolding record_repayment
record_repayment-Advances i amount txn db = elim (Option-cases (find_loan i db)) [
  | inl e ↦ rw e (Advances-refl db.loans)
  | inr (app, e) ↦
      let e' =
        subst (λ j. find_first (λ x. x.id == j) db.loans ≡ some app) (sym (find_loan-id i db e))
          e in
      elim (Bool-cases (is_repayable app.status)) [
        | inr t ↦ rw (e, t) (Advances-refl db.loans)
        | inl t ↦ elim (Bool-cases (leb_ℤ amount (pos 0))) [
          | inl z ↦ rw (e, t, z) (Advances-refl db.loans)
          | inr z ↦
              rw (e, t, z)
                (settle-Advances i app amount db
                  (record_transaction app.store_id AccountType.revenue AccountType.operating amount
                    txn db)
                  e' t
                  (record_transaction-SameRest app.store_id AccountType.revenue
                    AccountType.operating amount txn db))
        ]
      ]
]
