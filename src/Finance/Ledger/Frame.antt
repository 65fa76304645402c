-- ===== src/Finance/Ledger/Frame.antt =====
-- A posting writes the accounts and the entries, and nothing else.
use retail_iq.Base.{ℕ, ◌≡◌, refl, ◌∙◌, List, [], ◌∷◌, arith, ◌==◌, select, Bool-cases, inl, inr}
use retail_iq.Base.Int.{ℤ, pos, leb_ℤ}
use retail_iq.Base.Exec.{Exec, Outcome, final, ok, err, ◌>>=◌}
use retail_iq.Finance.Models.{AccountType, FinancialAccount, Db, FinanceError}
use retail_iq.Finance.Ledger.{is_account_of, finish, get_or_create_account, record_transaction}

pub record SameRest (db db' : Db) : Type 0 where
  pub loan_products : db'.loan_products ≡ db.loan_products
  pub loans : db'.loans ≡ db.loans
  pub next_loan : db'.next_loan ≡ db.next_loan
  pub repayments : db'.repayments ≡ db.repayments
  pub treasury_configs : db'.treasury_configs ≡ db.treasury_configs
  pub treasury_transactions : db'.treasury_transactions ≡ db.treasury_transactions
  pub insurance_products : db'.insurance_products ≡ db.insurance_products
  pub policies : db'.policies ≡ db.policies
  pub next_policy : db'.next_policy ≡ db.next_policy
  pub claims : db'.claims ≡ db.claims
  pub next_claim : db'.next_claim ≡ db.next_claim

SameRest-refl : (db : Db) → SameRest db db
SameRest-refl db = ground arith

SameRest-trans : (a b c : Db) → SameRest a b → SameRest b c → SameRest a c
SameRest-trans a b c p q = record {
  loan_products = q.loan_products ∙ p.loan_products;
  loans = q.loans ∙ p.loans;
  next_loan = q.next_loan ∙ p.next_loan;
  repayments = q.repayments ∙ p.repayments;
  treasury_configs = q.treasury_configs ∙ p.treasury_configs;
  treasury_transactions = q.treasury_transactions ∙ p.treasury_transactions;
  insurance_products = q.insurance_products ∙ p.insurance_products;
  policies = q.policies ∙ p.policies;
  next_policy = q.next_policy ∙ p.next_policy;
  claims = q.claims ∙ p.claims;
  next_claim = q.next_claim ∙ p.next_claim;
}

get_or_create_account-SameRest :
    (store : ℕ) (kind : AccountType) (db : Db)
    → SameRest db (final (get_or_create_account store kind db))
unfolding get_or_create_account
get_or_create_account-SameRest store kind db =
    go (select (is_account_of store kind) db.accounts) refl
  where
    go :
        (rows : List FinancialAccount)
        → select (is_account_of store kind) db.accounts ≡ rows
        → SameRest db (final (get_or_create_account store kind db))
    go [] e = rw (e, get_or_create_account) (ground arith)
    go (a ∷ []) e = rw (e, get_or_create_account) (SameRest-refl db)
    go (a ∷ b ∷ rest) e = rw (e, get_or_create_account) (SameRest-refl db)

module _ {A B : Type 0} (db : Db) (m : Exec Db FinanceError A)
    (f : A → Exec Db FinanceError B) where
  SameRest-bind :
      SameRest db (final (m db))
      → ((a : A) (db' : Db) → SameRest db' (final (f a db')))
      → SameRest db (final ((m >>= f) db))
  SameRest-bind p q = go (m db) p
    where
      go :
          (r : Outcome Db FinanceError A)
          → SameRest db (final r)
          → SameRest db (final (((λ (_ : Db). r) >>= f) db))
      go (ok a db') p' = SameRest-trans db db' (final (f a db')) p' (q a db')
      go (err e db') p' = p'

pub record_transaction-SameRest :
    (store : ℕ) (dt ct : AccountType) (amount : ℤ) (txn : ℕ) (db : Db)
    → SameRest db (final (record_transaction store dt ct amount txn db))
unfolding record_transaction
record_transaction-SameRest store dt ct amount txn db = elim (Bool-cases (leb_ℤ amount (pos 0))) [
  | inl t ↦ rw t (SameRest-refl db)
  | inr t ↦ rw t (
      SameRest-bind db (get_or_create_account store dt)
        (λ d. get_or_create_account store ct >>= finish dt ct amount txn d)
        (get_or_create_account-SameRest store dt db)
        λ d db₁.
          SameRest-bind db₁ (get_or_create_account store ct) (finish dt ct amount txn d)
            (get_or_create_account-SameRest store ct db₁)
            λ c db₂. elim (Bool-cases (d.id == c.id)) [
              | inl s ↦ rw s (SameRest-refl db₂)
              | inr s ↦ rw s (ground arith)
            ])
]
