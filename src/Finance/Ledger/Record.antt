-- ===== src/Finance/Ledger/Record.antt =====
-- What `record_transaction` promises on every outcome.
use retail_iq.Base.{ℕ, ◌≡◌, refl, ◌∙◌, ◌≢◌, ◌∷◌, arith, ◌==◌, Bool-cases, inl, inr}
use retail_iq.Base.Int.{ℤ, pos, ◌<ℤ◌, leb_ℤ}
use retail_iq.Base.Exec.{Outcome, ok, err, ◌>>=◌}
use retail_iq.Finance.Models.{AccountType, FinancialAccount, EntryType, Db, FinanceError}
use retail_iq.Finance.Ledger.{
  finish, get_or_create_account, after_debit, after_credit, entry, record_transaction,
}
use retail_iq.Finance.Ledger.Invariant.{IsConsistent, Opens, get_or_create_account-Opens, net_worth}
use retail_iq.Finance.Ledger.Posting.{post-IsConsistent}
use retail_iq.Finance.Ledger.Conservation.{net_worth-post}

-- The entries `new` are `old` with one credit and one debit of the amount in front, to two accounts.
abbrev pub Posts : ℤ → ℕ → Db → Db → Type 0
Posts amount txn db db' =
    (d : ℕ) × (c : ℕ) × (x : ℤ) × (y : ℤ) × (d ≢ c)
    × (db'.entries
        ≡ entry EntryType.credit c amount x txn ∷ entry EntryType.debit d amount y txn ∷ db.entries)

-- How a call of `record_transaction` has ended.
abbrev pub Records : ℤ → ℕ → Db → Outcome Db FinanceError ℕ → Type 0
Records amount txn db (ok t db') =
    IsConsistent db'
    × (net_worth db'.accounts ≡ net_worth db.accounts)
    × (pos 0 <ℤ amount)
    × Posts amount txn db db'
Records amount txn db (err e db') =
    IsConsistent db' × (net_worth db'.accounts ≡ net_worth db.accounts) × (db'.entries ≡ db.entries)

module _ (store : ℕ) (dt ct : AccountType) (amount : ℤ) (txn : ℕ) (db : Db) where
  finish-Records :
      (d c : FinancialAccount) (db₁ db₂ : Db)
      → pos 0 <ℤ amount
      → Opens dt db (ok d db₁)
      → Opens ct db₁ (ok c db₂)
      → Records amount txn db (finish dt ct amount txn d c db₂)
  finish-Records d c db₁ db₂ p (h₁, td, ld, hd, le₁, keep₁, n₁, e₁, typed₁)
        (h₂, tc, lc, hc, le₂, keep₂, n₂, e₂, typed₂) =
      elim (Bool-cases (d.id == c.id)) [
        | inl t ↦ rw t (h₂, n₂ ∙ n₁, e₂ ∙ e₁)
        | inr t ↦
            let ne : d.id ≢ c.id = ground arith in
            let td' = typed₂ d.id dt ld td in
            rw t (
              post-IsConsistent dt ct d c amount txn ne db₂ h₂ td' tc (omega arith) lc,
              net_worth-post dt ct d.id c.id amount db₂.accounts h₂.distinct td' tc (keep₂ d.id hd)
                    hc
                  ∙ n₂
                  ∙ n₁,
              p,
              (
                d.id,
                c.id,
                after_credit ct c.balance amount,
                after_debit dt d.balance amount,
                ne,
                rw (e₂ ∙ e₁) refl,
              ),
            )
      ]

  credit-Records :
      (d : FinancialAccount) (db₁ : Db) (r : Outcome Db FinanceError FinancialAccount)
      → pos 0 <ℤ amount
      → Opens dt db (ok d db₁)
      → Opens ct db₁ r
      → Records amount txn db (((λ _. r) >>= finish dt ct amount txn d) db₁)
  credit-Records d db₁ (ok c db₂) p o₁ o₂ = finish-Records d c db₁ db₂ p o₁ o₂
  credit-Records d db₁ (err e db₂) p (h₁, td, ld, hd, le₁, keep₁, n₁, e₁, typed₁) same =
      rw same (h₁, n₁, e₁)

  debit-Records :
      (r : Outcome Db FinanceError FinancialAccount)
      → IsConsistent db
      → pos 0 <ℤ amount
      → Opens dt db r
      → Records amount txn db
          (((λ _. r) >>= λ d. get_or_create_account store ct >>= finish dt ct amount txn d) db)
  debit-Records (ok d db₁) h p o₁ =
      credit-Records d db₁ (get_or_create_account store ct db₁) p o₁
        (get_or_create_account-Opens store ct db₁ o₁.0)
  debit-Records (err e db₁) h p same = rw same (h, refl, refl)

-- From consistent books every call of `record_transaction` leaves consistent books with the same net
-- worth. If it returns, the amount was positive and just one debit and one credit of it, to two
-- different accounts, were entered; if it raises, no entry was made.
pub record_transaction-Records :
    (store : ℕ) (dt ct : AccountType) (amount : ℤ) (txn : ℕ) (db : Db)
    → IsConsistent db
    → Records amount txn db (record_transaction store dt ct amount txn db)
unfolding record_transaction
record_transaction-Records store dt ct amount txn db h = elim (Bool-cases (leb_ℤ amount (pos 0))) [
  | inl t ↦ rw t (h, refl, refl)
  | inr t ↦
      let p : pos 0 <ℤ amount = ground arith in
      rw t (
        debit-Records store dt ct amount txn db (get_or_create_account store dt db) h p
          (get_or_create_account-Opens store dt db h))
]
