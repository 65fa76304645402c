-- ===== src/Transactions/Frame.antt =====
-- app/transactions/services.py: what the credit, loyalty and GST parts of a sale leave as it was.
use retail_iq.Base.{
  ℕ, ◌≡◌, refl, true, ◌&&◌, ◌||◌, Option, none, some, ◌==◌, find_first, Bool-cases, Option-cases,
  inl, inr,
}
use retail_iq.Base.Int.{ℤ, pos, ◌+ℤ◌, ◌*ℤ◌, ltb_ℤ}
use retail_iq.Base.Exec.{Outcome, ok, err, modify, ◌>>=◌}
use retail_iq.Transactions.Models.{
  CreditLedger, CustomerLoyaltyAccount, PaymentMode, Db, SaleRequest, SaleError,
}
use retail_iq.Transactions.Gst.{Totals, no_totals, is_positive, add_gst_row, gst_totals, record_gst}
use retail_iq.Transactions.Sale.{
  is_ledger_of, ensure_ledger, extend_credit, sell_on_credit, is_credit, take_credit,
  ensure_account, has_account, earn_points, award_points, is_account_of, earn,
}
use retail_iq.Transactions.Stock.{stock}

-- The tables of the products and the sales are as they were.
pub record SameSales (db db' : Db) : Type 0 where
  pub products : db'.products ≡ db.products
  pub transactions : db'.transactions ≡ db.transactions

SameSales-refl : (db : Db) → SameSales db db
SameSales-refl db = record { products = refl; transactions = refl }

-- The credit part can only refuse a sale on credit.
abbrev pub Credits : PaymentMode → Db → Outcome Db SaleError (Unit {0}) → Type 0
Credits mode db (ok t db') = SameSales db db' × (db'.accounts ≡ db.accounts)
Credits mode db (err SaleError.credit_limit db') = is_credit mode ≡ true
Credits mode db (err _ db') = ⊥

extend_credit-Credits :
    (stored : ℕ → ℤ → ℤ) (customer sid : ℕ) (mode : PaymentMode) (txn : ℕ) (total : ℤ)
    (l : CreditLedger) (db db₁ : Db)
    → is_credit mode ≡ true
    → SameSales db db₁
    → db₁.accounts ≡ db.accounts
    → Credits mode db (extend_credit stored customer sid txn total l db₁)
extend_credit-Credits stored customer sid mode txn total l db db₁ t same held =
    elim (Bool-cases (ltb_ℤ (l.credit_limit *ℤ pos 1000) (l.balance *ℤ pos 1000 +ℤ total))) [
      | inl u ↦ rw u t
      | inr u ↦ rw u (record { products = same.products; transactions = same.transactions }, held)
    ]

abbrev Ensures : Db → Outcome Db SaleError CreditLedger → Type 0
Ensures db (ok l db') = SameSales db db' × (db'.accounts ≡ db.accounts)
Ensures db (err e db') = ⊥

ensure_ledger-Ensures :
    (i customer sid : ℕ) (db : Db) → Ensures db (ensure_ledger i customer sid db)
unfolding ensure_ledger
ensure_ledger-Ensures i customer sid db =
    elim (Option-cases (find_first (is_ledger_of customer sid) db.ledgers)) [
      | inl e ↦ rw (e, ensure_ledger) (record { products = refl; transactions = refl }, refl)
      | inr (l, e) ↦ rw (e, ensure_ledger) (SameSales-refl db, refl)
    ]

sell_on_credit-Credits :
    (stored : ℕ → ℤ → ℤ) (i customer sid : ℕ) (mode : PaymentMode) (txn : ℕ) (total : ℤ) (db : Db)
    → is_credit mode ≡ true
    → Credits mode db (sell_on_credit stored i customer sid txn total db)
unfolding sell_on_credit
sell_on_credit-Credits stored i customer sid mode txn total db t =
    go (ensure_ledger i customer sid db) (ensure_ledger-Ensures i customer sid db)
  where
    go :
        (r : Outcome Db SaleError CreditLedger)
        → Ensures db r
        → Credits mode db (((λ _. r) >>= extend_credit stored customer sid txn total) db)
    go (ok l db₁) (same, held) =
        extend_credit-Credits stored customer sid mode txn total l db db₁ t same held
    go (err e db₁) h = absurd h

pub take_credit-Credits :
    (stored : ℕ → ℤ → ℤ) (i sid : ℕ) (mode : PaymentMode) (customer : Option ℕ) (txn : ℕ)
    (total : ℤ) (db : Db)
    → Credits mode db (take_credit stored i sid mode customer txn total db)
take_credit-Credits stored i sid mode none txn total db = (SameSales-refl db, refl)
take_credit-Credits stored i sid mode (some customer) txn total db =
    elim (Bool-cases (is_credit mode)) [
      | inr t ↦ rw t (SameSales-refl db, refl)
      | inl t ↦ rw t (sell_on_credit-Credits stored i customer sid mode txn total db t)
    ]

-- The customer has an account, and none in this store.
abbrev pub HasElsewhere : ℕ → Option ℕ → Db → Type 0
HasElsewhere sid customer db =
    (c : ℕ) × (customer ≡ some c)
    × (has_account c db.accounts ≡ true)
    × (find_first (is_account_of c sid) db.accounts ≡ none)

abbrev pub Awards : ℕ → Option ℕ → Db → Outcome Db SaleError (Unit {0}) → Type 0
Awards sid customer db (ok t db') = SameSales db db'
Awards sid customer db (err SaleError.account_elsewhere db') = HasElsewhere sid customer db
Awards sid customer db (err _ db') = ⊥

abbrev Enrols : ℕ → ℕ → Db → Outcome Db SaleError CustomerLoyaltyAccount → Type 0
Enrols sid customer db (ok a db') = SameSales db db'
Enrols sid customer db (err SaleError.account_elsewhere db') = HasElsewhere sid (some customer) db
Enrols sid customer db (err _ db') = ⊥

ensure_account-Enrols :
    (i customer sid : ℕ) (db : Db) → Enrols sid customer db (ensure_account i customer sid db)
unfolding ensure_account
ensure_account-Enrols i customer sid db =
    elim (Option-cases (find_first (is_account_of customer sid) db.accounts)) [
      | inr (a, e) ↦ rw (e, ensure_account) (SameSales-refl db)
      | inl e ↦ elim (Bool-cases (has_account customer db.accounts)) [
        | inl h ↦ rw (e, h, ensure_account) (customer, refl, h, e)
        | inr h ↦ rw (e, h, ensure_account) (record { products = refl; transactions = refl })
      ]
    ]

earn_points-Awards :
    (stored : ℕ → ℤ → ℤ) (i customer sid txn : ℕ) (points : ℤ) (db : Db)
    → Awards sid (some customer) db (earn_points stored i customer sid txn points db)
earn_points-Awards stored i customer sid txn points db =
    go (ensure_account i customer sid db) (ensure_account-Enrols i customer sid db)
  where
    go :
        (r : Outcome Db SaleError CustomerLoyaltyAccount)
        → Enrols sid customer db r
        → Awards sid
            (some customer)
            db
            (((λ _. r) >>= λ a. modify (earn stored customer sid txn points a)) db)
    go (ok a db₁) same = record { products = same.products; transactions = same.transactions }
    go (err SaleError.account_elsewhere db₁) h = h
    go (err _ db₁) h = absurd h

pub award_points-Awards :
    (stored : ℕ → ℤ → ℤ) (i sid : ℕ) (customer : Option ℕ) (txn : ℕ) (total : ℤ) (db : Db)
    → Awards sid customer db (award_points stored i sid customer txn total db)
award_points-Awards stored i sid none txn total db = SameSales-refl db
award_points-Awards stored i sid (some customer) txn total db =
    elim (Option-cases (find_first (λ p. p.store_id == sid && p.is_active) db.programs)) [
      | inl e ↦ rw (e, award_points) (SameSales-refl db)
      | inr (p, e) ↦ elim (Bool-cases (ltb_ℤ (pos 0) (total *ℤ pos p.points_per_rupee))) [
        | inl t ↦
            rw (e, award_points)
              (rw t
                (earn_points-Awards stored i customer sid txn (total *ℤ pos p.points_per_rupee) db))
        | inr t ↦ rw (e, award_points) (rw t (SameSales-refl db))
      ]
    ]

add_gst_row-SameSales :
    (sid txn : ℕ) (t : Totals) (db : Db) → SameSales db (add_gst_row sid txn t db)
add_gst_row-SameSales sid txn t db =
    elim (Bool-cases (is_positive t.taxable || is_positive t.cgst)) [
      | inl u ↦ rw u (record { products = refl; transactions = refl })
      | inr u ↦ rw u (SameSales-refl db)
    ]

pub record_gst-SameSales :
    (sid : ℕ) (sale : SaleRequest) (db : Db) → SameSales db (record_gst sid sale db)
unfolding record_gst
record_gst-SameSales sid sale db =
    elim (Option-cases (find_first (λ c. c.store_id == sid && c.is_gst_enabled) db.gst_configs)) [
      | inl e ↦ rw (e, record_gst) (SameSales-refl db)
      | inr (c, e) ↦ elim (Bool-cases c.is_regular) [
        | inl t ↦
            rw (e, record_gst)
              (rw t (
                add_gst_row-SameSales sid sale.transaction_id
                  (gst_totals sid db sale.line_items no_totals) db))
        | inr t ↦ rw (e, record_gst) (rw t (SameSales-refl db))
      ]
    ]

pub SameSales-stock :
    (sid j : ℕ) (db db' : Db) → SameSales db db' → stock sid j db' ≡ stock sid j db
SameSales-stock sid j db db' same = rw (same.products, stock) refl
