-- ===== src/Finance/Ledger/Posting.antt =====
-- A posting moves every balance exactly as an audit of the longer entry list sees it.
use retail_iq.Base.{
  ℕ, ◌<◌, ◌≡◌, ◌≢◌, true, false, List, [], ◌∷◌, arith, ◌==◌, if◌then◌else◌, All, Bool-cases, inl,
  inr,
}
use retail_iq.Base.Int.{ℤ, int_laws}
use retail_iq.Finance.Models.{AccountType, FinancialAccount, EntryType, LedgerEntry, Db}
use retail_iq.Finance.Ledger.{
  is_asset, after_debit, after_credit, update_balance, entry, post, sum_amounts, audited,
}
use retail_iq.Finance.Ledger.Invariant.{Distinct, IsConsistent, Typed}

module _ (k : AccountType) (i j : ℕ) (amount after : ℤ) (txn : ℕ) (es : List LedgerEntry) where
  audited-debit :
      audited k i (entry EntryType.debit j amount after txn ∷ es)
      ≡ (if j == i then after_debit k (audited k i es) amount else audited k i es)
  unfolding audited sum_amounts
  audited-debit = elim (Bool-cases (is_asset k)) [
    | inl t ↦ rw t (elim (Bool-cases (j == i)) [ inl s ↦ rw s (omega int_laws) | inr s ↦ rw s ])
    | inr t ↦ rw t (elim (Bool-cases (j == i)) [ inl s ↦ rw s (omega int_laws) | inr s ↦ rw s ])
  ]

  audited-credit :
      audited k i (entry EntryType.credit j amount after txn ∷ es)
      ≡ (if j == i then after_credit k (audited k i es) amount else audited k i es)
  unfolding audited sum_amounts
  audited-credit = elim (Bool-cases (is_asset k)) [
    | inl t ↦ rw t (elim (Bool-cases (j == i)) [ inl s ↦ rw s (omega int_laws) | inr s ↦ rw s ])
    | inr t ↦ rw t (elim (Bool-cases (j == i)) [ inl s ↦ rw s (omega int_laws) | inr s ↦ rw s ])
  ]

-- An update of a balance keeps what is known of the ids.
pub All-update_balance :
    (P : ℕ → Type 0) (i : ℕ) (f : ℤ → ℤ) (accounts : List FinancialAccount)
    → All (λ a. P a.id) accounts
    → All (λ a. P a.id) (update_balance i f accounts)
All-update_balance P i f [] h = tt
All-update_balance P i f (a ∷ rest) h = elim (Bool-cases (a.id == i)) [
  | inl t ↦ rw t (h.0, All-update_balance P i f rest h.1)
  | inr t ↦ rw t (h.0, All-update_balance P i f rest h.1)
]

pub Distinct-update_balance :
    (i : ℕ) (f : ℤ → ℤ) (accounts : List FinancialAccount)
    → Distinct accounts
    → Distinct (update_balance i f accounts)
Distinct-update_balance i f [] h = tt
Distinct-update_balance i f (a ∷ rest) h = elim (Bool-cases (a.id == i)) [
  | inl t ↦
      rw t (All-update_balance (λ j. j ≢ a.id) i f rest h.0, Distinct-update_balance i f rest h.1)
  | inr t ↦
      rw t (All-update_balance (λ j. j ≢ a.id) i f rest h.0, Distinct-update_balance i f rest h.1)
]

module _ (dt ct : AccountType) (d c : FinancialAccount) (amount : ℤ) (txn : ℕ)
    (ne : d.id ≢ c.id) where
  abbrev pub posted : Db → Db
  posted = post dt ct d c amount txn

  abbrev moved : FinancialAccount → FinancialAccount
  moved a =
      let a' = if a.id == d.id then record a { balance = after_debit dt a.balance amount } else a in
      if a'.id == c.id then record a' { balance = after_credit ct a'.balance amount } else a'

  moved-balanced :
      (es : List LedgerEntry) (x y : ℤ) (a : FinancialAccount)
      → (a.id ≡ d.id → a.account_type ≡ dt)
      → (a.id ≡ c.id → a.account_type ≡ ct)
      → a.balance ≡ audited a.account_type a.id es
      → (moved a).balance
        ≡ audited (moved a).account_type (moved a).id (
            entry EntryType.credit c.id amount x txn ∷ entry EntryType.debit d.id amount y txn ∷ es)
  moved-balanced es x y a td tc h =
      let credited =
        audited-credit a.account_type a.id c.id amount x txn
          (entry EntryType.debit d.id amount y txn ∷ es) in
      let debited = audited-debit a.account_type a.id d.id amount y txn es in
      elim (Bool-cases (a.id == d.id)) [
        | inl t ↦
            let e : a.id ≡ d.id = ground arith in
            let v : (a.id == c.id) ≡ false = ground arith in
            let w : (c.id == a.id) ≡ false = ground arith in
            let u : (d.id == a.id) ≡ true = ground arith in
            rw (t, v) (rw (credited, w, debited, u, h, td e))
        | inr t ↦
            let u : (d.id == a.id) ≡ false = ground arith in
            elim (Bool-cases (a.id == c.id)) [
              | inl v ↦
                  let e : a.id ≡ c.id = ground arith in
                  let w : (c.id == a.id) ≡ true = ground arith in
                  rw (t, v) (rw (credited, w, debited, u, h, tc e))
              | inr v ↦
                  let w : (c.id == a.id) ≡ false = ground arith in
                  rw (t, v) (rw (credited, w, debited, u, h))
            ]
      ]

  post-balanced :
      (es : List LedgerEntry) (x y : ℤ) (accounts : List FinancialAccount)
      → Typed d.id dt accounts
      → Typed c.id ct accounts
      → All (λ a. a.balance ≡ audited a.account_type a.id es) accounts
      → All
          (λ a.
            a.balance
            ≡ audited a.account_type a.id (
                entry EntryType.credit c.id amount x txn
                ∷ entry EntryType.debit d.id amount y txn
                ∷ es))
          (update_balance c.id
            (λ b. after_credit ct b amount)
            (update_balance d.id (λ b. after_debit dt b amount) accounts))
  post-balanced es x y [] td tc h = tt
  post-balanced es x y (a ∷ rest) td tc h =
      (moved-balanced es x y a td.0 tc.0 h.0, post-balanced es x y rest td.1 tc.1 h.1)

  pub post-IsConsistent :
      (db : Db)
      → IsConsistent db
      → Typed d.id dt db.accounts
      → Typed c.id ct db.accounts
      → d.id < db.next_account
      → c.id < db.next_account
      → IsConsistent (posted db)
  post-IsConsistent db h td tc ld lc =
      let debited = update_balance d.id (λ b. after_debit dt b amount) db.accounts in
      record {
        distinct =
            Distinct-update_balance c.id _ debited
              (Distinct-update_balance d.id _ db.accounts h.distinct);
        allocated =
            All-update_balance (λ i. i < db.next_account) c.id _ debited
              (All-update_balance (λ i. i < db.next_account) d.id _ db.accounts h.allocated);
        referenced = (lc, (ld, h.referenced));
        balanced =
            post-balanced db.entries (after_credit ct c.balance amount)
              (after_debit dt d.balance amount) db.accounts td tc h.balanced;
      }
