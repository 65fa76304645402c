-- ===== src/Finance/Ledger/Invariant.antt =====
-- The books stay consistent: every balance is what an audit of the entries gives.
use retail_iq.Base.{
  ℕ, suc, ◌<◌, ◌≤◌, ◌≡◌, refl, sym, subst, ◌≢◌, Bool, true, false, ◌||◌, List, [], ◌∷◌, arith, ◌==◌,
  if◌then◌else◌, select, All, All-map, All-select_head, Bool-cases, inl, inr,
}
use retail_iq.Base.Int.{ℤ, pos, ◌+ℤ◌, ◌-ℤ◌, int_laws}
use retail_iq.Base.Exec.{Outcome, ok, err}
use retail_iq.Finance.Models.{
  AccountType, same_type, FinancialAccount, EntryType, LedgerEntry, Db, FinanceError,
}
use retail_iq.Finance.Ledger.{
  is_account_of, opened, get_or_create_account, is_asset, sum_amounts, audited,
}

pub same_type→eq : (a b : AccountType) → same_type a b ≡ true → a ≡ b
unfolding same_type
same_type→eq a b h = ground arith

-- No two accounts have one id.
abbrev pub Distinct : List FinancialAccount → Type 0
Distinct [] = Unit
Distinct (a ∷ rest) = All (λ b. b.id ≢ a.id) rest × Distinct rest

pub record IsConsistent (db : Db) : Type 0 where
  pub distinct : Distinct db.accounts
  pub allocated : All (λ a. a.id < db.next_account) db.accounts
  pub referenced : All (λ e. e.account_id < db.next_account) db.entries
  pub balanced : All (λ a. a.balance ≡ audited a.account_type a.id db.entries) db.accounts

-- Every account with this id has this type.
abbrev pub Typed : ℕ → AccountType → List FinancialAccount → Type 0
Typed i kind = All λ a. a.id ≡ i → a.account_type ≡ kind

-- Some account has this id.
abbrev pub contains : ℕ → List FinancialAccount → Bool
contains i [] = false
contains i (a ∷ rest) = a.id == i || contains i rest

contains-select :
    (test : FinancialAccount → Bool) (accounts : List FinancialAccount) {a : FinancialAccount}
    {rest : List FinancialAccount}
    → select test accounts ≡ a ∷ rest
    → contains a.id accounts ≡ true
contains-select test [] e = cc
contains-select test (x ∷ xs) {a} e = elim (Bool-cases (test x)) [
  | inl t ↦ let e' : x ≡ a = cc (rw t at e) in rw e' (ground arith)
  | inr f ↦ rw (contains-select test xs {a = a} (rw f at e)) (ground arith)
]

Typed-select :
    (store : ℕ) (kind : AccountType) (accounts : List FinancialAccount) {a : FinancialAccount}
    {rest : List FinancialAccount}
    → Distinct accounts
    → select (is_account_of store kind) accounts ≡ a ∷ rest
    → Typed a.id kind accounts
Typed-select store kind [] u e = tt
Typed-select store kind (x ∷ xs) {a} u e = elim (Bool-cases (is_account_of store kind x)) [
  | inl t ↦
      let e' : x ≡ a = cc (rw t at e) in
      subst (λ (v : FinancialAccount). Typed v.id kind (x ∷ xs)) e'
        (
          λ _. same_type→eq x.account_type kind (ground arith),
          All-map (λ b. b.id ≢ x.id) (λ b. b.id ≡ x.id → b.account_type ≡ kind) xs
              (λ b ne eq. absurd (ne eq)) u.0,
        )
  | inr f ↦
      let others = rw f at e in
      (
        λ eq. absurd (
            (All-select_head (λ b. b.id ≢ x.id) (is_account_of store kind) xs u.0 others).0
              (sym eq)),
        Typed-select store kind xs u.1 others,
      )
]

-- No entry names an account that is still to be opened.
sum_amounts_fresh :
    (n : ℕ) (kind : EntryType) (entries : List LedgerEntry)
    → All (λ e. e.account_id < n) entries
    → sum_amounts n kind entries ≡ pos 0
unfolding sum_amounts
sum_amounts_fresh n kind [] h = refl
sum_amounts_fresh n EntryType.debit (e ∷ es) h =
    ground (arith, sum_amounts_fresh n EntryType.debit es h.1)
sum_amounts_fresh n EntryType.credit (e ∷ es) h =
    ground (arith, sum_amounts_fresh n EntryType.credit es h.1)

audited_fresh :
    (n : ℕ) (kind : AccountType) (entries : List LedgerEntry)
    → All (λ e. e.account_id < n) entries
    → audited kind n entries ≡ pos 0
unfolding audited
audited_fresh n kind entries h =
    let debits = sum_amounts_fresh n EntryType.debit entries h in
    let credits = sum_amounts_fresh n EntryType.credit entries h in
    rw (debits, credits) (unfold ◌-ℤ◌ in ground arith)

-- Assets less everything else: what postings between accounts must not change.
abbrev pub signed : AccountType → ℤ → ℤ → ℤ
signed kind balance rest = if is_asset kind then rest +ℤ balance else rest -ℤ balance

unfoldable pub net_worth : List FinancialAccount → ℤ
net_worth [] = pos 0
net_worth (a ∷ rest) = signed a.account_type a.balance (net_worth rest)

net_worth_fresh : (kind : AccountType) (n : ℤ) → signed kind (pos 0) n ≡ n
net_worth_fresh kind n = elim (Bool-cases (is_asset kind)) [
  | inl t ↦ rw t (omega int_laws)
  | inr t ↦ rw t (omega int_laws)
]

-- What `get_or_create_account` has done, by how it ended.
abbrev pub Opens : AccountType → Db → Outcome Db FinanceError FinancialAccount → Type 0
Opens kind db (ok a db') =
    IsConsistent db'
    × Typed a.id kind db'.accounts
    × (a.id < db'.next_account)
    × (contains a.id db'.accounts ≡ true)
    × (db.next_account ≤ db'.next_account)
    × ((i : ℕ) → contains i db.accounts ≡ true → contains i db'.accounts ≡ true)
    × (net_worth db'.accounts ≡ net_worth db.accounts)
    × (db'.entries ≡ db.entries)
    × ((i : ℕ) (k : AccountType)
        → i < db.next_account
        → Typed i k db.accounts
        → Typed i k db'.accounts)
Opens kind db (err e db') = db' ≡ db

open_new :
    (store : ℕ) (kind : AccountType) (db : Db)
    → IsConsistent db
    → let a = opened store kind db in
      Opens kind db
        (ok a (record db { accounts = a ∷ db.accounts; next_account = suc db.next_account }))
unfolding net_worth
open_new store kind db h = (
  record {
    distinct = (
      All-map (λ b. b.id < db.next_account) (λ b. b.id ≢ db.next_account) db.accounts
          (λ b lt. omega arith) h.allocated,
      h.distinct,
    );
    allocated = (
      omega arith,
      All-map (λ b. b.id < db.next_account) (λ b. b.id < suc db.next_account) db.accounts
          (λ b lt. omega arith) h.allocated,
    );
    referenced =
        All-map (λ e. e.account_id < db.next_account) (λ e. e.account_id < suc db.next_account)
          db.entries (λ e lt. omega arith) h.referenced;
    balanced = (sym (audited_fresh db.next_account kind db.entries h.referenced), h.balanced);
  },
  (
    λ _. refl,
    All-map (λ b. b.id < db.next_account) (λ b. b.id ≡ db.next_account → b.account_type ≡ kind)
        db.accounts (λ b lt eq. absurd (omega arith)) h.allocated,
  ),
  omega arith,
  ground arith,
  omega arith,
  λ i held. ground arith,
  net_worth_fresh kind (net_worth db.accounts),
  refl,
  λ i k lt typed. (λ eq. absurd (omega arith), typed),
)

-- Finding or opening an account keeps the books consistent.
pub get_or_create_account-Opens :
    (store : ℕ) (kind : AccountType) (db : Db)
    → IsConsistent db
    → Opens kind db (get_or_create_account store kind db)
unfolding get_or_create_account
get_or_create_account-Opens store kind db h =
    go (select (is_account_of store kind) db.accounts) refl
  where
    go :
        (rows : List FinancialAccount)
        → select (is_account_of store kind) db.accounts ≡ rows
        → Opens kind db (get_or_create_account store kind db)
    go [] e = rw (e, get_or_create_account) (open_new store kind db h)
    go (a ∷ []) e =
        rw (e, get_or_create_account)
          (
            h,
            Typed-select store kind db.accounts h.distinct e,
            (All-select_head (λ b. b.id < db.next_account) (is_account_of store kind) db.accounts
                h.allocated e).0,
            contains-select (is_account_of store kind) db.accounts e,
            omega arith,
            λ i held. held,
            refl,
            refl,
            λ i k lt typed. typed,
          )
    go (a ∷ b ∷ rest) e = rw (e, get_or_create_account) refl
