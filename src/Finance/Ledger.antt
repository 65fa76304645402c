-- ===== src/Finance/Ledger.antt =====
-- app/finance/ledger.py: double-entry posting. A call takes the UUID that it draws as an argument.
pub mod Invariant
pub mod Posting
pub mod Conservation
pub mod Record
pub mod Frame
use Prim.Native.String.{String}
use retail_iq.Base.{
  ℕ, suc, Bool, true, false, ◌&&◌, Option, none, some, List, [], ◌∷◌, ◌==◌, if◌then◌else◌, select,
  find_first,
}
use retail_iq.Base.Int.{ℤ, pos, ◌+ℤ◌, ◌-ℤ◌, leb_ℤ}
use retail_iq.Base.Exec.{Exec, pure, raise, gets, raise_if, modify, ◌>>=◌, ◌>>◌}
use retail_iq.Finance.Models.{
  AccountType, same_type, FinancialAccount, EntryType, LedgerEntry, Db, FinanceError,
}

-- `.scalar_one_or_none()` raises when the query has more than one row.
abbrev pub scalar_one_or_none {ℓ} : {A : Type ℓ} → List A → Exec Db FinanceError (Option A)
scalar_one_or_none [] = pure none
scalar_one_or_none (a ∷ []) = pure (some a)
scalar_one_or_none (a ∷ b ∷ rest) = raise FinanceError.multiple_results

abbrev pub is_account_of : ℕ → AccountType → FinancialAccount → Bool
is_account_of store kind a = a.store_id == store && same_type a.account_type kind

-- `f"{account_type.title()} Account"`
unfoldable pub default_bank_name : AccountType → String
default_bank_name AccountType.current = "Current Account"
default_bank_name AccountType.savings = "Savings Account"
default_bank_name AccountType.virtual = "Virtual Account"
default_bank_name AccountType.operating = "Operating Account"
default_bank_name AccountType.revenue = "Revenue Account"
default_bank_name AccountType.liability = "Liability Account"
default_bank_name AccountType.escrow = "Escrow Account"
default_bank_name AccountType.reserve = "Reserve Account"

abbrev pub opened : ℕ → AccountType → Db → FinancialAccount
opened store kind db = record {
  id = db.next_account;
  store_id = store;
  account_type = kind;
  bank_name = default_bank_name kind;
  balance = pos 0;
}

-- `db.session.add(account); db.session.flush()`
abbrev pub open_account : ℕ → AccountType → Exec Db FinanceError FinancialAccount
open_account store kind = do
  account ← gets (opened store kind)
  modify (λ db. record db { accounts = account ∷ db.accounts; next_account = suc db.next_account })
  pure account

-- No caller passes `bank_name`.
unfoldable pub get_or_create_account : ℕ → AccountType → Exec Db FinanceError FinancialAccount
get_or_create_account store kind = do
  account ← scalar_one_or_none (← gets (λ db. select (is_account_of store kind) db.accounts))
  elim account [ some a ↦ pure a | none ↦ open_account store kind ]

-- `account_type in ("OPERATING", "RESERVE")`
abbrev pub is_asset : AccountType → Bool
is_asset AccountType.operating = true
is_asset AccountType.reserve = true
is_asset _ = false

abbrev pub after_debit : AccountType → ℤ → ℤ → ℤ
after_debit kind balance amount = if is_asset kind then balance +ℤ amount else balance -ℤ amount

abbrev pub after_credit : AccountType → ℤ → ℤ → ℤ
after_credit kind balance amount = if is_asset kind then balance -ℤ amount else balance +ℤ amount

-- An assignment to the balance of the account object with this id.
abbrev pub update_balance : ℕ → (ℤ → ℤ) → List FinancialAccount → List FinancialAccount
update_balance i f [] = []
update_balance i f (a ∷ rest) =
    (if a.id == i then record a { balance = f a.balance } else a) ∷ update_balance i f rest

abbrev pub entry : EntryType → ℕ → ℤ → ℤ → ℕ → LedgerEntry
entry kind account amount after txn = record {
  account_id = account;
  entry_type = kind;
  amount = amount;
  balance_after = after;
  reference_id = txn;
}

-- The two entries and the two balances of a transaction between accounts with different ids.
abbrev pub post : AccountType → AccountType → FinancialAccount → FinancialAccount → ℤ → ℕ → Db → Db
post debit_type credit_type d c amount txn db = record db {
  entries =
      entry EntryType.credit c.id amount (after_credit credit_type c.balance amount) txn
      ∷ entry EntryType.debit d.id amount (after_debit debit_type d.balance amount) txn
      ∷ db.entries;
  accounts =
      update_balance c.id (λ b. after_credit credit_type b amount)
        (update_balance d.id (λ b. after_debit debit_type b amount) db.accounts);
}

-- The steps that follow the two accounts.
abbrev pub finish :
    AccountType → AccountType → ℤ → ℕ → FinancialAccount → FinancialAccount → Exec Db FinanceError ℕ
finish debit_type credit_type amount txn d c = do
  raise_if (d.id == c.id) FinanceError.same_account
  modify (post debit_type credit_type d c amount txn)
  pure txn

unfoldable pub record_transaction : ℕ → AccountType → AccountType → ℤ → ℕ → Exec Db FinanceError ℕ
unfolding get_or_create_account
record_transaction store debit_type credit_type amount txn = do
  raise_if (leb_ℤ amount (pos 0)) FinanceError.amount_not_positive
  d ← get_or_create_account store debit_type
  c ← get_or_create_account store credit_type
  finish debit_type credit_type amount txn d c

abbrev pub is_entry_of : ℕ → EntryType → LedgerEntry → Bool
is_entry_of i EntryType.debit e =
    e.account_id == i && elim e.entry_type [ EntryType.debit ↦ true | EntryType.credit ↦ false ]
is_entry_of i EntryType.credit e =
    e.account_id == i && elim e.entry_type [ EntryType.debit ↦ false | EntryType.credit ↦ true ]

-- `select(func.sum(LedgerEntry.amount)).filter_by(…)`, with 0 for no row
unfoldable pub sum_amounts : ℕ → EntryType → List LedgerEntry → ℤ
sum_amounts i kind [] = pos 0
sum_amounts i kind (e ∷ rest) =
    let others = sum_amounts i kind rest in
    if is_entry_of i kind e then e.amount +ℤ others else others

abbrev pub has_id : ℕ → FinancialAccount → Bool
has_id i a = a.id == i

unfoldable pub audited : AccountType → ℕ → List LedgerEntry → ℤ
audited kind i entries =
    if is_asset kind
    then sum_amounts i EntryType.debit entries -ℤ sum_amounts i EntryType.credit entries
    else sum_amounts i EntryType.credit entries -ℤ sum_amounts i EntryType.debit entries

unfoldable pub get_account_balance : ℕ → Db → ℤ
get_account_balance i db = elim (find_first (has_id i) db.accounts) [
  | none ↦ pos 0
  | some a ↦ audited a.account_type i db.entries
]
