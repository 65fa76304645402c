-- ===== src/Loyalty/Repay.antt =====
-- What a repayment of customer credit does, on every outcome.
use retail_iq.Base.{
  ℕ, ◌≡◌, refl, true, false, ◌&&◌, Option, none, some, ◌∷◌, arith, ◌==◌, find_first, Bool-cases,
  Option-cases, inl, inr, find_first-update_self, find_first-update_other,
}
use retail_iq.Base.Int.{ℤ, pos, neg, ◌-ℤ◌, ◌<ℤ◌, ltb_ℤ, int_laws}
use retail_iq.Loyalty.Models.{CreditLedger, CreditKind, Db, Reply, success, failure}
use retail_iq.Loyalty.Accounts.{is_ledger_of, lowered, repay_credit}

abbrev pub find_ledger : ℕ → ℕ → Db → Option CreditLedger
find_ledger customer sid db = find_first (is_ledger_of customer sid) db.ledgers

-- How a repayment has ended.
abbrev pub Lowers : ℕ → ℕ → ℤ → Db → Db × Reply → Type 0
Lowers customer sid amount db (db', success code) =
    (l : CreditLedger) × (find_ledger customer sid db ≡ some l)
    × (find_ledger customer sid db' ≡ some (record l { balance = l.balance -ℤ amount }))
    × (l.balance -ℤ amount <ℤ l.balance)
    × ((c s : ℕ) → (c == customer && s == sid) ≡ false → find_ledger c s db' ≡ find_ledger c s db)
    × (db'.credit_transactions
        ≡ record {
          ledger_id = l.id;
          transaction_id = none;
          kind = CreditKind.repayment;
          amount = neg amount;
          balance_after = l.balance -ℤ amount;
        }
          ∷ db.credit_transactions)
Lowers customer sid amount db (db', failure p code) = db' ≡ db

other_ledger :
    (customer sid c s : ℕ) (l : CreditLedger)
    → (c == customer && s == sid) ≡ false
    → is_ledger_of customer sid l ≡ true
    → is_ledger_of c s l ≡ false
other_ledger customer sid c s l ne t = ground arith

-- A repayment of customer credit either is refused and changes nothing, or takes a positive amount off
-- the balance of the customer's ledger in the store, leaves every other ledger as it was, and adds one
-- transaction of minus the amount with the new balance.
pub repay_credit-Lowers :
    (customer sid : ℕ) (amount : ℤ) (db : Db)
    → Lowers customer sid amount db (repay_credit customer sid amount db)
unfolding repay_credit
repay_credit-Lowers customer sid amount db = elim (Bool-cases (ltb_ℤ amount (pos 1))) [
  | inl t ↦ rw t refl
  | inr t ↦ elim (Option-cases (find_ledger customer sid db)) [
    | inl e ↦ rw (e, repay_credit) (rw t refl)
    | inr (l, e) ↦
        let positive : pos 0 <ℤ amount = ground arith in
        rw (e, repay_credit)
          (rw t (
            l,
            e,
            find_first-update_self (is_ledger_of customer sid) (lowered amount) (λ x h. h)
                db.ledgers e,
            omega (int_laws, positive),
            λ c s ne.
                find_first-update_other (is_ledger_of customer sid) (lowered amount)
                  (is_ledger_of c s) (λ x u. let v = other_ledger customer sid c s x ne u in (v, v))
                  db.ledgers,
            refl,
          ))
  ]
]
