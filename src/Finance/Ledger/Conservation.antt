-- ===== src/Finance/Ledger/Conservation.antt =====
-- A posting adds to one side what it adds to the other, so the net worth stays.
use retail_iq.Base.{
  ℕ, ◌≡◌, refl, subst, ◌≢◌, true, false, List, [], ◌∷◌, arith, ◌==◌, All, Bool-cases, inl, inr,
}
use retail_iq.Base.Int.{ℤ, pos, ◌+ℤ◌, ◌-ℤ◌, int_laws}
use retail_iq.Finance.Models.{AccountType, FinancialAccount}
use retail_iq.Finance.Ledger.{is_asset, after_debit, after_credit, update_balance}
use retail_iq.Finance.Ledger.Posting.{Distinct-update_balance}
use retail_iq.Finance.Ledger.Invariant.{Distinct, Typed, contains, signed, net_worth}

-- An id that no account has is updated nowhere.
update_balance_absent :
    (i : ℕ) (f : ℤ → ℤ) (accounts : List FinancialAccount)
    → All (λ b. b.id ≢ i) accounts
    → update_balance i f accounts ≡ accounts
update_balance_absent i f [] h = refl
update_balance_absent i f (a ∷ rest) h =
    let t : (a.id == i) ≡ false = ground (arith, h.0) in rw (t, update_balance_absent i f rest h.1)

signed-after_debit :
    (kind : AccountType) (b amount n : ℤ)
    → signed kind (after_debit kind b amount) n ≡ signed kind b n +ℤ amount
signed-after_debit kind b amount n = elim (Bool-cases (is_asset kind)) [
  | inl t ↦ rw t (omega int_laws)
  | inr t ↦ rw t (omega int_laws)
]

signed-after_credit :
    (kind : AccountType) (b amount n : ℤ)
    → signed kind (after_credit kind b amount) n ≡ signed kind b n -ℤ amount
signed-after_credit kind b amount n = elim (Bool-cases (is_asset kind)) [
  | inl t ↦ rw t (omega int_laws)
  | inr t ↦ rw t (omega int_laws)
]

signed_shift :
    (kind : AccountType) (b n delta : ℤ) → signed kind b (n +ℤ delta) ≡ signed kind b n +ℤ delta
signed_shift kind b n delta = elim (Bool-cases (is_asset kind)) [
  | inl t ↦ rw t (omega int_laws)
  | inr t ↦ rw t (omega int_laws)
]

-- An update that shifts the signed balance of one account shifts the net worth as much.
net_worth-update_balance :
    (i : ℕ) (kind : AccountType) (f : ℤ → ℤ) (delta : ℤ)
    → ((b n : ℤ) → signed kind (f b) n ≡ signed kind b n +ℤ delta)
    → (accounts : List FinancialAccount) → Distinct accounts
    → Typed i kind accounts
    → contains i accounts ≡ true
    → net_worth (update_balance i f accounts) ≡ net_worth accounts +ℤ delta
unfolding net_worth
net_worth-update_balance i kind f delta shift [] u t held = cc
net_worth-update_balance i kind f delta shift (a ∷ rest) u t held = elim (Bool-cases (a.id == i)) [
  | inl e ↦
      let eq : a.id ≡ i = ground arith in
      rw (e, update_balance_absent i f rest (subst (λ j. All (λ b. b.id ≢ j) rest) eq u.0), t.0 eq)
        (shift a.balance (net_worth rest))
  | inr e ↦
      let held' : contains i rest ≡ true = rw e at held in
      rw (e, net_worth-update_balance i kind f delta shift rest u.1 t.1 held')
        (signed_shift a.account_type a.balance (net_worth rest) delta)
]

Typed-update_balance :
    (i j : ℕ) (kind : AccountType) (f : ℤ → ℤ) (accounts : List FinancialAccount)
    → Typed j kind accounts
    → Typed j kind (update_balance i f accounts)
Typed-update_balance i j kind f [] h = tt
Typed-update_balance i j kind f (a ∷ rest) h = elim (Bool-cases (a.id == i)) [
  | inl t ↦ rw t (h.0, Typed-update_balance i j kind f rest h.1)
  | inr t ↦ rw t (h.0, Typed-update_balance i j kind f rest h.1)
]

contains-update_balance :
    (i j : ℕ) (f : ℤ → ℤ) (accounts : List FinancialAccount)
    → contains j (update_balance i f accounts) ≡ contains j accounts
contains-update_balance i j f [] = refl
contains-update_balance i j f (a ∷ rest) = elim (Bool-cases (a.id == i)) [
  | inl t ↦ rw (t, contains-update_balance i j f rest)
  | inr t ↦ rw (t, contains-update_balance i j f rest)
]

-- The debit and the credit cancel.
pub net_worth-post :
    (dt ct : AccountType) (d c : ℕ) (amount : ℤ) (accounts : List FinancialAccount)
    → Distinct accounts
    → Typed d dt accounts
    → Typed c ct accounts
    → contains d accounts ≡ true
    → contains c accounts ≡ true
    → net_worth (
        update_balance c
          (λ b. after_credit ct b amount)
          (update_balance d (λ b. after_debit dt b amount) accounts))
      ≡ net_worth accounts
net_worth-post dt ct d c amount accounts u td tc hd hc =
    let debit = λ (b : ℤ). after_debit dt b amount in
    let debited = update_balance d debit accounts in
    let up =
      net_worth-update_balance d dt debit amount (λ b n. signed-after_debit dt b amount n) accounts
        u td hd in
    let down =
      net_worth-update_balance c ct (λ b. after_credit ct b amount) (pos 0 -ℤ amount)
        (λ b n. rw (signed-after_credit ct b amount n) (omega int_laws)) debited
        (Distinct-update_balance d debit accounts u) (Typed-update_balance d c ct debit accounts tc)
        (rw (contains-update_balance d c debit accounts) hc) in
    rw (down, up) (omega int_laws)
