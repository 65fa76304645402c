-- ===== src/Finance/Insurance.antt =====
-- app/finance/insurance_engine.py: enrolment and parametric claims. A premium is taken to be a whole
-- number of paise.
use retail_iq.Base.{
  ℕ, suc, Bool, true, false, not, Option, List, [], ◌∷◌, ◌==◌, if◌then◌else◌, find_first,
}
use retail_iq.Base.Int.{ℤ}
use retail_iq.Base.Exec.{Exec, pure, gets, or_raise, raise_if, modify, ◌>>=◌, ◌>>◌}
use retail_iq.Finance.Models.{
  AccountType, InsuranceProduct, PolicyStatus, InsurancePolicy, ClaimStatus, InsuranceClaim, Db,
  FinanceError,
}
use retail_iq.Finance.Ledger.{record_transaction}

abbrev pub find_insurance : ℕ → Db → Option InsuranceProduct
find_insurance i db = find_first (λ p. p.id == i) db.insurance_products

abbrev pub find_policy : ℕ → Db → Option InsurancePolicy
find_policy i db = find_first (λ p. p.id == i) db.policies

abbrev pub policy : ℕ → InsuranceProduct → Db → InsurancePolicy
policy store product db = record {
  id = db.next_policy;
  store_id = store;
  product_id = product.id;
  premium_amount = product.premium_rate;
  coverage_amount = product.coverage_amount;
  status = PolicyStatus.active;
}

unfoldable pub enroll_merchant : ℕ → ℕ → ℕ → Exec Db FinanceError InsurancePolicy
enroll_merchant store product_id txn = do
  product ← or_raise (← gets (find_insurance product_id)) FinanceError.inactive_insurance
  raise_if (not product.is_active) FinanceError.inactive_insurance
  posted ← record_transaction store AccountType.savings AccountType.current product.premium_rate txn
  p ← gets (policy store product)
  modify (λ db. record db { policies = p ∷ db.policies; next_policy = suc db.next_policy })
  pure p

abbrev pub is_active_policy : PolicyStatus → Bool
is_active_policy PolicyStatus.active = true
is_active_policy _ = false

abbrev pub claim : ℕ → ℤ → Db → InsuranceClaim
claim policy_id payout db = record {
  id = db.next_claim;
  policy_id = policy_id;
  claim_amount = payout;
  approved_amount = payout;
  status = ClaimStatus.approved;
}

abbrev pub update_claims :
    ℕ → (InsuranceClaim → InsuranceClaim) → List InsuranceClaim → List InsuranceClaim
update_claims i f [] = []
update_claims i f (c ∷ rest) = (if c.id == i then f c else c) ∷ update_claims i f rest

-- The claim is added before the payout is posted, and marked as paid after it.
unfoldable pub trigger_parametric_claim : ℕ → ℤ → ℕ → Exec Db FinanceError ℕ
trigger_parametric_claim policy_id payout txn = do
  p ← or_raise (← gets (find_policy policy_id)) FinanceError.policy_not_active
  raise_if (not (is_active_policy p.status)) FinanceError.policy_not_active
  c ← gets (claim policy_id payout)
  modify (λ db. record db { claims = c ∷ db.claims; next_claim = suc db.next_claim })
  posted ← record_transaction p.store_id AccountType.operating AccountType.revenue payout txn
  modify (λ db. record db {
    claims = update_claims c.id (λ x. record x { status = ClaimStatus.paid }) db.claims;
  })
  pure c.id
