-- ===== src/Loyalty/Requests.antt =====
-- The loyalty handlers as one function of a request.
use retail_iq.Base.{
  ℕ, ◌==◌, map_where, refl, Option, List, Bool-cases, Option-cases, inl, inr, find_first,
}
use retail_iq.Base.Int.{ℤ, pos, ltb_ℤ}
use retail_iq.Loyalty.Models.{Db}
use retail_iq.Loyalty.Tiers.{
  find_program, ensure_loyalty_program, ensure_default_tier, is_taken, patched, ProgramPatch,
  patch_program, upsert_loyalty_program, is_valid_patch, TierBody, create_loyalty_tier,
  update_loyalty_tier, is_tier_of, delete_loyalty_tier,
}
use retail_iq.Loyalty.Accounts.{
  enroll_loyalty_customer, redeem_loyalty_points, adjust_loyalty_points, Adjustment,
  bulk_adjust_loyalty_points, update_customer_loyalty_tier, repay_credit, is_ledger_of,
}
use retail_iq.Loyalty.Reconciled.{IsReconciled}
use retail_iq.Loyalty.Calls.{
  IsFresh, SamePoints, SamePoints-refl, SamePoints-IsReconciled, ensure_loyalty_program-SamePoints,
  ensure_default_tier-SamePoints, redeem-IsReconciled, adjust-IsReconciled, bulk-IsReconciled,
  set-IsReconciled, delete-IsReconciled, enroll-IsReconciled,
}

pub data Request : Type 0 where
  upsert : ℕ → ℕ → ProgramPatch → Request
  create_tier : ℕ → ℕ → ℕ → TierBody → Request
  update_tier : ℕ → TierBody → Request
  delete_tier : ℕ → ℕ → Request
  enroll : ℕ → ℕ → ℕ → ℕ → Request
  redeem : ℕ → Option ℕ → ℤ → Request
  adjust : ℕ → Option ℤ → Request
  bulk : List Adjustment → Request
  set_tier : ℕ → Option ℕ → Request
  repay : ℕ → ℤ → Request

-- The database after a request to the store `sid`.
pub serve : ℕ → Request → Db → Db
serve sid (Request.upsert p t body) db = (upsert_loyalty_program p t sid body db).0
serve sid (Request.create_tier p t i body) db = (create_loyalty_tier p t i sid body db).0
serve sid (Request.update_tier i body) db = (update_loyalty_tier i sid body db).0
serve sid (Request.delete_tier t i) db = (delete_loyalty_tier t i sid db).0
serve sid (Request.enroll p t i customer) db = (enroll_loyalty_customer p t i customer sid db).0
serve sid (Request.redeem customer sale points) db =
    (redeem_loyalty_points customer sid sale points db).0
serve sid (Request.adjust customer points) db = (adjust_loyalty_points customer sid points db).0
serve sid (Request.bulk js) db = (bulk_adjust_loyalty_points sid js db).1
serve sid (Request.set_tier customer tier) db =
    (update_customer_loyalty_tier customer sid tier db).0
serve sid (Request.repay customer amount) db = (repay_credit customer sid amount db).0

-- A new account gets an id that is not in use.
abbrev pub IsFreshRequest : Request → Db → Type 0
IsFreshRequest (Request.enroll p t i customer) db = IsFresh i db
IsFreshRequest _ db = Unit

upsert-SamePoints :
    (new_program new_tier sid : ℕ) (body : ProgramPatch) (db : Db)
    → SamePoints db (upsert_loyalty_program new_program new_tier sid body db).0
unfolding upsert_loyalty_program
upsert-SamePoints new_program new_tier sid body db =
    elim (Bool-cases (is_valid_patch body.expiry_days)) [
      | inr t ↦ rw t (SamePoints-refl db)
      | inl t ↦
          let r = ensure_loyalty_program new_program sid db in
          let same = ensure_loyalty_program-SamePoints new_program sid db in
          let q = record r.1 {
            programs = map_where (λ p. p.id == r.0.id) (patch_program body) r.1.programs;
          } in
          let same' = ensure_default_tier-SamePoints new_tier (patch_program body r.0) q in
          elim (Option-cases (ensure_default_tier new_tier (patch_program body r.0) q)) [
            | inl g ↦ rw (t, g) (SamePoints-refl db)
            | inr (d, g) ↦
                let same'' : SamePoints q d.1 = rw g at same' in
                rw (t, g)
                  (record {
                    accounts = rw (same''.accounts) same.accounts;
                    transactions = rw (same''.transactions) same.transactions;
                  })
          ]
    ]

create-SamePoints :
    (new_program new_default i sid : ℕ) (body : TierBody) (db : Db)
    → SamePoints db (create_loyalty_tier new_program new_default i sid body db).0
unfolding create_loyalty_tier
create-SamePoints new_program new_default i sid body db = elim (Option-cases body.name) [
  | inl e ↦ rw (e, create_loyalty_tier) (SamePoints-refl db)
  | inr (name, e) ↦
      let r = ensure_loyalty_program new_program sid db in
      let same = ensure_loyalty_program-SamePoints new_program sid db in
      let same' = ensure_default_tier-SamePoints new_default r.0 r.1 in
      elim (Option-cases (ensure_default_tier new_default r.0 r.1)) [
        | inl g ↦ rw (e, g, create_loyalty_tier) (SamePoints-refl db)
        | inr (d, g) ↦ elim (Bool-cases (is_taken i r.0.id name d.1)) [
          | inl t ↦ rw (e, g, t, create_loyalty_tier) (SamePoints-refl db)
          | inr t ↦
              let same'' : SamePoints r.1 d.1 = rw g at same' in
              rw (e, g, t, create_loyalty_tier)
                (record {
                  accounts = rw same''.accounts same.accounts;
                  transactions = rw same''.transactions same.transactions;
                })
        ]
      ]
]

update-SamePoints :
    (i sid : ℕ) (body : TierBody) (db : Db) → SamePoints db (update_loyalty_tier i sid body db).0
unfolding update_loyalty_tier
update-SamePoints i sid body db = elim (Option-cases (find_program sid db)) [
  | inl e ↦ rw (e, update_loyalty_tier) (SamePoints-refl db)
  | inr (p, e) ↦ elim (Option-cases (find_first (is_tier_of i p.id) db.tiers)) [
    | inl f ↦ rw (e, f, update_loyalty_tier) (SamePoints-refl db)
    | inr (t, f) ↦ elim (Bool-cases (is_taken i p.id (patched body.name t.name) db)) [
      | inl u ↦ rw (e, f, u, update_loyalty_tier) (SamePoints-refl db)
      | inr u ↦ rw (e, f, u, update_loyalty_tier) (record { accounts = refl; transactions = refl })
    ]
  ]
]

repay-SamePoints :
    (customer sid : ℕ) (amount : ℤ) (db : Db)
    → SamePoints db (repay_credit customer sid amount db).0
unfolding repay_credit
repay-SamePoints customer sid amount db = elim (Bool-cases (ltb_ℤ amount (pos 1))) [
  | inl t ↦ rw t (SamePoints-refl db)
  | inr t ↦ elim (Option-cases (find_first (is_ledger_of customer sid) db.ledgers)) [
    | inl e ↦ rw (e, repay_credit) (rw t (SamePoints-refl db))
    | inr (l, e) ↦ rw (e, repay_credit) (rw t (record { accounts = refl; transactions = refl }))
  ]
]

-- A request in which a new account has a fresh id keeps the points reconciled: account ids
-- distinct, every account with the points that its transactions add up to and all of them
-- redeemable, and every transaction with the balance of its account at its time.
pub serve-IsReconciled :
    (sid : ℕ) (request : Request) (db : Db)
    → IsFreshRequest request db
    → IsReconciled db
    → IsReconciled (serve sid request db)
unfolding serve
serve-IsReconciled sid (Request.upsert p t body) db fresh h =
    SamePoints-IsReconciled db _ (upsert-SamePoints p t sid body db) h
serve-IsReconciled sid (Request.create_tier p t i body) db fresh h =
    SamePoints-IsReconciled db _ (create-SamePoints p t i sid body db) h
serve-IsReconciled sid (Request.update_tier i body) db fresh h =
    SamePoints-IsReconciled db _ (update-SamePoints i sid body db) h
serve-IsReconciled sid (Request.delete_tier t i) db fresh h = delete-IsReconciled t i sid db h
serve-IsReconciled sid (Request.enroll p t i customer) db fresh h =
    enroll-IsReconciled p t i customer sid db fresh h
serve-IsReconciled sid (Request.redeem customer sale points) db fresh h =
    redeem-IsReconciled customer sid sale points db h
serve-IsReconciled sid (Request.adjust customer points) db fresh h =
    adjust-IsReconciled customer sid points db h
serve-IsReconciled sid (Request.bulk js) db fresh h = bulk-IsReconciled sid js db h
serve-IsReconciled sid (Request.set_tier customer tier) db fresh h =
    set-IsReconciled customer sid tier db h
serve-IsReconciled sid (Request.repay customer amount) db fresh h =
    SamePoints-IsReconciled db _ (repay-SamePoints customer sid amount db) h
