-- ===== src/Transactions/Batch.antt =====
-- What a batch of sales does to the sales and to its report.
use retail_iq.Base.{
  ℕ, ◌+◌, ◌≡◌, refl, ◌≢◌, true, false, Option, none, some, List, [], ◌∷◌, arith, ◌==◌, length, All,
  Bool-cases, inl, inr,
}
use retail_iq.Base.Keys.{DistinctBy}
use retail_iq.Base.Int.{ℤ}
use retail_iq.Base.Exec.{Outcome, ok, err}
use retail_iq.Transactions.Models.{Transaction, Db, SaleRequest, SaleError}
use retail_iq.Transactions.Sale.{
  NewIds, has_transaction, process_single_transaction, BatchReport, count_sale, process_batch,
}
use retail_iq.Transactions.Sells.{Sells, process_single_transaction-Sells}

-- No two sales have one id.
abbrev pub IsUnique : Db → Type 0
IsUnique db = DistinctBy (λ t. t.transaction_id) db.transactions

absent-All :
    (i : ℕ) (rows : List Transaction)
    → has_transaction i rows ≡ false
    → All (λ t. t.transaction_id ≢ i) rows
absent-All i [] h = tt
absent-All i (t ∷ rest) h = elim (Bool-cases (t.transaction_id == i)) [
  | inl u ↦ absurd (cc (rw u at h))
  | inr u ↦ (λ e. absurd (ground arith), absent-All i rest (rw u at h))
]

-- What `n` more sales do to a report and the sales.
abbrev pub Counts : ℕ → BatchReport → Db → BatchReport × Db → Type 0
Counts n r db (r', db') =
    (length db'.transactions + r.accepted ≡ length db.transactions + r'.accepted)
    × (r'.rejected + length r.errors ≡ r.rejected + length r'.errors)
    × ((skipped : ℕ) × (r'.accepted + r'.rejected + skipped ≡ r.accepted + r.rejected + n))

count-IsUnique :
    (sid : ℕ) (sale : SaleRequest) (db : Db) (r : BatchReport) (o : Outcome Db SaleError (Option ℕ))
    → Sells sid true sale db o
    → IsUnique db
    → IsUnique (count_sale sale db r o).1
count-IsUnique sid sale db r (ok none db') (b, h, same) u = rw same u
count-IsUnique sid sale db r (ok (some i) db') (e, new, takes) u =
    rw (takes.1) (absent-All sale.transaction_id db.transactions new, u)
count-IsUnique sid sale db r (err x db') h u = u

count-Counts :
    (sid : ℕ) (sale : SaleRequest) (db : Db) (r : BatchReport) (o : Outcome Db SaleError (Option ℕ))
    → Sells sid true sale db o
    → Counts 1 r db (count_sale sale db r o)
count-Counts sid sale db r (ok none db') (b, h, same) = rw same (refl, refl, (1, omega arith))
count-Counts sid sale db r (ok (some i) db') (e, new, takes) =
    rw (takes.1) (omega arith, omega arith, (0, omega arith))
count-Counts sid sale db r (err x db') h = (omega arith, omega arith, (0, omega arith))

-- A batch keeps the ids of the sales distinct. Its report accepts as many sales as it adds, has one
-- error for each rejected sale, and counts no sale of the batch twice.
pub process_batch-Counts :
    (stored : ℕ → ℤ → ℤ) (sid : ℕ) (sales : List (NewIds × SaleRequest)) (r : BatchReport) (db : Db)
    → IsUnique db
    → let q = process_batch stored sid sales r db in IsUnique q.1 × Counts (length sales) r db q
unfolding process_batch
process_batch-Counts stored sid [] r db u = (u, (refl, refl, (0, omega arith)))
process_batch-Counts stored sid ((new, sale) ∷ rest) r db u =
    let o = process_single_transaction stored new true sid sale db in
    let sells = process_single_transaction-Sells stored new true sid sale db in
    let q = count_sale sale db r o in
    let (accepted, errors, (skipped, all)) = count-Counts sid sale db r o sells in
    let (u', (accepted', errors', (skipped', all'))) =
      process_batch-Counts stored sid rest q.0 q.1 (count-IsUnique sid sale db r o sells u) in
    (u', (omega arith, omega arith, (skipped + skipped', omega arith)))
