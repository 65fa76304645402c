-- ===== src/Inventory/Audit.antt =====
-- app/inventory/routes.py: what a stock count leaves.
use retail_iq.Base.{
  ℕ, suc, ◌+◌, ◌≡◌, refl, sym, ap, ◌∙◌, subst, ◌⊎◌, inl, inr, Bool, true, false, Option, none, some,
  List, [], ◌∷◌, arith, ◌==◌, if◌then◌else◌, length, find_first, find_first-update_self,
  find_first-update_other, Bool-cases, Option-cases,
}
use mathlib.Core.Option.{some-injective}
use retail_iq.Base.Int.{ℤ, pos, ◌+ℤ◌, ◌-ℤ◌, int_laws}
use retail_iq.Base.Exec.{ok, err}
use retail_iq.Inventory.Models.{Product, StockAuditItem, Db, Count, Problem}
use retail_iq.Inventory.Products.{is_product, find_product}
use retail_iq.Inventory.Stock.{
  stock_of, set_stock, count_one, count_items, start_audit, stock_audit,
}

abbrev pub stock_or_none : Option Product → ℤ
stock_or_none none = pos 0
stock_or_none (some p) = stock_of p

-- The stock of a store's product, zero without a row.
abbrev pub stock_at : ℕ → ℕ → Db → ℤ
stock_at store pid db = stock_or_none (find_product store pid db)

-- The discrepancies on record for a product.
unfoldable pub recorded : ℕ → List StockAuditItem → ℤ
recorded pid [] = pos 0
recorded pid (i ∷ is) =
    let rest = recorded pid is in if i.product_id == pid then i.discrepancy +ℤ rest else rest

-- The last quantity counted for a product.
abbrev pub last_count : ℕ → List Count → Option ℤ
last_count pid [] = none
last_count pid (c ∷ cs) = elim (last_count pid cs) [
  | some q ↦ some q
  | none ↦ if c.product_id == pid then some c.actual_qty else none
]

abbrev pub counted_or : ℤ → Option ℤ → ℤ
counted_or q none = q
counted_or q (some r) = r

abbrev pub is_unknown : ℕ → Db → Count → Bool
is_unknown store db c = elim (find_product store c.product_id db) [ none ↦ true | some p ↦ false ]

-- What a count of a store's products does.
pub record Counts (store : ℕ) (items : List Count) (before after : Db) : Type 0 where
  pub rows : length after.audit_items ≡ length items + length before.audit_items
  pub last :
      (pid : ℕ)
      → stock_at store pid after ≡ counted_or (stock_at store pid before) (last_count pid items)
  pub balance :
      (pid : ℕ)
      → stock_at store pid after -ℤ recorded pid after.audit_items
        ≡ stock_at store pid before -ℤ recorded pid before.audit_items
  pub others :
      (s pid : ℕ) → (s == store) ≡ false → find_product s pid after ≡ find_product s pid before

apart_id :
    (store pid j : ℕ) (p : Product)
    → (j == pid) ≡ false
    → is_product store pid p ≡ true
    → is_product store j p ≡ false
apart_id store pid j p apart h = ground arith

apart_store :
    (store s pid j : ℕ) (p : Product)
    → (s == store) ≡ false
    → is_product store pid p ≡ true
    → is_product s j p ≡ false
apart_store store s pid j p apart h = ground arith

same_id : (pid j : ℕ) → (j == pid) ≡ true → j ≡ pid
same_id pid j h = ground arith

module _ (store audit : ℕ) (c : Count) (p : Product) (db : Db)
    (found : find_product store c.product_id db ≡ some p) where
  count_self :
      find_product store c.product_id (count_one store audit c p db)
      ≡ some (set_stock c.actual_qty p)
  count_self =
      find_first-update_self (is_product store c.product_id) (set_stock c.actual_qty) (λ x t. t)
        db.products found

  count_other :
      (j : ℕ)
      → (j == c.product_id) ≡ false
      → find_product store j (count_one store audit c p db) ≡ find_product store j db
  count_other j apart =
      find_first-update_other (is_product store c.product_id) (set_stock c.actual_qty)
        (is_product store j)
        (λ x t. (apart_id store c.product_id j x apart t, apart_id store c.product_id j x apart t))
        db.products

  count_elsewhere :
      (s j : ℕ)
      → (s == store) ≡ false
      → find_product s j (count_one store audit c p db) ≡ find_product s j db
  count_elsewhere s j apart =
      find_first-update_other (is_product store c.product_id) (set_stock c.actual_qty)
        (is_product s j)
        (λ x t. (
          apart_store store s c.product_id j x apart t,
          apart_store store s c.product_id j x apart t,
        ))
        db.products

  stock_after :
      (j : ℕ)
      → stock_at store j (count_one store audit c p db)
        ≡ (if c.product_id == j then c.actual_qty else stock_at store j db)
  stock_after j = elim (Bool-cases (c.product_id == j)) [
    | inl t ↦ rw (t, ← same_id j c.product_id t) (ap stock_or_none count_self)
    | inr t ↦ rw t (ap stock_or_none (count_other j (ground arith)))
  ]

  recorded_after :
      (j : ℕ)
      → recorded j (count_one store audit c p db).audit_items ≡ (
          if c.product_id == j
          then (c.actual_qty -ℤ stock_of p) +ℤ recorded j db.audit_items
          else recorded j db.audit_items)
  unfolding recorded
  recorded_after j = refl

  count_balance :
      (j : ℕ)
      → stock_at store j (count_one store audit c p db)
          -ℤ recorded j (count_one store audit c p db).audit_items
        ≡ stock_at store j db -ℤ recorded j db.audit_items
  count_balance j = elim (Bool-cases (c.product_id == j)) [
    | inl t ↦
        let here : stock_at store j db ≡ stock_of p =
          ap stock_or_none (rw (same_id j c.product_id t) at found) in
        rw (stock_after j, recorded_after j, t, here)
          (balanced c.actual_qty (stock_of p) (recorded j db.audit_items))
    | inr t ↦ rw (stock_after j, recorded_after j, t) refl
  ]
    where
      balanced : (a b r : ℤ) → a -ℤ ((a -ℤ b) +ℤ r) ≡ b -ℤ r
      balanced a b r = omega int_laws

later_count :
    (c : Count) (j : ℕ) (q : ℤ) (cs : List Count)
    → counted_or (if c.product_id == j then c.actual_qty else q) (last_count j cs)
      ≡ counted_or q (last_count j (c ∷ cs))
later_count c j q cs = elim (Option-cases (last_count j cs)) [
  | inr (r, e) ↦ rw (e, last_count) refl
  | inl e ↦ elim (Bool-cases (c.product_id == j)) [
    | inl t ↦ rw (e, t, last_count) refl
    | inr t ↦ rw (e, t, last_count) refl
  ]
]

shift_suc : (n k : ℕ) → n + suc k ≡ suc n + k
shift_suc n k = omega arith

zero_left : (n : ℕ) → n ≡ 0 + n
zero_left n = omega arith

count_items-Counts :
    (store audit : ℕ) (items : List Count) (db after : Db)
    → count_items store audit items db ≡ some after
    → Counts store items db after
unfolding count_items
count_items-Counts store audit [] db after e =
    let same : db ≡ after = some-injective _ _ e in
    rw (← same) (record {
      rows = zero_left (length db.audit_items);
      last = λ pid. refl;
      balance = λ pid. refl;
      others = λ s pid apart. refl;
    })
count_items-Counts store audit (c ∷ cs) db after e =
    elim (Option-cases (find_product store c.product_id db)) [
      | inl f ↦ cc (rw (f, count_items) at e)
      | inr (p, f) ↦
          let db1 = count_one store audit c p db in
          let ih = count_items-Counts store audit cs db1 after (rw (f, count_items) at e) in
          record {
            rows = ih.rows ∙ shift_suc (length cs) (length db.audit_items);
            last = λ pid.
                ih.last pid
                ∙ ap (λ q. counted_or q (last_count pid cs)) (stock_after store audit c p db f pid)
                ∙ later_count c pid (stock_at store pid db) cs;
            balance = λ pid. ih.balance pid ∙ count_balance store audit c p db f pid;
            others = λ s pid apart.
                ih.others s pid apart ∙ count_elsewhere store audit c p db f s pid apart;
          }
    ]

still_known :
    (store audit : ℕ) (c d : Count) (p : Product) (db : Db)
    → find_product store c.product_id db ≡ some p
    → is_unknown store (count_one store audit c p db) d ≡ true
    → is_unknown store db d ≡ true
still_known store audit c d p db found unknown = elim (Bool-cases (d.product_id == c.product_id)) [
  | inr t ↦ rw (count_other store audit c p db found d.product_id t, is_unknown) at unknown
  | inl t ↦
      let same = same_id c.product_id d.product_id t in
      let there =
        subst
          (λ i.
            find_product store i (count_one store audit c p db) ≡ some (set_stock c.actual_qty p))
          (sym same) (count_self store audit c p db found) in
      cc (rw (there, is_unknown) at unknown)
]

-- Some count names a product that the store does not have.
abbrev pub HasUnknown : ℕ → Db → List Count → Type 0
HasUnknown store db items = (c : Count) × (find_first (is_unknown store db) items ≡ some c)

find_first-weaken :
    (test other : Count → Bool)
    → ((c : Count) → test c ≡ true → other c ≡ true)
    → (cs : List Count) {c : Count} → find_first test cs ≡ some c
    → (d : Count) × (find_first other cs ≡ some d)
find_first-weaken test other imp [] e = cc
find_first-weaken test other imp (x ∷ xs) e = elim (Bool-cases (other x)) [
  | inl t ↦ (x, rw t refl)
  | inr t ↦ elim (Bool-cases (test x)) [
    | inl u ↦ cc (imp x u, t)
    | inr u ↦ rw t (find_first-weaken test other imp xs (rw u at e))
  ]
]

count_items-HasUnknown :
    (store audit : ℕ) (items : List Count) (db : Db)
    → count_items store audit items db ≡ none
    → HasUnknown store db items
unfolding count_items
count_items-HasUnknown store audit [] db e = cc
count_items-HasUnknown store audit (c ∷ cs) db e =
    elim (Option-cases (find_product store c.product_id db)) [
      | inl f ↦ (c, rw (f, is_unknown) refl)
      | inr (p, f) ↦
          let (d, g) =
            count_items-HasUnknown store audit cs (count_one store audit c p db)
              (rw (f, count_items) at e) in
          let (x, h) =
            find_first-weaken (is_unknown store (count_one store audit c p db))
              (is_unknown store db) (λ y. still_known store audit c y p db f) cs g in
          (x, rw (f, is_unknown) h)
    ]

-- A stock count either names a product that the store does not have, and then it is refused and
-- changes nothing, or records one row for each count and leaves each product of the store at the
-- quantity counted last, where it was counted, and at its stock otherwise; the stock less all
-- recorded discrepancies of a product stays what it was, and products of other stores are untouched.
pub stock_audit-Counts :
    (store user : ℕ) (items : List Count) (notes : Option ℕ) (db : Db)
    → ((stock_audit store user items notes db ≡ err Problem.product_not_found db)
        × HasUnknown store db items)
      ⊎ ((after : Db) × (stock_audit store user items notes db ≡ ok db.next_audit after)
          × Counts store items db after)
unfolding stock_audit
stock_audit-Counts store user items notes db =
    let start = start_audit store user notes db in
    elim (Option-cases (count_items store db.next_audit items start)) [
      | inl e ↦
          inl (rw (e, stock_audit) refl, count_items-HasUnknown store db.next_audit items start e)
      | inr (after, e) ↦
          let h = count_items-Counts store db.next_audit items start after e in
          inr (
            after,
            rw (e, stock_audit) refl,
            record { rows = h.rows; last = h.last; balance = h.balance; others = h.others },
          )
    ]
