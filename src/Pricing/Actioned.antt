-- ===== src/Pricing/Actioned.antt =====
-- app/pricing/routes.py: a suggestion is acted on once.
use retail_iq.Base.{
  ℕ, ◌≡◌, refl, sym, subst, ◌⊎◌, true, false, some, ◌∷◌, arith, ◌==◌, find_first, update_first,
  find_first-update_self, find_first-update_other, Bool-cases, Option-cases, inl, inr,
}
use retail_iq.Base.Keys.{find_first-test}
use retail_iq.Base.Int.{ℤ}
use retail_iq.Base.Exec.{ok, err}
use retail_iq.Inventory.Models.{Product}
use retail_iq.Inventory.Products.{is_product}
use retail_iq.Pricing.Models.{Status, PricingSuggestion, PriceChange, Db, Problem}
use retail_iq.Pricing.Routes.{
  is_suggestion, is_pending, if_any, set_price, set_status, change, applied, apply_suggestion,
  dismiss_suggestion,
}

-- What an applied suggestion leaves.
pub record Applies (now store user i : ℕ) (before after : Db) : Type 0 where
  pub suggestion : PricingSuggestion
  pub product : Product
  pub price : ℤ
  pub was : find_first (is_suggestion store i) before.suggestions ≡ some suggestion
  pub was_pending : suggestion.status ≡ Status.pending
  pub suggested : suggestion.suggested_price ≡ some price
  pub sold : find_first (is_product store suggestion.product_id) before.products ≡ some product
  pub is_applied :
      find_first (is_suggestion store i) after.suggestions
      ≡ some (record suggestion { status = Status.applied; actioned_at = some now })
  pub priced :
      find_first (is_product store suggestion.product_id) after.products
      ≡ some (record product { selling_price = some price })
  pub others :
      (s j : ℕ)
      → (j == suggestion.product_id) ≡ false
      → find_first (is_product s j) after.products ≡ find_first (is_product s j) before.products
  pub change : PriceChange
  pub logged : after.history ≡ change ∷ before.history
  pub of_product : change.product_id ≡ suggestion.product_id
  pub old : change.old_price ≡ if_any product.selling_price
  pub new : change.new_price ≡ price
  pub by : (change.suggestion_id ≡ i) × (change.changed_by ≡ user) × (change.store_id ≡ store)
  pub once :
      (later who : ℕ)
      → apply_suggestion later store who i after ≡ err Problem.already_actioned after
  pub kept :
      (later : ℕ) → dismiss_suggestion later store i after ≡ err Problem.already_actioned after

pending_eq : (s : Status) → is_pending s ≡ true → s ≡ Status.pending
pending_eq Status.pending h = refl
pending_eq Status.applied h = cc
pending_eq Status.dismissed h = cc

apart_id :
    (store pid s j : ℕ) (p : Product)
    → (j == pid) ≡ false
    → is_product store pid p ≡ true
    → is_product s j p ≡ false
apart_id store pid s j p apart h = ground arith

product_id_of : (store pid : ℕ) (p : Product) → is_product store pid p ≡ true → p.product_id ≡ pid
product_id_of store pid p h = ground arith

refused_apply :
    (now store user i : ℕ) (db : Db) (s : PricingSuggestion)
    → find_first (is_suggestion store i) db.suggestions ≡ some s
    → is_pending s.status ≡ false
    → apply_suggestion now store user i db ≡ err Problem.already_actioned db
unfolding apply_suggestion
refused_apply now store user i db s found done = rw (found, done, apply_suggestion) refl

refused_dismiss :
    (now store i : ℕ) (db : Db) (s : PricingSuggestion)
    → find_first (is_suggestion store i) db.suggestions ≡ some s
    → is_pending s.status ≡ false
    → dismiss_suggestion now store i db ≡ err Problem.already_actioned db
unfolding dismiss_suggestion
refused_dismiss now store i db s found done = rw (found, done, dismiss_suggestion) refl

module _ (now store user i : ℕ) (db : Db) (s : PricingSuggestion) (p : Product) (price : ℤ)
    (was : find_first (is_suggestion store i) db.suggestions ≡ some s)
    (sold : find_first (is_product store s.product_id) db.products ≡ some p) where
  same_product : p.product_id ≡ s.product_id
  same_product =
      product_id_of store s.product_id p
        (find_first-test (is_product store s.product_id) db.products sold)

  marked :
      find_first (is_suggestion store i) (applied now store user i price p db).suggestions
      ≡ some (set_status Status.applied now s)
  marked =
      find_first-update_self (is_suggestion store i) (set_status Status.applied now) (λ x t. t)
        db.suggestions was

  repriced :
      find_first (is_product store s.product_id) (applied now store user i price p db).products
      ≡ some (set_price price p)
  repriced =
      subst
        (λ j.
          find_first (is_product store s.product_id)
            (update_first (is_product store j) (set_price price) db.products)
          ≡ some (set_price price p))
        (sym same_product)
        (find_first-update_self (is_product store s.product_id) (set_price price) (λ x t. t)
          db.products sold)

  untouched :
      (t j : ℕ)
      → (j == s.product_id) ≡ false
      → find_first (is_product t j) (applied now store user i price p db).products
        ≡ find_first (is_product t j) db.products
  untouched t j apart =
      find_first-update_other (is_product store p.product_id) (set_price price) (is_product t j)
        (λ x u.
          let away =
            apart_id store p.product_id t j x
              (subst (λ k. (j == k) ≡ false) (sym same_product) apart) u in
          (away, away))
        db.products

  applied-Applies :
      is_pending s.status ≡ true
      → s.suggested_price ≡ some price
      → Applies now store user i db (applied now store user i price p db)
  applied-Applies open_ suggested = record {
    suggestion = s;
    product = p;
    price = price;
    was = was;
    was_pending = pending_eq s.status open_;
    suggested = suggested;
    sold = sold;
    is_applied = marked;
    priced = repriced;
    others = untouched;
    change = change store user i price p;
    logged = refl;
    of_product = same_product;
    old = refl;
    new = refl;
    by = (refl, refl, refl);
    once = λ later who.
        refused_apply later store who i (applied now store user i price p db)
          (set_status Status.applied now s) marked refl;
    kept = λ later.
        refused_dismiss later store i (applied now store user i price p db)
          (set_status Status.applied now s) marked refl;
  }

-- Applying a suggestion either is refused and changes nothing, or finds a pending suggestion with a
-- price and its product in the store, marks the one applied and gives the other that price, leaves
-- products with other ids as they were and adds one row to the history, with the price before, none
-- for zero, and after, the suggestion and the user; applying or dismissing the suggestion afterwards is refused and changes nothing.
pub apply_suggestion-Applies :
    (now store user i : ℕ) (db : Db)
    → ((e : Problem) × (apply_suggestion now store user i db ≡ err e db))
      ⊎ ((after : Db) × (apply_suggestion now store user i db ≡ ok tt after)
          × Applies now store user i db after)
unfolding apply_suggestion
apply_suggestion-Applies now store user i db =
    elim (Option-cases (find_first (is_suggestion store i) db.suggestions)) [
      | inl e ↦ inl (Problem.not_found, rw (e, apply_suggestion) refl)
      | inr (s, e) ↦ elim (Bool-cases (is_pending s.status)) [
        | inr t ↦ inl (Problem.already_actioned, rw (e, t, apply_suggestion) refl)
        | inl t ↦ elim (Option-cases (find_first (is_product store s.product_id) db.products)) [
          | inl f ↦ inl (Problem.product_not_found, rw (e, t, f, apply_suggestion) refl)
          | inr (p, f) ↦ elim (Option-cases s.suggested_price) [
            | inl g ↦ inl (Problem.server_error, rw (e, t, f, g, apply_suggestion) refl)
            | inr (price, g) ↦ inr (
              applied now store user i price p db,
              rw (e, t, f, g, apply_suggestion) refl,
              applied-Applies now store user i db s p price e f t g,
            )
          ]
        ]
      ]
    ]
